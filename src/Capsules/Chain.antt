-- ===== src/Capsules/Chain.antt =====
-- The chain of revisions that src/forge_controller/repository.py keeps for each task.
use hermes_dev_team_vm.Prelude.{
  ℕ, ◌+◌, ◌≡◌, ◌⊎◌, inl, inr, refl, sym, ap, ◌∙◌, String, Bool, true, false, Option, none, some,
  List, [], ◌∷◌, map, ltb, ◌==◌, eq_iff, if◌then◌else◌, Memᴰ, Bool-cases, arith, or-false_iff,
  some_unique,
}
use hermes_dev_team_vm.Capsules.{
  TaskCapsule, CapsuleStore, checkpointed, is_revision, recorded_revision, later_row, latest_row,
  is_taken,
}

-- Each revision of a task stands once, and follows one of the same capsule, but for the first; and each
-- row has left its event.
pub record IsChain {Payload : Type 0} (store : CapsuleStore Payload) : Type 0 where
  pub linked :
      (row : TaskCapsule Payload)
      → Memᴰ row store.rows
      → (row.revision ≡ 1)
        ⊎ ((p : TaskCapsule Payload) × Memᴰ p store.rows
            × (p.task_id ≡ row.task_id)
            × (p.revision + 1 ≡ row.revision)
            × (p.capsule_id ≡ row.capsule_id))
  pub unique :
      (a b : TaskCapsule Payload)
      → Memᴰ a store.rows
      → Memᴰ b store.rows
      → a.task_id ≡ b.task_id
      → a.revision ≡ b.revision
      → a ≡ b
  pub logged : store.events ≡ map checkpointed store.rows

-- What was stored is stored still.
abbrev pub IsKept : {Payload : Type 0} → CapsuleStore Payload → CapsuleStore Payload → Type 0
IsKept {Payload} before now = (row : TaskCapsule Payload) → Memᴰ row before.rows → Memᴰ row now.rows

module _ {Payload : Type 0} (same_payload : Payload → Payload → Bool) where
  later_row-cases :
      (row other : TaskCapsule Payload)
      → (later_row same_payload row (some other) ≡ other)
        ⊎ (later_row same_payload row (some other) ≡ row)
  later_row-cases row other = by_test (ltb row.revision other.revision)
    where
      by_test :
          (b : Bool) → ((if b then other else row) ≡ other) ⊎ ((if b then other else row) ≡ row)
      by_test true = inl refl
      by_test false = inr refl

  pub latest_row_listed :
      (task_id : String) (rows : List (TaskCapsule Payload)) (r : TaskCapsule Payload)
      → latest_row same_payload task_id rows ≡ some r
      → Memᴰ r rows × (r.task_id ≡ task_id)
  unfolding latest_row
  latest_row_listed task_id [] r h = cc
  latest_row_listed task_id (row ∷ rows) r h = elim (Bool-cases (row.task_id == task_id)) [
    | inr other ↦ let q = latest_row_listed task_id rows r (rw other at h) in (Memᴰ.tail q.0, q.1)
    | inl same ↦
        by_rest same (λ other e. latest_row_listed task_id rows other e)
          (latest_row same_payload task_id rows) refl (rw same at h)
  ]
    where
      by_rest :
          row.task_id == task_id ≡ true
          → ((other : TaskCapsule Payload)
              → latest_row same_payload task_id rows ≡ some other
              → Memᴰ other rows × (other.task_id ≡ task_id))
          → (o : Option (TaskCapsule Payload)) → latest_row same_payload task_id rows ≡ o
          → some (later_row same_payload row o) ≡ some r
          → Memᴰ r (row ∷ rows) × (r.task_id ≡ task_id)
      by_rest same_task listed none e f =
          let s : row ≡ r = ground arith in
          (Memᴰ.head (sym s), rw (← s) ((eq_iff row.task_id task_id).0 same_task))
      by_rest same_task listed (some other) e f = by_choice (later_row-cases row other)
        where
          by_choice :
              (later_row same_payload row (some other) ≡ other)
                ⊎ (later_row same_payload row (some other) ≡ row)
              → Memᴰ r (row ∷ rows) × (r.task_id ≡ task_id)
          by_choice (inl c) =
              let q = listed other e in
              let s : other ≡ r = cc in (Memᴰ.tail (rw (← s) q.0), rw (← s) q.1)
          by_choice (inr c) =
              let s : row ≡ r = cc in
              (Memᴰ.head (sym s), rw (← s) ((eq_iff row.task_id task_id).0 same_task))

  is_taken-false :
      (capsule : TaskCapsule Payload) (rows : List (TaskCapsule Payload))
      (row : TaskCapsule Payload)
      → is_taken same_payload capsule rows ≡ false
      → Memᴰ row rows
      → row.task_id ≡ capsule.task_id
      → row.revision ≡ capsule.revision
      → ⊥
  unfolding is_taken is_revision
  is_taken-false capsule [] other h m t r = elim m [ ]
  is_taken-false capsule (row ∷ rows) other h (Memᴰ.head e) t r =
      let same_task = (eq_iff row.task_id capsule.task_id).1 (rw (← e) t) in
      let same_revision : row.revision ≡ capsule.revision = rw (← e) r in ground arith
  is_taken-false capsule (row ∷ rows) other h (Memᴰ.tail m) t r =
      is_taken-false capsule rows other ((or-false_iff _ _).0 h).1 m t r

  is_revision_fields :
      (task_id : String) (revision : ℕ) (row : TaskCapsule Payload)
      → is_revision same_payload task_id revision row ≡ true
      → (row.task_id ≡ task_id) × (row.revision ≡ revision)
  unfolding is_revision
  is_revision_fields task_id revision row h =
      ((eq_iff row.task_id task_id).0 (ground arith), ground arith)

  pub recorded_revision_listed :
      (task_id : String) (revision : ℕ) (rows : List (TaskCapsule Payload))
      (r : TaskCapsule Payload)
      → recorded_revision same_payload task_id revision rows ≡ some r
      → Memᴰ r rows × (r.task_id ≡ task_id) × (r.revision ≡ revision)
  unfolding recorded_revision
  recorded_revision_listed task_id revision [] r h = cc
  recorded_revision_listed task_id revision (row ∷ rows) r h =
      elim (Bool-cases (is_revision same_payload task_id revision row)) [
        | inr other ↦
            let q = recorded_revision_listed task_id revision rows r (rw other at h) in
            (Memᴰ.tail q.0, q.1, q.2)
        | inl found ↦
            let s : row ≡ r = some_unique refl (rw found at h) in
            let t = is_revision_fields task_id revision row found in
            (Memᴰ.head (sym s), rw (← s) t.0, rw (← s) t.1)
      ]

  -- A row that continues the chain keeps it.
  pub insert-IsChain :
      (capsule : TaskCapsule Payload) (now : CapsuleStore Payload)
      → IsChain now
      → is_taken same_payload capsule now.rows ≡ false
      → ((capsule.revision ≡ 1)
          ⊎ ((p : TaskCapsule Payload) × Memᴰ p now.rows
              × (p.task_id ≡ capsule.task_id)
              × (p.revision + 1 ≡ capsule.revision)
              × (p.capsule_id ≡ capsule.capsule_id)))
      → IsChain (record { rows = capsule ∷ now.rows; events = checkpointed capsule ∷ now.events })
  insert-IsChain capsule now c free link = record {
    linked = λ row m. elim m [
      | Memᴰ.head e ↦ rw e (elim link [
        | inl first ↦ inl first
        | inr (p, listed, t, r, i) ↦ inr (p, Memᴰ.tail listed, t, r, i)
      ])
      | Memᴰ.tail m ↦ elim (c.linked row m) [
        | inl first ↦ inl first
        | inr (p, listed, t, r, i) ↦ inr (p, Memᴰ.tail listed, t, r, i)
      ]
    ];
    unique = λ a b m n t r. by_places a b m n t r;
    logged = ap (λ es. checkpointed capsule ∷ es) c.logged;
  }
    where
      by_places :
          (a b : TaskCapsule Payload)
          → Memᴰ a (capsule ∷ now.rows)
          → Memᴰ b (capsule ∷ now.rows)
          → a.task_id ≡ b.task_id
          → a.revision ≡ b.revision
          → a ≡ b
      by_places a b (Memᴰ.head e) (Memᴰ.head f) t r = e ∙ sym f
      by_places a b (Memᴰ.head e) (Memᴰ.tail n) t r = absurd (
          is_taken-false capsule now.rows b free n (sym t ∙ ap (λ x. x.task_id) e)
            (sym r ∙ ap (λ x. x.revision) e))
      by_places a b (Memᴰ.tail m) (Memᴰ.head f) t r = absurd (
          is_taken-false capsule now.rows a free m (t ∙ ap (λ x. x.task_id) f)
            (r ∙ ap (λ x. x.revision) f))
      by_places a b (Memᴰ.tail m) (Memᴰ.tail n) t r = c.unique a b m n t r
