-- ===== src/Capsules/History.antt =====
-- What `save_capsule` of src/forge_controller/repository.py does to the history, with writers that race.
use hermes_dev_team_vm.Prelude.{
  ◌+◌, ◌≡◌, ◌⊎◌, inl, inr, refl, sym, Bool, true, Option, none, some, ◌∷◌, eq_iff, Result, ok, err,
  checks, checks_iff, ok_unique, Memᴰ, Bool-cases, arith, not-false_iff, subst,
}
use hermes_dev_team_vm.Capsules.{
  TaskCapsule, CapsuleStore, checkpointed, CapsuleRevisionConflict, Transaction, committed,
  conflict, integrity_error, recorded_revision, latest_row, is_replay, revision_faults, is_taken,
  insert_capsule, save_unless, save_once, is_winner, after_race, save_capsule,
}
use hermes_dev_team_vm.Capsules.Chain.{
  IsChain, IsKept, latest_row_listed, recorded_revision_listed, insert-IsChain,
}

module _ {Payload : Type 0} (same_payload : Payload → Payload → Bool)
    (capsule : TaskCapsule Payload) where
  -- The capsule is stored under its revision.
  pub record IsStored (store : CapsuleStore Payload) : Type 0 where
    pub row : TaskCapsule Payload
    pub listed : Memᴰ row store.rows
    pub task : row.task_id ≡ capsule.task_id
    pub revision : row.revision ≡ capsule.revision
    pub same : (row ≡ capsule) ⊎ (is_replay same_payload row capsule ≡ true)

  -- A saved capsule: the chain holds, nothing is lost, and the capsule is there.
  pub record IsSaved (now after : CapsuleStore Payload) : Type 0 where
    pub chain : IsChain after
    pub kept : IsKept now after
    pub stored : IsStored after

  replayed-IsSaved :
      (before now after : CapsuleStore Payload) (r : TaskCapsule Payload)
      → IsChain after
      → IsKept before after
      → IsKept now after
      → recorded_revision same_payload capsule.task_id capsule.revision before.rows ≡ some r
      → is_replay same_payload r capsule ≡ true
      → IsSaved now after
  replayed-IsSaved before now after r chain kept kept' found same =
      let q =
        recorded_revision_listed same_payload capsule.task_id capsule.revision before.rows r
          found in
      record {
        chain = chain;
        kept = kept';
        stored = record {
          row = r;
          listed = kept r q.0;
          task = q.1;
          revision = q.2;
          same = inr same;
        };
      }

  -- What the checks leave of a new revision: it is the first, or follows the latest.
  link_of :
      (before now : CapsuleStore Payload) (o : Option (TaskCapsule Payload))
      → IsKept before now
      → latest_row same_payload capsule.task_id before.rows ≡ o
      → checks (revision_faults same_payload capsule o) ≡ ok tt
      → (capsule.revision ≡ 1)
        ⊎ ((p : TaskCapsule Payload) × Memᴰ p now.rows
            × (p.task_id ≡ capsule.task_id)
            × (p.revision + 1 ≡ capsule.revision)
            × (p.capsule_id ≡ capsule.capsule_id))
  link_of before now none kept e h =
      let p = (checks_iff (revision_faults same_payload capsule none)).0 h in inl (ground arith)
  link_of before now (some l) kept e h =
      let p = (checks_iff (revision_faults same_payload capsule (some l))).0 h in
      let q = latest_row_listed same_payload capsule.task_id before.rows l e in
      inr (
        l,
        kept l q.0,
        q.1,
        ground arith,
        sym ((eq_iff capsule.capsule_id l.capsule_id).0 ((not-false_iff _).0 p.1.0)),
      )

  insert_capsule-IsSaved :
      (now : CapsuleStore Payload) (checked : Result CapsuleRevisionConflict (Unit {0}))
      (after : CapsuleStore Payload)
      → IsChain now
      → (checked ≡ ok tt
          → (capsule.revision ≡ 1)
            ⊎ ((p : TaskCapsule Payload) × Memᴰ p now.rows
                × (p.task_id ≡ capsule.task_id)
                × (p.revision + 1 ≡ capsule.revision)
                × (p.capsule_id ≡ capsule.capsule_id)))
      → insert_capsule same_payload capsule now checked ≡ committed after
      → IsSaved now after
  insert_capsule-IsSaved now (err e) after c link h = cc
  insert_capsule-IsSaved now (ok u) after c link h =
      elim (Bool-cases (is_taken same_payload capsule now.rows)) [
        | inl taken ↦ let k = rw taken at h in cc
        | inr free ↦
            let k = rw free at h in
            let next : CapsuleStore Payload = record {
              rows = capsule ∷ now.rows;
              events = checkpointed capsule ∷ now.events;
            } in
            let s : next ≡ after = cc in
            subst (IsSaved now) s (record {
              chain = insert-IsChain same_payload capsule now c free (link refl);
              kept = λ row m. Memᴰ.tail m;
              stored = record {
                row = capsule;
                listed = Memᴰ.head refl;
                task = refl;
                revision = refl;
                same = inl refl;
              };
            })
      ]

  save_once-IsSaved :
      (before now after : CapsuleStore Payload)
      → IsChain now
      → IsKept before now
      → save_once same_payload capsule before now ≡ committed after
      → IsSaved now after
  unfolding save_once
  save_once-IsSaved before now after c kept h =
      by_row (recorded_revision same_payload capsule.task_id capsule.revision before.rows) refl h
    where
      by_row :
          (o : Option (TaskCapsule Payload))
          → recorded_revision same_payload capsule.task_id capsule.revision before.rows ≡ o
          → save_unless same_payload capsule now o
              (latest_row same_payload capsule.task_id before.rows)
            ≡ committed after
          → IsSaved now after
      by_row none e f =
          insert_capsule-IsSaved now _ after c
            (link_of before now (latest_row same_payload capsule.task_id before.rows) kept refl) f
      by_row (some r) e f = elim (Bool-cases (is_replay same_payload r capsule)) [
        | inr differs ↦ let k = rw differs at f in cc
        | inl same ↦
            let k = rw same at f in
            let s : now ≡ after = cc in
            subst (IsSaved now) s (replayed-IsSaved before now now r c kept (λ row m. m) e same)
      ]

  -- If `save_capsule` returns, also after a race with other writers, each revision of a task
  -- stands once and follows one of the same capsule, but for the first, and each row has its
  -- event; no row is lost, and the capsule is stored under its revision. The tables before the
  -- commit and at the second read are taken to be such chains, and to have only grown since the
  -- first read.
  pub save_capsule-IsSaved :
      (before now later after : CapsuleStore Payload)
      → IsChain now
      → IsChain later
      → IsKept before now
      → IsKept now later
      → save_capsule same_payload capsule before now later ≡ ok after
      → IsSaved now after
  unfolding save_capsule
  save_capsule-IsSaved before now later after c c' kept kept' h =
      by_transaction (save_once same_payload capsule before now) refl h
    where
      by_winner :
          (o : Option (TaskCapsule Payload))
          → recorded_revision same_payload capsule.task_id capsule.revision later.rows ≡ o
          → is_winner same_payload capsule o ≡ true
          → IsSaved now later
      by_winner none e w = cc
      by_winner (some r) e w = replayed-IsSaved later now later r c' (λ row m. m) kept' e w

      by_transaction :
          (t : Transaction (CapsuleStore Payload))
          → save_once same_payload capsule before now ≡ t
          → after_race same_payload capsule later t ≡ ok after
          → IsSaved now after
      by_transaction (committed s) e f =
          subst (IsSaved now) (ok_unique refl f) (save_once-IsSaved before now s c kept e)
      by_transaction (conflict x) e f = cc
      by_transaction integrity_error e f =
          elim (Bool-cases (
            is_winner same_payload capsule
              (recorded_revision same_payload capsule.task_id capsule.revision later.rows))) [
                | inr lost ↦ let k = rw lost at f in cc
                | inl won ↦
                    let k = rw won at f in
                    let s : later ≡ after = cc in subst (IsSaved now) s (by_winner _ refl won)
              ]
