-- ===== src/Capsules/Gapless.antt =====
-- The histories that src/forge_controller/repository.py keeps: no gaps, and one capsule per task.
use hermes_dev_team_vm.Prelude.{
  ℕ, zero, suc, ◌+◌, ◌≤◌, ◌≡◌, inl, inr, refl, ◌∙◌, Bool, ok, Memᴰ, arith, ◌-◌,
}
use hermes_dev_team_vm.Capsules.{TaskCapsule, CapsuleStore, save_capsule}
use hermes_dev_team_vm.Capsules.Chain.{IsChain, IsKept}
use hermes_dev_team_vm.Capsules.History.{save_capsule-IsSaved}

-- The task of a row has a revision `k` of the same capsule.
abbrev pub HasRevision :
    {Payload : Type 0} → CapsuleStore Payload → TaskCapsule Payload → ℕ → Type 0
HasRevision {Payload} store row k =
    (p : TaskCapsule Payload) × Memᴰ p store.rows
    × (p.task_id ≡ row.task_id)
    × (p.revision ≡ k)
    × (p.capsule_id ≡ row.capsule_id)

IsChain-HasRevision :
    {Payload : Type 0} (store : CapsuleStore Payload)
    → IsChain store
    → (n k : ℕ) (row : TaskCapsule Payload) → Memᴰ row store.rows
    → row.revision ≡ n + k
    → 1 ≤ k
    → HasRevision store row k
IsChain-HasRevision store c zero k row m r one = (row, m, refl, ground arith, refl)
IsChain-HasRevision store c (suc n) k row m r one = elim (c.linked row m) [
  | inl first ↦ ground arith
  | inr (p, listed, task, next, same) ↦
      let (q, m', t, v, i) = IsChain-HasRevision store c n k p listed (ground arith) one in
      (q, m', t ∙ task, v, i ∙ same)
]

module _ {Payload : Type 0} (same_payload : Payload → Payload → Bool)
    (capsule : TaskCapsule Payload) where
  -- Where `save_capsule` returns, under the same conditions on the tables, the task of each row
  -- has all revisions from the first up to that of the row, all of the same capsule.
  pub save_capsule_gapless :
      (before now later after : CapsuleStore Payload)
      → IsChain now
      → IsChain later
      → IsKept before now
      → IsKept now later
      → save_capsule same_payload capsule before now later ≡ ok after
      → (row : TaskCapsule Payload) (k : ℕ) → Memᴰ row after.rows
      → 1 ≤ k
      → k ≤ row.revision
      → HasRevision after row k
  save_capsule_gapless before now later after c c' kept kept' h row k m one le =
      let s = save_capsule-IsSaved same_payload capsule before now later after c c' kept kept' h in
      IsChain-HasRevision after s.chain (row.revision - k) k row m (ground arith) one
