-- ===== src/Capsules.antt =====
-- The task capsules of src/forge_controller/repository.py: a history of revisions that only grows.
pub mod Chain
pub mod History
pub mod Gapless
mod Samples
use hermes_dev_team_vm.Prelude.{
  ℕ, suc, ◌+◌, String, Bool, true, false, not, ◌&&◌, ◌||◌, Option, none, some, List, [], ◌∷◌, any,
  eqb, ltb, ◌==◌, if◌then◌else◌, Result, ok, err, ◌>>=◌, ◌>>◌, checks,
}

-- A capsule as it is stored: `payload` is its whole JSON form.
pub record TaskCapsule (Payload : Type 0) : Type 0 where
  pub capsule_id : String
  pub project_id : String
  pub task_id : String
  pub kanban_task_id : Option String
  pub revision : ℕ
  pub payload : Payload

-- The event "capsule.checkpointed", without its identifier and its time.
pub record Checkpointed : Type 0 where
  pub project_id : String
  pub task_id : String
  pub capsule_id : String
  pub revision : ℕ

-- The rows of the capsules, and the events that their checkpoints have left, the last first.
pub record CapsuleStore (Payload : Type 0) : Type 0 where
  pub rows : List (TaskCapsule Payload)
  pub events : List Checkpointed

unfoldable pub checkpointed : {Payload : Type 0} → TaskCapsule Payload → Checkpointed
checkpointed capsule = record {
  project_id = capsule.project_id;
  task_id = capsule.task_id;
  capsule_id = capsule.capsule_id;
  revision = capsule.revision;
}

-- `CapsuleRevisionConflict`, by message.
pub data CapsuleRevisionConflict : Type 0 where
  already_exists not_first unexpected_revision identity_changed concurrent : CapsuleRevisionConflict

-- What a transaction of `save_capsule` comes to. `integrity_error`: a unique key was taken.
pub data Transaction (A : Type 0) : Type 0 where
  committed : A → Transaction A
  conflict : CapsuleRevisionConflict → Transaction A
  integrity_error : Transaction A

module _ {Payload : Type 0} (same_payload : Payload → Payload → Bool) where
  unfoldable pub is_revision : String → ℕ → TaskCapsule Payload → Bool
  is_revision task_id revision row = row.task_id == task_id && eqb row.revision revision

  -- _recorded_revision
  unfoldable pub recorded_revision :
      String → ℕ → List (TaskCapsule Payload) → Option (TaskCapsule Payload)
  recorded_revision task_id revision [] = none
  recorded_revision task_id revision (row ∷ rows) =
      let rest = recorded_revision task_id revision rows in
      if is_revision task_id revision row then some row else rest

  abbrev pub later_row : TaskCapsule Payload → Option (TaskCapsule Payload) → TaskCapsule Payload
  later_row row none = row
  later_row row (some other) = if ltb row.revision other.revision then other else row

  -- _latest_row
  unfoldable pub latest_row : String → List (TaskCapsule Payload) → Option (TaskCapsule Payload)
  latest_row task_id [] = none
  latest_row task_id (row ∷ rows) =
      let rest = latest_row task_id rows in
      if row.task_id == task_id then some (later_row row rest) else rest

  -- recorded.capsule_id == capsule.capsule_id and recorded.payload == payload
  unfoldable pub is_replay : TaskCapsule Payload → TaskCapsule Payload → Bool
  is_replay recorded capsule =
      recorded.capsule_id == capsule.capsule_id && same_payload recorded.payload capsule.payload

  abbrev pub revision_faults :
      TaskCapsule Payload → Option (TaskCapsule Payload) → List (Bool × CapsuleRevisionConflict)
  revision_faults capsule none = (not (eqb capsule.revision 1), not_first) ∷ []
  revision_faults capsule (some latest) =
      (not (eqb capsule.revision (latest.revision + 1)), unexpected_revision)
      ∷ (not (capsule.capsule_id == latest.capsule_id), identity_changed)
      ∷ []

  -- The unique keys: (task_id, revision) and (capsule_id, revision).
  unfoldable pub is_taken : TaskCapsule Payload → List (TaskCapsule Payload) → Bool
  is_taken capsule rows =
      any
        (λ row.
          is_revision capsule.task_id capsule.revision row
          || (row.capsule_id == capsule.capsule_id && eqb row.revision capsule.revision))
        rows

  abbrev pub insert_capsule :
      TaskCapsule Payload
      → CapsuleStore Payload
      → Result CapsuleRevisionConflict (Unit {0})
      → Transaction (CapsuleStore Payload)
  insert_capsule capsule now (err e) = conflict e
  insert_capsule capsule now (ok u) =
      if is_taken capsule now.rows
      then integrity_error
      else committed
          (record { rows = capsule ∷ now.rows; events = checkpointed capsule ∷ now.events })

  abbrev pub save_unless :
      TaskCapsule Payload
      → CapsuleStore Payload
      → Option (TaskCapsule Payload)
      → Option (TaskCapsule Payload)
      → Transaction (CapsuleStore Payload)
  save_unless capsule now (some recorded) latest =
      if is_replay recorded capsule then committed now else conflict already_exists
  save_unless capsule now none latest =
      insert_capsule capsule now (checks (revision_faults capsule latest))

  -- The transaction: reads from `before`, commits to `now`.
  unfoldable pub save_once :
      TaskCapsule Payload
      → CapsuleStore Payload
      → CapsuleStore Payload
      → Transaction (CapsuleStore Payload)
  save_once capsule before now =
      save_unless capsule now (recorded_revision capsule.task_id capsule.revision before.rows)
        (latest_row capsule.task_id before.rows)

  abbrev pub is_winner : TaskCapsule Payload → Option (TaskCapsule Payload) → Bool
  is_winner capsule none = false
  is_winner capsule (some winner) = is_replay winner capsule

  abbrev pub after_race :
      TaskCapsule Payload
      → CapsuleStore Payload
      → Transaction (CapsuleStore Payload)
      → Result CapsuleRevisionConflict (CapsuleStore Payload)
  after_race capsule later (committed store) = ok store
  after_race capsule later (conflict e) = err e
  after_race capsule later integrity_error =
      if is_winner capsule (recorded_revision capsule.task_id capsule.revision later.rows)
      then ok later
      else err concurrent

  -- save_capsule. After an IntegrityError the winner is read from `later`.
  unfoldable pub save_capsule :
      TaskCapsule Payload
      → CapsuleStore Payload
      → CapsuleStore Payload
      → CapsuleStore Payload
      → Result CapsuleRevisionConflict (CapsuleStore Payload)
  save_capsule capsule before now later = after_race capsule later (save_once capsule before now)
