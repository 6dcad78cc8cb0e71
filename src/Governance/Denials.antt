-- ===== src/Governance/Denials.antt =====
-- src/forge_controller/governance.py and governance_store.py: denials by policy, counted per project,
-- task and signature.
use hermes_dev_team_vm.Prelude.{
  ensure_utc, ℕ, ◌+◌, String, Bool, not, ◌&&◌, ◌||◌, Option, none, some, List, [], ◌∷◌, leb, ◌==◌,
  if◌then◌else◌, Result, ok, err, ◌>>◌, checks, Datetime,
}
use hermes_dev_team_vm.Governance.{GovernanceError, naive_timestamp}

pub data DenialDirective : Type 0 where
  retry_safer_alternative escalate_human : DenialDirective

pub record DenialPolicy : Type 0 where
  pub consecutive_before_escalate : ℕ
  pub total_before_escalate : ℕ

abbrev pub default_denial_policy : DenialPolicy
default_denial_policy = record { consecutive_before_escalate = 3; total_before_escalate = 10 }

pub record DenialState : Type 0 where
  pub signature : String
  pub consecutive : ℕ
  pub total : ℕ
  pub last_reason : Option String
  pub last_denied_at : Option Datetime

pub record DenialOutcome : Type 0 where
  pub state : DenialState
  pub directive : DenialDirective
  pub owner_interrupt_required : Bool

-- What `record_denial` is told, beside the row's key. `timestamp` is `now`, or the clock's time.
pub record Denied : Type 0 where
  pub reason : String
  pub policy : Option DenialPolicy
  pub material : Bool
  pub timestamp : Datetime

unfoldable pub active_policy : Option DenialPolicy → DenialPolicy
active_policy none = default_denial_policy
active_policy (some policy) = policy

unfoldable pub escalates : DenialPolicy → Bool → DenialState → Bool
escalates policy material updated =
    material
    || (leb policy.consecutive_before_escalate updated.consecutive
        || leb policy.total_before_escalate updated.total)

unfoldable pub record_policy_denial : DenialState → Denied → Result GovernanceError DenialOutcome
unfolding active_policy escalates
record_policy_denial state denied = do
  checks ((not denied.timestamp.aware, naive_timestamp) ∷ [])
  let updated : DenialState = record state {
    consecutive = state.consecutive + 1;
    total = state.total + 1;
    last_reason = some denied.reason;
    last_denied_at = some denied.timestamp;
  }
  let escalate = escalates (active_policy denied.policy) denied.material updated
  ok (record {
    state = updated;
    directive = if escalate then escalate_human else retry_safer_alternative;
    owner_interrupt_required = escalate;
  })

unfoldable pub record_safe_alternative_success : DenialState → DenialState
record_safe_alternative_success state = record state { consecutive = 0; last_reason = none }

-- The unique key of a row.
pub record Key : Type 0 where
  pub project_id : String
  pub task_id : String
  pub signature : String

unfoldable pub same_key : Key → Key → Bool
same_key a b =
    a.project_id == b.project_id && (a.task_id == b.task_id && a.signature == b.signature)

-- The rows of `GovernanceDenialStateRow`; the counters of a row are its state.
abbrev pub Table : Type 0
Table = List (Key × DenialState)

-- select(...).where(...): scalar_one_or_none
unfoldable pub row_for : Key → Table → Option DenialState
row_for key [] = none
row_for key ((k, state) ∷ rows) = if same_key k key then some state else row_for key rows

-- _state
unfoldable pub state_of : Option DenialState → String → DenialState
state_of none signature = record {
  signature = signature;
  consecutive = 0;
  total = 0;
  last_reason = none;
  last_denied_at = none;
}
state_of (some state) signature = record state { last_denied_at = ensure_utc state.last_denied_at }

-- A session's writes: a row that was read is set, and one that was not there is inserted. The insert
-- fails with an `IntegrityError`, here `none`, if another session has inserted it since.
unfoldable pub set_row : Key → DenialState → Table → Table
set_row key state [] = []
set_row key state ((k, old) ∷ rows) =
    let rest = set_row key state rows in
    if same_key k key then (k, state) ∷ rows else (k, old) ∷ rest

abbrev pub insert_row : Option DenialState → Key → DenialState → Table → Option Table
insert_row none key state now = some ((key, state) ∷ now)
insert_row (some other) key state now = none

-- _persist, committed to the table as it is then
unfoldable pub persist : Option DenialState → Key → DenialState → Table → Option Table
persist (some old) key state now = some (set_row key state now)
persist none key state now = insert_row (row_for key now) key state now

-- `_record_denial_once`: the row is read in `before`, and the writes are committed to `now`.
pub data Attempt (A : Type 0) : Type 0 where
  committed : A → Table → Attempt A
  failed : GovernanceError → Attempt A
  integrity_error : Attempt A

abbrev pub after_persist : {A : Type 0} → A → Option Table → Attempt A
after_persist a none = integrity_error
after_persist a (some table) = committed a table

abbrev pub attempt_with :
    Option DenialState → Key → Table → Result GovernanceError DenialOutcome → Attempt DenialOutcome
attempt_with row key now (err e) = failed e
attempt_with row key now (ok outcome) = after_persist outcome (persist row key outcome.state now)

unfoldable pub record_denial_once : Key → Denied → Table → Table → Attempt DenialOutcome
record_denial_once key denied before now =
    let row = row_for key before in
    attempt_with row key now (record_policy_denial (state_of row key.signature) denied)

abbrev pub retry_with : {A : Type 0} → Attempt A → Attempt A → Attempt A
retry_with integrity_error again = again
retry_with done again = done

-- `record_denial`: a second attempt where the first one meets an `IntegrityError`. The second reads
-- the row that is there now, and the row lock keeps it until the commit to `now'`.
unfoldable pub record_denial : Key → Denied → Table → Table → Table → Attempt DenialOutcome
record_denial key denied before now now' =
    retry_with (record_denial_once key denied before now) (record_denial_once key denied now now')

abbrev pub alternative_with : Option DenialState → Key → Table → DenialState × Table
alternative_with none key table = (state_of none key.signature, table)
alternative_with (some old) key table =
    let state = record_safe_alternative_success (state_of (some old) key.signature) in
    (state, set_row key state table)

unfoldable pub record_safe_alternative : Key → Table → DenialState × Table
record_safe_alternative key table = alternative_with (row_for key table) key table

unfoldable pub get_state : Key → Table → DenialState
get_state key table = state_of (row_for key table) key.signature
