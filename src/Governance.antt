-- ===== src/Governance.antt =====
-- src/forge_controller/governance.py and the decision records of assurance.py: what the owner is
-- asked, and what an answer does.
pub mod Evidence
pub mod Actions
pub mod Lifecycle
pub mod Denials
pub mod History
pub mod Streaks
mod Samples
mod DenialSamples
use hermes_dev_team_vm.Prelude.{
  String, Bool, true, false, not, Option, none, some, List, [], ◌∷◌, ◌++◌, if◌then◌else◌, member,
  Result, ok, err, Check, ◌>>=◌, ◌>>◌, checks, Datetime,
}
use hermes_dev_team_vm.Models.{
  AuthorityLevel, same_level, DecisionAction, yes_action, no_action, defer, more_info,
  DecisionClassification,
}

-- `GovernanceError`, by message.
pub data GovernanceError : Type 0 where
  not_open authority_mismatch naive_timestamp defer_not_allowed : GovernanceError

-- `OPEN` is `opened`: the plain word is reserved.
pub data DecisionStatus : Type 0 where
  opened resolved superseded : DecisionStatus

pub data DecisionDisposition : Type 0 where
  approved denied deferred needs_info : DecisionDisposition

pub record DecisionRecord (Score : Type 0) : Type 0 where
  pub decision_id : String
  pub project_id : String
  pub task_id : Option String
  pub question : String
  pub recommendation : String
  pub authority : AuthorityLevel
  pub classification : Option (DecisionClassification Score)
  pub status : DecisionStatus
  pub owner_action : Option DecisionAction
  pub evidence_refs : List String
  pub blocked_refs : List String
  pub created_at : Datetime
  pub resolved_at : Option Datetime
  pub supersedes : Option String

pub record DecisionPrompt : Type 0 where
  pub decision_id : String
  pub project_id : String
  pub task_id : Option String
  pub authority : AuthorityLevel
  pub question : String
  pub recommendation : String
  pub why_now : String
  pub yes_effect : String
  pub no_effect : String
  pub options : List DecisionAction

pub record DecisionTransition (Score : Type 0) : Type 0 where
  pub disposition : DecisionDisposition
  pub after : DecisionRecord Score
  pub resume_task : Bool
  pub keep_blocked : Bool
  pub request_more_info : Bool

-- record.status is not DecisionStatus.OPEN
unfoldable pub is_closed : DecisionStatus → Bool
is_closed opened = false
is_closed resolved = true
is_closed superseded = true

-- list(dict.fromkeys(refs)): each once, at its first place. `seen` are the keys so far.
unfoldable pub distinct_from : List String → List String → List String
distinct_from seen [] = []
distinct_from seen (r ∷ refs) =
    let rest = distinct_from (r ∷ seen) refs in if member r seen then rest else r ∷ rest

unfoldable pub distinct : List String → List String
unfolding distinct_from
distinct refs = distinct_from [] refs

module _ {Score : Type 0} where
  unfoldable pub build_decision_prompt :
      DecisionRecord Score
      → DecisionClassification Score
      → String
      → String
      → String
      → Result GovernanceError DecisionPrompt
  build_decision_prompt decision classification why_now yes_effect no_effect = do
    checks ((not (same_level decision.authority classification.authority), authority_mismatch) ∷ [])
    let offered =
        if classification.defer_allowed
        then yes_action ∷ no_action ∷ defer ∷ []
        else yes_action ∷ no_action ∷ []
    ok (record {
      decision_id = decision.decision_id;
      project_id = decision.project_id;
      task_id = decision.task_id;
      authority = decision.authority;
      question = decision.question;
      recommendation = decision.recommendation;
      why_now = why_now;
      yes_effect = yes_effect;
      no_effect = no_effect;
      options = offered ++ more_info ∷ [];
    })

  -- The branches of `apply_owner_action`, behind its guards.
  unfoldable pub transition :
      DecisionRecord Score
      → DecisionClassification Score
      → DecisionAction
      → List String
      → Datetime
      → Result GovernanceError (DecisionTransition Score)
  transition decision classification yes_action refs timestamp = ok (record {
    disposition = approved;
    after = record decision {
      status = resolved;
      owner_action = some yes_action;
      evidence_refs = refs;
      resolved_at = some timestamp;
    };
    resume_task = true;
    keep_blocked = false;
    request_more_info = false;
  })
  transition decision classification no_action refs timestamp = ok (record {
    disposition = denied;
    after = record decision {
      status = resolved;
      owner_action = some no_action;
      evidence_refs = refs;
      resolved_at = some timestamp;
    };
    resume_task = true;
    keep_blocked = false;
    request_more_info = false;
  })
  transition decision classification defer refs timestamp = do
    checks ((not classification.defer_allowed, defer_not_allowed) ∷ [])
    ok (record {
      disposition = deferred;
      after = record decision { owner_action = some defer; evidence_refs = refs };
      resume_task = false;
      keep_blocked = true;
      request_more_info = false;
    })
  transition decision classification more_info refs timestamp = ok (record {
    disposition = needs_info;
    after = record decision { owner_action = some more_info; evidence_refs = refs };
    resume_task = false;
    keep_blocked = true;
    request_more_info = true;
  })

  abbrev pub action_faults :
      DecisionRecord Score → DecisionClassification Score → Datetime → List (Bool × GovernanceError)
  action_faults decision classification timestamp =
      (is_closed decision.status, not_open)
      ∷ (not (same_level decision.authority classification.authority), authority_mismatch)
      ∷ (not timestamp.aware, naive_timestamp)
      ∷ []

  -- `timestamp` is `now`, or the clock's time in UTC.
  unfoldable pub apply_owner_action :
      DecisionRecord Score
      → DecisionClassification Score
      → DecisionAction
      → List String
      → Datetime
      → Result GovernanceError (DecisionTransition Score)
  unfolding transition is_closed
  apply_owner_action decision classification action evidence_refs timestamp = do
    checks (action_faults decision classification timestamp)
    let refs = distinct (decision.evidence_refs ++ evidence_refs)
    transition decision classification action refs timestamp
