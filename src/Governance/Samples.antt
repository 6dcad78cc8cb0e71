-- ===== src/Governance/Samples.antt =====
-- Tests of the models of src/forge_controller/governance.py and governance_store.py, and their theorems
-- at concrete decisions and denials.
use hermes_dev_team_vm.Prelude.{
  ◌≡◌, ◌↔◌, refl, true, false, none, some, [], ◌∷◌, ok, err, Datetime, ℕ,
}
use hermes_dev_team_vm.Models.{l2, yes_action, no_action, defer, more_info, DecisionClassification}
use hermes_dev_team_vm.Governance.{
  DecisionRecord, DecisionPrompt, DecisionTransition, opened, not_open, distinct,
  build_decision_prompt, apply_owner_action, deferred, approved, resolved,
}
use hermes_dev_team_vm.Governance.Actions.{IsAccepted, IsOutcome, apply_owner_action-IsOutcome}
use hermes_dev_team_vm.Governance.Lifecycle.{offers, build_decision_prompt-offers, settled_final}

abbrev score : DecisionClassification ℕ
score = record { authority = l2; autonomous = false; defer_allowed = true; score = 50 }

abbrev question : DecisionRecord ℕ
question = record {
  decision_id = "d";
  project_id = "p";
  task_id = some "t";
  question = "Proceed?";
  recommendation = "Yes";
  authority = l2;
  classification = some score;
  status = opened;
  owner_action = none;
  evidence_refs = "a" ∷ "b" ∷ [];
  blocked_refs = [];
  created_at = record { instant = 0; aware = true };
  resolved_at = none;
  supersedes = none;
}

abbrev noon : Datetime
noon = record { instant = 12; aware = true }

abbrev resolution : DecisionTransition ℕ
resolution = record {
  disposition = approved;
  after = record question {
    status = resolved;
    owner_action = some yes_action;
    evidence_refs = "a" ∷ "b" ∷ "c" ∷ [];
    resolved_at = some noon;
  };
  resume_task = true;
  keep_blocked = false;
  request_more_info = false;
}

abbrev postponed : DecisionTransition ℕ
postponed = record {
  disposition = deferred;
  after = record question { owner_action = some defer; evidence_refs = "a" ∷ "b" ∷ [] };
  resume_task = false;
  keep_blocked = true;
  request_more_info = false;
}

distinct_test : distinct ("b" ∷ "a" ∷ "b" ∷ []) ≡ "b" ∷ "a" ∷ []
unfolding distinct
distinct_test = refl

yes_test : apply_owner_action question score yes_action ("c" ∷ "a" ∷ []) noon ≡ ok resolution
unfolding apply_owner_action distinct
yes_test = refl

defer_test : apply_owner_action question score defer [] noon ≡ ok postponed
unfolding apply_owner_action distinct
defer_test = refl

abbrev prompt : DecisionPrompt
prompt = record {
  decision_id = "d";
  project_id = "p";
  task_id = some "t";
  authority = l2;
  question = "Proceed?";
  recommendation = "Yes";
  why_now = "w";
  yes_effect = "y";
  no_effect = "n";
  options = yes_action ∷ no_action ∷ defer ∷ more_info ∷ [];
}

prompt_test : build_decision_prompt question score "w" "y" "n" ≡ ok prompt
unfolding build_decision_prompt
prompt_test = refl

apply_owner_action-IsOutcome_example :
    IsAccepted question score yes_action noon
    × IsOutcome question yes_action ("c" ∷ "a" ∷ []) noon resolution
apply_owner_action-IsOutcome_example =
    apply_owner_action-IsOutcome question score yes_action ("c" ∷ "a" ∷ []) noon resolution yes_test

build_decision_prompt-offers_example :
    ((t : DecisionTransition ℕ) × (apply_owner_action question score defer [] noon ≡ ok t))
    ↔ ((offers defer prompt.options ≡ true) × (opened ≡ opened) × (true ≡ true))
build_decision_prompt-offers_example =
    build_decision_prompt-offers question score "w" "y" "n" prompt defer [] noon prompt_test

settled_final_example : apply_owner_action resolution.after score no_action [] noon ≡ err not_open
settled_final_example =
    settled_final question score score yes_action no_action ("c" ∷ "a" ∷ []) [] noon noon resolution
      refl yes_test
