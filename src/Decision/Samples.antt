-- ===== src/Decision/Samples.antt =====
-- Tests of the model of src/forge_controller/decision.py, and its theorems at a concrete request.
use hermes_dev_team_vm.Prelude.{
  ◌≡◌, ◌≢◌, refl, true, false, none, some, [], ok, Datetime, whole_scores, ℕ,
}
use hermes_dev_team_vm.Models.{l0, l3, defer}
use hermes_dev_team_vm.Governance.{
  DecisionRecord, DecisionTransition, opened, apply_owner_action, deferred,
}
use hermes_dev_team_vm.Decision.{
  DecisionRequest, classify_decision, is_gated, decision_score, level_of, least,
}
use hermes_dev_team_vm.Decision.Levels.{gated_undeferrable}

abbrev trivial : DecisionRequest ℕ
trivial = record {
  id = "d";
  question = "q";
  recommendation = "r";
  confidence = 100;
  materiality = 0;
  irreversibility = 0;
  consequence = 0;
  hard_gate = false;
}

abbrev gated : DecisionRequest ℕ
gated = record trivial { hard_gate = true }

trivial_test : (classify_decision whole_scores trivial).authority ≡ l0
unfolding classify_decision level_of is_gated decision_score least
trivial_test = refl

gated_test : (classify_decision whole_scores gated).authority ≡ l3
unfolding classify_decision level_of is_gated
gated_test = refl

abbrev pending : DecisionRecord ℕ
pending = record {
  decision_id = "d";
  project_id = "p";
  task_id = none;
  question = "q";
  recommendation = "r";
  authority = l3;
  classification = none;
  status = opened;
  owner_action = none;
  evidence_refs = [];
  blocked_refs = [];
  created_at = record { instant = 0; aware = true };
  resolved_at = none;
  supersedes = none;
}

abbrev noon : Datetime
noon = record { instant = 12; aware = true }

abbrev hoped : DecisionTransition ℕ
hoped = record {
  disposition = deferred;
  after = record pending { owner_action = some defer };
  resume_task = false;
  keep_blocked = true;
  request_more_info = false;
}

gated_undeferrable_example :
    apply_owner_action pending (classify_decision whole_scores gated) defer [] noon ≢ ok hoped
gated_undeferrable_example = gated_undeferrable whole_scores gated pending [] noon hoped refl
