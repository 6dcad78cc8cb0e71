-- ===== src/Deployment/Samples.antt =====
-- Tests of the model of src/forge_controller/deployment_policy.py, and its theorems at a concrete
-- deployment.
use hermes_dev_team_vm.Prelude.{
  ◌≡◌, ◌↔◌, refl, true, false, none, [], ◌∷◌, ok, err, Datetime, ℕ, whole_scores,
}
use hermes_dev_team_vm.Models.{coding, public, unknown, trial, quarantined}
use hermes_dev_team_vm.Routing.{RouteRequest, accepts}
use hermes_dev_team_vm.Routing.Placement.{candidate_of}
use hermes_dev_team_vm.Routing.Selection.{IsEligible}
use hermes_dev_team_vm.Deployment.{
  InferenceDeployment, DeploymentQualification, flag, smoke_test_missing, qualify_deployment,
  promoted, row_of, is_quarantined,
}
use hermes_dev_team_vm.Deployment.Gates.{
  IsQualified, qualify_deployment_iff, qualify_deployment-IsEligible,
}
use hermes_dev_team_vm.Deployment.Promotion.{in_use, noted, IsNoted}

abbrev discovered : InferenceDeployment ℕ
discovered = record {
  deployment_id = "d";
  provider = "groq";
  model = "m";
  account_ref = none;
  tier = "free";
  endpoint = "e";
  credential_binding = none;
  enabled = false;
  state = quarantined;
  retry_at = none;
  cost_class = unknown;
  accepted_sensitivity = public ∷ [];
  capability_scores = [];
  reliability = 50;
  latency_score = 50;
  development_only = false;
  terms_evidence_ref = none;
  metadata = ("discovered_active", flag true) ∷ ("probationary", flag true) ∷ [];
}

abbrev evidence : DeploymentQualification ℕ
evidence = record {
  terms_evidence_ref = "terms";
  smoke_test_passed = true;
  accepted_sensitivity = public ∷ [];
  capability_scores = (coding, 70) ∷ [];
  cost_class = trial;
  notes = [];
}

abbrev request : RouteRequest
request = record {
  capability = coding;
  sensitivity = public;
  allow_paid = false;
  prefer_local = false;
}

abbrev noon : Datetime
noon = record { instant = 12; aware = true }

untested_test :
    qualify_deployment whole_scores discovered (record evidence { smoke_test_passed = false })
    ≡ err smoke_test_missing
unfolding qualify_deployment is_quarantined
untested_test = refl

tested_test :
    qualify_deployment whole_scores discovered evidence
    ≡ ok (promoted whole_scores discovered evidence)
unfolding qualify_deployment is_quarantined
tested_test = refl

qualify_deployment_iff_example :
    (qualify_deployment whole_scores discovered evidence
      ≡ ok (promoted whole_scores discovered evidence))
    ↔ (IsQualified whole_scores discovered evidence
        × (in_use discovered evidence (noted discovered.metadata evidence)
            ≡ promoted whole_scores discovered evidence)
        × IsNoted discovered.metadata evidence (promoted whole_scores discovered evidence).metadata)
qualify_deployment_iff_example =
    qualify_deployment_iff whole_scores discovered evidence
      (promoted whole_scores discovered evidence)

qualify_deployment-IsEligible_example :
    (IsEligible whole_scores request noon (candidate_of (row_of discovered)) → ⊥)
    × IsEligible whole_scores request noon
        (candidate_of (row_of (promoted whole_scores discovered evidence)))
unfolding accepts
qualify_deployment-IsEligible_example =
    qualify_deployment-IsEligible whole_scores discovered
      (promoted whole_scores discovered evidence) evidence request noon tested_test refl refl
      (λ e. cc)
