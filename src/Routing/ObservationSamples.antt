-- ===== src/Routing/ObservationSamples.antt =====
-- Tests of the models of src/forge_controller/quota.py and the `observe` of placement.py, and their
-- theorems at a rate limit.
use hermes_dev_team_vm.Prelude.{
  ◌+◌, ◌≤◌, ◌≡◌, ◌↔◌, ◌⊎◌, refl, true, false, none, some, [], ◌∷◌, ok, err, minutes, pos, Datetime,
  whole_scores, ℕ,
}
use hermes_dev_team_vm.Models.{coding, public, free_api, available, quota_exhausted}
use hermes_dev_team_vm.Routing.{RouteRequest}
use hermes_dev_team_vm.Routing.Selection.{IsCompatible, IsEligible}
use hermes_dev_team_vm.Routing.Placement.{InferenceDeploymentRow, candidate_of}
use hermes_dev_team_vm.Routing.Quota.{
  QuotaObservation, Availability, Observatory, unknown_deployment, rate_limited,
  classify_observation, status_in, code_in, classify_rate_limit, is_server_error, or_delay,
  is_nonzero, limited, rate_limit_state, is_short, after, shifted, observe, record_availability,
  has_deployment, set_availability, set_deployment,
}
use hermes_dev_team_vm.Routing.Observation.{
  IsTruthful, classify_observation-IsTruthful, find_deployment, observe-IsEligible,
}

abbrev now : Datetime
now = record { instant = 1000; aware = true }

-- HTTP 429 with a retry after two hours.
abbrev limit : QuotaObservation
limit = record {
  status_code = some 429;
  error_code = none;
  retry_after = some (pos (minutes 120));
  reset_requests = none;
  reset_tokens = none;
  remaining_requests = none;
  remaining_tokens = none;
}

abbrev at_retry : Datetime
at_retry = record now { instant = 1000 + minutes 120 }

abbrev exhausted : Availability
exhausted = record { state = quota_exhausted; retry_at = some at_retry; reason = rate_limited }

limit_test : classify_observation limit now ≡ exhausted
unfolding classify_observation status_in code_in classify_rate_limit is_server_error or_delay
    is_nonzero limited rate_limit_state is_short after shifted
limit_test = refl

classify_observation-IsTruthful_example : IsTruthful now (classify_observation limit now)
classify_observation-IsTruthful_example = classify_observation-IsTruthful limit now

abbrev row : InferenceDeploymentRow ℕ
row = record {
  deployment_id = "d";
  provider = "groq";
  model = "m";
  account_ref = none;
  tier = "free";
  endpoint = "e";
  credential_binding = none;
  enabled = true;
  state = available;
  retry_at = none;
  cost_class = free_api;
  accepted_sensitivity = public ∷ [];
  capability_scores = (coding, 80) ∷ [];
  reliability = 50;
  latency_score = 50;
  development_only = false;
  terms_evidence_ref = none;
}

abbrev waiting_row : InferenceDeploymentRow ℕ
waiting_row = record row { state = quota_exhausted; retry_at = some at_retry }

abbrev store : Observatory ℕ
store = record { deployments = row ∷ []; observations = [] }

abbrev observed : Observatory ℕ
observed = record {
  deployments = waiting_row ∷ [];
  observations =
      record {
        deployment_id = "d";
        state = quota_exhausted;
        retry_at = some at_retry;
        reason = rate_limited;
      }
      ∷ [];
}

observe_test : observe "d" limit now store ≡ ok observed
unfolding classify_observation status_in code_in classify_rate_limit is_server_error or_delay
    is_nonzero limited rate_limit_state is_short after shifted observe record_availability
    has_deployment set_availability set_deployment
observe_test = refl

unknown_test : observe "x" limit now store ≡ err (unknown_deployment "x")
unfolding observe record_availability has_deployment
unknown_test = refl

found_test : find_deployment "d" observed.deployments ≡ some waiting_row
unfolding find_deployment
found_test = refl

abbrev request : RouteRequest
request = record {
  capability = coding;
  sensitivity = public;
  allow_paid = false;
  prefer_local = false;
}

fits : IsCompatible whole_scores request (candidate_of waiting_row)
unfolding candidate_of hermes_dev_team_vm.Routing.accepts
    hermes_dev_team_vm.Routing.capability_score hermes_dev_team_vm.Routing.score_for
fits = record { accepted = refl; payable = λ e. cc; capable = refl }

observe-IsEligible_example : IsEligible whole_scores request at_retry (candidate_of waiting_row) ↔ (
    ((classify_observation limit now).state ≡ available)
    ⊎ ((t : Datetime) × ((classify_observation limit now).retry_at ≡ some t)
        × (t.instant ≤ at_retry.instant)))
observe-IsEligible_example =
    observe-IsEligible whole_scores "d" limit now store observed waiting_row request at_retry
      observe_test found_test refl fits
