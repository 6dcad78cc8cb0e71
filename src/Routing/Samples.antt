-- ===== src/Routing/Samples.antt =====
-- Tests of the models of src/forge_controller/router.py and placement.py, and their theorems at two
-- deployments, with scores counted in whole_scores numbers.
use hermes_dev_team_vm.Prelude.{
  ℕ, ◌≡◌, ◌↔◌, refl, true, false, none, some, List, [], ◌∷◌, ok, err, Datetime, All, whole_scores,
  whole_scores-IsOrder,
}
use hermes_dev_team_vm.Models.{coding, public, free_api, local, available, throttled_short}
use hermes_dev_team_vm.Routing.{
  ModelCandidate, RouteRequest, no_eligible, waiting, select_candidate, eligible, considered,
  _available, is_available, no_later, is_compatible, accepts, is_paid, capability_score, score_for,
  score_of, is_free_api, is_local, sort_entries, insert_entry, before,
}
use hermes_dev_team_vm.Routing.Selection.{IsZoned, IsChoice, IsStarved}
use hermes_dev_team_vm.Routing.Choice.{select_candidate_best, select_candidate-IsStarved}
use hermes_dev_team_vm.Routing.Placement.{
  InferenceDeploymentRow, candidate_of, place, list_candidates, next_retry_at, retry_times,
  earliest,
}
use hermes_dev_team_vm.Routing.Times.{list_candidates-IsZoned}
use hermes_dev_team_vm.Routing.Waiting.{IsWake, place_wakes}

abbrev hosted : InferenceDeploymentRow ℕ
hosted = record {
  deployment_id = "hosted";
  provider = "groq";
  model = "m";
  account_ref = none;
  tier = "free";
  endpoint = "e";
  credential_binding = none;
  enabled = true;
  state = throttled_short;
  retry_at = some record { instant = 90; aware = false };
  cost_class = free_api;
  accepted_sensitivity = public ∷ [];
  capability_scores = (coding, 80) ∷ [];
  reliability = 50;
  latency_score = 50;
  development_only = false;
  terms_evidence_ref = none;
}

abbrev offline_box : InferenceDeploymentRow ℕ
offline_box = record hosted {
  deployment_id = "box";
  cost_class = local;
  enabled = false;
  state = available;
}

abbrev box : InferenceDeploymentRow ℕ
box = record offline_box { enabled = true }

abbrev request : RouteRequest
request = record {
  capability = coding;
  sensitivity = public;
  allow_paid = false;
  prefer_local = true;
}

abbrev at : ℕ → Datetime
at n = record { instant = n; aware = true }

abbrev both : List (ModelCandidate ℕ)
both = candidate_of hosted ∷ candidate_of box ∷ []

both-IsZoned : All IsZoned both
unfolding hermes_dev_team_vm.Routing.Placement.list_candidates
both-IsZoned = list_candidates-IsZoned (hosted ∷ box ∷ [])

select_test : select_candidate whole_scores request both (at 100) ≡ ok (candidate_of box)
unfolding select_candidate eligible considered _available is_available no_later is_compatible
    accepts is_paid capability_score score_for score_of is_free_api is_local sort_entries
    insert_entry before candidate_of
select_test = refl

select_candidate_best_example : IsChoice whole_scores request (at 100) refl both (candidate_of box)
select_candidate_best_example =
    select_candidate_best whole_scores request (at 100) refl whole_scores-IsOrder both
      (candidate_of box) both-IsZoned select_test

select_candidate-IsStarved_example :
    (select_candidate whole_scores request (candidate_of hosted ∷ []) (at 10) ≡ err no_eligible)
    ↔ IsStarved whole_scores request (at 10) refl (candidate_of hosted ∷ [])
select_candidate-IsStarved_example =
    select_candidate-IsStarved whole_scores request (at 10) refl whole_scores-IsOrder
      (candidate_of hosted ∷ []) (both-IsZoned.0, tt)

wait_test :
    place whole_scores (hosted ∷ offline_box ∷ []) request (at 10) ≡ err (waiting (some (at 90)))
unfolding select_candidate eligible considered _available is_available no_later is_compatible
    accepts is_paid capability_score score_for score_of is_free_api is_local sort_entries
    insert_entry before candidate_of place list_candidates next_retry_at retry_times earliest
wait_test = refl

place_wakes_example :
    IsWake whole_scores whole_scores-IsOrder request (hosted ∷ offline_box ∷ []) (at 10) (at 90)
place_wakes_example =
    place_wakes whole_scores whole_scores-IsOrder request (hosted ∷ offline_box ∷ []) (at 10)
      (at 90) refl wait_test

hopeless_test : place whole_scores (offline_box ∷ []) request (at 10) ≡ err (waiting none)
unfolding select_candidate eligible considered _available is_available no_later is_compatible
    accepts is_paid capability_score score_for score_of is_free_api is_local sort_entries
    insert_entry before candidate_of place list_candidates next_retry_at retry_times earliest
hopeless_test = refl
