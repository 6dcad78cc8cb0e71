-- ===== src/Routing/Placement.antt =====
-- src/forge_controller/placement.py, and the reads of repository.py under it.
use hermes_dev_team_vm.Prelude.{
  ensure_utc, Floats, String, Bool, ◌&&◌, Option, none, some, List, [], ◌∷◌, ◌++◌, ltb,
  if◌then◌else◌, Result, ok, err, ◌>>=◌, Datetime,
}
use hermes_dev_team_vm.Models.{ProviderState, CostClass, Sensitivity, Capability}
use hermes_dev_team_vm.Routing.{
  ModelCandidate, RouteRequest, RouteError, no_eligible, waiting, no_later, is_compatible,
  select_candidate,
}

-- A deployment's row, without its `metadata_json` and `updated_at`.
pub record InferenceDeploymentRow (Score : Type 0) : Type 0 where
  pub deployment_id : String
  pub provider : String
  pub model : String
  pub account_ref : Option String
  pub tier : String
  pub endpoint : String
  pub credential_binding : Option String
  pub enabled : Bool
  pub state : ProviderState
  pub retry_at : Option Datetime
  pub cost_class : CostClass
  pub accepted_sensitivity : List Sensitivity
  pub capability_scores : List (Capability × Score)
  pub reliability : Score
  pub latency_score : Score
  pub development_only : Bool
  pub terms_evidence_ref : Option String

module _ {Score : Type 0} where
  -- AssuranceRepository._candidate
  unfoldable pub candidate_of : InferenceDeploymentRow Score → ModelCandidate Score
  candidate_of row = record {
    id = row.deployment_id;
    provider = row.provider;
    model = row.model;
    enabled = row.enabled;
    state = row.state;
    retry_at = ensure_utc row.retry_at;
    cost_class = row.cost_class;
    accepted_sensitivity = row.accepted_sensitivity;
    capability_scores = row.capability_scores;
    reliability = row.reliability;
    latency_score = row.latency_score;
  }

  unfoldable pub list_candidates : List (InferenceDeploymentRow Score) → List (ModelCandidate Score)
  list_candidates [] = []
  list_candidates (row ∷ rows) = candidate_of row ∷ list_candidates rows

-- if retry_at and retry_at > now: retry_times.append(retry_at)
abbrev pub later_times : Option Datetime → Datetime → Result RouteError (List Datetime)
later_times none now = ok []
later_times (some retry_at) now =
    no_later retry_at now >>= λ past. ok (if past then [] else retry_at ∷ [])

-- min(retry_times), for a list that begins with `best`
unfoldable pub earliest : Datetime → List Datetime → Datetime
earliest best [] = best
earliest best (t ∷ times) = earliest (if ltb t.instant best.instant then t else best) times

abbrev pub earliest_of : List Datetime → Option Datetime
earliest_of [] = none
earliest_of (t ∷ times) = some (earliest t times)

module _ {Score : Type 0} (floats : Floats Score) where
  unfoldable pub retry_times :
      RouteRequest → Datetime → List (ModelCandidate Score) → Result RouteError (List Datetime)
  retry_times request now [] = ok []
  retry_times request now (candidate ∷ candidates) =
      let times =
        if candidate.enabled && is_compatible floats request candidate
        then later_times (ensure_utc candidate.retry_at) now
        else ok [] in
      let rest = retry_times request now candidates in
      times >>= λ found. rest >>= λ others. ok (found ++ others)

  unfoldable pub next_retry_at :
      RouteRequest
      → List (InferenceDeploymentRow Score)
      → Datetime
      → Result RouteError (Option Datetime)
  next_retry_at request rows now =
      retry_times request now (list_candidates rows) >>= λ times. ok (earliest_of times)

  -- except NoEligibleModel
  abbrev pub or_wait :
      Result RouteError (ModelCandidate Score)
      → Result RouteError (Option Datetime)
      → Result RouteError (ModelCandidate Score)
  or_wait (err no_eligible) (ok retry_at) = err (waiting retry_at)
  or_wait (err no_eligible) (err e) = err e
  or_wait outcome retry = outcome

  unfoldable pub place :
      List (InferenceDeploymentRow Score)
      → RouteRequest
      → Datetime
      → Result RouteError (ModelCandidate Score)
  place rows request now =
      or_wait (select_candidate floats request (list_candidates rows) now)
        (next_retry_at request rows now)
