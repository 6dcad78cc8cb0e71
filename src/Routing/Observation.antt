-- ===== src/Routing/Observation.antt =====
-- What an observation means for the router: src/forge_controller/quota.py with placement.py.
use hermes_dev_team_vm.Prelude.{
  ensure_utc, Floats, ◌+◌, ◌≤◌, ◌<◌, ◌≡◌, ◌↔◌, ◌⊎◌, inl, inr, refl, sym, ◌∙◌, String, Bool, true,
  false, not, Option, none, some, List, [], ◌∷◌, ◌==◌, if◌then◌else◌, ok, checks, >>-eq-ok, minutes,
  Datetime, ℤ, pos, negsuc, Bool-cases, arith, ap, ◌≢◌, All,
}
use hermes_dev_team_vm.Models.{
  ProviderState, available, throttled_short, quota_exhausted, provider_degraded, auth_failed,
  credit_exhausted, offline,
}
use hermes_dev_team_vm.Routing.{RouteRequest}
use hermes_dev_team_vm.Routing.Selection.{IsCompatible, IsEligible}
use hermes_dev_team_vm.Routing.Placement.{InferenceDeploymentRow, candidate_of}
use hermes_dev_team_vm.Routing.Times.{ensure_utc_instant}
use hermes_dev_team_vm.Routing.Quota.{
  QuotaObservation, Reason, Availability, is_short, rate_limit_state, shifted, after, limited,
  until_cleared, classify_rate_limit, classify_observation, Observatory, set_availability,
  set_deployment, has_deployment, unknown_deployment, record_availability, observe, rate_limit_rows,
  observation_rows, early_return,
}

-- The state says how long the wait is.
pub record IsTruthful (now : Datetime) (a : Availability) : Type 0 where
  pub short :
      a.state ≡ throttled_short
      → (t : Datetime) × (a.retry_at ≡ some t) × (t.instant ≤ now.instant + minutes 60)
  pub long :
      a.state ≡ quota_exhausted
      → (a.retry_at ≡ none)
        ⊎ ((t : Datetime) × (a.retry_at ≡ some t) × (now.instant + minutes 60 < t.instant))

limited-IsTruthful :
    (now : Datetime) (delay : ℤ) (why : Reason) → IsTruthful now (limited now delay why)
unfolding limited after rate_limit_state is_short shifted
limited-IsTruthful now (pos n) why = record {
  short = λ h. (_, refl, ground arith);
  long = λ h. inr (_, refl, ground arith);
}
limited-IsTruthful now (negsuc n) why = record {
  short = λ h. (_, refl, ground arith);
  long = λ h. ground arith;
}

-- What is returned is truthful if all that may be returned is.
early_return-IsTruthful :
    (now : Datetime) (rows : List (Bool × Availability)) (default : Availability)
    → All (λ (_, value). IsTruthful now value) rows
    → IsTruthful now default
    → IsTruthful now (early_return rows default)
early_return-IsTruthful now [] default h d = d
early_return-IsTruthful now ((true, value) ∷ rows) default h d = h.0
early_return-IsTruthful now ((false, value) ∷ rows) default h d =
    early_return-IsTruthful now rows default h.1 d

-- A state that speaks of no wait.
untimed-IsTruthful :
    (now : Datetime) (state : ProviderState) (retry_at : Option Datetime) (why : Reason)
    → state ≢ throttled_short
    → state ≢ quota_exhausted
    → IsTruthful now (record { state = state; retry_at = retry_at; reason = why })
untimed-IsTruthful now state retry_at why p q = record {
  short = λ h. absurd (p h);
  long = λ h. absurd (q h);
}

exhausted-IsTruthful :
    (now : Datetime) (why : Reason)
    → IsTruthful now (record { state = quota_exhausted; retry_at = none; reason = why })
exhausted-IsTruthful now why = record { short = λ h. cc; long = λ h. inl refl }

classify_rate_limit-IsTruthful :
    (obs : QuotaObservation) (now : Datetime) → IsTruthful now (classify_rate_limit obs now)
unfolding classify_rate_limit until_cleared
classify_rate_limit-IsTruthful obs now =
    early_return-IsTruthful now (rate_limit_rows obs now) _
      (limited-IsTruthful now _ _, (limited-IsTruthful now _ _, (exhausted-IsTruthful now _, tt)))
      (limited-IsTruthful now _ _)

-- On every branch of `classify_observation`, THROTTLED_SHORT comes with a retry time at most an
-- hour ahead, and QUOTA_EXHAUSTED with one more than an hour ahead, or with none.
pub classify_observation-IsTruthful :
    (obs : QuotaObservation) (now : Datetime) → IsTruthful now (classify_observation obs now)
unfolding classify_observation until_cleared
classify_observation-IsTruthful obs now =
    early_return-IsTruthful now (observation_rows obs now) _
      (
        untimed-IsTruthful now auth_failed _ _ (λ h. cc) (λ h. cc),
        (
          untimed-IsTruthful now credit_exhausted _ _ (λ h. cc) (λ h. cc),
          (
            untimed-IsTruthful now offline _ _ (λ h. cc) (λ h. cc),
            (
              untimed-IsTruthful now provider_degraded _ _ (λ h. cc) (λ h. cc),
              (
                classify_rate_limit-IsTruthful obs now,
                (untimed-IsTruthful now provider_degraded _ _ (λ h. cc) (λ h. cc), tt),
              ),
            ),
          ),
        ),
      )
      (untimed-IsTruthful now available _ _ (λ h. cc) (λ h. cc))

-- session.get(InferenceDeploymentRow, id)
unfoldable pub find_deployment :
    {Score : Type 0}
    → String
    → List (InferenceDeploymentRow Score)
    → Option (InferenceDeploymentRow Score)
find_deployment id [] = none
find_deployment id (row ∷ rows) =
    let rest = find_deployment id rows in if row.deployment_id == id then some row else rest

module _ {Score : Type 0} (floats : Floats Score) where
  find-set_deployment :
      (id : String) (a : Availability) (rows : List (InferenceDeploymentRow Score))
      (row : InferenceDeploymentRow Score)
      → find_deployment id (set_deployment id a rows) ≡ some row
      → (old : InferenceDeploymentRow Score) × (find_deployment id rows ≡ some old)
        × (set_availability a old ≡ row)
  unfolding find_deployment set_deployment set_availability
  find-set_deployment id a [] row h = cc
  find-set_deployment id a (other ∷ rows) row h = elim (Bool-cases (other.deployment_id == id)) [
    | inl same ↦ let k = rw (same, same) at h in (other, rw same, ground arith)
    | inr apart ↦
        let (old, e, s) = find-set_deployment id a rows row (rw (apart, apart) at h) in
        (old, rw (apart, e), s)
  ]

  -- After `observe` has stored what an answer says of a deployment that is enabled and compatible
  -- with a request, the router may choose it at a time exactly if the answer says that it is
  -- available, or gives a retry time that has come; without a retry time it stays out until the
  -- next observation.
  pub observe-IsEligible :
      (id : String) (obs : QuotaObservation) (now : Datetime) (store next : Observatory Score)
      (row : InferenceDeploymentRow Score) (request : RouteRequest) (later : Datetime)
      → observe id obs now store ≡ ok next
      → find_deployment id next.deployments ≡ some row
      → row.enabled ≡ true
      → IsCompatible floats request (candidate_of row)
      → IsEligible floats request later (candidate_of row) ↔ (
          ((classify_observation obs now).state ≡ available)
          ⊎ ((t : Datetime) × ((classify_observation obs now).retry_at ≡ some t)
              × (t.instant ≤ later.instant)))
  unfolding observe record_availability candidate_of set_availability
  observe-IsEligible id obs now store next row request later h found enabled compatible =
      let a = classify_observation obs now in
      let (_, e) =
        >>-eq-ok (checks ((not (has_deployment id store.deployments), unknown_deployment id) ∷ []))
          _ h in
      let d : set_deployment id a store.deployments ≡ next.deployments = ground arith in
      let (old, _, s) = find-set_deployment id a store.deployments row (rw d found) in
      let state : a.state ≡ row.state = ap (λ r. r.state) s in
      let retry : a.retry_at ≡ row.retry_at = ap (λ r. r.retry_at) s in
      (
        λ i. elim i.usable [
          | inl up ↦ inl (state ∙ up)
          | inr (r, f, le) ↦
              let (_, (t, g, same)) = ensure_utc_instant row.retry_at r f in
              inr (t, retry ∙ g, rw same le)
        ],
        λ w. record {
          enabled = enabled;
          usable = elim w [
            | inl up ↦ inl (sym state ∙ up)
            | inr (t, g, le) ↦ inr (record t { aware = true }, ap ensure_utc (sym retry ∙ g), le)
          ];
          compatible = compatible;
        },
      )
