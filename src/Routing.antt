-- ===== src/Routing.antt =====
-- src/forge_controller/router.py, placement.py and the candidates of repository.py: which model a
-- request is sent to, and when to ask again.
pub mod Ranking
pub mod Selection
pub mod Placement
pub mod Quota
pub mod Choice
pub mod Times
pub mod Waiting
pub mod Observation
mod Samples
mod ObservationSamples
use Prim.Native.Nat.{Ordering}
use Prim.Native.String.{compare}
use hermes_dev_team_vm.Prelude.{
  Floats, ℕ, ◌≡◌, String, Bool, true, false, not, ◌&&◌, ◌||◌, Option, none, some, List, [], ◌∷◌,
  ◌++◌, map, any, eqb, leb, ltb, if◌then◌else◌, Result, ok, err, ◌>>=◌, Datetime,
}
use hermes_dev_team_vm.Models.{
  ProviderState, CostClass, Sensitivity, Capability, available, free_api, local, paid,
  capability_place, sensitivity_place,
}

pub record ModelCandidate (Score : Type 0) : Type 0 where
  pub id : String
  pub provider : String
  pub model : String
  pub enabled : Bool
  pub state : ProviderState
  pub retry_at : Option Datetime
  pub cost_class : CostClass
  pub accepted_sensitivity : List Sensitivity
  pub capability_scores : List (Capability × Score)
  pub reliability : Score
  pub latency_score : Score

pub record RouteRequest : Type 0 where
  pub capability : Capability
  pub sensitivity : Sensitivity
  pub allow_paid : Bool
  pub prefer_local : Bool

-- `no_eligible` is NoEligibleModel; `waiting` is its subclass WaitingForCompute; `type_error` is what
-- Python raises where a naive time is compared with an aware one.
pub data RouteError : Type 0 where
  no_eligible type_error : RouteError
  waiting : Option Datetime → RouteError

unfoldable pub is_available : ProviderState → Bool
is_available available = true
is_available _ = false

unfoldable pub is_paid : CostClass → Bool
is_paid paid = true
is_paid _ = false

unfoldable pub is_free_api : CostClass → Bool
is_free_api free_api = true
is_free_api _ = false

unfoldable pub is_local : CostClass → Bool
is_local local = true
is_local _ = false

-- a <= b on datetimes
unfoldable pub no_later : Datetime → Datetime → Result RouteError Bool
no_later a b =
    if a.aware
    then (if b.aware then ok (leb a.instant b.instant) else err type_error)
    else (if b.aware then err type_error else ok (leb a.instant b.instant))

abbrev pub reached : Option Datetime → Datetime → Result RouteError Bool
reached none now = ok false
reached (some retry_at) now = no_later retry_at now

unfoldable pub accepts : Sensitivity → List Sensitivity → Bool
accepts sensitivity accepted =
    any (λ s. eqb (sensitivity_place s) (sensitivity_place sensitivity)) accepted

module _ {Score : Type 0} where
  -- _available
  unfoldable pub _available : ModelCandidate Score → Datetime → Result RouteError Bool
  _available candidate now =
      let at_retry = reached candidate.retry_at now in
      if is_available candidate.state then ok true else at_retry

  -- capability_scores.get(capability, default)
  unfoldable pub score_for : Score → Capability → List (Capability × Score) → Score
  score_for default capability [] = default
  score_for default capability ((key, score) ∷ scores) =
      let rest = score_for default capability scores in
      if eqb (capability_place key) (capability_place capability) then score else rest

module _ {Score : Type 0} (floats : Floats Score) where
  abbrev pub zero_score : Score
  zero_score = floats.hundredths 0

  unfoldable pub capability_score : RouteRequest → ModelCandidate Score → Score
  capability_score request candidate =
      score_for zero_score request.capability candidate.capability_scores

  unfoldable pub score_of : RouteRequest → ModelCandidate Score → Score
  score_of request candidate =
      let capability = capability_score request candidate in
      let free_bonus =
        if is_free_api candidate.cost_class then floats.hundredths 10 else zero_score in
      let local_bonus =
        if request.prefer_local && is_local candidate.cost_class
        then floats.hundredths 15
        else zero_score in
      let weighed =
        floats.plus
          (floats.plus (floats.times capability (floats.hundredths 55))
            (floats.times candidate.reliability (floats.hundredths 20)))
          (floats.times candidate.latency_score (floats.hundredths 15)) in
      floats.plus (floats.plus weighed free_bonus) local_bonus

  -- The tests that the router and `next_retry_at` share, behind `enabled` and availability.
  unfoldable pub is_compatible : RouteRequest → ModelCandidate Score → Bool
  is_compatible request candidate =
      accepts request.sensitivity candidate.accepted_sensitivity
      && (not (is_paid candidate.cost_class && not request.allow_paid)
          && not (floats.at_most (capability_score request candidate) zero_score))

  abbrev pub entry :
      RouteRequest → ModelCandidate Score → Bool → List (Score × ModelCandidate Score)
  entry request candidate true = (score_of request candidate, candidate) ∷ []
  entry request candidate false = []

  -- One pass of the loop: what it appends to `eligible`.
  unfoldable pub considered :
      RouteRequest
      → Datetime
      → ModelCandidate Score
      → Result RouteError (List (Score × ModelCandidate Score))
  considered request now candidate =
      let usable = _available candidate now in
      if candidate.enabled
      then (usable >>= λ free.
          ok (entry request candidate (free && is_compatible request candidate)))
      else ok []

  unfoldable pub eligible :
      RouteRequest
      → Datetime
      → List (ModelCandidate Score)
      → Result RouteError (List (Score × ModelCandidate Score))
  eligible request now [] = ok []
  eligible request now (candidate ∷ candidates) = do
    found ← considered request now candidate
    rest ← eligible request now candidates
    ok (found ++ rest)

  -- The sort's key (-score, id): is that of `a` less than that of `b`?
  unfoldable pub before : Score × ModelCandidate Score → Score × ModelCandidate Score → Bool
  before (s, a) (t, b) =
      not (floats.at_most s t)
      || (floats.at_most t s && elim (compare a.id b.id) [ Ordering.lt ↦ true | _ ↦ false ])

  unfoldable pub insert_entry :
      Score × ModelCandidate Score
      → List (Score × ModelCandidate Score)
      → List (Score × ModelCandidate Score)
  insert_entry item [] = item ∷ []
  insert_entry item (other ∷ rest) =
      let later = insert_entry item rest in
      if before other item then other ∷ later else item ∷ other ∷ rest

  -- eligible.sort(key=...), which is stable
  unfoldable pub sort_entries :
      List (Score × ModelCandidate Score) → List (Score × ModelCandidate Score)
  sort_entries [] = []
  sort_entries (item ∷ items) = insert_entry item (sort_entries items)

  abbrev pub first_entry :
      List (Score × ModelCandidate Score) → Result RouteError (ModelCandidate Score)
  first_entry [] = err no_eligible
  first_entry ((score, candidate) ∷ rest) = ok candidate

  unfoldable pub select_candidate :
      RouteRequest
      → List (ModelCandidate Score)
      → Datetime
      → Result RouteError (ModelCandidate Score)
  select_candidate request candidates now = do
    found ← eligible request now candidates
    first_entry (sort_entries found)
