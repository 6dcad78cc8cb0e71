-- ===== src/Routing/Waiting.antt =====
-- The wait of src/forge_controller/placement.py: it ends when a model is there, and not before.
use hermes_dev_team_vm.Prelude.{
  Floats, IsOrder, ◌≡◌, ◌≢◌, inl, inr, refl, ◌≤◌, ◌<◌, true, Option, none, some, List, [], ◌∷◌, All,
  All-Memᴰ, Memᴰ, Bool-cases, Result, ok, err, Datetime, arith, leb, subst, ok_unique,
}
use hermes_dev_team_vm.Routing.{ModelCandidate, RouteRequest, RouteError, no_eligible, waiting}
use hermes_dev_team_vm.Routing.Selection.{IsEligible, IsStarved, select_candidate-cases}
use hermes_dev_team_vm.Routing.Placement.{
  InferenceDeploymentRow, list_candidates, earliest, earliest_of, next_retry_at, or_wait, place,
}
use hermes_dev_team_vm.Routing.Times.{
  ensure_utc_instant, list_candidates-IsZoned, earliest_least, IsDue, retry_times_found,
}

module _ {Score : Type 0} (floats : Floats Score) (order : IsOrder floats) (request : RouteRequest)
    (rows : List (InferenceDeploymentRow Score)) where
  -- Without a choice `place` waits.
  place_waiting :
      (now : Datetime) (zoned : now.aware ≡ true) (o : Option Datetime)
      → place floats rows request now ≡ err (waiting o)
      → IsStarved floats request now zoned (list_candidates rows)
        × (next_retry_at floats request rows now ≡ ok o)
  unfolding place next_retry_at
  place_waiting now zoned o h =
      elim (select_candidate-cases floats request now zoned order (list_candidates rows)
        (list_candidates-IsZoned rows)) [
          | inl (c, e, i) ↦ let k = rw e at h in cc
          | inr (e, s) ↦
              let (ts, f, sound, complete) =
                retry_times_found floats request now (list_candidates rows) zoned in
              let k = rw (e, f) at h in (s, rw f (ground arith))
        ]

  -- Who is eligible later, and is not now, has its time between.
  late-IsDue :
      (now later : Datetime) (zoned : now.aware ≡ true)
      → IsStarved floats request now zoned (list_candidates rows)
      → (c : ModelCandidate Score) → Memᴰ c (list_candidates rows)
      → IsEligible floats request later c
      → (r : Datetime) × IsDue floats request r c
        × (now.instant < r.instant)
        × (r.instant ≤ later.instant)
  late-IsDue now later zoned starved c m i = elim i.usable [
    | inl up ↦
        absurd
          (starved c m (record { enabled = i.enabled; usable = inl up; compatible = i.compatible }))
    | inr (r, e, le) ↦ elim (Bool-cases (leb r.instant now.instant)) [
      | inl past ↦ absurd (
          starved c m (record {
            enabled = i.enabled;
            usable = inr (r, e, ground arith);
            compatible = i.compatible;
          }))
      | inr ahead ↦ (
        record r { aware = true },
        record { enabled = i.enabled; compatible = i.compatible; retry = rw e },
        ground arith,
        le,
      )
    ]
  ]

  -- Nobody can be placed.
  pub record IsIdle (now : Datetime) : Type 0 where
    pub none_placed : (c : ModelCandidate Score) → place floats rows request now ≢ ok c

  starved_unplaced :
      (now : Datetime) (zoned : now.aware ≡ true)
      → ((c : ModelCandidate Score)
          → Memᴰ c (list_candidates rows)
          → IsEligible floats request now c
          → ⊥)
      → (c : ModelCandidate Score) → place floats rows request now ≢ ok c
  unfolding place
  starved_unplaced now zoned s c h =
      elim (select_candidate-cases floats request now zoned order (list_candidates rows)
        (list_candidates-IsZoned rows)) [
          | inl (d, e, i) ↦ s d i.listed i.eligible
          | inr (e, t) ↦ by_retry (next_retry_at floats request rows now) (rw e at h)
        ]
    where
      by_retry :
          (r : Result RouteError (Option Datetime)) → or_wait floats (err no_eligible) r ≡ ok c → ⊥
      by_retry (ok t) f = cc
      by_retry (err no_eligible) f = cc
      by_retry (err _) f = cc

  starved-IsIdle :
      (now : Datetime) (zoned : now.aware ≡ true)
      → ((c : ModelCandidate Score)
          → Memᴰ c (list_candidates rows)
          → IsEligible floats request now c
          → ⊥)
      → IsIdle now
  starved-IsIdle now zoned s = record { none_placed = starved_unplaced now zoned s }

  eligible_placed :
      (now : Datetime) (zoned : now.aware ≡ true) (d : ModelCandidate Score)
      → Memᴰ d (list_candidates rows)
      → IsEligible floats request now d
      → (c : ModelCandidate Score) × (place floats rows request now ≡ ok c)
  unfolding place
  eligible_placed now zoned d m i =
      elim (select_candidate-cases floats request now zoned order (list_candidates rows)
        (list_candidates-IsZoned rows)) [
          | inl (c, e, k) ↦ (c, rw e)
          | inr (e, s) ↦ absurd (s d m i)
        ]

  -- What a wait until `t` promises.
  pub record IsWake (now t : Datetime) : Type 0 where
    pub ahead : now.instant < t.instant
    pub not_before :
        (later : Datetime)
        → later.aware ≡ true
        → later.instant < t.instant
        → now.instant ≤ later.instant
        → IsIdle later
    pub served :
        (later : Datetime)
        → later.aware ≡ true
        → t.instant ≤ later.instant
        → (c : ModelCandidate Score) × (place floats rows request later ≡ ok c)

  earliest-IsWake :
      (now : Datetime) (zoned : now.aware ≡ true) (t : Datetime) (ts : List Datetime)
      → IsStarved floats request now zoned (list_candidates rows)
      → earliest_of ts ≡ some t
      → All
          (λ t.
            (now.instant < t.instant)
            × ((c : ModelCandidate Score) × Memᴰ c (list_candidates rows)
                × IsDue floats request t c))
          ts
      → ((c : ModelCandidate Score) (r : Datetime)
          → Memᴰ c (list_candidates rows)
          → IsDue floats request r c
          → now.instant < r.instant
          → Memᴰ r ts)
      → IsWake now t
  earliest-IsWake now zoned t [] starved e sound complete = cc
  earliest-IsWake now zoned t (u ∷ ts) starved e sound complete =
      let (m, least) = earliest_least u ts in
      let same : earliest u ts ≡ t = ground arith in
      let (l, (c, listed, due)) = All-Memᴰ _ (rw same at m) sound in
      record {
        ahead = l;
        not_before = λ later aware sooner from. starved-IsIdle later aware (λ d k i.
            let (r, is_due, after, until) = late-IsDue now later zoned starved d k i in
            let no_sooner =
              All-Memᴰ (λ x. t.instant ≤ x.instant) (complete d r k is_due after)
                (subst (λ x. All (λ y. x.instant ≤ y.instant) (u ∷ ts)) same least) in
            ground arith);
        served = λ later aware from.
            let (_, (s, f, g)) = ensure_utc_instant c.retry_at t due.retry in
            eligible_placed later aware c listed (record {
              enabled = due.enabled;
              usable = inr (s, f, rw g from);
              compatible = due.compatible;
            });
      }

  -- If `place` raises WaitingForCompute with a retry time, and scores are ordered and the clock
  -- is aware, then the time is ahead, no model can be placed for the same request and deployments
  -- at any aware time from now until then, and at any aware time from then on `place` returns a
  -- model.
  pub place_wakes :
      (now t : Datetime)
      → now.aware ≡ true
      → place floats rows request now ≡ err (waiting (some t))
      → IsWake now t
  unfolding next_retry_at
  place_wakes now t zoned h =
      let (starved, n) = place_waiting now zoned (some t) h in
      let (ts, e, sound, complete) =
        retry_times_found floats request now (list_candidates rows) zoned in
      earliest-IsWake now zoned t ts starved (ok_unique refl (rw e at n)) sound complete

  -- If `place` raises WaitingForCompute without a retry time, no model can be placed for the same
  -- request and deployments at any later aware time: there is nothing to wait for.
  pub place_hopeless :
      (now later : Datetime)
      → now.aware ≡ true
      → later.aware ≡ true
      → now.instant ≤ later.instant
      → place floats rows request now ≡ err (waiting none)
      → IsIdle later
  unfolding next_retry_at
  place_hopeless now later zoned aware from h =
      let (starved, n) = place_waiting now zoned none h in
      let (ts, e, sound, complete) =
        retry_times_found floats request now (list_candidates rows) zoned in
      starved-IsIdle later aware (λ d k i.
        let (r, is_due, after, until) = late-IsDue now later zoned starved d k i in
        nothing ts (ok_unique refl (rw e at n)) (complete d r k is_due after))
    where
      nothing : {r : Datetime} (ts : List Datetime) → earliest_of ts ≡ none → Memᴰ r ts → ⊥
      nothing [] f m = elim m [ ]
      nothing (t ∷ ts) f m = cc
