-- ===== src/Routing/Times.antt =====
-- The times that next_retry_at of src/forge_controller/repository.py collects.
use hermes_dev_team_vm.Prelude.{
  ensure_utc, Floats, ◌≡◌, ◌⊎◌, inl, inr, refl, ◌≤◌, ◌<◌, true, false, ◌&&◌, Option, none, some,
  List, [], ◌∷◌, ◌++◌, All, All-map, Memᴰ, Bool-cases, if◌then◌else◌, ok, Datetime, arith, leb, ltb,
  and-true_iff, All-append, Memᴰ_left, Memᴰ_right,
}
use hermes_dev_team_vm.Routing.{ModelCandidate, RouteRequest, no_later, is_compatible}
use hermes_dev_team_vm.Routing.Selection.{IsCompatible, is_compatible_iff, IsZoned}
use hermes_dev_team_vm.Routing.Placement.{
  InferenceDeploymentRow, candidate_of, list_candidates, later_times, earliest, retry_times,
}

pub ensure_utc_instant :
    (o : Option Datetime) (r : Datetime)
    → ensure_utc o ≡ some r
    → (r.aware ≡ true) × ((s : Datetime) × (o ≡ some s) × (s.instant ≡ r.instant))
ensure_utc_instant none r h = cc
ensure_utc_instant (some s) r h = (ground arith, (s, refl, ground arith))

pub list_candidates-IsZoned :
    {Score : Type 0} (rows : List (InferenceDeploymentRow Score))
    → All IsZoned (list_candidates rows)
unfolding list_candidates candidate_of
list_candidates-IsZoned [] = tt
list_candidates-IsZoned (row ∷ rows) =
    (λ r h. (ensure_utc_instant row.retry_at r h).0, list_candidates-IsZoned rows)

-- `earliest` is in its list, and no later than any other time there.
pub earliest_least :
    (best : Datetime) (times : List Datetime)
    → Memᴰ (earliest best times) (best ∷ times)
      × All (λ t. (earliest best times).instant ≤ t.instant) (best ∷ times)
unfolding earliest
earliest_least best [] = (Memᴰ.head refl, (ground arith, tt))
earliest_least best (t ∷ times) =
    let sooner = if ltb t.instant best.instant then t else best in
    let q = earliest_least sooner times in
    (
      by_place q.0 (Bool-cases (ltb t.instant best.instant)),
      (ground (arith, q.1.0), (ground (arith, q.1.0), q.1.1)),
    )
  where
    by_place :
        {x : Datetime}
        → Memᴰ x ((if ltb t.instant best.instant then t else best) ∷ times)
        → (ltb t.instant best.instant ≡ true) ⊎ (ltb t.instant best.instant ≡ false)
        → Memᴰ x (best ∷ t ∷ times)
    by_place (Memᴰ.tail m) c = Memᴰ.tail (Memᴰ.tail m)
    by_place (Memᴰ.head e) (inl lt) = Memᴰ.tail (Memᴰ.head (rw lt at e))
    by_place (Memᴰ.head e) (inr ge) = Memᴰ.head (rw ge at e)

module _ {Score : Type 0} (floats : Floats Score) (request : RouteRequest) where
  -- The candidate would be eligible, but for its time, which is `r`.
  pub record IsDue (r : Datetime) (c : ModelCandidate Score) : Type 0 where
    pub enabled : c.enabled ≡ true
    pub compatible : IsCompatible floats request c
    pub retry : ensure_utc c.retry_at ≡ some r

  later_times_found :
      (o : Option Datetime) (now : Datetime)
      → now.aware ≡ true
      → ((ts : List Datetime) × (later_times (ensure_utc o) now ≡ ok ts)
          × All (λ t. (ensure_utc o ≡ some t) × (now.instant < t.instant)) ts
          × ((r : Datetime) → ensure_utc o ≡ some r → now.instant < r.instant → Memᴰ r ts))
  unfolding no_later
  later_times_found none now zoned = ([], refl, tt, λ r e l. cc)
  later_times_found (some s) now zoned = elim (Bool-cases (leb s.instant now.instant)) [
    | inl past ↦ ([], rw (zoned, past), tt, λ r e l. ground arith)
    | inr ahead ↦ (
      record s { aware = true } ∷ [],
      rw (zoned, ahead),
      ((refl, ground arith), tt),
      λ r e l. Memᴰ.head (ground arith),
    )
  ]

  pub retry_times_found :
      (now : Datetime) (cs : List (ModelCandidate Score))
      → now.aware ≡ true
      → (ts : List Datetime) × (retry_times floats request now cs ≡ ok ts)
        × All
            (λ t. (now.instant < t.instant) × ((c : ModelCandidate Score) × Memᴰ c cs × IsDue t c))
            ts
        × ((c : ModelCandidate Score) (r : Datetime)
            → Memᴰ c cs
            → IsDue r c
            → now.instant < r.instant
            → Memᴰ r ts)
  unfolding retry_times
  retry_times_found now [] zoned = ([], refl, tt, λ c r m. elim m [ ])
  retry_times_found now (c ∷ cs) zoned =
      let (others, e, sound, complete) = retry_times_found now cs zoned in
      let deeper = All-map others (λ t (l, (d, m, i)). (l, (d, Memᴰ.tail m, i))) sound in
      elim (Bool-cases (c.enabled && is_compatible floats request c)) [
        | inr unfit ↦ (
          others,
          rw (unfit, e),
          deeper,
          λ d r m i l. elim m [
            | Memᴰ.head h ↦ absurd (not_due unfit r (rw (← h) i))
            | Memᴰ.tail m ↦ complete d r m i l
          ],
        )
        | inl fits ↦
            let (ts, f, times, all) = later_times_found c.retry_at now zoned in
            let both = (and-true_iff c.enabled (is_compatible floats request c)).0 fits in
            let due =
              All-map ts
                (λ t (g, l). (
                  l,
                  (
                    c,
                    Memᴰ.head refl,
                    record {
                      enabled = both.0;
                      compatible = (is_compatible_iff floats request c).0 both.1;
                      retry = g;
                    },
                  ),
                ))
                times in
            (
              ts ++ others,
              rw (fits, f, e),
              All-append _ ts others due deeper,
              λ d r m i l. elim m [
                | Memᴰ.head h ↦ Memᴰ_left ts others (all r (rw (← h) i.retry) l)
                | Memᴰ.tail m ↦ Memᴰ_right ts others (complete d r m i l)
              ],
            )
      ]
    where
      not_due :
          (c.enabled && is_compatible floats request c) ≡ false → (r : Datetime) → IsDue r c → ⊥
      not_due unfit r i =
          let k = (is_compatible_iff floats request c).1 i.compatible in
          let d = i.enabled in ground arith
