-- ===== src/Routing/Selection.antt =====
-- The choice of src/forge_controller/router.py.
use hermes_dev_team_vm.Prelude.{
  Floats, IsOrder, ◌≡◌, ◌↔◌, ◌⊎◌, inl, inr, refl, sym, ◌∙◌, ◌≤◌, Bool, true, false, Option, none,
  some, List, [], ◌∷◌, All, All-map, All-Memᴰ, Memᴰ, Bool-cases, ok, err, Datetime, arith, leb,
}
use hermes_dev_team_vm.Models.{ProviderState, available, CostClass, paid}
use hermes_dev_team_vm.Routing.{
  ModelCandidate, RouteRequest, RouteError, no_eligible, is_available, is_paid, no_later, reached,
  accepts, _available, zero_score, capability_score, score_of, is_compatible, entry, considered,
  eligible, sort_entries, first_entry, select_candidate,
}
use hermes_dev_team_vm.Routing.Ranking.{
  IsTop, sort_entries-IsRanked, sort_entries-All, at_most_refl,
}

module _ {Score : Type 0} (floats : Floats Score) (request : RouteRequest) where
  -- The request's policy allows the model.
  pub record IsCompatible (candidate : ModelCandidate Score) : Type 0 where
    pub accepted : accepts request.sensitivity candidate.accepted_sensitivity ≡ true
    pub payable : candidate.cost_class ≡ paid → request.allow_paid ≡ true
    pub capable :
        floats.at_most (capability_score floats request candidate) (zero_score floats) ≡ false

  -- The model may be chosen at a time.
  pub record IsEligible (now : Datetime) (candidate : ModelCandidate Score) : Type 0 where
    pub enabled : candidate.enabled ≡ true
    pub usable :
        (candidate.state ≡ available)
        ⊎ ((r : Datetime) × (candidate.retry_at ≡ some r) × (r.instant ≤ now.instant))
    pub compatible : IsCompatible candidate

  is_paid_iff : (c : CostClass) → (is_paid c ≡ true) ↔ (c ≡ paid)
  unfolding is_paid
  is_paid_iff c = ground arith

  pub is_available_iff : (s : ProviderState) → (is_available s ≡ true) ↔ (s ≡ available)
  unfolding is_available
  is_available_iff s = ground arith

  pub is_compatible_iff :
      (c : ModelCandidate Score) → (is_compatible floats request c ≡ true) ↔ IsCompatible c
  unfolding is_compatible capability_score
  is_compatible_iff c =
      let p = is_paid_iff c.cost_class in
      (
        λ h. record {
          accepted = ground arith;
          payable = λ e. ground (arith, p.1 e);
          capable = ground arith;
        },
        λ i. elim (Bool-cases (is_paid c.cost_class)) [
          | inl charged ↦ rw (i.accepted, charged, i.payable (p.0 charged), i.capable)
          | inr gratis ↦ rw (i.accepted, gratis, i.capable)
        ],
      )

-- The times of a candidate carry their zone, as `ensure_utc` leaves them.
abbrev pub IsZoned : {Score : Type 0} → ModelCandidate Score → Type 0
IsZoned candidate = (r : Datetime) → candidate.retry_at ≡ some r → r.aware ≡ true

module _ {Score : Type 0} (floats : Floats Score) (request : RouteRequest) (now : Datetime)
    (zoned : now.aware ≡ true) where
  usable_iff :
      (c : ModelCandidate Score)
      → IsZoned c
      → (b : Bool) × (_available c now ≡ ok b)
        × ((b ≡ true) ↔ (
            (c.state ≡ available)
            ⊎ ((r : Datetime) × (c.retry_at ≡ some r) × (r.instant ≤ now.instant))))
  unfolding _available
  usable_iff c z = elim (Bool-cases (is_available c.state)) [
    | inl up ↦ (true, rw up, (λ h. inl ((is_available_iff floats request c.state).0 up), λ h. refl))
    | inr down ↦ by_retry down c.retry_at refl
  ]
    where
      by_retry :
          is_available c.state ≡ false
          → (o : Option Datetime) → c.retry_at ≡ o
          → (b : Bool) × (_available c now ≡ ok b)
            × ((b ≡ true) ↔ (
                (c.state ≡ available)
                ⊎ ((r : Datetime) × (c.retry_at ≡ some r) × (r.instant ≤ now.instant))))
      by_retry down none e = (
        false,
        rw (down, e),
        (
          λ h. cc,
          λ h. elim h [
            | inl up ↦ let v = (is_available_iff floats request c.state).1 up in cc
            | inr (r, f, le) ↦ let x : none ≡ some r = sym e ∙ f in cc
          ],
        ),
      )
      by_retry down (some r) e = (
        leb r.instant now.instant,
        unfold no_later in rw (down, e, z r e, zoned),
        (
          λ h. inr (r, e, ground arith),
          λ h. elim h [
            | inl up ↦ let v = (is_available_iff floats request c.state).1 up in cc
            | inr (q, f, le) ↦ let x : some r ≡ some q = sym e ∙ f in ground arith
          ],
        ),
      )

  considered-cases :
      (c : ModelCandidate Score)
      → IsZoned c
      → (IsEligible floats request now c
          × (considered floats request now c ≡ ok ((score_of floats request c, c) ∷ [])))
        ⊎ ((IsEligible floats request now c → ⊥) × (considered floats request now c ≡ ok []))
  unfolding considered _available score_of is_compatible capability_score
      hermes_dev_team_vm.Routing.is_free_api hermes_dev_team_vm.Routing.is_local
  considered-cases c z = elim (Bool-cases c.enabled) [
    | inr disabled ↦ inr (λ i. let e = i.enabled in cc, rw disabled)
    | inl enabled ↦
        let (b, e, u) = usable_iff c z in
        let k = is_compatible_iff floats request c in
        elim (Bool-cases b) [
          | inr busy ↦ inr (λ i. let t = u.1 i.usable in cc, rw (enabled, e, busy))
          | inl free ↦ elim (Bool-cases (is_compatible floats request c)) [
            | inl fits ↦ inl (
              record { enabled = enabled; usable = u.0 free; compatible = k.0 fits },
              rw (enabled, e, free, fits),
            )
            | inr unfit ↦ inr (λ i. let t = k.1 i.compatible in cc, rw (enabled, e, free, unfit))
          ]
        ]
  ]

  -- An entry of `eligible` is of an eligible candidate, with its score.
  abbrev pub IsEntry : List (ModelCandidate Score) → Score × ModelCandidate Score → Type 0
  IsEntry candidates (s, c) =
      Memᴰ c candidates × (IsEligible floats request now c × (s ≡ score_of floats request c))

  -- The loop finds the eligible candidates and no others.
  eligible_found :
      (candidates : List (ModelCandidate Score))
      → All IsZoned candidates
      → (found : List (Score × ModelCandidate Score)) × (eligible floats request now candidates
          ≡ ok found)
        × All (IsEntry candidates) found
        × ((d : ModelCandidate Score)
            → Memᴰ d candidates
            → IsEligible floats request now d
            → Memᴰ (score_of floats request d, d) found)
  unfolding eligible
  eligible_found [] z = ([], refl, tt, λ d m. elim m [ ])
  eligible_found (c ∷ candidates) z =
      let (found, e, entries, complete) = eligible_found candidates z.1 in
      let deeper = All-map found (λ (s, d) (m, i). (Memᴰ.tail m, i)) entries in
      elim (considered-cases c z.0) [
        | inl (i, f) ↦ (
          (score_of floats request c, c) ∷ found,
          rw (f, e),
          ((Memᴰ.head refl, (i, refl)), deeper),
          λ d m j. elim m [
            | Memᴰ.head h ↦ rw h (Memᴰ.head refl)
            | Memᴰ.tail m ↦ Memᴰ.tail (complete d m j)
          ],
        )
        | inr (i, f) ↦ (
          found,
          rw (f, e),
          deeper,
          λ d m j. elim m [ Memᴰ.head h ↦ absurd (i (rw (← h) j)) | Memᴰ.tail m ↦ complete d m j ],
        )
      ]

  -- What the router promises of its choice.
  pub record IsChoice (candidates : List (ModelCandidate Score)) (choice : ModelCandidate Score)
      : Type 0 where
    pub listed : Memᴰ choice candidates
    pub eligible : IsEligible floats request now choice
    pub best :
        (d : ModelCandidate Score)
        → Memᴰ d candidates
        → IsEligible floats request now d
        → floats.at_most (score_of floats request d) (score_of floats request choice) ≡ true

  -- No candidate is eligible.
  abbrev pub IsStarved : List (ModelCandidate Score) → Type 0
  IsStarved candidates =
      (d : ModelCandidate Score) → Memᴰ d candidates → IsEligible floats request now d → ⊥

  first_entry-cases :
      (order : IsOrder floats) (candidates : List (ModelCandidate Score))
      (found : List (Score × ModelCandidate Score))
      → All (IsEntry candidates) found
      → ((d : ModelCandidate Score)
          → Memᴰ d candidates
          → IsEligible floats request now d
          → Memᴰ (score_of floats request d, d) found)
      → ((c : ModelCandidate Score) × (first_entry floats (sort_entries floats found) ≡ ok c)
          × IsChoice candidates c)
        ⊎ ((first_entry floats (sort_entries floats found) ≡ err no_eligible)
            × IsStarved candidates)
  first_entry-cases order candidates found entries complete =
      by_sorted (sort_entries floats found) refl
    where
      by_sorted :
          (sorted : List (Score × ModelCandidate Score))
          → sort_entries floats found ≡ sorted
          → ((c : ModelCandidate Score) × (first_entry floats (sort_entries floats found) ≡ ok c)
              × IsChoice candidates c)
            ⊎ ((first_entry floats (sort_entries floats found) ≡ err no_eligible)
                × IsStarved candidates)
      by_sorted [] e = inr (
        rw e,
        λ d m i.
            All-Memᴰ (λ _. ⊥) (complete d m i)
              ((sort_entries-All floats order (λ _. ⊥) found).0 (rw e tt)),
      )
      by_sorted ((s, c) ∷ rest) e =
          let all =
            rw e at ((sort_entries-All floats order (IsEntry candidates) found).1 entries) in
          let top : IsTop floats order s rest =
            rw e at (sort_entries-IsRanked floats order found) in
          let tops : All (λ (t, _). floats.at_most t s ≡ true) found =
            (sort_entries-All floats order (λ (t, _). floats.at_most t s ≡ true) found).0
              (rw e (at_most_refl floats order s, top)) in
          inl (
            c,
            rw e,
            record {
              listed = all.0.0;
              eligible = all.0.1.0;
              best = λ d m i. rw (← all.0.1.1) (All-Memᴰ _ (complete d m i) tops);
            },
          )

  -- The two ways out.
  pub select_candidate-cases :
      (order : IsOrder floats) (candidates : List (ModelCandidate Score))
      → All IsZoned candidates
      → ((c : ModelCandidate Score) × (select_candidate floats request candidates now ≡ ok c)
          × IsChoice candidates c)
        ⊎ ((select_candidate floats request candidates now ≡ err no_eligible)
            × IsStarved candidates)
  unfolding select_candidate
  select_candidate-cases order candidates z =
      let (found, e, entries, complete) = eligible_found candidates z in
      rw e (first_entry-cases order candidates found entries complete)
