-- ===== src/Routing/Choice.antt =====
-- What src/forge_controller/router.py returns, and when it has nothing to return.
use hermes_dev_team_vm.Prelude.{
  Floats, IsOrder, ◌≡◌, ◌↔◌, true, List, All, inl, inr, ok, err, Datetime,
}
use hermes_dev_team_vm.Routing.{ModelCandidate, RouteRequest, no_eligible, select_candidate}
use hermes_dev_team_vm.Routing.Selection.{IsZoned, IsChoice, IsStarved, select_candidate-cases}

module _ {Score : Type 0} (floats : Floats Score) (request : RouteRequest) (now : Datetime)
    (zoned : now.aware ≡ true) where
  -- With an aware clock, aware retry times and ordered scores, a model that `select_candidate`
  -- returns is one of the candidates, eligible (enabled, available or past its retry time,
  -- accepting the sensitivity, paid only if allowed, of positive capability), and no eligible
  -- candidate has a greater score.
  pub select_candidate_best :
      IsOrder floats
      → (candidates : List (ModelCandidate Score)) (choice : ModelCandidate Score)
      → All IsZoned candidates
      → select_candidate floats request candidates now ≡ ok choice
      → IsChoice floats request now zoned candidates choice
  select_candidate_best order candidates choice z h =
      elim (select_candidate-cases floats request now zoned order candidates z) [
        | inl (c, e, i) ↦ let same : c ≡ choice = cc in rw same at i
        | inr (e, s) ↦ cc
      ]

  -- With an aware clock, aware retry times and ordered scores, `select_candidate` raises
  -- NoEligibleModel exactly if no candidate is eligible.
  pub select_candidate-IsStarved :
      IsOrder floats
      → (candidates : List (ModelCandidate Score)) → All IsZoned candidates
      → (select_candidate floats request candidates now ≡ err no_eligible)
        ↔ IsStarved floats request now zoned candidates
  select_candidate-IsStarved order candidates z =
      elim (select_candidate-cases floats request now zoned order candidates z) [
        | inl (c, e, i) ↦ (λ h. cc, λ s. absurd (s c i.listed i.eligible))
        | inr (e, s) ↦ (λ h. s, λ t. e)
      ]
