-- ===== src/Deployment/Gates.antt =====
-- The gates of src/forge_controller/deployment_policy.py, and what the router makes of a deployment that
-- has passed them.
use hermes_dev_team_vm.Prelude.{
  Floats, ◌≡◌, ◌↔◌, inl, refl, Bool, true, false, not, List, [], ◌∷◌, all, any, lookup, ok, err,
  checks, checks_iff, >>-eq-ok, ok_unique, not-false_iff, or-false_iff, Datetime, arith, eqb, subst,
  sym, ap, ◌∙◌,
}
use hermes_dev_team_vm.Models.{ProviderState, quarantined, paid, Capability, capability_place}
use hermes_dev_team_vm.Routing.{RouteRequest, accepts, score_for, capability_score}
use hermes_dev_team_vm.Routing.Placement.{candidate_of}
use hermes_dev_team_vm.Routing.Selection.{IsEligible}
use hermes_dev_team_vm.Deployment.Promotion.{
  in_use, noted, IsNoted, stays-for_development, in_use-promoted, noted-IsNoted,
}
use hermes_dev_team_vm.Deployment.{
  InferenceDeployment, DeploymentQualification, not_quarantined, is_quarantined, is_false,
  qualification_faults, promoted, qualify_deployment, row_of,
}

-- score > 0, for every score
abbrev pub all_positive : {Score : Type 0} → Floats Score → List (Capability × Score) → Bool
all_positive floats scores =
    all (λ (_, score). not (floats.at_most score (floats.hundredths 0))) scores

-- The capability is one of those scored.
abbrev pub scores_it : {Score : Type 0} → Capability → List (Capability × Score) → Bool
scores_it capability scores =
    any (λ (key, _). eqb (capability_place key) (capability_place capability)) scores

module _ {Score : Type 0} (floats : Floats Score) where
  -- The evidence for a promotion is there.
  pub record IsQualified (deployment : InferenceDeployment Score)
      (qualification : DeploymentQualification Score) : Type 0 where
    pub held : deployment.state ≡ quarantined
    pub disabled : deployment.enabled ≡ false
    pub active : is_false (lookup "discovered_active" deployment.metadata) ≡ false
    pub tested : qualification.smoke_test_passed ≡ true
    pub positive : all_positive floats qualification.capability_scores ≡ true

  is_quarantined_iff : (s : ProviderState) → (is_quarantined s ≡ true) ↔ (s ≡ quarantined)
  unfolding is_quarantined
  is_quarantined_iff s = ground arith

  -- `qualify_deployment` promotes exactly a disabled, quarantined deployment that discovery does
  -- not report as inactive, on a passed smoke test and positive scores. The result is enabled and
  -- available, with the terms of the qualification, for development only if it was or costs as a
  -- trial or a promotion; its metadata end the probation and keep the qualification, and what
  -- they say under other keys; the rest is as it was.
  pub qualify_deployment_iff :
      (deployment : InferenceDeployment Score) (qualification : DeploymentQualification Score)
      (after : InferenceDeployment Score)
      → (qualify_deployment floats deployment qualification ≡ ok after) ↔ (
          IsQualified deployment qualification
          × (in_use deployment qualification (noted deployment.metadata qualification) ≡ after)
          × IsNoted deployment.metadata qualification after.metadata)
  unfolding qualify_deployment
  qualify_deployment_iff deployment qualification after =
      let row = qualification_faults floats deployment qualification in
      (
        λ h.
            let (pass, e) = >>-eq-ok (checks row) _ h in
            let p = (checks_iff row).0 pass in
            let held = (or-false_iff _ _).0 p.0 in
            (
              record {
                held = (is_quarantined_iff _).0 ((not-false_iff _).0 held.0);
                disabled = held.1;
                active = p.1.0;
                tested = (not-false_iff _).0 p.1.1.0;
                positive = (not-false_iff _).0 p.1.1.1.0;
              },
              in_use-promoted floats deployment qualification ∙ ok_unique refl e,
              subst (λ d. IsNoted deployment.metadata qualification d.metadata)
                  (in_use-promoted floats deployment qualification ∙ ok_unique refl e)
                  (noted-IsNoted deployment.metadata qualification),
            ),
        λ (q, e, noting).
            rw
              ((checks_iff row).1 (
                (or-false_iff _ _).1
                    ((not-false_iff _).1 ((is_quarantined_iff _).1 q.held), q.disabled),
                (q.active, ((not-false_iff _).1 q.tested, ((not-false_iff _).1 q.positive, tt))),
              ))
              (ap ok (sym (in_use-promoted floats deployment qualification) ∙ e)),
      )

  score_for-positive :
      (capability : Capability) (scores : List (Capability × Score))
      → all_positive floats scores ≡ true
      → scores_it capability scores ≡ true
      → floats.at_most (score_for (floats.hundredths 0) capability scores) (floats.hundredths 0)
        ≡ false
  unfolding score_for
  score_for-positive capability [] h m = cc
  score_for-positive capability ((key, score) ∷ scores) h m =
      ground (arith, score_for-positive capability scores)

  -- A deployment that `qualify_deployment` promotes was not eligible for the router before, for
  -- any request and time, and is eligible once stored, at any time, for a request whose
  -- sensitivity and capability the qualification covers, if a paid one is allowed to be paid.
  pub qualify_deployment-IsEligible :
      (deployment after : InferenceDeployment Score) (qualification : DeploymentQualification Score)
      (request : RouteRequest) (now : Datetime)
      → qualify_deployment floats deployment qualification ≡ ok after
      → accepts request.sensitivity qualification.accepted_sensitivity ≡ true
      → scores_it request.capability qualification.capability_scores ≡ true
      → (qualification.cost_class ≡ paid → request.allow_paid ≡ true)
      → (IsEligible floats request now (candidate_of (row_of deployment)) → ⊥)
        × IsEligible floats request now (candidate_of (row_of after))
  unfolding candidate_of row_of capability_score
  qualify_deployment-IsEligible deployment after qualification request now h accepted scored
        payable =
      let (q, e, noting) = (qualify_deployment_iff deployment qualification after).0 h in
      (
        λ i. let on = i.enabled in let off = q.disabled in cc,
        subst (λ d. IsEligible floats request now (candidate_of (row_of d))) e
            (record {
              enabled = refl;
              usable = inl refl;
              compatible = record {
                accepted = accepted;
                payable = payable;
                capable =
                    score_for-positive request.capability qualification.capability_scores q.positive
                      scored;
              };
            }),
      )

  -- A promoted deployment is not promoted again, by whatever qualification, and a mark for
  -- development only is never lost.
  pub qualify_deployment_once :
      (deployment after : InferenceDeployment Score) (first second : DeploymentQualification Score)
      → qualify_deployment floats deployment first ≡ ok after
      → (qualify_deployment floats after second ≡ err not_quarantined)
        × (deployment.development_only ≡ true → after.development_only ≡ true)
  unfolding qualify_deployment promoted is_quarantined
  qualify_deployment_once deployment after first second h =
      let (q, e, noting) = (qualify_deployment_iff deployment first after).0 h in
      (
        rw (← e) refl,
        λ d. rw (← e, stays-for_development deployment.development_only first.cost_class, d) refl,
      )
