-- ===== src/Governance/Lifecycle.antt =====
-- Decisions over time under src/forge_controller/governance.py: what is offered, what is final, and what
-- happens to the evidence.
use hermes_dev_team_vm.Prelude.{
  ◌≡◌, ◌↔◌, String, Bool, true, false, not, ◌||◌, List, [], ◌∷◌, any, member, ok, err, >>-eq-ok,
  checks, checks_iff, not-false_iff, Datetime, arith, ℕ, eqb,
}
use hermes_dev_team_vm.Models.{
  same_level, same_level_iff, DecisionAction, yes_action, no_action, defer, more_info,
  DecisionClassification,
}
use hermes_dev_team_vm.Governance.{
  not_open, authority_mismatch, opened, resolved, DecisionRecord, DecisionPrompt,
  DecisionTransition, build_decision_prompt, apply_owner_action,
}
use hermes_dev_team_vm.Governance.Actions.{
  resolves, apply_owner_action-IsOutcome, apply_owner_action_accepts,
}
use hermes_dev_team_vm.Governance.Evidence.{IsDistinct}

abbrev action_rank : DecisionAction → ℕ
action_rank yes_action = 0
action_rank no_action = 1
action_rank defer = 2
action_rank more_info = 3

-- action in options
abbrev pub offers : DecisionAction → List DecisionAction → Bool
offers action options = any (λ o. eqb (action_rank o) (action_rank action)) options

module _ {Score : Type 0} where
  prompt_offers :
      (decision : DecisionRecord Score) (classification : DecisionClassification Score)
      (why_now yes_effect no_effect : String) (p : DecisionPrompt) (action : DecisionAction)
      → build_decision_prompt decision classification why_now yes_effect no_effect ≡ ok p
      → (decision.authority ≡ classification.authority)
        × ((offers action p.options ≡ true)
            ↔ (action ≡ defer → classification.defer_allowed ≡ true))
  unfolding build_decision_prompt
  prompt_offers decision classification why_now yes_effect no_effect p act h =
      let (pass, h₁) =
        >>-eq-ok
          (checks (
            (not (same_level decision.authority classification.authority), authority_mismatch)
            ∷ []))
          _ h in
      let q =
        (checks_iff (
            (not (same_level decision.authority classification.authority), authority_mismatch)
            ∷ [])).0
          pass in
      ((same_level_iff _ _).0 ((not-false_iff _).0 q.0), ground arith)

  -- Where `build_decision_prompt` returns a prompt, `apply_owner_action` returns a transition for
  -- an action of the same decision and classification exactly if the prompt offers the action,
  -- the decision is open, and the time is aware.
  pub build_decision_prompt-offers :
      (decision : DecisionRecord Score) (classification : DecisionClassification Score)
      (why_now yes_effect no_effect : String) (p : DecisionPrompt) (action : DecisionAction)
      (refs : List String) (timestamp : Datetime)
      → build_decision_prompt decision classification why_now yes_effect no_effect ≡ ok p
      → ((t : DecisionTransition Score) × (apply_owner_action decision classification action refs
              timestamp
            ≡ ok t))
        ↔ ((offers action p.options ≡ true) × (decision.status ≡ opened) × (timestamp.aware ≡ true))
  build_decision_prompt-offers decision classification why_now yes_effect no_effect p action refs
        timestamp h =
      let (authority, offered) =
        prompt_offers decision classification why_now yes_effect no_effect p action h in
      (
        λ (t, applied).
            let (a, _) =
              apply_owner_action-IsOutcome decision classification action refs timestamp t
                applied in
            (offered.1 a.deferrable, a.still_open, a.aware),
        λ (o, status, aware).
            apply_owner_action_accepts decision classification action refs timestamp (record {
              still_open = status;
              authority = authority;
              aware = aware;
              deferrable = offered.0 o;
            }),
      )

  closed_refused :
      (decision : DecisionRecord Score) (classification : DecisionClassification Score)
      (action : DecisionAction) (refs : List String) (timestamp : Datetime)
      → decision.status ≡ resolved
      → apply_owner_action decision classification action refs timestamp ≡ err not_open
  unfolding apply_owner_action
  closed_refused decision classification act refs timestamp h = rw h

  -- A decision that a YES or a NO has settled refuses every further action, by whatever
  -- classification and at whatever time, as not open.
  pub settled_final :
      (decision : DecisionRecord Score) (classification again : DecisionClassification Score)
      (action next : DecisionAction) (refs more : List String) (timestamp later : Datetime)
      (t : DecisionTransition Score)
      → resolves action ≡ true
      → apply_owner_action decision classification action refs timestamp ≡ ok t
      → apply_owner_action t.after again next more later ≡ err not_open
  settled_final decision classification again action next refs more timestamp later t r h =
      let (_, outcome) =
        apply_owner_action-IsOutcome decision classification action refs timestamp t h in
      closed_refused t.after again next more later (rw (outcome.status, r))

  -- A decision that was deferred, or on which more information was asked, accepts a later action
  -- at an aware time, with a further deferral only if the classification allows it.
  pub unsettled_reopens :
      (decision : DecisionRecord Score) (classification : DecisionClassification Score)
      (action next : DecisionAction) (refs more : List String) (timestamp later : Datetime)
      (t : DecisionTransition Score)
      → resolves action ≡ false
      → apply_owner_action decision classification action refs timestamp ≡ ok t
      → later.aware ≡ true
      → (next ≡ defer → classification.defer_allowed ≡ true)
      → (u : DecisionTransition Score) × (apply_owner_action t.after classification next more later
          ≡ ok u)
  unsettled_reopens decision classification action next refs more timestamp later t r h aware
        ok_defer =
      let (a, outcome) =
        apply_owner_action-IsOutcome decision classification action refs timestamp t h in
      apply_owner_action_accepts t.after classification next more later (record {
        still_open = rw (outcome.status, r) a.still_open;
        authority = rw outcome.authority a.authority;
        aware = aware;
        deferrable = ok_defer;
      })

-- Where `apply_owner_action` returns, a reference is in the evidence exactly if it was there
-- before or the action brings it, and none is there twice.
pub apply_owner_action-evidence :
    {Score : Type 0} (decision : DecisionRecord Score)
    (classification : DecisionClassification Score) (action : DecisionAction) (refs : List String)
    (timestamp : Datetime) (t : DecisionTransition Score)
    → apply_owner_action decision classification action refs timestamp ≡ ok t
    → ((x : String)
        → member x t.after.evidence_refs ≡ (member x decision.evidence_refs || member x refs))
      × IsDistinct t.after.evidence_refs
apply_owner_action-evidence decision classification action refs timestamp t h =
    let (_, outcome) =
      apply_owner_action-IsOutcome decision classification action refs timestamp t h in
    (outcome.in_evidence, outcome.once)
