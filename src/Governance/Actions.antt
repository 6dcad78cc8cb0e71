-- ===== src/Governance/Actions.antt =====
-- The life of a decision under src/forge_controller/governance.py.
use hermes_dev_team_vm.Prelude.{
  IsOk-eq, ◌≡◌, ◌↔◌, refl, String, Bool, true, false, not, some, List, ◌++◌, if◌then◌else◌, ok,
  >>-eq-ok, checks, checks_iff, not-false_iff, Datetime, arith, member, ◌||◌, ok_unique, subst, [],
  ◌∷◌,
}
use hermes_dev_team_vm.Models.{
  same_level_iff, DecisionAction, yes_action, no_action, defer, more_info, DecisionClassification,
}
use hermes_dev_team_vm.Governance.{
  DecisionStatus, opened, resolved, DecisionRecord, DecisionTransition, is_closed, distinct,
  transition, action_faults, apply_owner_action, DecisionDisposition, approved, denied, deferred,
  needs_info, GovernanceError, defer_not_allowed,
}
use hermes_dev_team_vm.Governance.Evidence.{IsDistinct, member-distinct, distinct-IsDistinct}

pub is_closed_iff : (s : DecisionStatus) → (is_closed s ≡ false) ↔ (s ≡ opened)
unfolding is_closed
is_closed_iff s = ground arith

-- The answers that settle a decision.
abbrev pub resolves : DecisionAction → Bool
resolves yes_action = true
resolves no_action = true
resolves defer = false
resolves more_info = false

-- What each action makes of a decision.
abbrev pub disposition_of : DecisionAction → DecisionDisposition
disposition_of yes_action = approved
disposition_of no_action = denied
disposition_of defer = deferred
disposition_of more_info = needs_info

-- The action asks for more information.
abbrev pub asks : DecisionAction → Bool
asks more_info = true
asks _ = false

module _ {Score : Type 0} where
  -- The action is one that the decision may take now.
  pub record IsAccepted (decision : DecisionRecord Score)
      (classification : DecisionClassification Score) (action : DecisionAction)
      (timestamp : Datetime) : Type 0 where
    pub still_open : decision.status ≡ opened
    pub authority : decision.authority ≡ classification.authority
    pub aware : timestamp.aware ≡ true
    pub deferrable : action ≡ defer → classification.defer_allowed ≡ true

  -- What an accepted action leads to.
  pub record IsOutcome (decision : DecisionRecord Score) (action : DecisionAction)
      (refs : List String) (timestamp : Datetime) (t : DecisionTransition Score) : Type 0 where
    pub action_kept : t.after.owner_action ≡ some action
    pub disposition : t.disposition ≡ disposition_of action
    pub evidence : t.after.evidence_refs ≡ distinct (decision.evidence_refs ++ refs)
    pub in_evidence :
        (x : String)
        → member x t.after.evidence_refs ≡ (member x decision.evidence_refs || member x refs)
    pub once : IsDistinct t.after.evidence_refs
    pub status : t.after.status ≡ (if resolves action then resolved else decision.status)
    pub resolved_at :
        t.after.resolved_at ≡ (if resolves action then some timestamp else decision.resolved_at)
    pub resumes : t.resume_task ≡ resolves action
    pub blocks : t.keep_blocked ≡ not (resolves action)
    pub asks_more : t.request_more_info ≡ asks action
    pub identity : t.after.decision_id ≡ decision.decision_id
    pub authority : t.after.authority ≡ decision.authority
    pub kept : t.after ≡ record decision {
      status = t.after.status;
      owner_action = t.after.owner_action;
      evidence_refs = t.after.evidence_refs;
      resolved_at = t.after.resolved_at;
    }

  module _ (decision : DecisionRecord Score) (classification : DecisionClassification Score) where
    -- The transition of an action, behind the tests.
    abbrev expected : DecisionAction → List String → Datetime → DecisionTransition Score
    expected action all_refs timestamp = record {
      disposition = disposition_of action;
      after = record decision {
        status = if resolves action then resolved else decision.status;
        owner_action = some action;
        evidence_refs = all_refs;
        resolved_at = if resolves action then some timestamp else decision.resolved_at;
      };
      resume_task = resolves action;
      keep_blocked = not (resolves action);
      request_more_info = asks action;
    }

    transition-expected :
        (action : DecisionAction) (all_refs : List String) (timestamp : Datetime)
        (t : DecisionTransition Score)
        → transition decision classification action all_refs timestamp ≡ ok t
        → (expected action all_refs timestamp ≡ t)
          × (action ≡ defer → classification.defer_allowed ≡ true)
    unfolding transition
    transition-expected yes_action all_refs timestamp t h =
        (ok_unique {E = GovernanceError} refl h, λ e. cc e)
    transition-expected no_action all_refs timestamp t h =
        (ok_unique {E = GovernanceError} refl h, λ e. cc e)
    transition-expected more_info all_refs timestamp t h =
        (ok_unique {E = GovernanceError} refl h, λ e. cc e)
    transition-expected defer all_refs timestamp t h =
        let (pass, h₁) =
          >>-eq-ok (checks ((not classification.defer_allowed, defer_not_allowed) ∷ [])) _ h in
        (
          ok_unique {E = GovernanceError} refl h₁,
          λ _.
              (not-false_iff _).0
                ((checks_iff ((not classification.defer_allowed, defer_not_allowed) ∷ [])).0
                  pass).0,
        )

    expected-IsOutcome :
        (action : DecisionAction) (refs : List String) (timestamp : Datetime)
        → IsOutcome decision action refs timestamp
            (expected action (distinct (decision.evidence_refs ++ refs)) timestamp)
    expected-IsOutcome chosen refs timestamp = record {
      action_kept = refl;
      disposition = refl;
      evidence = refl;
      in_evidence = λ x. member-distinct x decision.evidence_refs refs;
      once = distinct-IsDistinct (decision.evidence_refs ++ refs);
      status = refl;
      resolved_at = refl;
      resumes = refl;
      blocks = refl;
      asks_more = refl;
      identity = refl;
      authority = refl;
      kept = refl;
    }

    -- Where `apply_owner_action` returns, the decision was open, its authority that of the
    -- classification, the time aware and a deferral allowed, and the transition is the one of the
    -- action: YES approves and NO denies, both resolve at that time and resume the task; DEFER
    -- defers and MORE_INFO asks for information, both leave the status and keep the task blocked.
    -- The evidence has the old and the new references, and no other, each once; the rest of the
    -- decision stays.
    pub apply_owner_action-IsOutcome :
        (action : DecisionAction) (refs : List String) (timestamp : Datetime)
        (t : DecisionTransition Score)
        → apply_owner_action decision classification action refs timestamp ≡ ok t
        → IsAccepted decision classification action timestamp
          × IsOutcome decision action refs timestamp t
    unfolding apply_owner_action
    apply_owner_action-IsOutcome action refs timestamp t h =
        let (pass, h₁) = >>-eq-ok (checks (action_faults decision classification timestamp)) _ h in
        let p = (checks_iff (action_faults decision classification timestamp)).0 pass in
        let (same, deferrable) = transition-expected action _ timestamp t h₁ in
        (
          record {
            still_open = (is_closed_iff _).0 p.0;
            authority = (same_level_iff _ _).0 ((not-false_iff _).0 p.1.0);
            aware = (not-false_iff _).0 p.1.1.0;
            deferrable = deferrable;
          },
          subst (IsOutcome decision action refs timestamp) same
              (expected-IsOutcome action refs timestamp),
        )

    transition_total :
        (action : DecisionAction) (refs : List String) (timestamp : Datetime)
        → (action ≡ defer → classification.defer_allowed ≡ true)
        → (t : DecisionTransition Score) × (transition decision classification action refs timestamp
            ≡ ok t)
    unfolding transition
    transition_total yes_action refs timestamp h = (_, refl)
    transition_total no_action refs timestamp h = (_, refl)
    transition_total defer refs timestamp h =
        IsOk-eq (transition decision classification defer refs timestamp) (rw (h refl) tt)
    transition_total more_info refs timestamp h = (_, refl)

    -- `apply_owner_action` returns for an open decision of the authority of its classification at
    -- an aware time, if the action is not a deferral that the classification forbids.
    pub apply_owner_action_accepts :
        (action : DecisionAction) (refs : List String) (timestamp : Datetime)
        → IsAccepted decision classification action timestamp
        → (t : DecisionTransition Score) × (apply_owner_action decision classification action refs
              timestamp
            ≡ ok t)
    unfolding apply_owner_action
    apply_owner_action_accepts action refs timestamp a =
        let (t, e) =
          transition_total action (distinct (decision.evidence_refs ++ refs)) timestamp
            a.deferrable in
        (
          t,
          rw
              ((checks_iff (action_faults decision classification timestamp)).1 (
                (is_closed_iff _).1 a.still_open,
                (
                  (not-false_iff _).1 ((same_level_iff _ _).1 a.authority),
                  ((not-false_iff _).1 a.aware, tt),
                ),
              ))
              e,
        )
