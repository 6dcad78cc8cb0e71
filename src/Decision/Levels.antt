-- ===== src/Decision/Levels.antt =====
-- The levels of src/forge_controller/decision.py, and what governance.py makes of them.
use hermes_dev_team_vm.Prelude.{
  Floats, ◌≡◌, ◌≢◌, ◌↔◌, refl, String, true, false, List, ok, Datetime, arith,
}
use hermes_dev_team_vm.Models.{defer}
use hermes_dev_team_vm.Governance.{DecisionRecord, DecisionTransition, apply_owner_action}
use hermes_dev_team_vm.Governance.Actions.{apply_owner_action-IsOutcome}
use hermes_dev_team_vm.Decision.{
  DecisionRequest, decision_score, is_gated, level_of, classify_decision,
}

module _ {Score : Type 0} (floats : Floats Score) (request : DecisionRequest Score) where
  -- `classify_decision` makes a request autonomous exactly if it is not gated and its score is
  -- below 0.58, and forbids a deferral exactly if it is gated: by the hard gate, or by an
  -- irreversibility of at least 0.85 with a consequence of at least 0.8.
  pub classify_decision_autonomous :
      (((classify_decision floats request).autonomous ≡ true) ↔ (
        (is_gated floats request ≡ false)
        × (floats.at_most (floats.hundredths 58) (decision_score floats request) ≡ false)))
      × (((classify_decision floats request).defer_allowed ≡ false)
          ↔ (is_gated floats request ≡ true))
  unfolding classify_decision level_of
  classify_decision_autonomous = ground arith

  -- An owner can never defer a decision whose request has a hard gate: `apply_owner_action` with
  -- the classification that `classify_decision` gives it returns no transition for a deferral.
  pub gated_undeferrable :
      (decision : DecisionRecord Score) (refs : List String) (timestamp : Datetime)
      (t : DecisionTransition Score)
      → request.hard_gate ≡ true
      → apply_owner_action decision (classify_decision floats request) defer refs timestamp ≢ ok t
  unfolding classify_decision level_of is_gated
  gated_undeferrable decision refs timestamp t gate h =
      let (a, _) =
        apply_owner_action-IsOutcome decision (classify_decision floats request) defer refs
          timestamp t h in
      let allowed = a.deferrable refl in ground arith
