-- ===== src/Decision.antt =====
-- src/forge_controller/decision.py: who may decide.
pub mod Levels
mod Samples
use hermes_dev_team_vm.Prelude.{Floats, String, Bool, true, false, not, ◌&&◌, ◌||◌, if◌then◌else◌}
use hermes_dev_team_vm.Models.{AuthorityLevel, l0, l1, l2, l3, same_level, DecisionClassification}

pub record DecisionRequest (Score : Type 0) : Type 0 where
  pub id : String
  pub question : String
  pub recommendation : String
  pub confidence : Score
  pub materiality : Score
  pub irreversibility : Score
  pub consequence : Score
  pub hard_gate : Bool

module _ {Score : Type 0} (floats : Floats Score) where
  -- min(a, b)
  unfoldable pub least : Score → Score → Score
  least a b = if floats.at_most a b then a else b

  unfoldable pub decision_score : DecisionRequest Score → Score
  decision_score request =
      let uncertainty = floats.minus (floats.hundredths 100) request.confidence in
      least (floats.hundredths 100) (
        floats.plus
          (floats.plus
            (floats.plus (floats.times request.materiality (floats.hundredths 35))
              (floats.times request.irreversibility (floats.hundredths 25)))
            (floats.times request.consequence (floats.hundredths 30)))
          (floats.times uncertainty (floats.hundredths 10)))

  -- The condition of L3.
  unfoldable pub is_gated : DecisionRequest Score → Bool
  is_gated request =
      request.hard_gate
      || (floats.at_most (floats.hundredths 85) request.irreversibility
          && floats.at_most (floats.hundredths 80) request.consequence)

  unfoldable pub level_of : DecisionRequest Score → AuthorityLevel
  level_of request =
      if is_gated request
      then l3
      else if floats.at_most (floats.hundredths 58) (decision_score request)
      then l2
      else if floats.at_most (floats.hundredths 30) (decision_score request)
      then l1
      else l0

  unfoldable pub classify_decision : DecisionRequest Score → DecisionClassification Score
  classify_decision request =
      let level = level_of request in
      record {
        authority = level;
        autonomous = same_level level l0 || same_level level l1;
        defer_allowed = not (same_level level l3);
        score = floats.rounded (decision_score request);
      }
