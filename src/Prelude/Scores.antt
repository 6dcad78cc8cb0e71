-- ===== src/Prelude/Scores.antt =====
-- Python's floats, as far as scores use them: literals in hundredths, sums, differences, products,
-- `<=`, and `round(x, 4)`.
use mathlib.Core.Path.{◌≡◌}
use native.Mathlib.Omega.{arith}
use hermes_dev_team_vm.Prelude.Tests.{leb}
use mathlib.Core.Bool.{Bool, true, false}
use Prim.Native.Nat.{ℕ, ◌+◌, ◌-◌, ◌*◌}

pub record Floats (Score : Type 0) : Type 0 where
  pub hundredths : ℕ → Score
  pub plus : Score → Score → Score
  pub minus : Score → Score → Score
  pub times : Score → Score → Score
  pub at_most : Score → Score → Bool
  pub rounded : Score → Score

-- `<=` on floats that are numbers.
pub record IsOrder {Score : Type 0} (floats : Floats Score) : Type 0 where
  pub total : (a b : Score) → floats.at_most a b ≡ false → floats.at_most b a ≡ true
  pub trans :
      (a b c : Score)
      → floats.at_most a b ≡ true
      → floats.at_most b c ≡ true
      → floats.at_most a c ≡ true

-- Scores in whole hundredths, which the tests use.
abbrev pub whole_scores : Floats ℕ
whole_scores = record {
  hundredths = λ n. n;
  plus = λ a b. a + b;
  minus = λ a b. a - b;
  times = λ a b. a * b;
  at_most = leb;
  rounded = λ a. a;
}

pub whole_scores-IsOrder : IsOrder whole_scores
whole_scores-IsOrder = record { total = λ a b h. ground arith; trans = λ a b c h k. ground arith }
