-- ===== src/Prelude/Time.antt =====
-- Python's `datetime`: an instant in microseconds, and whether it carries a UTC offset.
use Prim.Native.Nat.{ℕ, ◌*◌}
use mathlib.Core.Bool.{Bool, true}
use mathlib.Core.Option.{Option, none, some}

pub record Datetime : Type 0 where
  pub instant : ℕ
  pub aware : Bool

-- timedelta(minutes=m), in microseconds
abbrev pub minutes : ℕ → ℕ
minutes m = m * 60_000_000

-- The integers: `negsuc n` is -(n + 1).
pub data ℤ : Type 0 where
  pos : ℕ → ℤ
  negsuc : ℕ → ℤ

-- 0 if the integer is negative
abbrev pub pos_part : ℤ → ℕ
pos_part (pos n) = n
pos_part (negsuc n) = 0

-- `ensure_utc` of src/forge_controller/persistence.py: a naive time is read as UTC. The instant stays.
abbrev pub ensure_utc : Option Datetime → Option Datetime
ensure_utc none = none
ensure_utc (some value) = some (record value { aware = true })
