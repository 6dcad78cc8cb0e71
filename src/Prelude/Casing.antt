-- ===== src/Prelude/Casing.antt =====
-- `str.strip` and `str.lower`. Case folding is exact for ASCII and for the two other characters whose
-- lower case holds an ASCII letter, the Kelvin sign and the dotted capital I. Any other character is
-- left: no comparison with an ASCII text can tell.
use Prim.Native.Nat.{ℕ, ◌+◌}
use mathlib.Core.Bool.{Bool, ◌||◌}
use mathlib.Core.List.{[], ◌∷◌, ◌++◌, reverse}
use hermes_dev_team_vm.Prelude.Tests.{eqb, if◌then◌else◌}
use hermes_dev_team_vm.Prelude.Texts.{Text, in_range}

-- str.isspace
unfoldable pub is_space : ℕ → Bool
is_space c =
    in_range 9 13 c
    || in_range 28 32 c
    || eqb c 133
    || eqb c 160
    || eqb c 5760
    || in_range 8192 8202 c
    || eqb c 8232
    || eqb c 8233
    || eqb c 8239
    || eqb c 8287
    || eqb c 12288

unfoldable pub strip_left : Text → Text
unfolding is_space
strip_left [] = []
strip_left (c ∷ s) = let rest = strip_left s in if is_space c then rest else c ∷ s

unfoldable pub strip : Text → Text
unfolding strip_left
strip s = reverse (strip_left (reverse (strip_left s)))

unfoldable pub lower_char : ℕ → Text
lower_char c =
    if in_range b'A' b'Z' c
    then (c + 32) ∷ []
    else if eqb c 0x212A
    then b'k' ∷ []
    else if eqb c 0x130
    then b'i' ∷ 0x307 ∷ []
    else c ∷ []

unfoldable pub lower : Text → Text
unfolding lower_char
lower [] = []
lower (c ∷ s) = lower_char c ++ lower s
