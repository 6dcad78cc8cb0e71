-- ===== src/Prelude/Texts.antt =====
-- Text by code points, for the code that walks, trims or folds it; and Python's truth of an
-- optional text.
use Prim.Native.Nat.{ℕ}
use Prim.Native.Char.{code}
use Prim.Native.String.{String}
use mathlib.Core.Path.{◌≡◌, refl, ap}
use mathlib.Core.Logic.{◌≢◌, ◌↔◌}
use mathlib.Core.Bool.{Bool, true, false, not, ◌&&◌, ◌||◌}
use mathlib.Core.Option.{Option, none, some}
use mathlib.Core.List.{List, [], ◌∷◌}
use native.Mathlib.Omega.{arith}
use text.Mathlib.Text.{◌==◌}
use text.Mathlib.TextEquality.{eq_iff}
use hermes_dev_team_vm.Prelude.Tests.{leb, eqb, not-false_iff}

abbrev pub Text : Type 0
Text = List ℕ

-- The code points of a text.
abbrev pub codes : String → Text
codes (String.◌∷◌ first rest) = code first ∷ codes rest
codes String.[] = []

abbrev pub text_eq : Text → Text → Bool
text_eq [] [] = true
text_eq (a ∷ s) (b ∷ t) = eqb a b && text_eq s t
text_eq _ _ = false

-- not value, for an optional text: missing or empty
abbrev pub is_blank : Option String → Bool
is_blank none = true
is_blank (some s) = s == ""

-- a == b, for optional texts
abbrev pub option_eq : Option String → Option String → Bool
option_eq none none = true
option_eq (some a) (some b) = a == b
option_eq _ _ = false

-- a test of the text, where there is one
abbrev pub option_all : (String → Bool) → Option String → Bool
option_all p none = true
option_all p (some s) = p s

abbrev pub in_range : ℕ → ℕ → ℕ → Bool
in_range lo hi c = leb lo c && leb c hi

-- [A-Za-z0-9]
abbrev pub is_alnum : ℕ → Bool
is_alnum c = in_range b'A' b'Z' c || in_range b'a' b'z' c || in_range b'0' b'9' c

pub text_eq_sound : (s t : Text) → text_eq s t ≡ true → s ≡ t
text_eq_sound [] [] h = refl
text_eq_sound [] (b ∷ t) h = cc
text_eq_sound (a ∷ s) [] h = cc
text_eq_sound (a ∷ s) (b ∷ t) h = ground (arith, text_eq_sound s t)

pub text_eq_refl : (s : Text) → text_eq s s ≡ true
text_eq_refl [] = refl
text_eq_refl (a ∷ s) = ground (arith, text_eq_refl s)

pub option_eq_iff : (a b : Option String) → (option_eq a b ≡ true) ↔ (a ≡ b)
option_eq_iff none none = (λ h. refl, λ h. refl)
option_eq_iff none (some b) = (λ h. cc, λ h. cc)
option_eq_iff (some a) none = (λ h. cc, λ h. cc)
option_eq_iff (some a) (some b) = (λ h. ap some ((eq_iff a b).0 h), λ h. (eq_iff a b).1 (cc))

pub text_differs-false_iff : (s t : String) → (not (s == t) ≡ false) ↔ (s ≡ t)
text_differs-false_iff s t =
    (λ h. (eq_iff s t).0 ((not-false_iff _).0 h), λ e. (not-false_iff _).1 ((eq_iff s t).1 e))

pub text_eq-false_iff : (s t : String) → ((s == t) ≡ false) ↔ (s ≢ t)
text_eq-false_iff s t = (λ h e. cc (h, (eq_iff s t).1 e), λ ne. ground (arith, eq_iff s t))

pub option_differs-false_iff : (a b : Option String) → (not (option_eq a b) ≡ false) ↔ (a ≡ b)
option_differs-false_iff a b = (
  λ h. (option_eq_iff a b).0 ((not-false_iff _).0 h),
  λ e. (not-false_iff _).1 ((option_eq_iff a b).1 e),
)
