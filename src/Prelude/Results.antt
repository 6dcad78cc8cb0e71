-- ===== src/Prelude/Results.antt =====
-- Code that may raise: a value or the exception, chained by `do` blocks.
use mathlib.Core.Path.{◌≡◌, refl}
use mathlib.Core.Logic.{◌↔◌}
use mathlib.Core.Bool.{Bool, true, false}
use mathlib.Core.Option.{Option, none, some}
use mathlib.Core.List.{List, [], ◌∷◌}
use hermes_dev_team_vm.Prelude.Lists.{All}

pub data Result {ℓ κ} (E : Type ℓ) (A : Type κ) : Type (ℓ ⊔ κ) where
  ok : A → Result E A
  err : E → Result E A

-- What a call hands to the code behind it: a value, or nothing where it raised.
abbrev pub then_run : {E A B : Type 0} → (A → Result E B) → Result E A → Result E B
then_run rest (err raised) = err raised
then_run rest (ok value) = rest value

-- Code that returns nothing and may raise.
abbrev pub Check : Type 0 → Type 0
Check E = Result E (Unit {0})

infixl 5 ◌>>=◌
abbrev pub ◌>>=◌ : {E A B : Type 0} → Result E A → (A → Result E B) → Result E B
call >>= rest = then_run rest call

infixl 5 ◌>>◌
abbrev pub ◌>>◌ : {E B : Type 0} → Check E → Result E B → Result E B
check >> rest = then_run (λ _. rest) check

-- A row of statements `if test: raise e`, taken in order.
abbrev pub checks : {E : Type 0} → List (Bool × E) → Check E
checks [] = ok tt
checks ((true, e) ∷ rest) = err e
checks ((false, e) ∷ rest) = checks rest

abbrev pub or_raise : {E A : Type 0} → Option A → E → Result E A
or_raise none e = err e
or_raise (some a) e = ok a

-- A successful chain has a successful first part.
pub >>=-eq-ok :
    {E A B : Type 0} (call : Result E A) (rest : A → Result E B) {returned : B}
    → (call >>= rest) ≡ ok returned
    → (value : A) × (call ≡ ok value) × (rest value ≡ ok returned)
>>=-eq-ok (err raised) rest h = cc
>>=-eq-ok (ok value) rest h = (value, refl, h)

pub or_raise-eq-ok :
    {E A : Type 0} (o : Option A) (e : E) {a : A} → or_raise o e ≡ ok a → o ≡ some a
or_raise-eq-ok none e h = cc
or_raise-eq-ok (some a) e h = cc

-- No test of the row holds.
abbrev pub AllPass : {E : Type 0} → List (Bool × E) → Type 0
AllPass = All (λ (test, _). test ≡ false)

-- A row of checks raises nothing exactly if none of its tests holds.
pub checks_iff : {E : Type 0} (row : List (Bool × E)) → (checks row ≡ ok tt) ↔ AllPass row
checks_iff [] = (λ _. tt, λ _. refl)
checks_iff ((true, e) ∷ rest) = (λ h. cc, λ h. cc (h.0))
checks_iff ((false, e) ∷ rest) = (λ h. (refl, (checks_iff rest).0 h), λ h. (checks_iff rest).1 h.1)

-- A chain that begins with a check succeeds if the check passes and the rest succeeds.
pub >>-eq-ok :
    {E B : Type 0} (m : Check E) (k : Result E B) {b : B}
    → (m >> k) ≡ ok b
    → (m ≡ ok tt) × (k ≡ ok b)
>>-eq-ok (ok u) k h = (refl, h)
>>-eq-ok (err e) k h = cc

pub some_unique {ℓ} : {A : Type ℓ} {o : Option A} {a b : A} → o ≡ some a → o ≡ some b → a ≡ b
some_unique p q = cc

-- The code returned.
abbrev pub IsOk : {E A : Type 0} → Result E A → Type 0
IsOk (ok a) = Unit
IsOk (err e) = ⊥

pub IsOk-eq : {E A : Type 0} (r : Result E A) → IsOk r → (a : A) × (r ≡ ok a)
IsOk-eq (ok a) h = (a, refl)
IsOk-eq (err e) h = absurd h

pub ok_unique : {E A : Type 0} {r : Result E A} {a b : A} → r ≡ ok a → r ≡ ok b → a ≡ b
ok_unique p q = cc
