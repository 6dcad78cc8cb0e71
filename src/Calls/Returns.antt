-- ===== src/Calls/Returns.antt =====
-- Calls that return the same value in every state: one rule for each way to build a call.
use hermes_dev_team_vm.Prelude.{◌≡◌, refl, Result, ok}
use hermes_dev_team_vm.Calls.{Call, pure, lift, gets, ◌>>=◌, ensuring}

pub record Returns {E S A : Type 0} (m : Call E S A) (value : A) : Type 0 where
  pub returned : (s : S) → (m s).0 ≡ ok value

module _ {E S A : Type 0} where
  pub Returns-pure : (value : A) → Returns {E = E} {S = S} (pure value) value
  unfolding pure
  Returns-pure value = record { returned = λ s. refl }

  pub Returns-lift : {r : Result E A} {value : A} → r ≡ ok value → Returns {S = S} (lift r) value
  unfolding lift
  Returns-lift h = record { returned = λ s. h }

  pub Returns-ensuring :
      {body : Call E S A} {final : Call E S (Unit {0})} {value : A}
      → Returns body value
      → Returns final tt
      → Returns (ensuring body final) value
  unfolding ensuring
  Returns-ensuring {body} {final} h k = record {
    returned = λ s. rw (k.returned (body s).1, h.returned s) refl;
  }

module _ {E S A B : Type 0} where
  pub Returns-bind :
      {m : Call E S A} (f : A → Call E S B) (value : A) {result : B}
      → Returns m value
      → Returns (f value) result
      → Returns (m >>= f) result
  unfolding ◌>>=◌
  Returns-bind {m} f value h k = record {
    returned = λ s. rw (h.returned s, k.returned (m s).1) refl;
  }

  pub Returns-gets :
      (g : S → A) (f : A → Call E S B) {result : B}
      → ((value : A) → Returns (f value) result)
      → Returns (gets g >>= f) result
  unfolding gets ◌>>=◌
  Returns-gets g f h = record { returned = λ s. (h (g s)).returned s }
