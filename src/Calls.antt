-- ===== src/Calls.antt =====
-- Methods that act on the outside world and may raise: the state comes back beside the error too,
-- since what was sent stays sent. `ensuring` is `try`/`finally`.
pub mod Keeps
pub mod Returns
use hermes_dev_team_vm.Prelude.{Bool, true, false, Result, ok, err, Check}

abbrev pub Call : Type 0 → Type 0 → Type 0 → Type 0
Call E S A = S → Result E A × S

module _ {E S A : Type 0} where
  unfoldable pub pure : A → Call E S A
  pure value s = (ok value, s)

  unfoldable pub raise : E → Call E S A
  raise e s = (err e, s)

  -- a computation that reads no state
  unfoldable pub lift : Result E A → Call E S A
  lift r s = (r, s)

  unfoldable pub gets : (S → A) → Call E S A
  gets f s = (ok (f s), s)

module _ {E S A B : Type 0} where
  abbrev pub resume : Result E A → (A → Call E S B) → Call E S B
  resume (ok value) f s = f value s
  resume (err e) f s = (err e, s)

  infixl 5 ◌>>=◌ ◌>>◌
  unfoldable pub ◌>>=◌ : Call E S A → (A → Call E S B) → Call E S B
  ◌>>=◌ m f s = let (r, s') = m s in resume r f s'

  abbrev pub ◌>>◌ : Call E S A → Call E S B → Call E S B
  m >> n = m >>= λ _. n

-- An exception of the `finally` block replaces what the body did.
abbrev pub finished : {E A : Type 0} → Check E → Result E A → Result E A
finished (err e) r = err e
finished (ok _) r = r

unfoldable pub ensuring : {E S A : Type 0} → Call E S A → Call E S (Unit {0}) → Call E S A
ensuring body final s = let (r, s₁) = body s in let (f, s₂) = final s₁ in (finished f r, s₂)
