-- ===== src/Calls/Keeps.antt =====
-- What a call changes, as a relation between the state before and the state after, and whether it
-- returned: one rule for each way to build a call.
use hermes_dev_team_vm.Prelude.{◌≡◌, refl, Bool, true, false, ◌&&◌, Result, ok, err, Check}
use hermes_dev_team_vm.Calls.{Call, pure, lift, gets, resume, ◌>>=◌, ensuring, finished}

abbrev pub is_ok : {E A : Type 0} → Result E A → Bool
is_ok (ok value) = true
is_ok (err e) = false

-- A relation that a chain of calls keeps if each call does; the chain returns if each does.
pub record IsChained {S : Type 0} (R : Bool → S → S → Type 0) : Type 0 where
  pub same : (b : Bool) (s : S) → R b s s
  pub chain : (a b : Bool) (s t u : S) → R a s t → R b t u → R (a && b) s u

pub record Keeps {E S A : Type 0} (R : Bool → S → S → Type 0) (m : Call E S A) : Type 0 where
  pub holds : (s : S) → R (is_ok (m s).0) s (m s).1

module _ {E S A : Type 0} {R : Bool → S → S → Type 0} (chained : IsChained R) where
  pub Keeps-pure : (value : A) → Keeps {E = E} R (pure value)
  unfolding pure
  Keeps-pure value = record { holds = λ s. chained.same _ s }

  pub Keeps-lift : (r : Result E A) → Keeps R (lift {S = S} r)
  unfolding lift
  Keeps-lift r = record { holds = λ s. chained.same _ s }

  pub Keeps-gets : (f : S → A) → Keeps {E = E} R (gets f)
  unfolding gets
  Keeps-gets f = record { holds = λ s. chained.same _ s }

  is_ok-finished :
      (f : Check E) (r : Result E A) (s t u : S)
      → R (is_ok r) s t
      → R (is_ok f) t u
      → R (is_ok (finished f r)) s u
  is_ok-finished (ok _) (ok value) s t u h k = chained.chain true true s t u h k
  is_ok-finished (ok _) (err e) s t u h k = chained.chain false true s t u h k
  is_ok-finished (err e) (ok value) s t u h k = chained.chain true false s t u h k
  is_ok-finished (err e) (err d) s t u h k = chained.chain false false s t u h k

  pub Keeps-ensuring :
      (body : Call E S A) (final : Call E S (Unit {0}))
      → Keeps R body
      → Keeps R final
      → Keeps R (ensuring body final)
  unfolding ensuring
  Keeps-ensuring body final keep_body keep_final = record {
    holds = λ s.
        is_ok-finished (final (body s).1).0 (body s).0 s (body s).1 _ (keep_body.holds s)
          (keep_final.holds (body s).1);
  }

module _ {E S A B : Type 0} {R : Bool → S → S → Type 0} (chained : IsChained R) where
  resume-chain :
      (r : Result E A) (f : A → Call E S B) (s t : S)
      → R (is_ok r) s t
      → ((value : A) → Keeps R (f value))
      → R (is_ok (resume r f t).0) s (resume r f t).1
  resume-chain (ok value) f s t h keep = chained.chain true _ s t _ h ((keep value).holds t)
  resume-chain (err e) f s t h keep = h

  pub Keeps-bind :
      (m : Call E S A) (f : A → Call E S B)
      → Keeps R m
      → ((value : A) → Keeps R (f value))
      → Keeps R (m >>= f)
  unfolding ◌>>=◌
  Keeps-bind m f keep_m keep_f = record {
    holds = λ s. resume-chain (m s).0 f s (m s).1 (keep_m.holds s) keep_f;
  }

module _ {E S A B : Type 0} (Q : Result E B × S → Type 0) where
  -- What holds of a chain: its first call raises, or hands over its value.
  resume_cases :
      (r : Result E A) (s : S) (f : A → Call E S B)
      → ((e : E) → r ≡ err e → Q (err e, s))
      → ((value : A) → r ≡ ok value → Q (f value s))
      → Q (resume r f s)
  resume_cases (ok value) s f raised returned = returned value refl
  resume_cases (err e) s f raised returned = raised e refl

  pub bind_cases :
      (m : Call E S A) (f : A → Call E S B) (s : S)
      → ((e : E) → (m s).0 ≡ err e → Q (err e, (m s).1))
      → ((value : A) → (m s).0 ≡ ok value → Q (f value (m s).1))
      → Q ((m >>= f) s)
  unfolding ◌>>=◌
  bind_cases m f s = resume_cases (m s).0 (m s).1 f

-- The parts of a chain that returned.
pub bind_returned :
    {E S A B : Type 0} (m : Call E S A) (f : A → Call E S B) (s : S) {b : B}
    → ((m >>= f) s).0 ≡ ok b
    → (value : A) × ((m s).0 ≡ ok value)
      × ((f value (m s).1).0 ≡ ok b)
      × (((m >>= f) s).1 ≡ (f value (m s).1).1)
unfolding ◌>>=◌
bind_returned {E} {S} {A} {B} m f s {b} h = by_result (m s).0 refl h
  where
    by_result :
        (r : Result E A)
        → (m s).0 ≡ r
        → (resume r f (m s).1).0 ≡ ok b
        → (value : A) × ((m s).0 ≡ ok value)
          × ((f value (m s).1).0 ≡ ok b)
          × ((resume (m s).0 f (m s).1).1 ≡ (f value (m s).1).1)
    by_result (ok value) e h = (value, e, h, rw e refl)
    by_result (err x) e h = cc

module _ {E S A B : Type 0} (g : A → Result E B) where
  resume-lift : (r : Result E A) (s : S) → (resume r (λ a. lift (g a)) s).1 ≡ s
  unfolding lift
  resume-lift (ok value) s = refl
  resume-lift (err e) s = refl

  -- A pure test of what a call returned leaves the state of the call.
  pub bind_lift : (m : Call E S A) (s : S) → ((m >>= λ a. lift (g a)) s).1 ≡ (m s).1
  unfolding ◌>>=◌
  bind_lift m s = resume-lift (m s).0 (m s).1
