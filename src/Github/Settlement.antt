-- ===== src/Github/Settlement.antt =====
-- The installation tokens of src/forge_controller/github_broker.py: those that are still valid by the log, and
-- what a call that gives back what it minted keeps.
use hermes_dev_team_vm.Prelude.{
  ◌≡◌, refl, ◌∙◌, String, Bool, true, List, [], ◌∷◌, ◌++◌, ◌==◌, if◌then◌else◌, Result, err,
  and-true_iff, Check, eq_refl, sym, subst, ok,
}
use hermes_dev_team_vm.Calls.{Call, finished, ensuring}
use hermes_dev_team_vm.Calls.Keeps.{IsChained, Keeps, is_ok, bind_cases}
use hermes_dev_team_vm.Github.{
  GithubError, InstallationToken, Event, Session, perform, Check, Services, Permissions,
}
use hermes_dev_team_vm.Github.Broker.{Action, on_return, mint_token, revoke_token, with_token}

abbrev pub without : String → List InstallationToken → List InstallationToken
without value [] = []
without value (token ∷ tokens) =
    let rest = without value tokens in if token.value == value then tokens else token ∷ rest

-- The tokens that were minted, and whose revocation was not sent.
abbrev pub outstanding : List Event → List InstallationToken
outstanding [] = []
outstanding (Event.minted resource permissions token ∷ log) = token ∷ outstanding log
outstanding (Event.revoked token _ ∷ log) = without token.value (outstanding log)
outstanding (Event.clock_read _ ∷ log) = outstanding log
outstanding (Event.repository_read _ _ _ ∷ log) = outstanding log
outstanding (Event.ref_read _ _ _ _ ∷ log) = outstanding log
outstanding (Event.inspected _ _ ∷ log) = outstanding log
outstanding (Event.pushed _ _ _ _ ∷ log) = outstanding log
outstanding (Event.request_opened _ _ _ _ ∷ log) = outstanding log

-- The tokens whose revocation was sent, and failed.
abbrev pub unconfirmed : List Event → List InstallationToken
unconfirmed [] = []
unconfirmed (Event.revoked token (err _) ∷ log) = token ∷ unconfirmed log
unconfirmed (_ ∷ log) = unconfirmed log

-- Every token that the call minted was given back; if the call returned, GitHub confirmed it.
pub record HasSettled (returned : Bool) (log later : List Event) : Type 0 where
  pub sent : outstanding later ≡ outstanding log
  pub confirmed : returned ≡ true → unconfirmed later ≡ unconfirmed log

module _ {World : Type 0} where
  abbrev pub Settled : Bool → Session World → Session World → Type 0
  Settled returned s t = HasSettled returned s.log t.log

  pub Settled-IsChained : IsChained Settled
  Settled-IsChained = record {
    same = λ b s. record { sent = refl; confirmed = λ _. refl };
    chain = λ a b s t u h k. record {
      sent = k.sent ∙ h.sent;
      confirmed = λ e. let p = (and-true_iff a b).0 e in k.confirmed p.1 ∙ h.confirmed p.0;
    };
  }

  -- A call that mints and revokes nothing.
  pub perform-Settled :
      {A : Type 0} (call : Call GithubError World A) (note : Result GithubError A → List Event)
      → ((r : Result GithubError A) (log : List Event)
          → (outstanding (note r ++ log) ≡ outstanding log)
            × (unconfirmed (note r ++ log) ≡ unconfirmed log))
      → Keeps Settled (perform call note)
  unfolding perform
  perform-Settled call note quiet = record {
    holds =
        λ s. let q = quiet (call s.world).0 s.log in record { sent = q.0; confirmed = λ _. q.1 };
  }

-- A body ran between the minting of a token and its revocation.
closed :
    {A : Type 0} (token : InstallationToken) (r : Result GithubError A) (f : Check GithubError)
    (log minted_log later : List Event)
    → outstanding minted_log ≡ token ∷ outstanding log
    → unconfirmed minted_log ≡ unconfirmed log
    → HasSettled (is_ok r) minted_log later
    → HasSettled (is_ok (finished f r)) log (Event.revoked token f ∷ later)
closed {A} token r f log minted_log later out unc h = record {
  sent = rw (h.sent, out, eq_refl) refl;
  confirmed = confirmed_by r f h;
}
  where
    confirmed_by :
        (q : Result GithubError A) (g : Check GithubError)
        → HasSettled (is_ok q) minted_log later
        → is_ok (finished g q) ≡ true
        → unconfirmed (Event.revoked token g ∷ later) ≡ unconfirmed log
    confirmed_by q (err e) h returned = cc
    confirmed_by (ok value) (ok _) h returned = h.confirmed refl ∙ unc
    confirmed_by (err e) (ok _) h returned = cc

module _ {World : Type 0} (services : Services World) where
  mint_token-log :
      (resource : String) (permissions : Permissions) (s : Session World)
      → (mint_token services resource permissions s).1.log
        ≡ on_return
            (Event.minted resource permissions)
            (mint_token services resource permissions s).0
          ++ s.log
  unfolding mint_token perform
  mint_token-log resource permissions s = refl

  revoke_token-log :
      (token : InstallationToken) (s : Session World)
      → (revoke_token services token s).1.log
        ≡ Event.revoked token (revoke_token services token s).0 ∷ s.log
  unfolding revoke_token perform
  revoke_token-log token s = refl

  pub with_token-Settled :
      {A : Type 0} (resource : String) (permissions : Permissions)
      (body : InstallationToken → Action services A)
      → ((token : InstallationToken) → Keeps Settled (body token))
      → Keeps Settled (with_token services resource permissions body)
  unfolding with_token ensuring
  with_token-Settled {A} resource permissions body keep = record {
    holds = λ s.
        bind_cases (λ (o : Result GithubError A × Session World). Settled (is_ok o.0) s o.1)
          (mint_token services resource permissions) _ s
          (λ e h.
            let same = mint_token-log resource permissions s in
            record { sent = rw (same, h) refl; confirmed = λ _. rw (same, h) refl })
          (λ token h.
            let s₁ = (mint_token services resource permissions s).1 in
            let same = mint_token-log resource permissions s in
            let t = (body token s₁).1 in
            subst
              (λ (log : List Event).
                HasSettled (is_ok (finished (revoke_token services token t).0 (body token s₁).0))
                  s.log log)
              (sym (revoke_token-log token t))
              (closed token (body token s₁).0 (revoke_token services token t).0 s.log s₁.log t.log
                (rw (same, h) refl) (rw (same, h) refl) ((keep token).holds s₁)));
  }
