-- ===== src/Github/Writes.antt =====
-- What the calls of src/forge_controller/github_broker.py write to GitHub and what they read from it, by
-- the log of the broker.
use hermes_dev_team_vm.Prelude.{
  ◌≡◌, refl, ◌∙◌, String, Bool, List, [], ◌∷◌, ◌++◌, Result, ok, err, Memᴰ, Memᴰ_right,
}
use hermes_dev_team_vm.Calls.{Call, ◌>>=◌}
use hermes_dev_team_vm.Calls.Keeps.{
  IsChained, Keeps, Keeps-pure, Keeps-lift, Keeps-gets, Keeps-bind, Keeps-ensuring, bind_cases,
}
use hermes_dev_team_vm.Github.{
  GithubError, InstallationToken, Permissions, Event, Session, Services, perform, payload_of,
  TrustedWorkspace,
}
use hermes_dev_team_vm.Github.Replies.{default_branch_of, sha_of}
use hermes_dev_team_vm.Github.Broker.{
  GithubBroker, Action, on_return, read_clock, mint_token, revoke_token, with_token,
  read_repository, read_ref, default_branch, remote_branch_sha, trusted_workspace,
  inspect_workspace,
}

-- The pushes and the pull requests that were sent, the latest first.
abbrev pub writes : List Event → List Event
writes [] = []
writes (Event.pushed workspace resource branch token ∷ log) =
    Event.pushed workspace resource branch token ∷ writes log
writes (Event.request_opened resource body token reply ∷ log) =
    Event.request_opened resource body token reply ∷ writes log
writes (_ ∷ log) = writes log

-- Nothing was written, and nothing is forgotten.
pub record IsQuiet (log later : List Event) : Type 0 where
  pub kept : (e : Event) → Memᴰ e log → Memᴰ e later
  pub same : writes later ≡ writes log

pub IsQuiet-trans : {a b c : List Event} → IsQuiet a b → IsQuiet b c → IsQuiet a c
IsQuiet-trans p q = record { kept = λ e m. q.kept e (p.kept e m); same = q.same ∙ p.same }

-- One event, of the given kind, was written.
pub record HasWritten (P : Event → Type 0) (log later : List Event) : Type 0 where
  pub event : Event
  pub kind : P event
  pub kept : (e : Event) → Memᴰ e log → Memᴰ e later
  pub written : writes later ≡ event ∷ writes log

pub IsQuiet-HasWritten :
    {P : Event → Type 0} {log later last : List Event}
    → HasWritten P log later
    → IsQuiet later last
    → HasWritten P log last
IsQuiet-HasWritten h q = record {
  event = h.event;
  kind = h.kind;
  kept = λ e m. q.kept e (h.kept e m);
  written = q.same ∙ h.written;
}

pub HasWritten-IsQuiet :
    {P : Event → Type 0} {log later last : List Event}
    → IsQuiet log later
    → HasWritten P later last
    → HasWritten P log last
HasWritten-IsQuiet q h = record {
  event = h.event;
  kind = h.kind;
  kept = λ e m. h.kept e (q.kept e m);
  written = rw (h.written, q.same) refl;
}

on_return-quiet :
    {A : Type 0} (event : A → Event)
    → ((value : A) (log : List Event) → writes (event value ∷ log) ≡ writes log)
    → (r : Result GithubError A) (log : List Event) → writes (on_return event r ++ log) ≡ writes log
on_return-quiet event same (ok value) log = same value log
on_return-quiet event same (err e) log = refl

module _ {World : Type 0} where
  abbrev pub Quiet : Bool → Session World → Session World → Type 0
  Quiet returned s t = IsQuiet s.log t.log

  pub quiet : IsChained Quiet
  quiet = record {
    same = λ b s. record { kept = λ e m. m; same = refl };
    chain = λ a b s t u h k. record { kept = λ e m. k.kept e (h.kept e m); same = k.same ∙ h.same };
  }

  perform-Quiet :
      {A : Type 0} (call : Call GithubError World A) (note : Result GithubError A → List Event)
      → ((r : Result GithubError A) (log : List Event) → writes (note r ++ log) ≡ writes log)
      → Keeps Quiet (perform call note)
  unfolding perform
  perform-Quiet call note same = record {
    holds = λ s. record {
      kept = λ e m. Memᴰ_right (note (call s.world).0) s.log m;
      same = same (call s.world).0 s.log;
    };
  }

-- A step that writes nothing, in a call for which it is fine to raise with nothing written.
pub quiet_step :
    {World A B : Type 0} (Q : Result GithubError B × Session World → Type 0) (start : List Event)
    → ((e : GithubError) (s : Session World) → IsQuiet start s.log → Q (err e, s))
    → (m : Call GithubError (Session World) A) (f : A → Call GithubError (Session World) B)
      (s : Session World)
    → IsQuiet start s.log
    → Keeps Quiet m
    → ((value : A)
        → (m s).0 ≡ ok value
        → IsQuiet s.log (m s).1.log
        → IsQuiet start (m s).1.log
        → Q (f value (m s).1))
    → Q ((m >>= f) s)
quiet_step Q start raised m f s so_far keep rest =
    let here = keep.holds s in
    let now = IsQuiet-trans so_far here in
    bind_cases Q m f s (λ e h. raised e _ now) (λ value h. rest value h here now)

module _ {World : Type 0} (services : Services World) where
  pub read_clock-Quiet : Keeps Quiet (read_clock services)
  unfolding read_clock
  read_clock-Quiet = perform-Quiet services.clock _ (on_return-quiet Event.clock_read λ _ _. refl)

  pub inspect_workspace-Quiet :
      (workspace : TrustedWorkspace) → Keeps Quiet (inspect_workspace services workspace)
  unfolding inspect_workspace
  inspect_workspace-Quiet workspace =
      perform-Quiet (services.inspect workspace) _
        (on_return-quiet (Event.inspected workspace) λ _ _. refl)

  pub mint_token-Quiet :
      (resource : String) (permissions : Permissions)
      → Keeps Quiet (mint_token services resource permissions)
  unfolding mint_token
  mint_token-Quiet resource permissions =
      perform-Quiet (services.mint resource permissions) _
        (on_return-quiet (Event.minted resource permissions) λ _ _. refl)

  revoke_token-Quiet : (token : InstallationToken) → Keeps Quiet (revoke_token services token)
  unfolding revoke_token
  revoke_token-Quiet token = perform-Quiet (services.revoke token) _ (λ _ _. refl)

  pub with_token-Quiet :
      {A : Type 0} (resource : String) (permissions : Permissions)
      (body : InstallationToken → Action services A)
      → ((token : InstallationToken) → Keeps Quiet (body token))
      → Keeps Quiet (with_token services resource permissions body)
  unfolding with_token
  with_token-Quiet resource permissions body keep =
      Keeps-bind quiet _ _ (mint_token-Quiet resource permissions)
        λ token. Keeps-ensuring quiet _ _ (keep token) (revoke_token-Quiet token)

  read_repository-Quiet :
      (resource : String) (token : InstallationToken)
      → Keeps Quiet (read_repository services resource token)
  unfolding read_repository
  read_repository-Quiet resource token =
      Keeps-bind quiet _ _ (perform-Quiet (services.get_repository resource token) _ (λ _ _. refl))
        (λ reply. Keeps-lift quiet (payload_of reply))

  read_ref-Quiet :
      (resource branch : String) (token : InstallationToken)
      → Keeps Quiet (read_ref services resource branch token)
  unfolding read_ref
  read_ref-Quiet resource branch token =
      Keeps-bind quiet _ _ (perform-Quiet (services.get_ref resource branch token) _ (λ _ _. refl))
        (λ reply. Keeps-lift quiet (payload_of reply))

  pub default_branch-Quiet : (resource : String) → Keeps Quiet (default_branch services resource)
  unfolding default_branch
  default_branch-Quiet resource =
      Keeps-bind quiet _ _ (with_token-Quiet resource _ _ (read_repository-Quiet resource))
        (λ payload. Keeps-lift quiet (default_branch_of payload))

  pub remote_branch_sha-Quiet :
      (resource branch : String) → Keeps Quiet (remote_branch_sha services resource branch)
  unfolding remote_branch_sha
  remote_branch_sha-Quiet resource branch =
      Keeps-bind quiet _ _ (with_token-Quiet resource _ _ (read_ref-Quiet resource branch))
        (λ payload. Keeps-lift quiet (sha_of payload))

  pub trusted_workspace-Quiet :
      (broker : GithubBroker) (project_id task_id : String)
      → Keeps Quiet (trusted_workspace services broker project_id task_id)
  unfolding trusted_workspace
  trusted_workspace-Quiet broker project_id task_id =
      Keeps-bind quiet _ _
        (perform-Quiet (services.workspace_resolver project_id task_id) _ (λ _ _. refl))
        (λ workspace.
          search (Keeps-bind quiet, Keeps-lift quiet, Keeps-pure quiet, Keeps-gets quiet))
