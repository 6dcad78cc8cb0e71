-- ===== src/Github/Reads.antt =====
-- What a read of GitHub, a clock or a workspace that returned left in the log of the broker of
-- src/forge_controller/github_broker.py.
use hermes_dev_team_vm.Prelude.{
  ◌≡◌, refl, sym, subst, String, true, false, List, [], ◌∷◌, ◌++◌, Result, ok, err, Check, Memᴰ,
  Text, Datetime, checks, ap, ok_unique, checks_iff, AllPass, not-false_iff, or-false_iff,
}
use hermes_dev_team_vm.Json.{Json}
use hermes_dev_team_vm.Calls.{Call, ◌>>=◌, ensuring, finished, lift, gets, pure}
use hermes_dev_team_vm.Calls.Keeps.{bind_returned}
use hermes_dev_team_vm.Github.{
  GithubError, InstallationToken, Permissions, Event, Session, Services, perform, HttpReply,
  payload_of, TrustedWorkspace, WorkspaceState, FilePath,
}
use hermes_dev_team_vm.Github.Replies.{default_branch_of, sha_of, path_eq, is_relative_to}
use hermes_dev_team_vm.Github.Broker.{
  GithubBroker, Action, on_return, read_clock, mint_token, revoke_token, with_token,
  read_repository, read_ref, default_branch, remote_branch_sha, trusted_workspace,
  inspect_workspace, path_faults,
}

-- GitHub named the default branch of the repository.

pub record IsReportedDefault (resource branch : String) (log : List Event) : Type 0 where
  pub token : InstallationToken
  pub reply : HttpReply
  pub payload : Json
  pub read : Memᴰ (Event.repository_read resource token (ok reply)) log
  pub parsed : payload_of reply ≡ ok payload
  pub named : default_branch_of payload ≡ ok branch

-- GitHub named the head of the branch.
pub record IsReportedHead (resource branch : String) (sha : Text) (log : List Event) : Type 0 where
  pub token : InstallationToken
  pub reply : HttpReply
  pub payload : Json
  pub read : Memᴰ (Event.ref_read resource branch token (ok reply)) log
  pub parsed : payload_of reply ≡ ok payload
  pub named : sha_of payload ≡ ok sha

finished-eq-ok :
    {A : Type 0} (f : Check GithubError) (r : Result GithubError A) {value : A}
    → finished f r ≡ ok value
    → r ≡ ok value
finished-eq-ok (ok _) r h = h
finished-eq-ok (err e) r h = cc

logged :
    {A : Type 0} (event : A → Event) (r : Result GithubError A) (log : List Event) {value : A}
    → r ≡ ok value
    → Memᴰ (event value) (on_return event r ++ log)
logged event (ok v) log h = Memᴰ.head (ap event (ok_unique {E = GithubError} h refl))
logged event (err e) log h = cc

module _ {World : Type 0} (services : Services World) where
  -- A call under a token that returned: its body did, and its log is kept.
  pub with_token-returned :
      {A : Type 0} (resource : String) (permissions : Permissions)
      (body : InstallationToken → Action services A) (s : Session World) {value : A}
      → (with_token services resource permissions body s).0 ≡ ok value
      → (token : InstallationToken) × (t : Session World) × ((body token t).0 ≡ ok value)
        × ((e : Event)
            → Memᴰ e (body token t).1.log
            → Memᴰ e (with_token services resource permissions body s).1.log)
  unfolding with_token ensuring revoke_token perform
  with_token-returned resource permissions body s h =
      let (token, minted, returned, same) =
        bind_returned (mint_token services resource permissions) _ s h in
      let t = (mint_token services resource permissions s).1 in
      (
        token,
        t,
        finished-eq-ok _ _ returned,
        λ e m. subst (λ (u : Session World). Memᴰ e u.log) (sym same) (Memᴰ.tail m),
      )

  pub read_clock-logged :
      (s : Session World) {now : Datetime}
      → (read_clock services s).0 ≡ ok now
      → Memᴰ (Event.clock_read now) (read_clock services s).1.log
  unfolding read_clock perform
  read_clock-logged s h = logged Event.clock_read (services.clock s.world).0 s.log h

  pub inspect_workspace-logged :
      (workspace : TrustedWorkspace) (s : Session World) {state : WorkspaceState}
      → (inspect_workspace services workspace s).0 ≡ ok state
      → Memᴰ (Event.inspected workspace state) (inspect_workspace services workspace s).1.log
  unfolding inspect_workspace perform
  inspect_workspace-logged workspace s h =
      logged (Event.inspected workspace) (services.inspect workspace s.world).0 s.log h

  performed :
      (call : Call GithubError World HttpReply) (event : Result GithubError HttpReply → Event)
      (s : Session World) {reply : HttpReply}
      → (perform call (λ r. event r ∷ []) s).0 ≡ ok reply
      → Memᴰ (event (ok reply)) (perform call (λ r. event r ∷ []) s).1.log
  unfolding perform
  performed call event s h = Memᴰ.head (ap event (sym h))

  -- A request whose reply is read: it was answered, and the log says so.
  replied :
      (call : Call GithubError World HttpReply) (event : Result GithubError HttpReply → Event)
      (s : Session World) {payload : Json}
      → ((perform call (λ r. event r ∷ []) >>= λ reply. lift (payload_of reply)) s).0 ≡ ok payload
      → (reply : HttpReply) × (payload_of reply ≡ ok payload)
        × Memᴰ
            (event (ok reply))
            ((perform call (λ r. event r ∷ []) >>= λ reply. lift (payload_of reply)) s).1.log
  unfolding lift
  replied call event s h =
      let (reply, answered, parsed, same) =
        bind_returned (perform call (λ r. event r ∷ [])) _ s h in
      (
        reply,
        parsed,
        subst (λ (u : Session World). Memᴰ (event (ok reply)) u.log) (sym same)
            (performed call event s answered),
      )

  pub default_branch-IsReportedDefault :
      (resource : String) (s : Session World) {branch : String}
      → (default_branch services resource s).0 ≡ ok branch
      → IsReportedDefault resource branch (default_branch services resource s).1.log
  unfolding default_branch lift read_repository
  default_branch-IsReportedDefault resource s h =
      let (payload, obtained, named, same) = bind_returned _ _ s h in
      let (token, t, read, kept) = with_token-returned resource _ _ s obtained in
      let (reply, parsed, answered) =
        replied (services.get_repository resource token) (Event.repository_read resource token) t
          read in
      record {
        token = token;
        reply = reply;
        payload = payload;
        read =
            subst
              (λ (u : Session World). Memᴰ (Event.repository_read resource token (ok reply)) u.log)
              (sym same) (kept _ answered);
        parsed = parsed;
        named = named;
      }

  pub remote_branch_sha-IsReportedHead :
      (resource branch : String) (s : Session World) {sha : Text}
      → (remote_branch_sha services resource branch s).0 ≡ ok sha
      → IsReportedHead resource branch sha (remote_branch_sha services resource branch s).1.log
  unfolding remote_branch_sha lift read_ref
  remote_branch_sha-IsReportedHead resource branch s h =
      let (payload, obtained, named, same) = bind_returned _ _ s h in
      let (token, t, read, kept) = with_token-returned resource _ _ s obtained in
      let (reply, parsed, answered) =
        replied (services.get_ref resource branch token) (Event.ref_read resource branch token) t
          read in
      record {
        token = token;
        reply = reply;
        payload = payload;
        read =
            subst
              (λ (u : Session World). Memᴰ (Event.ref_read resource branch token (ok reply)) u.log)
              (sym same) (kept _ answered);
        parsed = parsed;
        named = named;
      }

  -- The body of `_trusted_workspace` returned: the directory is inside the root, and not the root.
  pub record IsInsideRoot (broker : GithubBroker) (workspace : TrustedWorkspace) : Type 0 where
    pub world : World
    pub inside : is_relative_to workspace.path broker.workspace_root ≡ true
    pub proper : path_eq workspace.path broker.workspace_root ≡ false
    pub directory : services.is_dir world workspace.path ≡ true

  passed_path :
      (broker : GithubBroker) (world : World) (path common : FilePath)
      {workspace : TrustedWorkspace}
      → AllPass (path_faults services broker world path)
      → ◌≡◌ {A = Result GithubError TrustedWorkspace}
          (ok (record { path = path; git_common_dir = common }))
          (ok workspace)
      → IsInsideRoot broker workspace
  passed_path broker world path common {workspace} pass e =
      let there : TrustedWorkspace = record { path = path; git_common_dir = common } in
      let same : there ≡ workspace = ok_unique {E = GithubError} refl e in
      subst (IsInsideRoot broker) same (record {
        world = world;
        inside = (not-false_iff _).0 pass.0;
        proper = ((or-false_iff (path_eq path broker.workspace_root) _).0 pass.1.0).0;
        directory =
            (not-false_iff _).0
              ((or-false_iff (path_eq path broker.workspace_root) _).0 pass.1.0).1;
      })

  pub trusted_workspace-IsInsideRoot :
      (broker : GithubBroker) (project_id task_id : String) (s : Session World)
      {workspace : TrustedWorkspace}
      → (trusted_workspace services broker project_id task_id s).0 ≡ ok workspace
      → IsInsideRoot broker workspace
  unfolding trusted_workspace lift gets pure
  trusted_workspace-IsInsideRoot broker project_id task_id s h =
      let (found, resolved, h₁, _) = bind_returned _ _ s h in
      let t = (perform (services.workspace_resolver project_id task_id) (λ _. []) s).1 in
      let (world, same, h₂, _) = bind_returned (gets (λ (u : Session World). u.world)) _ t h₁ in
      let path = services.resolve world found.path in
      let (passed, pass, h₃, _) =
        bind_returned (lift (checks (path_faults services broker world path))) _ t h₂ in
      passed_path broker world path (services.resolve world found.git_common_dir)
        ((checks_iff (path_faults services broker world path)).0 pass) h₃
