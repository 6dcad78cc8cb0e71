-- ===== src/Github/Pushing.antt =====
-- What a push by `push_task_branch` of src/forge_controller/github_broker.py takes.
use hermes_dev_team_vm.Prelude.{
  ◌≡◌, refl, subst, ◌⊎◌, inl, inr, String, Bool, true, false, List, [], ◌∷◌, some, Result, ok,
  checks, checks_iff, Memᴰ, Text, text_eq, text_eq_sound, not-false_iff, ap, not,
}
use hermes_dev_team_vm.Calls.{◌>>=◌, ensuring, lift, gets, pure, ◌>>◌}
use hermes_dev_team_vm.Calls.Keeps.{
  is_ok, Keeps, Keeps-pure, Keeps-lift, Keeps-gets, Keeps-bind, bind_cases, bind_returned,
}
use hermes_dev_team_vm.Capability.{CapabilityUse}
use hermes_dev_team_vm.Capability.Envelope.{CapabilityGrantEnvelope, Signing}
use hermes_dev_team_vm.Github.{
  GithubError, InstallationToken, GithubPushRequest, GithubPushResult, Event, Session, Services,
  TrustedWorkspace, WorkspaceState, perform, not,
}
use hermes_dev_team_vm.Github.Replies.{workspace_faults}
use hermes_dev_team_vm.Github.Broker.{
  GithubBroker, Action, mint_token, revoke_token, with_token, remote_branch_sha, trusted_workspace,
  inspect_workspace, push_branch, push_task_branch,
}
use hermes_dev_team_vm.Github.Writes.{
  HasWritten, IsQuiet, IsQuiet-HasWritten, HasWritten-IsQuiet, Quiet, quiet,
  trusted_workspace-Quiet, inspect_workspace-Quiet, remote_branch_sha-Quiet, mint_token-Quiet,
  quiet_step, IsQuiet-trans,
}
use hermes_dev_team_vm.Github.Reads.{
  IsReportedHead, IsInsideRoot, inspect_workspace-logged, remote_branch_sha-IsReportedHead,
  trusted_workspace-IsInsideRoot,
}
use hermes_dev_team_vm.Github.Permits.{
  IsClean, workspace_faults-IsClean, HasPermission, HasPermission-kept, authorizing_step,
}

-- preliminary.model_copy(update={"default_branch": default_branch})
abbrev pub with_default : String → CapabilityUse → CapabilityUse
with_default default preliminary = record preliminary { default_branch = some default }

module _ {World : Type 0} (services : Services World) (signing : Signing) (broker : GithubBroker)
    (envelope : CapabilityGrantEnvelope signing.Mac) (request : GithubPushRequest) where
  -- What a push rests on, by the log: an authentic grant that permits the use with the default
  -- branch that GitHub names, at the time of the clock, and a clean workspace below the root at the
  -- commit that the request names.
  pub record IsAuthorizedPush (workspace : TrustedWorkspace) (log : List Event) : Type 0 where
    pub default : String
    pub permission :
        HasPermission signing broker envelope request "branch.push" with_default default log
    pub inside : IsInsideRoot services broker workspace
    pub state : WorkspaceState
    pub inspected : Memᴰ (Event.inspected workspace state) log
    pub world : World
    pub fit :
        IsClean
          (services.resolve world workspace.path)
          (services.resolve world workspace.git_common_dir)
          state
          request.expected_head

  abbrev pub IsPushOf : TrustedWorkspace → Event → Type 0
  IsPushOf workspace event =
      (token : InstallationToken) × (event
        ≡ Event.pushed workspace request.resource request.branch token)

  abbrev pub pushed_result : GithubPushResult
  pushed_result = record {
    repository = request.resource;
    branch = request.branch;
    head_sha = request.expected_head;
    remote_verified = true;
  }

  -- How a call that began with the log ended: it raised and sent nothing, or it sent one push that
  -- was authorized; it returned only if GitHub then reported the commit as the head of the branch.
  pub data PushOutcome (log : List Event) (r : Result GithubError GithubPushResult)
      (later : List Event) : Type 0 where
    refused : is_ok r ≡ false → IsQuiet log later → PushOutcome log r later
    sent :
        (workspace : TrustedWorkspace)
        → HasWritten (IsPushOf workspace) log later
        → IsAuthorizedPush workspace later
        → ((value : GithubPushResult)
            → r ≡ ok value
            → (value ≡ pushed_result)
              × IsReportedHead request.resource request.branch request.expected_head later)
        → PushOutcome log r later

  abbrev Ends : Session World → Result GithubError GithubPushResult × Session World → Type 0
  Ends start (r, t) = PushOutcome start.log r t.log

  -- A step that writes nothing: where it raises, the call is refused.
  step :
      {A : Type 0} (start : Session World) (m : Action services A)
      (f : A → Action services GithubPushResult) (s : Session World)
      → IsQuiet start.log s.log
      → Keeps Quiet m
      → ((value : A)
          → (m s).0 ≡ ok value
          → IsQuiet s.log (m s).1.log
          → IsQuiet start.log (m s).1.log
          → Ends start (f value (m s).1))
      → Ends start ((m >>= f) s)
  step start = quiet_step (Ends start) start.log (λ e s q. refused refl q)

  -- The push itself: no token, and nothing was sent, or one push was.
  pushing :
      (workspace : TrustedWorkspace) (s : Session World)
      → let (r, t) =
          with_token services request.resource
            (("contents", "write") ∷ [])
            (push_branch services workspace request.resource request.branch)
            s in
        ((is_ok r ≡ false) × IsQuiet s.log t.log) ⊎ HasWritten (IsPushOf workspace) s.log t.log
  unfolding with_token ensuring push_branch revoke_token perform
  pushing workspace s =
      let minted = mint_token services request.resource (("contents", "write") ∷ []) in
      let here =
        (mint_token-Quiet services request.resource (("contents", "write") ∷ [])).holds s in
      bind_cases
        (λ (o : Result GithubError (Unit {0}) × Session World).
          ((is_ok o.0 ≡ false) × IsQuiet s.log o.1.log)
          ⊎ HasWritten (IsPushOf workspace) s.log o.1.log)
        minted _ s (λ e h. inl (refl, here))
        (λ token h. inr (
          HasWritten-IsQuiet here (record {
            event = Event.pushed workspace request.resource request.branch token;
            kind = (token, refl);
            kept = λ e m. Memᴰ.tail (Memᴰ.tail m);
            written = refl;
          })))

  -- What follows the push writes nothing, and returns only the verified head.
  abbrev verifying : Unit {0} → Action services GithubPushResult
  verifying _ = do
    remote_sha ← remote_branch_sha services request.resource request.branch
    lift (
        checks
          ((not (text_eq remote_sha request.expected_head), GithubError.wrong_remote_head) ∷ []))
    pure (record {
      repository = request.resource;
      branch = request.branch;
      head_sha = remote_sha;
      remote_verified = true;
    })

  verifying-Quiet : Keeps Quiet (verifying tt)
  verifying-Quiet =
      search
        (Keeps-bind quiet, Keeps-lift quiet, Keeps-pure quiet, remote_branch_sha-Quiet services)
        depth 20

  verifying-returned :
      (s : Session World) (value : GithubPushResult)
      → (verifying tt s).0 ≡ ok value
      → (value ≡ pushed_result)
        × IsReportedHead request.resource request.branch request.expected_head
            (verifying tt s).1.log
  unfolding lift pure
  verifying-returned s value h =
      let (sha, read, h₁, same) =
        bind_returned (remote_branch_sha services request.resource request.branch) _ s h in
      let (_, pass, h₂, same₁) =
        bind_returned
          (lift (
            checks ((not (text_eq sha request.expected_head), GithubError.wrong_remote_head) ∷ [])))
          _ _ h₁ in
      let head = text_eq_sound _ _ (
        (not-false_iff _).0
          ((checks_iff
              ((not (text_eq sha request.expected_head), GithubError.wrong_remote_head) ∷ [])).0
            pass).0) in
      (
        cc (h₂, head),
        rw (same, same₁)
            (subst
              (λ (x : Text).
                IsReportedHead request.resource request.branch x
                  (remote_branch_sha services request.resource request.branch s).1.log)
              head
              (remote_branch_sha-IsReportedHead services request.resource request.branch s read)),
      )

  IsAuthorizedPush-kept :
      {workspace : TrustedWorkspace} {log later : List Event}
      → ((e : Event) → Memᴰ e log → Memᴰ e later)
      → IsAuthorizedPush workspace log
      → IsAuthorizedPush workspace later
  IsAuthorizedPush-kept kept a = record {
    default = a.default;
    permission = HasPermission-kept signing broker envelope request _ _ kept a.permission;
    inside = a.inside;
    state = a.state;
    inspected = kept _ a.inspected;
    world = a.world;
    fit = a.fit;
  }

  -- A push whose tests have passed, and what follows it.
  finish :
      (start : Session World) (workspace : TrustedWorkspace) (s : Session World)
      → IsQuiet start.log s.log
      → IsAuthorizedPush workspace s.log
      → Ends start (
          (with_token services request.resource
                (("contents", "write") ∷ [])
                (push_branch services workspace request.resource request.branch)
              >>= verifying)
            s)
  finish start workspace s so_far allowed =
      bind_cases (Ends start) pushing_call verifying s
        (λ e h. elim (pushing workspace s) [
          | inl (failed, nothing) ↦ refused refl (IsQuiet-trans so_far nothing)
          | inr once ↦
              sent workspace (HasWritten-IsQuiet so_far once)
                (IsAuthorizedPush-kept once.kept allowed) (λ value h. cc)
        ])
        (λ done h. elim (pushing workspace s) [
          | inl (failed, nothing) ↦ cc (failed, ap is_ok h)
          | inr once ↦
              let after = verifying-Quiet.holds (pushing_call s).1 in
              sent workspace (IsQuiet-HasWritten (HasWritten-IsQuiet so_far once) after)
                (IsAuthorizedPush-kept (λ e m. after.kept e (once.kept e m)) allowed)
                (verifying-returned (pushing_call s).1)
        ])
    where
      pushing_call : Action services (Unit {0})
      pushing_call =
          with_token services request.resource (("contents", "write") ∷ [])
            (push_branch services workspace request.resource request.branch)

  -- The tests of `_validate_workspace_state`.
  abbrev workspace_row : World → TrustedWorkspace → WorkspaceState → List (Bool × GithubError)
  workspace_row world workspace state =
      workspace_faults (services.resolve world workspace.path)
        (services.resolve world workspace.git_common_dir) state request.expected_head

  -- What follows the authorization.
  abbrev delivering : String → Action services GithubPushResult
  delivering _ = do
    workspace ← trusted_workspace services broker request.project_id request.task_id
    state ← inspect_workspace services workspace
    world ← gets (λ (s : Session World). s.world)
    lift (checks (workspace_row world workspace state))
    done ←
        with_token services request.resource (("contents", "write") ∷ [])
          (push_branch services workspace request.resource request.branch)
    verifying done

  delivering-PushOutcome :
      (start : Session World) (default : String) (s : Session World)
      → IsQuiet start.log s.log
      → HasPermission signing broker envelope request "branch.push" with_default default s.log
      → Ends start (delivering default s)
  unfolding lift gets
  delivering-PushOutcome start default s so_far permission =
      step start (trusted_workspace services broker request.project_id request.task_id) _ s so_far
        (trusted_workspace-Quiet services broker request.project_id request.task_id)
        λ workspace placed w q₁.
          step start (inspect_workspace services workspace) _ _ q₁
            (inspect_workspace-Quiet services workspace)
            λ state seen i q₂.
              step start (gets (λ (u : Session World). u.world)) _ _ q₂ (Keeps-gets quiet _)
                λ world _ _ q₃.
                  step start (lift (checks (workspace_row world workspace state))) _ _ q₃
                    (Keeps-lift quiet _)
                    λ _ pass _ q₄. finish start workspace _ q₄ (record {
                      default = default;
                      permission =
                          HasPermission-kept signing broker envelope request _ _
                            (λ e m. i.kept e (w.kept e m)) permission;
                      inside =
                          trusted_workspace-IsInsideRoot services broker request.project_id
                            request.task_id _ placed;
                      state = state;
                      inspected = inspect_workspace-logged services workspace _ seen;
                      world = world;
                      fit =
                          workspace_faults-IsClean _ _ _ _
                            ((checks_iff (workspace_row world workspace state)).0 pass);
                    })

  -- However `push_task_branch` ends, it raised and wrote nothing, or it sent exactly one push, of
  -- the branch of the request, under an authentic grant that permits the use with the default
  -- branch that GitHub reported, at a time of the clock, from a workspace below the root that Git
  -- reported as clean and at the expected commit; and it returns only if GitHub reported that
  -- commit as the head of the branch. What was read stands in the log of the session.
  pub push_task_branch-PushOutcome :
      (start : Session World)
      → let (r, later) = push_task_branch services signing broker envelope request start in
        PushOutcome start.log r later.log
  unfolding push_task_branch
  push_task_branch-PushOutcome start =
      authorizing_step signing broker envelope request "branch.push" with_default services
        (Ends start) start (λ e s q. refused refl q) delivering (delivering-PushOutcome start)
