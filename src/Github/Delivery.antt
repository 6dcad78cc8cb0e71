-- ===== src/Github/Delivery.antt =====
-- The other direction of `Pushing`, of `push_task_branch` in src/forge_controller/github_broker.py: a world
-- in which the call returns, and what it has sent then.
use hermes_dev_team_vm.Prelude.{
  ◌≡◌, refl, ap, String, true, not, List, [], ◌∷◌, Result, ok, checks, AllPass, checks_iff,
  text_eq_refl, Datetime, text_eq, ◌≢◌, some, ◌++◌, lower, codes,
}
use hermes_dev_team_vm.Json.{Json, get_if_object, as_text}
use hermes_dev_team_vm.Capability.{preauthorize, authorize}
use hermes_dev_team_vm.Capability.Names.{is_repository, is_branch}
use hermes_dev_team_vm.Capability.Permission.{IsPermitted, authorize_iff, narrowed}
use hermes_dev_team_vm.Capability.Envelope.{CapabilityGrantEnvelope, Signing}
use hermes_dev_team_vm.Capability.Envelope.Authenticity.{IsAuthentic, open_grant_iff}
use hermes_dev_team_vm.Calls.{Call, lift}
use hermes_dev_team_vm.Calls.Returns.{
  Returns, Returns-pure, Returns-lift, Returns-ensuring, Returns-bind, Returns-gets,
}
use hermes_dev_team_vm.Github.{
  GithubError, InstallationToken, TrustedWorkspace, WorkspaceState, GithubPushRequest, HttpReply,
  payload_of, Services, Session, Event, perform, Permissions, FilePath, is_sha, GithubPushResult,
}
use hermes_dev_team_vm.Github.Replies.{
  of_capability, of_envelope, preliminary_use, requested_use, workspace_faults,
}
use hermes_dev_team_vm.Github.Broker.{
  GithubBroker, Action, read_clock, mint_token, revoke_token, with_token, read_repository, read_ref,
  default_branch, remote_branch_sha, trusted_workspace, inspect_workspace, push_branch, opened,
  push_task_branch, path_faults,
}
use hermes_dev_team_vm.Github.Pushing.{
  with_default, pushed_result, PushOutcome, IsPushOf, push_task_branch-PushOutcome, refused, sent,
}
use hermes_dev_team_vm.Github.Permits.{IsClean}
use hermes_dev_team_vm.Github.Places.{
  default_branch_of-named, sha_of-reported, is_relative_to-append, path_eq-append,
  IsClean-workspace_faults, preauthorize-permitted,
}
use hermes_dev_team_vm.Github.Writes.{HasWritten}
use hermes_dev_team_vm.Calls.Keeps.{is_ok}

module _ {World : Type 0} (services : Services World) (signing : Signing) (broker : GithubBroker)
    (envelope : CapabilityGrantEnvelope signing.Mac) (request : GithubPushRequest) where
  -- The world as a push needs it: each call returns, GitHub names a default branch and then the
  -- pushed commit, the workspace is where it should be, and the grant permits the use.
  pub record IsCooperative : Type 0 where
    pub now : Datetime
    pub clock : Returns services.clock now
    pub token : InstallationToken
    pub metadata_token : Returns (services.mint request.resource (("metadata", "read") ∷ [])) token
    pub read_token : Returns (services.mint request.resource (("contents", "read") ∷ [])) token
    pub write_token : Returns (services.mint request.resource (("contents", "write") ∷ [])) token
    pub revoked : Returns (services.revoke token) tt
    pub metadata : HttpReply
    pub described : Returns (services.get_repository request.resource token) metadata
    pub repository : Json
    pub parsed : payload_of metadata ≡ ok repository
    pub default : String
    pub named : as_text (get_if_object "default_branch" (some repository)) ≡ some default
    pub some_default : default ≢ ""
    pub reference : HttpReply
    pub referred : Returns (services.get_ref request.resource request.branch token) reference
    pub branch : Json
    pub read : payload_of reference ≡ ok branch
    pub sha : String
    pub reported : as_text (get_if_object "sha" (get_if_object "object" (some branch))) ≡ some sha
    pub updated : lower (codes sha) ≡ request.expected_head
    pub valid_head : is_sha request.expected_head ≡ true
    pub workspace : TrustedWorkspace
    pub placed : Returns (services.workspace_resolver request.project_id request.task_id) workspace
    pub resolved_path : (world : World) → services.resolve world workspace.path ≡ workspace.path
    pub resolved_common :
        (world : World) → services.resolve world workspace.git_common_dir ≡ workspace.git_common_dir
    pub rest : FilePath
    pub below : workspace.path ≡ broker.workspace_root ++ rest
    pub apart : rest ≢ []
    pub directory : (world : World) → services.is_dir world workspace.path ≡ true
    pub state : WorkspaceState
    pub inspected : Returns (services.inspect workspace) state
    pub fit : IsClean workspace.path workspace.git_common_dir state request.expected_head
    pub pushed : Returns (services.push workspace request.resource request.branch token) tt
    pub valid_resource : is_repository request.resource ≡ true
    pub valid_branch : is_branch request.branch ≡ true
    pub authentic : IsAuthentic signing envelope broker.capability_keyring broker.revoked_grant_ids
    pub permitted :
        IsPermitted broker.policy envelope.grant
          (with_default default (requested_use request "branch.push"))
          now

  Returns-perform :
      {A : Type 0} {call : Call GithubError World A} {value : A}
      (note : Result GithubError A → List Event)
      → Returns call value
      → Returns (perform call note) value
  unfolding perform
  Returns-perform note h = record { returned = λ s. h.returned s.world }

  module _ (c : IsCooperative) where
    with_token-Returns :
        {A : Type 0} (permissions : Permissions) (body : InstallationToken → Action services A)
        {value : A}
        → Returns (services.mint request.resource permissions) c.token
        → Returns (body c.token) value
        → Returns (with_token services request.resource permissions body) value
    unfolding with_token mint_token revoke_token
    with_token-Returns permissions body minted h =
        Returns-bind _ c.token (Returns-perform _ minted)
          (Returns-ensuring h (Returns-perform _ c.revoked))

    default_branch-Returns : Returns (default_branch services request.resource) c.default
    unfolding default_branch read_repository
    default_branch-Returns =
        Returns-bind _ c.repository
          (with_token-Returns _ _ c.metadata_token
            (Returns-bind _ c.metadata (Returns-perform _ c.described) (Returns-lift c.parsed)))
          (Returns-lift (default_branch_of-named c.repository c.default c.named c.some_default))

    remote_branch_sha-Returns :
        Returns (remote_branch_sha services request.resource request.branch) request.expected_head
    unfolding remote_branch_sha read_ref
    remote_branch_sha-Returns =
        Returns-bind _ c.branch
          (with_token-Returns _ _ c.read_token
            (Returns-bind _ c.reference (Returns-perform _ c.referred) (Returns-lift c.read)))
          (Returns-lift (
            sha_of-reported c.branch c.sha request.expected_head c.reported c.updated c.valid_head))

    inside : (world : World) → AllPass (path_faults services broker world c.workspace.path)
    inside world = (
      rw (c.below, is_relative_to-append broker.workspace_root c.rest) refl,
      (
        rw (c.directory world)
            (rw (c.below, path_eq-append broker.workspace_root c.rest c.apart) refl),
        tt,
      ),
    )

    trusted_workspace-Returns :
        Returns (trusted_workspace services broker request.project_id request.task_id) c.workspace
    unfolding trusted_workspace
    trusted_workspace-Returns = Returns-bind _ c.workspace (Returns-perform _ c.placed) (
        Returns-gets _ _ λ world.
          rw (c.resolved_path world, c.resolved_common world)
            (Returns-bind _ tt
              (Returns-lift (
                (checks_iff (path_faults services broker world c.workspace.path)).1 (inside world)))
              (Returns-pure _)))

    opened-Returns :
        Returns {S = Session World} (lift (opened services signing broker envelope)) envelope.grant
    unfolding opened
    opened-Returns = Returns-lift (
        ap of_envelope (
          (open_grant_iff signing envelope broker.capability_keyring broker.revoked_grant_ids
              envelope.grant).1
            (c.authentic, refl)))

    use-Returns :
        Returns {S = Session World}
          (lift (preliminary_use request "branch.push"))
          (requested_use request "branch.push")
    unfolding preliminary_use
    use-Returns = Returns-lift (rw (c.valid_resource, c.valid_branch) refl)

    authorize-Returns :
        Returns {S = Session World}
          (lift (
            of_capability (
              authorize broker.policy envelope.grant
                (with_default c.default (requested_use request "branch.push"))
                c.now)))
          (narrowed envelope.grant (with_default c.default (requested_use request "branch.push")))
    authorize-Returns =
        Returns-lift (ap of_capability ((authorize_iff _ _ _ _ _).1 (c.permitted, refl)))

    fit-Returns :
        (world : World)
        → Returns {S = Session World}
            (lift (
              checks (
                workspace_faults
                  (services.resolve world c.workspace.path)
                  (services.resolve world c.workspace.git_common_dir)
                  c.state
                  request.expected_head)))
            tt
    fit-Returns world =
        rw (c.resolved_path world, c.resolved_common world)
          (Returns-lift (
            (checks_iff (workspace_faults _ _ c.state request.expected_head)).1
              (IsClean-workspace_faults _ _ c.state request.expected_head c.fit)))

    verified-Returns :
        Returns {S = Session World}
          (lift (
            checks (
              (
                not (text_eq request.expected_head request.expected_head),
                GithubError.wrong_remote_head,
              )
              ∷ [])))
          tt
    verified-Returns = Returns-lift (rw (text_eq_refl request.expected_head) refl)

    allowed :
        preauthorize broker.policy envelope.grant (requested_use request "branch.push") c.now
        ≡ ok c.permitted.template
    allowed =
        preauthorize-permitted broker.policy envelope.grant request "branch.push" c.default c.now
          c.permitted

    push_task_branch-Returns :
        Returns
          (push_task_branch services signing broker envelope request)
          (pushed_result services signing broker envelope request)
    unfolding push_task_branch read_clock inspect_workspace push_branch
    push_task_branch-Returns = Returns-bind _ envelope.grant opened-Returns (
        Returns-bind _ (requested_use request "branch.push") use-Returns (
          Returns-bind _ c.now (Returns-perform _ c.clock) (
            Returns-bind _ c.permitted.template (Returns-lift (ap of_capability allowed)) (
              Returns-bind _ c.default default_branch-Returns (
                Returns-bind _ c.now (Returns-perform _ c.clock) (
                  Returns-bind _ _ authorize-Returns (
                    Returns-bind _ c.workspace trusted_workspace-Returns (
                      Returns-bind _ c.state (Returns-perform _ c.inspected) (
                        Returns-gets _ _ λ world. Returns-bind _ tt (fit-Returns world) (
                          Returns-bind _ tt
                            (with_token-Returns _ _ c.write_token (Returns-perform _ c.pushed))
                            (Returns-bind _ request.expected_head remote_branch_sha-Returns
                              (Returns-bind _ tt verified-Returns (Returns-pure _)))))))))))))

    sent_of :
        (log later : List Event) (r : Result GithubError GithubPushResult)
        → PushOutcome services signing broker envelope request log r later
        → is_ok r ≡ true
        → (workspace : TrustedWorkspace) × HasWritten
            (IsPushOf services signing broker envelope request workspace)
            log
            later
    sent_of log later r (refused raised q) h = cc (raised, h)
    sent_of log later r (sent workspace written _ _) h = (workspace, written)

    -- `push_task_branch` returns the verified result and has sent exactly one push of the branch
    -- of the request, from every state of the session, if the grant is authentic and permits the
    -- use, the resource, the branch and the commit are well formed, the clock, the token
    -- provider, Git and GitHub return, GitHub reports a default branch, and the expected commit
    -- as the head, and the resolved workspace is a directory strictly below the root and a clean
    -- checkout of that commit.
    pub push_task_branch_delivers :
        (start : Session World)
        → let (r, later) = push_task_branch services signing broker envelope request start in
          (r ≡ ok (pushed_result services signing broker envelope request))
          × ((workspace : TrustedWorkspace) × HasWritten
                (IsPushOf services signing broker envelope request workspace)
                start.log
                later.log)
    push_task_branch_delivers start =
        let returned = push_task_branch-Returns.returned start in
        (
          returned,
          sent_of start.log _ _
              (push_task_branch-PushOutcome services signing broker envelope request start)
              (rw returned refl),
        )
