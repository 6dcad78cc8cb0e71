-- ===== src/Github/Broker.antt =====
-- `GitHubBroker` of src/forge_controller/github_broker.py: a task branch is pushed, and a pull request is
-- opened, under a grant that a worker carries.
use hermes_dev_team_vm.Prelude.{
  String, Bool, true, not, ◌||◌, some, List, [], ◌∷◌, Text, text_eq, Result, ok, err, checks,
  Datetime,
}
use hermes_dev_team_vm.Json.{Json}
use hermes_dev_team_vm.Capability.{CapabilityPolicy, CapabilityGrant, preauthorize, authorize}
use hermes_dev_team_vm.Capability.Envelope.{CapabilityGrantEnvelope, Signing, open_grant}
use hermes_dev_team_vm.Calls.{Call, pure, lift, gets, ◌>>=◌, ◌>>◌, ensuring}
use hermes_dev_team_vm.Github.{
  GithubError, InstallationToken, FilePath, TrustedWorkspace, WorkspaceState, Permissions,
  GithubPushRequest, GithubPullRequestRequest, GithubPushResult, GithubPullRequestResult,
  PullRequestBody, payload_of, Event, Session, Services, perform,
}
use hermes_dev_team_vm.Github.Replies.{
  of_capability, of_envelope, path_eq, is_relative_to, preliminary_use, workspace_faults,
  default_branch_of, sha_of, parse_pull_request_result,
}

pub record GithubBroker : Type 0 where
  pub policy : CapabilityPolicy
  pub capability_keyring : List (String × Text)
  pub revoked_grant_ids : List String
  -- resolved by the constructor
  pub workspace_root : FilePath

-- The `json` that `create_pull_request` posts.
unfoldable pub request_body : GithubPullRequestRequest → String → PullRequestBody
request_body request default_branch = record {
  title = request.title;
  body = request.body;
  head = request.branch;
  base = default_branch;
  draft = request.draft;
}

-- What the log keeps of a call that returned.
abbrev pub on_return : {A : Type 0} → (A → Event) → Result GithubError A → List Event
on_return event (ok value) = event value ∷ []
on_return event (err e) = []

module _ {World : Type 0} (services : Services World) where
  abbrev pub Action : Type 0 → Type 0
  Action A = Call GithubError (Session World) A

  unfoldable pub read_clock : Action Datetime
  read_clock = perform services.clock (on_return Event.clock_read)

  unfoldable pub mint_token : String → Permissions → Action InstallationToken
  mint_token resource permissions =
      perform (services.mint resource permissions) (on_return (Event.minted resource permissions))

  unfoldable pub revoke_token : InstallationToken → Action (Unit {0})
  revoke_token token = perform (services.revoke token) (λ r. Event.revoked token r ∷ [])

  -- token = mint(...); try: body finally: revoke(token)
  unfoldable pub with_token :
      {A : Type 0} → String → Permissions → (InstallationToken → Action A) → Action A
  with_token resource permissions body = do
    token ← mint_token resource permissions
    ensuring (body token) (revoke_token token)

  -- The request of a read of the repository, and its payload.
  unfoldable pub read_repository : String → InstallationToken → Action Json
  read_repository resource token = do
    reply ←
        perform (services.get_repository resource token)
          (λ r. Event.repository_read resource token r ∷ [])
    lift (payload_of reply)

  unfoldable pub read_ref : String → String → InstallationToken → Action Json
  read_ref resource branch token = do
    reply ←
        perform (services.get_ref resource branch token)
          (λ r. Event.ref_read resource branch token r ∷ [])
    lift (payload_of reply)

  -- _default_branch
  unfoldable pub default_branch : String → Action String
  default_branch resource = do
    payload ← with_token resource (("metadata", "read") ∷ []) (read_repository resource)
    lift (default_branch_of payload)

  -- _remote_branch_sha
  unfoldable pub remote_branch_sha : String → String → Action Text
  remote_branch_sha resource branch = do
    payload ← with_token resource (("contents", "read") ∷ []) (read_ref resource branch)
    lift (sha_of payload)

  -- The tests of `_trusted_workspace`, on the resolved path.
  abbrev pub path_faults : GithubBroker → World → FilePath → List (Bool × GithubError)
  path_faults broker world path =
      (not (is_relative_to path broker.workspace_root), GithubError.outside_workspace_root)
      ∷ (
        path_eq path broker.workspace_root || not (services.is_dir world path),
        GithubError.not_task_directory,
      )
      ∷ []

  -- _trusted_workspace
  unfoldable pub trusted_workspace : GithubBroker → String → String → Action TrustedWorkspace
  trusted_workspace broker project_id task_id = do
    workspace ← perform (services.workspace_resolver project_id task_id) (λ _. [])
    world ← gets (λ s. s.world)
    let path = services.resolve world workspace.path
    lift (checks (path_faults broker world path))
    pure (record { path = path; git_common_dir = services.resolve world workspace.git_common_dir })

  unfoldable pub inspect_workspace : TrustedWorkspace → Action WorkspaceState
  inspect_workspace workspace =
      perform (services.inspect workspace) (on_return (Event.inspected workspace))

  unfoldable pub push_branch :
      TrustedWorkspace → String → String → InstallationToken → Action (Unit {0})
  push_branch workspace resource branch token =
      perform (services.push workspace resource branch token)
        (λ _. Event.pushed workspace resource branch token ∷ [])

  unfoldable pub post_request : String → PullRequestBody → InstallationToken → Action Json
  post_request resource body token = do
    reply ←
        perform (services.post_pull resource body token)
          (λ r. Event.request_opened resource body token r ∷ [])
    lift (payload_of reply)

  module _ (signing : Signing) (broker : GithubBroker) where
    -- _open
    unfoldable pub opened : CapabilityGrantEnvelope signing.Mac → Result GithubError CapabilityGrant
    opened envelope =
        of_envelope (open_grant signing envelope broker.capability_keyring broker.revoked_grant_ids)

    unfoldable pub push_task_branch :
        CapabilityGrantEnvelope signing.Mac → GithubPushRequest → Action GithubPushResult
    push_task_branch envelope request = do
      grant ← lift (opened envelope)
      preliminary ← lift (preliminary_use request "branch.push")
      early ← read_clock
      lift (of_capability (preauthorize broker.policy grant preliminary early))
      branch ← default_branch request.resource
      now ← read_clock
      lift (
          of_capability (
            authorize broker.policy grant (record preliminary { default_branch = some branch })
              now))
      workspace ← trusted_workspace broker request.project_id request.task_id
      state ← inspect_workspace workspace
      world ← gets (λ s. s.world)
      lift (
          checks (
            workspace_faults (services.resolve world workspace.path)
              (services.resolve world workspace.git_common_dir) state request.expected_head))
      with_token request.resource (("contents", "write") ∷ [])
          (push_branch workspace request.resource request.branch)
      remote_sha ← remote_branch_sha request.resource request.branch
      lift (
          checks
            ((not (text_eq remote_sha request.expected_head), GithubError.wrong_remote_head) ∷ []))
      pure (record {
        repository = request.resource;
        branch = request.branch;
        head_sha = remote_sha;
        remote_verified = true;
      })

    unfoldable pub create_pull_request :
        CapabilityGrantEnvelope signing.Mac
        → GithubPullRequestRequest
        → Action GithubPullRequestResult
    create_pull_request envelope request = do
      grant ← lift (opened envelope)
      preliminary ← lift (preliminary_use request.push_request "pr.create")
      early ← read_clock
      lift (of_capability (preauthorize broker.policy grant preliminary early))
      branch ← default_branch request.resource
      now ← read_clock
      lift (
          of_capability (
            authorize broker.policy grant
              (record preliminary { default_branch = some branch; base_branch = some branch }) now))
      head ← remote_branch_sha request.resource request.branch
      lift
          (checks ((not (text_eq head request.expected_head), GithubError.wrong_request_head) ∷ []))
      payload ←
          with_token request.resource (("pull_requests", "write") ∷ [])
            (post_request request.resource (request_body request branch))
      lift (parse_pull_request_result payload request.resource request branch)
