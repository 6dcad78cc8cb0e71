-- ===== src/Github/Revocation.antt =====
-- The revocation of the installation tokens that the operations of src/forge_controller/github_broker.py
-- mint.
use hermes_dev_team_vm.Prelude.{◌≡◌, refl, String, List, ◌∷◌, ◌++◌, Result, err, ok}
use hermes_dev_team_vm.Calls.Keeps.{
  IsChained, Keeps, is_ok, Keeps-bind, Keeps-lift, Keeps-pure, Keeps-gets,
}
use hermes_dev_team_vm.Github.{
  GithubError, InstallationToken, Event, Session, Services, GithubPushRequest,
  GithubPullRequestRequest, TrustedWorkspace, PullRequestBody, payload_of,
}
use hermes_dev_team_vm.Github.Broker.{
  on_return, read_clock, read_repository, read_ref, default_branch, remote_branch_sha,
  trusted_workspace, inspect_workspace, push_branch, post_request, push_task_branch,
  create_pull_request, GithubBroker,
}
use hermes_dev_team_vm.Github.Replies.{default_branch_of, sha_of}
use hermes_dev_team_vm.Capability.Envelope.{Signing, CapabilityGrantEnvelope}
use hermes_dev_team_vm.Github.Settlement.{
  outstanding, unconfirmed, HasSettled, Settled, Settled-IsChained, perform-Settled,
  with_token-Settled,
}

module _ {World : Type 0} (services : Services World) where
  quiet_on_return :
      {A : Type 0} (event : A → Event)
      → ((value : A) (log : List Event)
          → (outstanding (event value ∷ log) ≡ outstanding log)
            × (unconfirmed (event value ∷ log) ≡ unconfirmed log))
      → (r : Result GithubError A) (log : List Event)
      → (outstanding (on_return event r ++ log) ≡ outstanding log)
        × (unconfirmed (on_return event r ++ log) ≡ unconfirmed log)
  quiet_on_return event quiet (ok value) log = quiet value log
  quiet_on_return event quiet (err e) log = (refl, refl)

  read_clock-Settled : Keeps Settled (read_clock services)
  unfolding read_clock
  read_clock-Settled =
      perform-Settled services.clock _ (quiet_on_return Event.clock_read λ _ _. (refl, refl))

  inspect_workspace-Settled :
      (workspace : TrustedWorkspace) → Keeps Settled (inspect_workspace services workspace)
  unfolding inspect_workspace
  inspect_workspace-Settled workspace =
      perform-Settled (services.inspect workspace) _
        (quiet_on_return (Event.inspected workspace) λ _ _. (refl, refl))

  push_branch-Settled :
      (workspace : TrustedWorkspace) (resource branch : String) (token : InstallationToken)
      → Keeps Settled (push_branch services workspace resource branch token)
  unfolding push_branch
  push_branch-Settled workspace resource branch token =
      perform-Settled (services.push workspace resource branch token) _ (λ _ _. (refl, refl))

  abbrev chained : IsChained (Settled {World = World})
  chained = Settled-IsChained

  read_repository-Settled :
      (resource : String) (token : InstallationToken)
      → Keeps Settled (read_repository services resource token)
  unfolding read_repository
  read_repository-Settled resource token =
      Keeps-bind chained _ _
        (perform-Settled (services.get_repository resource token) _ (λ _ _. (refl, refl)))
        (λ reply. Keeps-lift chained (payload_of reply))

  read_ref-Settled :
      (resource branch : String) (token : InstallationToken)
      → Keeps Settled (read_ref services resource branch token)
  unfolding read_ref
  read_ref-Settled resource branch token =
      Keeps-bind chained _ _
        (perform-Settled (services.get_ref resource branch token) _ (λ _ _. (refl, refl)))
        (λ reply. Keeps-lift chained (payload_of reply))

  post_request-Settled :
      (resource : String) (body : PullRequestBody) (token : InstallationToken)
      → Keeps Settled (post_request services resource body token)
  unfolding post_request
  post_request-Settled resource body token =
      Keeps-bind chained _ _
        (perform-Settled (services.post_pull resource body token) _ (λ _ _. (refl, refl)))
        (λ reply. Keeps-lift chained (payload_of reply))

  default_branch-Settled : (resource : String) → Keeps Settled (default_branch services resource)
  unfolding default_branch
  default_branch-Settled resource =
      Keeps-bind chained _ _
        (with_token-Settled services resource _ _ (read_repository-Settled resource))
        (λ payload. Keeps-lift chained (default_branch_of payload))

  remote_branch_sha-Settled :
      (resource branch : String) → Keeps Settled (remote_branch_sha services resource branch)
  unfolding remote_branch_sha
  remote_branch_sha-Settled resource branch =
      Keeps-bind chained _ _
        (with_token-Settled services resource _ _ (read_ref-Settled resource branch))
        (λ payload. Keeps-lift chained (sha_of payload))

  trusted_workspace-Settled :
      (broker : GithubBroker) (project_id task_id : String)
      → Keeps Settled (trusted_workspace services broker project_id task_id)
  unfolding trusted_workspace
  trusted_workspace-Settled broker project_id task_id =
      Keeps-bind chained _ _
        (perform-Settled (services.workspace_resolver project_id task_id) _ (λ _ _. (refl, refl)))
        (λ workspace.
          search (Keeps-bind chained, Keeps-lift chained, Keeps-pure chained, Keeps-gets chained))

  module _ (signing : Signing) (broker : GithubBroker)
      (envelope : CapabilityGrantEnvelope signing.Mac) where
    push_task_branch-Settled :
        (request : GithubPushRequest)
        → Keeps Settled (push_task_branch services signing broker envelope request)
    unfolding push_task_branch
    push_task_branch-Settled request =
        search
          (
            Keeps-bind chained,
            Keeps-lift chained,
            Keeps-pure chained,
            Keeps-gets chained,
            read_clock-Settled,
            default_branch-Settled,
            trusted_workspace-Settled,
            inspect_workspace-Settled,
            with_token-Settled,
            push_branch-Settled,
            remote_branch_sha-Settled,
          )
          depth 30

    create_pull_request-Settled :
        (request : GithubPullRequestRequest)
        → Keeps Settled (create_pull_request services signing broker envelope request)
    unfolding create_pull_request
    create_pull_request-Settled request =
        search
          (
            Keeps-bind chained,
            Keeps-lift chained,
            read_clock-Settled,
            default_branch-Settled,
            with_token-Settled,
            post_request-Settled,
            remote_branch_sha-Settled,
          )
          depth 30

    -- For every installation token that `push_task_branch` or `create_pull_request` mints, its
    -- revocation is sent before the call ends, whether it returns or raises; a call that returns
    -- has seen each of them confirmed.
    pub operations-HasSettled :
        (push : GithubPushRequest) (pull : GithubPullRequestRequest) (s : Session World)
        → let (pushed, after_push) = push_task_branch services signing broker envelope push s in
          let (opened, after_pull) = create_pull_request services signing broker envelope pull s in
          HasSettled (is_ok pushed) s.log after_push.log
          × HasSettled (is_ok opened) s.log after_pull.log
    operations-HasSettled push pull s =
        ((push_task_branch-Settled push).holds s, (create_pull_request-Settled pull).holds s)
