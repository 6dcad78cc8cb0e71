-- ===== src/Github/Replies.antt =====
-- The parts of `GitHubBroker` in src/forge_controller/github_broker.py that call nobody: the use that a
-- request asks for, the tests of a workspace, and the reading of the replies of GitHub.
pub mod Acknowledgement
use hermes_dev_team_vm.Prelude.{
  ◌>>=◌, ◌>>◌, String, Bool, true, false, not, ◌&&◌, Option, none, some, List, [], ◌∷◌, ◌++◌, ◌==◌,
  if◌then◌else◌, Text, codes, text_eq, option_eq, is_empty, Result, ok, err, lower, pos, ℤ, suc,
  or_raise, checks,
}
use hermes_dev_team_vm.Capability.Names.{is_repository, is_branch}
use hermes_dev_team_vm.Isolation.{starts_with}
use hermes_dev_team_vm.Json.{Json, Members, boolean, get, get_if_object, as_text, as_object, as_int}
use hermes_dev_team_vm.Capability.{CapabilityUse, CapabilityError}
use hermes_dev_team_vm.Capability.Envelope.{EnvelopeError}
use hermes_dev_team_vm.Github.{
  GithubError, FilePath, WorkspaceState, GithubPushRequest, GithubPullRequestRequest, is_sha, ℕ,
  GithubPullRequestResult,
}

abbrev pub of_capability : {A : Type 0} → Result CapabilityError A → Result GithubError A
of_capability (ok a) = ok a
of_capability (err e) = err (GithubError.capability_error e)

abbrev pub of_envelope : {A : Type 0} → Result EnvelopeError A → Result GithubError A
of_envelope (ok a) = ok a
of_envelope (err e) = err (GithubError.envelope_error e)

-- a == b, for paths
abbrev pub path_eq : FilePath → FilePath → Bool
path_eq [] [] = true
path_eq (a ∷ p) (b ∷ q) = a == b && path_eq p q
path_eq _ _ = false

-- path.relative_to(root) does not raise
abbrev pub is_relative_to : FilePath → FilePath → Bool
is_relative_to path [] = true
is_relative_to [] (b ∷ root) = false
is_relative_to (a ∷ path) (b ∷ root) = a == b && is_relative_to path root

-- The use that a request asks for, before the metadata of the repository is known.
unfoldable pub requested_use : GithubPushRequest → String → CapabilityUse
requested_use request operation = record {
  project_id = request.project_id;
  task_id = request.task_id;
  subject_id = request.subject_id;
  service = "github";
  resource = request.resource;
  operation = operation;
  branch = some request.branch;
  default_branch = none;
  force = false;
  base_branch = none;
}

-- The construction of a `CapabilityUse`, whose validators test the two names.
unfoldable pub preliminary_use : GithubPushRequest → String → Result GithubError CapabilityUse
preliminary_use request operation = do
  checks (
      (
        not (is_repository request.resource && is_branch request.branch),
        GithubError.validation_error,
      )
      ∷ [])
  ok (requested_use request operation)

-- _validate_workspace_state: `path` and `common` are those of the workspace, resolved
abbrev pub workspace_faults :
    FilePath → FilePath → WorkspaceState → Text → List (Bool × GithubError)
workspace_faults path common state expected_head =
    (not (path_eq state.top_level path), GithubError.wrong_top_level)
    ∷ (not (path_eq state.git_common_dir common), GithubError.wrong_common_dir)
    ∷ (not (text_eq state.head_sha expected_head), GithubError.head_changed)
    ∷ (not state.clean, GithubError.uncommitted_changes)
    ∷ (not (is_empty state.dangerous_config_keys), GithubError.dangerous_config)
    ∷ []

-- branch = payload.get("default_branch") if isinstance(payload, dict) else None
unfoldable pub default_branch_of : Json → Result GithubError String
default_branch_of payload = elim (as_text (get_if_object "default_branch" (some payload))) [
  | none ↦ err GithubError.default_branch_missing
  | some branch ↦ if branch == "" then err GithubError.default_branch_missing else ok branch
]

-- The object id in the reply to a read of a branch.
unfoldable pub sha_of : Json → Result GithubError Text
sha_of payload = elim (as_text (get_if_object "sha" (get_if_object "object" (some payload)))) [
  | none ↦ err GithubError.invalid_object_id
  | some sha ↦
      let lowered = lower (codes sha) in
      if is_sha lowered then ok lowered else err GithubError.invalid_object_id
]

-- The `gt=0` of the result's number.
abbrev pub positive_number : ℤ → Result GithubError ℕ
positive_number (pos (suc n)) = ok (suc n)
positive_number _ = err GithubError.validation_error

-- payload.get("draft", request.draft), if it is a Boolean
abbrev pub draft_of : Option Json → Bool → Option Bool
draft_of none default = some default
draft_of (some (boolean b)) default = some b
draft_of (some _) default = none

-- f"https://github.com/{resource}/pull/"
abbrev pub request_prefix : String → Text
request_prefix resource = codes "https://github.com/" ++ codes resource ++ codes "/pull/"

-- What the reply says must be what was asked for.
abbrev pub acknowledgement_faults :
    String
    → GithubPullRequestRequest
    → String
    → String
    → String
    → String
    → String
    → List (Bool × GithubError)
acknowledgement_faults resource request default_branch url head_ref head_sha base_ref =
    (not (starts_with (request_prefix resource) (codes url)), GithubError.mismatched_request)
    ∷ (not (head_ref == request.branch), GithubError.mismatched_request)
    ∷ (not (text_eq (codes head_sha) request.expected_head), GithubError.mismatched_request)
    ∷ (not (base_ref == default_branch), GithubError.mismatched_request)
    ∷ []

-- _parse_pull_request_result
unfoldable pub parse_pull_request_result :
    Json → String → GithubPullRequestRequest → String → Result GithubError GithubPullRequestResult
parse_pull_request_result payload resource request default_branch = do
  members ← or_raise (as_object (some payload)) GithubError.not_a_request_response
  number ← or_raise (as_int (get "number" members)) GithubError.mismatched_request
  url ← or_raise (as_text (get "html_url" members)) GithubError.mismatched_request
  head_ref ←
      or_raise (as_text (get_if_object "ref" (get "head" members))) GithubError.mismatched_request
  head_sha ←
      or_raise (as_text (get_if_object "sha" (get "head" members))) GithubError.mismatched_request
  base_ref ←
      or_raise (as_text (get_if_object "ref" (get "base" members))) GithubError.mismatched_request
  checks (acknowledgement_faults resource request default_branch url head_ref head_sha base_ref)
  draft ← or_raise (draft_of (get "draft" members) request.draft) GithubError.mismatched_request
  positive ← positive_number number
  ok (record {
    repository = resource;
    number = positive;
    url = url;
    head_branch = head_ref;
    head_sha = codes head_sha;
    base_branch = base_ref;
    draft = draft;
  })
