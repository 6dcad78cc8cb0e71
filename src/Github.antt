-- ===== src/Github.antt =====
-- src/forge_controller/github_broker.py: data, errors, and the outside world of the broker, with a log
-- of what was sent to it.
pub mod Provider
pub mod Replies
pub mod Broker
pub mod Settlement
pub mod Revocation
pub mod Writes
pub mod Reads
pub mod Permits
pub mod Pushing
pub mod Places
pub mod Delivery
pub mod Requesting
pub mod Samples
mod DeliverySamples
use hermes_dev_team_vm.Prelude.{
  ℕ, String, Bool, true, false, not, ◌&&◌, ◌||◌, Option, none, some, List, [], ◌∷◌, ◌++◌, leb, ltb,
  eqb, ◌==◌, if◌then◌else◌, Text, Result, ok, err, Check, Datetime, lower, in_range, length, all,
}
use hermes_dev_team_vm.Json.{Json}
use hermes_dev_team_vm.Capability.{CapabilityError}
use hermes_dev_team_vm.Capability.Envelope.{EnvelopeError}
use hermes_dev_team_vm.Calls.{Call}

-- `GitHubBrokerError` by message, and what the calls of the broker let through.
pub data GithubError : Type 0 where
  outside_workspace_root not_task_directory wrong_top_level wrong_common_dir : GithubError
  head_changed uncommitted_changes dangerous_config wrong_remote_head : GithubError
  wrong_request_head default_branch_missing invalid_object_id : GithubError
  not_a_request_response mismatched_request not_owner_repository outside_installation : GithubError
  invalid_permissions key_missing key_not_regular key_not_root_owned key_accessible : GithubError
  invalid_token_response token_expired invalid_expiry naive_time : GithubError
  revocation_failed : ℕ → GithubError
  invalid_head inspection_failed push_failed helper_missing helper_not_trusted : GithubError
  -- an `httpx` exception, `raise_for_status` included, or a body that is no JSON
  http_error : GithubError
  validation_error : GithubError
  capability_error : CapabilityError → GithubError
  envelope_error : EnvelopeError → GithubError

pub record InstallationToken : Type 0 where
  pub value : String
  pub expires_at : Datetime

-- An absolute path by its parts.
abbrev pub FilePath : Type 0
FilePath = List String

pub record TrustedWorkspace : Type 0 where
  pub path : FilePath
  pub git_common_dir : FilePath

pub record WorkspaceState : Type 0 where
  pub head_sha : Text
  pub clean : Bool
  pub top_level : FilePath
  pub git_common_dir : FilePath
  pub dangerous_config_keys : List Text

abbrev pub Permissions : Type 0
Permissions = List (String × String)

pub record GithubPushRequest : Type 0 where
  pub project_id : String
  pub task_id : String
  pub subject_id : String
  pub resource : String
  pub branch : String
  pub expected_head : Text

pub record GithubPullRequestRequest : Type 0 where
  pub push_request : GithubPushRequest
  pub open push_request use *
  pub title : String
  pub body : String
  pub draft : Bool

pub record GithubPushResult : Type 0 where
  pub repository : String
  pub branch : String
  pub head_sha : Text
  pub remote_verified : Bool

pub record GithubPullRequestResult : Type 0 where
  pub repository : String
  pub number : ℕ
  pub url : String
  pub head_branch : String
  pub head_sha : Text
  pub base_branch : String
  pub draft : Bool

-- The JSON that opens a pull request.
pub record PullRequestBody : Type 0 where
  pub title : String
  pub body : String
  pub head : String
  pub base : String
  pub draft : Bool

pub record HttpReply : Type 0 where
  pub status_code : ℕ
  -- none: the body is no JSON
  pub body : Option Json

-- response.raise_for_status(); response.json()
unfoldable pub payload_of : HttpReply → Result GithubError Json
payload_of reply =
    if leb 200 reply.status_code && leb reply.status_code 299
    then elim reply.body [ none ↦ err http_error | some payload ↦ ok payload ]
    else err http_error

-- What the broker sent, with what came back. The latest event comes first.
pub data Event : Type 0 where
  clock_read : Datetime → Event
  minted : String → Permissions → InstallationToken → Event
  -- the revocation of a token was sent, and acknowledged or not
  revoked : InstallationToken → Check GithubError → Event
  repository_read : String → InstallationToken → Result GithubError HttpReply → Event
  ref_read : String → String → InstallationToken → Result GithubError HttpReply → Event
  inspected : TrustedWorkspace → WorkspaceState → Event
  pushed : TrustedWorkspace → String → String → InstallationToken → Event
  request_opened :
      String → PullRequestBody → InstallationToken → Result GithubError HttpReply → Event

pub record Session (World : Type 0) : Type 0 where
  pub world : World
  pub log : List Event

-- The calls of the broker on the outside: its clock, the token provider, the resolver of
-- workspaces, the file system, Git, and three addresses of the GitHub API.
pub record Services (World : Type 0) : Type 0 where
  pub clock : Call GithubError World Datetime
  pub mint : String → Permissions → Call GithubError World InstallationToken
  pub revoke : InstallationToken → Call GithubError World (Unit {0})
  pub workspace_resolver : String → String → Call GithubError World TrustedWorkspace
  pub resolve : World → FilePath → FilePath
  pub is_dir : World → FilePath → Bool
  pub inspect : TrustedWorkspace → Call GithubError World WorkspaceState
  pub push :
      TrustedWorkspace → String → String → InstallationToken → Call GithubError World (Unit {0})
  pub get_repository : String → InstallationToken → Call GithubError World HttpReply
  pub get_ref : String → String → InstallationToken → Call GithubError World HttpReply
  pub post_pull : String → PullRequestBody → InstallationToken → Call GithubError World HttpReply

-- A call on the outside, and what the log keeps of it.
unfoldable pub perform :
    {World A : Type 0}
    → Call GithubError World A
    → (Result GithubError A → List Event)
    → Call GithubError (Session World) A
perform call note s =
    let (r, world) = call s.world in (r, record { world = world; log = note r ++ s.log })

-- [0-9a-f]{40,64}
unfoldable pub is_sha : Text → Bool
is_sha value =
    leb 40 (length value)
    && leb (length value) 64
    && all (λ c. in_range b'0' b'9' c || in_range b'a' b'f' c) value
