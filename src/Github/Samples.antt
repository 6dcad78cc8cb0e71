-- ===== src/Github/Samples.antt =====
-- Tests of the model of src/forge_controller/github_broker.py, and its theorems at a concrete broker.
use hermes_dev_team_vm.Prelude.{
  ◌≡◌, refl, String, true, none, some, [], ◌∷◌, Text, codes, ok, err, Datetime, ◌==◌, eq_iff, lower,
  lower_char,
}
use hermes_dev_team_vm.Json.{object, text, field, nothing_more, Json}
use hermes_dev_team_vm.Calls.{Call, pure, lift, ◌>>=◌, ensuring, gets}
use hermes_dev_team_vm.Calls.Keeps.{is_ok}
use hermes_dev_team_vm.Capability.{
  CapabilityGrant, new_grant, preauthorize, authorize, authorized, validate_grant, template_of,
  aware, ttl_limit,
}
use hermes_dev_team_vm.Capability.Envelope.{
  CapabilityGrantEnvelope, Signing, open_grant, validate_key,
}
use hermes_dev_team_vm.Capability.Samples.{policy, grant, later, keyring}
use hermes_dev_team_vm.Github.{
  GithubError, TrustedWorkspace, GithubPushRequest, GithubPullRequestRequest, Session, Services,
  perform, payload_of, is_sha,
}
use hermes_dev_team_vm.Github.Broker.{
  GithubBroker, push_task_branch, create_pull_request, opened, read_clock, default_branch,
  mint_token, read_ref, read_repository, remote_branch_sha, revoke_token, with_token, push_branch,
  trusted_workspace, inspect_workspace, post_request, request_body,
}
use hermes_dev_team_vm.Github.Provider.{
  GithubAppConfig, AppHost, mint, app_jwt, split_repository, aware_time, live_token, token_of,
  with_provider, revoke,
}
use hermes_dev_team_vm.Github.Provider.Scoping.{IsScoped, mint-IsScoped}
use hermes_dev_team_vm.Github.Settlement.{HasSettled}
use hermes_dev_team_vm.Github.Revocation.{operations-HasSettled}
use hermes_dev_team_vm.Github.Pushing.{PushOutcome, push_task_branch-PushOutcome}
use hermes_dev_team_vm.Github.Requesting.{RequestOutcome, create_pull_request-RequestOutcome}
use hermes_dev_team_vm.Github.Replies.{
  preliminary_use, requested_use, default_branch_of, sha_of, parse_pull_request_result,
}
use hermes_dev_team_vm.Capability.Names.{
  is_repository, is_branch, ends_with, has_pair, is_branch_char, is_branch_pattern, is_name,
  is_name_char, owner_slash_name, starts_with_char,
}
use hermes_dev_team_vm.Isolation.{starts_with}

abbrev World : Type 0
World = Unit {0}

-- The outside world does not change.
abbrev replies : {A : Type 0} → A → Call GithubError World A
replies value s = (ok value, s)

abbrev pub evening : Datetime
evening = record { instant = 2_000_000_000; aware = true }

abbrev config : GithubAppConfig
config = record {
  app_id = "7";
  installation_id = 11;
  installation_owner = "owner";
  require_root_owned_key = true;
}

abbrev host : AppHost World
host = record {
  clock = replies later;
  stat_key = replies (some (record { is_regular = true; owner_uid = 0; mode = 384 }));
  encode_jwt = λ iat exp iss. replies "jwt";
  post_access_tokens = λ jwt installation repository permissions. replies (record {
    status_code = 201;
    body =
        some (object (field "token" (text "t") (field "expires_at" (text "later") nothing_more)));
  });
  delete_token = λ token. replies 204;
  fromisoformat = λ value. some evening;
  casefold = λ value. value;
}

abbrev pub head : Text
head = codes "0123456789abcdef0123456789abcdef01234567"

abbrev pub workspace : TrustedWorkspace
workspace = record { path = "srv" ∷ "work" ∷ "t" ∷ []; git_common_dir = "srv" ∷ "git" ∷ [] }

abbrev pub reference : Json
reference = object (
    field "object"
      (object (field "sha" (text "0123456789abcdef0123456789abcdef01234567") nothing_more))
      nothing_more)

abbrev outside : Services World
outside = record {
  clock = replies later;
  mint = λ resource permissions. replies (record { value = "t"; expires_at = evening });
  revoke = λ token. replies tt;
  workspace_resolver = λ project_id task_id. replies workspace;
  resolve = λ world path. path;
  is_dir = λ world path. true;
  inspect = λ where_to. replies (record {
    head_sha = head;
    clean = true;
    top_level = "srv" ∷ "work" ∷ "t" ∷ [];
    git_common_dir = "srv" ∷ "git" ∷ [];
    dangerous_config_keys = [];
  });
  push = λ where_to resource branch token. replies tt;
  get_repository = λ resource token. replies (record {
    status_code = 200;
    body = some (object (field "default_branch" (text "main") nothing_more));
  });
  get_ref = λ resource branch token. replies (record {
    status_code = 200;
    body = some (
        object (
          field "object"
            (object (field "sha" (text "0123456789abcdef0123456789abcdef01234567") nothing_more))
            nothing_more));
  });
  post_pull = λ resource body token. replies (record { status_code = 502; body = none });
}

abbrev pub services : Services World
services = with_provider outside config host

abbrev pub broker : GithubBroker
broker = record {
  policy = policy;
  capability_keyring = keyring;
  revoked_grant_ids = [];
  workspace_root = "srv" ∷ "work" ∷ [];
}

abbrev pub push_request : GithubPushRequest
push_request = record {
  project_id = "p";
  task_id = "t";
  subject_id = "worker";
  resource = "owner/repo";
  branch = "feature/x";
  expected_head = head;
}

abbrev pull_request : GithubPullRequestRequest
pull_request = record { push_request = push_request; title = "x"; body = ""; draft = true }

abbrev pub pull_grant : CapabilityGrant
pull_grant = record grant { operations = "branch.push" ∷ "pr.create" ∷ [] }

-- A scheme that signs the identifier of the grant.
abbrev pub by_identifier : Signing
by_identifier = record {
  Payload = String;
  Mac = String;
  iteration = λ operations. operations;
  dumps = λ version key_id g. g.grant_id;
  hmac = λ key payload. payload;
  compare_digest = λ a b. a == b;
  compare_digest_iff = eq_iff;
}

abbrev pub pull_envelope : CapabilityGrantEnvelope String
pull_envelope = record { version = 1; key_id = "k1"; grant = pull_grant; mac_sha256 = "g-1" }

abbrev pub start : Session World
start = record { world = tt; log = [] }

push_task_branch_runs :
    (push_task_branch services by_identifier broker pull_envelope push_request start).0
    ≡ ok (record {
      repository = "owner/repo";
      branch = "feature/x";
      head_sha = head;
      remote_verified = true;
    })
unfolding push_task_branch push_branch trusted_workspace inspect_workspace ◌>>=◌ lift gets pure
    ensuring opened open_grant validate_key new_grant preliminary_use requested_use is_repository
    is_branch ends_with has_pair is_branch_char is_branch_pattern is_name is_name_char
    owner_slash_name starts_with_char read_clock perform preauthorize authorize authorized
    validate_grant template_of aware ttl_limit default_branch mint_token read_ref read_repository
    remote_branch_sha revoke_token with_token default_branch_of sha_of is_sha payload_of lower
    lower_char mint revoke app_jwt split_repository aware_time token_of live_token
push_task_branch_runs = refl

-- GitHub fails: the error of the request is raised, after the token was given back.
create_pull_request_fails :
    (create_pull_request services by_identifier broker pull_envelope pull_request start).0
    ≡ err GithubError.http_error
unfolding create_pull_request post_request request_body parse_pull_request_result starts_with ◌>>=◌
    lift gets pure ensuring opened open_grant validate_key new_grant preliminary_use requested_use
    is_repository is_branch ends_with has_pair is_branch_char is_branch_pattern is_name is_name_char
    owner_slash_name starts_with_char read_clock perform preauthorize authorize authorized
    validate_grant template_of aware ttl_limit default_branch mint_token read_ref read_repository
    remote_branch_sha revoke_token with_token default_branch_of sha_of is_sha payload_of lower
    lower_char mint revoke app_jwt split_repository aware_time token_of live_token
create_pull_request_fails = refl

mint_runs :
    (mint config host "owner/repo" (("contents", "write") ∷ []) tt).0
    ≡ ok (record { value = "t"; expires_at = evening })
unfolding mint ◌>>=◌ lift split_repository aware_time app_jwt payload_of token_of live_token
mint_runs = refl

mint_refuses_other_owner :
    mint config host "other/repo" (("contents", "write") ∷ []) tt
    ≡ (err GithubError.outside_installation, tt)
unfolding mint ◌>>=◌ lift split_repository
mint_refuses_other_owner = refl

mint-IsScoped_example :
    (now : Datetime) × IsScoped config host now tt "owner/repo"
      (("contents", "write") ∷ [])
      (record { value = "t"; expires_at = evening })
mint-IsScoped_example =
    mint-IsScoped config host "owner/repo" (("contents", "write") ∷ []) tt
      (record { value = "t"; expires_at = evening }) mint_runs

push_task_branch-PushOutcome_example :
    let (r, later_session) =
      push_task_branch services by_identifier broker pull_envelope push_request start in
    PushOutcome services by_identifier broker pull_envelope push_request start.log r
      later_session.log
push_task_branch-PushOutcome_example =
    push_task_branch-PushOutcome services by_identifier broker pull_envelope push_request start

create_pull_request-RequestOutcome_example :
    let (r, later_session) =
      create_pull_request services by_identifier broker pull_envelope pull_request start in
    RequestOutcome services by_identifier broker pull_envelope pull_request start.log r
      later_session.log
create_pull_request-RequestOutcome_example =
    create_pull_request-RequestOutcome services by_identifier broker pull_envelope pull_request
      start

operations-HasSettled_example :
    let (pushed, after_push) =
      push_task_branch services by_identifier broker pull_envelope push_request start in
    let (opened, after_pull) =
      create_pull_request services by_identifier broker pull_envelope pull_request start in
    HasSettled (is_ok pushed) start.log after_push.log
    × HasSettled (is_ok opened) start.log after_pull.log
operations-HasSettled_example =
    operations-HasSettled services by_identifier broker pull_envelope push_request pull_request
      start
