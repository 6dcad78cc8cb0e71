-- ===== src/Github/DeliverySamples.antt =====
-- A broker of src/forge_controller/github_broker.py that pushes.
use hermes_dev_team_vm.Prelude.{
  ◌≡◌, refl, true, none, some, [], ◌∷◌, ok, lower, lower_char, false, text_eq-false_iff,
}
use hermes_dev_team_vm.Json.{object, text, field, nothing_more}
use hermes_dev_team_vm.Calls.{lift, ◌>>=◌}
use hermes_dev_team_vm.Capability.{
  new_grant, preauthorize, authorize, authorized, validate_grant, template_of, aware, ttl_limit,
  CapabilityUse,
}
use hermes_dev_team_vm.Capability.Envelope.{open_grant, validate_key}
use hermes_dev_team_vm.Capability.Samples.{policy, later, keyring}
use hermes_dev_team_vm.Github.{payload_of, is_sha, TrustedWorkspace}
use hermes_dev_team_vm.Github.Broker.{push_task_branch}
use hermes_dev_team_vm.Github.Provider.{
  mint, app_jwt, split_repository, aware_time, live_token, token_of, revoke,
}
use hermes_dev_team_vm.Github.Pushing.{pushed_result, IsPushOf}
use hermes_dev_team_vm.Github.Replies.{requested_use, default_branch_of, sha_of}
use hermes_dev_team_vm.Capability.Names.{
  is_repository, is_branch, ends_with, has_pair, is_branch_char, is_branch_pattern, is_name,
  is_name_char, owner_slash_name, starts_with_char,
}
use hermes_dev_team_vm.Github.Delivery.{IsCooperative, push_task_branch_delivers}
use hermes_dev_team_vm.Capability.Permission.{authorize_iff, narrowed}
use hermes_dev_team_vm.Capability.Envelope.Authenticity.{open_grant_iff}
use hermes_dev_team_vm.Github.Samples.{
  services, broker, pull_grant, pull_envelope, by_identifier, push_request, head, workspace,
  reference, evening, start,
}
use hermes_dev_team_vm.Github.Writes.{HasWritten}

open_grant_runs : open_grant by_identifier pull_envelope keyring [] ≡ ok pull_grant
unfolding open_grant validate_key new_grant
open_grant_runs = refl

abbrev asked : CapabilityUse
asked = record {
  project_id = "p";
  task_id = "t";
  subject_id = "worker";
  service = "github";
  resource = "owner/repo";
  operation = "branch.push";
  branch = some "feature/x";
  default_branch = none;
  force = false;
  base_branch = none;
}

authorize_runs :
    authorize policy pull_grant (record asked { default_branch = some "main" }) later
    ≡ ok (narrowed pull_grant (record asked { default_branch = some "main" }))
unfolding preauthorize authorize validate_grant template_of aware ttl_limit new_grant
    is_branch_pattern starts_with_char ends_with has_pair is_branch_char authorized
authorize_runs = refl

services-IsCooperative : IsCooperative services by_identifier broker pull_envelope push_request
unfolding mint revoke ◌>>=◌ lift split_repository aware_time app_jwt payload_of token_of live_token
    default_branch_of sha_of is_sha lower lower_char requested_use is_repository is_branch is_name
    is_name_char owner_slash_name starts_with_char ends_with has_pair is_branch_char
services-IsCooperative = record {
  now = later;
  clock = record { returned = λ s. refl };
  token = record { value = "t"; expires_at = evening };
  metadata_token = record { returned = λ s. refl };
  read_token = record { returned = λ s. refl };
  write_token = record { returned = λ s. refl };
  revoked = record { returned = λ s. refl };
  metadata = record {
    status_code = 200;
    body = some (object (field "default_branch" (text "main") nothing_more));
  };
  described = record { returned = λ s. refl };
  repository = object (field "default_branch" (text "main") nothing_more);
  parsed = refl;
  default = "main";
  named = refl;
  some_default = (text_eq-false_iff "main" "").0 refl;
  reference = record { status_code = 200; body = some reference };
  referred = record { returned = λ s. refl };
  branch = reference;
  read = refl;
  sha = "0123456789abcdef0123456789abcdef01234567";
  reported = refl;
  updated = refl;
  valid_head = refl;
  workspace = workspace;
  placed = record { returned = λ s. refl };
  resolved_path = λ world. refl;
  resolved_common = λ world. refl;
  rest = "t" ∷ [];
  below = refl;
  apart = λ e. cc e;
  directory = λ world. refl;
  state = record {
    head_sha = head;
    clean = true;
    top_level = "srv" ∷ "work" ∷ "t" ∷ [];
    git_common_dir = "srv" ∷ "git" ∷ [];
    dangerous_config_keys = [];
  };
  inspected = record { returned = λ s. refl };
  fit = record {
    top_level = refl;
    common_dir = refl;
    at_head = refl;
    clean = refl;
    safe_config = refl;
  };
  pushed = record { returned = λ s. refl };
  valid_resource = refl;
  valid_branch = refl;
  authentic =
      ((open_grant_iff by_identifier pull_envelope keyring [] pull_grant).0 open_grant_runs).0;
  permitted =
      ((authorize_iff policy pull_grant (record asked { default_branch = some "main" }) later _).0
        authorize_runs).0;
}

push_task_branch_delivers_example :
    let (r, later_session) =
      push_task_branch services by_identifier broker pull_envelope push_request start in
    (r ≡ ok (pushed_result services by_identifier broker pull_envelope push_request))
    × ((w : TrustedWorkspace) × HasWritten
          (IsPushOf services by_identifier broker pull_envelope push_request w)
          start.log
          later_session.log)
push_task_branch_delivers_example =
    push_task_branch_delivers services by_identifier broker pull_envelope push_request
      services-IsCooperative start
