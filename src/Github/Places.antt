-- ===== src/Github/Places.antt =====
-- When the tests of `GitHubBroker` in src/forge_controller/github_broker.py pass: the converse of what
-- `Permits` reads off them.
use hermes_dev_team_vm.Prelude.{
  ◌≡◌, ◌≢◌, refl, String, true, false, some, [], ◌∷◌, ◌++◌, Text, codes, lower, text_eq_refl,
  AllPass, ok, text_eq-false_iff, eq_refl, Datetime, subst, sym, Option, none, err, Result, ◌==◌,
  if◌then◌else◌,
}
use hermes_dev_team_vm.Json.{Json, get_if_object, as_text}
use hermes_dev_team_vm.Capability.{CapabilityPolicy, CapabilityGrant, preauthorize}
use hermes_dev_team_vm.Capability.Scope.{preauthorize_iff}
use hermes_dev_team_vm.Capability.Permission.{IsPermitted}
use hermes_dev_team_vm.Github.{FilePath, WorkspaceState, GithubPushRequest, is_sha, GithubError}
use hermes_dev_team_vm.Github.Replies.{
  path_eq, is_relative_to, requested_use, workspace_faults, default_branch_of, sha_of,
}
use hermes_dev_team_vm.Github.Permits.{IsClean}
use hermes_dev_team_vm.Github.Pushing.{with_default}

path_eq_refl : (p : FilePath) → path_eq p p ≡ true
path_eq_refl [] = refl
path_eq_refl (a ∷ p) = rw (eq_refl a, path_eq_refl p) refl

pub is_relative_to-append : (root rest : FilePath) → is_relative_to (root ++ rest) root ≡ true
is_relative_to-append [] [] = refl
is_relative_to-append [] (b ∷ rest) = refl
is_relative_to-append (a ∷ root) rest = rw (eq_refl a, is_relative_to-append root rest) refl

pub path_eq-append : (root rest : FilePath) → rest ≢ [] → path_eq (root ++ rest) root ≡ false
path_eq-append [] [] h = absurd (h refl)
path_eq-append [] (b ∷ rest) h = refl
path_eq-append (a ∷ root) rest h = rw (eq_refl a, path_eq-append root rest h) refl

pub IsClean-workspace_faults :
    (path common : FilePath) (state : WorkspaceState) (head : Text)
    → IsClean path common state head
    → AllPass (workspace_faults path common state head)
IsClean-workspace_faults path common state head c = (
  rw (c.top_level, path_eq_refl path) refl,
  (
    rw (c.common_dir, path_eq_refl common) refl,
    (rw (c.at_head, text_eq_refl head) refl, (rw c.clean refl, (rw c.safe_config refl, tt))),
  ),
)

pub default_branch_of-named :
    (payload : Json) (branch : String)
    → as_text (get_if_object "default_branch" (some payload)) ≡ some branch
    → branch ≢ ""
    → default_branch_of payload ≡ ok branch
unfolding default_branch_of
default_branch_of-named payload branch named given =
    subst
      (λ (found : Option String).
        (elim found as (λ _. Result GithubError String) [
          | none ↦ err GithubError.default_branch_missing
          | some b ↦ if b == "" then err GithubError.default_branch_missing else ok b
        ])
        ≡ ok branch)
      (sym named) (rw ((text_eq-false_iff branch "").1 given) refl)

pub sha_of-reported :
    (payload : Json) (sha : String) (head : Text)
    → as_text (get_if_object "sha" (get_if_object "object" (some payload))) ≡ some sha
    → lower (codes sha) ≡ head
    → is_sha head ≡ true
    → sha_of payload ≡ ok head
unfolding sha_of
sha_of-reported payload sha head reported lowered valid =
    subst
      (λ (found : Option String).
        (elim found as (λ _. Result GithubError Text) [
          | none ↦ err GithubError.invalid_object_id
          | some x ↦
              if is_sha (lower (codes x))
              then ok (lower (codes x))
              else err GithubError.invalid_object_id
        ])
        ≡ ok head)
      (sym reported) (rw (lowered, valid) refl)

-- A use that is permitted with its default branch is one that `preauthorize` lets pass without it.
pub preauthorize-permitted :
    (policy : CapabilityPolicy) (grant : CapabilityGrant) (request : GithubPushRequest)
    (operation default : String) (now : Datetime)
    (p : IsPermitted policy grant (with_default default (requested_use request operation)) now)
    → preauthorize policy grant (requested_use request operation) now ≡ ok p.template
unfolding requested_use
preauthorize-permitted policy grant request operation default now p =
    (preauthorize_iff policy grant (requested_use request operation) now p.template).1 (
      p.sound,
      record {
        now_aware = p.scope.now_aware;
        not_revoked = p.scope.not_revoked;
        active = p.scope.active;
        not_expired = p.scope.not_expired;
        project = p.scope.project;
        task = p.scope.task;
        subject = p.scope.subject;
        service = p.scope.service;
        resource = p.scope.resource;
        granted = p.scope.granted;
        in_template = p.scope.in_template;
        branch = p.scope.branch;
      },
    )
