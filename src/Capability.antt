-- ===== src/Capability.antt =====
-- src/forge_controller/capabilities.py: policies, grants, uses and their authorization.
-- The proofs stand in the modules below; `Names` has the validators of repository and branch names.
mod Types
pub mod Names
pub mod Scope
pub mod Permission
pub mod Issuing
pub mod Envelope
pub mod Samples
use hermes_dev_team_vm.Prelude.{
  ℕ, zero, suc, ◌+◌, ◌-◌, min, String, Bool, true, false, not, ◌&&◌, ◌||◌, Option, none, some, List,
  [], ◌∷◌, leb, ltb, eqb, ◌==◌, if◌then◌else◌, is_empty, member, subset, lookup, is_blank,
  option_eq, Result, Check, ok, err, ◌>>=◌, ◌>>◌, checks, or_raise, Datetime, minutes, ℤ, pos_part,
  option_all,
}
use hermes_dev_team_vm.Models.{Sensitivity}
use Names.{is_repository, is_branch}
unfoldable pub use Types.*

-- _template
unfoldable pub template_of : CapabilityPolicy → String → Result CapabilityError CapabilityTemplate
template_of policy name = or_raise (lookup name policy.templates) (policy_error unknown_template)

-- _aware, which returns its argument or raises
unfoldable pub aware : Datetime → Check CapabilityError
aware value = checks ((not value.aware, policy_error naive_datetime) ∷ [])

-- selected.max_ttl_minutes or policy.max_ttl_minutes, below the policy's own limit
unfoldable pub ttl_limit : CapabilityPolicy → CapabilityTemplate → ℕ
ttl_limit policy selected = min policy.max_ttl_minutes (elim selected.max_ttl_minutes [
  | none ↦ policy.max_ttl_minutes
  | some zero ↦ policy.max_ttl_minutes
  | some (suc n) ↦ suc n
])

-- The validators of `CapabilityGrant`: `operations` is not empty, `resource` and `branch` are names.
unfoldable pub is_well_formed : CapabilityGrant → Bool
is_well_formed grant =
    not (is_empty grant.operations)
    && is_repository grant.resource
    && option_all is_branch grant.branch

-- The tests of `validate_grant`, in order, each with what it raises.
abbrev pub grant_faults :
    CapabilityPolicy → CapabilityTemplate → CapabilityGrant → List (Bool × CapabilityError)
grant_faults policy selected grant =
    (leb grant.expires_at.instant grant.issued_at.instant, policy_error expires_before_issue)
    ∷ (
      ltb (minutes (ttl_limit policy selected))
          (grant.expires_at.instant - grant.issued_at.instant),
      policy_error over_policy_ttl,
    )
    ∷ (not (grant.service == selected.service), policy_error wrong_service)
    ∷ (not (subset grant.operations selected.operations), policy_error outside_template)
    ∷ (is_empty grant.operations, policy_error no_operations)
    ∷ (selected.resource_scope_required && grant.resource == "", policy_error no_resource_scope)
    ∷ (selected.branch_scope_required && is_blank grant.branch, policy_error no_branch_scope)
    ∷ (
      not (option_eq grant.credential_binding selected.credential_binding),
      policy_error wrong_binding,
    )
    ∷ (not (selected.credential_exposure == "never"), policy_error worker_visible_credential)
    ∷ []

unfoldable pub validate_grant : CapabilityPolicy → CapabilityGrant → Check CapabilityError
validate_grant policy grant = do
  selected ← template_of policy grant.template
  aware grant.issued_at
  aware grant.expires_at
  checks (grant_faults policy selected grant)

-- The grant that `issue_grant` builds. `new_id` is the fresh identifier of `uuid4`.
unfoldable pub new_grant : CapabilityTemplate → GrantRequest → String → Datetime → CapabilityGrant
new_grant selected request new_id now = record {
  grant_id = new_id;
  template = request.template;
  project_id = request.project_id;
  task_id = request.task_id;
  subject_id = request.subject_id;
  service = selected.service;
  resource = request.resource;
  operations = request.operations;
  branch = request.branch;
  credential_binding = selected.credential_binding;
  sensitivity = request.sensitivity;
  issued_at = now;
  expires_at = record now { instant = now.instant + minutes (pos_part request.ttl_minutes) };
  revoked = false;
  reason = request.reason;
}

-- ttl_minutes <= 0 or ttl_minutes > ttl_limit
abbrev pub ttl_faults :
    CapabilityPolicy → CapabilityTemplate → GrantRequest → List (Bool × CapabilityError)
ttl_faults policy selected request =
    (
      eqb (pos_part request.ttl_minutes) 0
          || ltb (ttl_limit policy selected) (pos_part request.ttl_minutes),
      policy_error bad_ttl,
    )
    ∷ []

unfoldable pub issue_grant :
    CapabilityPolicy → GrantRequest → String → Datetime → Result CapabilityError CapabilityGrant
issue_grant policy request new_id now = do
  aware now
  selected ← template_of policy request.template
  checks (ttl_faults policy selected request)
  let grant = new_grant selected request new_id now
  checks ((not (is_well_formed grant), validation_error) ∷ [])
  validate_grant policy grant
  ok grant

-- The tests of `preauthorize` behind the validation: time, scope, operation and branch.
abbrev pub scope_faults :
    CapabilityTemplate → CapabilityGrant → CapabilityUse → Datetime → List (Bool × CapabilityError)
scope_faults selected grant request now =
    (grant.revoked, denied revoked)
    ∷ (ltb now.instant grant.issued_at.instant, denied not_active_yet)
    ∷ (leb grant.expires_at.instant now.instant, denied expired)
    ∷ (not (grant.project_id == request.project_id), denied other_project)
    ∷ (not (grant.task_id == request.task_id), denied other_task)
    ∷ (not (grant.subject_id == request.subject_id), denied other_subject)
    ∷ (not (grant.service == request.service), denied other_service)
    ∷ (not (grant.resource == request.resource), denied other_resource)
    ∷ (
      not (member request.operation grant.operations)
          || not (member request.operation selected.operations),
      denied other_operation,
    )
    ∷ (
      selected.branch_scope_required
          && (is_blank grant.branch
              || (is_blank request.branch || not (option_eq grant.branch request.branch))),
      denied other_branch,
    )
    ∷ []

unfoldable pub preauthorize :
    CapabilityPolicy
    → CapabilityGrant
    → CapabilityUse
    → Datetime
    → Result CapabilityError CapabilityTemplate
preauthorize policy grant request now = do
  validate_grant policy grant
  selected ← template_of policy grant.template
  aware now
  checks (scope_faults selected grant request now)
  ok selected

-- The tests of `authorize` behind `preauthorize`, which read the repository's metadata.
abbrev pub write_faults : CapabilityTemplate → CapabilityUse → List (Bool × CapabilityError)
write_faults selected request =
    (selected.branch_scope_required && is_blank request.default_branch, denied no_default_branch)
    ∷ (
      selected.branch_scope_required
          && (selected.deny_default_branch_write
              && option_eq request.branch request.default_branch),
      denied default_branch_write,
    )
    ∷ (
      request.operation == "branch.push" && (request.force && not selected.allow_force_push),
      denied force_push,
    )
    ∷ (
      request.operation == "pr.create"
          && (selected.pr_base_must_equal_default
              && (is_blank request.base_branch
                  || not (option_eq request.base_branch request.default_branch))),
      denied wrong_pull_request_base,
    )
    ∷ []

unfoldable pub authorized : CapabilityGrant → CapabilityUse → AuthorizedCapability
authorized grant request = record {
  grant_id = grant.grant_id;
  service = grant.service;
  resource = grant.resource;
  operation = request.operation;
  branch = request.branch;
  credential_binding = grant.credential_binding;
  expires_at = grant.expires_at;
}

unfoldable pub authorize :
    CapabilityPolicy
    → CapabilityGrant
    → CapabilityUse
    → Datetime
    → Result CapabilityError AuthorizedCapability
authorize policy grant request now = do
  selected ← preauthorize policy grant request now
  checks (write_faults selected request)
  ok (authorized grant request)
