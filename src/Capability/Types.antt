-- ===== src/Capability/Types.antt =====
-- The data of src/forge_controller/capabilities.py: exceptions, templates, grants and uses.
use hermes_dev_team_vm.Prelude.{ℕ, String, Bool, Option, List, Datetime, ℤ}
use hermes_dev_team_vm.Models.{Sensitivity}

-- The exceptions, by kind and message: `CapabilityPolicyError`, its subclass `CapabilityDenied`,
-- and the `ValidationError` of the model classes.
pub data PolicyFault : Type 0 where
  unknown_template naive_datetime bad_ttl expires_before_issue over_policy_ttl : PolicyFault
  wrong_service outside_template no_operations no_resource_scope no_branch_scope : PolicyFault
  wrong_binding worker_visible_credential : PolicyFault

pub data Denial : Type 0 where
  revoked not_active_yet expired : Denial
  other_project other_task other_subject other_service other_resource : Denial
  other_operation other_branch no_default_branch default_branch_write force_push : Denial
  wrong_pull_request_base : Denial

pub data CapabilityError : Type 0 where
  policy_error : PolicyFault → CapabilityError
  denied : Denial → CapabilityError
  validation_error : CapabilityError

pub record CapabilityTemplate : Type 0 where
  pub service : String
  pub operations : List String
  pub resource_scope_required : Bool
  pub branch_scope_required : Bool
  pub credential_binding : Option String
  pub max_ttl_minutes : Option ℕ
  pub deny_default_branch_write : Bool
  pub allow_force_push : Bool
  pub pr_base_must_equal_default : Bool
  pub credential_exposure : String

pub record CapabilityPolicy : Type 0 where
  pub deny_unmatched : Bool
  pub preserve_audit : Bool
  pub max_ttl_minutes : ℕ
  pub templates : List (String × CapabilityTemplate)

pub record CapabilityGrant : Type 0 where
  pub grant_id : String
  pub template : String
  pub project_id : String
  pub task_id : String
  pub subject_id : String
  pub service : String
  pub resource : String
  pub operations : List String
  pub branch : Option String
  pub credential_binding : Option String
  pub sensitivity : Sensitivity
  pub issued_at : Datetime
  pub expires_at : Datetime
  pub revoked : Bool
  pub reason : Option String

pub record CapabilityUse : Type 0 where
  pub project_id : String
  pub task_id : String
  pub subject_id : String
  pub service : String
  pub resource : String
  pub operation : String
  pub branch : Option String
  pub default_branch : Option String
  pub force : Bool
  pub base_branch : Option String

pub record AuthorizedCapability : Type 0 where
  pub grant_id : String
  pub service : String
  pub resource : String
  pub operation : String
  pub branch : Option String
  pub credential_binding : Option String
  pub expires_at : Datetime

-- The keyword arguments of `issue_grant`.
pub record GrantRequest : Type 0 where
  pub template : String
  pub project_id : String
  pub task_id : String
  pub subject_id : String
  pub resource : String
  pub operations : List String
  pub ttl_minutes : ℤ
  pub branch : Option String
  pub sensitivity : Sensitivity
  pub reason : Option String
