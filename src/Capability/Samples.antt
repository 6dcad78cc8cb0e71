-- ===== src/Capability/Samples.antt =====
-- Tests of the models of src/forge_controller/capabilities.py and capability_envelope.py, and their
-- theorems at concrete policies, grants and uses.
use native.Mathlib.Decide.{ℕ_discrete}
use hermes_dev_team_vm.Prelude.{
  ◌+◌, ◌≤◌, ◌≡◌, ◌↔◌, refl, String, Bool, true, false, none, some, List, [], ◌∷◌, eq_iff, ◌==◌,
  Bool-cases, inl, inr, ok, err, Text, codes, lookup, minutes, Datetime, pos, arith, false≢true,
}
use hermes_dev_team_vm.Models.{public}
use hermes_dev_team_vm.Capability.{
  CapabilityTemplate, CapabilityPolicy, CapabilityGrant, CapabilityUse, GrantRequest, policy_error,
  denied, default_branch_write, bad_ttl, template_of, aware, ttl_limit, is_well_formed,
  validate_grant, new_grant, issue_grant, preauthorize, authorized, authorize,
}
use hermes_dev_team_vm.Capability.Names.{is_repository, is_branch}
use hermes_dev_team_vm.Capability.Scope.{IsInScope}
use hermes_dev_team_vm.Capability.Permission.{IsSafeWrite, IsPermitted, authorize_iff, narrowed}
use hermes_dev_team_vm.Capability.Issuing.{issue_grant-bounds, authorize-issue_grant}
use hermes_dev_team_vm.Capability.Envelope.{
  CapabilityGrantEnvelope, Signing, seal_grant, open_grant, in_process, validate_key,
}
use hermes_dev_team_vm.Capability.Envelope.Authenticity.{
  open_grant_iff, open_grant-seal_grant, open_grant-tamper_proof, IsAuthentic,
}

abbrev pub write_template : CapabilityTemplate
write_template = record {
  service = "github";
  operations = "branch.push" ∷ "pr.create" ∷ [];
  resource_scope_required = true;
  branch_scope_required = true;
  credential_binding = some "github-app";
  max_ttl_minutes = some 30;
  deny_default_branch_write = true;
  allow_force_push = false;
  pr_base_must_equal_default = true;
  credential_exposure = "never";
}

abbrev pub policy : CapabilityPolicy
policy = record {
  deny_unmatched = true;
  preserve_audit = true;
  max_ttl_minutes = 60;
  templates = ("github.write", write_template) ∷ [];
}

abbrev pub request : GrantRequest
request = record {
  template = "github.write";
  project_id = "p";
  task_id = "t";
  subject_id = "worker";
  resource = "owner/repo";
  operations = "branch.push" ∷ [];
  ttl_minutes = pos 15;
  branch = some "feature/x";
  sensitivity = public;
  reason = none;
}

abbrev pub noon : Datetime
noon = record { instant = 1_000_000_000; aware = true }

abbrev pub later : Datetime
later = record { instant = 1_000_000_500; aware = true }

abbrev pub grant : CapabilityGrant
grant = new_grant write_template request "g-1" noon

abbrev push : CapabilityUse
push = record {
  project_id = "p";
  task_id = "t";
  subject_id = "worker";
  service = "github";
  resource = "owner/repo";
  operation = "branch.push";
  branch = some "feature/x";
  default_branch = some "main";
  force = false;
  base_branch = none;
}

issue_grant_runs : issue_grant policy request "g-1" noon ≡ ok grant
unfolding issue_grant validate_grant is_well_formed is_repository is_branch new_grant aware
    template_of ttl_limit
issue_grant_runs = refl

issue_grant_refuses_long_ttl :
    issue_grant policy (record request { ttl_minutes = pos 31 }) "g-1" noon
    ≡ err (policy_error bad_ttl)
unfolding issue_grant template_of aware ttl_limit
issue_grant_refuses_long_ttl = refl

authorize_runs : authorize policy grant push later ≡ ok (narrowed grant push)
unfolding authorize preauthorize validate_grant new_grant template_of aware ttl_limit authorized
authorize_runs = refl

authorize_denies_default :
    authorize policy
      (record grant { branch = some "main" })
      (record push { branch = some "main" })
      later
    ≡ err (denied default_branch_write)
unfolding authorize preauthorize validate_grant new_grant template_of aware ttl_limit
authorize_denies_default = refl

branch_names :
    (is_branch "feature/x" ≡ true)
    × (is_branch "a..b" ≡ false)
    × (is_branch "x.lock" ≡ false)
    × (is_branch "-x" ≡ false)
    × (is_branch "a//b" ≡ false)
unfolding is_branch
branch_names = (refl, refl, refl, refl, refl)

issue_grant-bounds_example :
    (t : CapabilityTemplate) × (lookup "github.write" policy.templates ≡ some t)
    × (grant.issued_at ≡ noon)
    × (grant.expires_at.instant ≡ 1_000_000_000 + minutes 15)
    × (grant.expires_at.instant ≤ 1_000_000_000 + minutes 60)
    × (grant.service ≡ t.service)
    × (grant.credential_binding ≡ t.credential_binding)
    × (grant.revoked ≡ false)
issue_grant-bounds_example = issue_grant-bounds policy request "g-1" noon grant issue_grant_runs

push-IsInScope : IsInScope write_template grant push later
unfolding new_grant
push-IsInScope = record {
  now_aware = refl;
  not_revoked = refl;
  active = omega arith;
  not_expired = omega arith;
  project = refl;
  task = refl;
  subject = refl;
  service = refl;
  resource = refl;
  granted = refl;
  in_template = refl;
  branch = λ _. (refl, refl, refl);
}

push-IsSafeWrite : IsSafeWrite write_template push
push-IsSafeWrite = record {
  branch_known = λ _. refl;
  not_default = λ _ _ e. absurd (false≢true ((eq_iff "feature/x" "main").1 (cc)));
  not_forced = λ _ forced. cc;
  pull_request_base = λ o _. absurd (false≢true ((eq_iff "branch.push" "pr.create").1 o));
}

authorize-issue_grant_example : authorize policy grant push later ≡ ok (narrowed grant push)
authorize-issue_grant_example =
    authorize-issue_grant policy request "g-1" noon grant write_template push later issue_grant_runs
      refl push-IsInScope push-IsSafeWrite

authorize_iff_example :
    (authorize policy grant push later ≡ ok (narrowed grant push))
    ↔ (IsPermitted policy grant push later × (narrowed grant push ≡ narrowed grant push))
authorize_iff_example = authorize_iff policy grant push later (narrowed grant push)

-- A signing scheme with no collisions at all: the payload and the MAC are the grant itself.
String-discrete : Discrete String
String-discrete s t = elim (Bool-cases (s == t)) [
  | inl same ↦ yes ((eq_iff s t).0 same)
  | inr other ↦ no (λ e. cc (other, (eq_iff s t).1 e))
]

CapabilityGrant-discrete : Discrete CapabilityGrant
CapabilityGrant-discrete = hlevel (String-discrete, ℕ_discrete)

same_grant : CapabilityGrant → CapabilityGrant → Bool
same_grant g h = elim (CapabilityGrant-discrete g h) [ yes _ ↦ true | no _ ↦ false ]

same_grant_iff : (g h : CapabilityGrant) → (same_grant g h ≡ true) ↔ (g ≡ h)
unfolding same_grant
same_grant_iff g h = by_decision (CapabilityGrant-discrete g h)
  where
    by_decision : (d : Dec (g ≡ h)) → ((elim d [ yes _ ↦ true | no _ ↦ false ]) ≡ true) ↔ (g ≡ h)
    by_decision (yes e) = (λ _. e, λ _. refl)
    by_decision (no ne) = (λ h. cc, λ e. absurd (ne e))

abbrev transparent : Signing
transparent = record {
  Payload = CapabilityGrant;
  Mac = CapabilityGrant;
  iteration = λ operations. operations;
  dumps = λ version key_id g. g;
  hmac = λ key payload. payload;
  compare_digest = same_grant;
  compare_digest_iff = same_grant_iff;
}

abbrev pub key : Text
key = codes "0123456789abcdef0123456789abcdef"

abbrev sealed : CapabilityGrantEnvelope CapabilityGrant
sealed = record { version = 1; key_id = "k1"; grant = grant; mac_sha256 = grant }

abbrev pub keyring : List (String × Text)
keyring = ("k0", []) ∷ ("k1", key) ∷ []

seal_grant_runs : seal_grant transparent grant "k1" key ≡ ok sealed
unfolding seal_grant
seal_grant_runs = refl

open_grant_runs : open_grant transparent sealed keyring [] ≡ ok grant
unfolding open_grant validate_key new_grant
open_grant_runs = (open_grant_iff transparent sealed keyring [] grant).1 (
  record { key = key; version = refl; known = refl; long = omega arith; mac = refl; live = refl },
  refl,
)

abbrev reversed : List String → List String
reversed (a ∷ b ∷ []) = b ∷ a ∷ []
reversed operations = operations

abbrev two_operations : CapabilityGrant
two_operations = record grant { operations = "branch.push" ∷ "pr.create" ∷ [] }

abbrev two_sealed : CapabilityGrantEnvelope CapabilityGrant
two_sealed = record sealed { grant = two_operations; mac_sha256 = two_operations }

two_sealed_runs : seal_grant transparent two_operations "k1" key ≡ ok two_sealed
unfolding seal_grant
two_sealed_runs = refl

-- A process that iterates over the two operations in the other order refuses what was sealed.
open_grant-seal_grant_example :
    (open_grant (in_process transparent reversed) two_sealed keyring [] ≡ ok two_operations)
    ↔ (reversed two_operations.operations ≡ two_operations.operations)
unfolding new_grant
open_grant-seal_grant_example =
    open_grant-seal_grant transparent (λ _ _ _ e. e) (λ _ _ _ e. e) reversed two_operations "k1" key
      two_sealed keyring [] two_sealed_runs refl refl

open_grant_iff_example :
    (open_grant transparent sealed keyring [] ≡ ok grant)
    ↔ (IsAuthentic transparent sealed keyring [] × (grant ≡ grant))
open_grant_iff_example = open_grant_iff transparent sealed keyring [] grant

open_grant-tamper_proof_example : grant ≡ grant
open_grant-tamper_proof_example =
    open_grant-tamper_proof transparent (λ _ _ _ e. e) (λ _ _ _ e. e) grant grant "k1" key sealed
      sealed keyring [] seal_grant_runs refl refl refl open_grant_runs
