-- ===== src/Capability/Permission.antt =====
-- The two readings of an authorization by src/forge_controller/capabilities.py: `authorize` as code,
-- and the conditions under which it grants.
use hermes_dev_team_vm.Prelude.{
  ◌≡◌, ◌≢◌, ◌↔◌, true, false, Option, eq_iff, String, AllPass, ok, >>=-eq-ok, >>-eq-ok, checks,
  checks_iff, Datetime, is_blank, option_eq, option_eq_iff, or-false_iff, not-false_iff,
  and-false_iff, option_differs-false_iff, arith,
}
use hermes_dev_team_vm.Capability.{
  CapabilityTemplate, CapabilityPolicy, CapabilityGrant, CapabilityUse, AuthorizedCapability,
  preauthorize, write_faults, authorized, authorize,
}
use hermes_dev_team_vm.Capability.Scope.{IsSound, IsInScope, preauthorize_iff}

-- The use respects the default branch of the repository.
pub record IsSafeWrite (t : CapabilityTemplate) (request : CapabilityUse) : Type 0 where
  pub branch_known : t.branch_scope_required ≡ true → is_blank request.default_branch ≡ false
  pub not_default :
      t.branch_scope_required ≡ true
      → t.deny_default_branch_write ≡ true
      → request.branch ≢ request.default_branch
  pub not_forced :
      request.operation ≡ "branch.push" → request.force ≡ true → t.allow_force_push ≡ true
  pub pull_request_base :
      request.operation ≡ "pr.create"
      → t.pr_base_must_equal_default ≡ true
      → (is_blank request.base_branch ≡ false) × (request.base_branch ≡ request.default_branch)

option_eq-false_iff : (a b : Option String) → (option_eq a b ≡ false) ↔ (a ≢ b)
option_eq-false_iff a b =
    (λ h e. cc (h, (option_eq_iff a b).1 e), λ ne. ground (arith, option_eq_iff a b))

module _ (t : CapabilityTemplate) (request : CapabilityUse) where
  write_faults-IsSafeWrite : AllPass (write_faults t request) → IsSafeWrite t request
  write_faults-IsSafeWrite p = record {
    branch_known = (and-false_iff _ _).0 p.0;
    not_default = λ r d.
        (option_eq-false_iff _ _).0 ((and-false_iff _ _).0 ((and-false_iff _ _).0 p.1.0 r) d);
    not_forced = λ o f.
        (not-false_iff _).0
          ((and-false_iff _ _).0 ((and-false_iff _ _).0 p.1.1.0 ((eq_iff _ _).1 o)) f);
    pull_request_base = λ o b.
        let q =
          (or-false_iff (is_blank request.base_branch) _).0
            ((and-false_iff _ _).0 ((and-false_iff _ _).0 p.1.1.1.0 ((eq_iff _ _).1 o)) b) in
        (q.0, (option_differs-false_iff _ _).0 q.1);
  }

  IsSafeWrite-write_faults : IsSafeWrite t request → AllPass (write_faults t request)
  IsSafeWrite-write_faults s = (
    (and-false_iff _ _).1 s.branch_known,
    (
      (and-false_iff _ _).1
          (λ r. (and-false_iff _ _).1 λ d. (option_eq-false_iff _ _).1 (s.not_default r d)),
      (
        (and-false_iff _ _).1 (λ o.
            (and-false_iff _ _).1 λ f. (not-false_iff _).1 (s.not_forced ((eq_iff _ _).0 o) f)),
        (
          (and-false_iff _ _).1 (λ o. (and-false_iff _ _).1 λ b.
              let q = s.pull_request_base ((eq_iff _ _).0 o) b in
              (or-false_iff _ _).1 (q.0, (option_differs-false_iff _ _).1 q.1)),
          tt,
        ),
      ),
    ),
  )

-- Every condition under which `authorize` grants the use, for some template of the policy.
pub record IsPermitted (policy : CapabilityPolicy) (grant : CapabilityGrant)
    (request : CapabilityUse) (now : Datetime) : Type 0 where
  pub template : CapabilityTemplate
  pub sound : IsSound policy template grant
  pub scope : IsInScope template grant request now
  pub write : IsSafeWrite template request

-- The grant, narrowed to the operation and the branch of the use.
abbrev pub narrowed : CapabilityGrant → CapabilityUse → AuthorizedCapability
narrowed grant request = record {
  grant_id = grant.grant_id;
  service = grant.service;
  resource = grant.resource;
  operation = request.operation;
  branch = request.branch;
  credential_binding = grant.credential_binding;
  expires_at = grant.expires_at;
}

-- `authorize` returns a capability exactly if the use is permitted: the grant is one that the
-- policy allows, its time, owner, service, resource, operations and branch cover the use, and the
-- default branch is respected. The capability is then the grant narrowed to the operation and the
-- branch of the use.
pub authorize_iff :
    (policy : CapabilityPolicy) (grant : CapabilityGrant) (request : CapabilityUse) (now : Datetime)
    (cap : AuthorizedCapability)
    → (authorize policy grant request now ≡ ok cap)
      ↔ (IsPermitted policy grant request now × (narrowed grant request ≡ cap))
unfolding authorize authorized
authorize_iff policy grant request now cap = (
  λ h.
      let (t, pre, h₁) = >>=-eq-ok (preauthorize policy grant request now) _ h in
      let (pass, same) =
        >>-eq-ok (checks (write_faults t request)) (ok (authorized grant request)) h₁ in
      let (sound, scope) = (preauthorize_iff policy grant request now t).0 pre in
      (
        record {
          template = t;
          sound = sound;
          scope = scope;
          write = write_faults-IsSafeWrite t request ((checks_iff (write_faults t request)).0 pass);
        },
        cc same,
      ),
  λ (p, e). rw (
    (preauthorize_iff policy grant request now p.template).1 (p.sound, p.scope),
    (checks_iff (write_faults p.template request)).1
        (IsSafeWrite-write_faults p.template request p.write),
    e,
  ),
)
