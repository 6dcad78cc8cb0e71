-- ===== src/Capability/Scope.antt =====
-- What an authorization by src/forge_controller/capabilities.py means: the facts that it implies,
-- and that they are enough.
use hermes_dev_team_vm.Prelude.{
  ◌-◌, ◌≤◌, ◌<◌, ◌≡◌, ◌≢◌, ◌↔◌, true, false, some, [], member, subset, lookup, is_blank, is_empty,
  option_eq, ◌||◌, AllPass, ok, >>=-eq-ok, >>-eq-ok, checks, subst, or_raise-eq-ok, checks_iff,
  Datetime, minutes, leb-false_iff, ltb-false_iff, not-false_iff, not, ◌∷◌, or-false_iff,
  and-false_iff, text_differs-false_iff, text_eq-false_iff, option_differs-false_iff,
}
use hermes_dev_team_vm.Capability.{
  policy_error, naive_datetime, CapabilityTemplate, CapabilityPolicy, CapabilityGrant,
  CapabilityUse, template_of, aware, ttl_limit, grant_faults, validate_grant, scope_faults,
  preauthorize,
}

pub aware_iff : (value : Datetime) → (aware value ≡ ok tt) ↔ (value.aware ≡ true)
unfolding aware
aware_iff value = (
  λ h.
      let p = (checks_iff ((not value.aware, policy_error naive_datetime) ∷ [])).0 h in
      (not-false_iff value.aware).0 p.0,
  λ h. rw h,
)

-- The policy allows the grant, under the template `t`.
pub record IsSound (policy : CapabilityPolicy) (t : CapabilityTemplate) (grant : CapabilityGrant)
    : Type 0 where
  pub template : lookup grant.template policy.templates ≡ some t
  pub issued_aware : grant.issued_at.aware ≡ true
  pub expires_aware : grant.expires_at.aware ≡ true
  pub ordered : grant.issued_at.instant < grant.expires_at.instant
  pub lifetime : grant.expires_at.instant - grant.issued_at.instant ≤ minutes (ttl_limit policy t)
  pub service : grant.service ≡ t.service
  pub operations : subset grant.operations t.operations ≡ true
  pub some_operation : is_empty grant.operations ≡ false
  pub resource : t.resource_scope_required ≡ true → (grant.resource ≢ "")
  pub branch : t.branch_scope_required ≡ true → is_blank grant.branch ≡ false
  pub binding : grant.credential_binding ≡ t.credential_binding
  pub exposure : t.credential_exposure ≡ "never"

module _ (policy : CapabilityPolicy) (grant : CapabilityGrant) where
  pub validate_grant-IsSound :
      validate_grant policy grant ≡ ok tt → (t : CapabilityTemplate) × IsSound policy t grant
  unfolding validate_grant template_of
  validate_grant-IsSound h =
      let (t, found, h₁) = >>=-eq-ok (template_of policy grant.template) _ h in
      let (_, issued, h₂) = >>=-eq-ok (aware grant.issued_at) _ h₁ in
      let (_, expires, h₃) = >>=-eq-ok (aware grant.expires_at) _ h₂ in
      let p = (checks_iff (grant_faults policy t grant)).0 h₃ in
      (
        t,
        record {
          template = or_raise-eq-ok _ _ found;
          issued_aware = (aware_iff _).0 issued;
          expires_aware = (aware_iff _).0 expires;
          ordered = (leb-false_iff _ _).0 p.0;
          lifetime = (ltb-false_iff _ _).0 p.1.0;
          service = (text_differs-false_iff _ _).0 p.1.1.0;
          operations = (not-false_iff _).0 p.1.1.1.0;
          some_operation = p.1.1.1.1.0;
          resource = λ r. (text_eq-false_iff _ _).0 ((and-false_iff _ _).0 p.1.1.1.1.1.0 r);
          branch = (and-false_iff _ _).0 p.1.1.1.1.1.1.0;
          binding = (option_differs-false_iff _ _).0 p.1.1.1.1.1.1.1.0;
          exposure = (text_differs-false_iff _ _).0 p.1.1.1.1.1.1.1.1.0;
        },
      )

  pub IsSound-validate_grant :
      (t : CapabilityTemplate) → IsSound policy t grant → validate_grant policy grant ≡ ok tt
  unfolding validate_grant template_of
  IsSound-validate_grant t s =
      rw
        (
          s.template,
          (aware_iff grant.issued_at).1 s.issued_aware,
          (aware_iff grant.expires_at).1 s.expires_aware,
        )
        ((checks_iff (grant_faults policy t grant)).1 (
          (leb-false_iff _ _).1 s.ordered,
          (
            (ltb-false_iff _ _).1 s.lifetime,
            (
              (text_differs-false_iff _ _).1 s.service,
              (
                (not-false_iff _).1 s.operations,
                (
                  s.some_operation,
                  (
                    (and-false_iff _ _).1 (λ r. (text_eq-false_iff _ _).1 (s.resource r)),
                    (
                      (and-false_iff _ _).1 s.branch,
                      (
                        (option_differs-false_iff _ _).1 s.binding,
                        ((text_differs-false_iff _ _).1 s.exposure, tt),
                      ),
                    ),
                  ),
                ),
              ),
            ),
          ),
        ))

-- The use lies in the grant's scope at the time `now`.
pub record IsInScope (t : CapabilityTemplate) (grant : CapabilityGrant) (request : CapabilityUse)
    (now : Datetime) : Type 0 where
  pub now_aware : now.aware ≡ true
  pub not_revoked : grant.revoked ≡ false
  pub active : grant.issued_at.instant ≤ now.instant
  pub not_expired : now.instant < grant.expires_at.instant
  pub project : grant.project_id ≡ request.project_id
  pub task : grant.task_id ≡ request.task_id
  pub subject : grant.subject_id ≡ request.subject_id
  pub service : grant.service ≡ request.service
  pub resource : grant.resource ≡ request.resource
  pub granted : member request.operation grant.operations ≡ true
  pub in_template : member request.operation t.operations ≡ true
  pub branch :
      t.branch_scope_required ≡ true
      → (is_blank grant.branch ≡ false)
        × (is_blank request.branch ≡ false)
        × (grant.branch ≡ request.branch)

module _ (t : CapabilityTemplate) (grant : CapabilityGrant) (request : CapabilityUse)
    (now : Datetime) where
  branch_test_iff :
      ((is_blank grant.branch
          || (is_blank request.branch || not (option_eq grant.branch request.branch)))
        ≡ false)
      ↔ ((is_blank grant.branch ≡ false)
          × (is_blank request.branch ≡ false)
          × (grant.branch ≡ request.branch))
  branch_test_iff = (
    λ h.
        let p = (or-false_iff (is_blank grant.branch) _).0 h in
        let q = (or-false_iff (is_blank request.branch) _).0 p.1 in
        (p.0, q.0, (option_differs-false_iff _ _).0 q.1),
    λ f.
        (or-false_iff _ _).1
          (f.0, (or-false_iff _ _).1 (f.1, (option_differs-false_iff _ _).1 f.2)),
  )

  pub scope_faults-IsInScope :
      now.aware ≡ true → AllPass (scope_faults t grant request now) → IsInScope t grant request now
  scope_faults-IsInScope aware_now p =
      let ops =
        (or-false_iff (not (member request.operation grant.operations)) _).0 p.1.1.1.1.1.1.1.1.0 in
      record {
        now_aware = aware_now;
        not_revoked = p.0;
        active = (ltb-false_iff _ _).0 p.1.0;
        not_expired = (leb-false_iff _ _).0 p.1.1.0;
        project = (text_differs-false_iff _ _).0 p.1.1.1.0;
        task = (text_differs-false_iff _ _).0 p.1.1.1.1.0;
        subject = (text_differs-false_iff _ _).0 p.1.1.1.1.1.0;
        service = (text_differs-false_iff _ _).0 p.1.1.1.1.1.1.0;
        resource = (text_differs-false_iff _ _).0 p.1.1.1.1.1.1.1.0;
        granted = (not-false_iff _).0 ops.0;
        in_template = (not-false_iff _).0 ops.1;
        branch = λ r. branch_test_iff.0 ((and-false_iff _ _).0 p.1.1.1.1.1.1.1.1.1.0 r);
      }

  pub IsInScope-scope_faults :
      IsInScope t grant request now → AllPass (scope_faults t grant request now)
  IsInScope-scope_faults s = (
    s.not_revoked,
    (
      (ltb-false_iff _ _).1 s.active,
      (
        (leb-false_iff _ _).1 s.not_expired,
        (
          (text_differs-false_iff _ _).1 s.project,
          (
            (text_differs-false_iff _ _).1 s.task,
            (
              (text_differs-false_iff _ _).1 s.subject,
              (
                (text_differs-false_iff _ _).1 s.service,
                (
                  (text_differs-false_iff _ _).1 s.resource,
                  (
                    (or-false_iff _ _).1
                        ((not-false_iff _).1 s.granted, (not-false_iff _).1 s.in_template),
                    ((and-false_iff _ _).1 (λ r. branch_test_iff.1 (s.branch r)), tt),
                  ),
                ),
              ),
            ),
          ),
        ),
      ),
    ),
  )

module _ (policy : CapabilityPolicy) (grant : CapabilityGrant) (request : CapabilityUse)
    (now : Datetime) where
  -- `preauthorize` returns a template exactly if the grant is one that the policy allows under
  -- that template, and the use lies in its scope.
  pub preauthorize_iff :
      (t : CapabilityTemplate)
      → (preauthorize policy grant request now ≡ ok t)
        ↔ (IsSound policy t grant × IsInScope t grant request now)
  unfolding preauthorize template_of
  preauthorize_iff t = (
    λ h.
        let (valid, h₁) = >>-eq-ok (validate_grant policy grant) _ h in
        let (t', found, h₂) = >>=-eq-ok (template_of policy grant.template) _ h₁ in
        let (aware_now, h₃) = >>-eq-ok (aware now) _ h₂ in
        let (pass, same) = >>-eq-ok (checks (scope_faults t' grant request now)) (ok t') h₃ in
        let (t'', sound) = validate_grant-IsSound policy grant valid in
        let e : t' ≡ t = cc in
        let e' : t'' ≡ t = cc (sound.template, or_raise-eq-ok _ _ found) in
        (
          subst (λ v. IsSound policy v grant) e' sound,
          subst (λ v. IsInScope v grant request now) e
              (scope_faults-IsInScope t' grant request now ((aware_iff now).0 aware_now)
                ((checks_iff (scope_faults t' grant request now)).0 pass)),
        ),
    λ (sound, scope). rw (
      IsSound-validate_grant policy grant t sound,
      sound.template,
      (aware_iff now).1 scope.now_aware,
      (checks_iff (scope_faults t grant request now)).1
          (IsInScope-scope_faults t grant request now scope),
    ),
  )
