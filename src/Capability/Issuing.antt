-- ===== src/Capability/Issuing.antt =====
-- What `issue_grant` of src/forge_controller/capabilities.py hands out.
use hermes_dev_team_vm.Prelude.{
  ℕ, ◌+◌, ◌≤◌, ◌<◌, ◌≡◌, ◌↔◌, refl, true, false, not, String, some, lookup, arith, ok, >>=-eq-ok,
  >>-eq-ok, or_raise-eq-ok, checks, checks_iff, ◌∷◌, [], Datetime, minutes, pos_part, not-false_iff,
  or-false_iff, ltb-false_iff, eqb, subst, ap, sym, some_unique,
}
use hermes_dev_team_vm.Capability.{
  CapabilityTemplate, CapabilityPolicy, CapabilityGrant, CapabilityUse, GrantRequest,
  validation_error, template_of, aware, ttl_limit, is_well_formed, validate_grant, new_grant,
  ttl_faults, issue_grant, authorize,
}
use hermes_dev_team_vm.Capability.Scope.{
  IsSound, IsInScope, aware_iff, validate_grant-IsSound, IsSound-validate_grant,
}
use hermes_dev_team_vm.Capability.Permission.{IsSafeWrite, authorize_iff, narrowed}

pub record IsIssued (policy : CapabilityPolicy) (request : GrantRequest) (new_id : String)
    (now : Datetime) (t : CapabilityTemplate) : Type 0 where
  pub template : lookup request.template policy.templates ≡ some t
  pub now_aware : now.aware ≡ true
  pub positive : 0 < pos_part request.ttl_minutes
  pub within : pos_part request.ttl_minutes ≤ ttl_limit policy t
  pub well_formed : is_well_formed (new_grant t request new_id now) ≡ true
  pub sound : IsSound policy t (new_grant t request new_id now)

eqb-zero : (n : ℕ) → eqb n 0 ≡ false → 0 < n
eqb-zero n h = ground arith

eqb-pos : (n : ℕ) → 0 < n → eqb n 0 ≡ false
eqb-pos n h = ground arith

module _ (policy : CapabilityPolicy) (request : GrantRequest) (new_id : String)
    (now : Datetime) where
  new_grant_template :
      (t : CapabilityTemplate) {t' : CapabilityTemplate}
      → IsSound policy t' (new_grant t request new_id now)
      → lookup request.template policy.templates ≡ some t'
  unfolding new_grant
  new_grant_template t sound = sound.template

  -- A grant is issued exactly if the time is aware of its zone, the template exists, the lifetime is
  -- positive and at most the policy's limit, the fields are well formed and the policy allows the
  -- grant; and the grant is then the one built from the template and the request.
  pub issue_grant_iff :
      (grant : CapabilityGrant)
      → (issue_grant policy request new_id now ≡ ok grant) ↔ (
          (t : CapabilityTemplate) × IsIssued policy request new_id now t
          × (new_grant t request new_id now ≡ grant))
  unfolding issue_grant template_of
  issue_grant_iff grant = (
    λ h.
        let (aware_now, h₁) = >>-eq-ok (aware now) _ h in
        let (t, found, h₂) = >>=-eq-ok (template_of policy request.template) _ h₁ in
        let g = new_grant t request new_id now in
        let (ttl, h₃) = >>-eq-ok (checks (ttl_faults policy t request)) _ h₂ in
        let (formed, h₄) =
          >>-eq-ok (checks ((not (is_well_formed g), validation_error) ∷ [])) _ h₃ in
        let (valid, same) = >>-eq-ok (validate_grant policy g) (ok g) h₄ in
        let limits =
          (or-false_iff (eqb (pos_part request.ttl_minutes) 0) _).0
            ((checks_iff (ttl_faults policy t request)).0 ttl).0 in
        let (t', sound) = validate_grant-IsSound policy g valid in
        let e : t' ≡ t = some_unique (new_grant_template t sound) (or_raise-eq-ok _ _ found) in
        (
          t,
          record {
            template = or_raise-eq-ok _ _ found;
            now_aware = (aware_iff now).0 aware_now;
            positive = eqb-zero (pos_part request.ttl_minutes) limits.0;
            within = (ltb-false_iff _ _).0 limits.1;
            well_formed =
                (not-false_iff _).0
                  ((checks_iff ((not (is_well_formed g), validation_error) ∷ [])).0 formed).0;
            sound = subst (λ v. IsSound policy v g) e sound;
          },
          cc same,
        ),
    λ (t, s, e). rw (
      (aware_iff now).1 s.now_aware,
      s.template,
      (checks_iff (ttl_faults policy t request)).1
          ((or-false_iff _ _).1 (eqb-pos _ s.positive, (ltb-false_iff _ _).1 s.within), tt),
      s.well_formed,
      IsSound-validate_grant policy _ t s.sound,
      e,
    ),
  )

  -- A grant that `issue_grant` returns is of the template that the request names, with its
  -- service and credential binding, is not revoked, is issued now, and expires the requested
  -- minutes later, at most the maximum of the policy.
  pub issue_grant-bounds :
      (grant : CapabilityGrant)
      → issue_grant policy request new_id now ≡ ok grant
      → (t : CapabilityTemplate) × (lookup request.template policy.templates ≡ some t)
        × (grant.issued_at ≡ now)
        × (grant.expires_at.instant ≡ now.instant + minutes (pos_part request.ttl_minutes))
        × (grant.expires_at.instant ≤ now.instant + minutes policy.max_ttl_minutes)
        × (grant.service ≡ t.service)
        × (grant.credential_binding ≡ t.credential_binding)
        × (grant.revoked ≡ false)
  unfolding new_grant ttl_limit
  issue_grant-bounds grant h =
      let (t, s, e) = (issue_grant_iff grant).0 h in
      (
        t,
        s.template,
        ap (λ g. g.issued_at) (sym e),
        ap (λ g. g.expires_at.instant) (sym e),
        rw (ap (λ g. g.expires_at.instant) (sym e)) (ttl_bound s),
        ap (λ g. g.service) (sym e),
        ap (λ g. g.credential_binding) (sym e),
        ap (λ g. g.revoked) (sym e),
      )
    where
      ttl_bound :
          {t : CapabilityTemplate}
          → IsIssued policy request new_id now t
          → now.instant + minutes (pos_part request.ttl_minutes)
            ≤ now.instant + minutes policy.max_ttl_minutes
      ttl_bound s = let w = s.within in omega arith

  -- What `issue_grant` issues, `authorize` accepts: for a use within the scope of the grant, that
  -- respects the default branch as the template asks, it returns the capability narrowed to the
  -- use.
  pub authorize-issue_grant :
      (grant : CapabilityGrant) (t : CapabilityTemplate) (request' : CapabilityUse)
      (later : Datetime)
      → issue_grant policy request new_id now ≡ ok grant
      → lookup request.template policy.templates ≡ some t
      → IsInScope t grant request' later
      → IsSafeWrite t request'
      → authorize policy grant request' later ≡ ok (narrowed grant request')
  unfolding new_grant
  authorize-issue_grant grant t request' later h found scope write =
      let (t', s, e) = (issue_grant_iff grant).0 h in
      let same : t' ≡ t = some_unique s.template found in
      (authorize_iff policy grant request' later _).1 (
        record {
          template = t;
          sound = subst (λ v. IsSound policy v grant) same (subst (IsSound policy t') e s.sound);
          scope = scope;
          write = write;
        },
        refl,
      )
