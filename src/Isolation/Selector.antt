-- ===== src/Isolation/Selector.antt =====
-- What the selector of src/forge_controller/high_isolation.py selects, and when.
use hermes_dev_team_vm.Prelude.{
  ◌≡◌, ◌↔◌, ◌⊎◌, inl, inr, refl, sym, true, false, ◌||◌, Option, none, some, [], ◌∷◌, ◌++◌, Result,
  ok, err, checks, checks_iff, >>-eq-ok, codes, text_eq, is_blank, lower, member, not-false_iff,
  or-false_iff, and-false_iff, Bool-cases, ok_unique, ◌∙◌, subst, Text,
}
use hermes_dev_team_vm.Isolation.{
  FirecrackerFault, firecracker, external_vm, HighIsolationHostFacts, FirecrackerBackendConfig,
  ExternalVmBackendConfig, HighIsolationConfig, HighIsolationPlan, is_mutable, is_absent, shown,
  plan_for, firecracker_faults, try_firecracker, try_external, or_external, select,
  external_incomplete, HighIsolationBackendKind,
}

-- The plan of a boundary: disposable, without a network, fed by a snapshot, its credentials with the
-- broker, and no metadata service.
abbrev pub isolated : HighIsolationBackendKind → Text → HighIsolationPlan
isolated kind ref = record {
  backend = kind;
  disposable = true;
  network_default = "none";
  workspace_delivery = "task_snapshot";
  credential_delivery = "broker_only";
  metadata_service = "disabled";
  backend_ref = ref;
}

-- Firecracker is configured safely, and the host can run it.
pub record IsFirecrackerReady (config : FirecrackerBackendConfig) (host : HighIsolationHostFacts)
    : Type 0 where
  pub linux : text_eq (lower (codes host.os_name)) (codes "linux") ≡ true
  pub architecture : member host.architecture ("x86_64" ∷ "aarch64" ∷ []) ≡ true
  pub kvm : (host.kvm_readable ≡ true) × (host.kvm_writable ≡ true)
  pub binary : is_absent host.firecracker_binary ≡ false
  pub jailer : config.require_jailer ≡ true → is_absent host.jailer_binary ≡ false
  pub seccomp : config.require_seccomp ≡ true
  pub kernel : is_mutable config.kernel_image ≡ false
  pub rootfs : is_mutable config.rootfs_image ≡ false

-- The external machine is configured.
pub record IsExternalReady (config : ExternalVmBackendConfig) : Type 0 where
  pub enabled : config.enabled ≡ true
  pub driver : is_blank config.driver_id ≡ false
  pub image : is_blank config.image_ref ≡ false

try_firecracker_iff :
    (config : FirecrackerBackendConfig) (host : HighIsolationHostFacts)
    → (try_firecracker config host
        ≡ ok (
            isolated firecracker
              (shown config.kernel_image ++ codes "|" ++ shown config.rootfs_image)))
      ↔ IsFirecrackerReady config host
unfolding try_firecracker plan_for
try_firecracker_iff config host = (
  λ h.
      let (pass, e) = >>-eq-ok (checks (firecracker_faults config host)) _ h in
      let p = (checks_iff (firecracker_faults config host)).0 pass in
      let kvm = (or-false_iff _ _).0 p.1.1.0 in
      record {
        linux = (not-false_iff _).0 p.0;
        architecture = (not-false_iff _).0 p.1.0;
        kvm = ((not-false_iff _).0 kvm.0, (not-false_iff _).0 kvm.1);
        binary = p.1.1.1.0;
        jailer = (and-false_iff _ _).0 p.1.1.1.1.0;
        seccomp = (not-false_iff _).0 p.1.1.1.1.1.0;
        kernel = p.1.1.1.1.1.1.0;
        rootfs = p.1.1.1.1.1.1.1.0;
      },
  λ r.
      rw
        ((checks_iff (firecracker_faults config host)).1 (
          (not-false_iff _).1 r.linux,
          (
            (not-false_iff _).1 r.architecture,
            (
              (or-false_iff _ _).1 ((not-false_iff _).1 r.kvm.0, (not-false_iff _).1 r.kvm.1),
              (
                r.binary,
                (
                  (and-false_iff _ _).1 r.jailer,
                  ((not-false_iff _).1 r.seccomp, (r.kernel, (r.rootfs, tt))),
                ),
              ),
            ),
          ),
        ))
        refl,
)

try_firecracker-plan :
    (config : FirecrackerBackendConfig) (host : HighIsolationHostFacts) (plan : HighIsolationPlan)
    → try_firecracker config host ≡ ok plan
    → isolated firecracker (shown config.kernel_image ++ codes "|" ++ shown config.rootfs_image)
      ≡ plan
unfolding try_firecracker plan_for
try_firecracker-plan config host plan h =
    let (pass, e) = >>-eq-ok (checks (firecracker_faults config host)) _ h in ok_unique refl e

try_external_iff :
    (config : ExternalVmBackendConfig) (fault : Option FirecrackerFault) (plan : HighIsolationPlan)
    → (try_external config fault ≡ ok plan) ↔ (
        IsExternalReady config
        × (isolated external_vm (shown config.driver_id ++ codes ":" ++ shown config.image_ref)
            ≡ plan))
unfolding try_external plan_for
try_external_iff config fault plan = (
  λ h. elim (Bool-cases config.enabled) [
    | inr off ↦ let k = rw off at h in cc
    | inl on ↦
        let row =
          (is_blank config.driver_id || is_blank config.image_ref, external_incomplete) ∷ [] in
        let (pass, e) = >>-eq-ok (checks row) _ (rw on at h) in
        let p = (or-false_iff _ _).0 ((checks_iff row).0 pass).0 in
        (record { enabled = on; driver = p.0; image = p.1 }, ok_unique refl e)
  ],
  λ (r, e). simp (r.enabled, r.driver, r.image, e),
)

-- Firecracker where it is enabled and ready; the external machine where it is not, and that is ready.
abbrev pub IsSelected : HighIsolationConfig → HighIsolationHostFacts → HighIsolationPlan → Type 0
IsSelected config host plan =
    ((config.firecracker_config.enabled ≡ true)
      × (IsFirecrackerReady config.firecracker_config host
          × (isolated firecracker (
                shown config.firecracker_config.kernel_image
                ++ codes "|"
                ++ shown config.firecracker_config.rootfs_image)
              ≡ plan)))
    ⊎ ((config.firecracker_config.enabled ≡ true
          → IsFirecrackerReady config.firecracker_config host
          → ⊥)
        × (IsExternalReady config.external_config
            × (isolated external_vm (
                  shown config.external_config.driver_id
                  ++ codes ":"
                  ++ shown config.external_config.image_ref)
                ≡ plan)))

-- The selector returns a plan exactly in two cases: Firecracker is enabled, and configured safely
-- on a host that can run it, and the plan is its plan; or that is not so, the external machine is
-- enabled with a driver and an image, and the plan is its plan. There is no third boundary to
-- fall back to.
pub select_iff :
    (config : HighIsolationConfig) (host : HighIsolationHostFacts) (plan : HighIsolationPlan)
    → (select config host ≡ ok plan) ↔ IsSelected config host plan
unfolding select
select_iff config host plan = elim (Bool-cases config.firecracker_config.enabled) [
  | inr off ↦
      subst (λ r. (r ≡ ok plan) ↔ IsSelected config host plan) (sym (simp off))
        (
          λ h. inr (λ on r. cc, (try_external_iff config.external_config none plan).0 h),
          λ i. elim i [
            | inl (on, u) ↦ cc
            | inr (u, e) ↦ (try_external_iff config.external_config none plan).1 e
          ],
        )
  | inl on ↦
      subst (λ r. (r ≡ ok plan) ↔ IsSelected config host plan) (sym (simp on))
        (by_attempt on (try_firecracker config.firecracker_config host) refl)
]
  where
    by_attempt :
        config.firecracker_config.enabled ≡ true
        → (r : Result FirecrackerFault HighIsolationPlan)
        → try_firecracker config.firecracker_config host ≡ r
        → (or_external config.external_config r ≡ ok plan) ↔ IsSelected config host plan
    by_attempt on (ok p) e =
        let q = try_firecracker-plan config.firecracker_config host p e in
        let ready = (try_firecracker_iff config.firecracker_config host).0 (rw (e, q)) in
        (
          λ h. inl (on, (ready, q ∙ ok_unique refl h)),
          λ i. elim i [ inl (u, (v, k)) ↦ rw (← q, k) | inr (u, v) ↦ absurd (u on ready) ],
        )
    by_attempt on (err f) e = (
      λ h. inr (
        λ u r. let k = (try_firecracker_iff config.firecracker_config host).1 r in cc,
        (try_external_iff config.external_config (some f) plan).0 h,
      ),
      λ i. elim i [
        | inl (u, (r, k)) ↦ let m = (try_firecracker_iff config.firecracker_config host).1 r in cc
        | inr (u, v) ↦ (try_external_iff config.external_config (some f) plan).1 v
      ],
    )
