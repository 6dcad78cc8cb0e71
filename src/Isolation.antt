-- ===== src/Isolation.antt =====
-- src/forge_controller/high_isolation.py: the selection of a stronger boundary.
pub mod Selector
mod Samples
use hermes_dev_team_vm.Prelude.{
  String, Bool, true, false, not, ◌&&◌, ◌||◌, Option, none, some, List, [], ◌∷◌, ◌++◌, Result, ok,
  err, ◌>>=◌, ◌>>◌, checks, Check, Text, codes, text_eq, is_blank, lower, member, if◌then◌else◌,
}

pub data FirecrackerFault : Type 0 where
  not_linux unsupported_architecture no_kvm no_binary no_jailer no_seccomp mutable_kernel
        mutable_rootfs :
      FirecrackerFault

-- `HighIsolationPolicyError`, by message; `unavailable` carries the detail.
pub data HighIsolationPolicyError : Type 0 where
  fallback_forbidden external_incomplete : HighIsolationPolicyError
  unavailable : Option FirecrackerFault → HighIsolationPolicyError

pub data HighIsolationBackendKind : Type 0 where
  firecracker external_vm : HighIsolationBackendKind

-- The binaries are absolute paths, by the validator.
pub record HighIsolationHostFacts : Type 0 where
  pub os_name : String
  pub architecture : String
  pub kvm_readable : Bool
  pub kvm_writable : Bool
  pub firecracker_binary : Option String
  pub jailer_binary : Option String

pub record FirecrackerBackendConfig : Type 0 where
  pub enabled : Bool
  pub require_jailer : Bool
  pub require_seccomp : Bool
  pub kernel_image : Option String
  pub rootfs_image : Option String

pub record ExternalVmBackendConfig : Type 0 where
  pub enabled : Bool
  pub driver_id : Option String
  pub image_ref : Option String

pub record HighIsolationConfig : Type 0 where
  pub firecracker_config : FirecrackerBackendConfig
  pub external_config : ExternalVmBackendConfig
  pub allow_normal_profile_fallback : Bool

pub record HighIsolationPlan : Type 0 where
  pub backend : HighIsolationBackendKind
  pub disposable : Bool
  pub network_default : String
  pub workspace_delivery : String
  pub credential_delivery : String
  pub metadata_service : String
  pub backend_ref : Text

-- text.startswith(prefix)
unfoldable pub starts_with : Text → Text → Bool
starts_with [] s = true
starts_with (c ∷ prefix) [] = false
starts_with (c ∷ prefix) (d ∷ s) = text_eq (c ∷ []) (d ∷ []) && starts_with prefix s

-- sub in text
unfoldable pub occurs : Text → Text → Bool
occurs sub [] = starts_with sub []
occurs sub (c ∷ s) = starts_with sub (c ∷ s) || occurs sub s

-- _immutable_ref
unfoldable pub immutable_ref : String → Bool
immutable_ref value =
    let lowered = lower (codes value) in
    occurs (codes "sha256:") lowered || starts_with (codes "sha256-") lowered

-- not image or not _immutable_ref(image)
unfoldable pub is_mutable : Option String → Bool
is_mutable none = true
is_mutable (some image) = is_blank (some image) || not (immutable_ref image)

abbrev pub is_absent : Option String → Bool
is_absent none = true
is_absent (some path) = false

-- A formatted optional text.
abbrev pub shown : Option String → Text
shown none = codes "None"
shown (some value) = codes value

-- HighIsolationSelector.__init__: what `self.config` is.
unfoldable pub new_selector :
    HighIsolationConfig → Result HighIsolationPolicyError HighIsolationConfig
new_selector config = do
  checks ((config.allow_normal_profile_fallback, fallback_forbidden) ∷ [])
  ok config

unfoldable pub plan_for : HighIsolationBackendKind → Text → HighIsolationPlan
plan_for kind ref = record {
  backend = kind;
  disposable = true;
  network_default = "none";
  workspace_delivery = "task_snapshot";
  credential_delivery = "broker_only";
  metadata_service = "disabled";
  backend_ref = ref;
}

abbrev pub firecracker_faults :
    FirecrackerBackendConfig → HighIsolationHostFacts → List (Bool × FirecrackerFault)
firecracker_faults config host =
    (not (text_eq (lower (codes host.os_name)) (codes "linux")), not_linux)
    ∷ (not (member host.architecture ("x86_64" ∷ "aarch64" ∷ [])), unsupported_architecture)
    ∷ (not host.kvm_readable || not host.kvm_writable, no_kvm)
    ∷ (is_absent host.firecracker_binary, no_binary)
    ∷ (config.require_jailer && is_absent host.jailer_binary, no_jailer)
    ∷ (not config.require_seccomp, no_seccomp)
    ∷ (is_mutable config.kernel_image, mutable_kernel)
    ∷ (is_mutable config.rootfs_image, mutable_rootfs)
    ∷ []

-- _firecracker
unfoldable pub try_firecracker :
    FirecrackerBackendConfig → HighIsolationHostFacts → Result FirecrackerFault HighIsolationPlan
try_firecracker config host = do
  checks (firecracker_faults config host)
  ok (plan_for firecracker (shown config.kernel_image ++ codes "|" ++ shown config.rootfs_image))

unfoldable pub try_external :
    ExternalVmBackendConfig
    → Option FirecrackerFault
    → Result HighIsolationPolicyError HighIsolationPlan
try_external external fault =
    let incomplete = is_blank external.driver_id || is_blank external.image_ref in
    let plan =
      plan_for external_vm (shown external.driver_id ++ codes ":" ++ shown external.image_ref) in
    let here = checks ((incomplete, external_incomplete) ∷ []) >> ok plan in
    if external.enabled then here else err (unavailable fault)

-- except HighIsolationPolicyError
abbrev pub or_external :
    ExternalVmBackendConfig
    → Result FirecrackerFault HighIsolationPlan
    → Result HighIsolationPolicyError HighIsolationPlan
or_external external (ok plan) = ok plan
or_external external (err fault) = try_external external (some fault)

unfoldable pub select :
    HighIsolationConfig → HighIsolationHostFacts → Result HighIsolationPolicyError HighIsolationPlan
select config host =
    let first =
      or_external config.external_config (try_firecracker config.firecracker_config host) in
    let second = try_external config.external_config none in
    if config.firecracker_config.enabled then first else second
