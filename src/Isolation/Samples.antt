-- ===== src/Isolation/Samples.antt =====
-- Tests of the model of src/forge_controller/high_isolation.py, and its theorem at a concrete host.
use hermes_dev_team_vm.Prelude.{◌≡◌, ◌↔◌, refl, true, false, some, ok, codes, lower}
use hermes_dev_team_vm.Isolation.{
  HighIsolationHostFacts, HighIsolationConfig, HighIsolationPlan, firecracker, external_vm, select,
  plan_for, try_firecracker, try_external, is_mutable, immutable_ref, occurs, starts_with,
}
use hermes_dev_team_vm.Isolation.Selector.{IsSelected, select_iff}

abbrev host : HighIsolationHostFacts
host = record {
  os_name = "Linux";
  architecture = "x86_64";
  kvm_readable = true;
  kvm_writable = true;
  firecracker_binary = some "/usr/bin/firecracker";
  jailer_binary = some "/usr/bin/jailer";
}

abbrev config : HighIsolationConfig
config = record {
  firecracker_config = record {
    enabled = true;
    require_jailer = true;
    require_seccomp = true;
    kernel_image = some "k@sha256:1";
    rootfs_image = some "SHA256-2";
  };
  external_config = record { enabled = true; driver_id = some "d"; image_ref = some "i" };
  allow_normal_profile_fallback = false;
}

abbrev chosen : HighIsolationPlan
chosen = plan_for firecracker (codes "k@sha256:1|SHA256-2")

select_test : select config host ≡ ok chosen
unfolding select try_firecracker is_mutable immutable_ref occurs starts_with lower
select_test = refl

-- Without /dev/kvm the external machine is taken.
external_test :
    select config (record host { kvm_writable = false }) ≡ ok (plan_for external_vm (codes "d:i"))
unfolding select try_firecracker try_external lower
external_test = refl

select_iff_example : (select config host ≡ ok chosen) ↔ IsSelected config host chosen
select_iff_example = select_iff config host chosen
