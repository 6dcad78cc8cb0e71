-- ===== src/Secrets/Samples.antt =====
-- Tests of the model of src/forge_controller/secret_broker.py, and its theorem at a concrete registry.
use hermes_dev_team_vm.Prelude.{◌≡◌, ◌↔◌, refl, true, false, some, [], ◌∷◌, ok, err}
use hermes_dev_team_vm.Capability.{AuthorizedCapability}
use hermes_dev_team_vm.Secrets.{
  CredentialBinding, FileInfo, SecretLease, duplicate_binding, wrong_resource, lease_closed,
  same_identity, has_duplicate, read_registry, is_match, resolve, bytes_copy, close, open_lease,
}
use hermes_dev_team_vm.Secrets.Registry.{IsServed, resolve_iff}

abbrev binding : CredentialBinding
binding = record {
  binding_id = "github-app";
  service = "github";
  operations = "branch.push" ∷ [];
  credential_name = "github.pem";
  resources = "owner/repo" ∷ [];
  max_bytes = 100;
}

abbrev other : CredentialBinding
other = record binding { service = "registry" }

abbrev capability : AuthorizedCapability
capability = record {
  grant_id = "g";
  service = "github";
  resource = "owner/repo";
  operation = "branch.push";
  branch = some "feature/x";
  credential_binding = some "github-app";
  expires_at = record { instant = 5; aware = true };
}

abbrev file : FileInfo
file = record { regular = true; owner = 0; open_mode = false; size = 50 }

registry_test :
    read_registry 0 (some file) (some (other ∷ binding ∷ [])) ≡ ok (other ∷ binding ∷ [])
unfolding read_registry has_duplicate same_identity
registry_test = refl

duplicate_test : read_registry 0 (some file) (some (binding ∷ binding ∷ [])) ≡ err duplicate_binding
unfolding read_registry has_duplicate same_identity
duplicate_test = refl

resolve_test : resolve capability (other ∷ binding ∷ []) ≡ ok binding
unfolding resolve is_match
resolve_test = refl

resource_test :
    resolve (record capability { resource = "owner/other" }) (other ∷ binding ∷ [])
    ≡ err wrong_resource
unfolding resolve is_match
resource_test = refl

abbrev lease : SecretLease
lease = record { buffer = 1 ∷ 2 ∷ []; closed = false }

lease_test : open_lease (0 ∷ []) binding true (some file) (1 ∷ 2 ∷ []) ≡ ok lease
unfolding open_lease
lease_test = refl

closed_test : bytes_copy (close lease) ≡ err lease_closed
unfolding bytes_copy close
closed_test = refl

resolve_iff_example :
    (resolve capability (other ∷ binding ∷ []) ≡ ok binding)
    ↔ IsServed capability (other ∷ binding ∷ []) binding
resolve_iff_example =
    resolve_iff capability 0 (some file) (some (other ∷ binding ∷ [])) (other ∷ binding ∷ [])
      binding registry_test
