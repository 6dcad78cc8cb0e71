-- ===== src/Secrets.antt =====
-- src/forge_controller/secret_broker.py: from an authorized capability to a secret, and the lease of it.
pub mod Registry
pub mod Leases
mod Samples
use hermes_dev_team_vm.Prelude.{
  ℕ, String, Bool, true, false, not, ◌&&◌, ◌||◌, Option, none, some, List, [], ◌∷◌, map, any, keep,
  member, is_empty, is_blank, option_eq, eqb, ltb, length, ◌==◌, if◌then◌else◌, Result, Check, ok,
  err, ◌>>=◌, ◌>>◌, checks, or_raise, ◌*◌,
}
use hermes_dev_team_vm.Capability.{AuthorizedCapability}

-- `SecretAccessDenied` by message, and the plain `SecretBrokerError`.
pub data SecretBrokerError : Type 0 where
  no_binding not_unique wrong_operation wrong_resource outside_directory : SecretBrokerError
  missing not_regular wrong_owner open_to_others too_large : SecretBrokerError
  invalid_registry duplicate_binding empty_credential lease_closed : SecretBrokerError

pub record CredentialBinding : Type 0 where
  pub binding_id : String
  pub service : String
  pub operations : List String
  pub credential_name : String
  pub resources : List String
  pub max_bytes : ℕ

-- What `stat` tells of a file. `open_mode` is the test of its mode bits.
pub record FileInfo : Type 0 where
  pub regular : Bool
  pub owner : ℕ
  pub open_mode : Bool
  pub size : ℕ

abbrev pub max_bindings_file_bytes : ℕ
max_bindings_file_bytes = 1024 * 1024

unfoldable pub same_identity : CredentialBinding → CredentialBinding → Bool
same_identity a b = a.binding_id == b.binding_id && a.service == b.service

-- len(identities) != len(set(identities))
unfoldable pub has_duplicate : List CredentialBinding → Bool
has_duplicate [] = false
has_duplicate (binding ∷ bindings) = any (same_identity binding) bindings || has_duplicate bindings

abbrev pub file_faults : ℕ → FileInfo → List (Bool × SecretBrokerError)
file_faults required_owner info =
    (not info.regular, not_regular)
    ∷ (not (eqb info.owner required_owner), wrong_owner)
    ∷ (info.open_mode, open_to_others)
    ∷ (ltb max_bindings_file_bytes info.size, too_large)
    ∷ []

-- CredentialBindingRegistry._read. `parsed` are the bindings of the file, if it is valid YAML of the
-- known version with a list of valid bindings.
unfoldable pub read_registry :
    ℕ
    → Option FileInfo
    → Option (List CredentialBinding)
    → Result SecretBrokerError (List CredentialBinding)
read_registry required_owner info parsed = do
  info ← or_raise info missing
  checks (file_faults required_owner info)
  bindings ← or_raise parsed invalid_registry
  checks ((has_duplicate bindings, duplicate_binding) ∷ [])
  ok bindings

-- The bindings of the capability's binding and service.
unfoldable pub is_match : AuthorizedCapability → CredentialBinding → Bool
is_match capability binding =
    option_eq (some binding.binding_id) capability.credential_binding
    && binding.service == capability.service

abbrev pub only_one : List CredentialBinding → Result SecretBrokerError CredentialBinding
only_one [] = err not_unique
only_one (binding ∷ []) = ok binding
only_one (binding ∷ other ∷ rest) = err not_unique

abbrev pub binding_faults :
    AuthorizedCapability → CredentialBinding → List (Bool × SecretBrokerError)
binding_faults capability binding =
    (not (member capability.operation binding.operations), wrong_operation)
    ∷ (
      not (is_empty binding.resources) && not (member capability.resource binding.resources),
      wrong_resource,
    )
    ∷ []

-- CredentialBindingRegistry.resolve, on what `_read` returns
unfoldable pub resolve :
    AuthorizedCapability → List CredentialBinding → Result SecretBrokerError CredentialBinding
resolve capability bindings = do
  checks ((is_blank capability.credential_binding, no_binding) ∷ [])
  binding ← only_one (keep (is_match capability) bindings)
  checks (binding_faults capability binding)
  ok binding

pub record SecretLease : Type 0 where
  pub buffer : List ℕ
  pub closed : Bool

unfoldable pub bytes_copy : SecretLease → Result SecretBrokerError (List ℕ)
bytes_copy lease = do checks ((lease.closed, lease_closed) ∷ []); ok lease.buffer

unfoldable pub close : SecretLease → SecretLease
close lease =
    if lease.closed then lease else record { buffer = map (λ _. 0) lease.buffer; closed = true }

-- SystemdCredentialSecretBroker.lease behind `resolve`: `inside` tells whether the resolved path is in the
-- directory of the credentials, `info` and `value` what the file system has there.
unfoldable pub open_lease :
    List ℕ
    → CredentialBinding
    → Bool
    → Option FileInfo
    → List ℕ
    → Result SecretBrokerError SecretLease
open_lease allowed_owners binding inside info value = do
  checks ((not inside, outside_directory) ∷ [])
  info ← or_raise info missing
  checks (
      (not info.regular, not_regular)
      ∷ (not (any (λ uid. eqb uid info.owner) allowed_owners), wrong_owner)
      ∷ (info.open_mode, open_to_others)
      ∷ (ltb binding.max_bytes info.size, too_large)
      ∷ (is_empty value, empty_credential)
      ∷ [])
  ok (record { buffer = value; closed = false })
