-- ===== src/Capability/Envelope.antt =====
-- src/forge_controller/capability_envelope.py: grants that a worker carries, under the issuer's MAC.
-- HMAC-SHA256 with `compare_digest`, and the bytes that pydantic and `json` make of a payload, are
-- libraries': they are a parameter, with what the code relies on as laws. So is the order in which
-- Python iterates over a frozenset, which is that of one process.
pub mod Authenticity
use hermes_dev_team_vm.Prelude.{
  ℕ, ◌≤◌, ◌≡◌, ◌≢◌, ◌↔◌, ◌⊎◌, inl, inr, refl, sym, ap, ◌∙◌, String, Bool, true, false, not, Option,
  none, some, List, [], ◌∷◌, ltb, eqb, ◌==◌, eq_iff, member, lookup, length, Text, text_eq,
  text_eq_sound, text_eq_refl, Result, ok, err, Check, ◌>>=◌, ◌>>◌, checks, or_raise, arith,
}
use hermes_dev_team_vm.Capability.{CapabilityGrant}

-- `ValueError` on a short key or an empty key identifier, `CapabilityDenied` for the rest.
pub data EnvelopeError : Type 0 where
  short_key no_key_id : EnvelopeError
  unsupported_version unknown_key not_authentic grant_revoked : EnvelopeError

pub record CapabilityGrantEnvelope (Mac : Type 0) : Type 0 where
  pub version : ℕ
  pub key_id : String
  pub grant : CapabilityGrant
  pub mac_sha256 : Mac

-- _MIN_HMAC_KEY_BYTES
abbrev pub min_hmac_key_bytes : ℕ
min_hmac_key_bytes = 32

-- _validate_key
unfoldable pub validate_key : Text → Check EnvelopeError
validate_key key = checks ((ltb (length key) min_hmac_key_bytes, short_key) ∷ [])

-- The libraries as one process sees them. `dumps version key_id grant` are the bytes that
-- `model_dump` and `json.dumps` make of the three, the operations of the grant as they are listed.
pub record Signing : Type 1 where
  pub Payload : Type 0
  pub Mac : Type 0
  pub iteration : List String → List String
  pub dumps : ℕ → String → CapabilityGrant → Payload
  pub hmac : Text → Payload → Mac
  pub compare_digest : Mac → Mac → Bool
  pub compare_digest_iff : (a b : Mac) → (compare_digest a b ≡ true) ↔ (a ≡ b)

-- The same libraries in a process that iterates over sets in its own order.
abbrev pub in_process : Signing → (List String → List String) → Signing
in_process signing iteration = record signing { iteration = iteration }

module _ (signing : Signing) where
  open signing use {Payload, Mac, iteration, dumps, hmac, compare_digest}

  -- _canonical_payload: `sort_keys` leaves the order of `operations`, a frozenset
  abbrev pub canonical_payload : ℕ → String → CapabilityGrant → Payload
  canonical_payload version key_id grant =
      dumps version key_id (record grant { operations = iteration grant.operations })

  unfoldable pub seal_grant :
      CapabilityGrant → String → Text → Result EnvelopeError (CapabilityGrantEnvelope Mac)
  unfolding validate_key
  seal_grant grant key_id key = do
    validate_key key
    checks ((key_id == "", no_key_id) ∷ [])
    ok (record {
      version = 1;
      key_id = key_id;
      grant = grant;
      mac_sha256 = hmac key (canonical_payload 1 key_id grant);
    })

  -- The tests of `open_grant` under the key that the envelope names.
  abbrev pub envelope_faults :
      CapabilityGrantEnvelope Mac → Text → List String → List (Bool × EnvelopeError)
  envelope_faults envelope key revoked_grant_ids =
      let expected = hmac key (canonical_payload envelope.version envelope.key_id envelope.grant) in
      (not (compare_digest expected envelope.mac_sha256), not_authentic)
      ∷ (member envelope.grant.grant_id revoked_grant_ids, grant_revoked)
      ∷ []

  unfoldable pub open_grant :
      CapabilityGrantEnvelope Mac
      → List (String × Text)
      → List String
      → Result EnvelopeError CapabilityGrant
  open_grant envelope keyring revoked_grant_ids = do
    checks ((not (eqb envelope.version 1), unsupported_version) ∷ [])
    key ← or_raise (lookup envelope.key_id keyring) unknown_key
    validate_key key
    checks (envelope_faults envelope key revoked_grant_ids)
    ok envelope.grant
