-- ===== src/Capability/Envelope/Authenticity.antt =====
-- What opening an envelope of src/forge_controller/capability_envelope.py guarantees.
use hermes_dev_team_vm.Prelude.{
  ℕ, ◌≤◌, ◌≡◌, ◌↔◌, sym, ap, ◌∙◌, String, true, false, not, some, List, [], ◌∷◌, eqb, ltb, member,
  lookup, length, Text, ok, >>=-eq-ok, >>-eq-ok, or_raise-eq-ok, checks, checks_iff, not-false_iff,
  ltb-false_iff, arith, some_unique, ◌==◌, refl,
}
use hermes_dev_team_vm.Capability.{CapabilityGrant}
use hermes_dev_team_vm.Capability.Envelope.{
  unsupported_version, CapabilityGrantEnvelope, min_hmac_key_bytes, short_key, validate_key,
  Signing, canonical_payload, in_process, no_key_id, seal_grant, envelope_faults, open_grant,
}

pub validate_key_iff : (key : Text) → (validate_key key ≡ ok tt) ↔ (min_hmac_key_bytes ≤ length key)
unfolding validate_key
validate_key_iff key = (
  λ h.
      (ltb-false_iff _ _).0
        ((checks_iff ((ltb (length key) min_hmac_key_bytes, short_key) ∷ [])).0 h).0,
  λ h.
      (checks_iff ((ltb (length key) min_hmac_key_bytes, short_key) ∷ [])).1
        ((ltb-false_iff _ _).1 h, tt),
)

eqb_iff : (a b : ℕ) → (eqb a b ≡ true) ↔ (a ≡ b)
eqb_iff a b = ground arith

module _ (signing : Signing) where
  open signing use {Mac, hmac, compare_digest_iff}

  -- The envelope carries the MAC of its grant under a key of the ring, and is not revoked.
  pub record IsAuthentic (envelope : CapabilityGrantEnvelope Mac) (keyring : List (String × Text))
      (revoked : List String) : Type 0 where
    pub key : Text
    pub version : envelope.version ≡ 1
    pub known : lookup envelope.key_id keyring ≡ some key
    pub long : min_hmac_key_bytes ≤ length key
    pub mac :
        hmac key (canonical_payload signing 1 envelope.key_id envelope.grant) ≡ envelope.mac_sha256
    pub live : member envelope.grant.grant_id revoked ≡ false

  module _ (envelope : CapabilityGrantEnvelope Mac) (keyring : List (String × Text))
      (revoked : List String) where
    -- `open_grant` returns a grant exactly for an authentic envelope: its version is 1, its key
    -- is in the keyring and long enough, its signature is the MAC of the payload under that key,
    -- and the grant is not revoked. The grant is then the one in the envelope.
    pub open_grant_iff :
        (grant : CapabilityGrant)
        → (open_grant signing envelope keyring revoked ≡ ok grant)
          ↔ (IsAuthentic envelope keyring revoked × (envelope.grant ≡ grant))
    unfolding open_grant
    open_grant_iff grant = (
      λ h.
          let (v, h₁) =
            >>-eq-ok (checks ((not (eqb envelope.version 1), unsupported_version) ∷ [])) _ h in
          let (key, found, h₂) = >>=-eq-ok _ _ h₁ in
          let (long, h₃) = >>-eq-ok (validate_key key) _ h₂ in
          let (pass, same) =
            >>-eq-ok (checks (envelope_faults signing envelope key revoked)) (ok envelope.grant)
              h₃ in
          let one = (eqb_iff _ _).0 (
            (not-false_iff _).0
              ((checks_iff ((not (eqb envelope.version 1), unsupported_version) ∷ [])).0 v).0) in
          let p = (checks_iff (envelope_faults signing envelope key revoked)).0 pass in
          (
            record {
              key = key;
              version = one;
              known = or_raise-eq-ok _ _ found;
              long = (validate_key_iff key).0 long;
              mac =
                  ap (λ n. hmac key (canonical_payload signing n envelope.key_id envelope.grant))
                    (sym one)
                  ∙ (compare_digest_iff _ _).0 ((not-false_iff _).0 p.0);
              live = p.1.0;
            },
            cc same,
          ),
      λ (a, e).
          let row = (checks_iff (envelope_faults signing envelope a.key revoked)).1 (
            (not-false_iff _).1 (
                (compare_digest_iff _ _).1 (
                  ap (λ n. hmac a.key (canonical_payload signing n envelope.key_id envelope.grant))
                    a.version
                  ∙ a.mac)),
            (a.live, tt),
          ) in
          rw (a.known, (validate_key_iff a.key).1 a.long, row, a.version, e),
    )

  seal_grant-eq-ok :
      (grant : CapabilityGrant) (key_id : String) (key : Text)
      (envelope : CapabilityGrantEnvelope Mac)
      → seal_grant signing grant key_id key ≡ ok envelope
      → (min_hmac_key_bytes ≤ length key)
        × (envelope.version ≡ 1)
        × (envelope.key_id ≡ key_id)
        × (envelope.grant ≡ grant)
        × (envelope.mac_sha256 ≡ hmac key (canonical_payload signing 1 key_id grant))
  unfolding seal_grant
  seal_grant-eq-ok grant key_id key envelope h =
      let (long, h₁) = >>-eq-ok (validate_key key) _ h in
      let (named, same) = >>-eq-ok (checks ((key_id == "", no_key_id) ∷ [])) _ h₁ in
      ((validate_key_iff key).0 long, cc same, cc same, cc same, cc same)

  -- If `open_grant` accepts an envelope that names the key and bears the signature of a sealed
  -- one, it returns the grant that was sealed, whatever else of the envelope was changed;
  -- different payloads are taken to have different MACs under a key, and different grants
  -- different payloads.
  pub open_grant-tamper_proof :
      ((key : Text) (p q : signing.Payload) → hmac key p ≡ hmac key q → p ≡ q)
      → ((key_id : String) (g h : CapabilityGrant)
          → canonical_payload signing 1 key_id g ≡ canonical_payload signing 1 key_id h
          → g ≡ h)
      → (grant other : CapabilityGrant) (key_id : String) (key : Text)
        (sealed_envelope envelope : CapabilityGrantEnvelope Mac) (keyring : List (String × Text))
        (revoked : List String)
      → seal_grant signing grant key_id key ≡ ok sealed_envelope
      → lookup key_id keyring ≡ some key
      → envelope.key_id ≡ key_id
      → envelope.mac_sha256 ≡ sealed_envelope.mac_sha256
      → open_grant signing envelope keyring revoked ≡ ok other
      → other ≡ grant
  open_grant-tamper_proof hmac_free payload_free grant other key_id key sealed_envelope envelope
        keyring revoked sealed known same_key same_mac opened =
      let (long, v, k, g, m) = seal_grant-eq-ok grant key_id key sealed_envelope sealed in
      let (a, same) = (open_grant_iff envelope keyring revoked other).0 opened in
      let key_same : a.key ≡ key = some_unique a.known (rw same_key known) in
      let macs : hmac key (canonical_payload signing 1 key_id envelope.grant)
          ≡ hmac key (canonical_payload signing 1 key_id grant) =
        rw (← key_same, ← same_key, a.mac, same_mac, m, key_same, same_key) in
      sym same ∙ payload_free key_id envelope.grant grant (hmac_free key _ _ macs)

module _ (signing : Signing) where
  open signing use {Mac, hmac}

  -- A process that lists the operations of the grant as the issuer's did opens what it sealed.
  same_order-open_grant :
      (iteration : List String → List String) (grant : CapabilityGrant) (key_id : String)
      (key : Text) (envelope : CapabilityGrantEnvelope Mac) (keyring : List (String × Text))
      (revoked : List String)
      → seal_grant signing grant key_id key ≡ ok envelope
      → lookup key_id keyring ≡ some key
      → member grant.grant_id revoked ≡ false
      → iteration grant.operations ≡ signing.iteration grant.operations
      → open_grant (in_process signing iteration) envelope keyring revoked ≡ ok grant
  same_order-open_grant iteration grant key_id key envelope keyring revoked sealed known live same =
      let (long, v, k, g, m) = seal_grant-eq-ok signing grant key_id key envelope sealed in
      (open_grant_iff (in_process signing iteration) envelope keyring revoked grant).1 (
        record {
          key = key;
          version = v;
          known = rw k known;
          long = long;
          mac = rw (k, g, m, same) refl;
          live = rw g live;
        },
        g,
      )

  -- What `seal_grant` seals in one process under a key, `open_grant` opens in another, with a
  -- keyring that holds the key by its name and for a grant that is not revoked, exactly if the
  -- other process iterates over the operations of the grant in the same order; different payloads
  -- are taken to have different MACs under a key, and different grants, the order of their
  -- operations included, different JSON.
  pub open_grant-seal_grant :
      ((key : Text) (p q : signing.Payload) → hmac key p ≡ hmac key q → p ≡ q)
      → ((key_id : String) (g h : CapabilityGrant)
          → signing.dumps 1 key_id g ≡ signing.dumps 1 key_id h
          → g ≡ h)
      → (iteration : List String → List String) (grant : CapabilityGrant) (key_id : String)
        (key : Text) (envelope : CapabilityGrantEnvelope Mac) (keyring : List (String × Text))
        (revoked : List String)
      → seal_grant signing grant key_id key ≡ ok envelope
      → lookup key_id keyring ≡ some key
      → member grant.grant_id revoked ≡ false
      → (open_grant (in_process signing iteration) envelope keyring revoked ≡ ok grant)
        ↔ (iteration grant.operations ≡ signing.iteration grant.operations)
  open_grant-seal_grant hmac_free dumps_free iteration grant key_id key envelope keyring revoked
        sealed known live =
      (
        λ opened.
            let (long, v, k, g, m) = seal_grant-eq-ok signing grant key_id key envelope sealed in
            let (a, _) =
              (open_grant_iff (in_process signing iteration) envelope keyring revoked grant).0
                opened in
            let key_same : a.key ≡ key = some_unique a.known (rw k known) in
            let macs : hmac key (canonical_payload (in_process signing iteration) 1 key_id grant)
                ≡ hmac key (canonical_payload signing 1 key_id grant) =
              rw (← key_same, ← k, ← g, a.mac, m, key_same, k, g) refl in
            ap (λ (h : CapabilityGrant). h.operations)
              (dumps_free key_id _ _ (hmac_free key _ _ macs)),
        λ same.
            same_order-open_grant iteration grant key_id key envelope keyring revoked sealed known
              live same,
      )
