-- ===== src/Trust/Admission.antt =====
-- When src/forge_controller/trust_gateway.py admits a text.
use hermes_dev_team_vm.Prelude.{
  IsOk, IsOk-eq, ℕ, ◌≤◌, ◌≡◌, refl, String, true, false, not, List, [], ◌∷◌, ◌==◌, eq_iff, any, all,
  ltb, length, All, some, Text, ok, ltb-false_iff,
}
use hermes_dev_team_vm.Trust.Utf8.{utf8_encode, utf8_decode-utf8_encode}
use hermes_dev_team_vm.Trust.{
  TrustClass, trust_of, TrustEnvelope, IngestRequest, Probe, text, max_content_bytes, raw_content,
  parents_trust, ingest,
}

-- The parent is of the project, and its trust is a known class.
pub record IsUsable (project_id : String) (parent : TrustEnvelope) : Type 0 where
  pub same_project : parent.project_id ≡ project_id
  pub class : TrustClass
  pub known : trust_of parent.trust ≡ ok class

any_crossed :
    (project_id : String) (parents : List TrustEnvelope)
    → All (IsUsable project_id) parents
    → any (λ p. not (p.project_id == project_id)) parents ≡ false
any_crossed project_id [] h = refl
any_crossed project_id (p ∷ ps) h =
    rw ((eq_iff p.project_id project_id).1 h.0.same_project) (any_crossed project_id ps h.1)

parents_trust_known :
    (project_id : String) (parents : List TrustEnvelope)
    → All (IsUsable project_id) parents
    → (trusts : List TrustClass) × (parents_trust parents ≡ ok trusts)
unfolding parents_trust
parents_trust_known project_id [] h = ([], refl)
parents_trust_known project_id (p ∷ ps) h =
    let (ts, rest) = parents_trust_known project_id ps h.1 in (h.0.class ∷ ts, rw (h.0.known, rest))

-- `ingest` returns an envelope for a text that encodes in at most two mebibytes of UTF-8, with
-- parents of the same project whose trust is a known class.
pub ingest_admits :
    (probes : List Probe) (sha256 : List ℕ → String) (request : IngestRequest) (new_id : String)
    (t : Text) (raw : List ℕ)
    → request.content ≡ text t
    → all (λ c. ltb c 0x110000) t ≡ true
    → utf8_encode t ≡ some raw
    → length raw ≤ max_content_bytes
    → All (IsUsable request.project_id) request.parent_envelopes
    → (envelope : TrustEnvelope) × (ingest probes sha256 request new_id ≡ ok envelope)
unfolding ingest raw_content
ingest_admits probes sha256 request new_id t raw is_text valid encoded fits usable =
    let (trusts, known) = parents_trust_known request.project_id request.parent_envelopes usable in
    let admitted : IsOk (ingest probes sha256 request new_id) =
      rw
        (
          is_text,
          encoded,
          (ltb-false_iff max_content_bytes (length raw)).1 fits,
          utf8_decode-utf8_encode t raw valid encoded,
          any_crossed request.project_id request.parent_envelopes usable,
          known,
        )
        tt in
    IsOk-eq (ingest probes sha256 request new_id) admitted
