-- ===== src/Trust/Provenance.antt =====
-- No laundering: what an envelope of src/forge_controller/trust_gateway.py keeps of the envelopes that it
-- derives from, over one step and over any number of them.
use mathlib.Core.List.{Memᴰ}
use hermes_dev_team_vm.Prelude.{
  ℕ, ◌≤◌, ◌≡◌, refl, sym, ap, ◌∙◌, String, true, false, not, List, [], ◌∷◌, ◌==◌, any, is_empty,
  All, All-Memᴰ, any-false, member, ok, >>=-eq-ok, >>-eq-ok, checks, checks_iff, ltb, length,
  or_raise, arith, text_differs-false_iff, subst,
}
use hermes_dev_team_vm.Trust.Utf8.{utf8_decode}
use hermes_dev_team_vm.Trust.{
  TrustClass, untrusted_external, suspicious, content_too_large, not_utf8, crossed_projects,
  trust_risk, sensitivity_risk, trust_value, trust_of, is_external, default_source_trust,
  TrustEnvelope, IngestRequest, Probe, max_content_bytes, raw_content, parents_trust, parents_taint,
  parents_sensitivity, ingest_taint, effective_trust, ingest,
}
use hermes_dev_team_vm.Trust.Bounds.{
  trust_of-trust_value, parents_sensitivity-ge, parents_taint-member, ingest_taint-keeps,
  ingest_taint-external, effective-ge_default, effective-ge_parents, effective-ge_external,
  effective-ge_findings,
}

-- The child belongs to the ancestor's project, has its tags, and is neither more trusted nor less
-- sensitive.
pub record IsDerived (ancestor child : TrustEnvelope) : Type 0 where
  pub project : ancestor.project_id ≡ child.project_id
  pub taint : (x : String) → member x ancestor.taint ≡ true → member x child.taint ≡ true
  pub sensitivity :
      sensitivity_risk ancestor.data_sensitivity ≤ sensitivity_risk child.data_sensitivity
  pub trust :
      (t : TrustClass)
      → trust_of ancestor.trust ≡ ok t
      → (u : TrustClass) × (trust_of child.trust ≡ ok u) × (trust_risk t ≤ trust_risk u)

parents_trust-All :
    (P : TrustClass → Type 0) (parents : List TrustEnvelope) (trusts : List TrustClass)
    → parents_trust parents ≡ ok trusts
    → All P trusts
    → All (λ p. (t : TrustClass) → trust_of p.trust ≡ ok t → P t) parents
unfolding parents_trust
parents_trust-All P [] trusts h all_hold = tt
parents_trust-All P (p ∷ ps) trusts h all_hold =
    let (t, known, h₁) = >>=-eq-ok (trust_of p.trust) _ h in
    let (ts, rest, same) = >>=-eq-ok (parents_trust ps) _ h₁ in
    let e : trusts ≡ t ∷ ts = cc in
    let each = subst (All P) e all_hold in
    (λ t' known'. subst P (cc) each.0, parents_trust-All P ps ts rest each.1)

module _ (probes : List Probe) (sha256 : List ℕ → String) (request : IngestRequest)
    (new_id : String) (envelope : TrustEnvelope) where
  -- The facts about a successful `ingest`.
  record IsIngested : Type 0 where
    trusts : List TrustClass
    known : parents_trust request.parent_envelopes ≡ ok trusts
    same_project :
        any (λ parent. not (parent.project_id == request.project_id)) request.parent_envelopes
        ≡ false
    project : envelope.project_id ≡ request.project_id
    taint :
        envelope.taint
        ≡ ingest_taint request.source request.parent_envelopes envelope.injection_findings
    sensitivity :
        envelope.data_sensitivity ≡ parents_sensitivity request.sensitivity request.parent_envelopes
    trust :
        envelope.trust
        ≡ trust_value (
            effective_trust request.source request.requested_trust trusts
              envelope.injection_findings envelope.taint)

  ingest-IsIngested : ingest probes sha256 request new_id ≡ ok envelope → IsIngested
  unfolding ingest
  ingest-IsIngested h =
      let (raw, _, h₁) = >>=-eq-ok (raw_content request.content) _ h in
      let (_, h₂) =
        >>-eq-ok (checks ((ltb max_content_bytes (length raw), content_too_large) ∷ [])) _ h₁ in
      let (content, _, h₃) = >>=-eq-ok (or_raise (utf8_decode raw) not_utf8) _ h₂ in
      let (same, h₄) =
        >>-eq-ok
          (checks (
            (
              any (λ (parent : TrustEnvelope). not (parent.project_id == request.project_id))
                  request.parent_envelopes,
              crossed_projects,
            )
            ∷ []))
          _ h₃ in
      let (trusts, known, h₅) = >>=-eq-ok (parents_trust request.parent_envelopes) _ h₄ in
      record {
        trusts = trusts;
        known = known;
        same_project =
            ((checks_iff (
                (
                  any (λ (parent : TrustEnvelope). not (parent.project_id == request.project_id))
                      request.parent_envelopes,
                  crossed_projects,
                )
                ∷ [])).0
              same).0;
        project = cc h₅;
        taint = cc h₅;
        sensitivity = cc h₅;
        trust = cc h₅;
      }

  ingest-trust :
      (h : ingest probes sha256 request new_id ≡ ok envelope)
      → (u : TrustClass) × (trust_of envelope.trust ≡ ok u)
        × (trust_risk (default_source_trust request.source.kind) ≤ trust_risk u)
        × (member "external_content" envelope.taint ≡ true
            → trust_risk untrusted_external ≤ trust_risk u)
        × (is_empty envelope.injection_findings ≡ false → trust_risk suspicious ≤ trust_risk u)
        × All
            (λ p. (t : TrustClass) → trust_of p.trust ≡ ok t → trust_risk t ≤ trust_risk u)
            request.parent_envelopes
  ingest-trust h =
      let g = ingest-IsIngested h in
      let findings = envelope.injection_findings in
      let u =
        effective_trust request.source request.requested_trust g.trusts findings envelope.taint in
      (
        u,
        ap trust_of g.trust ∙ trust_of-trust_value u,
        effective-ge_default request.source request.requested_trust g.trusts findings
            envelope.taint,
        effective-ge_external request.source request.requested_trust g.trusts findings
            envelope.taint,
        effective-ge_findings request.source request.requested_trust g.trusts findings
            envelope.taint,
        parents_trust-All (λ t. trust_risk t ≤ trust_risk u) request.parent_envelopes g.trusts
            g.known
            (effective-ge_parents request.source request.requested_trust g.trusts findings
              envelope.taint),
      )

  -- Where `ingest` returns, the envelope claims no more than any of the parents given: it is of
  -- the same project, with no more trust, no less sensitivity, and every taint.
  pub ingest-IsDerived :
      (parent : TrustEnvelope)
      → Memᴰ parent request.parent_envelopes
      → ingest probes sha256 request new_id ≡ ok envelope
      → IsDerived parent envelope
  ingest-IsDerived parent m h =
      let g = ingest-IsIngested h in
      let parents = request.parent_envelopes in
      let (u, known, _, _, _, risks) = ingest-trust h in
      record {
        project =
            (text_differs-false_iff _ _).0 (
              All-Memᴰ (λ p. not (p.project_id == request.project_id) ≡ false) m
                (any-false (λ (p : TrustEnvelope). not (p.project_id == request.project_id)) parents
                  g.same_project))
            ∙ sym g.project;
        taint = λ x tagged. rw g.taint (
            ingest_taint-keeps x request.source parents envelope.injection_findings (
              All-Memᴰ (λ p. member x p.taint ≡ true → member x (parents_taint parents) ≡ true) m
                (parents_taint-member x parents) tagged));
        sensitivity = rw g.sensitivity (
            All-Memᴰ
              (λ p.
                sensitivity_risk p.data_sensitivity
                ≤ sensitivity_risk (parents_sensitivity request.sensitivity parents))
              m (parents_sensitivity-ge request.sensitivity parents));
        trust = λ t t_known. (
          u,
          known,
          All-Memᴰ (λ p. (t : TrustClass) → trust_of p.trust ≡ ok t → trust_risk t ≤ trust_risk u) m
              risks t t_known,
        );
      }

  -- Where `ingest` returns for content from a source of an external kind, the envelope is tainted
  -- as external, and its trust is a known class with no more trust than untrusted external
  -- content, whatever the request says.
  pub ingest_external :
      is_external request.source.kind ≡ true
      → ingest probes sha256 request new_id ≡ ok envelope
      → (member "external_content" envelope.taint ≡ true)
        × ((u : TrustClass) × (trust_of envelope.trust ≡ ok u)
            × (trust_risk untrusted_external ≤ trust_risk u))
  ingest_external external h =
      let g = ingest-IsIngested h in
      let tagged : member "external_content" envelope.taint ≡ true = rw g.taint (
        ingest_taint-external request.source request.parent_envelopes envelope.injection_findings
          external) in
      let (u, known, _, floor, _, _) = ingest-trust h in (tagged, (u, known, floor tagged))

-- `Descends probes sha256 ancestor envelope`: the envelope comes from the ancestor by any number of
-- successful ingestions, each with the last envelope among its parents.
pub data Descends (probes : List Probe) (sha256 : List ℕ → String) (ancestor : TrustEnvelope)
    : TrustEnvelope → Type 0 where
  itself : Descends probes sha256 ancestor ancestor
  handed_on :
      {parent envelope : TrustEnvelope} (request : IngestRequest) (new_id : String)
      → Descends probes sha256 ancestor parent
      → Memᴰ parent request.parent_envelopes
      → ingest probes sha256 request new_id ≡ ok envelope
      → Descends probes sha256 ancestor envelope

IsDerived-refl : (e : TrustEnvelope) → IsDerived e e
IsDerived-refl e = record {
  project = refl;
  taint = λ x h. h;
  sensitivity = omega arith;
  trust = λ t h. (t, h, omega arith);
}

IsDerived-trans : {a b c : TrustEnvelope} → IsDerived a b → IsDerived b c → IsDerived a c
IsDerived-trans d e = record {
  project = d.project ∙ e.project;
  taint = λ x h. e.taint x (d.taint x h);
  sensitivity = omega (arith, d.sensitivity, e.sensitivity);
  trust = λ t h.
      let (u, known, le) = d.trust t h in
      let (v, known', le') = e.trust u known in (v, known', omega arith);
}

module _ (probes : List Probe) (sha256 : List ℕ → String) where
  -- Content that the gateway derives in any number of steps from other content never claims more
  -- than its ancestor: it is of the same project, with no more trust, no less sensitivity, and
  -- every taint. Each step is an `ingest` that returned, with the previous envelope among the
  -- parents.
  pub Descends-IsDerived :
      {ancestor envelope : TrustEnvelope}
      → Descends probes sha256 ancestor envelope
      → IsDerived ancestor envelope
  Descends-IsDerived itself = IsDerived-refl _
  Descends-IsDerived (handed_on {parent = p} {envelope = e} request new_id d m h) =
      IsDerived-trans (Descends-IsDerived d) (ingest-IsDerived probes sha256 request new_id e p m h)
