-- ===== src/Trust/Samples.antt =====
-- Tests of the model of src/forge_controller/trust_gateway.py, and its theorems at concrete envelopes.
use hermes_dev_team_vm.Prelude.{
  ℕ, ◌≤◌, ◌≡◌, refl, String, true, none, some, List, [], ◌∷◌, Memᴰ, member, Text, codes, ok, err,
  lower, strip, insert_sorted, union_sorted,
}
use hermes_dev_team_vm.Models.{public, internal}
use hermes_dev_team_vm.Trust.Utf8.{utf8_encode, utf8_decode}
use hermes_dev_team_vm.Trust.{
  TrustClass, untrusted_external, trusted_owner, crossed_projects, trust_risk, trust_of,
  SourceDescriptor, default_source_trust, is_external, TrustEnvelope, IngestRequest, text,
  raw_content, ingest, ingest_taint, parents_trust, effective_trust, deduplicate_findings,
  trust_value, floor_external, add_if, parents_sensitivity, parents_findings, probe_findings,
  max_sensitivity, parents_taint, suspect, base_trust, worst_trust,
}
use hermes_dev_team_vm.Trust.Provenance.{
  IsDerived, ingest_external, Descends, itself, handed_on, Descends-IsDerived,
}

abbrev source : Text → SourceDescriptor
source kind = record {
  kind = kind;
  locator = none;
  connector = none;
  agent_id = none;
  deployment_id = none;
  repository = none;
  url = none;
  message_id = none;
}

abbrev no_hash : List ℕ → String
no_hash raw = "sha256:"

abbrev page : IngestRequest
page = record {
  project_id = "p";
  content_ref = "page";
  content = text (codes "hello");
  source = source (codes "web");
  task_id = none;
  sensitivity = public;
  requested_trust = some trusted_owner;
  parent_envelopes = [];
}

abbrev page_envelope : TrustEnvelope
page_envelope = record {
  envelope_id = "e1";
  project_id = "p";
  task_id = none;
  content_ref = "page";
  source = source (codes "web");
  trust = "untrusted_external";
  taint = "external_content" ∷ [];
  data_sensitivity = public;
  integrity_hash = "sha256:";
  injection_findings = [];
  parent_refs = [];
}

-- A local agent's summary of the page, for which the owner's trust is requested.
abbrev summary : IngestRequest
summary = record page {
  content_ref = "summary";
  source = source (codes "subagent_output");
  sensitivity = internal;
  parent_envelopes = page_envelope ∷ [];
}

abbrev summary_envelope : TrustEnvelope
summary_envelope = record page_envelope {
  envelope_id = "e2";
  content_ref = "summary";
  source = source (codes "subagent_output");
  taint = "agent_generated" ∷ "external_content" ∷ "transformed_from_parent" ∷ [];
  data_sensitivity = internal;
  parent_refs = "e1" ∷ [];
}

page_runs : ingest [] no_hash page "e1" ≡ ok page_envelope
unfolding ingest raw_content utf8_encode utf8_decode parents_trust deduplicate_findings ingest_taint
    effective_trust trust_value add_if parents_sensitivity parents_findings floor_external
    probe_findings is_external insert_sorted parents_taint trust_risk suspect base_trust worst_trust
    default_source_trust lower strip
page_runs = refl

summary_runs : ingest [] no_hash summary "e2" ≡ ok summary_envelope
unfolding ingest raw_content utf8_encode utf8_decode parents_trust deduplicate_findings ingest_taint
    effective_trust trust_of floor_external add_if parents_sensitivity parents_findings
    probe_findings max_sensitivity insert_sorted is_external parents_taint union_sorted trust_risk
    suspect base_trust worst_trust default_source_trust lower strip
summary_runs = refl

other_project_refused :
    ingest [] no_hash (record summary { project_id = "q" }) "e2" ≡ err crossed_projects
unfolding ingest raw_content utf8_encode utf8_decode
other_project_refused = refl

kinds :
    (default_source_trust (codes "  Owner_Input ") ≡ trusted_owner)
    × (default_source_trust (codes "web") ≡ untrusted_external)
unfolding default_source_trust lower strip
kinds = (refl, refl)

utf8_bytes :
    utf8_encode (0x20AC ∷ 0x1F600 ∷ []) ≡ some (0xE2 ∷ 0x82 ∷ 0xAC ∷ 0xF0 ∷ 0x9F ∷ 0x98 ∷ 0x80 ∷ [])
unfolding utf8_encode
utf8_bytes = refl

overlong_refused : utf8_decode (0xC0 ∷ 0x80 ∷ []) ≡ none
unfolding utf8_decode
overlong_refused = refl

ingest_external_example :
    (member "external_content" page_envelope.taint ≡ true)
    × ((u : TrustClass) × (trust_of page_envelope.trust ≡ ok u)
        × (trust_risk untrusted_external ≤ trust_risk u))
unfolding is_external
ingest_external_example = ingest_external [] no_hash page "e1" page_envelope refl page_runs

summary-Descends : Descends [] no_hash page_envelope summary_envelope
summary-Descends = handed_on summary "e2" itself (Memᴰ.head refl) summary_runs

Descends-IsDerived_example : IsDerived page_envelope summary_envelope
Descends-IsDerived_example = Descends-IsDerived [] no_hash summary-Descends

hello_encoded : utf8_encode (codes "hello") ≡ some (codes "hello")
unfolding utf8_encode
hello_encoded = refl
