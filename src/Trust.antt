-- ===== src/Trust.antt =====
-- src/forge_controller/trust_gateway.py: the admission of content under a trust envelope, with the
-- envelope of contracts.py. The injection probes are the gateway's parameter, as in the source.
pub mod Utf8
pub mod Bounds
pub mod Provenance
pub mod Admission
mod Samples
mod Classes
unfoldable pub use Classes.*
use hermes_dev_team_vm.Prelude.{
  ℕ, ◌*◌, String, Bool, true, false, not, ◌&&◌, ◌||◌, Option, none, some, List, [], ◌∷◌, ◌++◌, map,
  ltb, leb, ◌==◌, if◌then◌else◌, any, is_empty, length, member, insert_sorted, union_sorted, Text,
  text_eq, codes, strip, lower, Result, ok, err, Check, ◌>>=◌, ◌>>◌, checks, or_raise,
}
use hermes_dev_team_vm.Models.{Sensitivity}
use Classes.{
  TrustError, content_too_large, not_utf8, crossed_projects, encode_error, TrustClass,
  untrusted_external, suspicious, trust_risk, trust_value, trust_of, SourceDescriptor, is_external,
  default_source_trust, InjectionFinding, TrustEnvelope, worst_trust, max_sensitivity,
  deduplicate_findings,
}
use Utf8.{utf8_encode, utf8_decode}

-- The argument `content`: a text, or bytes.
pub data Content : Type 0 where
  text : Text → Content
  bytes : List ℕ → Content

pub record IngestRequest : Type 0 where
  pub project_id : String
  pub content_ref : String
  pub content : Content
  pub source : SourceDescriptor
  pub task_id : Option String
  pub sensitivity : Sensitivity
  pub requested_trust : Option TrustClass
  pub parent_envelopes : List TrustEnvelope

abbrev pub Probe : Type 0
Probe = Text → SourceDescriptor → List InjectionFinding

-- _MAX_CONTENT_BYTES
abbrev pub max_content_bytes : ℕ
max_content_bytes = 2 * 1024 * 1024

unfoldable pub raw_content : Content → Result TrustError (List ℕ)
raw_content (text t) = or_raise (utf8_encode t) encode_error
raw_content (bytes b) = ok b

-- (_trust(parent.trust) for parent in parents)
unfoldable pub parents_trust : List TrustEnvelope → Result TrustError (List TrustClass)
parents_trust [] = ok []
parents_trust (parent ∷ parents) = do
  trust ← trust_of parent.trust
  rest ← parents_trust parents
  ok (trust ∷ rest)

-- if test: taint.add(tag)
unfoldable pub add_if : Bool → String → List String → List String
add_if test tag set = if test then insert_sorted tag set else set

-- The taint that the parents hand down.
unfoldable pub parents_taint : List TrustEnvelope → List String
parents_taint [] = []
parents_taint (parent ∷ parents) = union_sorted parent.taint (parents_taint parents)

unfoldable pub parents_findings : List TrustEnvelope → List InjectionFinding
parents_findings [] = []
parents_findings (parent ∷ parents) = parent.injection_findings ++ parents_findings parents

unfoldable pub parents_sensitivity : Sensitivity → List TrustEnvelope → Sensitivity
parents_sensitivity s [] = s
parents_sensitivity s (parent ∷ parents) =
    parents_sensitivity (max_sensitivity s parent.data_sensitivity) parents

unfoldable pub probe_findings : List Probe → Text → SourceDescriptor → List InjectionFinding
probe_findings [] content source = []
probe_findings (probe ∷ probes) content source =
    probe content source ++ probe_findings probes content source

-- The set `taint` at its end, sorted.
unfoldable pub ingest_taint :
    SourceDescriptor → List TrustEnvelope → List InjectionFinding → List String
ingest_taint source parents findings =
    add_if (not (is_empty findings)) "prompt_injection_suspected" (
      add_if (not (is_empty parents)) "transformed_from_parent" (
        add_if (text_eq source.kind (codes "subagent_output")) "agent_generated"
          (add_if (is_external source.kind) "external_content" (parents_taint parents))))

-- The variable `effective`: the worst of the source's own trust, what was requested and the parents',
unfoldable pub base_trust : Text → Option TrustClass → List TrustClass → TrustClass
base_trust kind requested parents =
    let source_trust = default_source_trust kind in
    let desired : TrustClass = elim requested [ none ↦ source_trust | some t ↦ t ] in
    worst_trust source_trust (desired ∷ parents)

-- lowered where there are findings,
unfoldable pub suspect : List InjectionFinding → TrustClass → TrustClass
suspect findings effective =
    if is_empty findings then effective else worst_trust effective (suspicious ∷ [])

-- and lowered where the taint has external content.
unfoldable pub floor_external : List String → TrustClass → TrustClass
floor_external taint effective =
    if member "external_content" taint && ltb (trust_risk effective) (trust_risk untrusted_external)
    then untrusted_external
    else effective

unfoldable pub effective_trust :
    SourceDescriptor
    → Option TrustClass
    → List TrustClass
    → List InjectionFinding
    → List String
    → TrustClass
effective_trust source requested parents findings taint =
    floor_external taint (suspect findings (base_trust source.kind requested parents))

-- TrustGateway.ingest. `sha256` is the digest of the standard library, with its prefix, and `new_id`
-- the fresh identifier.
module _ (probes : List Probe) (sha256 : List ℕ → String) where
  unfoldable pub ingest : IngestRequest → String → Result TrustError TrustEnvelope
  ingest request new_id = do
    raw ← raw_content request.content
    checks ((ltb max_content_bytes (length raw), content_too_large) ∷ [])
    content ← or_raise (utf8_decode raw) not_utf8
    let parents = request.parent_envelopes
    checks (
        (any (λ parent. not (parent.project_id == request.project_id)) parents, crossed_projects)
        ∷ [])
    parent_trust ← parents_trust parents
    let findings =
        deduplicate_findings
          (parents_findings parents ++ probe_findings probes content request.source)
    let taint = ingest_taint request.source parents findings
    let effective =
        effective_trust request.source request.requested_trust parent_trust findings taint
    ok (record {
      envelope_id = new_id;
      project_id = request.project_id;
      task_id = request.task_id;
      content_ref = request.content_ref;
      source = request.source;
      trust = trust_value effective;
      taint = taint;
      data_sensitivity = parents_sensitivity request.sensitivity parents;
      integrity_hash = sha256 raw;
      injection_findings = findings;
      parent_refs = map (λ (parent : TrustEnvelope). parent.envelope_id) parents;
    })
