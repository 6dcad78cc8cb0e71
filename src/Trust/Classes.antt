-- ===== src/Trust/Classes.antt =====
-- src/forge_controller/trust_gateway.py: trust classes with their risks, kinds of sources, findings; the
-- envelope of contracts.py.
use Prim.Native.Nat.{Ordering}
use Prim.Native.String.{compare}
use hermes_dev_team_vm.Prelude.{
  ℕ, String, ◌||◌, Option, none, some, List, [], ◌∷◌, ltb, ◌==◌, if◌then◌else◌, any, Bool, Text,
  text_eq, codes, strip, lower, Result, or_raise,
}
use hermes_dev_team_vm.Models.{Sensitivity, public, internal, confidential, restricted}

-- `TrustGatewayError` by message, and the `UnicodeEncodeError` of a text with surrogates.
pub data TrustError : Type 0 where
  content_too_large not_utf8 crossed_projects unknown_trust encode_error : TrustError

pub data TrustClass : Type 0 where
  trusted_owner trusted_control_plane agent_generated verified_external : TrustClass
  untrusted_external suspicious blocked : TrustClass

-- _TRUST_RISK
unfoldable pub trust_risk : TrustClass → ℕ
trust_risk trusted_owner = 0
trust_risk trusted_control_plane = 0
trust_risk agent_generated = 2
trust_risk verified_external = 2
trust_risk untrusted_external = 3
trust_risk suspicious = 4
trust_risk blocked = 5

-- _SENSITIVITY_RISK
unfoldable pub sensitivity_risk : Sensitivity → ℕ
sensitivity_risk public = 0
sensitivity_risk internal = 1
sensitivity_risk confidential = 2
sensitivity_risk restricted = 3

-- TrustClass.value
unfoldable pub trust_value : TrustClass → String
trust_value trusted_owner = "trusted_owner"
trust_value trusted_control_plane = "trusted_control_plane"
trust_value agent_generated = "agent_generated"
trust_value verified_external = "verified_external"
trust_value untrusted_external = "untrusted_external"
trust_value suspicious = "suspicious"
trust_value blocked = "blocked"

-- The members of the enumeration, in order, for a look-up by value.
abbrev trust_classes : List TrustClass
trust_classes =
    trusted_owner ∷ trusted_control_plane ∷ agent_generated ∷ verified_external ∷ untrusted_external
    ∷ suspicious ∷ blocked ∷ []

abbrev find_value : String → List TrustClass → Option TrustClass
find_value value [] = none
find_value value (c ∷ cs) = if trust_value c == value then some c else find_value value cs

-- _trust
unfoldable pub trust_of : String → Result TrustError TrustClass
unfolding trust_value
trust_of value = or_raise (find_value value trust_classes) unknown_trust

-- _EXTERNAL_SOURCE_KINDS
abbrev external_source_kinds : List String
external_source_kinds =
    "browser" ∷ "email" ∷ "github" ∷ "github_connector" ∷ "mcp_external" ∷ "package_metadata"
    ∷ "web" ∷ "webhook" ∷ []

-- A kind of source is text by code points, since it is trimmed and folded.
pub record SourceDescriptor : Type 0 where
  pub kind : Text
  pub locator : Option String
  pub connector : Option String
  pub agent_id : Option String
  pub deployment_id : Option String
  pub repository : Option String
  pub url : Option String
  pub message_id : Option String

-- The validator of `SourceDescriptor.kind`.
unfoldable pub normalize_kind : Text → Text
normalize_kind value = lower (strip value)

-- source.kind in _EXTERNAL_SOURCE_KINDS
unfoldable pub is_external : Text → Bool
is_external kind = any (λ k. text_eq kind (codes k)) external_source_kinds

-- _default_source_trust
unfoldable pub default_source_trust : Text → TrustClass
unfolding normalize_kind
default_source_trust kind =
    let normalized = normalize_kind kind in
    if text_eq normalized (codes "owner_input")
    then trusted_owner
    else if text_eq normalized (codes "forge_internal")
        || text_eq normalized (codes "control_plane")
    then trusted_control_plane
    else if text_eq normalized (codes "subagent_output")
    then agent_generated
    else untrusted_external

pub record InjectionFinding : Type 0 where
  pub rule_id : String
  pub severity : String
  pub category : String

pub record TrustEnvelope : Type 0 where
  pub envelope_id : String
  pub project_id : String
  pub task_id : Option String
  pub content_ref : String
  pub source : SourceDescriptor
  pub trust : String
  pub taint : List String
  pub data_sensitivity : Sensitivity
  pub integrity_hash : String
  pub injection_findings : List InjectionFinding
  pub parent_refs : List String

-- `max(values, key=...)` over a list that begins with `best`: the first of the greatest.
unfoldable pub worst_trust : TrustClass → List TrustClass → TrustClass
unfolding trust_risk
worst_trust best [] = best
worst_trust best (value ∷ values) =
    worst_trust (if ltb (trust_risk best) (trust_risk value) then value else best) values

-- _max_sensitivity
unfoldable pub max_sensitivity : Sensitivity → Sensitivity → Sensitivity
unfolding sensitivity_risk
max_sensitivity first second =
    if ltb (sensitivity_risk first) (sensitivity_risk second) then second else first

-- Tuples compare by their first component that differs.
abbrev then_compare : Ordering → Ordering → Ordering
then_compare Ordering.eq o = o
then_compare o _ = o

unfoldable pub compare_finding : InjectionFinding → InjectionFinding → Ordering
compare_finding f g =
    then_compare (compare f.rule_id g.rule_id)
      (then_compare (compare f.severity g.severity) (compare f.category g.category))

unfoldable pub insert_finding : InjectionFinding → List InjectionFinding → List InjectionFinding
unfolding compare_finding
insert_finding f [] = f ∷ []
insert_finding f (g ∷ gs) =
    let rest = insert_finding f gs in
    elim (compare_finding f g) [
      | Ordering.lt ↦ f ∷ g ∷ gs
      | Ordering.eq ↦ f ∷ gs
      | Ordering.gt ↦ g ∷ rest
    ]

-- _deduplicate_findings: a finding is its key, and the keys come sorted.
unfoldable pub deduplicate_findings : List InjectionFinding → List InjectionFinding
unfolding insert_finding
deduplicate_findings [] = []
deduplicate_findings (f ∷ fs) = insert_finding f (deduplicate_findings fs)
