-- ===== src/Knowledge.antt =====
-- src/forge_controller/knowledge_graph.py: what becomes stale with its sources.
pub mod Termination
pub mod Closure
pub mod Marking
pub mod Propagation
mod Samples
use hermes_dev_team_vm.Prelude.{
  ℕ, zero, suc, ◌+◌, String, Bool, true, false, not, ◌&&◌, ◌||◌, Option, none, some, List, [], ◌∷◌,
  ◌++◌, map, member, is_empty, is_blank, length, ◌==◌, if◌then◌else◌, keep,
}

-- The columns that the propagation reads and writes.
pub record SemanticNodeRow : Type 0 where
  pub node_id : String
  pub project_id : String
  pub external_ref : Option String
  pub label : String
  pub stale : Bool

pub record SemanticEdgeRow : Type 0 where
  pub edge_id : String
  pub project_id : String
  pub source_id : String
  pub relationship : String
  pub target_id : String

pub record RealityAnchorRow : Type 0 where
  pub anchor_id : String
  pub project_id : String
  pub claim_ref : String
  pub stale : Bool

-- The event "knowledge.stale_propagated". Sets stand as lists, in no order.
pub record StalePropagated : Type 0 where
  pub project_id : String
  pub root_refs : List String
  pub stale_refs : List String

-- The tables, and the events of the propagations, the last first.
pub record Graph : Type 0 where
  pub nodes : List SemanticNodeRow
  pub edges : List SemanticEdgeRow
  pub anchors : List RealityAnchorRow
  pub events : List StalePropagated

abbrev pub stale_propagation_relationships : List String
stale_propagation_relationships =
    "based_on" ∷ "contains" ∷ "depends_on" ∷ "derived_from" ∷ "documents" ∷ "implements"
    ∷ "references" ∷ "verified_by" ∷ []

-- session.get(SemanticNodeRow, node_id)
unfoldable pub get_node : String → List SemanticNodeRow → Option SemanticNodeRow
get_node node_id [] = none
get_node node_id (row ∷ rows) =
    let later = get_node node_id rows in if row.node_id == node_id then some row else later

abbrev pub of_project : String → Option SemanticNodeRow → Bool
of_project project_id none = false
of_project project_id (some row) = row.project_id == project_id

-- The roots' identifiers.
unfoldable pub root_ids : String → List String → List SemanticNodeRow → List String
root_ids project_id root_refs [] = []
root_ids project_id root_refs (row ∷ rows) =
    let rest = root_ids project_id root_refs rows in
    let wanted : Bool = elim row.external_ref [ none ↦ false | some r ↦ member r root_refs ] in
    if row.project_id == project_id && wanted then row.node_id ∷ rest else rest

module _ (project_id : String) (graph : Graph) where
  -- row is not None and row.project_id == project_id
  unfoldable pub is_live : String → Bool
  is_live node_id = of_project project_id (get_node node_id graph.nodes)

  -- The edge is one of the project along which staleness passes.
  unfoldable pub carries : SemanticEdgeRow → Bool
  carries edge =
      edge.project_id == project_id && member edge.relationship stale_propagation_relationships

  -- What the visit of a node queues: the sources of its incoming edges that are not stale yet.
  unfoldable pub queued : List String → String → List SemanticEdgeRow → List String
  queued stale_ids node_id [] = []
  queued stale_ids node_id (edge ∷ edges) =
      let rest = queued stale_ids node_id edges in
      if (carries edge && edge.target_id == node_id) && not (member edge.source_id stale_ids)
      then edge.source_id ∷ rest
      else rest

  -- The loop over the queue. It stops without a result only where the fuel is out.
  unfoldable pub propagate : ℕ → List String → List String → Option (List String)
  propagate fuel [] stale_ids = some stale_ids
  propagate zero (node_id ∷ queue) stale_ids = none
  propagate (suc fuel) (node_id ∷ queue) stale_ids =
      let skipped = member node_id stale_ids || not (is_live node_id) in
      let seen = if skipped then stale_ids else node_id ∷ stale_ids in
      let more = if skipped then [] else queued (node_id ∷ stale_ids) node_id graph.edges in
      propagate fuel (queue ++ more) seen

-- row.stale = True
unfoldable pub mark_node : List String → SemanticNodeRow → SemanticNodeRow
mark_node stale_ids row = record row { stale = row.stale || member row.node_id stale_ids }

unfoldable pub stale_refs : List String → List SemanticNodeRow → List String
stale_refs stale_ids [] = []
stale_refs stale_ids (row ∷ rows) =
    let rest = stale_refs stale_ids rows in
    let found : List String = elim row.external_ref [
      | none ↦ []
      | some r ↦ if r == "" then [] else r ∷ []
    ] in
    if member row.node_id stale_ids then found ++ rest else rest

-- anchor.stale = True
unfoldable pub mark_anchor : String → List String → RealityAnchorRow → RealityAnchorRow
mark_anchor project_id refs anchor = record anchor {
  stale = anchor.stale || (anchor.project_id == project_id && member anchor.claim_ref refs);
}

-- if stale_refs: append_event(...)
unfoldable pub propagated :
    String → List String → List String → List StalePropagated → List StalePropagated
propagated project_id root_refs refs events =
    if is_empty refs
    then events
    else record { project_id = project_id; root_refs = root_refs; stale_refs = refs } ∷ events

abbrev pub marked :
    String → Graph → List String → Option (List String) → Option (List String × Graph)
marked project_id graph root_refs none = none
marked project_id graph root_refs (some stale_ids) =
    let refs = stale_refs stale_ids graph.nodes in
    some (
      refs,
      record graph {
        nodes = map (mark_node stale_ids) graph.nodes;
        anchors = map (mark_anchor project_id refs) graph.anchors;
        events = propagated project_id root_refs refs graph.events;
      },
    )

-- _propagate_stale, with fuel for the roots and for each edge once.
unfoldable pub propagate_stale : String → Graph → List String → Option (List String × Graph)
propagate_stale project_id graph root_refs =
    let roots = root_ids project_id root_refs graph.nodes in
    let found = propagate project_id graph (length roots + length graph.edges) roots [] in
    if is_empty root_refs then some ([], graph) else marked project_id graph root_refs found
