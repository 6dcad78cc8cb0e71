-- ===== src/Knowledge/Samples.antt =====
-- A test of the model of src/forge_controller/knowledge_graph.py, and its theorem at a concrete graph: a
-- page that contains a claim, which is derived from a source, with a cycle.
use hermes_dev_team_vm.Prelude.{◌≡◌, refl, String, true, false, some, List, [], ◌∷◌}
use hermes_dev_team_vm.Knowledge.{
  SemanticNodeRow, SemanticEdgeRow, Graph, propagate_stale, propagated, propagate, root_ids,
  get_node, is_live, carries, queued, mark_node, mark_anchor, stale_refs,
}
use hermes_dev_team_vm.Knowledge.Propagation.{IsPropagated, propagate_stale-IsPropagated}

abbrev node : String → String → SemanticNodeRow
node id ref = record {
  node_id = id;
  project_id = "p";
  external_ref = some ref;
  label = "l";
  stale = false;
}

abbrev edge : String → String → String → SemanticEdgeRow
edge source relationship target = record {
  edge_id = "e";
  project_id = "p";
  source_id = source;
  relationship = relationship;
  target_id = target;
}

abbrev graph : Graph
graph = record {
  nodes =
      node "1" "wiki:a"
      ∷ node "2" "wiki:a#c"
      ∷ node "3" "raw:s"
      ∷ node "4" "wiki:b"
      ∷ record (node "5" "wiki:x") { project_id = "q" }
      ∷ [];
  edges =
      edge "1" "contains" "2"
      ∷ edge "2" "derived_from" "3"
      ∷ edge "3" "references" "1"
      ∷ edge "4" "contradicts" "3"
      ∷ edge "5" "contains" "3"
      ∷ [];
  anchors =
      record { anchor_id = "r"; project_id = "p"; claim_ref = "wiki:a#c"; stale = false } ∷ [];
  events = [];
}

abbrev stale_node : String → String → SemanticNodeRow
stale_node id ref = record (node id ref) { stale = true }

propagate_test :
    propagate_stale "p" graph ("raw:s" ∷ [])
    ≡ some (
      "wiki:a" ∷ "wiki:a#c" ∷ "raw:s" ∷ [],
      record graph {
        nodes =
            stale_node "1" "wiki:a"
            ∷ stale_node "2" "wiki:a#c"
            ∷ stale_node "3" "raw:s"
            ∷ node "4" "wiki:b"
            ∷ record (node "5" "wiki:x") { project_id = "q" }
            ∷ [];
        anchors =
            record { anchor_id = "r"; project_id = "p"; claim_ref = "wiki:a#c"; stale = true } ∷ [];
        events =
            record {
              project_id = "p";
              root_refs = "raw:s" ∷ [];
              stale_refs = "wiki:a" ∷ "wiki:a#c" ∷ "raw:s" ∷ [];
            }
            ∷ [];
      },
    )
unfolding propagate_stale propagated propagate root_ids get_node is_live carries queued mark_node
    mark_anchor stale_refs
propagate_test = refl

propagate_stale-IsPropagated_example :
    (refs : List String) × (after : Graph) × (propagate_stale "p" graph ("raw:s" ∷ [])
      ≡ some (refs, after))
    × IsPropagated "p" graph ("raw:s" ∷ []) refs after
propagate_stale-IsPropagated_example = propagate_stale-IsPropagated "p" graph ("raw:s" ∷ []) refl
