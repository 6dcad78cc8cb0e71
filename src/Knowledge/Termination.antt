-- ===== src/Knowledge/Termination.antt =====
-- The loop of src/forge_controller/knowledge_graph.py ends: each edge is queued at most once.
use hermes_dev_team_vm.Prelude.{
  length-append, ℕ, zero, suc, ◌+◌, ◌≤◌, ◌≡◌, refl, String, false, not, ◌||◌, some, List, [], ◌∷◌,
  ◌++◌, member, length, if◌then◌else◌, Bool-cases, inl, inr, arith, eq_iff,
}
use hermes_dev_team_vm.Knowledge.{SemanticEdgeRow, Graph, is_live, queued, propagate}

-- The edges into nodes that are not stale yet.
unfoldable pub open_edges : List String → List SemanticEdgeRow → ℕ
open_edges stale_ids [] = 0
open_edges stale_ids (edge ∷ edges) =
    let rest = open_edges stale_ids edges in
    if member edge.target_id stale_ids then rest else suc rest

module _ (project_id : String) (graph : Graph) where
  -- A visit queues no more edges than it closes.
  queued-open_edges :
      (stale_ids : List String) (node_id : String) (edges : List SemanticEdgeRow)
      → member node_id stale_ids ≡ false
      → length (queued project_id graph (node_id ∷ stale_ids) node_id edges)
          + open_edges (node_id ∷ stale_ids) edges
        ≤ open_edges stale_ids edges
  unfolding queued open_edges
  queued-open_edges stale_ids node_id [] h = ground arith
  queued-open_edges stale_ids node_id (edge ∷ edges) h = ground (
    arith,
    queued-open_edges stale_ids node_id edges h,
    eq_iff edge.target_id node_id,
    eq_iff node_id edge.target_id,
  )

  pub propagate_returns :
      (fuel : ℕ) (queue stale_ids : List String)
      → length queue + open_edges stale_ids graph.edges ≤ fuel
      → (ids : List String) × (propagate project_id graph fuel queue stale_ids ≡ some ids)
  unfolding propagate
  propagate_returns fuel [] stale_ids h = (stale_ids, refl)
  propagate_returns zero (node_id ∷ queue) stale_ids h = ground arith
  propagate_returns (suc fuel) (node_id ∷ queue) stale_ids h =
      elim (Bool-cases (member node_id stale_ids || not (is_live project_id graph node_id))) [
        | inl skipped ↦
            rw (propagate, skipped)
              (propagate_returns fuel (queue ++ []) stale_ids
                (ground (arith, length-append queue [])))
        | inr visited ↦
            let more = queued project_id graph (node_id ∷ stale_ids) node_id graph.edges in
            let fresh : member node_id stale_ids ≡ false = ground arith in
            rw (propagate, visited)
              (propagate_returns fuel (queue ++ more) (node_id ∷ stale_ids) (
                ground (
                  arith,
                  length-append queue more,
                  queued-open_edges stale_ids node_id graph.edges fresh,
                )))
      ]
