-- ===== src/Knowledge/Propagation.antt =====
-- `_propagate_stale` of src/forge_controller/knowledge_graph.py, from its roots to its marks.
use hermes_dev_team_vm.Prelude.{
  ◌+◌, ◌≡◌, ◌↔◌, refl, String, true, false, some, List, [], ◌∷◌, All, All-member, member, length,
  map, is_empty, arith, eq_refl, ◌≢◌,
}
use hermes_dev_team_vm.Knowledge.{
  SemanticEdgeRow, Graph, root_ids, propagate, propagate_stale, mark_node, stale_refs, mark_anchor,
  propagated, StalePropagated,
}
use hermes_dev_team_vm.Knowledge.Termination.{open_edges, propagate_returns}
use hermes_dev_team_vm.Knowledge.Closure.{
  IsReached, root, IsStale, IsClosed, propagate_sound, propagate-IsClosed, IsClosed-complete,
}
use hermes_dev_team_vm.Knowledge.Marking.{
  Rowwise, IsMarkedNode, IsMarkedAnchor, HasReference, IsRootNode, stale_refs-HasReference,
  mark_node-Rowwise, mark_anchor-Rowwise, root_ids-IsRootNode,
}

open_edges_all : (edges : List SemanticEdgeRow) → open_edges [] edges ≡ length edges
unfolding open_edges
open_edges_all [] = refl
open_edges_all (e ∷ edges) = ground (arith, open_edges_all edges)

-- The graph after the propagation, and the references it returns: the rows are those before, but
-- for the marks of the nodes from which a root is reached, and of the anchors whose claim is a
-- reference of such a node.
pub record IsPropagated (project_id : String) (graph : Graph) (root_refs refs : List String)
    (after : Graph) : Type 0 where
  pub roots : List String
  pub are_roots :
      (n : String) → (member n roots ≡ true) ↔ IsRootNode project_id root_refs graph.nodes n
  pub are_refs :
      (r : String)
      → (member r refs ≡ true)
        ↔ (HasReference graph.nodes (IsStale project_id graph roots) r × (r ≢ ""))
  pub nodes :
      Rowwise
        (λ x y. IsMarkedNode x y (IsStale project_id graph roots x.node_id))
        graph.nodes
        after.nodes
  pub anchors :
      Rowwise
        (λ x y. IsMarkedAnchor x y (
          (x.project_id ≡ project_id)
          × (HasReference graph.nodes (IsStale project_id graph roots) x.claim_ref
              × (x.claim_ref ≢ ""))))
        graph.anchors
        after.anchors
  pub edges : after.edges ≡ graph.edges
  pub silent : refs ≡ [] → after.events ≡ graph.events
  pub event :
      refs ≢ []
      → after.events
        ≡ record { project_id = project_id; root_refs = root_refs; stale_refs = refs }
          ∷ graph.events

propagated_silent :
    (project_id : String) (root_refs refs : List String) (events : List StalePropagated)
    → refs ≡ []
    → propagated project_id root_refs refs events ≡ events
unfolding propagated
propagated_silent project_id root_refs [] events h = refl
propagated_silent project_id root_refs (r ∷ refs) events h = cc

propagated_event :
    (project_id : String) (root_refs refs : List String) (events : List StalePropagated)
    → refs ≢ []
    → propagated project_id root_refs refs events
      ≡ record { project_id = project_id; root_refs = root_refs; stale_refs = refs } ∷ events
unfolding propagated
propagated_event project_id root_refs [] events h = absurd (h refl)
propagated_event project_id root_refs (r ∷ refs) events h = refl

module _ (project_id : String) (graph : Graph) where
  roots-IsReached :
      (roots rs : List String)
      → ((r : String) → member r rs ≡ true → member r roots ≡ true)
      → All (IsReached project_id graph roots) rs
  roots-IsReached roots [] h = tt
  roots-IsReached roots (r ∷ rs) h =
      (root (h r (ground (arith, eq_refl r))), roots-IsReached roots rs (λ x m. h x (ground arith)))

  start-IsClosed : (roots : List String) → IsClosed project_id graph roots roots []
  start-IsClosed roots = record {
    roots_settled = λ r m. ground arith;
    sources_settled = λ e m along t. cc;
  }

  propagate_exact :
      (roots : List String)
      → (ids : List String) × (propagate project_id graph
            (length roots + length graph.edges)
            roots
            []
          ≡ some ids)
        × ((n : String) → (member n ids ≡ true) ↔ IsStale project_id graph roots n)
  propagate_exact roots =
      let (ids, e) =
        propagate_returns project_id graph (length roots + length graph.edges) roots []
          (ground (arith, open_edges_all graph.edges)) in
      let sound =
        propagate_sound project_id graph roots _ roots [] ids
          (roots-IsReached roots roots (λ r m. m)) tt e in
      let closed =
        propagate-IsClosed project_id graph roots _ roots [] ids (start-IsClosed roots) e in
      (
        ids,
        e,
        λ n. (
          λ m. All-member _ n ids sound m,
          λ (reached, live). IsClosed-complete project_id graph roots ids closed reached live,
        ),
      )

  -- With at least one root reference, `_propagate_stale` returns, also on graphs with cycles. Row
  -- by row, a node is marked exactly if it was, or is one of the project from which a root node
  -- is reached along the edges that carry staleness, through nodes of the project; an anchor
  -- exactly if it was, or is one of the project whose claim is a reference of such a node;
  -- nothing else of a row changes. The roots are the nodes of the project that a root reference
  -- names, the references returned are those of the stale nodes that are not empty, the edges
  -- stay, and one event tells of the references exactly if there are any.
  pub propagate_stale-IsPropagated :
      (root_refs : List String)
      → is_empty root_refs ≡ false
      → (refs : List String) × (after : Graph) × (propagate_stale project_id graph root_refs
          ≡ some (refs, after))
        × IsPropagated project_id graph root_refs refs after
  unfolding propagate_stale
  propagate_stale-IsPropagated root_refs some_root =
      let roots = root_ids project_id root_refs graph.nodes in
      let (ids, e, exact) = propagate_exact roots in
      let refs = stale_refs ids graph.nodes in
      let named = stale_refs-HasReference (IsStale project_id graph roots) ids exact graph.nodes in
      (
        refs,
        record graph {
          nodes = map (mark_node ids) graph.nodes;
          anchors = map (mark_anchor project_id refs) graph.anchors;
          events = propagated project_id root_refs refs graph.events;
        },
        rw (some_root, e),
        record {
          roots = roots;
          are_roots = root_ids-IsRootNode project_id root_refs graph.nodes;
          are_refs = named;
          nodes = mark_node-Rowwise (IsStale project_id graph roots) ids exact graph.nodes;
          anchors = mark_anchor-Rowwise project_id refs _ named graph.anchors;
          edges = refl;
          silent = propagated_silent project_id root_refs refs graph.events;
          event = propagated_event project_id root_refs refs graph.events;
        },
      )
