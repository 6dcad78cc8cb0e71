-- ===== src/Knowledge/Closure.antt =====
-- What the loop of src/forge_controller/knowledge_graph.py finds: all that leads to a root, and no more.
use hermes_dev_team_vm.Prelude.{
  ℕ, zero, suc, ◌≡◌, refl, sym, String, Bool, true, not, ◌&&◌, ◌||◌, some, List, [], ◌∷◌, ◌++◌, All,
  All-map, All-append, Memᴰ, member, ◌==◌, Bool-cases, inl, inr, arith, eq_iff, member-append,
}
use hermes_dev_team_vm.Knowledge.{SemanticEdgeRow, Graph, is_live, carries, queued, propagate}

module _ (project_id : String) (graph : Graph) (roots : List String) where
  -- A root, or the source of an edge, of those that carry staleness, into a node that is one of these
  -- and is there.
  pub data IsReached : String → Type 0 where
    root : {node_id : String} → member node_id roots ≡ true → IsReached node_id
    depends :
        {edge : SemanticEdgeRow}
        → Memᴰ edge graph.edges
        → carries project_id graph edge ≡ true
        → IsReached edge.target_id
        → is_live project_id graph edge.target_id ≡ true
        → IsReached edge.source_id

  -- The node is reached, and it is one of the project.
  abbrev pub IsStale : String → Type 0
  IsStale node_id = IsReached node_id × (is_live project_id graph node_id ≡ true)

  queued-IsReached :
      (stale_ids : List String) (node_id : String) (edges : List SemanticEdgeRow)
      → IsStale node_id
      → All (λ e. Memᴰ e graph.edges) edges
      → All IsReached (queued project_id graph stale_ids node_id edges)
  unfolding queued
  queued-IsReached stale_ids node_id [] stale known = tt
  queued-IsReached stale_ids node_id (edge ∷ edges) stale known =
      let rest = queued-IsReached stale_ids node_id edges stale known.1 in
      elim (Bool-cases (
        (carries project_id graph edge && edge.target_id == node_id)
        && not (member edge.source_id stale_ids))) [
          | inr out ↦ rw out rest
          | inl taken ↦
              let same : node_id ≡ edge.target_id =
                sym ((eq_iff edge.target_id node_id).0 (ground arith)) in
              let along : carries project_id graph edge ≡ true = ground arith in
              rw taken (depends known.0 along (rw (← same) stale.0) (rw (← same) stale.1), rest)
        ]

  -- Every edge is among the edges.
  known_edges : (edges : List SemanticEdgeRow) → All (λ e. Memᴰ e edges) edges
  known_edges [] = tt
  known_edges (e ∷ edges) = (Memᴰ.head refl, All-map edges (λ d m. Memᴰ.tail m) (known_edges edges))

  pub propagate_sound :
      (fuel : ℕ) (queue stale_ids ids : List String)
      → All IsReached queue
      → All IsStale stale_ids
      → propagate project_id graph fuel queue stale_ids ≡ some ids
      → All IsStale ids
  unfolding propagate
  propagate_sound fuel [] stale_ids ids q s h = let e : stale_ids ≡ ids = ground arith in rw (← e) s
  propagate_sound zero (node_id ∷ queue) stale_ids ids q s h = cc
  propagate_sound (suc fuel) (node_id ∷ queue) stale_ids ids q s h =
      elim (Bool-cases (member node_id stale_ids || not (is_live project_id graph node_id))) [
        | inl skipped ↦
            propagate_sound fuel (queue ++ []) stale_ids ids (All-append IsReached queue [] q.1 tt)
              s (rw (propagate, skipped) at h)
        | inr visited ↦
            let stale : IsStale node_id = (q.0, ground arith) in
            propagate_sound fuel _ (node_id ∷ stale_ids) ids
              (All-append IsReached queue _ q.1
                (queued-IsReached _ node_id graph.edges stale (known_edges graph.edges)))
              (stale, s) (rw (propagate, visited) at h)
      ]

  -- Stale already, still queued, or not a node of the project.
  abbrev pub settled : List String → List String → String → Bool
  settled stale_ids queue node_id =
      member node_id stale_ids || (member node_id queue || not (is_live project_id graph node_id))

  -- The roots, and the sources of the edges into stale nodes, are accounted for.
  pub record IsClosed (queue stale_ids : List String) : Type 0 where
    pub roots_settled : (r : String) → member r roots ≡ true → settled stale_ids queue r ≡ true
    pub sources_settled :
        (e : SemanticEdgeRow)
        → Memᴰ e graph.edges
        → carries project_id graph e ≡ true
        → member e.target_id stale_ids ≡ true
        → settled stale_ids queue e.source_id ≡ true

  queued_found :
      (stale_ids : List String) (node_id : String) (edges : List SemanticEdgeRow)
      (e : SemanticEdgeRow)
      → Memᴰ e edges
      → carries project_id graph e ≡ true
      → e.target_id ≡ node_id
      → (member e.source_id stale_ids
          || member e.source_id (queued project_id graph stale_ids node_id edges))
        ≡ true
  unfolding queued
  queued_found stale_ids node_id [] e m c t = elim m [ ]
  queued_found stale_ids node_id (edge ∷ edges) e (Memᴰ.head same) c t =
      rw (← same) (
        let hit = (eq_iff e.target_id node_id).1 t in
        ground (arith, eq_iff e.source_id e.source_id))
  queued_found stale_ids node_id (edge ∷ edges) e (Memᴰ.tail m) c t =
      ground (arith, queued_found stale_ids node_id edges e m c t)

  -- One pass of the loop keeps it closed.
  skip-IsClosed :
      (node_id : String) (queue stale_ids : List String)
      → (member node_id stale_ids || not (is_live project_id graph node_id)) ≡ true
      → IsClosed (node_id ∷ queue) stale_ids
      → IsClosed (queue ++ []) stale_ids
  skip-IsClosed node_id queue stale_ids skipped c = record {
    roots_settled = λ r m. narrow r (c.roots_settled r m);
    sources_settled = λ e m along t. narrow e.source_id (c.sources_settled e m along t);
  }
    where
      narrow :
          (x : String)
          → settled stale_ids (node_id ∷ queue) x ≡ true
          → settled stale_ids (queue ++ []) x ≡ true
      narrow x h = elim (Bool-cases (node_id == x)) [
        | inl same ↦ let e = (eq_iff node_id x).0 same in rw (← e) (ground arith)
        | inr other ↦ ground (arith, member-append x queue [])
      ]

  visit-IsClosed :
      (node_id : String) (queue stale_ids : List String)
      → IsClosed (node_id ∷ queue) stale_ids
      → IsClosed
          (queue ++ queued project_id graph (node_id ∷ stale_ids) node_id graph.edges)
          (node_id ∷ stale_ids)
  visit-IsClosed node_id queue stale_ids c =
      let more = queued project_id graph (node_id ∷ stale_ids) node_id graph.edges in
      record {
        roots_settled = λ r m. widen r (c.roots_settled r m);
        sources_settled = λ e m along t. elim (Bool-cases (node_id == e.target_id)) [
          | inl same ↦
              let found =
                queued_found (node_id ∷ stale_ids) node_id graph.edges e m along
                  (sym ((eq_iff node_id e.target_id).0 same)) in
              ground (arith, member-append e.source_id queue more)
          | inr other ↦ widen e.source_id (c.sources_settled e m along (ground arith))
        ];
      }
    where
      widen :
          (x : String)
          → settled stale_ids (node_id ∷ queue) x ≡ true
          → settled
              (node_id ∷ stale_ids)
              (queue ++ queued project_id graph (node_id ∷ stale_ids) node_id graph.edges)
              x
            ≡ true
      widen x h = ground (
        arith,
        member-append x queue (queued project_id graph (node_id ∷ stale_ids) node_id graph.edges),
      )

  pub propagate-IsClosed :
      (fuel : ℕ) (queue stale_ids ids : List String)
      → IsClosed queue stale_ids
      → propagate project_id graph fuel queue stale_ids ≡ some ids
      → IsClosed [] ids
  unfolding propagate
  propagate-IsClosed fuel [] stale_ids ids c h =
      let e : stale_ids ≡ ids = ground arith in rw (← e) c
  propagate-IsClosed zero (node_id ∷ queue) stale_ids ids c h = cc
  propagate-IsClosed (suc fuel) (node_id ∷ queue) stale_ids ids c h =
      elim (Bool-cases (member node_id stale_ids || not (is_live project_id graph node_id))) [
        | inl skipped ↦
            propagate-IsClosed fuel (queue ++ []) stale_ids ids
              (skip-IsClosed node_id queue stale_ids skipped c) (rw (propagate, skipped) at h)
        | inr visited ↦
            propagate-IsClosed fuel _ (node_id ∷ stale_ids) ids
              (visit-IsClosed node_id queue stale_ids c) (rw (propagate, visited) at h)
      ]

  pub IsClosed-complete :
      (ids : List String)
      → IsClosed [] ids
      → {node_id : String} → IsReached node_id
      → is_live project_id graph node_id ≡ true
      → member node_id ids ≡ true
  IsClosed-complete ids c (root {node_id = r} m) live = let s = c.roots_settled r m in ground arith
  IsClosed-complete ids c (depends {edge = e} m along d there) live =
      let s = c.sources_settled e m along (IsClosed-complete ids c d there) in ground arith
