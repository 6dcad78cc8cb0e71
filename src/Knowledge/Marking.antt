-- ===== src/Knowledge/Marking.antt =====
-- What the writes of `_propagate_stale` in src/forge_controller/knowledge_graph.py do to each row.
use hermes_dev_team_vm.Prelude.{
  ◌≡◌, ◌≢◌, ◌↔◌, ◌⊎◌, inl, inr, refl, String, Bool, true, false, ◌&&◌, ◌||◌, Option, none, some,
  List, [], ◌∷◌, map, Memᴰ, member, ◌==◌, if◌then◌else◌, Bool-cases, eq_iff, arith,
  text_eq-false_iff, and-true_iff, member-append, some_unique, subst, ap, ◌∙◌,
}
use hermes_dev_team_vm.Knowledge.{
  SemanticNodeRow, RealityAnchorRow, root_ids, mark_node, stale_refs, mark_anchor,
}

-- Two lists of the same length, whose elements are related one by one.
abbrev pub Rowwise : {A : Type 0} → (A → A → Type 0) → List A → List A → Type 0
Rowwise R [] [] = Unit
Rowwise R (x ∷ xs) (y ∷ ys) = R x y × Rowwise R xs ys
Rowwise R _ _ = ⊥

-- The row is the one before, but for its mark, which it has if it had it or the condition holds.
pub record IsMarkedNode (before after : SemanticNodeRow) (Condition : Type 0) : Type 0 where
  pub kept : after ≡ record before { stale = after.stale }
  pub mark : (after.stale ≡ true) ↔ ((before.stale ≡ true) ⊎ Condition)

pub record IsMarkedAnchor (before after : RealityAnchorRow) (Condition : Type 0) : Type 0 where
  pub kept : after ≡ record before { stale = after.stale }
  pub mark : (after.stale ≡ true) ↔ ((before.stale ≡ true) ⊎ Condition)

-- A row of the list has the reference, and the condition holds of its identifier.
pub record HasReference (rows : List SemanticNodeRow) (Condition : String → Type 0) (ref : String)
    : Type 0 where
  pub row : SemanticNodeRow
  pub there : Memᴰ row rows
  pub names : row.external_ref ≡ some ref
  pub condition : Condition row.node_id

-- The node is one of the project that a root reference names.
pub record IsRootNode (project_id : String) (root_refs : List String) (rows : List SemanticNodeRow)
    (node_id : String) : Type 0 where
  pub row : SemanticNodeRow
  pub there : Memᴰ row rows
  pub identified : row.node_id ≡ node_id
  pub in_project : row.project_id ≡ project_id
  pub ref : String
  pub names : row.external_ref ≡ some ref
  pub wanted : member ref root_refs ≡ true

or-true_iff : (a b : Bool) → ((a || b) ≡ true) ↔ ((a ≡ true) ⊎ (b ≡ true))
or-true_iff true b = (λ h. inl refl, λ h. refl)
or-true_iff false b = (λ h. inr h, λ h. elim h [ inl e ↦ cc e | inr e ↦ e ])

-- A disjunction whose second test decides a condition.
or_condition :
    {Condition : Type 0} (a b : Bool)
    → ((b ≡ true) ↔ Condition)
    → ((a || b) ≡ true) ↔ ((a ≡ true) ⊎ Condition)
or_condition a b (to, from) = (
  λ h. elim ((or-true_iff a b).0 h) [ inl e ↦ inl e | inr e ↦ inr (to e) ],
  λ h. (or-true_iff a b).1 (elim h [ inl e ↦ inl e | inr e ↦ inr (from e) ]),
)

module _ (Condition : String → Type 0) (stale_ids : List String)
    (exact : (n : String) → (member n stale_ids ≡ true) ↔ Condition n) where
  pub mark_node-Rowwise :
      (rows : List SemanticNodeRow)
      → Rowwise
          (λ x y. IsMarkedNode x y (Condition x.node_id))
          rows
          (map (mark_node stale_ids) rows)
  unfolding mark_node
  mark_node-Rowwise [] = tt
  mark_node-Rowwise (row ∷ rows) = (
    record { kept = refl; mark = or_condition row.stale _ (exact row.node_id) },
    mark_node-Rowwise rows,
  )

  HasReference-later :
      (row : SemanticNodeRow) (rows : List SemanticNodeRow) (ref : String)
      → HasReference rows Condition ref
      → HasReference (row ∷ rows) Condition ref
  HasReference-later row rows ref h = record {
    row = h.row;
    there = Memᴰ.tail h.there;
    names = h.names;
    condition = h.condition;
  }

  -- A reference is that of the first row, or of a later one.
  first_or_later :
      (row : SemanticNodeRow) (rows : List SemanticNodeRow) (ref : String) (x : SemanticNodeRow)
      → Memᴰ x (row ∷ rows)
      → x.external_ref ≡ some ref
      → Condition x.node_id
      → ((row.external_ref ≡ some ref) × Condition row.node_id) ⊎ HasReference rows Condition ref
  first_or_later row rows ref x (Memᴰ.head e) n c =
      inl (
        subst (λ (y : SemanticNodeRow). (y.external_ref ≡ some ref) × Condition y.node_id) e (n, c))
  first_or_later row rows ref x (Memᴰ.tail m) n c =
      inr (record { row = x; there = m; names = n; condition = c })

  own_reference :
      (external_ref : Option String) (ref : String)
      → (member ref (elim external_ref [ none ↦ [] | some r ↦ if r == "" then [] else r ∷ [] ])
          ≡ true)
        ↔ ((external_ref ≡ some ref) × (ref ≢ ""))
  own_reference none ref = (λ h. cc, λ h. cc (h.0))
  own_reference (some r) ref = elim (Bool-cases (r == "")) [
    | inl empty ↦
        rw empty (λ h. cc, λ (e, ne). absurd (ne (some_unique e refl ∙ (eq_iff r "").0 empty)))
    | inr full ↦ rw full (
      λ h.
          let e : r ≡ ref = (eq_iff r ref).0 (ground arith) in
          (ap some e, subst (λ (x : String). x ≢ "") e ((text_eq-false_iff r "").0 full)),
      λ (e, ne). let same = (eq_iff r ref).1 (some_unique refl e) in ground arith,
    )
  ]

  pub stale_refs-HasReference :
      (rows : List SemanticNodeRow) (ref : String)
      → (member ref (stale_refs stale_ids rows) ≡ true)
        ↔ (HasReference rows Condition ref × (ref ≢ ""))
  unfolding stale_refs
  stale_refs-HasReference [] ref = (λ h. cc, λ (h, _). elim h.there [ ])
  stale_refs-HasReference (row ∷ rows) ref =
      let later = stale_refs-HasReference rows ref in
      let own = own_reference row.external_ref ref in
      elim (Bool-cases (member row.node_id stale_ids)) [
        | inr out ↦ rw out (
          λ h. let (r, ne) = later.0 h in (HasReference-later row rows ref r, ne),
          λ (h, ne). elim (first_or_later row rows ref h.row h.there h.names h.condition) [
            | inl (_, c) ↦ cc (out, (exact row.node_id).1 c)
            | inr r ↦ later.1 (r, ne)
          ],
        )
        | inl inside ↦
            rw (inside, member-append ref _ (stale_refs stale_ids rows))
              (
                λ h. elim ((or-true_iff _ _).0 h) [
                  | inl mine ↦
                      let (names, ne) = own.0 mine in
                      (
                        record {
                          row = row;
                          there = Memᴰ.head refl;
                          names = names;
                          condition = (exact row.node_id).0 inside;
                        },
                        ne,
                      )
                  | inr others ↦
                      let (r, ne) = later.0 others in (HasReference-later row rows ref r, ne)
                ],
                λ (h, ne).
                    (or-true_iff _ _).1
                      (elim (first_or_later row rows ref h.row h.there h.names h.condition) [
                        | inl (names, _) ↦ inl (own.1 (names, ne))
                        | inr r ↦ inr (later.1 (r, ne))
                      ]),
              )
      ]

module _ (project_id : String) (refs : List String) where
  pub mark_anchor-Rowwise :
      (Condition : String → Type 0)
      → ((r : String) → (member r refs ≡ true) ↔ Condition r)
      → (anchors : List RealityAnchorRow)
      → Rowwise
          (λ x y. IsMarkedAnchor x y ((x.project_id ≡ project_id) × Condition x.claim_ref))
          anchors
          (map (mark_anchor project_id refs) anchors)
  unfolding mark_anchor
  mark_anchor-Rowwise Condition exact [] = tt
  mark_anchor-Rowwise Condition exact (anchor ∷ anchors) = (
    record {
      kept = refl;
      mark = or_condition anchor.stale _ (
        λ h. let p = (and-true_iff _ _).0 h in ((eq_iff _ _).0 p.0, (exact anchor.claim_ref).0 p.1),
        λ (here, c). (and-true_iff _ _).1 ((eq_iff _ _).1 here, (exact anchor.claim_ref).1 c),
      );
    },
    mark_anchor-Rowwise Condition exact anchors,
  )

module _ (project_id : String) (root_refs : List String) where
  later_root :
      (row : SemanticNodeRow) (rows : List SemanticNodeRow) (node_id : String)
      → IsRootNode project_id root_refs rows node_id
      → IsRootNode project_id root_refs (row ∷ rows) node_id
  later_root row rows node_id r = record {
    row = r.row;
    there = Memᴰ.tail r.there;
    identified = r.identified;
    in_project = r.in_project;
    ref = r.ref;
    names = r.names;
    wanted = r.wanted;
  }

  -- The test that `root_ids` makes of a row.
  abbrev is_wanted : Option String → Bool
  is_wanted external_ref = elim external_ref [ none ↦ false | some r ↦ member r root_refs ]

  wanted_by :
      (external_ref : Option String)
      → is_wanted external_ref ≡ true
      → (r : String) × (external_ref ≡ some r) × (member r root_refs ≡ true)
  wanted_by none h = cc
  wanted_by (some r) h = (r, refl, h)

  -- A root node is the first row, which then passes the test, or a later one.
  first_root :
      (row : SemanticNodeRow) (rows : List SemanticNodeRow) (node_id : String) (x : SemanticNodeRow)
      → Memᴰ x (row ∷ rows)
      → x.node_id ≡ node_id
      → x.project_id ≡ project_id
      → (ref : String) → x.external_ref ≡ some ref
      → member ref root_refs ≡ true
      → ((row.node_id ≡ node_id)
          × ((row.project_id == project_id && is_wanted row.external_ref) ≡ true))
        ⊎ IsRootNode project_id root_refs rows node_id
  first_root row rows node_id x (Memᴰ.head e) i p ref n w = inl (
      subst
        (λ (y : SemanticNodeRow).
          (y.node_id ≡ node_id) × ((y.project_id == project_id && is_wanted y.external_ref) ≡ true))
        e (i, (and-true_iff _ _).1 ((eq_iff _ _).1 p, rw n w)))
  first_root row rows node_id x (Memᴰ.tail m) i p ref n w = inr (record {
    row = x;
    there = m;
    identified = i;
    in_project = p;
    ref = ref;
    names = n;
    wanted = w;
  })

  pub root_ids-IsRootNode :
      (rows : List SemanticNodeRow) (node_id : String)
      → (member node_id (root_ids project_id root_refs rows) ≡ true)
        ↔ IsRootNode project_id root_refs rows node_id
  unfolding root_ids
  root_ids-IsRootNode [] node_id = (λ h. cc, λ h. elim h.there [ ])
  root_ids-IsRootNode (row ∷ rows) node_id =
      let later = root_ids-IsRootNode rows node_id in
      elim (Bool-cases (row.project_id == project_id && is_wanted row.external_ref)) [
        | inr out ↦ rw out (
          λ h. later_root row rows node_id (later.0 h),
          λ h.
              elim (first_root row rows node_id h.row h.there h.identified h.in_project h.ref
                h.names h.wanted) [ inl (_, taken) ↦ cc (out, taken) | inr r ↦ later.1 r ],
        )
        | inl taken ↦ rw taken (
          λ h. elim ((or-true_iff _ _).0 h) [
            | inl mine ↦
                let (here, wanted) = (and-true_iff _ _).0 taken in
                let (ref, names, listed) = wanted_by row.external_ref wanted in
                record {
                  row = row;
                  there = Memᴰ.head refl;
                  identified = (eq_iff _ _).0 mine;
                  in_project = (eq_iff _ _).0 here;
                  ref = ref;
                  names = names;
                  wanted = listed;
                }
            | inr others ↦ later_root row rows node_id (later.0 others)
          ],
          λ h.
              (or-true_iff _ _).1
                (elim (first_root row rows node_id h.row h.there h.identified h.in_project h.ref
                  h.names h.wanted) [
                    | inl (same, _) ↦ inl ((eq_iff _ _).1 same)
                    | inr r ↦ inr (later.1 r)
                  ]),
        )
      ]
