-- ===== src/Routing/Ranking.antt =====
-- The order of src/forge_controller/router.py: the sort puts a greatest score first.
use hermes_dev_team_vm.Prelude.{
  Floats, IsOrder, ◌≡◌, ◌↔◌, true, false, List, [], ◌∷◌, All, All-map, Bool-cases, inl, inr, arith,
}
use hermes_dev_team_vm.Routing.{ModelCandidate, before, insert_entry, sort_entries}

module _ {Score : Type 0} (floats : Floats Score) (order : IsOrder floats) where
  -- No item of the list has a greater score.
  abbrev pub IsTop : Score → List (Score × ModelCandidate Score) → Type 0
  IsTop score = All (λ (s, _). floats.at_most s score ≡ true)

  -- The first item has a greatest score.
  abbrev pub IsRanked : List (Score × ModelCandidate Score) → Type 0
  IsRanked [] = Unit
  IsRanked ((score, c) ∷ rest) = IsTop score rest

  pub at_most_refl : (s : Score) → floats.at_most s s ≡ true
  at_most_refl s = elim (Bool-cases (floats.at_most s s)) [
    | inl holds ↦ holds
    | inr fails ↦ order.total s s fails
  ]

  before_at_most :
      (a b : Score × ModelCandidate Score)
      → before floats a b ≡ true
      → floats.at_most b.0 a.0 ≡ true
  unfolding before
  before_at_most (s, a) (t, b) h = elim (Bool-cases (floats.at_most s t)) [
    | inr fails ↦ order.total s t fails
    | inl holds ↦ elim (Bool-cases (floats.at_most t s)) [
      | inl back ↦ back
      | inr fails ↦ ground arith
    ]
  ]

  not_before_at_most :
      (a b : Score × ModelCandidate Score)
      → before floats a b ≡ false
      → floats.at_most a.0 b.0 ≡ true
  unfolding before
  not_before_at_most (s, a) (t, b) h = elim (Bool-cases (floats.at_most s t)) [
    | inl holds ↦ holds
    | inr fails ↦ ground arith
  ]

  insert_entry-IsTop :
      (score : Score) (item : Score × ModelCandidate Score)
      (items : List (Score × ModelCandidate Score))
      → floats.at_most item.0 score ≡ true
      → IsTop score items
      → IsTop score (insert_entry floats item items)
  unfolding insert_entry
  insert_entry-IsTop score item [] h t = (h, tt)
  insert_entry-IsTop score item (other ∷ rest) h t = elim (Bool-cases (before floats other item)) [
    | inl holds ↦ rw holds (t.0, insert_entry-IsTop score item rest h t.1)
    | inr fails ↦ rw fails (h, t)
  ]

  insert_entry-IsRanked :
      (item : Score × ModelCandidate Score) (items : List (Score × ModelCandidate Score))
      → IsRanked items
      → IsRanked (insert_entry floats item items)
  unfolding insert_entry
  insert_entry-IsRanked item [] h = tt
  insert_entry-IsRanked item ((s, other) ∷ rest) h =
      elim (Bool-cases (before floats (s, other) item)) [
        | inl holds ↦
            rw holds (insert_entry-IsTop s item rest (before_at_most (s, other) item holds) h)
        | inr fails ↦
            let le = not_before_at_most (s, other) item fails in
            rw fails (le, All-map rest (λ (t, _) q. order.trans t s item.0 q le) h)
      ]

  pub sort_entries-IsRanked :
      (items : List (Score × ModelCandidate Score)) → IsRanked (sort_entries floats items)
  unfolding sort_entries
  sort_entries-IsRanked [] = tt
  sort_entries-IsRanked (item ∷ items) =
      insert_entry-IsRanked item (sort_entries floats items) (sort_entries-IsRanked items)

  -- The sort loses and invents nothing.
  insert_entry-All :
      (P : Score × ModelCandidate Score → Type 0) (item : Score × ModelCandidate Score)
      (items : List (Score × ModelCandidate Score))
      → All P (insert_entry floats item items) ↔ (P item × All P items)
  unfolding insert_entry
  insert_entry-All P item [] = (λ h. h, λ h. h)
  insert_entry-All P item (other ∷ rest) = elim (Bool-cases (before floats other item)) [
    | inl holds ↦
        let r = insert_entry-All P item rest in
        rw holds (λ h. let q = r.0 h.1 in (q.0, (h.0, q.1)), λ h. (h.1.0, r.1 (h.0, h.1.1)))
    | inr fails ↦ rw fails (λ h. h, λ h. h)
  ]

  pub sort_entries-All :
      (P : Score × ModelCandidate Score → Type 0) (items : List (Score × ModelCandidate Score))
      → All P (sort_entries floats items) ↔ All P items
  unfolding sort_entries
  sort_entries-All P [] = (λ h. h, λ h. h)
  sort_entries-All P (item ∷ items) =
      let r = insert_entry-All P item (sort_entries floats items) in
      let q = sort_entries-All P items in
      (λ h. let x = r.0 h in (x.0, q.0 x.1), λ h. r.1 (h.0, q.1 h.1))
