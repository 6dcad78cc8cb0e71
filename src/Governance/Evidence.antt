-- ===== src/Governance/Evidence.antt =====
-- The evidence of a decision under src/forge_controller/governance.py, as a list without repetition.
use hermes_dev_team_vm.Prelude.{
  ◌≡◌, refl, ◌∙◌, String, true, false, ◌||◌, List, [], ◌∷◌, ◌++◌, member, Bool-cases, inl, inr,
  eq_iff, eq_refl, arith, member-append,
}
use hermes_dev_team_vm.Governance.{distinct_from, distinct}

member-distinct_from :
    (x : String) (seen refs : List String)
    → (member x seen || member x (distinct_from seen refs)) ≡ (member x seen || member x refs)
unfolding distinct_from
member-distinct_from x seen [] = refl
member-distinct_from x seen (r ∷ refs) =
    ground (arith, member-distinct_from x (r ∷ seen) refs, eq_iff r x)

-- Each element once.
abbrev pub IsDistinct : List String → Type 0
IsDistinct [] = Unit
IsDistinct (r ∷ refs) = (member r refs ≡ false) × IsDistinct refs

fresh-distinct_from :
    (x : String) (seen refs : List String)
    → member x seen ≡ true
    → member x (distinct_from seen refs) ≡ false
unfolding distinct_from
fresh-distinct_from x seen [] h = refl
fresh-distinct_from x seen (r ∷ refs) h =
    ground (arith, fresh-distinct_from x (r ∷ seen) refs, eq_iff r x)

distinct_from-IsDistinct : (seen refs : List String) → IsDistinct (distinct_from seen refs)
unfolding distinct_from
distinct_from-IsDistinct seen [] = tt
distinct_from-IsDistinct seen (r ∷ refs) = elim (Bool-cases (member r seen)) [
  | inl old ↦ rw old (distinct_from-IsDistinct (r ∷ seen) refs)
  | inr new ↦ rw new (
    fresh-distinct_from r (r ∷ seen) refs (ground (arith, eq_refl r)),
    distinct_from-IsDistinct (r ∷ seen) refs,
  )
]

pub member-distinct :
    (x : String) (old new : List String)
    → member x (distinct (old ++ new)) ≡ (member x old || member x new)
unfolding distinct
member-distinct x old new = member-distinct_from x [] (old ++ new) ∙ member-append x old new

pub distinct-IsDistinct : (refs : List String) → IsDistinct (distinct refs)
unfolding distinct
distinct-IsDistinct refs = distinct_from-IsDistinct [] refs
