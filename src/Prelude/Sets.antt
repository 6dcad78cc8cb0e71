-- ===== src/Prelude/Sets.antt =====
-- Python's sets of texts where they end in `sorted(...)`: lists in strictly increasing order of code
-- points, built by insertion.
use Prim.Native.Nat.{Ordering}
use Prim.Native.String.{String, compare}
use mathlib.Core.Path.{◌≡◌, refl}
use mathlib.Core.Bool.{◌||◌}
use mathlib.Core.List.{List, [], ◌∷◌}
use native.Mathlib.Omega.{arith}
use text.Mathlib.Text.{◌==◌}
use text.Mathlib.TextEquality.{eq_iff, path_by_compare}
use hermes_dev_team_vm.Prelude.Lists.{member}

-- The set with one more element.
unfoldable pub insert_sorted : String → List String → List String
insert_sorted s [] = s ∷ []
insert_sorted s (x ∷ xs) =
    let rest = insert_sorted s xs in
    elim (compare s x) [ Ordering.lt ↦ s ∷ x ∷ xs | Ordering.eq ↦ x ∷ xs | Ordering.gt ↦ x ∷ rest ]

-- set.update(elements)
unfoldable pub union_sorted : List String → List String → List String
union_sorted [] set = set
union_sorted (e ∷ elements) set = union_sorted elements (insert_sorted e set)

pub member-insert_sorted :
    (x s : String) (xs : List String) → member x (insert_sorted s xs) ≡ (s == x || member x xs)
unfolding insert_sorted
member-insert_sorted x s [] = refl
member-insert_sorted x s (y ∷ ys) =
    ground
      (arith, member-insert_sorted x s ys, eq_iff s y, eq_iff s x, eq_iff y x, path_by_compare s y)

pub member-union_sorted :
    (x : String) (elements set : List String)
    → member x (union_sorted elements set) ≡ (member x elements || member x set)
unfolding union_sorted
member-union_sorted x [] set = refl
member-union_sorted x (e ∷ elements) set =
    ground
      (arith, member-union_sorted x elements (insert_sorted e set), member-insert_sorted x e set)
