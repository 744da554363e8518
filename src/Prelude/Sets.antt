-- ===== src/Prelude/Sets.antt =====
-- `sorted(set(xs))`: strictly sorted lists of texts.
use mathlib.Core.List.{List, [], ◌∷◌}
use Prim.Native.Nat.{Ordering}
use Prim.Native.String.{String, compare}

unfoldable pub insert : String → List String → List String
insert s [] = s ∷ []
insert s (x ∷ xs) =
    let rest = insert s xs in
    elim (compare s x) [ Ordering.lt ↦ s ∷ x ∷ xs | Ordering.eq ↦ x ∷ xs | Ordering.gt ↦ x ∷ rest ]

-- `sorted({x for x in xs})`
unfoldable pub sort_set : List String → List String
unfolding insert
sort_set [] = []
sort_set (x ∷ xs) = insert x (sort_set xs)
