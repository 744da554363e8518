-- ===== src/Table.antt =====
-- The rows of one kind in `collaboration_records` or `remote_records`: `_get`, `_put` and `_all`
-- (`ORDER BY id`), over rows that are sorted by their id.
pub mod Laws
pub mod Sorted
pub mod Keeps
use Prim.Native.Nat.{Ordering}
use Prim.Native.String.{compare}
use agent_comm.Prelude.{String, Option, none, some, List, [], ◌∷◌, same, if◌then◌else◌}

abbrev pub Table : Type 0 → Type 0
Table V = List (String × V)

module _ {V : Type 0} where
  -- `_get(kind, key)`
  unfoldable pub get : Table V → String → Option V
  get [] k = none
  get ((j, v) ∷ t) k = if same j k then some v else get t k

  -- `_put(kind, key, value)`
  unfoldable pub put : String → V → Table V → Table V
  put k v [] = (k, v) ∷ []
  put k v ((j, w) ∷ t) =
      let rest = put k v t in
      elim (compare k j) [
        | Ordering.lt ↦ (k, v) ∷ (j, w) ∷ t
        | Ordering.eq ↦ (k, v) ∷ t
        | Ordering.gt ↦ (j, w) ∷ rest
      ]

  -- `_all(kind)`
  unfoldable pub rows : Table V → List V
  rows [] = []
  rows ((_, v) ∷ t) = v ∷ rows t
