-- ===== src/Table/Laws.antt =====
-- The laws of a table.
use Prim.Native.Nat.{ℕ, Ordering, ◌+◌, ◌≤◌}
use Prim.Native.String.{compare}
use text.Mathlib.TextEquality.{path_by_compare}
use agent_comm.Prelude.{
  String, Bool, false, some, List, [], ◌∷◌, ◌≡◌, refl, ◌≢◌, arith, same, same_iff, same_refl, All,
  if◌then◌else◌,
}
use agent_comm.Table.{Table, get, put, rows}

module _ {V : Type 0} where
  -- A read after a write: the new row under its key, and every other row as before.
  pub get-put :
      (k j : String) (v : V) (t : Table V)
      → get (put k v t) j ≡ (if same k j then some v else get t j)
  unfolding get put
  get-put k j v [] = refl
  get-put k j v ((i, w) ∷ t) = go (compare k i) refl (get-put k j v t)
    where
      go :
          (o : Ordering)
          → compare k i ≡ o
          → get (put k v t) j ≡ (if same k j then some v else get t j)
          → get (put k v ((i, w) ∷ t)) j ≡ (if same k j then some v else get ((i, w) ∷ t) j)
      go Ordering.lt e ih = rw (e, put) refl
      go Ordering.eq e ih = rw (e, put) (ground (arith, path_by_compare k i e))
      go Ordering.gt e ih =
          let apart : same k i ≡ false = rw e refl in
          rw (e, put) (ground (arith, apart, ih, same_iff i j, same_iff k j, same_iff k i))

  pub get-put_self : (k : String) (v : V) (t : Table V) → get (put k v t) k ≡ some v
  get-put_self k v t = rw get-put (ground (arith, same_refl k))

  pub get-put_ne : (k j : String) (v : V) (t : Table V) → k ≢ j → get (put k v t) j ≡ get t j
  get-put_ne k j v t h = rw get-put (ground (arith, same_iff k j))

  pub put-All :
      (P : V → Type 0) (k : String) (v : V) (t : Table V)
      → P v
      → All P (rows t)
      → All P (rows (put k v t))
  unfolding put rows
  put-All P k v [] h a = (h, tt)
  put-All P k v ((i, w) ∷ t) h (p, a) = go (compare k i) refl (put-All P k v t h a)
    where
      go :
          (o : Ordering)
          → compare k i ≡ o
          → All P (rows (put k v t))
          → All P (rows (put k v ((i, w) ∷ t)))
      go Ordering.lt e ih = rw (e, put) (h, (p, a))
      go Ordering.eq e ih = rw (e, put) (h, a)
      go Ordering.gt e ih = rw (e, put) (p, ih)

  -- How many items pass a test.
  abbrev pub count : (V → Bool) → List V → ℕ
  count p [] = 0
  count p (x ∷ xs) = (if p x then 1 else 0) + count p xs

  pub count-put :
      (p : V → Bool) (k : String) (v : V) (t : Table V)
      → count p (rows (put k v t)) ≤ (if p v then 1 else 0) + count p (rows t)
  unfolding put rows
  count-put p k v [] = omega arith
  count-put p k v ((i, w) ∷ t) = go (compare k i) refl (count-put p k v t)
    where
      go :
          (o : Ordering)
          → compare k i ≡ o
          → count p (rows (put k v t)) ≤ (if p v then 1 else 0) + count p (rows t)
          → count p (rows (put k v ((i, w) ∷ t)))
            ≤ (if p v then 1 else 0) + count p (rows ((i, w) ∷ t))
      go Ordering.lt e ih = rw (e, put) (omega arith)
      go Ordering.eq e ih = rw (e, put) (omega arith)
      go Ordering.gt e ih = rw (e, put) (omega arith)
