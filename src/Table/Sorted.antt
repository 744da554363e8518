-- ===== src/Table/Sorted.antt =====
-- The keys of a table are strictly sorted, and then a row stands in it exactly where it is read.
use Prim.Native.Nat.{Ordering}
use Prim.Native.String.{compare}
use text.Mathlib.TextEquality.{path_by_compare}
use agent_comm.Prelude.{
  String, false, some, [], ◌∷◌, ◌≡◌, refl, ap, ◌∙◌, arith, same, same_iff, same_refl, All,
  compare-lt_trans, compare-gt_swap,
}
use agent_comm.Table.{Table, get, put, rows}

module _ {V : Type 0} where
  -- `P` holds of each row and its key.
  abbrev pub Each : (String → V → Type 0) → Table V → Type 0
  Each P [] = Unit
  Each P ((k, v) ∷ t) = P k v × Each P t

  abbrev pub IsSorted : Table V → Type 0
  IsSorted [] = Unit
  IsSorted ((k, v) ∷ t) = Each (λ j w. compare k j ≡ Ordering.lt) t × IsSorted t

  pub Each-map :
      {P Q S : String → V → Type 0} (f : (k : String) (v : V) → P k v → Q k v → S k v) (t : Table V)
      → Each P t
      → Each Q t
      → Each S t
  Each-map f [] a b = tt
  Each-map f ((k, v) ∷ t) (p, a) (q, b) = (f k v p q, Each-map f t a b)

  pub put-Each :
      (P : String → V → Type 0) (k : String) (v : V) (t : Table V)
      → P k v
      → Each P t
      → Each P (put k v t)
  unfolding put
  put-Each P k v [] h a = (h, tt)
  put-Each P k v ((i, w) ∷ t) h (p, a) = go (compare k i) refl (put-Each P k v t h a)
    where
      go : (o : Ordering) → compare k i ≡ o → Each P (put k v t) → Each P (put k v ((i, w) ∷ t))
      go Ordering.lt e ih = rw (e, put) (h, (p, a))
      go Ordering.eq e ih = rw (e, put) (h, a)
      go Ordering.gt e ih = rw (e, put) (p, ih)

  pub put-IsSorted : (k : String) (v : V) (t : Table V) → IsSorted t → IsSorted (put k v t)
  unfolding put
  put-IsSorted k v [] h = (tt, tt)
  put-IsSorted k v ((i, w) ∷ t) (a, h) = go (compare k i) refl (put-IsSorted k v t h)
    where
      go : (o : Ordering) → compare k i ≡ o → IsSorted (put k v t) → IsSorted (put k v ((i, w) ∷ t))
      go Ordering.lt e ih =
          rw (e, put) ((e, Each-map (λ j u p q. compare-lt_trans k i j e p) t a a), (a, h))
      go Ordering.eq e ih =
          let f = path_by_compare k i e in
          rw (e, put) (Each-map (λ j u p q. ap (λ x. compare x j) f ∙ p) t a a, h)
      go Ordering.gt e ih =
          rw (e, put)
            (put-Each (λ j u. compare i j ≡ Ordering.lt) k v t (compare-gt_swap k i e) a, ih)

  get-above :
      (i j : String) (w : V) (t : Table V)
      → compare i j ≡ Ordering.lt
      → get ((i, w) ∷ t) j ≡ get t j
  unfolding get
  get-above i j w t e = let apart : same i j ≡ false = rw e refl in rw apart refl

  -- Each row of a sorted table is what a read of its key gives.
  pub Each-get : (t : Table V) → IsSorted t → Each (λ k v. get t k ≡ some v) t
  unfolding get
  Each-get [] h = tt
  Each-get ((k, v) ∷ t) (a, h) =
      (rw (same_refl k) refl, Each-map (λ j u p q. get-above k j v t p ∙ q) t a (Each-get t h))

  -- What holds of each row by its key holds of the list of rows.
  pub Each-rows : (P : V → Type 0) (t : Table V) → Each (λ k v. P v) t → All P (rows t)
  unfolding rows
  Each-rows P [] h = tt
  Each-rows P ((k, v) ∷ t) (p, h) = (p, Each-rows P t h)

  -- A row that is read stands in the table, whatever its order.
  pub get-Each :
      (P : String → V → Type 0) (t : Table V) (k : String) (v : V)
      → Each P t
      → get t k ≡ some v
      → P k v
  unfolding get
  get-Each P [] k v a h = ground arith
  get-Each P ((j, w) ∷ t) k v (p, a) h = grind (arith, same_iff j k, get-Each P t k v a)
