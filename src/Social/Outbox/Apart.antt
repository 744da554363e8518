-- ===== src/Social/Outbox/Apart.antt =====
-- The records of an outbox whose rows stand under their own identifiers (social.py).
use agent_comm.Prelude.{
  ℕ, zero, suc, ◌≤◌, String, Bool, true, false, some, List, [], ◌∷◌, ◌≡◌, refl, sym, ap, subst, ◌⊎◌,
  inl, inr, arith, same, Bool-cases, filter, take, length, All,
}
use Prim.Native.Nat.{Ordering}
use Prim.Native.String.{compare}
use agent_comm.Table.{Table, get, rows}
use agent_comm.Table.Sorted.{Each, IsSorted, Each-get, Each-rows, Each-map}
use agent_comm.Social.State.{Outgoing}

abbrev pub In : Outgoing → List Outgoing → Type 0
In x [] = ⊥
In x (r ∷ rs) = (x ≡ r) ⊎ In x rs

-- No two records have one identifier.
abbrev pub Apart : List Outgoing → Type 0
Apart [] = Unit
Apart (r ∷ rs) = All (λ y. same r.message_id y.message_id ≡ false) rs × Apart rs

above :
    (k : String) (r : Outgoing) (t : Table Outgoing)
    → r.message_id ≡ k
    → Each (λ j w. compare k j ≡ Ordering.lt) t
    → Each (λ j w. w.message_id ≡ j) t
    → All (λ y. same r.message_id y.message_id ≡ false) (rows t)
unfolding rows
above k r [] e a b = tt
above k r ((j, w) ∷ t) e (c, a) (i, b) =
    let apart : same k j ≡ false = rw c refl in (rw e (rw i apart), above k r t e a b)

pub rows-Apart :
    (t : Table Outgoing) → IsSorted t → Each (λ k o. o.message_id ≡ k) t → Apart (rows t)
unfolding rows
rows-Apart [] h e = tt
rows-Apart ((k, v) ∷ t) (a, h) (i, e) = (above k v t i a e, rows-Apart t h e)

pub All-filter :
    (P : Outgoing → Type 0) (p : Outgoing → Bool) (xs : List Outgoing)
    → All P xs
    → All (λ x. P x × (p x ≡ true)) (filter p xs)
All-filter P p [] h = tt
All-filter P p (x ∷ xs) (a, h) = elim (Bool-cases (p x)) [
  | inl e ↦ rw e ((a, e), All-filter P p xs h)
  | inr e ↦ rw e (All-filter P p xs h)
]

All-first : (P Q : Outgoing → Type 0) (xs : List Outgoing) → All (λ x. P x × Q x) xs → All P xs
All-first P Q [] h = tt
All-first P Q (x ∷ xs) ((a, b), h) = (a, All-first P Q xs h)

pub Apart-filter : (p : Outgoing → Bool) (xs : List Outgoing) → Apart xs → Apart (filter p xs)
Apart-filter p [] h = tt
Apart-filter p (x ∷ xs) (a, h) = elim (Bool-cases (p x)) [
  | inl e ↦ rw e (
    All-first (λ y. same x.message_id y.message_id ≡ false) (λ y. p y ≡ true) (filter p xs)
        (All-filter (λ y. same x.message_id y.message_id ≡ false) p xs a),
    Apart-filter p xs h,
  )
  | inr e ↦ rw e (Apart-filter p xs h)
]

pub In-filter :
    (p : Outgoing → Bool) (x : Outgoing) (xs : List Outgoing)
    → In x xs
    → p x ≡ true
    → In x (filter p xs)
In-filter p x [] i h = i
In-filter p x (y ∷ ys) i h = elim (Bool-cases (p y)) [
  | inl t ↦ rw t (elim i [ inl e ↦ inl e | inr j ↦ inr (In-filter p x ys j h) ])
  | inr t ↦ rw t (elim i [ inl e ↦ absurd (cc (h, t, ap p e)) | inr j ↦ In-filter p x ys j h ])
]

pub get-In : (t : Table Outgoing) (j : String) (x : Outgoing) → get t j ≡ some x → In x (rows t)
unfolding get rows
get-In [] j x e = cc
get-In ((k, v) ∷ t) j x e = elim (Bool-cases (same k j)) [
  | inl c ↦ inl (ground arith)
  | inr c ↦ inr (get-In t j x (ground arith))
]

pub rows_present :
    (t : Table Outgoing)
    → IsSorted t
    → Each (λ k o. o.message_id ≡ k) t
    → All (λ r. get t r.message_id ≡ some r) (rows t)
rows_present t h e =
    Each-rows (λ r. get t r.message_id ≡ some r) t
      (Each-map (λ k r g i. subst (λ u. get t u ≡ some r) (sym i) g) t (Each-get t h) e)

pub take-all : (n : ℕ) (xs : List Outgoing) → length xs ≤ n → take n xs ≡ xs
take-all zero [] h = refl
take-all zero (x ∷ xs) h = ground arith
take-all (suc n) [] h = refl
take-all (suc n) (x ∷ xs) h = ap (λ u. x ∷ u) (take-all n xs (omega arith))
