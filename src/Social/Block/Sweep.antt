-- ===== src/Social/Block/Sweep.antt =====
-- A loop of `_set_peer_block` (social.py) over the rows of a table, each written back under its own key.
use agent_comm.Prelude.{
  String, Bool, true, false, some, [], ◌∷◌, ◌≡◌, refl, sym, ◌∙◌, subst, ap, ◌⊎◌, inl, inr, arith,
  same, same_iff, Bool-cases, if◌then◌else◌,
}
use Prim.Native.Nat.{Ordering}
use Prim.Native.String.{compare}
use agent_comm.Table.{Table, get, put, rows}
use agent_comm.Table.Laws.{get-put_self, get-put_ne}
use agent_comm.Table.Sorted.{Each, IsSorted}
use agent_comm.Social.Block.{each}

-- `view` is the table of the state, `p` the test, `f` the change of a row and `step` its write.
module _ {V S : Type 0} (view : S → Table V) (id : V → String) (p : V → Bool) (f : V → V)
    (step : V → S → S)
    (writes : (x : V) (s : S) → view (step x s) ≡ put (id x) (f x) (view s)) where
  -- The rows that the loop has still to read are in the table.
  abbrev Waits : Table V → S → Type 0
  Waits u s = Each (λ k v. (id v ≡ k) × (get (view s) k ≡ some v)) u

  Waits-on :
      (k : String) (v : V) (u : Table V) (s : S)
      → id v ≡ k
      → Each (λ j w. compare k j ≡ Ordering.lt) u
      → Waits u s
      → Waits u (if p v then step v s else s)
  Waits-on k v [] s e a h = tt
  Waits-on k v ((j, w) ∷ u) s e (c, a) ((i, g), h) =
      let apart : same k j ≡ false = rw c refl in
      let ne : id v ≡ j → ⊥ = λ n. cc (apart, (same_iff k j).1 (sym e ∙ n)) in
      elim (Bool-cases (p v)) [
        | inl t ↦ (
          (i, rw t (ap (λ x. get x j) (writes v s) ∙ get-put_ne (id v) j (f v) (view s) ne ∙ g)),
          Waits-on k v u s e a h,
        )
        | inr t ↦ ((i, rw t g), Waits-on k v u s e a h)
      ]

  -- A relation that each write keeps is kept by the loop.
  pub sweep_moves :
      (R : S → S → Type 0)
      → ((s : S) → R s s)
      → ((s t u : S) → R s t → R t u → R s u)
      → ((x : V) (s : S) → get (view s) (id x) ≡ some x → p x ≡ true → R s (step x s))
      → (u : Table V) (s : S) → IsSorted u
      → Waits u s
      → R s (each p step (rows u) s)
  unfolding each rows
  sweep_moves R r t m [] s a h = r s
  sweep_moves R r t m ((k, v) ∷ u) s (b, a) ((i, g), h) =
      let s1 = if p v then step v s else s in
      let first : R s s1 = elim (Bool-cases (p v)) [
        | inl e ↦ rw e (m v s (subst (λ x. get (view s) x ≡ some v) (sym i) g) e)
        | inr e ↦ rw e (r s)
      ] in
      t s s1 (each p step (rows u) s1) first (sweep_moves R r t m u s1 a (Waits-on k v u s i b h))

  -- A row that is read later was not to be changed, or it still waits.
  abbrev Left : Table V → S → Type 0
  Left u s = (j : String) (x : V) → get (view s) j ≡ some x → (p x ≡ false) ⊎ (get u j ≡ some x)

  Left-on :
      ((x : V) → p (f x) ≡ false)
      → (k : String) (v : V) (u : Table V) (s : S) → id v ≡ k
      → Left ((k, v) ∷ u) s
      → Left u (if p v then step v s else s)
  unfolding get
  Left-on done k v u s e h j x g = elim (Bool-cases (p v)) [
    | inl t ↦
        let after : get (view (step v s)) j ≡ some x =
          subst (λ b. get (view (if b then step v s else s)) j ≡ some x) t g in
        let seen : get (put k (f v) (view s)) j ≡ some x =
          subst (λ i. get (put i (f v) (view s)) j ≡ some x) e
            (ap (λ w. get w j) (sym (writes v s)) ∙ after) in
        elim (Bool-cases (same k j)) [
          | inl c ↦
              let row : get (put k (f v) (view s)) j ≡ some (f v) =
                subst (λ i. get (put k (f v) (view s)) i ≡ some (f v)) ((same_iff k j).0 c)
                  (get-put_self k (f v) (view s)) in
              let same_row : x ≡ f v = cc in inl (ap p same_row ∙ done v)
          | inr c ↦
              let ne : k ≡ j → ⊥ = λ i. cc (c, (same_iff k j).1 i) in
              elim (h j x (sym (get-put_ne k j (f v) (view s) ne) ∙ seen)) [
                | inl q ↦ inl q
                | inr q ↦ inr (ground arith)
              ]
        ]
    | inr t ↦
        let before : get (view s) j ≡ some x =
          subst (λ b. get (view (if b then step v s else s)) j ≡ some x) t g in
        elim (h j x before) [
          | inl q ↦ inl q
          | inr q ↦ elim (Bool-cases (same k j)) [
            | inl c ↦ let same_row : v ≡ x = ground arith in inl (ap p (sym same_row) ∙ t)
            | inr c ↦ inr (ground arith)
          ]
        ]
  ]

  -- After the loop no row is left to change.
  pub sweep_done :
      ((x : V) → p (f x) ≡ false)
      → (u : Table V) (s : S) → Each (λ k v. id v ≡ k) u
      → Left u s
      → (j : String) (x : V) → get (view (each p step (rows u) s)) j ≡ some x
      → p x ≡ false
  unfolding each rows get
  sweep_done done [] s a h j x g = elim (h j x g) [ inl e ↦ e | inr e ↦ ground arith ]
  sweep_done done ((k, v) ∷ u) s (i, a) h j x g =
      sweep_done done u (if p v then step v s else s) a (Left-on done k v u s i h) j x g
