-- ===== src/Table/Keeps.antt =====
-- Rows that last from one table to another, each related to what it has become.
use agent_comm.Prelude.{
  String, none, some, ◌≡◌, sym, ◌∙◌, subst, inl, inr, same, same_iff, Bool-cases,
}
use agent_comm.Table.{Table, get, put}
use agent_comm.Table.Laws.{get-put_self, get-put_ne}

module _ {V : Type 0} where
  abbrev pub Keeps : (V → V → Type 0) → Table V → Table V → Type 0
  Keeps R t u = (j : String) (x : V) → get t j ≡ some x → (y : V) × (get u j ≡ some y) × R x y

  pub Keeps-refl : (R : V → V → Type 0) → ((x : V) → R x x) → (t : Table V) → Keeps R t t
  Keeps-refl R r t j x e = (x, e, r x)

  pub Keeps-trans :
      (R : V → V → Type 0)
      → ((x y z : V) → R x y → R y z → R x z)
      → (t u v : Table V) → Keeps R t u
      → Keeps R u v
      → Keeps R t v
  Keeps-trans R step t u v f g j x e =
      let (y, h, p) = f j x e in let (z, i, q) = g j y h in (z, i, step x y z p q)

  -- A write in place of a row that is related to the new one.
  pub put-Keeps :
      (R : V → V → Type 0)
      → ((x : V) → R x x)
      → (t : Table V) (k : String) (v w : V) → get t k ≡ some v
      → R v w
      → Keeps R t (put k w t)
  put-Keeps R r t k v w e p j x f = elim (Bool-cases (same k j)) [
    | inl h ↦
        let i : k ≡ j = (same_iff k j).0 h in
        let same_row : x ≡ v = cc in
        (
          w,
          subst (λ k'. get (put k w t) k' ≡ some w) i (get-put_self k w t),
          subst (λ x'. R x' w) (sym same_row) p,
        )
    | inr h ↦
        let apart : k ≡ j → ⊥ = λ i. cc (h, (same_iff k j).1 i) in
        (x, get-put_ne k j w t apart ∙ f, r x)
  ]

  -- A write under a new key.
  pub put-Keeps_new :
      (R : V → V → Type 0)
      → ((x : V) → R x x)
      → (t : Table V) (k : String) (w : V) → get t k ≡ none
      → Keeps R t (put k w t)
  put-Keeps_new R r t k w e j x f = (x, get-put_ne k j w t (λ i. cc) ∙ f, r x)
