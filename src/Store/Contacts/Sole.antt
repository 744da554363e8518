-- ===== src/Store/Contacts/Sole.antt =====
-- A name that `resolve_contact` (store.py) resolves means one contact of the owner, and no other.
use agent_comm.Prelude.{
  same, same_iff, mem, map, ◌⊎◌, String, Bool, true, false, some, List, [], ◌∷◌, ◌++◌, ◌≡◌, refl,
  ap, sym, ◌∙◌, arith, filter, All, All-filter_nil, inl, inr, Bool-cases,
}
use agent_comm.Json.{str}
use agent_comm.Table.{rows}
use agent_comm.Policy.Evaluate.{allow}
use agent_comm.Remote.State.{ok}
use agent_comm.Store.State.{Env, Contact, Core}
use agent_comm.Store.Records.{principal}
use agent_comm.Store.Contacts.{answers_to, resolution_of, resolve_contact}

-- `x` is the one item with the property.
abbrev pub IsSole : {A : Type 0} → (A → Type 0) → A → List A → Type 0
IsSole {A} P x xs =
    (before : List A) × (after : List A) × (xs ≡ before ++ (x ∷ after))
    × P x
    × All (λ y. P y → ⊥) before
    × All (λ y. P y → ⊥) after

filter_single-IsSole :
    {A : Type 0} (p : A → Bool) (x : A) (xs : List A)
    → filter p xs ≡ x ∷ []
    → (before : List A) × (after : List A) × (xs ≡ before ++ (x ∷ after))
      × (p x ≡ true)
      × All (λ y. p y ≡ false) before
      × All (λ y. p y ≡ false) after
filter_single-IsSole p x [] h = cc
filter_single-IsSole p x (y ∷ ys) h = elim (Bool-cases (p y)) [
  | inl i ↦
      let k : filter p ys ≡ [] = ground arith in
      let e : y ≡ x = ground arith in
      ([], ys, ap (λ u. u ∷ ys) e, ground arith, tt, All-filter_nil p ys k)
  | inr i ↦
      let k : filter p ys ≡ x ∷ [] = ground arith in
      let (before, after, e, t, b, a) = filter_single-IsSole p x ys k in
      (y ∷ before, after, ap (λ u. y ∷ u) e, t, (i, b), a)
]

resolution_allow : (xs : List Contact) → resolution_of xs ≡ allow → (x : Contact) × (xs ≡ x ∷ [])
resolution_allow [] h = cc
resolution_allow (x ∷ []) h = (x, refl)
resolution_allow (x ∷ y ∷ ys) h = cc

-- One of the texts is the same but for the case.
abbrev pub HasAlias : (String → String) → String → List String → Type 0
HasAlias fold name [] = ⊥
HasAlias fold name (x ∷ xs) = (fold x ≡ fold name) ⊎ HasAlias fold name xs

mem-HasAlias :
    (fold : String → String) (name : String) (xs : List String)
    → mem (fold name) (map fold xs) ≡ true
    → HasAlias fold name xs
mem-HasAlias fold name [] h = cc
mem-HasAlias fold name (x ∷ xs) h = elim (Bool-cases (same (fold x) (fold name))) [
  | inl e ↦ inl ((same_iff (fold x) (fold name)).0 e)
  | inr e ↦ inr (mem-HasAlias fold name xs (ground arith))
]

HasAlias-mem :
    (fold : String → String) (name : String) (xs : List String)
    → HasAlias fold name xs
    → mem (fold name) (map fold xs) ≡ true
HasAlias-mem fold name [] h = absurd h
HasAlias-mem fold name (x ∷ xs) (inl e) =
    let i = (same_iff (fold x) (fold name)).1 e in ground arith
HasAlias-mem fold name (x ∷ xs) (inr h) =
    let i = HasAlias-mem fold name xs h in
    elim (Bool-cases (same (fold x) (fold name))) [ inl e ↦ ground arith | inr e ↦ ground arith ]

All-map :
    {A : Type 0} {P Q : A → Type 0} (f : (x : A) → P x → Q x) (xs : List A) → All P xs → All Q xs
All-map f [] h = tt
All-map f (x ∷ xs) (p, h) = (f x p, All-map f xs h)

module _ (E : Env) where
  -- The contact belongs to the principal of the session, and the name is its ID or one of its
  -- aliases, whatever the case.
  abbrev pub IsMeant : String → String → Contact → Type 0
  IsMeant name owner x =
      (x.owner_id ≡ principal owner) × ((x.contact_id ≡ name) ⊎ HasAlias E.casefold name x.aliases)

  answers-IsMeant :
      (name owner : String) (x : Contact) → answers_to E name owner x ≡ true → IsMeant name owner x
  answers-IsMeant name owner x h = (
    ground (arith, same_iff x.owner_id (principal owner)),
    elim (Bool-cases (same x.contact_id name)) [
      | inl e ↦ inl ((same_iff x.contact_id name).0 e)
      | inr e ↦ inr (mem-HasAlias E.casefold name x.aliases (ground arith))
    ],
  )

  IsMeant-answers :
      (name owner : String) (x : Contact) → IsMeant name owner x → answers_to E name owner x ≡ true
  IsMeant-answers name owner x (o, inl e) =
      let i = (same_iff x.owner_id (principal owner)).1 o in
      let j = (same_iff x.contact_id name).1 e in ground arith
  IsMeant-answers name owner x (o, inr a) =
      let i = (same_iff x.owner_id (principal owner)).1 o in
      let j = HasAlias-mem E.casefold name x.aliases a in
      elim (Bool-cases (same x.contact_id name)) [ inl e ↦ ground arith | inr e ↦ ground arith ]

  not-IsMeant :
      (name owner : String) (x : Contact)
      → answers_to E name owner x ≡ false
      → IsMeant name owner x
      → ⊥
  not-IsMeant name owner x h m = let i = IsMeant-answers name owner x m in cc

  -- Where a name is resolved, the answer holds one contact, which belongs to the principal of the
  -- session and has the name as its ID or, whatever the case, as one of its aliases; and no other row
  -- of the store is so.
  pub resolve_contact-IsSole :
      (name owner : String) (c : Core) (xs : List Contact)
      → resolve_contact E (some (str name)) owner c ≡ ok (allow, xs)
      → (x : Contact) × (xs ≡ x ∷ []) × IsSole (IsMeant name owner) x (rows c.contacts)
  unfolding resolve_contact
  resolve_contact-IsSole name owner c xs h =
      let matches : List Contact = filter (answers_to E name owner) (rows c.contacts) in
      let e : matches ≡ xs = ground arith in
      let a : resolution_of matches ≡ allow = ground arith in
      let (x, i) = resolution_allow matches a in
      let (before, after, s, p, b, f) =
        filter_single-IsSole (answers_to E name owner) x (rows c.contacts) i in
      (
        x,
        sym e ∙ i,
        (
          before,
          after,
          s,
          answers-IsMeant name owner x p,
          All-map (not-IsMeant name owner) before b,
          All-map (not-IsMeant name owner) after f,
        ),
      )
