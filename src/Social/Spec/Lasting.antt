-- ===== src/Social/Spec/Lasting.antt =====
-- What no run of moves of social.py changes.
use agent_comm.Prelude.{
  String, true, some, ◌≡◌, refl, sym, subst, ap, ◌∙◌, arith, inl, inr, same, same_iff, Bool-cases,
}
use agent_comm.Table.{Table, get, put}
use agent_comm.Table.Laws.{get-put_self, get-put_ne}
use agent_comm.Table.Keeps.{Keeps, Keeps-refl, Keeps-trans, put-Keeps, put-Keeps_new}
use agent_comm.Social.State.{Block, Tombstone, ContactRequest, Outgoing, Social}
use agent_comm.Social.Spec.{
  Decides, Settles, Move, mail_moved, request_made, request_decided, peer_connected, letter_queued,
  letter_settled, tombstone_set, block_set, revision_raised, Moves, still, moved,
}
use agent_comm.Social.Spec.Sound.{Decides-refl}

Decides-trans : (r q p : ContactRequest) → Decides r q → Decides q p → Decides r p
Decides-trans r q p (i, inl w) (j, d) = (ground arith, inl w)
Decides-trans r q p (i, inr h) (j, inl w) = (ground arith, inl (sym h ∙ w))
Decides-trans r q p (i, inr h) (j, inr g) = (ground arith, inr (g ∙ h))

Settles-refl : (o : Outgoing) → Settles o o
Settles-refl o = (refl, refl, refl, refl, inr refl)

Settles-trans : (o p q : Outgoing) → Settles o p → Settles p q → Settles o q
Settles-trans o p q (a, b, c, e, inl w) (a', b', c', e', d) =
    (a' ∙ a, b' ∙ b, c' ∙ c, e' ∙ e, inl w)
Settles-trans o p q (a, b, c, e, inr h) (a', b', c', e', inl w) =
    (a' ∙ a, b' ∙ b, c' ∙ c, e' ∙ e, inl (sym h ∙ w))
Settles-trans o p q (a, b, c, e, inr h) (a', b', c', e', inr g) =
    (a' ∙ a, b' ∙ b, c' ∙ c, e' ∙ e, inr (g ∙ h))

-- The row under a key that may not be lifted stays a block.
abbrev pub StaysBlocked : String → Social → Type 0
StaysBlocked k s = (b : Block) × (get s.blocks k ≡ some b) × (b.blocked ≡ true)

-- A key that is in use stays in use.
abbrev pub StaysBuried : String → Social → Type 0
StaysBuried k s = (t : Tombstone) × (get s.tombstones k ≡ some t)

ap_get : {V : Type 0} {t u : Table V} → u ≡ t → (j : String) → get u j ≡ get t j
ap_get e j = ap (λ x. get x j) e

put_present :
    {V : Type 0} (t : Table V) (k j : String) (v x : V)
    → get t j ≡ some x
    → (y : V) × (get (put k v t) j ≡ some y)
put_present t k j v x e = elim (Bool-cases (same k j)) [
  | inl h ↦
      let i : k ≡ j = (same_iff k j).0 h in
      (v, subst (λ u. get (put k v t) u ≡ some v) i (get-put_self k v t))
  | inr h ↦ (x, get-put_ne k j v t (λ i. cc (h, (same_iff k j).1 i)) ∙ e)
]

module _ {may_lift : String → Type 0} where
  Move-requests : (s s' : Social) → Move may_lift s s' → Keeps Decides s.requests s'.requests
  Move-requests s s' (mail_moved _ _ e0 e1 e2 e3 e4 e5) =
      λ j x f. (x, ap_get e3 j ∙ f, Decides-refl x)
  Move-requests s s' (request_made _ k r e i w) =
      put-Keeps_new Decides Decides-refl s.requests k r e
  Move-requests s s' (request_decided _ k r q e d) =
      put-Keeps Decides Decides-refl s.requests k r q e d
  Move-requests s s' (peer_connected _ k j r q c e d a i) =
      put-Keeps Decides Decides-refl s.requests k r q e d
  Move-requests s s' (letter_queued _ k o e i) = Keeps-refl Decides Decides-refl s.requests
  Move-requests s s' (letter_settled _ k o p e i) = Keeps-refl Decides Decides-refl s.requests
  Move-requests s s' (tombstone_set _ k t) = Keeps-refl Decides Decides-refl s.requests
  Move-requests s s' (block_set _ k b p) = Keeps-refl Decides Decides-refl s.requests
  Move-requests s s' (revision_raised _ k n p) = Keeps-refl Decides Decides-refl s.requests

  -- A request is the same person's for good, and its answer is final.
  pub Moves-requests : (s s' : Social) → Moves may_lift s s' → Keeps Decides s.requests s'.requests
  Moves-requests s s' (still _) = Keeps-refl Decides Decides-refl s.requests
  Moves-requests s s' (moved {s' = s1} ms m) =
      Keeps-trans Decides Decides-trans s.requests s1.requests s'.requests (Moves-requests s s1 ms)
        (Move-requests s1 s' m)

  Move-outbox : (s s' : Social) → Move may_lift s s' → Keeps Settles s.outbox s'.outbox
  Move-outbox s s' (mail_moved _ _ e0 e1 e2 e3 e4 e5) =
      λ j x f. (x, ap_get e5 j ∙ f, Settles-refl x)
  Move-outbox s s' (letter_queued _ k o e i) = put-Keeps_new Settles Settles-refl s.outbox k o e
  Move-outbox s s' (letter_settled _ k o p e i) = put-Keeps Settles Settles-refl s.outbox k o p e i
  Move-outbox s s' (request_made _ k r e i w) = Keeps-refl Settles Settles-refl s.outbox
  Move-outbox s s' (request_decided _ k r q e d) = Keeps-refl Settles Settles-refl s.outbox
  Move-outbox s s' (peer_connected _ k j r q c e d a i) = Keeps-refl Settles Settles-refl s.outbox
  Move-outbox s s' (tombstone_set _ k t) = Keeps-refl Settles Settles-refl s.outbox
  Move-outbox s s' (block_set _ k b p) = Keeps-refl Settles Settles-refl s.outbox
  Move-outbox s s' (revision_raised _ k n p) = Keeps-refl Settles Settles-refl s.outbox

  -- A letter does not change, and one that was delivered or withdrawn stays so.
  pub Moves-outbox : (s s' : Social) → Moves may_lift s s' → Keeps Settles s.outbox s'.outbox
  Moves-outbox s s' (still _) = Keeps-refl Settles Settles-refl s.outbox
  Moves-outbox s s' (moved {s' = s1} ms m) =
      Keeps-trans Settles Settles-trans s.outbox s1.outbox s'.outbox (Moves-outbox s s1 ms)
        (Move-outbox s1 s' m)

  Move-blocked :
      (k : String)
      → (may_lift k → ⊥)
      → (s s' : Social) → Move may_lift s s'
      → StaysBlocked k s
      → StaysBlocked k s'
  Move-blocked k n s s' (mail_moved _ _ e0 e1 e2 e3 e4 e5) (b, e, t) = (b, ap_get e1 k ∙ e, t)
  Move-blocked k n s s' (block_set _ j c p) (b, e, t) = elim (Bool-cases (same j k)) [
    | inl h ↦
        let i : j ≡ k = (same_iff j k).0 h in
        let blocked : c.blocked ≡ true = elim p [
          | inl t' ↦ t'
          | inr l ↦ absurd (n (subst may_lift i l))
        ] in
        (c, subst (λ u. get (put j c s.blocks) u ≡ some c) i (get-put_self j c s.blocks), blocked)
    | inr h ↦ (b, get-put_ne j k c s.blocks (λ i. cc (h, (same_iff j k).1 i)) ∙ e, t)
  ]
  Move-blocked k n s s' (request_made _ j r e i w) h = h
  Move-blocked k n s s' (request_decided _ j r q e d) h = h
  Move-blocked k n s s' (peer_connected _ j l r q c e d a i) h = h
  Move-blocked k n s s' (letter_queued _ j o e i) h = h
  Move-blocked k n s s' (letter_settled _ j o p e i) h = h
  Move-blocked k n s s' (tombstone_set _ j t) h = h
  Move-blocked k n s s' (revision_raised _ j m p) h = h

  pub Moves-blocked :
      (k : String)
      → (may_lift k → ⊥)
      → (s s' : Social) → Moves may_lift s s'
      → StaysBlocked k s
      → StaysBlocked k s'
  Moves-blocked k n s s' (still _) h = h
  Moves-blocked k n s s' (moved {s' = s1} ms m) h =
      Move-blocked k n s1 s' m (Moves-blocked k n s s1 ms h)

  Move-buried :
      (k : String) (s s' : Social) → Move may_lift s s' → StaysBuried k s → StaysBuried k s'
  Move-buried k s s' (mail_moved _ _ e0 e1 e2 e3 e4 e5) (t, e) = (t, ap_get e2 k ∙ e)
  Move-buried k s s' (tombstone_set _ j u) (t, e) = put_present s.tombstones j k u t e
  Move-buried k s s' (request_made _ j r e i w) h = h
  Move-buried k s s' (request_decided _ j r q e d) h = h
  Move-buried k s s' (peer_connected _ j l r q c e d a i) h = h
  Move-buried k s s' (letter_queued _ j o e i) h = h
  Move-buried k s s' (letter_settled _ j o p e i) h = h
  Move-buried k s s' (block_set _ j b p) h = h
  Move-buried k s s' (revision_raised _ j m p) h = h

  pub Moves-buried :
      (k : String) (s s' : Social) → Moves may_lift s s' → StaysBuried k s → StaysBuried k s'
  Moves-buried k s s' (still _) h = h
  Moves-buried k s s' (moved {s' = s1} ms m) h = Move-buried k s1 s' m (Moves-buried k s s1 ms h)
