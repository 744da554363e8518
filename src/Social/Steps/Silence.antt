-- ===== src/Social/Steps/Silence.antt =====
-- A blocked peer gets nothing, and nothing of it is shown.
use agent_comm.Prelude.{
  ℕ, String, Bool, true, false, none, some, [], ◌∷◌, ◌≡◌, ◌≢◌, refl, sym, ◌∙◌, subst, ap, arith,
  inl, inr, Option-cases,
}
use agent_comm.Table.{get}
use agent_comm.Remote.State.{ok}
use agent_comm.Store.State.{Env, Core}
use agent_comm.Store.Records.{principal}
use agent_comm.Store.Dispatch.{Transport, Message, attempted, deliver}
use agent_comm.Store.Dispatch.Limits.{attempted_lem}
use agent_comm.Social.State.{Letter, Outgoing, Inbound, Social, Neighbours}
use agent_comm.Social.Peers.{key, peer_blocked, can_send_to}
use agent_comm.Social.Outbox.{Answer, Turn, submit_one}
use agent_comm.Social.Outbox.Submit.{letter_of, submit_one_lem}
use agent_comm.Social.Inbox.{Db, message_visible}
use agent_comm.Social.Mixin.{Others, mixins, as_store}
use agent_comm.Social.Spec.Sound.{IsSound}
use agent_comm.Social.Spec.Lasting.{StaysBlocked, Moves-blocked}
use agent_comm.Social.Steps.{Steps, Steps-Moves}

module _ (E : Env) where
  peer_blocked_row :
      (urn owner : String) (s : Social)
      → peer_blocked E urn owner s ≡ true
      → StaysBlocked (key E (principal owner ∷ urn ∷ [])) s
  unfolding peer_blocked
  peer_blocked_row urn owner s h =
      elim (Option-cases (get s.blocks (key E (principal owner ∷ urn ∷ [])))) [
        | inl e ↦ ground arith
        | inr (b, e) ↦ (b, e, ground arith)
      ]

  row_peer_blocked :
      (urn owner : String) (s : Social)
      → StaysBlocked (key E (principal owner ∷ urn ∷ [])) s
      → peer_blocked E urn owner s ≡ true
  unfolding peer_blocked
  row_peer_blocked urn owner s (b, e, t) = rw (e, peer_blocked) t

  -- A block is the principal's, whichever session asks.
  peer_blocked_principal :
      (urn a b : String) (s : Social)
      → principal a ≡ principal b
      → peer_blocked E urn a s ≡ peer_blocked E urn b s
  unfolding peer_blocked
  peer_blocked_principal urn a b s e =
      ap (λ p. elim (get s.blocks (key E (p ∷ urn ∷ []))) [ none ↦ false | some x ↦ x.blocked ]) e

  can_send_to-blocked :
      (urn owner : String) (c : Core) (s : Social)
      → can_send_to E urn owner c s ≡ true
      → peer_blocked E urn owner s ≡ false
  unfolding can_send_to
  can_send_to-blocked urn owner c s h = ground arith

module _ (E : Env) (N : Neighbours) (O : Others N) where
  -- After the owner has blocked a peer, and until this block is lifted, whatever runs in between: no
  -- flush hands over a letter of this owner to the peer, no delivery of `dispatch` for this owner
  -- sends a message to it, and no message from it is shown to this owner.
  pub blocked_gets_nothing :
      (urn owner : String) (d d' : Db E N)
      → IsSound (d.1)
      → peer_blocked E urn owner (d.1) ≡ true
      → Steps E N (λ k. k ≢ key E (principal owner ∷ urn ∷ [])) d d'
      → ((r o : Outgoing) (transport : Letter → Answer) (now : ℕ) (s : Social) (t : Turn E)
            (m : Letter)
          → submit_one E r transport now (d'.0) (d'.1) ≡ (t, s)
          → letter_of E t ≡ some m
          → get (d'.1.outbox) r.message_id ≡ some o
          → principal o.owner_id ≡ principal owner
          → m.recipient_urn ≢ urn)
        × ((id message_id : String) (transport : Transport) (now : ℕ)
              (d2 : Core × (Social × N.State)) (m : Message)
            → deliver E (mixins E N O) id message_id owner transport now (as_store E N d')
              ≡ ok (attempted m, d2)
            → m.recipient_urn ≢ urn)
        × ((review_gate : Bool) (m : Inbound)
            → m.sender_urn ≡ urn
            → message_visible E N review_gate m owner d' ≡ false)
  unfolding message_visible
  blocked_gets_nothing urn owner d d' h b ss =
      let k = key E (principal owner ∷ urn ∷ []) in
      let row : StaysBlocked k (d'.1) =
        Moves-blocked k (λ n. n refl) (d.1) (d'.1) (Steps-Moves E N d d' h ss)
          (peer_blocked_row E urn owner (d.1) b) in
      let still : peer_blocked E urn owner (d'.1) ≡ true =
        row_peer_blocked E urn owner (d'.1) row in
      (
        λ r o transport now s t m e l g w n.
            let (p, g', l', f) = submit_one_lem E r transport now (d'.0) (d'.1) s t m e l in
            let free : peer_blocked E p.letter.recipient_urn p.owner_id (d'.1) ≡ false =
              ground (arith, f) in
            let same_urn : p.letter.recipient_urn ≡ urn = ap (λ x. x.recipient_urn) l' ∙ n in
            let row_same : p ≡ o = cc (g, g') in
            let mine : principal p.owner_id ≡ principal owner =
              ap (λ x. principal x.owner_id) row_same ∙ w in
            let blocked : peer_blocked E p.letter.recipient_urn p.owner_id (d'.1) ≡ true =
              ap (λ x. peer_blocked E x p.owner_id (d'.1)) same_urn
              ∙ peer_blocked_principal E urn p.owner_id owner (d'.1) mine
              ∙ still in
            cc (free, blocked),
        λ id message_id transport now d2 m e n.
            let (o, t, y, g, g', cur, f, dl, can, tx, u, i) =
              attempted_lem E (mixins E N O) id message_id owner transport now (as_store E N d') d2
                m e in
            let free = can_send_to-blocked E y.recipient_urn owner (d'.0) (d'.1) can in
            let same_urn : y.recipient_urn ≡ urn = sym u ∙ n in
            cc (still, free, ap (λ x. peer_blocked E x owner (d'.1)) same_urn),
        λ review_gate m e.
            let blocked : peer_blocked E m.sender_urn owner (d'.1) ≡ true =
              subst (λ x. peer_blocked E x owner (d'.1) ≡ true) (sym e) still in
            ground (arith, blocked),
      )
