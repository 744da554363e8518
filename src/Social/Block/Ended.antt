-- ===== src/Social/Block/Ended.antt =====
-- What a block (social.py, `_set_peer_block`) leaves of the owner's unfinished work with the peer.
use agent_comm.Prelude.{
  List, ◌⊎◌, ◌≢◌, same_iff, any, ℕ, String, true, false, not, ◌&&◌, none, some, [], ◌∷◌, ◌≡◌, refl,
  sym, ◌∙◌, subst, ap, inl, inr, arith, leb, same, Bool-cases,
}
use agent_comm.Json.{str}
use agent_comm.Table.{get, rows}
use agent_comm.Table.Sorted.{Each}
use agent_comm.Table.Laws.{get-put_self}
use agent_comm.Remote.State.{ok}
use agent_comm.Remote.Parse.{identity}
use agent_comm.Remote.Handle.Answer.{Outcome-cases}
use agent_comm.Store.Contacts.Export.{identity-ok}
use agent_comm.Store.State.{Env, Contact, Operation, OperationStatus, Core}
use agent_comm.Store.Records.{principal, check_owner}
use agent_comm.Store.Requests.{is_local}
use agent_comm.Social.State.{waiting, queued, ContactRequest, Outgoing, Inbound, Social, Neighbours}
use agent_comm.Social.Peers.{is_waiting, key, safety_revision, peer_blocked}
use agent_comm.Social.Outbox.{is_settled}
use agent_comm.Social.Inbox.{Db}
use agent_comm.Social.Block.{
  each, is_unfinished, is_retiring, is_withdrawing, is_refusing, bury, retire, withdraw,
  end_messages, end_work, write_block, BlockReceipt, set_peer_block,
}
use agent_comm.Social.Block.Loops.{each_same, messages_ended, operations_ended}
use agent_comm.Social.Block.Same.{end_work_same}
use agent_comm.Social.Spec.Sound.{IsSound}

-- The peer is among the recipients.
abbrev pub HasRecipient : String → List Contact → Type 0
HasRecipient urn [] = ⊥
HasRecipient urn (x ∷ xs) = (x.urn ≡ urn) ⊎ HasRecipient urn xs

any-HasRecipient :
    (urn : String) (xs : List Contact)
    → HasRecipient urn xs
    → any (λ (x : Contact). same x.urn urn) xs ≡ true
any-HasRecipient urn [] h = absurd h
any-HasRecipient urn (x ∷ xs) (inl e) = let i = (same_iff x.urn urn).1 e in ground arith
any-HasRecipient urn (x ∷ xs) (inr h) =
    let i = any-HasRecipient urn xs h in
    elim (Bool-cases (same x.urn urn)) [ inl e ↦ ground arith | inr e ↦ ground arith ]

module _ (E : Env) (N : Neighbours) where
  not_waiting :
      (urn owner : String) (q : ContactRequest)
      → is_retiring E N urn owner q ≡ false
      → q.owner_id ≡ principal owner
      → q.peer_urn ≡ urn
      → q.status ≢ waiting
  not_waiting urn owner q h o p w =
      let i = (same_iff q.owner_id (principal owner)).1 o in
      let j = (same_iff q.peer_urn urn).1 p in
      let k : is_waiting q.status ≡ true = ap (λ s. is_waiting s) w in absurd (ground arith)

  not_queued :
      (urn owner : String) (o : Outgoing)
      → is_withdrawing E N urn owner o ≡ false
      → o.owner_id ≡ principal owner
      → o.letter.recipient_urn ≡ urn
      → o.status ≢ queued
  not_queued urn owner o h m p w =
      let i = (same_iff o.owner_id (principal owner)).1 m in
      let j = (same_iff o.letter.recipient_urn urn).1 p in
      let k : is_settled o.status ≡ false = ap (λ s. is_settled s) w in absurd (ground arith)

  done_status :
      (s : OperationStatus)
      → is_unfinished s ≡ false
      → (s ≡ OperationStatus.accepted) ⊎ (s ≡ OperationStatus.refused)
  done_status OperationStatus.accepted h = inl refl
  done_status OperationStatus.refused h = inr refl
  done_status OperationStatus.ready h = cc
  done_status OperationStatus.sending h = cc
  done_status OperationStatus.awaiting_approval h = cc

  finished :
      (urn owner : String) (o : Operation)
      → is_refusing E N urn owner o ≡ false
      → principal o.owner_session ≡ principal owner
      → HasRecipient urn o.recipients
      → (o.status ≡ OperationStatus.accepted) ⊎ (o.status ≡ OperationStatus.refused)
  finished urn owner o h m p =
      let i = (same_iff (principal o.owner_session) (principal owner)).1 m in
      let j = any-HasRecipient urn o.recipients p in done_status o.status (ground arith)

  -- The loops over the messages leave the rows of store.py and the blocks as they are.
  bury_kept :
      (urn owner : String) (m : Inbound) (d : Db E N)
      → ((bury E N urn owner m d).0 ≡ d.0) × ((bury E N urn owner m d).1.blocks ≡ d.1.blocks)
  unfolding bury
  bury_kept urn owner m d = (refl, refl)

  retire_kept :
      (now : ℕ) (r : ContactRequest) (d : Db E N)
      → ((retire E N now r d).0 ≡ d.0) × ((retire E N now r d).1.blocks ≡ d.1.blocks)
  unfolding retire
  retire_kept now r d = (refl, refl)

  withdraw_kept :
      (now : ℕ) (o : Outgoing) (d : Db E N)
      → ((withdraw E N now o d).0 ≡ d.0) × ((withdraw E N now o d).1.blocks ≡ d.1.blocks)
  unfolding withdraw
  withdraw_kept now o d = (refl, refl)

  messages_keep :
      {X : Type 0} (view : Db E N → X)
      → ((urn owner : String) (m : Inbound) (d : Db E N) → view (bury E N urn owner m d) ≡ view d)
      → ((now : ℕ) (r : ContactRequest) (d : Db E N) → view (retire E N now r d) ≡ view d)
      → ((now : ℕ) (o : Outgoing) (d : Db E N) → view (withdraw E N now o d) ≡ view d)
      → (urn owner : String) (now : ℕ) (d : Db E N)
      → view (end_messages E N urn owner now d) ≡ view d
  unfolding end_messages
  messages_keep view f g h urn owner now d =
      let d1 : Db E N =
        each (λ m. same m.sender_urn urn) (bury E N urn owner) (rows (d.1.inbound)) d in
      let d2 : Db E N =
        each (is_retiring E N urn owner) (retire E N now) (rows (d1.1.requests)) d1 in
      each_same view (is_withdrawing E N urn owner) (withdraw E N now) (h now) (rows (d2.1.outbox))
        d2
      ∙ each_same view (is_retiring E N urn owner) (retire E N now) (g now) (rows (d1.1.requests))
          d1
      ∙ each_same view (λ m. same m.sender_urn urn) (bury E N urn owner) (f urn owner)
          (rows (d.1.inbound)) d

  pub end_messages_core :
      (urn owner : String) (now : ℕ) (d : Db E N) → (end_messages E N urn owner now d).0 ≡ d.0
  end_messages_core =
      messages_keep (λ d. d.0) (λ u o m d. (bury_kept u o m d).0) (λ n r d. (retire_kept n r d).0)
        (λ n o d. (withdraw_kept n o d).0)

  -- The rows after a block.
  blocked_rows :
      (urn owner : String) (now : ℕ) (c : Core) (s : Social) (σ : N.State) (d' : Db E N)
      (r : BlockReceipt E N)
      → set_peer_block E N (some (str urn)) true owner now (c, s, σ) ≡ ok (r, d')
      → end_work E N urn owner now
          (end_messages E N urn owner now (c, write_block E N urn true owner now s, σ))
        ≡ d'
  unfolding set_peer_block
  blocked_rows urn owner now c s σ d' r h = elim (Outcome-cases (check_owner owner)) [
    | inr (f, e) ↦ ground arith
    | inl (u, e) ↦ elim (Outcome-cases (identity (some urn))) [
      | inr (f, i) ↦ ground arith
      | inl (urn', i) ↦
          let same_urn : urn ≡ urn' = (identity-ok urn urn' i).0 in
          let j : identity (some urn) ≡ ok urn = i ∙ ap ok (sym same_urn) in
          elim (Bool-cases (is_local E E.local_urn urn)) [
            | inl k ↦ ground arith
            | inr k ↦
                elim (Bool-cases (
                  not (peer_blocked E urn owner s)
                  && leb 9007199254740991 (safety_revision E owner s))) [
                    | inl g ↦ ground arith
                    | inr g ↦ ground arith
                  ]
          ]
    ]
  ]

  written :
      (urn owner : String) (now : ℕ) (s : Social)
      → (peer_blocked E urn owner (write_block E N urn true owner now s) ≡ true)
        × ((write_block E N urn true owner now s).requests ≡ s.requests)
        × ((write_block E N urn true owner now s).outbox ≡ s.outbox)
  unfolding write_block peer_blocked
  written urn owner now s = (
    ap (λ o. elim o [ none ↦ false | some b ↦ b.blocked ]) (get-put_self _ _ s.blocks),
    refl,
    refl,
  )

  peer_blocked_same :
      (urn owner : String) (s s' : Social)
      → s'.blocks ≡ s.blocks
      → peer_blocked E urn owner s' ≡ peer_blocked E urn owner s
  unfolding peer_blocked
  peer_blocked_same urn owner s s' e =
      ap
        (λ t. elim (get t (key E (principal owner ∷ urn ∷ []))) [
          | none ↦ false
          | some b ↦ b.blocked
        ])
        e

  -- Where a block is recorded, the peer is blocked; no friend request between the owner and the peer
  -- waits, no letter of the owner to the peer is queued, and each operation of the owner with the peer
  -- among its recipients is accepted or refused.
  pub set_peer_block_ends :
      (urn owner : String) (now : ℕ) (d d' : Db E N) (r : BlockReceipt E N)
      → IsSound (d.1)
      → Each (λ k o. o.operation_id ≡ k) (d.0.operations)
      → set_peer_block E N (some (str urn)) true owner now d ≡ ok (r, d')
      → (peer_blocked E urn owner (d'.1) ≡ true)
        × ((k : String) (q : ContactRequest)
            → get (d'.1.requests) k ≡ some q
            → q.owner_id ≡ principal owner
            → q.peer_urn ≡ urn
            → q.status ≢ waiting)
        × ((k : String) (o : Outgoing)
            → get (d'.1.outbox) k ≡ some o
            → o.owner_id ≡ principal owner
            → o.letter.recipient_urn ≡ urn
            → o.status ≢ queued)
        × ((k : String) (o : Operation)
            → get (d'.0.operations) k ≡ some o
            → principal o.owner_session ≡ principal owner
            → HasRecipient urn o.recipients
            → (o.status ≡ OperationStatus.accepted) ⊎ (o.status ≡ OperationStatus.refused))
  set_peer_block_ends urn owner now (c, s, σ) d' r sound ops h =
      let s1 = write_block E N urn true owner now s in
      let d1 : Db E N = (c, s1, σ) in
      let d2 = end_messages E N urn owner now d1 in
      let d3 = end_work E N urn owner now d2 in
      let e : d3 ≡ d' = blocked_rows urn owner now c s σ d' r h in
      let last : d3.1 ≡ d2.1 = end_work_same E N urn owner now d2 in
      let (b, hr, ho) = written urn owner now s in
      let (mr, mo) =
        messages_ended E N urn owner now d1
          (subst (λ t. Each (λ k r. r.request_id ≡ k) t) (sym hr) sound.requests)
          (subst (λ t. Each (λ k o. o.message_id ≡ k) t) (sym ho) sound.outbox) in
      let blocks : d2.1.blocks ≡ s1.blocks =
        messages_keep (λ d. d.1.blocks) (λ u o m d. (bury_kept u o m d).1)
          (λ n r d. (retire_kept n r d).1) (λ n o d. (withdraw_kept n o d).1) urn owner now d1 in
      let core : d2.0 ≡ c =
        messages_keep (λ d. d.0) (λ u o m d. (bury_kept u o m d).0) (λ n r d. (retire_kept n r d).0)
          (λ n o d. (withdraw_kept n o d).0) urn owner now d1 in
      let ops2 = subst (λ x. Each (λ k o. o.operation_id ≡ k) x.operations) (sym core) ops in
      let social : d'.1 ≡ d2.1 = ap (λ d. d.1) (sym e) ∙ last in
      (
        subst (λ x. peer_blocked E urn owner x ≡ true) (sym social)
            (sym (peer_blocked_same urn owner (d2.1) s1 (sym blocks)) ∙ b),
        λ k q g. not_waiting urn owner q (mr k q (ap (λ x. get x.requests k) (sym social) ∙ g)),
        λ k o g. not_queued urn owner o (mo k o (ap (λ x. get x.outbox k) (sym social) ∙ g)),
        λ k o g. finished urn owner o (
            operations_ended E N urn owner now d2 ops2 k o
              (ap (λ d. get (d.0.operations) k) e ∙ g)),
      )
