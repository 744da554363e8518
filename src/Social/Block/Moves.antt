-- ===== src/Social/Block/Moves.antt =====
-- A block (social.py) makes moves of the specification: it ends what waits, and sets its own row.
use agent_comm.Prelude.{
  ℕ, suc, String, Bool, true, not, ◌&&◌, some, List, [], ◌∷◌, ◌≡◌, refl, sym, ◌∙◌, ap, ◌⊎◌, inl,
  inr, arith, leb, same, Bool-cases, if◌then◌else◌,
}
use agent_comm.Json.{Json, str}
use agent_comm.Table.{Table, get, put, rows}
use agent_comm.Table.Sorted.{Each, IsSorted, Each-get, Each-map}
use agent_comm.Remote.State.{ok}
use agent_comm.Remote.Parse.{identity}
use agent_comm.Remote.Handle.Answer.{Outcome-cases}
use agent_comm.Store.State.{Env}
use agent_comm.Store.Records.{principal, check_owner, check_identifier}
use agent_comm.Store.Requests.{is_local}
use agent_comm.Store.Contacts.Export.{identity-ok}
use agent_comm.Social.State.{
  Tombstone, retired, ContactRequest, queued, withdrawn, Outgoing, Inbound, Social, Neighbours,
}
use agent_comm.Social.Peers.{key, safety_revision, peer_blocked}
use agent_comm.Social.Inbox.{Db}
use agent_comm.Social.Inbox.Moves.{waits}
use agent_comm.Social.Block.{
  each, is_retiring, is_withdrawing, bury, retire, withdraw, end_messages, end_work, write_block,
  BlockReceipt, set_peer_block, conflicts_with, consume_blocked_peer,
}
use agent_comm.Social.Block.Same.{retire_writes, withdraw_writes, end_work_same}
use agent_comm.Social.Block.Sweep.{sweep_moves}
use agent_comm.Social.Spec.{
  Moves, still, one, then as and_then, ends, request_decided, letter_settled, tombstone_set,
  block_set, revision_raised,
}
use agent_comm.Social.Spec.Sound.{IsSound, Moves-IsSound}

-- The rows of a sorted table whose rows stand under their own identifiers.
pub all_wait :
    {V : Type 0} (id : V → String) (t : Table V)
    → IsSorted t
    → Each (λ k v. id v ≡ k) t
    → Each (λ k v. (id v ≡ k) × (get t k ≡ some v)) t
all_wait id t a b = Each-map (λ k v p q. (p, q)) t b (Each-get t a)

module _ (E : Env) (N : Neighbours) {may_lift : String → Type 0} where
  each_bury_moves :
      (urn owner : String) (p : Inbound → Bool) (ms : List Inbound) (d : Db E N)
      → Moves may_lift (d.1) ((each p (bury E N urn owner) ms d).1)
  unfolding each bury
  each_bury_moves urn owner p [] d = still (d.1)
  each_bury_moves urn owner p (m ∷ ms) d =
      let d1 : Db E N = if p m then bury E N urn owner m d else d in
      let first : Moves may_lift (d.1) (d1.1) = elim (Bool-cases (p m)) [
        | inl e ↦ rw e (one (tombstone_set (d.1) _ _))
        | inr e ↦ rw e (still (d.1))
      ] in
      and_then first (each_bury_moves urn owner p ms d1)

  retire_moves :
      (urn owner : String) (now : ℕ) (r : ContactRequest) (d : Db E N)
      → get (d.1.requests) r.request_id ≡ some r
      → is_retiring E N urn owner r ≡ true
      → Moves may_lift (d.1) ((retire E N now r d).1)
  unfolding retire
  retire_moves urn owner now r d e p = one (
      request_decided (d.1) r.request_id r (record r { status = retired; updated_at = now }) e
        ((refl, refl, refl, refl, refl), inl (waits r.status (ground arith))))

  withdraw_moves :
      (urn owner : String) (now : ℕ) (o : Outgoing) (d : Db E N)
      → get (d.1.outbox) o.message_id ≡ some o
      → is_withdrawing E N urn owner o ≡ true
      → Moves may_lift (d.1) ((withdraw E N now o d).1)
  unfolding withdraw
  withdraw_moves urn owner now o d e p =
      let w : o.status ≡ queued = ground arith in
      one (
        letter_settled (d.1) o.message_id o (record o { status = withdrawn; updated_at = now }) e
          (refl, refl, refl, refl, inl w))

  pub end_messages_moves :
      (urn owner : String) (now : ℕ) (d : Db E N)
      → IsSound (d.1)
      → Moves may_lift (d.1) ((end_messages E N urn owner now d).1)
  unfolding end_messages
  end_messages_moves urn owner now d0 s0 =
      let d1 : Db E N =
        each (λ m. same m.sender_urn urn) (bury E N urn owner) (rows (d0.1.inbound)) d0 in
      let m1 : Moves may_lift (d0.1) (d1.1) =
        each_bury_moves urn owner (λ m. same m.sender_urn urn) (rows (d0.1.inbound)) d0 in
      let s1 = Moves-IsSound (d0.1) (d1.1) m1 s0 in
      let d2 : Db E N =
        each (is_retiring E N urn owner) (retire E N now) (rows (d1.1.requests)) d1 in
      let m2 : Moves may_lift (d1.1) (d2.1) =
        sweep_moves (λ d. d.1.requests) (λ r. r.request_id) (is_retiring E N urn owner)
          (λ r. record r { status = retired; updated_at = now }) (retire E N now)
          (retire_writes E N now) (λ d d'. Moves may_lift (d.1) (d'.1)) (λ d. still (d.1))
          (λ a b c. and_then) (retire_moves urn owner now) (d1.1.requests) d1 s1.sorted_requests
          (all_wait (λ r. r.request_id) (d1.1.requests) s1.sorted_requests s1.requests) in
      let s2 = Moves-IsSound (d1.1) (d2.1) m2 s1 in
      and_then m1 (
        and_then m2 (
          sweep_moves (λ d. d.1.outbox) (λ o. o.message_id) (is_withdrawing E N urn owner)
            (λ o. record o { status = withdrawn; updated_at = now }) (withdraw E N now)
            (withdraw_writes E N now) (λ d d'. Moves may_lift (d.1) (d'.1)) (λ d. still (d.1))
            (λ a b c. and_then) (withdraw_moves urn owner now) (d2.1.outbox) d2 s2.sorted_outbox
            (all_wait (λ o. o.message_id) (d2.1.outbox) s2.sorted_outbox s2.outbox)))

  -- The row of the block, where the move may lift it or it is set.
  pub write_block_moves :
      (urn : String) (value : Bool) (owner : String) (now : ℕ) (s : Social)
      → (value ≡ true) ⊎ may_lift (key E (principal owner ∷ urn ∷ []))
      → Moves may_lift s (write_block E N urn value owner now s)
  unfolding write_block safety_revision
  write_block_moves urn value owner now s l =
      let k = key E (principal owner ∷ []) in
      let j = key E (principal owner ∷ urn ∷ []) in
      let changes = not (if peer_blocked E urn owner s then value else not value) in
      let n = suc (safety_revision E owner s) in
      let s1 : Social = record s {
        revisions = (if changes then put k n s.revisions else s.revisions);
      } in
      let first : Moves may_lift s s1 = elim (Bool-cases changes) [
        | inr e ↦ rw e (still s)
        | inl e ↦ rw e (one (revision_raised s k n (λ m g. ground (arith, g))))
      ] in
      and_then first (one (block_set s1 j _ l))

  pub set_peer_block_moves :
      (urn : String) (value : Bool) (owner : String) (now : ℕ) (d d' : Db E N)
      (r : BlockReceipt E N)
      → (value ≡ true) ⊎ may_lift (key E (principal owner ∷ urn ∷ []))
      → IsSound (d.1)
      → set_peer_block E N (some (str urn)) value owner now d ≡ ok (r, d')
      → Moves may_lift (d.1) (d'.1)
  unfolding set_peer_block
  set_peer_block_moves urn value owner now (c, s, σ) d' r l sound h =
      let changes = not (if peer_blocked E urn owner s then value else not value) in
      let s1 = write_block E N urn value owner now s in
      let first = write_block_moves urn value owner now s l in
      elim (Outcome-cases (check_owner owner)) [
        | inr (f, e) ↦ ground arith
        | inl (u, e) ↦ elim (Outcome-cases (identity (some urn))) [
          | inr (f, i) ↦ ground arith
          | inl (urn', i) ↦
              let same_urn : urn ≡ urn' = (identity-ok urn urn' i).0 in
              let j : identity (some urn) ≡ ok urn = i ∙ ap ok (sym same_urn) in
              elim (Bool-cases (is_local E E.local_urn urn)) [
                | inl k ↦ ground arith
                | inr k ↦
                    elim (Bool-cases
                      (changes && leb 9007199254740991 (safety_revision E owner s))) [
                        | inl g ↦ ground arith
                        | inr g ↦ elim (Bool-cases value) [
                          | inr v ↦ ends (d'.1) (ground arith) first
                          | inl v ↦
                              let d1 : Db E N = (c, s1, σ) in
                              let d2 = end_messages E N urn owner now d1 in
                              let second =
                                end_messages_moves urn owner now d1
                                  (Moves-IsSound s s1 first sound) in
                              let d3 = end_work E N urn owner now d2 in
                              let kept : d3.1 ≡ d2.1 = end_work_same E N urn owner now d2 in
                              let last : d3 ≡ d' = ground arith in
                              ends (d'.1) (sym kept ∙ ap (λ d. d.1) last) (and_then first second)
                        ]
                      ]
              ]
        ]
      ]

  pub consume_blocked_peer_moves :
      (given : Json) (sender message_id owner : String) (d d' : Db E N) (b : Bool)
      → consume_blocked_peer E N given sender message_id owner d ≡ ok (b, d')
      → Moves may_lift (d.1) (d'.1)
  unfolding consume_blocked_peer
  consume_blocked_peer_moves given sender message_id owner (c, s, σ) d' b h =
      elim (Outcome-cases (check_owner owner)) [
        | inr (f, e) ↦ ground arith
        | inl (u, e) ↦ elim (Bool-cases (peer_blocked E sender owner s)) [
          | inr i ↦ ends (d'.1) (ground arith) (still s)
          | inl i ↦ elim (Outcome-cases (identity (some sender))) [
            | inr (f, j) ↦ ground arith
            | inl (urn, j) ↦ elim (Outcome-cases (check_identifier message_id "message_id")) [
              | inr (f, k) ↦ ground arith
              | inl (v, k) ↦
                  let print = E.runtime.sha256 (E.runtime.canonical given) in
                  let at = key E (principal owner ∷ urn ∷ message_id ∷ []) in
                  let t : Tombstone = record {
                    owner_id = principal owner;
                    message_id = message_id;
                    fingerprint = some print;
                  } in
                  elim (Bool-cases (conflicts_with (get s.tombstones at) print)) [
                    | inl l ↦ ground arith
                    | inr l ↦ ends (d'.1) (ground arith) (one (tombstone_set s at t))
                  ]
            ]
          ]
        ]
      ]
