-- ===== src/Social/Inbox/Moves.antt =====
-- The operations on the owner's mail (social.py) make moves of the specification.
use agent_comm.Prelude.{
  ℕ, String, true, false, not, ◌&&◌, ◌||◌, Option, none, some, List, [], ◌∷◌, ◌≡◌, refl, sym, subst,
  arith, inl, inr, ◌⊎◌, same, Bool-cases, Option-cases,
}
use agent_comm.Json.{lookup}
use agent_comm.Table.{get, put, rows}
use agent_comm.Table.Sorted.{get-Each}
use agent_comm.Remote.State.{ok}
use agent_comm.Remote.Parse.{text_of}
use agent_comm.Remote.Handle.Answer.{Outcome-cases}
use agent_comm.Store.State.{Env}
use agent_comm.Store.Records.{principal, check_owner, check_identifier}
use agent_comm.Social.State.{
  incoming, RequestStatus, waiting, accepted, ContactRequest, Connection, Inbound, Social,
  Neighbours,
}
use agent_comm.Social.Peers.{key, is_waiting, is_outgoing}
use agent_comm.Social.Inbox.{
  Db, same_status, is_option, is_social, packet_of, decision_of, message_visible, mark_message,
  put_request, receive_request, accepted_rows, receive_response, ingest_social, backfill,
  register_owner,
}
use agent_comm.Social.Spec.{
  Decides, Moves, still, one, then, ends, mail_moved, request_made, request_decided, peer_connected,
}
use agent_comm.Social.Spec.Sound.{IsSound, Moves-IsSound}

pub status_same : (a b : RequestStatus) → same_status a b ≡ true → a ≡ b
status_same a b h = ground arith

pub waits : (a : RequestStatus) → is_waiting a ≡ true → a ≡ waiting
waits a h = ground arith

-- What the guard of a response leaves: the request waits, or has this answer already.
pub answer_guard :
    (a b : RequestStatus)
    → (not (is_waiting a) && not (same_status a b)) ≡ false
    → (a ≡ waiting) ⊎ (b ≡ a)
answer_guard a b h = elim (Bool-cases (is_waiting a)) [
  | inl i ↦ inl (waits a i)
  | inr i ↦ inr (sym (status_same a b (ground arith)))
]

-- The connection that an accepted request makes.
abbrev pub connection_of : ContactRequest → ℕ → Connection
connection_of q now = record {
  owner_id = q.owner_id;
  peer_urn = q.peer_urn;
  request_id = q.request_id;
  connected_at = now;
}

module _ (E : Env) (N : Neighbours) {may_lift : String → Type 0} where
  pub mark_message_moves :
      (id owner : String) (now : ℕ) (d d' : Db E N) (m : Inbound)
      → mark_message E N id owner now d ≡ ok (m, d')
      → Moves may_lift (d.1) (d'.1)
  unfolding mark_message
  mark_message_moves id owner now d d' m h =
      elim (Outcome-cases (check_identifier id "message_id")) [
        | inr (f, e) ↦ ground arith
        | inl (u, e) ↦ elim (Option-cases (get (d.1.inbound) id)) [
          | inl i ↦ ground arith
          | inr (x, i) ↦ elim (Bool-cases (message_visible E N true x owner d)) [
            | inr j ↦ ground arith
            | inl j ↦ one (
                mail_moved (d.1) (d'.1) (ground arith) (ground arith) (ground arith) (ground arith)
                  (ground arith) (ground arith))
          ]
        ]
      ]

  receive_request_moves :
      (id : String) (m : Inbound) (now : ℕ) (d d' : Db E N) (r : Option ContactRequest)
      → receive_request E N id m now d ≡ ok (r, d')
      → Moves may_lift (d.1) (d'.1)
  unfolding receive_request put_request
  receive_request_moves id m now d d' r h =
      elim (Bool-cases (not (same m.message_id id) || is_option E.local_urn m.sender_urn)) [
        | inl e ↦ ground arith
        | inr e ↦ elim (Option-cases (get (d.1.requests) id)) [
          | inr (old, f) ↦
              elim (Bool-cases (is_outgoing old || not (same old.peer_urn m.sender_urn))) [
                | inl g ↦ ground arith
                | inr g ↦ ends (d'.1) (ground arith) (still (d.1))
              ]
          | inl f ↦ elim (Option-cases (d.1.mail_owner)) [
            | inl g ↦ ends (d'.1) (ground arith) (still (d.1))
            | inr (owner, g) ↦ ends (d'.1) (ground arith) (
                one (
                  request_made (d.1) id
                    (record {
                      request_id = id;
                      owner_id = owner;
                      direction = incoming;
                      peer_urn = m.sender_urn;
                      contact_id = none;
                      status = waiting;
                      attempt = none;
                      created_at = now;
                      updated_at = now;
                    })
                    f refl refl))
          ]
        ]
      ]

  accepted_rows_moves :
      (r q : ContactRequest) (now : ℕ) (d d' : Db E N)
      → get (d.1.requests) q.request_id ≡ some r
      → Decides r q
      → q.status ≡ accepted
      → accepted_rows E N q now (put_request E N q d) ≡ d'
      → Moves may_lift (d.1) (d'.1)
  unfolding accepted_rows put_request
  accepted_rows_moves r q now (c, s, σ) d' e p a h =
      let k = key E (q.owner_id ∷ q.peer_urn ∷ []) in
      let s1 : Social = record s {
        requests = put q.request_id q s.requests;
        connections = put k (connection_of q now) s.connections;
      } in
      let first : Moves may_lift s s1 =
        one (peer_connected s q.request_id k r q (connection_of q now) e p a (refl, refl, refl)) in
      elim (Bool-cases (is_option s.mail_owner q.owner_id)) [
        | inr f ↦ ends (d'.1) (ground arith) first
        | inl f ↦ then first (
            one (
              mail_moved s1 (d'.1) (ground arith) (ground arith) (ground arith) (ground arith)
                (ground arith) (ground arith)))
      ]

  receive_response_moves :
      (id : String) (status : RequestStatus) (m : Inbound) (now : ℕ) (d d' : Db E N)
      (r : Option ContactRequest)
      → IsSound (d.1)
      → receive_response E N id status m now d ≡ ok (r, d')
      → Moves may_lift (d.1) (d'.1)
  unfolding receive_response
  receive_response_moves id status m now d d' r s h = elim (Option-cases (get (d.1.requests) id)) [
    | inl e ↦ ground arith
    | inr (q, e) ↦
        elim (Bool-cases (
          not (is_outgoing q)
          || not (same q.peer_urn m.sender_urn)
          || not (is_option m.in_reply_to id))) [
            | inl f ↦ ground arith
            | inr f ↦
                elim (Bool-cases (not (is_waiting q.status) && not (same_status q.status status))) [
                  | inl g ↦ ground arith
                  | inr g ↦
                      let p : ContactRequest = record q { status = status; updated_at = now } in
                      let k : q.request_id ≡ id =
                        get-Each (λ k r. r.request_id ≡ k) (d.1.requests) id q s.requests e in
                      let row : get (d.1.requests) q.request_id ≡ some q =
                        subst (λ u. get (d.1.requests) u ≡ some q) (sym k) e in
                      let sound : Decides q p =
                        ((refl, refl, refl, refl, refl), answer_guard q.status status g) in
                      elim (Bool-cases (same_status status accepted)) [
                        | inl i ↦ ends (d'.1) (ground arith) (
                            accepted_rows_moves q p now d
                              (accepted_rows E N p now (put_request E N p d)) row sound
                              (status_same status accepted i) refl)
                        | inr i ↦
                            ends (d'.1) (ground arith)
                              (one (request_decided (d.1) q.request_id q p row sound))
                      ]
                ]
          ]
  ]

  pub ingest_social_moves :
      (m : Inbound) (now : ℕ) (d d' : Db E N) (r : Option ContactRequest)
      → IsSound (d.1)
      → ingest_social E N m now d ≡ ok (r, d')
      → Moves may_lift (d.1) (d'.1)
  unfolding ingest_social
  ingest_social_moves m now d d' r s h = elim (Bool-cases (is_social m.kind)) [
    | inr e ↦ ends (d'.1) (ground arith) (still (d.1))
    | inl e ↦
        elim (Outcome-cases
          (packet_of (is_option m.kind "contact.request") (E.runtime.loads m.text))) [
            | inr (f, i) ↦ ground arith
            | inl (fs, i) ↦ elim (Option-cases (text_of (lookup "request_id" fs))) [
              | inl j ↦ ground arith
              | inr (id, j) ↦ elim (Outcome-cases (check_identifier id "request_id")) [
                | inr (f, k) ↦ ground arith
                | inl (u, k) ↦ elim (Bool-cases (is_option m.conversation_id id)) [
                  | inr l ↦ ground arith
                  | inl l ↦ elim (Bool-cases (is_option m.kind "contact.request")) [
                    | inl n ↦
                        let w : receive_request E N id m now d ≡ ok (r, d') = ground arith in
                        receive_request_moves id m now d d' r w
                    | inr n ↦
                        elim (Outcome-cases (
                          decision_of (lookup "decision" fs) "Invalid contact response decision")) [
                            | inr (f, o) ↦ ground arith
                            | inl (status, o) ↦
                                let w : receive_response E N id status m now d ≡ ok (r, d') =
                                  ground arith in
                                receive_response_moves id status m now d d' r s w
                          ]
                  ]
                ]
              ]
            ]
          ]
  ]

  backfill_moves :
      (ms : List Inbound) (owner : String) (now : ℕ) (d d' : Db E N)
      → IsSound (d.1)
      → backfill E N ms owner now d ≡ ok d'
      → Moves may_lift (d.1) (d'.1)
  unfolding backfill
  backfill_moves [] owner now d d' s h = ends (d'.1) (ground arith) (still (d.1))
  backfill_moves (m ∷ ms) owner now d d' s h =
      elim (Bool-cases (is_social m.kind && message_visible E N true m owner d)) [
        | inr e ↦
            let w : backfill E N ms owner now d ≡ ok d' = ground arith in
            backfill_moves ms owner now d d' s w
        | inl e ↦ elim (Outcome-cases (ingest_social E N m now d)) [
          | inr (f, i) ↦ ground arith
          | inl ((r, d1), i) ↦
              let w : backfill E N ms owner now d1 ≡ ok d' = ground arith in
              let first = ingest_social_moves m now d d1 r s i in
              then first (backfill_moves ms owner now d1 d' (Moves-IsSound (d.1) (d1.1) first s) w)
        ]
      ]

  pub register_owner_moves :
      (owner : String) (now : ℕ) (d d' : Db E N) (profile : String)
      → IsSound (d.1)
      → register_owner E N owner now d ≡ ok (profile, d')
      → Moves may_lift (d.1) (d'.1)
  unfolding register_owner
  register_owner_moves owner now (c, s, σ) d' profile sound h =
      elim (Outcome-cases (check_owner owner)) [
        | inr (f, e) ↦ ground arith
        | inl (u, e) ↦ elim (Option-cases s.mail_owner) [
          | inr (p, i) ↦ ends (d'.1) (ground arith) (still s)
          | inl i ↦
              let s1 : Social = record s { mail_owner = some (principal owner) } in
              let first : Moves may_lift s s1 =
                one (mail_moved s s1 refl refl refl refl refl refl) in
              elim (Outcome-cases (backfill E N (rows s.inbound) owner now (c, s1, σ))) [
                | inr (f, j) ↦ ground arith
                | inl (d1, j) ↦ ends (d'.1) (ground arith) (
                    then first (
                      backfill_moves (rows s.inbound) owner now (c, s1, σ) d1
                        (Moves-IsSound s s1 first sound) j))
              ]
        ]
      ]
