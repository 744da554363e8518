-- ===== src/Social/Inbox.antt =====
-- The owner's mail (social.py): `_message_visible`, `_mark_read`, `_ingest_social` and `register_owner`.
pub mod Moves
use agent_comm.Prelude.{
  ℕ, String, Bool, true, false, not, ◌&&◌, ◌||◌, Option, none, some, List, [], ◌∷◌, same, any,
  filter, is_empty, if◌then◌else◌,
}
use agent_comm.Json.{Json, Fields, obj, lookup}
use agent_comm.Table.{get, put, rows}
use agent_comm.Policy.Message.{is_exactly}
use agent_comm.Remote.State.{Outcome, ok, raised, value_error, raise_if, ◌>>=◌, ◌>>◌}
use agent_comm.Remote.Parse.{text_of, required, has_exactly, is_read}
use agent_comm.Store.State.{Env, Contact, Core}
use agent_comm.Store.Records.{principal, is_owned, check_owner, check_identifier}
use agent_comm.Social.State.{
  Direction, incoming, outgoing, RequestStatus, waiting, accepted, rejected, retired,
  ContactRequest, Connection, Inbound, Social, Neighbours,
}
use agent_comm.Social.Peers.{
  key, is_waiting, is_outgoing, peer_blocked, contact_status, is_connected, is_offline,
}
use agent_comm.Social.Outbox.{protocol}

-- `text in {...}` on an optional text.
abbrev is_option : Option String → String → Bool
is_option none t = false
is_option (some s) t = same s t

-- `message.get("kind") in SOCIAL_KINDS`
abbrev pub is_social : Option String → Bool
is_social k = is_option k "contact.request" || is_option k "contact.response"

abbrev pub same_status : RequestStatus → RequestStatus → Bool
same_status waiting waiting = true
same_status accepted accepted = true
same_status rejected rejected = true
same_status retired retired = true
same_status _ _ = false

-- The fields of a packet, without its protocol and type.
packet_fields : Bool → List String
packet_fields true = "protocol" ∷ "request_id" ∷ "type" ∷ []
packet_fields false = "decision" ∷ "protocol" ∷ "request_id" ∷ "type" ∷ []

type_name : Bool → String
type_name true = "request"
type_name false = "response"

-- The packet of a message: its dict, with the fields that its kind asks for.
unfoldable pub packet_of : Bool → Option Json → Outcome Fields
unfolding packet_fields type_name
packet_of is_request none = raised (value_error "Invalid contact protocol packet")
packet_of is_request (some (obj fs)) = do
  raise_if
      (not (has_exactly fs (packet_fields is_request))
        || not (is_read "protocol" fs protocol)
        || not (is_read "type" fs (type_name is_request)))
      (value_error "Invalid contact protocol fields")
  ok fs
packet_of is_request (some v) = raised (value_error "Invalid contact protocol fields")

-- The status that a decision leads to.
unfoldable pub decision_of : Option Json → String → Outcome RequestStatus
unfolding is_exactly
decision_of v message =
    if is_exactly v "accept"
    then ok accepted
    else if is_exactly v "reject"
    then ok rejected
    else raised (value_error message)

module _ (E : Env) (N : Neighbours) where
  abbrev pub Db : Type 0
  Db = Core × Social × N.State

  -- `_message_visible(message, owner_session, review_gate=...)`
  unfoldable pub message_visible : Bool → Inbound → String → Db → Bool
  unfolding principal
  message_visible review_gate m owner (c, s, σ) =
      if m.quarantined
        || peer_blocked E m.sender_urn owner s
        || (elim (get s.tombstones (key E (principal owner ∷ m.sender_urn ∷ m.message_id ∷ []))) [
          | none ↦ false
          | some t ↦ true
        ])
      then false
      else if review_gate && not (N.is_review_safe m owner c s σ)
      then false
      else (let matched = filter (λ x. same x.urn m.sender_urn) (rows c.contacts) in
          let mine = any (λ x. is_owned x.owner_id owner) matched in
          let is_mail_owner = is_option s.mail_owner (principal owner) in
          let visible =
            if not (is_offline E) && not (is_social m.kind)
            then is_mail_owner
              && any (λ x. is_owned x.owner_id owner && is_connected (contact_status E x s)) matched
            else if is_empty matched
            then is_mail_owner
            else mine in
          visible && N.is_task_ours m owner c s σ)

  -- The key of `message_read`.
  read_key : String → Inbound → String
  unfolding principal
  read_key owner m = key E (principal owner ∷ m.sender_urn ∷ m.message_id ∷ [])

  -- `_mark_read(message_id, owner_session)`
  unfoldable pub mark_message : String → String → ℕ → Db → Outcome (Inbound × Db)
  unfolding message_visible check_identifier read_key principal
  mark_message message_id owner now (c, s, σ) = do
    check_identifier message_id "message_id"
    elim (get s.inbound message_id) [
      | none ↦ raised (value_error "Message is not visible to this owner")
      | some m ↦
          (if not (message_visible true m owner (c, s, σ))
            then raised (value_error "Message is not visible to this owner")
            else (let at : ℕ = elim (get s.reads (read_key owner m)) [ none ↦ now | some t ↦ t ] in
                ok (
                  m,
                  (
                    c,
                    record s { reads = put (read_key owner m) at s.reads },
                    N.read_notices (principal owner) message_id σ,
                  ),
                )))
    ]

  -- `mark_read(message_id, owner_session)`
  unfoldable pub mark_read : String → String → ℕ → Db → Outcome (Inbound × Db)
  unfolding check_owner mark_message
  mark_read message_id owner now d = do check_owner owner; mark_message message_id owner now d

  put_request : ContactRequest → Db → Db
  put_request r (c, s, σ) = (c, record s { requests = put r.request_id r s.requests }, σ)

  -- `_friend_attention(request)`
  abbrev pub friend_attention : ContactRequest → N.State → N.State
  friend_attention r σ = if is_outgoing r then σ else N.request_notice r σ

  -- A "contact.request" that has passed the checks of its packet.
  receive_request : String → Inbound → ℕ → Db → Outcome (Option ContactRequest × Db)
  unfolding put_request
  receive_request id m now (c, s, σ) = do
    raise_if (not (same m.message_id id) || is_option E.local_urn m.sender_urn)
        (value_error "Invalid contact request sender or identifier")
    elim (get s.requests id) [
      | some old ↦
          (if is_outgoing old || not (same old.peer_urn m.sender_urn)
            then raised (value_error "Contact request ID conflicts with another sender")
            else ok (some old, (c, s, σ)))
      | none ↦ elim s.mail_owner [
        | none ↦ ok (none, (c, s, σ))
        | some owner ↦
            let r : ContactRequest = record {
              request_id = id;
              owner_id = owner;
              direction = incoming;
              peer_urn = m.sender_urn;
              contact_id = none;
              status = waiting;
              attempt = none;
              created_at = now;
              updated_at = now;
            } in
            let (c', s', σ') = put_request r (c, s, σ) in
            ok (some r, (c', s', friend_attention r σ'))
      ]
    ]

  -- The row of kind "connection".
  abbrev pub connect : ContactRequest → ℕ → Social → Social
  connect r now s = record s {
    connections =
        put (key E (r.owner_id ∷ r.peer_urn ∷ []))
          (record {
            owner_id = r.owner_id;
            peer_urn = r.peer_urn;
            request_id = r.request_id;
            connected_at = now;
          })
          s.connections;
  }

  -- The rows after an accepted answer: the connection, and the mail that waited for it.
  accepted_rows : ContactRequest → ℕ → Db → Db
  accepted_rows r now (c, s, σ) =
      let s' = connect r now s in
      if is_option s.mail_owner r.owner_id
      then (let (inbound, σ') = N.promote r.peer_urn r.request_id now c s' σ in
          (c, record s' { inbound = inbound }, σ'))
      else (c, s', σ)

  -- A "contact.response" that has passed the checks of its packet.
  receive_response :
      String → RequestStatus → Inbound → ℕ → Db → Outcome (Option ContactRequest × Db)
  unfolding put_request accepted_rows
  receive_response id status m now (c, s, σ) = elim (get s.requests id) [
    | none ↦ raised (value_error "Contact response does not match an outgoing request")
    | some r ↦ do
      raise_if
          (not (is_outgoing r)
            || not (same r.peer_urn m.sender_urn)
            || not (is_option m.in_reply_to id))
          (value_error "Contact response does not match an outgoing request")
      raise_if (not (is_waiting r.status) && not (same_status r.status status))
          (value_error "Contact request already has a different final response")
      let r' : ContactRequest = record r { status = status; updated_at = now }
      let d = put_request r' (c, s, σ)
      let (c1, s1, σ1) = if same_status status accepted then accepted_rows r' now d else d
      ok (some r', (c1, s1, N.answer_notice r' m.message_id m.sender_urn σ1))
  ]

  -- `_ingest_social(message)`
  unfoldable pub ingest_social : Inbound → ℕ → Db → Outcome (Option ContactRequest × Db)
  unfolding packet_of check_identifier decision_of receive_request receive_response
  ingest_social m now d = if not (is_social m.kind) then ok (none, d) else (do
    let is_request = is_option m.kind "contact.request"
    fs ← packet_of is_request (E.runtime.loads m.text)
    id ←
        required (text_of (lookup "request_id" fs))
          (value_error "request_id must contain 1–128 ASCII letters, digits, ., _, : or -")
    check_identifier id "request_id"
    raise_if (not (is_option m.conversation_id id))
        (value_error "Contact request correlation mismatch")
    (if is_request then receive_request id m now d else (do
      status ← decision_of (lookup "decision" fs) "Invalid contact response decision"
      receive_response id status m now d)))

  -- The loop of `register_owner` over the mail that came before the owner.
  backfill : List Inbound → String → ℕ → Db → Outcome Db
  unfolding ingest_social message_visible
  backfill [] owner now d = ok d
  backfill (m ∷ ms) owner now d =
      if is_social m.kind && message_visible true m owner d
      then (do (_, d') ← ingest_social m now d; backfill ms owner now d')
      else backfill ms owner now d

  -- `register_owner(owner_session)`: the owner of the mail.
  unfoldable pub register_owner : String → ℕ → Db → Outcome (String × Db)
  unfolding check_owner principal backfill
  register_owner owner now (c, s, σ) = do
    check_owner owner
    elim s.mail_owner [
      | some profile ↦ ok (profile, (c, s, σ))
      | none ↦ do
        d ←
            backfill (rows s.inbound) owner now
              (c, record s { mail_owner = some (principal owner) }, σ)
        ok (principal owner, d)
    ]
