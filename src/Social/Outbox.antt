-- ===== src/Social/Outbox.antt =====
-- The durable outbox (social.py): `_queue_social`, `_request_contact`, `_send_message` and
-- `flush_social_outbox`.
pub mod Moves
pub mod Submit
pub mod Apart
pub mod Flush
use agent_comm.Prelude.{
  ℕ, zero, suc, ◌+◌, ◌-◌, String, Bool, true, false, not, ◌&&◌, ◌||◌, Option, none, some, List, [],
  ◌∷◌, ◌<>◌, same, ltb, filter, length, take, is_empty, if◌then◌else◌,
}
use Prim.Native.Char.{code}
use agent_comm.Json.{Json, Fields, bool, str, obj, no_fields, field, lookup}
use agent_comm.Table.{get, put, rows}
use agent_comm.Policy.Message.{is_exactly}
use agent_comm.Remote.State.{Outcome, ok, raised, value_error, raise_if, ◌>>=◌, ◌>>◌}
use agent_comm.Remote.Parse.{text_of, required, identity}
use agent_comm.Store.State.{Env, Contact, Core}
use agent_comm.Store.Records.{principal, is_owned, check_identifier}
use agent_comm.Store.Requests.{strip, is_local}
use agent_comm.Social.State.{
  Direction, outgoing, RequestStatus, waiting, accepted, rejected, retired, ContactRequest, Letter,
  OutgoingStatus, queued, delivered, withdrawn, Outgoing, Social, Neighbours,
}
use agent_comm.Social.Peers.{key, peer_blocked, requests_to, contacts_with, can_send_to, is_offline}

abbrev pub same_option : Option String → Option String → Bool
same_option none none = true
same_option (some a) (some b) = same a b
same_option _ _ = false

-- `==` of two messages.
unfoldable pub same_letter : Letter → Letter → Bool
same_letter x y =
    same x.message_id y.message_id
    && same x.recipient_urn y.recipient_urn
    && same x.kind y.kind
    && same_option x.conversation_id y.conversation_id
    && same_option x.in_reply_to y.in_reply_to
    && same x.text y.text

abbrev pub is_settled : OutgoingStatus → Bool
is_settled queued = false
is_settled delivered = true
is_settled withdrawn = true

abbrev pub protocol : String
protocol = "agent-comm-contacts/v1"

-- `packet` of `_request_contact`; its encoder sorts the keys.
request_packet : String → Json
request_packet id = obj (
    field "protocol" (str protocol)
      (field "request_id" (str id) (field "type" (str "request") no_fields)))

last_of : {A : Type 0} → A → List A → A
last_of x [] = x
last_of x (y ∷ ys) = last_of y ys

is_pursued : RequestStatus → Bool
is_pursued waiting = true
is_pursued accepted = true
is_pursued _ = false

utf8_width : ℕ → ℕ
utf8_width c = if ltb c 128 then 1 else if ltb c 2048 then 2 else if ltb c 65536 then 3 else 4

-- `len(text.encode())`
unfoldable pub utf8_length : String → ℕ
unfolding utf8_width
utf8_length String.[] = 0
utf8_length (String.◌∷◌ c s) = utf8_width (code c) + utf8_length s

-- What `transport.store(message)` does: it raises an OSError, a ValueError or TypeError, another
-- error, or returns.
pub data Answer : Type 0 where
  unreachable failed crashed : Answer
  answered : Json → Answer

-- The test of the helper's answer.
unfoldable pub accepts : Answer → String → Bool
unfolding is_exactly
accepts (answered (obj fs)) id =
    (elim (lookup "success" fs) [ some (bool b) ↦ b | _ ↦ false ])
    && is_exactly (lookup "message_id" fs) id
accepts _ id = false

-- An error that the loop does not catch; `result.get` is one where the answer is no dict.
abbrev pub is_crash : Answer → Bool
is_crash crashed = true
is_crash (answered (obj fs)) = false
is_crash (answered v) = true
is_crash _ = false

abbrev pub is_unreachable : Answer → Bool
is_unreachable unreachable = true
is_unreachable _ = false

module _ (E : Env) where
  -- `_queue_social(message, owner)`: the record that is there, or a new one.
  unfoldable pub queue_social : Letter → String → ℕ → Social → Outcome (Outgoing × Social)
  unfolding same_letter
  queue_social m owner now s = elim (get s.inbound m.message_id) [
    | some i ↦ raised (value_error "Outgoing message ID conflicts with an already received message")
    | none ↦ elim (get s.outbox m.message_id) [
      | some old ↦
          (if not (same_letter old.letter m) || not (same old.owner_id owner)
            then raised (value_error "Outgoing message ID conflicts with its durable contents")
            else ok (old, s))
      | none ↦
          let o : Outgoing = record {
            message_id = m.message_id;
            owner_id = owner;
            letter = m;
            status = queued;
            created_at = now;
            updated_at = now;
          } in
          ok (o, record s { outbox = put m.message_id o s.outbox })
    ]
  ]

  request_letter : String → String → Letter
  unfolding request_packet
  request_letter id urn = record {
    message_id = id;
    recipient_urn = urn;
    kind = "contact.request";
    conversation_id = some id;
    in_reply_to = none;
    text = E.runtime.canonical (request_packet id);
  }

  -- The request that `_request_contact` writes; `id` ends in the fresh token.
  new_request : String → Contact → ℕ → Social → ContactRequest
  new_request id x now s = record {
    request_id = id;
    owner_id = x.owner_id;
    direction = outgoing;
    peer_urn = x.urn;
    contact_id = some x.contact_id;
    status = waiting;
    attempt = some (suc (length (requests_to x.owner_id x.urn s)));
    created_at = now;
    updated_at = now;
  }

  start_request : String → Contact → ℕ → Social → Outcome (Option ContactRequest × Social)
  unfolding queue_social request_letter new_request
  start_request id x now s = do
    let r = new_request id x now s
    (_, s') ←
        queue_social (request_letter id x.urn) x.owner_id now
          (record s { requests = put id r s.requests })
    ok (some r, s')

  -- `_request_contact(contact)`; `token` is `secrets.token_hex(20)`.
  unfoldable pub request_contact :
      Contact → String → ℕ → Social → Outcome (Option ContactRequest × Social)
  unfolding peer_blocked is_pursued last_of start_request is_local
  request_contact x token now s = do
    raise_if (peer_blocked E x.urn x.owner_id s)
        (value_error "Unblock this peer before requesting a connection")
    (if is_offline E then ok (none, s) else (do
      raise_if (is_local E E.local_urn x.urn)
          (value_error "Cannot send a friend request to the local agent")
      elim (get s.connections (key E (x.owner_id ∷ x.urn ∷ []))) [
        | some c ↦ ok (get s.requests c.request_id, s)
        | none ↦ elim (filter (λ r. is_pursued r.status) (requests_to x.owner_id x.urn s)) [
          | r ∷ rs ↦ ok (some (last_of r rs), s)
          | [] ↦ start_request ("friend-" <> token) x now s
        ]
      ]))

  -- `_message_values(params, owner_session)`; `fresh` is the default of the message ID.
  unfoldable pub message_values : Fields → String → String → Core → Social → Outcome Letter
  unfolding identity check_identifier strip utf8_length can_send_to
  message_values params fresh owner c s = do
    urn ← identity (text_of (lookup "recipient_urn" params))
    text ←
        required (text_of (lookup "text" params))
          (value_error "Message text must contain 1–24000 UTF-8 bytes")
    raise_if (same (strip text) "" || ltb 24000 (utf8_length text))
        (value_error "Message text must contain 1–24000 UTF-8 bytes")
    raise_if (is_empty (contacts_with E urn owner c))
        (value_error "Confirm this recipient as a local contact before sending a message")
    raise_if (not (can_send_to E urn owner c s))
        (value_error "Wait for this contact to accept the friend request before sending a message")
    message_id ←
        required
          (text_of
            (elim (lookup "message_id" params) [ none ↦ some (str fresh) | some v ↦ some v ]))
          (value_error "message_id must contain 1–128 ASCII letters, digits, ., _, : or -")
    check_identifier message_id "message_id"
    elim (get s.inbound message_id) [
      | some i ↦
          raised (value_error "Outgoing message ID conflicts with an already received message")
      | none ↦ ok (record {
        message_id = message_id;
        recipient_urn = urn;
        kind = "chat.message";
        conversation_id = none;
        in_reply_to = none;
        text = text;
      })
    ]

  -- `_send_message(params, owner_session)`
  unfoldable pub send_message :
      Fields → String → String → ℕ → Core → Social → Outcome (Outgoing × Social)
  unfolding message_values queue_social principal
  send_message params fresh owner now c s = do
    m ← message_values params fresh owner c s
    queue_social m (principal owner) now s

  -- `_sent_messages(owner_session)`, of which the view keeps the last hundred.
  unfoldable pub sent_messages : String → Social → List Outgoing
  sent_messages owner s =
      let xs =
        filter (λ r. is_owned r.owner_id owner && same r.letter.kind "chat.message")
          (rows s.outbox) in
      drop (length xs - 100) xs
    where
      drop : ℕ → List Outgoing → List Outgoing
      drop n [] = []
      drop zero xs = xs
      drop (suc n) (x ∷ xs) = drop n xs

  -- A record that may be handed to the helper now.
  abbrev pub is_sendable : Core → Social → Outgoing → Bool
  is_sendable c s r =
      not (is_settled r.status)
      && not (peer_blocked E r.letter.recipient_urn r.owner_id s)
      && (not (same r.letter.kind "chat.message")
          || can_send_to E r.letter.recipient_urn r.owner_id c s)

  -- `pending` of `flush_social_outbox`
  abbrev pub sendable : ℕ → Core → Social → List Outgoing
  sendable limit c s = take limit (filter (is_sendable c s) (rows s.outbox))

  -- What the transaction of one record leads to: the letter that was handed over, and how the loop
  -- goes on.
  pub data Turn : Type 0 where
    passed : Turn
    broken stopped refused confirmed : Letter → Turn

  hand_over : Outgoing → Outgoing → (Letter → Answer) → ℕ → Social → Turn × Social
  unfolding accepts
  hand_over r o transport now s =
      let a = transport o.letter in
      if is_crash a
      then (broken o.letter, s)
      else if is_unreachable a
      then (stopped o.letter, s)
      else if not (accepts a o.message_id)
      then (refused o.letter, s)
      else (
        confirmed o.letter,
        record s {
          outbox = put r.message_id (record o { status = delivered; updated_at = now }) s.outbox;
        },
      )

  -- The transaction of one record. A record is never removed, so the first case does not occur.
  unfoldable pub submit_one : Outgoing → (Letter → Answer) → ℕ → Core → Social → Turn × Social
  unfolding hand_over
  submit_one r transport now c s = elim (get s.outbox r.message_id) [
    | none ↦ (passed, s)
    | some o ↦ if not (is_sendable c s o) then (passed, s) else hand_over r o transport now s
  ]

  -- Whether the loop ran through or an error ended it, the letters that were handed over, how many
  -- were accepted, and the rows after it.
  abbrev pub Flushed : Type 0
  Flushed = Bool × List Letter × ℕ × Social

  abbrev pub handed : Letter → ℕ → Flushed → Flushed
  handed m k (b, ms, n, s) = (b, m ∷ ms, k + n, s)

  -- The loop of `flush_social_outbox`.
  unfoldable pub flush_loop : List Outgoing → (Letter → Answer) → ℕ → Core → Social → Flushed
  unfolding submit_one
  flush_loop [] transport now c s = (true, [], 0, s)
  flush_loop (r ∷ rs) transport now c s =
      let (t, s') = submit_one r transport now c s in
      elim t [
        | passed ↦ flush_loop rs transport now c s'
        | broken m ↦ (false, m ∷ [], 0, s')
        | stopped m ↦ (true, m ∷ [], 0, s')
        | refused m ↦ handed m 0 (flush_loop rs transport now c s')
        | confirmed m ↦ handed m 1 (flush_loop rs transport now c s')
      ]

  -- `flush_social_outbox(transport, limit)` with a transport that can store.
  unfoldable pub flush : ℕ → (Letter → Answer) → ℕ → Core → Social → Flushed
  unfolding flush_loop
  flush limit transport now c s = flush_loop (sendable limit c s) transport now c s
