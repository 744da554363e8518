-- ===== src/Social/Ask.antt =====
-- What social.py asks the owner first: `_prepare_existing_contact`, `prepare_contact_response` and
-- `prepare_message`, over `_approval` of store.py; and the view of a message, `_message_view`.
pub mod Sent
pub mod Moves
use agent_comm.Prelude.{
  ℕ, suc, ◌+◌, String, Bool, true, false, not, ◌&&◌, ◌||◌, Option, none, some, List, [], ◌∷◌, ◌<>◌,
  same, filter, any, length, if◌then◌else◌,
}
use agent_comm.Json.{Json, Fields, str, obj, no_fields, field}
use agent_comm.Table.{get, rows}
use agent_comm.Policy.Encode.{texts_json, nat_json}
use agent_comm.Remote.State.{Outcome, ok, raised, Failure, value_error, ◌>>=◌}
use agent_comm.Store.State.{
  Env, Contact, Approval, friend_request, contact_response, direct_message, Core,
}
use agent_comm.Store.Records.{principal, is_owned}
use agent_comm.Store.Requests.{contact_json}
use agent_comm.Store.Prepare.{request_approval}
use agent_comm.Social.State.{
  RequestStatus, waiting, accepted, ContactRequest, Letter, Inbound, Social, Neighbours,
}
use agent_comm.Social.Peers.{
  PeerStatus, unverified, pending, connected, declined, blocked, is_connected, is_waiting, key,
  requests_to, contact_status, is_offline,
}
use agent_comm.Social.Outbox.{message_values}
use agent_comm.Social.Respond.{decision_text, response_values}
use agent_comm.Social.Mixin.{Others, mixins}

-- `next(...)` on an empty sequence.
abbrev exhausted : Failure
exhausted = value_error "StopIteration"

friend_payload : Contact → ℕ → Json
unfolding contact_json
friend_payload x attempt =
    obj (field "contact" (contact_json x) (field "attempt" (nat_json attempt) no_fields))

-- The contact's fields, where there is one.
contact_fields : Option Contact → Fields
contact_fields none = no_fields
contact_fields (some x) =
    field "contact_id" (str x.contact_id) (field "aliases" (texts_json x.aliases) no_fields)

response_payload : ContactRequest → RequestStatus → Option Contact → Json
unfolding decision_text contact_fields
response_payload r status x = obj (
    field "request_id" (str r.request_id)
      (field "decision" (str (decision_text status)) (contact_fields x)))

-- The word of the question for the decision.
verb_of : RequestStatus → String
verb_of accepted = "接受"
verb_of _ = "拒绝"

unfoldable pub message_payload : Letter → Json
message_payload m = obj (
    field "message_id" (str m.message_id) (
      field "recipient_urn" (str m.recipient_urn)
        (field "kind" (str m.kind) (field "text" (str m.text) no_fields))))

-- The text that the owner is shown before a message is sent.
unfoldable pub message_question : Letter → String
message_question m = "向 " <> (m.recipient_urn <> (" 发送以下消息？\n\n" <> m.text))

-- What `_message_view` adds to a message.
pub record MessageView : Type 0 where
  pub read_at : Option ℕ
  pub unknown_sender : Bool

module _ (E : Env) where
  -- `_message_view(message, owner_session)`
  message_view : Inbound → String → Core → Social → MessageView
  unfolding key principal
  message_view m owner c s = record {
    read_at = get s.reads (key E (principal owner ∷ m.sender_urn ∷ m.message_id ∷ []));
    unknown_sender =
        not (any (λ x. same x.urn m.sender_urn && is_owned x.owner_id owner) (rows c.contacts));
  }

module _ (E : Env) (N : Neighbours) (O : Others N) where
  abbrev pub Db : Type 0
  Db = Core × (Social × N.State)

  -- The status of the contact lets a new request be asked for.
  ask_friend : Contact → String → ℕ → Db → Outcome (Option Approval × Db)
  unfolding request_approval friend_payload
  ask_friend x owner now d = do
    (a, d') ←
        request_approval E (mixins E N O)
          (friend_request (friend_payload x (suc (length (requests_to x.owner_id x.urn (d.1.0))))))
          x.contact_id owner ("向 " <> (x.urn <> " 发送好友请求？对方接受后建立连接。")) (now + 900000000) now d
    ok (some a, d')

  -- `_prepare_existing_contact(contact, owner_session)`: the approval that is asked for, or none
  -- where the decision is "allow".
  unfoldable pub prepare_existing_contact :
      ℕ → Contact → String → Db → Outcome (Option Approval × Db)
  unfolding contact_status ask_friend
  prepare_existing_contact now x owner d = elim (contact_status E x (d.1.0)) [
    | blocked ↦ raised (value_error "Unblock this peer before requesting a connection")
    | connected ↦ ok (none, d)
    | pending ↦
        (if is_offline E
          then ok (none, d)
          else elim (filter (λ r. is_waiting r.status) (requests_to x.owner_id x.urn (d.1.0))) [
            | [] ↦ raised exhausted
            | r ∷ rs ↦ ok (none, d)
          ])
    | _ ↦ if is_offline E then ok (none, d) else ask_friend x owner now d
  ]

  -- `prepare_contact_response(params, owner_session)`: the request, and the approval where it waits.
  unfoldable pub prepare_contact_response :
      Fields → String → ℕ → Db → Outcome ((ContactRequest × Option Approval) × Db)
  unfolding response_values request_approval response_payload verb_of
  prepare_contact_response params owner now d = do
    v ← response_values E N params owner (d.0) (d.1.0)
    (if not (is_waiting v.request.status) then ok ((v.request, none), d) else (do
      (a, d') ←
          request_approval E (mixins E N O)
            (contact_response (response_payload v.request v.status v.contact)) v.request.request_id
            owner (verb_of v.status <> ("来自 " <> (v.request.peer_urn <> " 的好友请求？")))
            (now + 900000000) now d
      ok ((v.request, some a), d')))

  -- `prepare_message(params, owner_session)`; `fresh` is the default of the message ID.
  unfoldable pub prepare_message : Fields → String → String → ℕ → Db → Outcome (Approval × Db)
  unfolding message_values request_approval message_payload message_question
  prepare_message params fresh owner now d = do
    m ← message_values E params fresh owner (d.0) (d.1.0)
    request_approval E (mixins E N O) (direct_message (message_payload m)) m.message_id owner
        (message_question m) (now + 900000000) now d
