-- ===== src/Social/Remote.antt =====
-- The methods of `remote_mutation` (store.py) that the mixins carry out, with their results.
pub mod Moves
use agent_comm.Prelude.{ℕ, String, Bool, true, false, ◌<>◌, same, if◌then◌else◌}
use agent_comm.Json.{Json, Fields, bool, str, obj, no_fields, field, lookup}
use agent_comm.Policy.Encode.{nat_json}
use agent_comm.Remote.State.{Outcome, ok, value_error, ◌>>=◌}
use agent_comm.Remote.Parse.{text_of, required}
use agent_comm.Store.State.{Env, Core}
use agent_comm.Social.State.{
  RequestStatus, waiting, accepted, rejected, retired, OutgoingStatus, queued, delivered, withdrawn,
  ContactRequest, Outgoing, Social, Neighbours,
}
use agent_comm.Social.Outbox.{send_message}
use agent_comm.Social.Inbox.{mark_message}
use agent_comm.Social.Respond.{respond_contact}
use agent_comm.Social.Block.{BlockReceipt, set_peer_block}
use agent_comm.Social.Mixin.{Others, status_name}

request_status_name : RequestStatus → String
request_status_name waiting = "pending"
request_status_name accepted = "accepted"
request_status_name rejected = "rejected"
request_status_name retired = "blocked"

outgoing_status_name : OutgoingStatus → String
outgoing_status_name queued = "queued"
outgoing_status_name delivered = "accepted"
outgoing_status_name withdrawn = "blocked"

request_json : ContactRequest → Json
unfolding request_status_name
request_json r = obj (
    field "request_id" (str r.request_id)
      (field "status" (str (request_status_name r.status)) no_fields))

outgoing_json : Outgoing → Json
unfolding outgoing_status_name
outgoing_json o = obj (
    field "message_id" (str o.message_id)
      (field "status" (str (outgoing_status_name o.status)) no_fields))

abbrev pub read_json : String → Json
read_json id = obj (field "message_id" (str id) (field "status" (str "read") no_fields))

module _ (E : Env) (N : Neighbours) where
  receipt_json : BlockReceipt E N → Json
  receipt_json r = obj (
      field "urn" (str r.urn) (
        field "status" (str (if r.blocked then "blocked" else "unblocked")) (
          field "blocked" (bool r.blocked) (
            field "safety_revision" (nat_json r.safety_revision)
              (field "connection_status" (str (status_name r.connection_status)) no_fields)))))

module _ (E : Env) (N : Neighbours) (O : Others N) where
  abbrev pub Place : Type 0
  Place = Core × (Social × N.State)

  pub respond_method : Fields → String → ℕ → Place → Outcome (Json × Place)
  unfolding respond_contact request_json
  respond_method params owner now (c, (s, σ)) = do
    (r, d) ← respond_contact E N params owner now (c, s, σ)
    ok (request_json r, (d.0, (d.1, d.2)))

  pub block_method : Bool → Fields → String → ℕ → Place → Outcome (Json × Place)
  unfolding set_peer_block receipt_json
  block_method value params owner now (c, (s, σ)) = do
    (r, d) ← set_peer_block E N (lookup "urn" params) value owner now (c, s, σ)
    ok (receipt_json E N r, (d.0, (d.1, d.2)))

  pub review_method : Fields → String → ℕ → Place → Outcome (Json × Place)
  review_method params owner now (c, (s, σ)) = do
    (v, (inbound, σ')) ←
        O.review (lookup "message_id" params) (lookup "decision" params) owner now c s σ
    ok (v, (c, (record s { inbound = inbound }, σ')))

  -- The default of the message ID has a fresh token.
  pub send_method : Fields → String → ℕ → Place → Outcome (Json × Place)
  unfolding send_message outgoing_json
  send_method params owner now (c, (s, σ)) =
      let (token, σ') = N.token σ in
      (do
        (o, s') ← send_message E params ("message-" <> token) owner now c s
        ok (outgoing_json o, (c, (s', σ'))))

  pub read_method : Fields → String → ℕ → Place → Outcome (Json × Place)
  unfolding mark_message
  read_method params owner now (c, (s, σ)) = do
    id ←
        required (text_of (lookup "message_id" params))
          (value_error "message_id must contain 1–128 ASCII letters, digits, ., _, : or -")
    (m, d) ← mark_message E N id owner now (c, s, σ)
    ok (read_json id, (d.0, (d.1, d.2)))

  -- The branches of `remote_mutation`; `takes` lets no other method come here.
  unfoldable pub mixin_method : String → Fields → String → ℕ → Place → Outcome (Json × Place)
  unfolding respond_method block_method review_method send_method read_method
  mixin_method method params owner now d =
      if same method "contacts.respond"
      then respond_method params owner now d
      else if same method "contacts.block"
      then block_method true params owner now d
      else if same method "contacts.unblock"
      then block_method false params owner now d
      else if same method "inbox.review"
      then review_method params owner now d
      else if same method "messages.send"
      then send_method params owner now d
      else read_method params owner now d
