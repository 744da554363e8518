-- ===== src/Social/Respond.antt =====
-- The owner's answer to a friend request (social.py): `_response_values` and `_respond_contact`.
pub mod Moves
pub mod Rows
use agent_comm.Prelude.{
  ℕ, suc, ◌+◌, String, Bool, true, false, not, ◌&&◌, ◌||◌, Option, none, some, List, [], ◌∷◌, ◌<>◌,
  same, filter, length, if◌then◌else◌,
}
use Prim.Native.Char.{code}
use Prim.Native.String.{count}
use agent_comm.Prelude.{◌==◌}
use agent_comm.Json.{Json, Fields, null, str, arr, obj, nil, cons, no_fields, field, lookup}
use agent_comm.Table.{get, put, rows}
use agent_comm.Remote.State.{Outcome, ok, raised, value_error, raise_if, ◌>>=◌, ◌>>◌}
use agent_comm.Remote.Parse.{text_of, required}
use agent_comm.Store.State.{Env, Contact, Core}
use agent_comm.Store.Records.{principal, is_owned, check_identifier}
use agent_comm.Store.Same.{same_contact}
use agent_comm.Store.Requests.{contact_value}
use agent_comm.Social.State.{
  Direction, incoming, outgoing, RequestStatus, waiting, accepted, rejected, retired,
  ContactRequest, Letter, Inbound, Social, Neighbours,
}
use agent_comm.Social.Peers.{key, is_waiting, is_outgoing, peer_blocked, contacts_with}
use agent_comm.Social.Outbox.{protocol, queue_social}
use agent_comm.Social.Inbox.{Db, same_status, decision_of, mark_message, connect, friend_attention}

has_colon : String → Bool
has_colon String.[] = false
has_colon (String.◌∷◌ c s) = (code c == b':') || has_colon s

-- `urn.rsplit(":", 1)[-1]`
last_segment : String → String
unfolding has_colon
last_segment String.[] = String.[]
last_segment (String.◌∷◌ c s) =
    let rest = last_segment s in
    if has_colon s then rest else if code c == b':' then s else String.◌∷◌ c s

or_default : Option Json → Json → Option Json
or_default none v = some v
or_default (some w) v = some w

-- `"accepted" if decision == "accept" else "rejected"`, as the text of the decision.
unfoldable pub decision_text : RequestStatus → String
decision_text accepted = "accept"
decision_text _ = "reject"

module _ (E : Env) (N : Neighbours) where
  open E use {runtime}

  -- The contact that an accepted request binds: the one there is, or a new one.
  bound_contact : Fields → ContactRequest → String → Core → Outcome Contact
  unfolding contact_value last_segment or_default
  bound_contact params r owner c = elim (contacts_with E r.peer_urn owner c) [
    | x ∷ xs ↦ ok x
    | [] ↦
        contact_value E
          (or_default (lookup "contact_id" params)
            (str ("peer-" <> runtime.take 20 (key E (r.peer_urn ∷ [])))))
          (or_default (lookup "aliases" params)
            (arr (cons (str (runtime.take 100 (last_segment r.peer_urn))) nil)))
          (some (str r.peer_urn)) owner
  ]

  checked_contact : Fields → ContactRequest → String → Core → Outcome Contact
  unfolding bound_contact same_contact
  checked_contact params r owner c = do
    x ← bound_contact params r owner c
    elim (get c.contacts x.contact_id) [
      | none ↦ ok x
      | some old ↦
          (if same_contact old x
            then ok x
            else raised (value_error "This contact ID already belongs to another identity"))
    ]

  -- What `_response_values` returns: the request, the status that was decided, and the contact.
  pub record Response : Type 0 where
    pub request : ContactRequest
    pub status : RequestStatus
    pub contact : Option Contact

  bind_response : Fields → ContactRequest → RequestStatus → String → Core → Outcome Response
  unfolding checked_contact
  bind_response params r status owner c =
      if same_status status accepted
      then (do
        x ← checked_contact params r owner c
        ok (record { request = r; status = status; contact = some x }))
      else ok (record { request = r; status = status; contact = none })

  -- `_response_values(params, owner_session)`
  unfoldable pub response_values : Fields → String → Core → Social → Outcome Response
  unfolding check_identifier decision_of bind_response
  response_values params owner c s = do
    id ←
        required (text_of (lookup "request_id" params))
          (value_error "request_id must contain 1–128 ASCII letters, digits, ., _, : or -")
    check_identifier id "request_id"
    elim (get s.requests id) [
      | none ↦ raised (value_error "No incoming friend request for this owner")
      | some r ↦ do
        raise_if (not (is_owned r.owner_id owner) || is_outgoing r)
            (value_error "No incoming friend request for this owner")
        raise_if (peer_blocked E r.peer_urn owner s)
            (value_error "Unblock this peer before responding to its request")
        status ← decision_of (lookup "decision" params) "Contact decision must be accept or reject"
        bind_response params r status owner c
    ]

  response_packet : ContactRequest → RequestStatus → Json
  unfolding decision_text
  response_packet r status = obj (
      field "decision" (str (decision_text status)) (
        field "protocol" (str protocol)
          (field "request_id" (str r.request_id) (field "type" (str "response") no_fields))))

  -- The message of the answer. `local_urn` may be missing: then the key holds a null.
  response_letter : ContactRequest → RequestStatus → Letter
  unfolding response_packet
  response_letter r status =
      let own : Json = elim E.local_urn [ none ↦ null | some u ↦ str u ] in
      let k = runtime.sha256 (runtime.canonical (arr (cons (str r.request_id) (cons own nil)))) in
      record {
        message_id = "friend-response-" <> runtime.take 40 k;
        recipient_urn = r.peer_urn;
        kind = "contact.response";
        conversation_id = some r.request_id;
        in_reply_to = some r.request_id;
        text = runtime.canonical (response_packet r status);
      }

  -- The contact and the connection that an accepted request makes.
  bind_peer : ContactRequest → Option Contact → ℕ → Db E N → ContactRequest × Db E N
  bind_peer r none now d = (r, d)
  bind_peer r (some x) now (c, s, σ) =
      let c' = record c { contacts = put x.contact_id x c.contacts } in
      (
        record r { contact_id = some x.contact_id },
        (c', connect E N r now s, N.on_write "contact" x.contact_id c c' s σ),
      )

  answer_request :
      ContactRequest → RequestStatus → String → ℕ → Db E N → Outcome (ContactRequest × Db E N)
  unfolding queue_social response_letter mark_message
  answer_request r status owner now (c, s, σ) = do
    let r' : ContactRequest = record r { status = status; updated_at = now }
    (_, s') ←
        queue_social E (response_letter r status) r.owner_id now
          (record s { requests = put r.request_id r' s.requests })
    (_, d') ← mark_message E N r.request_id owner now (c, s', friend_attention E N r' σ)
    ok (r', d')

  -- `_respond_contact(params, owner_session)`: the request as it was decided.
  unfoldable pub respond_contact : Fields → String → ℕ → Db E N → Outcome (ContactRequest × Db E N)
  unfolding response_values bind_peer answer_request
  respond_contact params owner now d = do
    v ← response_values params owner (d.0) (d.1)
    (if not (is_waiting v.request.status)
        then (do
          raise_if (not (same_status v.request.status v.status))
              (value_error "Friend request is already decided")
          ok (v.request, d))
        else (let (r, d') = bind_peer v.request v.contact now d in
            answer_request r v.status owner now d'))
