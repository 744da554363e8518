-- ===== src/Social/Peers.antt =====
-- Who may be written to (social.py): blocks, connections and requests of the owner.
use agent_comm.Prelude.{
  ℕ, String, Bool, true, false, not, ◌&&◌, ◌||◌, none, some, List, [], ◌∷◌, same, before, ltb, ◌==◌,
  any, filter, is_empty, if◌then◌else◌,
}
use agent_comm.Json.{str, arr, Items, nil, cons}
use agent_comm.Table.{get, rows}
use agent_comm.Store.State.{Env, Contact, Core}
use agent_comm.Store.Records.{principal, is_owned}
use agent_comm.Social.State.{
  Block, incoming, outgoing, RequestStatus, waiting, accepted, rejected, retired, ContactRequest,
  Social,
}

text_items : List String → Items
text_items [] = nil
text_items (x ∷ xs) = cons (str x) (text_items xs)

abbrev pub is_outgoing : ContactRequest → Bool
is_outgoing r = elim r.direction [ incoming ↦ false | outgoing ↦ true ]

abbrev pub is_waiting : RequestStatus → Bool
is_waiting waiting = true
is_waiting _ = false

-- `r.get("attempt", 0)`
abbrev attempt_of : ContactRequest → ℕ
attempt_of r = elim r.attempt [ none ↦ 0 | some n ↦ n ]

-- The order of the tuples `(attempt, created_at, request_id)`.
is_later : ContactRequest → ContactRequest → Bool
is_later r q =
    ltb (attempt_of q) (attempt_of r)
    || (attempt_of q == attempt_of r
        && (ltb q.created_at r.created_at
            || (q.created_at == r.created_at && before q.request_id r.request_id)))

-- `max(requests, key=...)`: the first greatest one.
latest_from : ContactRequest → List ContactRequest → ContactRequest
unfolding is_later
latest_from q [] = q
latest_from q (r ∷ rs) = if is_later r q then latest_from r rs else latest_from q rs

pub data PeerStatus : Type 0 where
  unverified pending connected declined blocked : PeerStatus

-- `{"accepted": "connected", "rejected": "rejected"}.get(status, "pending")`
abbrev status_of : RequestStatus → PeerStatus
status_of accepted = connected
status_of rejected = declined
status_of waiting = pending
status_of retired = pending

abbrev pub is_connected : PeerStatus → Bool
is_connected connected = true
is_connected _ = false

abbrev pub is_pending : PeerStatus → Bool
is_pending pending = true
is_pending _ = false

-- The requests that the owner has sent to the peer.
abbrev pub requests_to : String → String → Social → List ContactRequest
requests_to owner urn s =
    filter (λ r. same r.owner_id owner && same r.peer_urn urn && is_outgoing r) (rows s.requests)

latest_status : List ContactRequest → PeerStatus
unfolding latest_from
latest_status [] = unverified
latest_status (r ∷ rs) = status_of ((latest_from r rs).status)

-- What `_sender_connection_state` returns: a state, with the request that it waits for.
pub data SenderState : Type 0 where
  sender_connected sender_unknown : SenderState
  sender_pending : String → SenderState

sender_of_requests : List ContactRequest → SenderState
unfolding latest_from
sender_of_requests [] = sender_unknown
sender_of_requests (r ∷ rs) = sender_pending ((latest_from r rs).request_id)

module _ (E : Env) where
  open E use {runtime}

  -- `key(*values)`
  unfoldable pub key : List String → String
  unfolding text_items
  key values = runtime.sha256 (runtime.canonical (arr (text_items values)))

  -- `_safety_revision(owner_session)`
  unfoldable pub safety_revision : String → Social → ℕ
  unfolding principal
  safety_revision owner s = elim (get s.revisions (key (principal owner ∷ []))) [
    | none ↦ 0
    | some n ↦ n
  ]

  -- `_peer_blocked(urn, owner_session)`
  unfoldable pub peer_blocked : String → String → Social → Bool
  peer_blocked urn owner s = elim (get s.blocks (key (principal owner ∷ urn ∷ []))) [
    | none ↦ false
    | some b ↦ b.blocked
  ]

  -- `_blocked_peers(owner_session)`
  unfoldable pub blocked_peers : String → Social → List Block
  blocked_peers owner s = filter (λ b. is_owned b.owner_id owner && b.blocked) (rows s.blocks)

  -- `_contact_status(contact)`
  unfoldable pub contact_status : Contact → Social → PeerStatus
  unfolding latest_status
  contact_status x s =
      if peer_blocked x.urn x.owner_id s
      then blocked
      else elim (get s.connections (key (x.owner_id ∷ x.urn ∷ []))) [
        | some c ↦ connected
        | none ↦ latest_status (requests_to x.owner_id x.urn s)
      ]

  -- The contacts of this owner with this identity.
  abbrev pub contacts_with : String → String → Core → List Contact
  contacts_with urn owner c =
      filter (λ x. same x.urn urn && is_owned x.owner_id owner) (rows c.contacts)

  -- `not self.local_urn`
  abbrev pub is_offline : Bool
  is_offline = elim E.local_urn [ none ↦ true | some u ↦ same u "" ]

  -- `_can_send_to(recipient_urn, owner_session)`
  unfoldable pub can_send_to : String → String → Core → Social → Bool
  can_send_to urn owner c s =
      if peer_blocked urn owner s
      then false
      else (let xs = contacts_with urn owner c in
          not (is_empty xs) && (is_offline || any (λ x. is_connected (contact_status x s)) xs))

  -- `_sender_connection_state(sender_urn)`
  unfoldable pub sender_state : String → Core → Social → SenderState
  unfolding sender_of_requests
  sender_state urn c s = elim s.mail_owner [
    | none ↦ sender_unknown
    | some owner ↦
        let xs = filter (λ x. same x.urn urn && same x.owner_id owner) (rows c.contacts) in
        if any (λ x. is_connected (contact_status x s)) xs
        then sender_connected
        else if any (λ x. is_pending (contact_status x s)) xs
        then sender_of_requests (filter (λ r. is_waiting r.status) (requests_to owner urn s))
        else sender_unknown
  ]
