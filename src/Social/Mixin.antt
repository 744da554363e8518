-- ===== src/Social/Mixin.antt =====
-- The social mixin as `Store` sees it: the branches of `_approval_current` and `_apply_approval`
-- (store.py) on its kinds, and what store.py calls, over the rows of social.py.
use agent_comm.Prelude.{
  ℕ, String, Bool, true, false, not, ◌&&◌, ◌||◌, Option, none, some, List, [], ◌∷◌, ltb,
}
use agent_comm.Json.{Json, Fields, str, arr, obj, Items, nil, cons, lookup}
use agent_comm.Table.{Table, get}
use agent_comm.Remote.State.{Outcome, ok, raised, Failure, value_error, ◌>>=◌}
use agent_comm.Remote.Parse.{text_of, required}
use agent_comm.Store.State.{
  Env, Contact, Approval, Proposal, friend_request, contact_response, direct_message, Core, Mixins,
}
use agent_comm.Store.Records.{principal, is_owned}
use agent_comm.Store.Same.{same_contact}
use agent_comm.Social.State.{ContactRequest, Letter, Inbound, Social, Neighbours}
use agent_comm.Social.Peers.{
  PeerStatus, unverified, pending, connected, declined, blocked, is_connected, is_pending,
  is_waiting, contact_status, can_send_to,
}
use agent_comm.Social.Inbox.{Db}
use agent_comm.Social.Outbox.{queue_social, request_contact}
use agent_comm.Social.Respond.{respond_contact}

-- What store.py asks of the other mixins.
pub record Others (N : Neighbours) : Type 0 where
  pub audit : String → Core → Social → N.State → N.State
  pub is_v2_operation : String → N.State → Bool
  pub proposal_review_safe : Option Proposal → String → Core → Social → N.State → Bool
  pub is_current : Approval → ℕ → Core → Social → N.State → Bool
  pub deadline : Approval → ℕ → Core → Social → N.State → ℕ
  pub apply : Approval → ℕ → Core → Social → N.State → Outcome (Table Contact × (Social × N.State))
  pub deny : Approval → Core → Social → N.State → N.State
  -- `_review_peer(message_id, decision, owner_session)` of peer_review.py: its result, and the inbox.
  pub review :
      Option Json
      → Option Json
      → String
      → ℕ
      → Core
      → Social
      → N.State
      → Outcome (Json × (Table Inbound × N.State))
  -- The row of `_contacts_view`, with the presence of the peer.
  pub contact_view : Contact → Core → Social → N.State → Json

pub status_name : PeerStatus → String
status_name unverified = "unverified"
status_name pending = "pending"
status_name connected = "connected"
status_name declined = "rejected"
status_name blocked = "blocked"

-- The texts of an array; another item is left out, which the payloads do not have.
texts_of : Items → List String
texts_of nil = []
texts_of (cons (str s) xs) = s ∷ texts_of xs
texts_of (cons v xs) = texts_of xs

abbrev missing : Failure
missing = value_error "KeyError"

-- `fields[name]`, a text.
abbrev text_at : String → Fields → Outcome String
text_at name fs = required (text_of (lookup name fs)) missing

-- `approval["payload"]["contact"]`, as the row that it was made from.
pub contact_of : Json → Outcome Contact
unfolding texts_of
contact_of (obj fs) = elim (lookup "contact" fs) [
  | some (obj gs) ↦ do
    contact_id ← text_at "contact_id" gs
    urn ← text_at "urn" gs
    owner_id ← text_at "owner_id" gs
    let aliases : List String = elim (lookup "aliases" gs) [ some (arr xs) ↦ texts_of xs | _ ↦ [] ]
    ok (record { contact_id = contact_id; aliases = aliases; urn = urn; owner_id = owner_id })
  | _ ↦ raised missing
]
contact_of v = raised missing

-- The payload of a "direct_message", as the message that it was made from.
unfoldable pub letter_of : Json → Outcome Letter
letter_of (obj fs) = do
  message_id ← text_at "message_id" fs
  recipient_urn ← text_at "recipient_urn" fs
  kind ← text_at "kind" fs
  text ← text_at "text" fs
  ok (record {
    message_id = message_id;
    recipient_urn = recipient_urn;
    kind = kind;
    conversation_id = none;
    in_reply_to = none;
    text = text;
  })
letter_of v = raised missing

unfoldable pub is_absent : {A : Type 0} → Option A → Bool
is_absent none = true
is_absent (some a) = false

module _ (E : Env) (N : Neighbours) where
  -- `_approval_current` on a friend request that the owner is asked about.
  pub friend_current : Option Contact → Outcome Contact → Social → Bool
  unfolding same_contact contact_status
  friend_current (some x) (ok y) s =
      let status = contact_status E x s in
      same_contact x y && not (is_pending status || is_connected status)
  friend_current _ _ s = false

  pub response_current : Option ContactRequest → String → Bool
  response_current none owner = false
  response_current (some r) owner = is_owned r.owner_id owner && is_waiting r.status

  -- `_request_contact`, with a fresh token.
  unfoldable pub request_with_token :
      Contact → ℕ → Social → N.State → Outcome (Option String × (Social × N.State))
  unfolding request_contact
  request_with_token x now s σ =
      let (token, σ') = N.token σ in
      (do
        (r, s') ← request_contact E x token now s
        let id : Option String = elim r [ none ↦ none | some q ↦ some q.request_id ]
        ok (id, (s', σ')))

  -- `_apply_approval` on the kinds of social.py.
  pub apply_friend :
      Outcome Contact → ℕ → Core → Social → N.State → Outcome (Table Contact × (Social × N.State))
  unfolding request_with_token
  apply_friend (raised e) now c s σ = raised e
  apply_friend (ok x) now c s σ = do (_, d) ← request_with_token x now s σ; ok (c.contacts, d)

  pub apply_response :
      Json → String → ℕ → Core → Social → N.State → Outcome (Table Contact × (Social × N.State))
  unfolding respond_contact
  apply_response (obj fs) owner now c s σ = do
    (_, d) ← respond_contact E N fs owner now (c, s, σ)
    ok (d.0.contacts, (d.1, d.2))
  apply_response v owner now c s σ = raised missing

  unfoldable pub apply_message :
      Outcome Letter
      → String
      → ℕ
      → Core
      → Social
      → N.State
      → Outcome (Table Contact × (Social × N.State))
  unfolding queue_social principal
  apply_message (raised e) owner now c s σ = raised e
  apply_message (ok m) owner now c s σ = do
    (_, s') ← queue_social E m (principal owner) now s
    ok (c.contacts, (s', σ))

  -- The database as store.py has it: its own rows, and those of its mixins.
  abbrev pub as_store : Db E N → Core × (Social × N.State)
  as_store (c, s, σ) = (c, (s, σ))

  module _ (O : Others N) where
    -- The mixins of `Store`, with the social one made of the definitions of social.py.
    abbrev pub mixins : Mixins
    mixins = record {
      State = Social × N.State;
      on_write = λ kind k c c' (s, σ). (s, N.on_write kind k c c' s σ);
      audit = λ event c (s, σ). (s, O.audit event c s σ);
      is_v2_operation = λ id (s, σ). O.is_v2_operation id σ;
      proposal_review_safe = λ p owner c (s, σ). O.proposal_review_safe p owner c s σ;
      can_send_to = λ urn owner c (s, σ). can_send_to E urn owner c s;
      is_current = λ a now c (s, σ). elim a.subject [
        | friend_request v ↦ friend_current (get c.contacts a.subject_id) (contact_of v) s
        | contact_response v ↦ response_current (get s.requests a.subject_id) a.owner_session
        | direct_message v ↦
            is_absent (get s.outbox a.subject_id)
            && is_absent (get s.inbound a.subject_id)
            && ltb now a.expires_at
        | _ ↦ O.is_current a now c s σ
      ];
      deadline = λ a now c (s, σ). O.deadline a now c s σ;
      apply = λ a now c (s, σ). elim a.subject [
        | friend_request v ↦ apply_friend (contact_of v) now c s σ
        | contact_response v ↦ apply_response v a.owner_session now c s σ
        | direct_message v ↦ apply_message (letter_of v) a.owner_session now c s σ
        | _ ↦ O.apply a now c s σ
      ];
      deny = λ a c (s, σ). elim a.subject [
        | friend_request v ↦ (s, σ)
        | contact_response v ↦ (s, σ)
        | direct_message v ↦ (s, σ)
        | _ ↦ (s, O.deny a c s σ)
      ];
      refresh = λ a c (s, σ). (s, N.refresh a c s σ);
      contact_status = λ x c (s, σ). status_name (contact_status E x s);
      contact_view = λ x c (s, σ). O.contact_view x c s σ;
      request_contact = λ x now c (s, σ). request_with_token x now s σ;
    }
