-- ===== src/Remote/Route.antt =====
-- The other branches of `_invoke` (remote.py), and `_invoke` itself.
pub mod Effect
use agent_comm.Prelude.{
  ℕ, String, Bool, not, ◌&&◌, Option, none, some, List, [], ◌∷◌, ◌<>◌, same, mem, any, min,
  if◌then◌else◌,
}
use agent_comm.Json.{Json, Fields, null, str, no_fields, field, lookup, keys}
use agent_comm.Runtime.{Runtime}
use agent_comm.Table.{rows}
use agent_comm.Remote.State.{
  Pairing, Turn, Bridge, Outcome, ok, raised, remote_error, raise_if, ◌>>=◌, ◌>>◌,
}
use agent_comm.Remote.Parse.{Request, text_of, is_text, identifier, deadline_of}
use agent_comm.Remote.Pairing.{Settings, read_methods, write_methods}
use agent_comm.Remote.Invoke.{
  Store, Call, remote_mutation, contact_requests, review_preview, contacts, attention, state, inbox,
  task_list, task_view, handler, execute, check_params, write_params, capabilities_of,
}
use agent_comm.Remote.Conversation.{send, conversation}

-- `{k: v for k, v in params.items() if k != name}`
without : String → Fields → Fields
without name no_fields = no_fields
without name (field k v fs) = if same k name then without name fs else field k v (without name fs)

-- `j["console_urn"] == pairing["console_urn"] and j["owner_principal"] == ...`
abbrev pub is_own : Pairing → Turn → Bool
is_own p j = same j.console_urn p.console_urn && same j.owner_principal p.owner_principal

abbrev optional_id : Option Json → Outcome (Option String)
optional_id none = ok none
optional_id (some null) = ok none
optional_id (some v) = do id ← identifier (text_of (some v)); ok (some id)

module _ (R : Runtime) where
  open R use {sha256, canonical, take}

  -- `min(instant(request["deadline"]), instant(pairing["expires_at"]))`
  unfoldable pub valid_until : Request → Pairing → Outcome ℕ
  unfolding deadline_of
  valid_until r p = do
    d ← deadline_of R (some r.deadline)
    e ← deadline_of R (some p.expires_at)
    ok (min d e)

  unfoldable pub request_key : Request → String
  request_key r = sha256 (r.console_urn <> "\0" <> r.request_id)

  unfoldable pub request_fingerprint : Request → String
  request_fingerprint r = sha256 (canonical r.whole)

  -- The owner session of a pairing.
  unfoldable pub session_of : Pairing → String
  session_of p = p.owner_principal <> "|remote:" <> take 24 (sha256 p.console_urn)

  -- The call of a write method.
  unfoldable pub write_call : Request → Pairing → Outcome Call
  unfolding valid_until request_key request_fingerprint session_of write_params check_params
  write_call r p = do
    let (needed, allowed) = write_params r.method
    check_params r.params needed allowed
    until ← valid_until r p
    ok (
        remote_mutation r.method r.params (session_of p) (request_key r) (request_fingerprint r)
          until)

  -- The call of a read method other than the capabilities.
  unfoldable pub read_call : Request → Pairing → Bridge → Outcome Call
  unfolding session_of check_params identifier
  read_call r p b =
      if same r.method "contacts.requests"
      then (do check_params r.params [] []; ok (contact_requests (session_of p)))
      else if same r.method "inbox.review_preview"
      then (do
        check_params r.params ("message_id" ∷ []) []
        elim (lookup "message_id" r.params) [
          | none ↦ raised (remote_error "invalid_params" "Unexpected or missing method parameters")
          | some v ↦ ok (review_preview v (session_of p))
        ])
      else if same r.method "contacts.list"
      then (do check_params r.params [] []; ok (contacts (session_of p)))
      else if same r.method "attention.list"
      then (do
        check_params r.params [] ("after" ∷ "limit" ∷ [])
        ok (attention (lookup "after" r.params) (lookup "limit" r.params) (session_of p)))
      else if same r.method "collaboration.state"
      then (do
        check_params r.params [] ("task_id" ∷ [])
        task ← optional_id (lookup "task_id" r.params)
        ok (state task (session_of p)))
      else if same r.method "inbox.list"
      then (do
        check_params r.params [] ("task_id" ∷ [])
        task ← optional_id (lookup "task_id" r.params)
        ok (inbox task (session_of p)))
      else if same r.method "task.list"
      then (do
        check_params r.params [] ("query" ∷ "limit" ∷ "cursor" ∷ [])
        ok (task_list r.params (session_of p)))
      else (do
        check_params r.params ("task_id" ∷ [])
            (if same r.method "task.events" then "limit" ∷ "cursor" ∷ [] else [])
        task ← identifier (text_of (lookup "task_id" r.params))
        ok (task_view r.method task r.params (session_of p) (rows b.turns)))

  -- `params` with the message ID that a request to prepare a message is given.
  with_message_id : Request → Fields
  unfolding request_key
  with_message_id r =
      if same r.method "collaboration.execute"
        && is_text (lookup "action" r.params) "prepare_message"
        && not (mem "message_id" (keys r.params))
      then field "message_id" (str ("web-message-" <> take 40 (request_key r))) r.params
      else r.params

  source_of : Option Json → Pairing → Bridge → Outcome (Option String)
  unfolding identifier
  source_of given p b = do
    source ← optional_id given
    elim source [
      | none ↦ ok none
      | some id ↦ do
        raise_if (not (any (λ j. is_own p j && same j.conversation_id id) (rows b.turns))) (
            remote_error "invalid_source_context"
              "The source conversation is not owned by this pairing")
        ok (some id)
    ]

  -- The call of a registered handler.
  unfoldable pub handler_call : Request → Pairing → Bridge → Outcome Call
  unfolding with_message_id source_of valid_until request_key request_fingerprint session_of without
  handler_call r p b =
      if same r.method "collaboration.execute"
      then (do
        source ← source_of (lookup "source_conversation_id" r.params) p b
        until ← valid_until r p
        ok (
            execute (without "source_conversation_id" (with_message_id r)) (session_of p)
              r.request_id source p.console_urn (request_key r) (request_fingerprint r) until))
      else ok (handler r.method r.params (session_of p))

module _ (R : Runtime) (S : Store) where
  -- `_sync_conversation_events(pairing)`: every turn of the pairing is shown to the store again.
  pub sync_events : Pairing → List Turn → S.State → S.State
  sync_events p [] σ = σ
  sync_events p (j ∷ js) σ = sync_events p js (if is_own p j then S.record_event j σ else σ)

  -- A call of the store, if the branch gives one.
  pub perform : Outcome Call → Bridge → S.State → Outcome Json × Bridge × S.State
  perform (raised e) b σ = (raised e, b, σ)
  perform (ok c) b σ = let (r, σ') = S.perform c σ in (r, b, σ')

  pub sent : Outcome (Json × Bridge) → Bridge → S.State → Outcome Json × Bridge × S.State
  sent (raised e) b σ = (raised e, b, σ)
  sent (ok (v, b')) b σ = (ok v, b', σ)

  -- `_invoke(request, pairing)`: the result or the exception, and what was written.
  unfoldable pub invoke :
      Settings → Request → Pairing → ℕ → Bridge → S.State → Outcome Json × Bridge × S.State
  unfolding perform sent sync_events write_call read_call handler_call session_of
  invoke s r p now b σ =
      if same r.method "capabilities"
      then ((do check_params r.params [] []; ok (capabilities_of s p)), b, σ)
      else if mem r.method write_methods
      then perform (write_call R r p) b σ
      else if same r.method "attention.list"
      then elim (read_call R r p b) [
        | raised e ↦ (raised e, b, σ)
        | ok c ↦ perform (ok c) b (sync_events p (rows b.turns) σ)
      ]
      else if mem r.method read_methods
      then perform (read_call R r p b) b σ
      else if same r.method "conversation.send" && s.conversations
      then sent (send R S s r p (session_of R p) now b σ) b σ
      else if same r.method "conversation.get" && s.conversations
      then (conversation S r p (session_of R p) b σ, b, σ)
      else if mem r.method s.handlers
      then perform (handler_call R r p b) b σ
      else (
        raised (
            remote_error "unsupported_method"
              "The agent adapter has no trusted handler for this method"),
        b,
        σ,
      )
