-- ===== src/Remote/Invoke.antt =====
-- `_params`, `_require_peer_model_safety` and `_invoke` of remote.py, over the store's methods.
use agent_comm.Prelude.{
  ℕ, String, Bool, true, false, not, ◌&&◌, ◌||◌, Option, none, some, List, [], ◌∷◌, ◌++◌, same, mem,
  minus, is_empty, ltb, length, map, if◌then◌else◌,
}
use agent_comm.Json.{
  pos, Json, Items, Fields, bool, int, str, arr, obj, nil, cons, no_fields, field, lookup, keys,
  items,
}
use agent_comm.Remote.State.{
  Pairing, Turn, TurnStatus, submitted, running, Outcome, ok, raised, remote_error, raise_if, ◌>>=◌,
  ◌>>◌,
}
use agent_comm.Remote.Parse.{text_of, is_text, identifier, has_exactly}
use agent_comm.Remote.Pairing.{Settings, read_methods, write_methods, conversation_methods}

-- A call of a method of the store or of a registered handler, with what it is given.
pub data Call : Type 0 where
  -- remote_mutation(method, params, owner, request_key, fingerprint, valid_until)
  remote_mutation : String → Fields → String → String → String → ℕ → Call
  contact_requests : String → Call
  review_preview : Json → String → Call
  contacts : String → Call
  attention : Option Json → Option Json → String → Call
  state : Option String → String → Call
  inbox : Option String → String → Call
  task_list : Fields → String → Call
  -- The task methods read the turns of this console too.
  task_view : String → String → Fields → String → List Turn → Call
  -- self.handlers[method](params, owner)
  handler : String → Fields → String → Call
  -- self.handlers["collaboration.execute"](params, owner, ...): the request ID and the conversation of
  -- the source context, the console, the request key, the fingerprint, and the time limit.
  execute : Fields → String → String → Option String → String → String → String → ℕ → Call

-- What the bridge uses of the store: its methods may raise, and what they wrote before stays
-- written or is rolled back by the store itself.
pub record Store : Type 1 where
  pub State : Type 0
  pub perform : Call → State → Outcome Json × State
  -- `self.store._task(task_id, owner)` returns
  pub has_task : String → String → State → Bool
  -- `self.store.conversation_links(owner, console_urn, conversation_id, turn_id)`
  pub links : String → String → String → String → State → Json
  -- `self.store.register_owner(owner_principal)`
  pub register_owner : String → State → State
  -- `self.store.record_conversation_event(job)`
  pub record_event : Turn → State → State

-- `_params(params, required, optional)`
unfoldable pub check_params : Fields → List String → List String → Outcome (Unit {0})
check_params params required optional =
    raise_if
      (not (is_empty (minus (minus (keys params) required) optional))
        || not (is_empty (minus required (keys params))))
      (remote_error "invalid_params" "Unexpected or missing method parameters")

-- `_require_peer_model_safety(previously_accepted=...)`
unfoldable pub require_peer_model_safety : Settings → Bool → Outcome (Unit {0})
require_peer_model_safety s previously_accepted =
    raise_if (not s.conversations || not s.peer_content_safety_enabled || not s.reviews) (
      if previously_accepted
      then remote_error "peer_content_safety_changed"
          "Host admission changed after this turn was accepted; read its existing conversation before retrying"
      else remote_error "peer_content_safety_required"
          "Upgrade the host's owner-review admission path before starting a conversation")

abbrev pub to_items : List Json → Items
to_items [] = nil
to_items (x ∷ xs) = cons x (to_items xs)

unavailable : Settings → List String
unavailable s =
    (if s.reviews
      then []
      else "contacts.block" ∷ "contacts.unblock" ∷ "inbox.review_preview" ∷ "inbox.review" ∷ [])
    ++ ((if s.peer_content_safety_enabled && s.reviews then [] else "conversation.send" ∷ [])
        ++ (if s.conversations then [] else conversation_methods))

-- `name in available and name in pairing["methods"]`, for a name of the list.
unfoldable pub is_available : Settings → Pairing → String → Bool
unfolding unavailable
is_available s p name =
    (mem name s.handlers || not (mem name (unavailable s))) && mem name p.methods

method_row : Settings → Pairing → String → Json
unfolding is_available
method_row s p name = obj (
    field "name" (str name) (
      field "available" (bool (is_available s p name)) (
        if is_available s p name
        then no_fields
        else field "reason" (str "Not enabled by this adapter or local pairing") no_fields)))

unfoldable pub capabilities_of : Settings → Pairing → Json
unfolding method_row
capabilities_of s p = obj (
    field "protocol" (str "agent-comm-control/v1") (
      field "methods"
        (arr (
          to_items (
            map (method_row s p)
              (read_methods ++ (write_methods ++ (conversation_methods ++ s.handlers))))))
        (field "pairing" (obj (field "expires_at" (str p.expires_at) no_fields)) (
          if s.peer_content_safety_enabled && s.reviews
          then field "peer_content_safety"
              (obj (
                field "version" (int (pos 1)) (
                  field "mode" (str "owner_review")
                    (field "automatic_peer_model_execution" (bool false) no_fields))))
              no_fields
          else no_fields))))

-- The required and the optional parameters of a write method.
unfoldable pub write_params : String → List String × List String
write_params method =
    if same method "contacts.add"
    then ("contact_id" ∷ "aliases" ∷ "urn" ∷ [], [])
    else if same method "approval.respond"
    then ("approval_id" ∷ "decision" ∷ [], [])
    else if same method "contacts.respond"
    then ("request_id" ∷ "decision" ∷ [], "contact_id" ∷ "aliases" ∷ [])
    else if same method "messages.send"
    then ("recipient_urn" ∷ "text" ∷ [], "message_id" ∷ [])
    else if same method "contacts.block" || same method "contacts.unblock"
    then ("urn" ∷ [], [])
    else if same method "inbox.review"
    then ("message_id" ∷ "decision" ∷ [], [])
    else ("message_id" ∷ [], [])

-- The `task_id` of a mention: `set(m) == {"kind", "task_id"} and m["kind"] == "task"`.
mention : Json → Option Json
mention (obj m) =
    if has_exactly m ("kind" ∷ "task_id" ∷ []) && is_text (lookup "kind" m) "task"
    then lookup "task_id" m
    else none
mention _ = none

abbrev all_some : List (Option Json) → Option (List Json)
all_some [] = some []
all_some (none ∷ xs) = none
all_some (some x ∷ xs) = elim (all_some xs) [ none ↦ none | some ys ↦ some (x ∷ ys) ]

identifiers : List Json → Outcome (List String)
identifiers [] = ok []
identifiers (x ∷ xs) = do i ← identifier (text_of (some x)); is ← identifiers xs; ok (i ∷ is)

has_repeat : List String → Bool
has_repeat [] = false
has_repeat (x ∷ xs) = mem x xs || has_repeat xs

-- The `task_id`s of `params.get("mentions", [])`.
unfoldable pub mentions_of : Option Json → Outcome (List String)
unfolding mention identifiers has_repeat
mentions_of given = do
  task_ids ← elim given [
    | none ↦ ok []
    | some (arr ms) ↦
        (if ltb 8 (length (items ms))
          then raised
              (remote_error "invalid_params" "Provide at most eight structured task mentions")
          else elim (all_some (map mention (items ms))) [
            | none ↦
                raised
                  (remote_error "invalid_params" "Provide at most eight structured task mentions")
            | some ids ↦ identifiers ids
          ])
    | some _ ↦
        raised (remote_error "invalid_params" "Provide at most eight structured task mentions")
  ]
  raise_if (has_repeat task_ids) (remote_error "invalid_params" "Task mentions must be unique")
  ok task_ids

-- `j["status"] in {"submitted", "running"}`
abbrev pub is_pending : TurnStatus → Bool
is_pending submitted = true
is_pending running = true
is_pending _ = false
