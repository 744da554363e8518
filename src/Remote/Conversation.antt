-- ===== src/Remote/Conversation.antt =====
-- The branches "conversation.send" and "conversation.get" of `_invoke` (remote.py).
use agent_comm.Prelude.{
  ℕ, zero, suc, ◌-◌, String, Bool, false, not, ◌&&◌, ◌||◌, Option, none, some, List, [], ◌∷◌, ◌<>◌,
  same, before, all, filter, leb, ltb, ◌==◌, length, map, codes, if◌then◌else◌,
}
use Prim.Native.String.{len}
use agent_comm.Json.{pos, Json, null, bool, int, str, arr, obj, no_fields, field, lookup}
use agent_comm.Policy.Fields.{is_space}
use agent_comm.Runtime.{Runtime}
use agent_comm.Table.{Table, put, rows}
use agent_comm.Remote.State.{
  Pairing, Turn, TurnStatus, submitted, running, completed, failed, interrupted, Bridge, Outcome,
  ok, remote_error, raise_if, ◌>>=◌, ◌>>◌,
}
use agent_comm.Remote.Parse.{Request, text_of, identifier, required}
use agent_comm.Remote.Pairing.{Settings}
use agent_comm.Remote.Invoke.{
  Store, check_params, require_peer_model_safety, mentions_of, to_items, is_pending,
}

abbrev text_message : String
text_message = "Conversation text must contain 1–24000 UTF-8 bytes"

-- Every mention names a task of this owner.
abbrev tasks_exist : (String → Bool) → List String → Bool
tasks_exist known ids = all known ids

-- The turns of a console that wait or run.
unfoldable pub pending_turns : String → Table Turn → List Turn
pending_turns console t = filter (λ j. is_pending j.status && same j.console_urn console) (rows t)

-- `params.get(key, default)` as a text
abbrev text_or : Option Json → String → Option String
text_or none s = some s
text_or (some v) s = text_of (some v)

mention_row : String → Json
mention_row id = obj (field "kind" (str "task") (field "task_id" (str id) no_fields))

mention_rows : List String → Json
unfolding mention_row
mention_rows ids = arr (to_items (map mention_row ids))

module _ (R : Runtime) (S : Store) where
  open R use {sha256, take}

  -- The identifier of the turn of a request.
  unfoldable pub turn_id_of : Request → Pairing → String
  turn_id_of r p = "turn-" <> take 40 (sha256 (p.console_urn <> "\0" <> r.request_id))

  -- The checks on a new turn: its text, the tasks that it mentions and its conversation.
  unfoldable pub turn_params :
      Settings
      → Request
      → Pairing
      → String
      → Bridge
      → S.State
      → Outcome (String × List String × String)
  unfolding pending_turns check_params require_peer_model_safety mentions_of identifier
  turn_params s r p owner b σ = do
    require_peer_model_safety s false
    check_params r.params ("text" ∷ []) ("conversation_id" ∷ "mentions" ∷ [])
    text ← required (text_of (lookup "text" r.params)) (remote_error "invalid_params" text_message)
    raise_if (all is_space (codes text) || ltb 24000 (len text))
        (remote_error "invalid_params" text_message)
    task_ids ← mentions_of (lookup "mentions" r.params)
    raise_if (not (all (λ id. S.has_task id owner σ) task_ids))
        (remote_error "unknown_task" "Task mention is not available to this owner")
    raise_if (leb 100 (length (pending_turns p.console_urn b.turns))) (
        remote_error "queue_full"
          "This console already has 100 pending turns; wait before submitting more")
    conversation_id ← identifier (text_or (lookup "conversation_id" r.params) r.request_id)
    ok (text, task_ids, conversation_id)

  -- The new row of kind "turn".
  unfoldable pub new_turn : Request → Pairing → ℕ → String × List String × String → Turn
  unfolding turn_id_of
  new_turn r p now (text, task_ids, conversation_id) = record {
    turn_id = turn_id_of r p;
    conversation_id = conversation_id;
    console_urn = p.console_urn;
    owner_principal = p.owner_principal;
    status = submitted;
    text = text;
    mentions = task_ids;
    response = none;
    error = none;
    created_at = now;
    updated_at = now;
  }

  pub submitted_row : Turn → Json
  unfolding mention_rows
  submitted_row j = obj (
      field "status" (str "submitted") (
        field "conversation_id" (str j.conversation_id)
          (field "turn_id" (str j.turn_id) (field "mentions" (mention_rows j.mentions) no_fields))))

  -- "conversation.send": the result and the database with the new turn.
  unfoldable pub send :
      Settings → Request → Pairing → String → ℕ → Bridge → S.State → Outcome (Json × Bridge)
  unfolding turn_params new_turn submitted_row
  send s r p owner now b σ = do
    given ← turn_params s r p owner b σ
    let j = new_turn r p now given
    ok (submitted_row j, record b { turns = put j.turn_id j b.turns })

-- `key=lambda j: (j["created_at"], j["turn_id"])`
unfoldable pub precedes : Turn → Turn → Bool
precedes i j =
    ltb i.created_at j.created_at || i.created_at == j.created_at && before i.turn_id j.turn_id

unfoldable pub place : Turn → List Turn → List Turn
place i [] = i ∷ []
place i (j ∷ js) = let rest = place i js in if precedes j i then j ∷ rest else i ∷ j ∷ js

-- `sorted(turns, key=...)`
unfoldable pub sort_turns : List Turn → List Turn
unfolding place precedes
sort_turns [] = []
sort_turns (j ∷ js) = place j (sort_turns js)

drop : ℕ → List Turn → List Turn
drop zero js = js
drop (suc n) [] = []
drop (suc n) (j ∷ js) = drop n js

-- `turns[-n:]`
unfoldable pub latest : ℕ → List Turn → List Turn
unfolding drop
latest n js = drop (length js - n) js

status_text : TurnStatus → String
status_text submitted = "submitted"
status_text running = "running"
status_text completed = "completed"
status_text failed = "failed"
status_text interrupted = "interrupted"

or_null : Option String → Json
or_null none = null
or_null (some s) = str s

-- Instants are shown as integers.
turn_row : Json → Turn → Json
unfolding status_text or_null mention_rows
turn_row related j = obj (
    field "turn_id" (str j.turn_id) (
      field "status" (str (status_text j.status)) (
        field "text" (str j.text) (
          field "response" (or_null j.response) (
            field "error" (or_null j.error) (
              field "created_at" (int (pos j.created_at)) (
                field "updated_at" (int (pos j.updated_at)) (
                  field "mentions" (mention_rows j.mentions)
                    (field "related" related no_fields)))))))))

-- The turns of one conversation that this pairing may read.
unfoldable pub turns_of : Pairing → String → Table Turn → List Turn
turns_of p id t =
    filter
      (λ j.
        same j.console_urn p.console_urn
        && same j.owner_principal p.owner_principal
        && same j.conversation_id id)
      (rows t)

module _ (S : Store) where
  -- "conversation.get"
  unfoldable pub conversation : Request → Pairing → String → Bridge → S.State → Outcome Json
  unfolding turns_of sort_turns latest turn_row check_params identifier
  conversation r p owner b σ = do
    check_params r.params ("conversation_id" ∷ []) []
    id ← identifier (text_of (lookup "conversation_id" r.params))
    let jobs = turns_of p id b.turns
    let shown = latest 100 (sort_turns jobs)
    ok (
        obj (
          field "conversation_id" (str id) (
            field "turns"
              (arr (
                to_items
                  (map (λ j. turn_row (S.links owner p.console_urn id j.turn_id σ) j) shown)))
              (field "history"
                (obj (
                  field "limit" (int (pos 100)) (
                    field "returned" (int (pos (length shown)))
                      (field "truncated" (bool (ltb 100 (length jobs))) no_fields))))
                no_fields))))
