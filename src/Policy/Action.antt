-- ===== src/Policy/Action.antt =====
-- `validate_action` of policy.py. A normalized action is a capability with its typed payload.
pub mod Supported
use agent_comm.Prelude.{
  ℕ, String, Bool, true, false, not, ◌&&◌, ◌||◌, Option, none, some, List, [], ◌∷◌, length,
  is_empty, any, ltb, leb, if◌then◌else◌, mem, same, ◌==◌,
}
use agent_comm.Json.{Json, Fields, arr, obj, lookup, items}
use agent_comm.Policy.Fault.{
  Fault, Check, ok, fault, raise_if, unsupported_action, bad_slots, duplicate_slots, ◌>>=◌, ◌>>◌,
}
use agent_comm.Policy.Fields.{capabilities, object, string, identifier, ids, integer}
use agent_comm.Policy.Time.{Interval, interval_of}
use agent_comm.Policy.Scope.{intervals}

pub record Meeting : Type 0 where
  pub proposal_id : String
  pub version : ℕ
  pub topic : String
  pub participant_ids : List String
  pub interval : Interval

pub data Payload : Type 0 where
  share_slots : List Interval → Payload
  share_resource : String → Payload
  propose_meeting : Meeting → Payload
  accept_meeting : Meeting → Payload
  send_text : String → Payload

pub record Action : Type 0 where
  pub recipient_ids : List String
  pub payload : Payload

-- `action["capability"]`
abbrev pub capability : Payload → String
capability (share_slots _) = "share_slots"
capability (share_resource _) = "share_resource"
capability (propose_meeting _) = "propose_meeting"
capability (accept_meeting _) = "accept_meeting"
capability (send_text _) = "send_text"

-- `_PAYLOAD_FIELDS`, sorted
abbrev pub meeting_fields : List String
meeting_fields = "end" ∷ "participant_ids" ∷ "proposal_id" ∷ "start" ∷ "topic" ∷ "version" ∷ []

abbrev same_interval : Interval → Interval → Bool
same_interval i j = i.start == j.start && i.end == j.end

-- `len({(s["start"], s["end"]) for s in slots}) != len(slots)`
unfoldable pub has_duplicate : List Interval → Bool
has_duplicate [] = false
has_duplicate (i ∷ is) = any (same_interval i) is || has_duplicate is

slots : Option Json → Check Payload
unfolding has_duplicate
slots (some (arr xs)) = do
  let values = items xs
  raise_if (is_empty values || ltb 128 (length values)) bad_slots
  normalized ← intervals values "action.payload.slots" 0
  raise_if (has_duplicate normalized) duplicate_slots
  ok (share_slots normalized)
slots _ = fault bad_slots

meeting : Fields → Check Meeting
meeting fs = do
  interval ← interval_of (lookup "start" fs) (lookup "end" fs) "action.payload.interval"
  proposal_id ← identifier (lookup "proposal_id" fs) "action.payload.proposal_id"
  version ← integer (lookup "version" fs) "action.payload.version" 1 2147483647
  topic ← string (lookup "topic" fs) "action.payload.topic" 500
  participants ← ids (lookup "participant_ids" fs) "action.payload.participant_ids" true false
  ok (record {
    proposal_id = proposal_id;
    version = version;
    topic = topic;
    participant_ids = participants;
    interval = interval;
  })

-- The branches on the capability, each with its `_object` call on the payload.
payload_of : String → Option Json → Check Payload
unfolding slots meeting
payload_of name v =
    if same name "share_slots"
    then (do fs ← object v ("slots" ∷ []) "action.payload" []; slots (lookup "slots" fs))
    else if same name "share_resource"
    then (do
      fs ← object v ("resource_id" ∷ []) "action.payload" []
      id ← identifier (lookup "resource_id" fs) "action.payload.resource_id"
      ok (share_resource id))
    else if same name "propose_meeting"
    then (do
      fs ← object v meeting_fields "action.payload" []
      m ← meeting fs
      ok (propose_meeting m))
    else if same name "accept_meeting"
    then (do
      fs ← object v meeting_fields "action.payload" []
      m ← meeting fs
      ok (accept_meeting m))
    else (do
      fs ← object v ("text" ∷ []) "action.payload" []
      text ← string (lookup "text" fs) "action.payload.text" 8000
      ok (send_text text))

-- `_identifier(action["capability"], ...)` and the test against `CAPABILITIES`.
supported : Option Json → Check String
supported v = do
  name ← identifier v "action.capability"
  raise_if (not (mem name capabilities)) unsupported_action
  ok name

-- An unsupported capability is refused before the missing fields are looked for.
early : Json → Check (Unit {0})
unfolding supported
early (obj fs) = elim (lookup "capability" fs) [
  | none ↦ ok tt
  | some v ↦ do _ ← supported (some v); ok tt
]
early _ = ok tt

-- `validate_action(action)`
unfoldable pub validate_action : Json → Check Action
unfolding payload_of supported early
validate_action action = do
  early action
  fs ← object (some action) ("capability" ∷ "payload" ∷ "recipient_ids" ∷ []) "action" []
  name ← supported (lookup "capability" fs)
  recipients ← ids (lookup "recipient_ids" fs) "action.recipient_ids" true false
  payload ← payload_of name (lookup "payload" fs)
  ok (record { recipient_ids = recipients; payload = payload })
