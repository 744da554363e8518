-- ===== src/Remote/Parse.antt =====
-- `_parse` of remote.py: what makes a mailbox message a control request.
use agent_comm.Prelude.{
  ℕ, ◌+◌, String, Bool, false, not, ◌&&◌, ◌||◌, Option, none, some, List, [], ◌∷◌, ◌<>◌, same,
  minus, is_empty, ltb, leb, if◌then◌else◌,
}
use Prim.Native.String.{len, count}
use agent_comm.Json.{Json, Items, Fields, nil, cons, no_fields, field, str, obj, arr, lookup, keys}
use agent_comm.Identity.{is_urn, is_identifier}
use agent_comm.Runtime.{Runtime}
use agent_comm.Remote.State.{Outcome, ok, raised, Failure, value_error, raise_if, ◌>>=◌, ◌>>◌}

pub record Request : Type 0 where
  pub request_id : String
  pub method : String
  pub params : Fields
  pub agent_urn : String
  pub console_urn : String
  pub deadline : String
  -- The decoded JSON object, which the fingerprint is taken of.
  pub whole : Json

-- The loop over `pending`: some container lies below 32 others.
unfoldable mutual
  pub too_deep : ℕ → Json → Bool
  too_deep depth (arr xs) = leb 32 depth || too_deep_items (depth + 1) xs
  too_deep depth (obj fs) = leb 32 depth || too_deep_fields (depth + 1) fs
  too_deep depth _ = false

  pub too_deep_items : ℕ → Items → Bool
  too_deep_items depth nil = false
  too_deep_items depth (cons x xs) = too_deep depth x || too_deep_items depth xs

  pub too_deep_fields : ℕ → Fields → Bool
  too_deep_fields depth no_fields = false
  too_deep_fields depth (field k v fs) = too_deep depth v || too_deep_fields depth fs

-- `value` where it is a text, as `==` against a text and `isinstance(value, str)` see it.
abbrev pub text_of : Option Json → Option String
text_of (some (str s)) = some s
text_of _ = none

abbrev pub is_text : Option Json → String → Bool
is_text v s = elim (text_of v) [ none ↦ false | some t ↦ same t s ]

-- `d.get(k)` of a message
abbrev pub read : String → Fields → Option String
read k fs = text_of (lookup k fs)

abbrev pub is_read : String → Fields → String → Bool
is_read k fs s = is_text (lookup k fs) s

abbrev request_fields : List String
request_fields =
    "agent_urn" ∷ "console_urn" ∷ "deadline" ∷ "method" ∷ "params" ∷ "protocol" ∷ "request_id"
    ∷ "type" ∷ []

-- `set(d) == fields`
abbrev pub has_exactly : Fields → List String → Bool
has_exactly fs names = is_empty (minus (keys fs) names) && is_empty (minus names (keys fs))

abbrev pub required : Option String → Failure → Outcome String
required none e = raised e
required (some s) e = ok s

-- `identifier(value)`
unfoldable pub identifier : Option String → Outcome String
identifier none = raised (value_error "Invalid stable identifier")
identifier (some s) =
    if is_identifier s then ok s else raised (value_error "Invalid stable identifier")

abbrev urn_message : String
urn_message =
    "Provide an explicit network URN with a nonempty identity; a display name is not an identity"

-- `identity(value)`
unfoldable pub identity : Option String → Outcome String
identity none = raised (value_error urn_message)
identity (some s) = if is_urn s then ok s else raised (value_error urn_message)

object_of : Option Json → Failure → Outcome Fields
object_of (some (obj fs)) e = ok fs
object_of _ e = raised e

check_depth : Option Json → Outcome Json
check_depth none = raised (value_error "Invalid JSON")
check_depth (some v) =
    if too_deep 0 v
    then raised (value_error "Control request nesting exceeds 32 containers")
    else ok v

module _ (R : Runtime) where
  open R use {instant, loads}

  -- `instant(value)`
  unfoldable pub deadline_of : Option String → Outcome ℕ
  deadline_of none = raised (value_error "A timezone-aware RFC3339 deadline is required")
  deadline_of (some s) = elim (instant s) [
    | none ↦ raised (value_error "Deadline must include a timezone")
    | some t ↦ ok t
  ]

  -- `self._parse(message)`, where `local_urn` is the bridge's and `now` is `self.clock()`.
  unfoldable pub parse : String → ℕ → Json → Outcome Request
  unfolding too_deep object_of check_depth deadline_of identifier identity
  parse local_urn now message = do
    envelope ← object_of (some message) (value_error "Not a control request")
    raise_if (not (is_read "kind" envelope "control.request")) (value_error "Not a control request")
    text ← required (read "text" envelope) (value_error "Invalid control request size")
    raise_if (ltb 50000 (len text)) (value_error "Invalid control request size")
    whole ← check_depth (loads text)
    fs ← object_of (some whole) (value_error "Invalid control request fields")
    raise_if (not (has_exactly fs request_fields)) (value_error "Invalid control request fields")
    request_id ← identifier (read "request_id" fs)
    raise_if
        (not (is_read "protocol" fs "agent-comm-control/v1") || not (is_read "type" fs "request"))
        (value_error "Invalid control protocol")
    method ← required (read "method" fs) (value_error "Invalid control protocol")
    raise_if (ltb 80 (count method)) (value_error "Invalid control protocol")
    params ← object_of (lookup "params" fs) (value_error "Invalid control protocol")
    console_urn ← identity (read "console_urn" fs)
    raise_if (not (is_read "sender_urn" envelope console_urn))
        (value_error "Control request identity differs from authenticated helper routing")
    agent_urn ← identity (read "agent_urn" fs)
    raise_if (not (same agent_urn local_urn))
        (value_error "Control request identity differs from authenticated helper routing")
    raise_if
        (not (is_read "message_id" envelope request_id)
          || not (is_read "conversation_id" envelope ("control:" <> request_id)))
        (value_error "Control envelope correlation mismatch")
    deadline ←
        required (read "deadline" fs) (value_error "A timezone-aware RFC3339 deadline is required")
    raise_if (not (is_read "deadline" envelope deadline))
        (value_error "Control envelope correlation mismatch")
    expires ← deadline_of (some deadline)
    raise_if (ltb (now + 300000000) expires)
        (value_error "Control request lifetime exceeds 300 seconds")
    ok (record {
      request_id = request_id;
      method = method;
      params = params;
      agent_urn = agent_urn;
      console_urn = console_urn;
      deadline = deadline;
      whole = whole;
    })
