-- ===== src/Policy/Message/Tests.antt =====
-- A message with a registered resource (`compile_message` of policy.py).
use agent_comm.Prelude.{String, none, [], ◌∷◌, ◌≡◌, refl, sort_set}
use agent_comm.Json.{Json, Fields, str, arr, obj, nil, cons, no_fields, field}
use agent_comm.Runtime.{Runtime}
use agent_comm.Policy.Fields.{identifier, object, ids}
use agent_comm.Policy.Action.{Action, share_resource, validate_action}
use agent_comm.Policy.Message.{compiled, compile_message}
use agent_comm.Policy.Message.Snapshot.{IsRegistered, IsSnapshot, compile_shared}

abbrev digest : String
digest = "0123456789abcdef0123456789abcdef0123456789abcdef0123456789abcdef"

-- The hash of every text is this digest.
abbrev hashing : Runtime
hashing = record {
  instant = λ s. none;
  loads = λ s. none;
  canonical = λ j. "";
  sha256 = λ s. digest;
  take = λ n s. s;
}

abbrev resource : Fields
resource = field "resource_id" (str "doc") (
    field "title" (str "Notes")
      (field "text" (str "hello") (field "sha256" (str digest) no_fields)))

abbrev resources : Json
resources = obj (field "doc" (obj resource) no_fields)

abbrev sharing : Json
sharing = obj (
    field "capability" (str "share_resource") (
      field "recipient_ids" (arr (cons (str "bob") nil))
        (field "payload" (obj (field "resource_id" (str "doc") no_fields)) no_fields)))

abbrev shared : Action
shared = record { recipient_ids = "bob" ∷ []; payload = share_resource "doc" }

compile_runs :
    compile_message hashing (λ j. "") (λ n. "") sharing resources ≡ compiled "Notes\n\nhello"
unfolding compile_message validate_action identifier object sort_set ids
compile_runs = refl

compile_shared_example :
    (r : Fields) × (IsRegistered hashing (λ j. "") (λ n. "") "doc" resources r
      × IsSnapshot hashing (λ j. "") (λ n. "") r "Notes\n\nhello")
unfolding compile_message validate_action identifier object sort_set ids
compile_shared_example =
    compile_shared hashing (λ j. "") (λ n. "") sharing resources shared "doc" "Notes\n\nhello" refl
      refl refl
