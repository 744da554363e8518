-- ===== src/Store/Wire.antt =====
-- What an action of store.py sends: `recipients`, `wire_action`, `wire_text` and `action_hash` of
-- `prepare_action`.
use agent_comm.Prelude.{String, none, some, List, [], ◌∷◌, same, map, if◌then◌else◌}
use agent_comm.Json.{Json, Fields, str, obj, no_fields, field}
use agent_comm.Policy.Action.{
  Action, Payload, share_resource, propose_meeting, accept_meeting, capability,
}
use agent_comm.Policy.Evaluate.{Decision, clarify, Verdict}
use agent_comm.Policy.Encode.{list_json, nat_json, payload_json, action_json}
use agent_comm.Store.State.{Delivery, Env, Contact, Provenance, Resource, Task, Core}
use agent_comm.Store.Requests.{contact_json, digest}
use agent_comm.Store.Tasks.{own_contact, own_resource}
use agent_comm.Store.Verdicts.{
  Cause, unknown_resource, unconfirmed_recipient, unconfirmed_participant, OperationView,
}

-- What `prepare_action` and `dispatch` return: a verdict, a decision with its cause, or the view of the operation.
pub data Reply : Type 0 where
  judgement : Verdict → Reply
  stopped : Decision → Cause → Reply
  shown : OperationView → Reply
  -- A decision with its cause and `deliveries`.
  halted : Cause → List Delivery → Reply

-- An answer of a step on the way, or a value to go on with.
pub data Early (A : Type 0) : Type 0 where
  answer : Reply → Early A
  go_on : A → Early A

recipients_of : Core → String → List String → Early (List Contact)
unfolding own_contact
recipients_of c owner [] = go_on []
recipients_of c owner (k ∷ ks) = elim (own_contact c k owner) [
  | none ↦ answer (stopped clarify (unconfirmed_recipient k))
  | some x ↦ elim (recipients_of c owner ks) [ answer r ↦ answer r | go_on xs ↦ go_on (x ∷ xs) ]
]

push : String → Early (List String) → Early (List String)
push urn (answer r) = answer r
push urn (go_on urns) = go_on (urn ∷ urns)

-- The URNs of the participants, for the message.
participants_of : Core → String → List String → Early (List String)
unfolding own_contact push
participants_of c owner [] = go_on []
participants_of c owner (k ∷ ks) =
    let rest = participants_of c owner ks in
    if same k "self" then push "self" rest else elim (own_contact c k owner) [
      | none ↦ answer (stopped clarify (unconfirmed_participant k))
      | some x ↦ push x.urn rest
    ]

-- `wire_action`: the action with the URNs in place of the participants' IDs.
wire_payload_of : Core → String → Payload → Early Payload
unfolding participants_of
wire_payload_of c owner (propose_meeting m) = elim (participants_of c owner m.participant_ids) [
  | answer r ↦ answer r
  | go_on urns ↦ go_on (propose_meeting (record m { participant_ids = urns }))
]
wire_payload_of c owner (accept_meeting m) = elim (participants_of c owner m.participant_ids) [
  | answer r ↦ answer r
  | go_on urns ↦ go_on (accept_meeting (record m { participant_ids = urns }))
]
wire_payload_of c owner p = go_on p

resource_of : Core → String → Payload → Early (List Resource)
unfolding own_resource
resource_of c owner (share_resource id) = elim (own_resource c id owner) [
  | none ↦ answer (stopped clarify unknown_resource)
  | some r ↦ go_on (r ∷ [])
]
resource_of c owner _ = go_on []

-- The recipients, the payload to send, and the resources.
unfoldable pub gathered : Core → String → Action → Early (List Contact × Payload × List Resource)
unfolding recipients_of wire_payload_of resource_of
gathered c owner a = elim (recipients_of c owner a.recipient_ids) [
  | answer r ↦ answer r
  | go_on xs ↦ elim (wire_payload_of c owner a.payload) [
    | answer r ↦ answer r
    | go_on p ↦ elim (resource_of c owner a.payload) [
      | answer r ↦ answer r
      | go_on rs ↦ go_on (xs, p, rs)
    ]
  ]
]

provenance_json : Provenance → Json
provenance_json p = obj (
    field "reference" (str p.reference)
      (field "source" (str p.source) (field "version" (str p.version) no_fields)))

resource_json : Resource → Json
unfolding provenance_json
resource_json r = obj (
    field "resource_id" (str r.resource_id) (
      field "title" (str r.title) (
        field "text" (str r.text) (
          field "sha256" (str r.sha256) (
            field "owner_id" (str r.owner_id) (elim r.provenance [
              | none ↦ no_fields
              | some p ↦ field "provenance" (provenance_json p) no_fields
            ]))))))

resource_fields : List Resource → Fields
unfolding resource_json
resource_fields [] = no_fields
resource_fields (r ∷ rs) = field r.resource_id (resource_json r) (resource_fields rs)

unfoldable pub resources_json : List Resource → Json
unfolding resource_fields
resources_json rs = obj (resource_fields rs)

module _ (E : Env) where
  open E use {runtime, iso}

  wire_body : Payload → List Resource → Json
  wire_body p [] = payload_json iso p
  wire_body p (r ∷ _) = obj (field "title" (str r.title) (field "text" (str r.text) no_fields))

  unfoldable pub wire_text_of : Action → Payload → List Resource → String → String
  unfolding wire_body
  wire_text_of a wire rs text = runtime.canonical (
      obj (
        field "protocol" (str "agent-comm-collaboration/v1") (
          field "capability" (str (capability a.payload))
            (field "payload" (wire_body wire rs) (field "text" (str text) no_fields)))))

  -- `digest(content)`
  unfoldable pub action_hash :
      Task → Action → List Contact → List Resource → String → String → String
  unfolding resources_json contact_json digest
  action_hash t a recipients rs text wire_text = digest E (
      obj (
        field "task_id" (str t.task_id) (
          field "revision" (nat_json t.revision) (
            field "action" (action_json iso a) (
              field "recipients" (list_json (map contact_json recipients)) (
                field "resources" (resources_json rs)
                  (field "text" (str text) (field "wire_text" (str wire_text) no_fields))))))))
