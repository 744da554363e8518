-- ===== src/Store/Tests/Sending.antt =====
-- The theorems about `dispatch` and `prepare_action` at a small store.
use agent_comm.Prelude.{
  ℕ, ◌≤◌, Bool, String, false, true, Option, none, some, [], ◌∷◌, ◌≡◌, refl, length, sort_set,
}
use agent_comm.Json.{Json, bool, str, arr, obj, nil, cons, no_fields, field}
use agent_comm.Identity.{is_identifier}
use agent_comm.Table.{get, put, rows}
use agent_comm.Policy.Fields.{object, ids, integer}
use agent_comm.Policy.Time.{time, interval_of}
use agent_comm.Policy.Scope.{validate_scope}
use agent_comm.Policy.Action.{Action, validate_action}
use agent_comm.Policy.Fault.{Check}
use agent_comm.Policy.Encode.{action_json}
use agent_comm.Policy.Evaluate.{allow, excess, evaluate}
use agent_comm.Remote.State.{Outcome, ok, raised}
use agent_comm.Store.State.{
  TaskStatus, ApprovalStatus, Task, Operation, OperationStatus, Delivery, DeliveryStatus, Core,
}
use agent_comm.Store.Records.{principal}
use agent_comm.Store.Tasks.{is_live, task_of}
use agent_comm.Store.Verdicts.{task_not_active, evaluate_current, is_current_task}
use agent_comm.Store.Wire.{Reply, stopped}
use agent_comm.Store.Actions.{prepare_action}
use agent_comm.Store.Actions.Ready.{IsWorkOf, ready_within_mandate}
use agent_comm.Store.Dispatch.{
  Transport, Message, attempted, Run, find, is_delivered, deliver, dispatch,
}
use agent_comm.Store.Dispatch.Limits.{attempted_lem, dispatch_bounds}
use agent_comm.Store.Fixture.{env, mixins, store, at, owner, morning, ready_operation, core_with}

-- A helper that accepts every message.
abbrev accepting : Transport
accepting m =
    some (obj (field "success" (bool true) (field "message_id" (str m.message_id) no_fields)))

abbrev no_v2 : String → String → Transport → Core × mixins.State → Run env mixins
no_v2 id owner' transport d = (raised (record { code = ""; message = "" }), [], d)

abbrev world : Core × mixins.State
world = (core_with TaskStatus.active ApprovalStatus.pending, tt)

dispatch_bounds_example :
    length ((dispatch env mixins no_v2 "op1" owner accepting (λ n. morning) morning world).1) ≤ 4
dispatch_bounds_example =
    dispatch_bounds env mixins no_v2 "op1" owner accepting (λ n. morning) morning world refl

abbrev delivery : DeliveryStatus → Option ℕ → Delivery
delivery s at = record {
  recipient_id = "bob";
  recipient_urn = "urn:hermes:agent:bob";
  message_id = "m1";
  status = s;
  accepted_at = at;
}

abbrev sending : Operation
sending = record ready_operation {
  status = OperationStatus.sending;
  deliveries = delivery DeliveryStatus.unsent none ∷ [];
}

abbrev before : Core
before = record (core_with TaskStatus.active ApprovalStatus.pending) {
  operations = ("op1", sending) ∷ [];
}

abbrev after : Core
after = record before {
  operations =
      (
        "op1",
        record sending {
          status = OperationStatus.accepted;
          deliveries = delivery DeliveryStatus.delivered (some morning) ∷ [];
        },
      )
      ∷ [];
}

abbrev hello : Message
hello = record {
  message_id = "m1";
  recipient_urn = "urn:hermes:agent:bob";
  text = "wire";
  task_id = "t1";
  conversation_id = "collaboration:t1";
  kind = "collaboration.send_text";
  deadline = 63908006400000000;
}

delivers :
    deliver env mixins "op1" "m1" owner accepting morning (before, tt)
    ≡ ok (attempted hello, (after, tt))
unfolding deliver get principal put
delivers = refl

attempted_lem_example :
    (o : Operation) × (t : Task) × (y : Delivery) × (get before.operations "op1" ≡ some o)
    × (get before.tasks o.task_id ≡ some t)
    × (is_current_task env mixins morning o t (before, tt) ≡ true)
    × (find "m1" o.deliveries ≡ some y)
    × (is_delivered y ≡ false)
    × ◌≡◌ {A = Bool} true true
    × (hello.text ≡ o.wire_text)
    × (hello.recipient_urn ≡ y.recipient_urn)
    × (hello.message_id ≡ y.message_id)
attempted_lem_example =
    attempted_lem env mixins "op1" "m1" owner accepting morning (before, tt) (after, tt) hello
      delivers

abbrev no_v2_store : String → String → Transport → Core × store.State → Run env store
no_v2_store id owner' transport d = (raised (record { code = ""; message = "" }), [], d)

abbrev share : Json
share = obj (
    field "capability" (str "share_slots") (
      field "recipient_ids" (arr (cons (str "bob") nil)) (
        field "payload"
          (obj (
            field "slots"
              (arr (
                cons
                  (obj (
                    field "start" (str "2026-03-01T08:00:00Z")
                      (field "end" (str "2026-03-01T09:00:00Z") no_fields)))
                  nil))
              no_fields))
          no_fields)))

abbrev shared : Outcome (Reply × (Core × mixins.State))
shared = prepare_action env mixins "t1" "op2" share owner morning world

db_of : Outcome (Reply × (Core × mixins.State)) → Core × mixins.State
db_of (ok (r, d)) = d
db_of (raised e) = world

reply_of : Outcome (Reply × (Core × mixins.State)) → Reply
reply_of (ok (r, d)) = r
reply_of (raised e) = stopped allow task_not_active

row_of : Option Operation → Operation
row_of (some o) = o
row_of none = ready_operation

shares : shared ≡ ok (reply_of shared, db_of shared)
unfolding prepare_action reply_of db_of get put is_identifier evaluate validate_scope object
    sort_set ids time integer validate_action interval_of excess rows is_live action_json
shares = refl

ready_within_mandate_example :
    (t : Task) × (task_of (world.0) "t1" owner ≡ ok t)
    × ((evaluate_current env mixins t share morning (world.0)).decision ≡ allow)
    × (is_live morning t ≡ true)
    × (a : Action) × (validate_action share ≡ Check.ok a)
    × IsWorkOf t a owner (row_of (get ((db_of shared).0.operations) "op2"))
unfolding prepare_action db_of row_of get put is_identifier evaluate validate_scope object sort_set
    ids time integer validate_action interval_of excess rows is_live action_json
ready_within_mandate_example =
    ready_within_mandate env mixins "t1" "op2" share owner morning world (db_of shared)
      (reply_of shared) (row_of (get ((db_of shared).0.operations) "op2")) shares refl refl refl
