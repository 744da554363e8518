-- ===== src/Store/Dispatch.antt =====
-- `dispatch` of store.py: the reservation, and then a transaction for each delivery of a batch.
pub mod Moves
pub mod Limits
use agent_comm.Prelude.{
  ◌++◌, ℕ, suc, String, Bool, true, false, not, ◌&&◌, Option, none, some, List, [], ◌∷◌, ◌<>◌, same,
  all, filter, take, if◌then◌else◌,
}
use agent_comm.Json.{Json, bool, obj, lookup}
use agent_comm.Table.{get}
use agent_comm.Policy.Action.{capability}
use agent_comm.Policy.Message.{is_exactly}
use agent_comm.Remote.State.{Outcome, ok, raised, value_error, ◌>>=◌}
use agent_comm.Store.State.{
  Env, Task, Operation, OperationStatus, Delivery, DeliveryStatus, Core, Mixins,
}
use agent_comm.Store.Records.{put_operation, audit}
use agent_comm.Store.Tasks.{task_of}
use agent_comm.Store.Current.{missing_row}
use agent_comm.Store.Verdicts.{
  Cause, revoked_expired_or_superseded, contact_not_connected, is_current_task, operation_view,
}
use agent_comm.Store.Wire.{Reply, shown, halted}
use agent_comm.Store.Reserve.{finished, reserved, reserve}

-- `body` of `dispatch`; `hop_limit` is always 8.
pub record Message : Type 0 where
  pub message_id : String
  pub recipient_urn : String
  pub text : String
  pub task_id : String
  pub conversation_id : String
  pub kind : String
  pub deadline : ℕ

-- What `transport.store(body)` returns; `none` where it raises.
abbrev pub Transport : Type 0
Transport = Message → Option Json

-- What one delivery leads to.
pub data Sent : Type 0 where
  skipped : Sent
  blocked : Cause → List Delivery → Sent
  attempted : Message → Sent

abbrev pub is_delivered : Delivery → Bool
is_delivered d = elim d.status [ DeliveryStatus.delivered ↦ true | _ ↦ false ]

pub find : String → List Delivery → Option Delivery
find id [] = none
find id (d ∷ ds) = if same d.message_id id then some d else find id ds

-- `delivery.update(...)` on the delivery that `find` gives.
update : String → DeliveryStatus → Option ℕ → List Delivery → List Delivery
update id s at [] = []
update id s at (d ∷ ds) =
    let rest = update id s at ds in
    if same d.message_id id then record d { status = s; accepted_at = at } ∷ ds else d ∷ rest

-- The test of the answer of the helper.
unfoldable pub acknowledges : Option Json → String → Bool
unfolding is_exactly
acknowledges (some (obj fs)) id =
    (elim (lookup "success" fs) [ some (bool b) ↦ b | _ ↦ false ])
    && is_exactly (lookup "message_id" fs) id
acknowledges _ id = false

abbrev pub undelivered : List Delivery → List Delivery
undelivered ds = filter (λ d. not (is_delivered d)) ds

-- `pending_batch`
abbrev pub batch : List Delivery → List Delivery
batch ds = take 4 (undelivered ds)

abbrev closing : List Delivery → OperationStatus
closing ds = if all is_delivered ds then OperationStatus.accepted else OperationStatus.sending

module _ (E : Env) (X : Mixins) where
  message : Operation → Task → Delivery → Message
  message o t x = record {
    message_id = x.message_id;
    recipient_urn = x.recipient_urn;
    text = o.wire_text;
    task_id = o.task_id;
    conversation_id = "collaboration:" <> o.task_id;
    kind = "collaboration." <> capability o.action.payload;
    deadline = t.scope.expires_at;
  }

  -- The delivery with the answer of the helper written into it.
  mark : Bool → String → ℕ → Operation → Operation
  unfolding update
  mark acknowledged id now o =
      let ds =
        if acknowledged
        then update id DeliveryStatus.delivered (some now) o.deliveries
        else update id DeliveryStatus.uncertain none o.deliveries in
      record o { deliveries = ds; status = closing ds }

  submit :
      String
      → Operation
      → Task
      → Delivery
      → Transport
      → ℕ
      → Core × X.State
      → Sent × (Core × X.State)
  unfolding acknowledges message mark
  submit operation_id o t x transport now d =
      let m = message o t x in
      let acknowledged = acknowledges (transport m) x.message_id in
      (
        attempted m,
        put_operation X operation_id (mark acknowledged x.message_id now o)
            (if acknowledged then audit X "helper_accepted" d else d),
      )

  -- The transaction of one delivery.
  unfoldable pub deliver :
      String → String → String → Transport → ℕ → Core × X.State → Outcome (Sent × (Core × X.State))
  unfolding task_of find is_current_task submit
  deliver operation_id message_id owner transport now d = elim (get (d.0.operations) operation_id) [
    | none ↦ missing_row
    | some o ↦ do
      t ← task_of (d.0) o.task_id owner
      elim (find message_id o.deliveries) [
        | none ↦ raised (value_error "StopIteration")
        | some x ↦
            if is_delivered x
            then ok (skipped, d)
            else if not (is_current_task E X now o t d)
            then ok (blocked revoked_expired_or_superseded o.deliveries, d)
            else if not (X.can_send_to x.recipient_urn owner (d.0) (d.1))
            then ok (blocked contact_not_connected o.deliveries, d)
            else ok (submit operation_id o t x transport now d)
      ]
  ]

  -- The loop over the batch; `now` gives the instant of the transaction for each delivery. It stops at
  -- a delivery that is blocked, and where a transaction raises, what the earlier ones wrote stays.
  unfoldable pub send_all :
      String
      → String
      → Transport
      → (ℕ → ℕ)
      → List Delivery
      → List Message
      → Core × X.State
      → Outcome (Option Reply) × List Message × (Core × X.State)
  unfolding deliver
  send_all operation_id owner transport now [] sent d = (ok none, sent, d)
  send_all operation_id owner transport now (x ∷ xs) sent d =
      elim (deliver operation_id x.message_id owner transport (now 0) d) [
        | raised e ↦ (raised e, sent, d)
        | ok (blocked cause ds, d') ↦ (ok (some (halted cause ds)), sent, d')
        | ok (skipped, d') ↦ send_all operation_id owner transport (λ n. now (suc n)) xs sent d'
        | ok (attempted m, d') ↦
            send_all operation_id owner transport (λ n. now (suc n)) xs (sent ++ m ∷ []) d'
      ]

  -- What `dispatch` returns, the messages that it hands to the transport, and the database after it.
  abbrev pub Run : Type 0
  Run = Outcome Reply × List Message × (Core × X.State)

  last_view : String → ℕ → Outcome (Option Reply) × List Message × (Core × X.State) → Run
  last_view operation_id now (raised e, sent, d) = (raised e, sent, d)
  last_view operation_id now (ok (some r), sent, d) = (ok r, sent, d)
  last_view operation_id now (ok none, sent, d) = elim (get (d.0.operations) operation_id) [
    | none ↦ (missing_row, sent, d)
    | some o ↦ (ok (shown (operation_view E X now o d)), sent, d)
  ]

  -- `dispatch_collaboration` is given; `now n` is the instant of the n-th transaction, the last one's
  -- is `last`.
  module _ (dispatch_v2 : String → String → Transport → Core × X.State → Run) where
    -- `dispatch(operation_id, owner_session, transport)`
    unfoldable pub dispatch : String → String → Transport → (ℕ → ℕ) → ℕ → Core × X.State → Run
    unfolding reserve send_all last_view
    dispatch operation_id owner transport now last d =
        if X.is_v2_operation operation_id (d.1)
        then dispatch_v2 operation_id owner transport d
        else elim (reserve E X operation_id owner (now 0) d) [
          | raised e ↦ (raised e, [], d)
          | ok (finished r, d') ↦ (ok r, [], d')
          | ok (reserved o, d') ↦
              last_view operation_id last (
                send_all operation_id owner transport (λ n. now (suc n)) (batch o.deliveries) [] d')
        ]
