-- ===== src/Store/Reserve.antt =====
-- The first transaction of `dispatch` (store.py): it reserves the operation before anything is sent.
pub mod Moves
use agent_comm.Prelude.{
  ℕ, suc, String, Bool, true, false, not, ◌&&◌, none, some, [], ◌∷◌, ◌<>◌, any, map, leb,
  if◌then◌else◌,
}
use agent_comm.Json.{str}
use agent_comm.Table.{get}
use agent_comm.Policy.Evaluate.{Verdict, ask, deny}
use agent_comm.Policy.Encode.{list_json, action_json}
use agent_comm.Policy.Render.{render_action}
use agent_comm.Remote.State.{Outcome, ok, raised, value_error, ◌>>=◌}
use agent_comm.Store.State.{
  Env, Contact, Task, Operation, OperationStatus, Delivery, DeliveryStatus, Core, Mixins,
}
use agent_comm.Store.Records.{is_same_owner, put_task, put_operation}
use agent_comm.Store.Requests.{digest}
use agent_comm.Store.Tasks.{task_of}
use agent_comm.Store.Verdicts.{
  revoked_expired_or_superseded, operation_not_authorized, contact_not_connected,
  action_limit_reached, is_stop, evaluate_current, is_current_task, operation_view,
}
use agent_comm.Store.Wire.{Reply, judgement, stopped, shown}
use agent_comm.Store.Actions.{ask_operation}

-- What the first transaction leads to: an answer, or an operation to send.
pub data Reserved : Type 0 where
  finished : Reply → Reserved
  reserved : Operation → Reserved

abbrev pub is_sendable : OperationStatus → Bool
is_sendable OperationStatus.ready = true
is_sendable OperationStatus.sending = true
is_sendable _ = false

-- The verdict asks, and the owner has not approved the operation.
abbrev pub needs_owner : Verdict → Operation → Bool
needs_owner v o = (elim v.decision [ ask ↦ true | _ ↦ false ]) && not o.approved_once

module _ (E : Env) (X : Mixins) where
  open E use {runtime, quoted, iso}

  unfoldable pub message_id_of : String → String → String → String
  unfolding digest
  message_id_of operation_id hash urn =
      "collab-"
      <> runtime.take 48 (digest E (list_json (str operation_id ∷ str hash ∷ str urn ∷ [])))

  new_delivery : Operation → Contact → Delivery
  unfolding message_id_of
  new_delivery o x = record {
    recipient_id = x.contact_id;
    recipient_urn = x.urn;
    message_id = message_id_of o.operation_id o.hash x.urn;
    status = DeliveryStatus.unsent;
    accepted_at = none;
  }

  abbrev spent : Task → Task
  spent t = record t { used_count = suc t.used_count }

  abbrev reservation : ℕ → Operation → Operation
  reservation now o = record o {
    status = OperationStatus.sending;
    reserved_at = some now;
    deliveries = map (new_delivery o) o.recipients;
  }

  again_question : Operation → String
  unfolding render_action
  again_question o =
      "执行前检查发现这一步新增了原范围外的披露。\n"
      <> (render_action quoted iso o.action
          <> ("\n\n实际对外全文：\n" <> (o.text <> "\n\n可以仅允许这一次吗？其他范围不变。")))

  -- An operation that is ready.
  spend :
      String
      → Operation
      → Task
      → String
      → ℕ
      → Core × X.State
      → Outcome (Reserved × (Core × X.State))
  unfolding evaluate_current action_json ask_operation again_question new_delivery
  spend operation_id o t owner now d =
      let v = evaluate_current E X t (action_json iso o.action) now (d.0) in
      if leb t.scope.max_actions t.used_count
      then ok (finished (stopped deny action_limit_reached), d)
      else if is_stop v.decision
      then ok (finished (judgement v), d)
      else if needs_owner v o
      then (do
        (o', d') ← ask_operation E X (again_question o) owner o t now d
        let o'' = record o' { status = OperationStatus.awaiting_approval; verdict = v }
        let d'' = put_operation X operation_id o'' d'
        ok (finished (shown (operation_view E X now o'' d'')), d''))
      else ok (
        reserved (reservation now o),
        put_operation X operation_id (reservation now o) (put_task X t.task_id (spent t) d),
      )

  -- The first transaction of `dispatch`.
  unfoldable pub reserve :
      String → String → ℕ → Core × X.State → Outcome (Reserved × (Core × X.State))
  unfolding task_of is_current_task spend
  reserve operation_id owner now d = elim (get (d.0.operations) operation_id) [
    | none ↦ raised (value_error "Operation is not available to this owner session")
    | some o ↦
        (if not (is_same_owner o.owner_session owner)
          then raised (value_error "Operation is not available to this owner session")
          else elim o.status [
            | OperationStatus.accepted ↦ ok (finished (shown (operation_view E X now o d)), d)
            | _ ↦ do
              t ← task_of (d.0) o.task_id owner
              if not (is_current_task E X now o t d)
                  then ok (finished (stopped deny revoked_expired_or_superseded), d)
                  else if not (is_sendable o.status)
                  then ok (finished (stopped deny operation_not_authorized), d)
                  else if any (λ x. not (X.can_send_to (Contact.urn x) owner (d.0) (d.1)))
                      o.recipients
                  then ok (finished (stopped deny contact_not_connected), d)
                  else elim o.status [
                    | OperationStatus.ready ↦ spend operation_id o t owner now d
                    | _ ↦ ok (reserved o, d)
                  ]
          ])
  ]
