-- ===== src/Store/Current.antt =====
-- `_approval_current`, `_apply_approval` and `_deny_approval` of store.py.
pub mod Moves
use agent_comm.Prelude.{
  ℕ, String, Bool, true, false, not, ◌&&◌, Option, none, some, same, ltb, ◌==◌,
}
use agent_comm.Table.{get}
use agent_comm.Policy.Action.{propose_meeting}
use agent_comm.Remote.State.{Outcome, ok, raised, value_error, ◌>>=◌}
use agent_comm.Store.State.{
  Env, Contact, Task, TaskStatus, Approval, task_grant, operation_grant, contact_binding, Operation,
  OperationStatus, Core, Mixins,
}
use agent_comm.Store.Records.{put_task, put_operation, put_proposal, put_contact}
use agent_comm.Store.Same.{same_contact}
use agent_comm.Store.Tasks.{is_live}
use agent_comm.Store.Verdicts.{proposal_key, proposal_current}

is_waiting : TaskStatus → Bool
is_waiting TaskStatus.waiting = true
is_waiting _ = false

is_awaiting : OperationStatus → Bool
is_awaiting OperationStatus.awaiting_approval = true
is_awaiting _ = false

is_free : Contact → Option Contact → Bool
is_free x none = true
is_free x (some old) = same_contact old x

is_task_current : ℕ → Option Task → ℕ → Bool
unfolding is_waiting
is_task_current revision none now = false
is_task_current revision (some t) now =
    is_waiting t.status && t.revision == revision && ltb now t.scope.expires_at

-- A `TypeError`: the row that the approval is for is gone.
abbrev pub missing_row {ℓ} : {A : Type ℓ} → Outcome A
missing_row = raised (value_error "'NoneType' object is not subscriptable")

module _ (E : Env) (X : Mixins) where
  is_operation_current : String → Option Operation → ℕ → Core × X.State → Bool
  unfolding is_awaiting is_live proposal_current
  is_operation_current hash none now d = false
  is_operation_current hash (some o) now d =
      is_awaiting o.status && elim (get (d.0.tasks) o.task_id) [
        | none ↦ false
        | some t ↦
            is_live now t
            && t.revision == o.revision
            && same o.hash hash
            && proposal_current E X o d
      ]

  -- `_approval_current(approval)`
  unfoldable pub approval_current : Approval → ℕ → Core × X.State → Bool
  unfolding is_free is_task_current is_operation_current
  approval_current a now d = not a.peer_blocked && elim a.subject [
    | contact_binding x ↦
        not (same a.subject_id "self") && is_free x (get (d.0.contacts) a.subject_id)
    | task_grant scope revision ↦ is_task_current revision (get (d.0.tasks) a.subject_id) now
    | operation_grant hash revision ↦
        is_operation_current hash (get (d.0.operations) a.subject_id) now d
    | _ ↦ X.is_current a now (d.0) (d.1)
  ]

  abbrev approve_proposal : Operation → Core × X.State → Core × X.State
  approve_proposal o d = elim o.action.payload [
    | propose_meeting m ↦
        put_proposal X (proposal_key E X o.task_id m.proposal_id)
          (record { task_id = o.task_id; payload = propose_meeting m; source_message_id = none }) d
    | _ ↦ d
  ]

  -- `_apply_approval(approval)`
  unfoldable pub apply_approval : Approval → ℕ → Core × X.State → Outcome (Core × X.State)
  unfolding proposal_key
  apply_approval a now d = elim a.subject [
    | contact_binding x ↦
        let (c, σ) = put_contact X a.subject_id x d in
        (do (_, σ') ← X.request_contact x now c σ; ok (c, σ'))
    | task_grant scope revision ↦ elim (get (d.0.tasks) a.subject_id) [
      | none ↦ missing_row
      | some t ↦ ok (put_task X t.task_id (record t { status = TaskStatus.active }) d)
    ]
    | operation_grant hash revision ↦ elim (get (d.0.operations) a.subject_id) [
      | none ↦ missing_row
      | some o ↦ ok (
          put_operation X o.operation_id
            (record o { status = OperationStatus.ready; approved_once = true })
            (approve_proposal o d))
    ]
    | _ ↦ do (contacts, σ) ← X.apply a now (d.0) (d.1); ok (record (d.0) { contacts = contacts }, σ)
  ]

  -- `_deny_approval(approval)`
  unfoldable pub deny_approval : Approval → Core × X.State → Outcome (Core × X.State)
  deny_approval a d = elim a.subject [
    | contact_binding x ↦ ok d
    | task_grant scope revision ↦ ok d
    | operation_grant hash revision ↦ elim (get (d.0.operations) a.subject_id) [
      | none ↦ missing_row
      | some o ↦
          ok (put_operation X o.operation_id (record o { status = OperationStatus.refused }) d)
    ]
    | _ ↦ ok (d.0, X.deny a (d.0) (d.1))
  ]
