-- ===== src/Store/Actions.antt =====
-- `prepare_action` of store.py.
pub mod Moves
pub mod Ready
use agent_comm.Prelude.{
  ℕ, ◌+◌, min, String, Bool, true, false, not, ◌&&◌, none, some, List, [], ◌<>◌, same, leb, map,
  if◌then◌else◌,
}
use agent_comm.Json.{Json, null}
use agent_comm.Table.{get}
use agent_comm.Policy.Fault.{Check, fault}
use agent_comm.Policy.Action.{
  Action, Payload, Meeting, propose_meeting, accept_meeting, validate_action,
}
use agent_comm.Policy.Message.{compiled, compile_message}
use agent_comm.Policy.Evaluate.{Decision, allow, ask, deny, Verdict}
use agent_comm.Policy.Encode.{action_json}
use agent_comm.Policy.Render.{join, render_action}
use agent_comm.Remote.State.{Outcome, ok, raised, value_error, raise_if, ◌>>=◌, ◌>>◌}
use agent_comm.Store.State.{
  Env, Contact, Resource, Task, Operation, OperationStatus, operation_grant, Core, Mixins,
}
use agent_comm.Store.Records.{
  check_owner, check_identifier, is_same_owner, put_operation, put_proposal, audit,
}
use agent_comm.Store.Same.{same_action, same_payload}
use agent_comm.Store.Requests.{digest}
use agent_comm.Store.Prepare.{request_approval}
use agent_comm.Store.Tasks.{identity_line, is_live, task_of}
use agent_comm.Store.Wire.{
  Reply, judgement, stopped, shown, Early, answer, go_on, gathered, resources_json, wire_text_of,
  action_hash,
}
use agent_comm.Store.Verdicts.{
  task_not_active, peer_content_unavailable, unknown_or_stale_proposal,
  stale_or_conflicting_proposal, is_stop, evaluate_current, proposal_key, payload_digest,
  is_exactly_payload, operation_view,
}

-- `previous["payload"]["version"] >= payload["version"]`
is_old : Payload → Meeting → Bool
is_old (propose_meeting n) m = leb m.version n.version
is_old (accept_meeting n) m = leb m.version n.version
is_old _ m = false

module _ (E : Env) (X : Mixins) where
  open E use {runtime, quoted, iso}

  -- `content`, with the fields of the operation that are the same whatever the proposal.
  new_operation :
      String
      → Task
      → Action
      → List Contact
      → List Resource
      → String
      → Payload
      → String
      → Verdict
      → ℕ
      → String
      → Operation
  unfolding wire_text_of action_hash
  new_operation operation_id t a recipients rs text wire owner v now base =
      let wire_text = wire_text_of E a wire rs text in
      record {
        operation_id = operation_id;
        task_id = t.task_id;
        revision = t.revision;
        action = a;
        recipients = recipients;
        resources = rs;
        text = text;
        wire_text = wire_text;
        hash = action_hash E t a recipients rs text wire_text;
        owner_session = owner;
        verdict = v;
        status = elim v.decision [
          | allow ↦ OperationStatus.ready
          | _ ↦ OperationStatus.awaiting_approval
        ];
        created_at = now;
        deliveries = [];
        base_proposal_hash = base;
        approval_id = none;
        approved_once = false;
        reserved_at = none;
      }

  -- The checks of the proposal: the base hash, and the proposals with what is written there.
  propose :
      String
      → Meeting
      → Bool
      → Decision
      → String
      → Core × X.State
      → Early (String × (Core × X.State))
  unfolding proposal_key payload_digest is_old
  propose task_id m is_acceptance decision owner d =
      let key = proposal_key E X task_id m.proposal_id in
      let previous = get (d.0.proposals) key in
      let base = payload_digest E X previous in
      let fresh =
        if (elim decision [ allow ↦ true | _ ↦ false ])
        then put_proposal X key
            (record { task_id = task_id; payload = propose_meeting m; source_message_id = none }) d
        else d in
      if not (X.proposal_review_safe previous owner (d.0) (d.1))
      then answer (stopped deny peer_content_unavailable)
      else if is_acceptance
      then (if is_exactly_payload E X (accept_meeting m) previous
          then go_on (base, d)
          else answer (stopped deny unknown_or_stale_proposal))
      else elim previous [
        | none ↦ go_on (base, fresh)
        | some p ↦
            if not (same_payload p.payload (propose_meeting m)) && is_old p.payload m
            then answer (stopped deny stale_or_conflicting_proposal)
            else go_on (base, fresh)
      ]

  text_of_action : Action → Payload → List Resource → Outcome String
  unfolding compile_message resources_json
  text_of_action a wire rs =
      elim (compile_message runtime quoted iso
        (action_json iso (record { recipient_ids = a.recipient_ids; payload = wire }))
        (resources_json rs)) [
          | compiled text ↦ ok text
          | _ ↦ raised (value_error "The action cannot be compiled")
        ]

  base_of : Task → Action → Decision → String → Core × X.State → Early (String × (Core × X.State))
  unfolding propose digest
  base_of t a decision owner d = elim a.payload [
    | propose_meeting m ↦ propose t.task_id m false decision owner d
    | accept_meeting m ↦ propose t.task_id m true decision owner d
    | _ ↦ go_on (digest E null, d)
  ]

  operation_question : Action → List Contact → String → String
  unfolding render_action
  operation_question a recipients text =
      "这一步超出原委托，需要你决定。\n"
      <> (render_action quoted iso a
          <> ("\n\n接收者：\n"
              <> (join "\n" (map (λ x. identity_line (x.contact_id, x)) recipients)
                  <> ("\n\n实际对外发送的全文：\n" <> (text <> "\n\n可以仅允许这一次吗？不会扩大其他动作、资料接收者或未来事项的权限。")))))

  -- The approval of an operation that exceeds its task.
  unfoldable pub ask_operation :
      String
      → String
      → Operation
      → Task
      → ℕ
      → Core × X.State
      → Outcome (Operation × (Core × X.State))
  unfolding request_approval
  ask_operation question owner o t now d = do
    (approval, d') ←
        request_approval E X (operation_grant o.hash t.revision) o.operation_id owner question
          (min t.scope.expires_at (now + 900000000)) now d
    ok (record o { approval_id = some approval.approval_id }, d')

  -- From the test of the ID of a valid, permitted action on.
  store_operation :
      Operation
      → Task
      → List Contact
      → String
      → ℕ
      → Core × X.State
      → Outcome (Reply × (Core × X.State))
  unfolding ask_operation operation_question
  store_operation o t recipients owner now d = do
    (o', d') ← elim o.verdict.decision [
      | ask ↦ ask_operation (operation_question o.action recipients o.text) owner o t now d
      | _ ↦ ok (o, d)
    ]
    let d'' = audit X "operation_prepared" (put_operation X o.operation_id o' d')
    ok (shown (operation_view E X now o' d''), d'')

  create :
      String
      → Task
      → Action
      → Verdict
      → String
      → ℕ
      → Core × X.State
      → Outcome (Reply × (Core × X.State))
  unfolding gathered text_of_action new_operation base_of store_operation
  create operation_id t a v owner now d = elim (gathered (d.0) owner a) [
    | answer r ↦ ok (r, d)
    | go_on (recipients, wire, rs) ↦ do
      text ← text_of_action a wire rs
      let new = new_operation operation_id t a recipients rs text wire owner v now
      elim (get (d.0.operations) operation_id) [
        | some old ↦
            (if not (same old.hash (new "").hash && is_same_owner old.owner_session owner)
              then raised
                  (value_error "Operation ID cannot be reused for a different action or version")
              else ok (shown (operation_view E X now old d), d))
        | none ↦ elim (base_of t a v.decision owner d) [
          | answer r ↦ ok (r, d)
          | go_on (base, d') ↦ store_operation (new base) t recipients owner now d'
        ]
      ]
  ]

  -- An operation of this owner is there already.
  repeat :
      String → Operation → Json → Verdict → ℕ → Core × X.State → Outcome (Reply × (Core × X.State))
  unfolding same_action
  repeat task_id old action v now d = elim (validate_action action) [
    | fault e ↦ ok (judgement v, d)
    | Check.ok a ↦
        if not (same old.task_id task_id && same_action old.action a)
        then raised (value_error "Operation ID cannot be reused for a different action")
        else ok (shown (operation_view E X now old d), d)
  ]

  attempt :
      String
      → Task
      → Json
      → Verdict
      → String
      → ℕ
      → Core × X.State
      → Outcome (Reply × (Core × X.State))
  unfolding create
  attempt operation_id t action v owner now d =
      if is_stop v.decision
      then ok (judgement v, d)
      else if not (is_live now t)
      then ok (stopped deny task_not_active, d)
      else elim (validate_action action) [
        | fault e ↦ raised (value_error "Invalid action")
        | Check.ok a ↦ create operation_id t a v owner now d
      ]

  -- `prepare_action(task_id, operation_id, action, owner_session)`. The texts of the faults of
  -- `validate_action` and `compile_message` are left out.
  unfoldable pub prepare_action :
      String → String → Json → String → ℕ → Core × X.State → Outcome (Reply × (Core × X.State))
  unfolding check_owner check_identifier task_of evaluate_current repeat attempt
  prepare_action task_id operation_id action owner now d = do
    check_owner owner
    check_identifier operation_id "operation_id"
    raise_if (X.is_v2_operation operation_id (d.1))
        (value_error "Operation ID is already used by a v2 action")
    t ← task_of (d.0) task_id owner
    let v = evaluate_current E X t action now (d.0)
    elim (get (d.0.operations) operation_id) [
      | none ↦ attempt operation_id t action v owner now d
      | some old ↦
          (if is_same_owner old.owner_session owner
            then repeat task_id old action v now d
            else attempt operation_id t action v owner now d)
    ]
