-- ===== src/Store/Verdicts.antt =====
-- `_evaluate_current`, `_proposal_key`, `_proposal_current` and `_operation_view` of store.py.
use agent_comm.Prelude.{
  ℕ, String, Bool, true, false, not, ◌&&◌, Option, none, some, List, [], ◌∷◌, ◌++◌, same, ltb,
  length, any, mem, ◌==◌, if◌then◌else◌,
}
use agent_comm.Json.{Json, pos, null, str}
use agent_comm.Table.{get, rows}
use agent_comm.Policy.Fault.{Check, fault}
use agent_comm.Policy.Time.{Interval}
use agent_comm.Policy.Action.{
  Action, Payload, share_slots, propose_meeting, accept_meeting, validate_action,
}
use agent_comm.Policy.Evaluate.{
  Decision, allow, ask, clarify, deny, Reason, cumulative_candidate_limit, candidate_total, Verdict,
  evaluate, at,
}
use agent_comm.Policy.Encode.{list_json, scope_json, payload_json}
use agent_comm.Store.State.{Env, Task, Operation, OperationStatus, Delivery, Proposal, Core, Mixins}
use agent_comm.Store.Same.{same_interval, same_payload}
use agent_comm.Store.Requests.{digest}
use agent_comm.Store.Tasks.{is_live}

-- The texts in `reasons`: those of a verdict, and those that store.py adds.
pub data Cause : Type 0 where
  judged : Reason → Cause
  task_not_active unknown_resource peer_content_unavailable : Cause
  unconfirmed_recipient unconfirmed_participant : String → Cause
  unknown_or_stale_proposal stale_or_conflicting_proposal : Cause
  revoked_expired_or_superseded owner_denied operation_not_authorized : Cause
  contact_not_connected action_limit_reached : Cause

pub record OperationView : Type 0 where
  pub operation_id : String
  pub task_id : String
  pub status : OperationStatus
  -- `none` for `{}`
  pub action : Option Action
  pub text : String
  pub deliveries : List Delivery
  pub decision : Decision
  pub reasons : List Cause
  pub approval_id : Option String

-- Where the verdict stops what was asked for.
abbrev pub is_stop : Decision → Bool
is_stop allow = false
is_stop ask = false
is_stop clarify = true
is_stop deny = true

abbrev pub is_in : Interval → List Interval → Bool
is_in i is = any (same_interval i) is

-- The set of the intervals of a list.
unfoldable pub distinct : List Interval → List Interval
unfolding same_interval
distinct [] = []
distinct (i ∷ is) = let rest = distinct is in if is_in i rest then rest else i ∷ rest

-- Whether the slots of the operation may have reached the recipient.
may_have_sent : OperationStatus → Bool
may_have_sent OperationStatus.sending = true
may_have_sent OperationStatus.accepted = true
may_have_sent _ = false

slots_of : Payload → List Interval
slots_of (share_slots is) = is
slots_of _ = []

-- `exposed`
unfoldable pub exposed : String → String → List Operation → List Interval
unfolding may_have_sent slots_of
exposed task_id recipient [] = []
exposed task_id recipient (o ∷ os) =
    (if same o.task_id task_id && may_have_sent o.status && mem recipient o.action.recipient_ids
      then slots_of o.action.payload
      else [])
    ++ exposed task_id recipient os

is_cumulative : Reason → Bool
is_cumulative cumulative_candidate_limit = true
is_cumulative _ = false

add_reason : List Reason → List Reason
unfolding is_cumulative
add_reason rs = if any is_cumulative rs then rs else rs ++ cumulative_candidate_limit ∷ []

-- The loop over the recipients, with the slots that are asked for.
unfoldable pub accumulate : Task → List Operation → List Interval → List String → Verdict → Verdict
unfolding distinct exposed add_reason
accumulate task os requested [] v = v
accumulate task os requested (r ∷ rs) v =
    let known = exposed task.task_id r os in
    let total = length (distinct (known ++ requested)) in
    accumulate task os requested rs (
      if any (λ i. not (is_in i known)) requested && ltb task.scope.max_candidates total
      then record {
        decision = ask;
        reasons = add_reason v.reasons;
        delta = v.delta ++ candidate_total r task.scope.max_candidates total ∷ [];
      }
      else v)

-- The capability is "share_slots", or not.
widened : Task → List Operation → Verdict → Check Action → Verdict
unfolding accumulate
widened task os v (fault e) = v
widened task os v (Check.ok a) = elim a.payload [
  | share_slots is ↦ accumulate task os is a.recipient_ids v
  | _ ↦ v
]

module _ (E : Env) (X : Mixins) where
  open E use {iso}

  -- `_evaluate_current(task, action)`
  unfoldable pub evaluate_current : Task → Json → ℕ → Core → Verdict
  unfolding widened scope_json
  evaluate_current task action now c =
      let v = evaluate (scope_json iso task.scope) action (pos task.used_count) (at now) now in
      if is_stop v.decision then v else widened task (rows c.operations) v (validate_action action)

  -- `_proposal_key(task_id, proposal_id)`
  unfoldable pub proposal_key : String → String → String
  unfolding digest
  proposal_key task_id proposal_id = digest E (list_json (str task_id ∷ str proposal_id ∷ []))

  -- `digest(proposal["payload"] if proposal else None)`
  unfoldable pub payload_digest : Option Proposal → String
  unfolding digest
  payload_digest none = digest E null
  payload_digest (some p) = digest E (payload_json iso p.payload)

  -- The proposal that the payload names, where it names one.
  abbrev pub proposal_for : String → Payload → Core → Option (Option Proposal)
  proposal_for task_id (propose_meeting m) c =
      some (get c.proposals (proposal_key task_id m.proposal_id))
  proposal_for task_id (accept_meeting m) c =
      some (get c.proposals (proposal_key task_id m.proposal_id))
  proposal_for task_id _ c = none

  abbrev pub is_exactly_payload : Payload → Option Proposal → Bool
  is_exactly_payload payload none = false
  is_exactly_payload payload (some p) = same_payload p.payload payload

  is_awaited_proposal : Payload → OperationStatus → Bool
  is_awaited_proposal (propose_meeting _) OperationStatus.awaiting_approval = true
  is_awaited_proposal _ _ = false

  -- `_proposal_current(operation)`
  unfoldable pub proposal_current : Operation → Core × X.State → Bool
  unfolding is_awaited_proposal payload_digest
  proposal_current o (c, σ) = elim (proposal_for o.task_id o.action.payload c) [
    | none ↦ true
    | some current ↦
        X.proposal_review_safe current o.owner_session c σ
        && (if is_awaited_proposal o.action.payload o.status
            then same (payload_digest current) o.base_proposal_hash
            else is_exactly_payload o.action.payload current)
  ]

  -- The task of the operation is live, in the revision of the operation, and its proposal is current.
  unfoldable pub is_current_task : ℕ → Operation → Task → Core × X.State → Bool
  unfolding proposal_current is_live
  is_current_task now o t d = is_live now t && t.revision == o.revision && proposal_current o d

  is_current_operation : ℕ → Operation → Core × X.State → Bool
  unfolding is_current_task
  is_current_operation now o d = elim (get (d.0.tasks) o.task_id) [
    | none ↦ false
    | some t ↦ is_current_task now o t d
  ]

  abbrev first_decision : Operation → Decision
  first_decision o = elim o.status [
    | OperationStatus.awaiting_approval ↦ o.verdict.decision
    | OperationStatus.refused ↦ o.verdict.decision
    | _ ↦ allow
  ]

  causes : List Reason → List Cause
  causes [] = []
  causes (r ∷ rs) = judged r ∷ causes rs

  abbrev plain_view : Operation → Decision → List Cause → OperationView
  plain_view o decision reasons = record {
    operation_id = o.operation_id;
    task_id = o.task_id;
    status = o.status;
    action = some o.action;
    text = o.text;
    deliveries = o.deliveries;
    decision = decision;
    reasons = reasons;
    approval_id = o.approval_id;
  }

  -- The view before the test of the proposal's content.
  judged_view : Operation → Bool → OperationView
  unfolding causes
  judged_view o current = elim o.status [
    | OperationStatus.accepted ↦ plain_view o (first_decision o) (causes o.verdict.reasons)
    | OperationStatus.refused ↦
        if current
        then plain_view o deny (owner_denied ∷ [])
        else plain_view o deny (revoked_expired_or_superseded ∷ [])
    | _ ↦
        if current
        then plain_view o (first_decision o) (causes o.verdict.reasons)
        else plain_view o deny (revoked_expired_or_superseded ∷ [])
  ]

  withheld : OperationView → OperationView
  withheld v = record v {
    action = none;
    text = "";
    decision = deny;
    reasons = peer_content_unavailable ∷ [];
  }

  -- `_operation_view(operation)`
  unfoldable pub operation_view : ℕ → Operation → Core × X.State → OperationView
  unfolding is_current_operation judged_view withheld
  operation_view now o d =
      let v = judged_view o (is_current_operation now o d) in
      elim (proposal_for o.task_id o.action.payload (d.0)) [
        | none ↦ v
        | some p ↦ if X.proposal_review_safe p o.owner_session (d.0) (d.1) then v else withheld v
      ]
