-- ===== src/Store/Reserve/Moves.antt =====
-- The reservation of `dispatch` (store.py) makes moves of the specification.
use agent_comm.Prelude.{
  ℕ, String, true, not, some, ◌≡◌, refl, ◌∙◌, ap, arith, inl, inr, ◌⊎◌, Option-cases, Bool-cases,
  subst, any, leb,
}
use agent_comm.Table.{get, put}
use agent_comm.Table.Sorted.{get-Each}
use agent_comm.Policy.Encode.{action_json}
use agent_comm.Policy.Evaluate.{Verdict}
use agent_comm.Remote.State.{ok}
use agent_comm.Remote.Handle.Answer.{Outcome-cases}
use agent_comm.Store.State.{
  Env, Contact, Task, TaskStatus, Operation, OperationStatus, Core, Mixins,
}
use agent_comm.Store.Records.{is_same_owner}
use agent_comm.Store.Tasks.{is_live, task_of}
use agent_comm.Store.Verdicts.{is_stop, evaluate_current, is_current_task}
use agent_comm.Store.Actions.{ask_operation}
use agent_comm.Store.Actions.Moves.{ask_operation_moves}
use agent_comm.Store.Reserve.{
  Reserved, needs_owner, spent, reservation, again_question, spend, reserve,
}
use agent_comm.Store.Spec.{SameContent, Moves, ends, still, moved, task_spent, operation_moved}
use agent_comm.Store.Spec.Sound.{IsSound, IsTask}

pub is_live-active : (now : ℕ) (t : Task) → is_live now t ≡ true → t.status ≡ TaskStatus.active
unfolding is_live
is_live-active now t h = ground arith

pub task_of_lem :
    (c : Core) (task_id owner : String) (t : Task)
    → task_of c task_id owner ≡ ok t
    → get c.tasks task_id ≡ some t
unfolding task_of
task_of_lem c task_id owner t h = ground arith

Ready-cases :
    (s : OperationStatus)
    → (s ≡ OperationStatus.ready)
      ⊎ ((s ≡ OperationStatus.awaiting_approval)
          ⊎ ((s ≡ OperationStatus.sending)
              ⊎ ((s ≡ OperationStatus.accepted) ⊎ (s ≡ OperationStatus.refused))))
Ready-cases OperationStatus.ready = inl refl
Ready-cases OperationStatus.awaiting_approval = inr (inl refl)
Ready-cases OperationStatus.sending = inr (inr (inl refl))
Ready-cases OperationStatus.accepted = inr (inr (inr (inl refl)))
Ready-cases OperationStatus.refused = inr (inr (inr (inr refl)))

content_of : (o p : Operation) → p ≡ record o { approval_id = p.approval_id } → SameContent o p
content_of o p e = ground arith

module _ (E : Env) (X : Mixins) where
  pub current_live :
      (now : ℕ) (o : Operation) (t : Task) (d : Core × X.State)
      → is_current_task E X now o t d ≡ true
      → is_live now t ≡ true
  unfolding is_current_task
  current_live now o t d h = ground arith

  spend_moves :
      (operation_id : String) (o : Operation) (t : Task) (owner : String) (now : ℕ)
      (d d' : Core × X.State) (x : Reserved)
      → IsSound (d.0)
      → get (d.0.operations) operation_id ≡ some o
      → get (d.0.tasks) o.task_id ≡ some t
      → t.status ≡ TaskStatus.active
      → spend E X operation_id o t owner now d ≡ ok (x, d')
      → Moves (d.0) (d'.0)
  unfolding spend
  spend_moves operation_id o t owner now d d' x s n m live h =
      let v : Verdict = evaluate_current E X t (action_json E.iso o.action) now (d.0) in
      elim (Bool-cases (leb t.scope.max_actions t.used_count)) [
        | inl e ↦ ends d d' (ground arith) (still (d.0))
        | inr room ↦ elim (Bool-cases (is_stop v.decision)) [
          | inl e ↦ ends d d' (ground arith) (still (d.0))
          | inr e ↦ elim (Bool-cases (needs_owner v o)) [
            | inr g ↦
                let i = get-Each IsTask (d.0.tasks) o.task_id t s.tasks m in
                let c : Core = record (d.0) { tasks = put t.task_id (spent E X t) (d.0.tasks) } in
                let k : record c {
                  operations = put operation_id (reservation E X now o) c.operations;
                }
                    ≡ d'.0 =
                  ground arith in
                subst (Moves (d.0)) k (
                  moved
                    (moved (still (d.0)) (
                      task_spent (d.0) t.task_id t (ap (get (d.0.tasks)) (i.0) ∙ m) live
                        (ground arith)))
                    (operation_moved c operation_id o (reservation E X now o) n
                      (refl, refl, refl, refl, refl, refl, refl, refl)))
            | inl g ↦
                elim (Outcome-cases (ask_operation E X (again_question E X o) owner o t now d)) [
                  | inr (f, i) ↦ ground arith
                  | inl ((o', d1), i) ↦
                      let (ms, j, l) =
                        ask_operation_moves E X (again_question E X o) owner o o' t now d d1 i in
                      let o2 : Operation = record o' {
                        status = OperationStatus.awaiting_approval;
                        verdict = v;
                      } in
                      let k : record (d1.0) { operations = put operation_id o2 (d1.0.operations) }
                          ≡ d'.0 =
                        ground arith in
                      subst (Moves (d.0)) k (
                        moved ms (
                          operation_moved (d1.0) operation_id o o2
                            (ap (λ u. get u operation_id) l ∙ n) (content_of o o' j)))
                ]
          ]
        ]
      ]

  pub reserve_moves :
      (operation_id owner : String) (now : ℕ) (d d' : Core × X.State) (x : Reserved)
      → IsSound (d.0)
      → reserve E X operation_id owner now d ≡ ok (x, d')
      → Moves (d.0) (d'.0)
  unfolding reserve
  reserve_moves operation_id owner now d d' x s h =
      elim (Option-cases (get (d.0.operations) operation_id)) [
        | inl n ↦ ground arith
        | inr (o, n) ↦ elim (Outcome-cases (task_of (d.0) o.task_id owner)) [
          | inr (f, i) ↦ ends d d' (ground arith) (still (d.0))
          | inl (t, i) ↦ elim (Bool-cases (is_current_task E X now o t d)) [
            | inr j ↦ ends d d' (ground arith) (still (d.0))
            | inl j ↦ elim (Ready-cases o.status) [
              | inr w ↦ ends d d' (ground arith) (still (d.0))
              | inl w ↦
                  elim (Bool-cases (
                    any (λ y. not (X.can_send_to (Contact.urn y) owner (d.0) (d.1)))
                      o.recipients)) [
                        | inl g ↦ ends d d' (ground arith) (still (d.0))
                        | inr g ↦ elim (Bool-cases (is_same_owner o.owner_session owner)) [
                          | inr own ↦ ground arith
                          | inl own ↦
                              spend_moves operation_id o t owner now d d' x s n
                                (task_of_lem (d.0) o.task_id owner t i)
                                (is_live-active now t (current_live now o t d j)) (ground arith)
                        ]
                      ]
            ]
          ]
        ]
      ]
