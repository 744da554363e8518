-- ===== src/Store/Tasks/Moves.antt =====
-- `prepare_task` and `revoke` (store.py) make moves of the specification.
use agent_comm.Prelude.{
  ℕ, ◌+◌, min, String, List, ◌≡◌, refl, arith, inl, inr, ◌⊎◌, Option-cases, subst,
}
use agent_comm.Json.{Json}
use agent_comm.Table.{get, put}
use agent_comm.Policy.Scope.{Scope, validate_scope}
use agent_comm.Remote.State.{ok}
use agent_comm.Remote.Handle.Answer.{Outcome-cases}
use agent_comm.Store.State.{Env, Contact, Resource, TaskStatus, task_grant, Core, Mixins}
use agent_comm.Store.Records.{put_task}
use agent_comm.Store.Prepare.{request_approval}
use agent_comm.Store.Prepare.Moves.{request_approval_moves}
use agent_comm.Store.Tasks.{
  Prepared, checked, references, task_of, new_task, task_question, ask_task, prepare_task, revoke,
}
use agent_comm.Store.Spec.{Moves, ends, still, moved, then, task_prepared, task_revoked}

Status-cases :
    (s : TaskStatus)
    → (s ≡ TaskStatus.waiting) ⊎ ((s ≡ TaskStatus.active) ⊎ (s ≡ TaskStatus.revoked))
Status-cases TaskStatus.waiting = inl refl
Status-cases TaskStatus.active = inr (inl refl)
Status-cases TaskStatus.revoked = inr (inr refl)

Revoked-cases :
    (s : TaskStatus)
    → (s ≡ TaskStatus.revoked) ⊎ ((s ≡ TaskStatus.waiting) ⊎ (s ≡ TaskStatus.active))
Revoked-cases TaskStatus.waiting = inr (inl refl)
Revoked-cases TaskStatus.active = inr (inr refl)
Revoked-cases TaskStatus.revoked = inl refl

module _ (E : Env) (X : Mixins) where
  ask_task_moves :
      (task_id : String) (scope : Scope) (owner : String) (contacts : List (String × Contact))
      (resources : List (String × Resource)) (now : ℕ) (d d' : Core × X.State) (p : Prepared)
      → ask_task E X task_id scope owner contacts resources now d ≡ ok (p, d')
      → Moves (d.0) (d'.0)
  unfolding ask_task
  ask_task_moves task_id scope owner contacts resources now d d' p h =
      elim (Outcome-cases (
        request_approval E X (task_grant scope 1) task_id owner
          (task_question E X scope contacts resources) (min scope.expires_at (now + 900000000)) now
          d)) [
            | inr (f, e) ↦ ground arith
            | inl ((a, d1), e) ↦ ends d1 d' (ground arith) (
                request_approval_moves E X (task_grant scope 1) task_id owner
                  (task_question E X scope contacts resources)
                  (min scope.expires_at (now + 900000000)) now d d1 a e)
          ]

  pub prepare_task_moves :
      (task_id : String) (given : Json) (owner : String) (now : ℕ) (d d' : Core × X.State)
      (p : Prepared)
      → prepare_task E X task_id given owner now d ≡ ok (p, d')
      → Moves (d.0) (d'.0)
  unfolding prepare_task
  prepare_task_moves task_id given owner now d d' p h =
      elim (Outcome-cases (checked (validate_scope given))) [
        | inr (f, e) ↦ ground arith
        | inl (scope, e) ↦ elim (Outcome-cases (references (d.0) scope owner)) [
          | inr (f, g) ↦ ground arith
          | inl ((xs, rs), g) ↦ elim (Option-cases (get (d.0.tasks) task_id)) [
            | inl n ↦
                let t = new_task task_id owner scope in
                then (moved (still (d.0)) (task_prepared (d.0) task_id t n refl refl refl)) (
                  ask_task_moves task_id scope owner xs rs now (put_task X task_id t d) d' p
                    (ground arith))
            | inr (old, n) ↦ elim (Status-cases old.status) [
              | inl w ↦ ask_task_moves task_id scope owner xs rs now d d' p (ground arith)
              | inr w ↦ ends d d' (ground arith) (still (d.0))
            ]
          ]
        ]
      ]

  pub revoke_moves :
      (task_id owner : String) (d d' : Core × X.State)
      → revoke E X task_id owner d ≡ ok d'
      → Moves (d.0) (d'.0)
  unfolding revoke task_of
  revoke_moves task_id owner d d' h = elim (Option-cases (get (d.0.tasks) task_id)) [
    | inl n ↦ ground arith
    | inr (t, n) ↦ elim (Revoked-cases t.status) [
      | inl w ↦ ends d d' (ground arith) (still (d.0))
      | inr w ↦
          let k : record (d.0) {
            tasks =
                put task_id (record t { status = TaskStatus.revoked; revision = t.revision + 1 })
                  (d.0.tasks);
          }
              ≡ d'.0 =
            ground arith in
          subst (Moves (d.0)) k (moved (still (d.0)) (task_revoked (d.0) task_id t n w))
    ]
  ]
