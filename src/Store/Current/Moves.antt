-- ===== src/Store/Current/Moves.antt =====
-- `_apply_approval` and `_deny_approval` (store.py) make moves of the specification, and write no
-- approval.
use agent_comm.Prelude.{ℕ, true, ◌≡◌, refl, sym, ◌∙◌, ap, arith, inl, inr, Option-cases, subst}
use agent_comm.Table.{get, put}
use agent_comm.Table.Sorted.{get-Each}
use agent_comm.Policy.Action.{
  Payload, share_slots, share_resource, propose_meeting, accept_meeting, send_text,
}
use agent_comm.Remote.State.{ok}
use agent_comm.Store.State.{
  Env, TaskStatus, Approval, Subject, task_grant, operation_grant, contact_binding, friend_request,
  contact_response, direct_message, worker_policy, collaboration_v2, Operation, OperationStatus,
  Core, Mixins,
}
use agent_comm.Store.Current.{
  is_waiting, approval_current, approve_proposal, apply_approval, deny_approval,
}
use agent_comm.Store.Spec.{
  Moves, still, moved, contacts_written, proposal_written, task_approved, operation_moved,
}
use agent_comm.Store.Spec.Sound.{IsSound, IsTask, IsOperation}

waiting_of : (s : TaskStatus) → is_waiting s ≡ true → s ≡ TaskStatus.waiting
unfolding is_waiting
waiting_of TaskStatus.waiting h = refl
waiting_of TaskStatus.active h = cc
waiting_of TaskStatus.revoked h = cc

module _ (E : Env) (X : Mixins) where
  abbrev pub Applied : Core × X.State → Core × X.State → Type 0
  Applied d d' = Moves (d.0) (d'.0) × (d'.0.approvals ≡ d.0.approvals)

  approve_proposal_moves :
      (o : Operation) (d : Core × X.State)
      → Moves (d.0) ((approve_proposal E X o d).0)
        × ((approve_proposal E X o d).0.approvals ≡ d.0.approvals)
        × ((approve_proposal E X o d).0.operations ≡ d.0.operations)
  approve_proposal_moves o d = go o.action.payload refl
    where
      go :
          (p : Payload)
          → o.action.payload ≡ p
          → Moves (d.0) ((approve_proposal E X o d).0)
            × ((approve_proposal E X o d).0.approvals ≡ d.0.approvals)
            × ((approve_proposal E X o d).0.operations ≡ d.0.operations)
      go (propose_meeting m) e = rw e (moved (still (d.0)) (proposal_written (d.0) _ _), refl, refl)
      go (accept_meeting m) e = rw e (still (d.0), refl, refl)
      go (share_slots is) e = rw e (still (d.0), refl, refl)
      go (share_resource id) e = rw e (still (d.0), refl, refl)
      go (send_text s) e = rw e (still (d.0), refl, refl)

  pub deny_approval_moves :
      (a : Approval) (d d' : Core × X.State)
      → IsSound (d.0)
      → deny_approval E X a d ≡ ok d'
      → Applied d d'
  unfolding deny_approval
  deny_approval_moves a d d' s h = go a.subject refl
    where
      same_end : (d.0 ≡ d'.0) → Applied d d'
      same_end k = (subst (Moves (d.0)) k (still (d.0)), ap (λ (c : Core). c.approvals) (sym k))

      go : (u : Subject) → a.subject ≡ u → Applied d d'
      go (contact_binding x) e = same_end (ground arith)
      go (task_grant scope revision) e = same_end (ground arith)
      go (operation_grant hash revision) e =
          elim (Option-cases (get (d.0.operations) a.subject_id)) [
            | inl n ↦ ground arith
            | inr (o, n) ↦
                let i = get-Each IsOperation (d.0.operations) a.subject_id o s.operations n in
                let k : record (d.0) {
                  operations =
                      put o.operation_id (record o { status = OperationStatus.refused })
                        (d.0.operations);
                }
                    ≡ d'.0 =
                  ground arith in
                (
                  subst (Moves (d.0)) k (
                      moved (still (d.0)) (
                        operation_moved (d.0) o.operation_id o _ (ap (get (d.0.operations)) i ∙ n)
                          (refl, refl, refl, refl, refl, refl, refl, refl))),
                  ap (λ (c : Core). c.approvals) (sym k),
                )
          ]
      go (friend_request v) e = same_end (ground arith)
      go (contact_response v) e = same_end (ground arith)
      go (direct_message v) e = same_end (ground arith)
      go (worker_policy v) e = same_end (ground arith)
      go (collaboration_v2 v) e = same_end (ground arith)

  pub apply_approval_moves :
      (a b : Approval) (now : ℕ) (d d' : Core × X.State)
      → IsSound (d.0)
      → a.subject ≡ b.subject
      → a.subject_id ≡ b.subject_id
      → approval_current E X b now d ≡ true
      → apply_approval E X a now d ≡ ok d'
      → Applied d d'
  unfolding apply_approval approval_current
  apply_approval_moves a b now d d' s f g current h = go a.subject refl
    where
      contacts_end : d'.0 ≡ record (d.0) { contacts = d'.0.contacts } → Applied d d'
      contacts_end k = (
        subst (Moves (d.0)) (sym k) (moved (still (d.0)) (contacts_written (d.0) _)),
        ap (λ (c : Core). c.approvals) k,
      )

      go : (u : Subject) → a.subject ≡ u → Applied d d'
      go (contact_binding x) e = contacts_end (ground arith)
      go (task_grant scope revision) e = elim (Option-cases (get (d.0.tasks) a.subject_id)) [
        | inl n ↦ ground arith
        | inr (t, n) ↦
            let i = get-Each IsTask (d.0.tasks) a.subject_id t s.tasks n in
            let w : is_waiting t.status ≡ true = ground arith in
            let k : record (d.0) {
              tasks = put t.task_id (record t { status = TaskStatus.active }) (d.0.tasks);
            }
                ≡ d'.0 =
              ground arith in
            (
              subst (Moves (d.0)) k (
                  moved (still (d.0)) (
                    task_approved (d.0) t.task_id t (ap (get (d.0.tasks)) (i.0) ∙ n)
                      (waiting_of t.status w))),
              ap (λ (c : Core). c.approvals) (sym k),
            )
      ]
      go (operation_grant hash revision) e =
          elim (Option-cases (get (d.0.operations) a.subject_id)) [
            | inl n ↦ ground arith
            | inr (o, n) ↦
                let i = get-Each IsOperation (d.0.operations) a.subject_id o s.operations n in
                let (ms, j, l) = approve_proposal_moves o d in
                let c = (approve_proposal E X o d).0 in
                let k : record c {
                  operations =
                      put o.operation_id
                        (record o { status = OperationStatus.ready; approved_once = true })
                        c.operations;
                }
                    ≡ d'.0 =
                  ground arith in
                (
                  subst (Moves (d.0)) k (
                      moved ms (
                        operation_moved c o.operation_id o _
                          (ap (λ u. get u o.operation_id) l ∙ (ap (get (d.0.operations)) i ∙ n))
                          (refl, refl, refl, refl, refl, refl, refl, refl))),
                  ap (λ (c' : Core). c'.approvals) (sym k) ∙ j,
                )
          ]
      go (friend_request v) e = contacts_end (ground arith)
      go (contact_response v) e = contacts_end (ground arith)
      go (direct_message v) e = contacts_end (ground arith)
      go (worker_policy v) e = contacts_end (ground arith)
      go (collaboration_v2 v) e = contacts_end (ground arith)
