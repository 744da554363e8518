-- ===== src/Social/Block/Loops.antt =====
-- What the loops of a block (social.py) leave of the rows that they go over.
use agent_comm.Prelude.{
  ℕ, String, Bool, false, ◌&&◌, some, List, [], ◌∷◌, ◌≡◌, refl, sym, ◌∙◌, subst, ap, inl, inr,
  arith, map, same, Bool-cases, if◌then◌else◌,
}
use agent_comm.Table.{get, put, rows}
use agent_comm.Table.Sorted.{Each}
use agent_comm.Store.State.{Env, Approval, Operation, OperationStatus}
use agent_comm.Store.Records.{is_same_owner}
use agent_comm.Social.State.{retired, withdrawn, ContactRequest, Outgoing, Inbound, Neighbours}
use agent_comm.Social.Peers.{contacts_with}
use agent_comm.Social.Inbox.{Db}
use agent_comm.Social.Block.{
  each, is_open, is_retiring, is_withdrawing, is_refusing, bury, retire, withdraw, refuse, concerns,
  supersede, end_approvals, task_ids, end_messages, end_work,
}
use agent_comm.Social.Block.Same.{retire_writes, withdraw_writes}
use agent_comm.Social.Block.Sweep.{sweep_done}

-- A loop keeps what each of its writes keeps.
pub each_same :
    {V S X : Type 0} (view : S → X) (p : V → Bool) (step : V → S → S)
    → ((v : V) (s : S) → view (step v s) ≡ view s)
    → (vs : List V) (s : S) → view (each p step vs s) ≡ view s
unfolding each
each_same view p step k [] s = refl
each_same view p step k (v ∷ vs) s =
    let s1 = if p v then step v s else s in
    let first : view s1 ≡ view s = elim (Bool-cases (p v)) [
      | inl e ↦ rw e (k v s)
      | inr e ↦ rw e refl
    ] in
    each_same view p step k vs s1 ∙ first

module _ (E : Env) (N : Neighbours) where
  bury_same :
      (urn owner : String) (m : Inbound) (d : Db E N)
      → ((bury E N urn owner m d).1.requests ≡ d.1.requests)
        × ((bury E N urn owner m d).1.outbox ≡ d.1.outbox)
  unfolding bury
  bury_same urn owner m d = (refl, refl)

  retire_same :
      (now : ℕ) (r : ContactRequest) (d : Db E N) → (retire E N now r d).1.outbox ≡ d.1.outbox
  unfolding retire
  retire_same now r d = refl

  withdraw_same :
      (now : ℕ) (o : Outgoing) (d : Db E N) → (withdraw E N now o d).1.requests ≡ d.1.requests
  unfolding withdraw
  withdraw_same now o d = refl

  retiring_done :
      (urn owner : String) (now : ℕ) (r : ContactRequest)
      → is_retiring E N urn owner (record r { status = retired; updated_at = now }) ≡ false
  retiring_done urn owner now r = ground arith

  withdrawing_done :
      (urn owner : String) (now : ℕ) (o : Outgoing)
      → is_withdrawing E N urn owner (record o { status = withdrawn; updated_at = now }) ≡ false
  withdrawing_done urn owner now o = ground arith

  refusing_done :
      (urn owner : String) (o : Operation)
      → is_refusing E N urn owner (record o { status = OperationStatus.refused }) ≡ false
  refusing_done urn owner o = ground arith

  refuse_writes :
      (o : Operation) (d : Db E N)
      → (refuse E N o d).0.operations
        ≡ put o.operation_id (record o { status = OperationStatus.refused }) (d.0.operations)
  unfolding refuse
  refuse_writes o d = refl

  -- Nothing that waits for the peer is left in the messages.
  pub messages_ended :
      (urn owner : String) (now : ℕ) (d : Db E N)
      → Each (λ k r. r.request_id ≡ k) (d.1.requests)
      → Each (λ k o. o.message_id ≡ k) (d.1.outbox)
      → ((k : String) (r : ContactRequest)
          → get ((end_messages E N urn owner now d).1.requests) k ≡ some r
          → is_retiring E N urn owner r ≡ false)
        × ((k : String) (o : Outgoing)
            → get ((end_messages E N urn owner now d).1.outbox) k ≡ some o
            → is_withdrawing E N urn owner o ≡ false)
  unfolding end_messages
  messages_ended urn owner now d hr ho =
      let d1 : Db E N =
        each (λ m. same m.sender_urn urn) (bury E N urn owner) (rows (d.1.inbound)) d in
      let d2 : Db E N =
        each (is_retiring E N urn owner) (retire E N now) (rows (d1.1.requests)) d1 in
      let d3 : Db E N =
        each (is_withdrawing E N urn owner) (withdraw E N now) (rows (d2.1.outbox)) d2 in
      let r1 : d1.1.requests ≡ d.1.requests =
        each_same (λ d. d.1.requests) (λ m. same m.sender_urn urn) (bury E N urn owner)
          (λ m s. (bury_same urn owner m s).0) (rows (d.1.inbound)) d in
      let o1 : d1.1.outbox ≡ d.1.outbox =
        each_same (λ d. d.1.outbox) (λ m. same m.sender_urn urn) (bury E N urn owner)
          (λ m s. (bury_same urn owner m s).1) (rows (d.1.inbound)) d in
      let o2 : d2.1.outbox ≡ d1.1.outbox =
        each_same (λ d. d.1.outbox) (is_retiring E N urn owner) (retire E N now) (retire_same now)
          (rows (d1.1.requests)) d1 in
      let r3 : d3.1.requests ≡ d2.1.requests =
        each_same (λ d. d.1.requests) (is_withdrawing E N urn owner) (withdraw E N now)
          (withdraw_same now) (rows (d2.1.outbox)) d2 in
      let keyed_requests = subst (λ t. Each (λ k r. r.request_id ≡ k) t) (sym r1) hr in
      let keyed_outbox = subst (λ t. Each (λ k o. o.message_id ≡ k) t) (sym (o2 ∙ o1)) ho in
      (
        λ k r e.
            sweep_done (λ d. d.1.requests) (λ r. r.request_id) (is_retiring E N urn owner)
              (λ r. record r { status = retired; updated_at = now }) (retire E N now)
              (retire_writes E N now) (retiring_done urn owner now) (d1.1.requests) d1
              keyed_requests (λ j x g. inr g) k r (ap (λ t. get t k) (sym r3) ∙ e),
        λ k o e.
            sweep_done (λ d. d.1.outbox) (λ o. o.message_id) (is_withdrawing E N urn owner)
              (λ o. record o { status = withdrawn; updated_at = now }) (withdraw E N now)
              (withdraw_writes E N now) (withdrawing_done urn owner now) (d2.1.outbox) d2
              keyed_outbox (λ j x g. inr g) k o e,
      )

  approvals_operations :
      (urn : String) (tasks : List String) (owner : String) (rows_left : List Approval) (d : Db E N)
      → (end_approvals E N urn tasks owner rows_left d).0.operations ≡ d.0.operations
  unfolding end_approvals supersede
  approvals_operations urn tasks owner [] d = refl
  approvals_operations urn tasks owner (a ∷ rest) d =
      let b =
        is_same_owner a.owner_session owner && is_open a.status && concerns E N urn tasks a d in
      let d1 : Db E N = if b then supersede E N a d else d in
      let first : d1.0.operations ≡ d.0.operations = elim (Bool-cases b) [
        | inl e ↦ rw e refl
        | inr e ↦ rw e refl
      ] in
      approvals_operations urn tasks owner rest d1 ∙ first

  pub operations_ended :
      (urn owner : String) (now : ℕ) (d : Db E N)
      → Each (λ k o. o.operation_id ≡ k) (d.0.operations)
      → (k : String) (o : Operation) → get ((end_work E N urn owner now d).0.operations) k ≡ some o
      → is_refusing E N urn owner o ≡ false
  unfolding end_work
  operations_ended urn owner now (c, s, σ) h k o e =
      let tasks = task_ids (map (λ x. x.contact_id) (contacts_with E urn owner c)) owner c in
      let d0 : Db E N =
        (c, s, N.retire_collaborations urn owner now (N.pause_workers tasks owner σ)) in
      let d1 : Db E N = each (is_refusing E N urn owner) (refuse E N) (rows c.operations) d0 in
      let d2 : Db E N = (d1.0, d1.1, N.retire_v2_operations urn owner (d1.2)) in
      let kept = approvals_operations urn tasks owner (rows c.approvals) d2 in
      sweep_done (λ d. d.0.operations) (λ o. o.operation_id) (is_refusing E N urn owner)
        (λ o. record o { status = OperationStatus.refused }) (refuse E N) refuse_writes
        (refusing_done urn owner) c.operations d0 h (λ j x g. inr g) k o
        (ap (λ t. get t k) (sym kept) ∙ e)
