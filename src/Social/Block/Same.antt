-- ===== src/Social/Block/Same.antt =====
-- What the loops of a block (social.py) write, and which rows they leave alone.
use agent_comm.Prelude.{
  ℕ, String, Bool, ◌&&◌, List, [], ◌∷◌, ◌≡◌, refl, ◌∙◌, inl, inr, map, Bool-cases, if◌then◌else◌,
}
use agent_comm.Table.{put, rows}
use agent_comm.Store.State.{Env, Approval, Operation}
use agent_comm.Store.Records.{is_same_owner}
use agent_comm.Social.State.{retired, ContactRequest, withdrawn, Outgoing, Neighbours}
use agent_comm.Social.Peers.{contacts_with}
use agent_comm.Social.Inbox.{Db}
use agent_comm.Social.Block.{
  each, is_open, is_refusing, retire, withdraw, refuse, concerns, supersede, end_approvals,
  task_ids, end_work,
}

module _ (E : Env) (N : Neighbours) where
  pub retire_writes :
      (now : ℕ) (r : ContactRequest) (d : Db E N)
      → (retire E N now r d).1.requests
        ≡ put r.request_id (record r { status = retired; updated_at = now }) (d.1.requests)
  unfolding retire
  retire_writes now r d = refl

  pub withdraw_writes :
      (now : ℕ) (o : Outgoing) (d : Db E N)
      → (withdraw E N now o d).1.outbox
        ≡ put o.message_id (record o { status = withdrawn; updated_at = now }) (d.1.outbox)
  unfolding withdraw
  withdraw_writes now o d = refl

  -- The work that ends is not among the rows of social.py.
  each-refuse_same :
      (p : Operation → Bool) (os : List Operation) (d : Db E N) → (each p (refuse E N) os d).1 ≡ d.1
  unfolding each refuse
  each-refuse_same p [] d = refl
  each-refuse_same p (o ∷ os) d =
      let d1 : Db E N = if p o then refuse E N o d else d in
      let first : d1.1 ≡ d.1 = elim (Bool-cases (p o)) [ inl e ↦ rw e refl | inr e ↦ rw e refl ] in
      each-refuse_same p os d1 ∙ first

  end_approvals_same :
      (urn : String) (tasks : List String) (owner : String) (rows_left : List Approval) (d : Db E N)
      → (end_approvals E N urn tasks owner rows_left d).1 ≡ d.1
  unfolding end_approvals supersede
  end_approvals_same urn tasks owner [] d = refl
  end_approvals_same urn tasks owner (a ∷ rest) d =
      let b =
        is_same_owner a.owner_session owner && is_open a.status && concerns E N urn tasks a d in
      let d1 : Db E N = if b then supersede E N a d else d in
      let first : d1.1 ≡ d.1 = elim (Bool-cases b) [ inl e ↦ rw e refl | inr e ↦ rw e refl ] in
      end_approvals_same urn tasks owner rest d1 ∙ first

  pub end_work_same :
      (urn owner : String) (now : ℕ) (d : Db E N) → (end_work E N urn owner now d).1 ≡ d.1
  unfolding end_work
  end_work_same urn owner now (c, s, σ) =
      let tasks = task_ids (map (λ x. x.contact_id) (contacts_with E urn owner c)) owner c in
      let d0 : Db E N =
        (c, s, N.retire_collaborations urn owner now (N.pause_workers tasks owner σ)) in
      let d1 : Db E N = each (is_refusing E N urn owner) (refuse E N) (rows c.operations) d0 in
      let d2 : Db E N = (d1.0, d1.1, N.retire_v2_operations urn owner (d1.2)) in
      end_approvals_same urn tasks owner (rows c.approvals) d2
      ∙ each-refuse_same (is_refusing E N urn owner) (rows c.operations) d0
