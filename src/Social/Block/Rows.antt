-- ===== src/Social/Block/Rows.antt =====
-- What a block (social.py, `_set_peer_block`) writes of the rows of store.py, against its specification.
use agent_comm.Prelude.{
  ℕ, String, Bool, false, not, ◌&&◌, Option, some, List, [], ◌∷◌, ◌≡◌, ◌≢◌, refl, sym, ◌∙◌, subst,
  ap, inl, inr, arith, leb, map, same, same_iff, Bool-cases, if◌then◌else◌,
}
use Prim.Native.Nat.{Ordering}
use Prim.Native.String.{compare}
use agent_comm.Json.{Json}
use agent_comm.Table.{Table, get, put, rows}
use agent_comm.Table.Laws.{get-put_ne}
use agent_comm.Table.Sorted.{Each, IsSorted, Each-map, Each-get}
use agent_comm.Remote.State.{ok}
use agent_comm.Remote.Parse.{text_of, identity}
use agent_comm.Remote.Handle.Answer.{Outcome-cases}
use agent_comm.Store.State.{Env, Approval, Operation, OperationStatus}
use agent_comm.Store.Records.{is_same_owner, check_owner}
use agent_comm.Store.Requests.{is_local}
use agent_comm.Store.Spec.{Moves, still, moved, then, approval_moved, operation_moved}
use agent_comm.Store.Spec.Sound.{IsSound, IsApproval}
use agent_comm.Social.State.{Neighbours}
use agent_comm.Social.Peers.{safety_revision, peer_blocked, contacts_with}
use agent_comm.Social.Inbox.{Db}
use agent_comm.Social.Block.{
  each, is_open, is_refusing, refuse, concerns, supersede, end_approvals, task_ids, end_messages,
  end_work, write_block, BlockReceipt, set_peer_block,
}
use agent_comm.Social.Block.Sweep.{sweep_moves}
use agent_comm.Social.Block.Loops.{each_same}
use agent_comm.Social.Block.Ended.{end_messages_core}

module _ (E : Env) (N : Neighbours) where
  -- One round of the loop over the approvals.
  supersede_one :
      (urn : String) (tasks : List String) (owner : String) (a : Approval) (d : Db E N)
      → get (d.0.approvals) a.approval_id ≡ some a
      → Moves (d.0) ((end_approvals E N urn tasks owner (a ∷ []) d).0)
        × ((j : String)
            → a.approval_id ≢ j
            → get ((end_approvals E N urn tasks owner (a ∷ []) d).0.approvals) j
              ≡ get (d.0.approvals) j)
  unfolding end_approvals supersede
  supersede_one urn tasks owner a d n =
      elim (Bool-cases
        (is_same_owner a.owner_session owner && is_open a.status && concerns E N urn tasks a d)) [
          | inr f ↦ rw f (still (d.0), λ j h. refl)
          | inl f ↦ rw f (
            moved (still (d.0)) (
                approval_moved (d.0) a.approval_id a _ n (ground arith)
                  (refl, refl, refl, refl, refl)),
            λ j h. get-put_ne a.approval_id j _ (d.0.approvals) h,
          )
        ]

  end_approvals_moves :
      (urn : String) (tasks : List String) (owner : String) (t : Table Approval) (d : Db E N)
      → IsSorted t
      → Each IsApproval t
      → Each (λ k a. get (d.0.approvals) k ≡ some a) t
      → Moves (d.0) ((end_approvals E N urn tasks owner (rows t) d).0)
  unfolding end_approvals rows
  end_approvals_moves urn tasks owner [] d s i g = still (d.0)
  end_approvals_moves urn tasks owner ((k, a) ∷ t) d (above, s) (i, is) (g, gs) =
      let (ms, keep) = supersede_one urn tasks owner a d (ap (get (d.0.approvals)) i ∙ g) in
      let d1 = end_approvals E N urn tasks owner (a ∷ []) d in
      (then) ms (
        end_approvals_moves urn tasks owner t d1 s is
          (Each-map (λ j b p q. keep j (λ e. apart k j p (sym i ∙ e)) ∙ q) t above gs))
    where
      apart : (k j : String) → compare k j ≡ Ordering.lt → k ≢ j
      apart k j p e = let h : same k j ≡ false = rw p refl in cc (h, (same_iff k j).1 e)

  refuse_moves :
      (o : Operation) (d : Db E N)
      → get (d.0.operations) o.operation_id ≡ some o
      → Moves (d.0) ((refuse E N o d).0)
  unfolding refuse
  refuse_moves o d n = moved (still (d.0)) (
      operation_moved (d.0) o.operation_id o (record o { status = OperationStatus.refused }) n
        (refl, refl, refl, refl, refl, refl, refl, refl))

  refuse_writes :
      (o : Operation) (d : Db E N)
      → (refuse E N o d).0.operations
        ≡ put o.operation_id (record o { status = OperationStatus.refused }) (d.0.operations)
  unfolding refuse
  refuse_writes o d = refl

  refuse_kept : (o : Operation) (d : Db E N) → (refuse E N o d).0.approvals ≡ d.0.approvals
  unfolding refuse
  refuse_kept o d = refl

  end_work_moves :
      (urn owner : String) (now : ℕ) (d : Db E N)
      → IsSound (d.0)
      → Moves (d.0) ((end_work E N urn owner now d).0)
  unfolding end_work
  end_work_moves urn owner now (c, s, σ) sound =
      let tasks = task_ids (map (λ x. x.contact_id) (contacts_with E urn owner c)) owner c in
      let d0 : Db E N =
        (c, s, N.retire_collaborations urn owner now (N.pause_workers tasks owner σ)) in
      let p = is_refusing E N urn owner in
      let d1 : Db E N = each p (refuse E N) (rows c.operations) d0 in
      let d2 : Db E N = (d1.0, d1.1, N.retire_v2_operations urn owner (d1.2)) in
      let kept : d1.0.approvals ≡ c.approvals =
        each_same (λ d. d.0.approvals) p (refuse E N) refuse_kept (rows c.operations) d0 in
      (then)
        (sweep_moves (λ d. d.0.operations) (λ o. o.operation_id) p
          (λ o. record o { status = OperationStatus.refused }) (refuse E N) refuse_writes
          (λ d e. Moves (d.0) (e.0)) (λ d. still (d.0)) (λ d e f ms ns. (then) ms ns)
          (λ o d n q. refuse_moves o d n) c.operations d0 sound.sorted_operations
          (Each-map (λ k o i g. (i, g)) c.operations sound.operations
            (Each-get c.operations sound.sorted_operations)))
        (end_approvals_moves urn tasks owner c.approvals d2 sound.sorted sound.approvals (
          subst (λ t. Each (λ k a. get t k ≡ some a) c.approvals) (sym kept)
            (Each-get c.approvals sound.sorted)))

  -- A block or its end, whatever the peer.
  pub set_peer_block_core :
      (given : Option Json) (value : Bool) (owner : String) (now : ℕ) (d d' : Db E N)
      (r : BlockReceipt E N)
      → IsSound (d.0)
      → set_peer_block E N given value owner now d ≡ ok (r, d')
      → Moves (d.0) (d'.0)
  unfolding set_peer_block
  set_peer_block_core given value owner now (c, s, σ) d' r sound h =
      elim (Outcome-cases (check_owner owner)) [
        | inr (f, e) ↦ ground arith
        | inl (u, e) ↦ elim (Outcome-cases (identity (text_of given))) [
          | inr (f, i) ↦ ground arith
          | inl (urn, i) ↦
              let d1 : Db E N = (c, write_block E N urn value owner now s, σ) in
              let d2 = end_messages E N urn owner now d1 in
              let core = end_messages_core E N urn owner now d1 in
              let ms : Moves c ((end_work E N urn owner now d2).0) =
                subst (λ x. Moves x ((end_work E N urn owner now d2).0)) core
                  (end_work_moves urn owner now d2 (subst IsSound (sym core) sound)) in
              elim (Bool-cases (is_local E E.local_urn urn)) [
                | inl k ↦ ground arith
                | inr k ↦
                    let changes = not (if peer_blocked E urn owner s then value else not value) in
                    elim (Bool-cases
                      (changes && leb 9007199254740991 (safety_revision E owner s))) [
                        | inl g ↦ ground arith
                        | inr g ↦ elim (Bool-cases value) [
                          | inl v ↦
                              let k : (end_work E N urn owner now d2).0 ≡ d'.0 = ground arith in
                              subst (Moves c) k ms
                          | inr v ↦ let k : c ≡ d'.0 = ground arith in subst (Moves c) k (still c)
                        ]
                      ]
              ]
        ]
      ]
