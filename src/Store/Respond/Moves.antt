-- ===== src/Store/Respond/Moves.antt =====
-- `_remote_respond_approval` and `_remote_add_contact` (store.py) make moves of the specification.
use agent_comm.Prelude.{
  ℕ, String, true, false, some, [], ◌∷◌, ◌≡◌, ◌≢◌, refl, sym, ◌∙◌, ◌⊎◌, ap, arith, inl, inr,
  Option-cases, Bool-cases, subst, same, same_iff,
}
use Prim.Native.Nat.{Ordering}
use Prim.Native.String.{compare}
use agent_comm.Json.{Json, Fields, lookup}
use agent_comm.Table.{Table, get, rows}
use agent_comm.Table.Laws.{get-put_ne}
use agent_comm.Table.Sorted.{Each, IsSorted, Each-map, Each-get}
use agent_comm.Remote.State.{ok, value_error}
use agent_comm.Remote.Parse.{text_of, required}
use agent_comm.Remote.Handle.Answer.{Outcome-cases}
use agent_comm.Store.State.{Env, Contact, Approval, ApprovalStatus, Core, Mixins}
use agent_comm.Store.Records.{put_contact, put_approval, audit}
use agent_comm.Store.Requests.{contact_value}
use agent_comm.Store.Current.{approval_current, apply_approval, deny_approval}
use agent_comm.Store.Current.Moves.{apply_approval_moves, deny_approval_moves}
use agent_comm.Store.Confirm.{is_open}
use agent_comm.Store.Respond.{
  is_binding_of, is_exact, decided_by, settle, add_contact, is_decided, act, respond, chosen,
  respond_approval,
}
use agent_comm.Store.Spec.{Moves, ends, still, moved, then, approval_moved, contacts_written}
use agent_comm.Store.Spec.Sound.{IsSound, IsApproval}

module _ (E : Env) (X : Mixins) where
  -- One round of the loop over the approvals of a new contact.
  settle_one : Contact → String → Approval → Core × X.State → Core × X.State
  settle_one x owner a d = settle E X x owner (a ∷ []) d

  open_of :
      (id owner : String) (a : Approval)
      → is_binding_of E X id owner a ≡ true
      → is_open a.status ≡ true
  unfolding is_binding_of
  open_of id owner a h = ground arith

  -- A round leaves each approval with another identifier as it is.
  settle_one_moves :
      (x : Contact) (owner : String) (a : Approval) (d : Core × X.State)
      → get (d.0.approvals) a.approval_id ≡ some a
      → Moves (d.0) ((settle_one x owner a d).0)
        × ((j : String)
            → a.approval_id ≢ j
            → get ((settle_one x owner a d).0.approvals) j ≡ get (d.0.approvals) j)
  unfolding settle_one settle
  settle_one_moves x owner a d n = elim (Bool-cases (is_binding_of E X x.contact_id owner a)) [
    | inr f ↦ rw f (still (d.0), λ j h. refl)
    | inl f ↦ elim (Bool-cases (is_exact E X x a)) [
      | inr g ↦ rw (f, g) (still (d.0), λ j h. refl)
      | inl g ↦
          rw (f, g)
            (
              moved (still (d.0)) (
                  approval_moved (d.0) a.approval_id a (decided_by owner ApprovalStatus.approved a)
                    n (open_of x.contact_id owner a f) (refl, refl, refl, refl, refl)),
              λ j h.
                  get-put_ne a.approval_id j (decided_by owner ApprovalStatus.approved a)
                    (d.0.approvals) h,
            )
    ]
  ]

  settle_moves :
      (x : Contact) (owner : String) (t : Table Approval) (d : Core × X.State)
      → IsSorted t
      → Each IsApproval t
      → Each (λ k a. get (d.0.approvals) k ≡ some a) t
      → Moves (d.0) ((settle E X x owner (rows t) d).0)
  unfolding settle rows settle_one
  settle_moves x owner [] d s i g = still (d.0)
  settle_moves x owner ((k, a) ∷ t) d (above, s) (i, is) (g, gs) =
      let (ms, keep) = settle_one_moves x owner a d (ap (get (d.0.approvals)) i ∙ g) in
      let d1 = settle_one x owner a d in
      then ms (
        settle_moves x owner t d1 s is
          (Each-map (λ j b p q. keep j (λ e. apart k j p (sym i ∙ e)) ∙ q) t above gs))
    where
      apart : (k j : String) → compare k j ≡ Ordering.lt → k ≢ j
      apart k j p e = let h : same k j ≡ false = rw p refl in cc (h, (same_iff k j).1 e)

  pub add_contact_moves :
      (params : Fields) (owner : String) (now : ℕ) (d d' : Core × X.State) (r : Json)
      → IsSound (d.0)
      → add_contact E X params owner now d ≡ ok (r, d')
      → Moves (d.0) (d'.0)
  unfolding add_contact
  add_contact_moves params owner now d d' r s h =
      elim (Outcome-cases (
        contact_value E (lookup "contact_id" params) (lookup "aliases" params) (lookup "urn" params)
          owner)) [
            | inr (f, e) ↦ ground arith
            | inl (x, e) ↦ elim (Option-cases (get (d.0.contacts) x.contact_id)) [
              | inr (old, n) ↦
                  let k : d.0 ≡ d'.0 = ground arith in subst (Moves (d.0)) k (still (d.0))
              | inl n ↦
                  let d0 = put_contact X x.contact_id x d in
                  elim (Outcome-cases (X.request_contact x now (d0.0) (d0.1))) [
                    | inr (f, i) ↦ ground arith
                    | inl ((request, σ), i) ↦
                        let c = d0.0 in
                        let d1 : Core × X.State = settle E X x owner (rows c.approvals) (c, σ) in
                        let k : d1.0 ≡ d'.0 = ground arith in
                        subst (Moves (d.0)) k (
                          then (moved (still (d.0)) (contacts_written (d.0) _)) (
                            settle_moves x owner c.approvals (c, σ) s.sorted s.approvals
                              (Each-get c.approvals s.sorted)))
                  ]
            ]
          ]

  -- The end of `_remote_respond_approval`.
  record_moves :
      (approval_id owner : String) (a : Approval) (s : ApprovalStatus) (d d1 : Core × X.State)
      → get (d.0.approvals) approval_id ≡ some a
      → is_open a.status ≡ true
      → d1.0.approvals ≡ d.0.approvals
      → Moves (d.0) (d1.0)
      → Moves (d.0) (
          (audit X "remote_confirmation_resolved"
            (put_approval X approval_id (decided_by owner s a) d1)).0)
  record_moves approval_id owner a s d d1 n o e ms = moved ms (
      approval_moved (d1.0) approval_id a (decided_by owner s a) (ap (λ t. get t approval_id) e ∙ n)
        o (refl, refl, refl, refl, refl))

  respond_open :
      (approval_id owner : String) (a : Approval) (s : ApprovalStatus) (now : ℕ)
      (d d' : Core × X.State)
      → IsSound (d.0)
      → get (d.0.approvals) approval_id ≡ some a
      → is_open a.status ≡ true
      → approval_current E X a now d ≡ true
      → (d1 : Core × X.State)
      → (apply_approval E X (decided_by owner s a) now d ≡ ok d1)
        ⊎ (deny_approval E X (decided_by owner s a) d ≡ ok d1)
      → d'.0
        ≡ (audit X "remote_confirmation_resolved"
            (put_approval X approval_id (decided_by owner s a) d1)).0
      → Moves (d.0) (d'.0)
  respond_open approval_id owner a s now d d' sound n o current d1 (inl e) k =
      let (ms, i) =
        apply_approval_moves E X (decided_by owner s a) a now d d1 sound refl refl current e in
      subst (Moves (d.0)) (sym k) (record_moves approval_id owner a s d d1 n o i ms)
  respond_open approval_id owner a s now d d' sound n o current d1 (inr e) k =
      let (ms, i) = deny_approval_moves E X (decided_by owner s a) d d1 sound e in
      subst (Moves (d.0)) (sym k) (record_moves approval_id owner a s d d1 n o i ms)

  act_cases :
      (owner : String) (a : Approval) (s : ApprovalStatus) (now : ℕ) (d d1 : Core × X.State)
      → act E X s (decided_by owner s a) now d ≡ ok d1
      → (apply_approval E X (decided_by owner s a) now d ≡ ok d1)
        ⊎ (deny_approval E X (decided_by owner s a) d ≡ ok d1)
  unfolding act
  act_cases owner a ApprovalStatus.approved now d d1 h = inl h
  act_cases owner a ApprovalStatus.denied now d d1 h = inr h
  act_cases owner a ApprovalStatus.pending now d d1 h = inr h
  act_cases owner a ApprovalStatus.presenting now d d1 h = inr h
  act_cases owner a ApprovalStatus.expired now d d1 h = inr h
  act_cases owner a ApprovalStatus.superseded now d d1 h = inr h

  respond_to :
      (approval_id owner : String) (a : Approval) (s : ApprovalStatus) (now : ℕ)
      (d d' : Core × X.State) (r : Json)
      → IsSound (d.0)
      → get (d.0.approvals) approval_id ≡ some a
      → respond E X approval_id owner s a now d ≡ ok (r, d')
      → Moves (d.0) (d'.0)
  unfolding respond
  respond_to approval_id owner a s now d d' r sound n h = elim (Bool-cases (is_decided a.status)) [
    | inl e ↦ ends d d' (ground arith) (still (d.0))
    | inr e ↦ elim (Outcome-cases (act E X s (decided_by owner s a) now d)) [
      | inr (f, i) ↦ ground arith
      | inl (d1, i) ↦
          respond_open approval_id owner a s now d d' sound n (ground arith) (ground arith) d1
            (act_cases owner a s now d d1 i) (ground arith)
    ]
  ]

  pub respond_approval_moves :
      (params : Fields) (owner : String) (now : ℕ) (d d' : Core × X.State) (r : Json)
      → IsSound (d.0)
      → respond_approval E X params owner now d ≡ ok (r, d')
      → Moves (d.0) (d'.0)
  unfolding respond_approval
  respond_approval_moves params owner now d d' r sound h =
      elim (Outcome-cases
        (required (text_of (lookup "approval_id" params)) (value_error "Invalid approval_id"))) [
          | inr (f, e) ↦ ground arith
          | inl (id, e) ↦ elim (Outcome-cases (chosen (lookup "decision" params))) [
            | inr (f, i) ↦ ground arith
            | inl (s, i) ↦ elim (Option-cases (get (d.0.approvals) id)) [
              | inl n ↦ ground arith
              | inr (a, n) ↦ respond_to id owner a s now d d' r sound n (ground arith)
            ]
          ]
        ]
