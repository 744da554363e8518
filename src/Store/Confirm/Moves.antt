-- ===== src/Store/Confirm/Moves.antt =====
-- `begin_confirmation` and `finish_confirmation` (store.py) make moves of the specification.
use agent_comm.Prelude.{
  ℕ, ◌+◌, min, String, true, not, ◌||◌, Option, some, ◌≡◌, refl, ◌∙◌, ap, arith, inl, inr,
  Option-cases, Bool-cases, subst, leb,
}
use agent_comm.Json.{str}
use agent_comm.Table.{get, put}
use agent_comm.Remote.State.{ok}
use agent_comm.Remote.Handle.Answer.{Outcome-cases}
use agent_comm.Store.State.{Env, Approval, ApprovalStatus, Core, Mixins}
use agent_comm.Store.Requests.{digest}
use agent_comm.Store.Current.{approval_current, apply_approval, deny_approval}
use agent_comm.Store.Current.Moves.{apply_approval_moves, deny_approval_moves}
use agent_comm.Store.Confirm.{
  is_open, is_leased, Display, Answer, consent, refusal, unclear, Resolution, unleased, answer_of,
  begin_confirmation, awaited, resolved, decide, finish_confirmation,
}
use agent_comm.Store.Spec.{Moves, ends, still, moved, approval_moved}
use agent_comm.Store.Spec.Sound.{IsSound}

module _ (E : Env) (X : Mixins) where
  pub begin_confirmation_moves :
      (approval_id owner token : String) (now : ℕ) (d d' : Core × X.State) (p : Display)
      → begin_confirmation E X approval_id owner token now d ≡ ok (p, d')
      → Moves (d.0) (d'.0)
  unfolding begin_confirmation
  begin_confirmation_moves approval_id owner token now d d' p h =
      elim (Option-cases (get (d.0.approvals) approval_id)) [
        | inl n ↦ ground arith
        | inr (a, n) ↦
            let b : Approval = record a {
              status = ApprovalStatus.presenting;
              owner_session = owner;
              expires_at = p.expires_at;
              token_hash = some (digest E (str token));
              lease_until = some (min p.expires_at (now + 360000000));
            } in
            let k : record (d.0) { approvals = put approval_id b (d.0.approvals) } ≡ d'.0 =
              ground arith in
            subst (Moves (d.0)) k (
              moved (still (d.0)) (
                approval_moved (d.0) approval_id a b n (ground arith)
                  (refl, refl, refl, refl, refl)))
      ]

  -- The row that `finish_confirmation` answers is displayed.
  pub awaited_lem :
      (approval_id token owner : String) (c : Core) (a : Approval)
      → awaited E X approval_id token owner c ≡ ok a
      → (get c.approvals approval_id ≡ some a) × (is_open a.status ≡ true)
  unfolding awaited
  awaited_lem approval_id token owner c a h = ground arith

  resolved_moves :
      (approval_id : String) (a : Approval) (s : ApprovalStatus) (c : Core) (d : Core × X.State)
      → get c.approvals approval_id ≡ some a
      → is_open a.status ≡ true
      → d.0.approvals ≡ c.approvals
      → Moves c (d.0)
      → Moves c ((resolved E X approval_id (unleased s a) d).0)
  unfolding resolved
  resolved_moves approval_id a s c d n o e ms = moved ms (
      approval_moved (d.0) approval_id a (unleased s a) (ap (λ t. get t approval_id) e ∙ n) o
        (refl, refl, refl, refl, refl))

  decide_moves :
      (approval_id : String) (a : Approval) (answer : Answer) (now : ℕ) (d d' : Core × X.State)
      (r : Resolution)
      → IsSound (d.0)
      → get (d.0.approvals) approval_id ≡ some a
      → is_open a.status ≡ true
      → approval_current E X (unleased a.status a) now d ≡ true
      → decide E X approval_id a answer now d ≡ ok (r, d')
      → Moves (d.0) (d'.0)
  unfolding decide
  decide_moves approval_id a consent now d d' r s n o current h =
      elim (Outcome-cases (apply_approval E X (unleased ApprovalStatus.approved a) now d)) [
        | inr (f, e) ↦ ground arith
        | inl (d1, e) ↦
            let (ms, i) =
              apply_approval_moves E X (unleased ApprovalStatus.approved a) (unleased a.status a)
                now d d1 s refl refl current e in
            ends (resolved E X approval_id (unleased ApprovalStatus.approved a) d1) d'
              (ground arith)
              (resolved_moves approval_id a ApprovalStatus.approved (d.0) d1 n o i ms)
      ]
  decide_moves approval_id a refusal now d d' r s n o current h =
      elim (Outcome-cases (deny_approval E X (unleased ApprovalStatus.denied a) d)) [
        | inr (f, e) ↦ ground arith
        | inl (d1, e) ↦
            let (ms, i) = deny_approval_moves E X (unleased ApprovalStatus.denied a) d d1 s e in
            ends (resolved E X approval_id (unleased ApprovalStatus.denied a) d1) d' (ground arith)
              (resolved_moves approval_id a ApprovalStatus.denied (d.0) d1 n o i ms)
      ]
  decide_moves approval_id a unclear now d d' r s n o current h =
      ends (resolved E X approval_id (unleased ApprovalStatus.pending a) d) d' (ground arith)
        (resolved_moves approval_id a ApprovalStatus.pending (d.0) d n o refl (still (d.0)))

  pub finish_confirmation_moves :
      (approval_id token owner : String) (raw : Option String) (now : ℕ) (d d' : Core × X.State)
      (r : Resolution)
      → IsSound (d.0)
      → finish_confirmation E X approval_id token owner raw now d ≡ ok (r, d')
      → Moves (d.0) (d'.0)
  unfolding finish_confirmation
  finish_confirmation_moves approval_id token owner raw now d d' r s h =
      elim (Outcome-cases (awaited E X approval_id token owner (d.0))) [
        | inr (f, e) ↦ ground arith
        | inl (a, e) ↦
            let (n, o) = awaited_lem approval_id token owner (d.0) a e in
            elim (Bool-cases (
              not (is_leased now a)
              || leb a.expires_at now
              || not (approval_current E X (unleased a.status a) now d))) [
                | inl late ↦
                    ends (resolved E X approval_id (unleased ApprovalStatus.expired a) d) d'
                      (ground arith)
                      (resolved_moves approval_id a ApprovalStatus.expired (d.0) d n o refl
                        (still (d.0)))
                | inr timely ↦
                    decide_moves approval_id a (answer_of E raw) now d d' r s n o (ground arith)
                      (ground arith)
              ]
      ]
