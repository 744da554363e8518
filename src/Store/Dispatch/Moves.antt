-- ===== src/Store/Dispatch/Moves.antt =====
-- `dispatch` (store.py) makes moves of the specification, in each of its transactions.
use agent_comm.Prelude.{
  ℕ, suc, String, false, Option, none, some, List, [], ◌∷◌, ◌++◌, ◌≡◌, refl, arith, inl, inr,
  Option-cases, Bool-cases,
}
use agent_comm.Table.{get}
use agent_comm.Remote.State.{Outcome, ok, raised}
use agent_comm.Remote.Handle.Answer.{Outcome-cases}
use agent_comm.Store.State.{Env, Task, Operation, Delivery, Core, Mixins}
use agent_comm.Store.Tasks.{task_of}
use agent_comm.Store.Verdicts.{is_current_task}
use agent_comm.Store.Wire.{Reply}
use agent_comm.Store.Reserve.{finished, reserved, reserve}
use agent_comm.Store.Reserve.Moves.{reserve_moves}
use agent_comm.Store.Dispatch.{
  Transport, Message, Sent, skipped, blocked, attempted, is_delivered, find, acknowledges, batch,
  message, mark, submit, deliver, send_all, last_view, Run, dispatch,
}
use agent_comm.Store.Spec.{Moves, ends, still, moved, then, operation_moved}
use agent_comm.Store.Spec.Sound.{IsSound}

module _ (E : Env) (X : Mixins) where
  submit_moves :
      (operation_id : String) (o : Operation) (t : Task) (x : Delivery) (transport : Transport)
      (now : ℕ) (d : Core × X.State)
      → get (d.0.operations) operation_id ≡ some o
      → Moves (d.0) ((submit E X operation_id o t x transport now d).1.0)
  unfolding submit mark
  submit_moves operation_id o t x transport now d n =
      elim (Bool-cases (acknowledges (transport (message E X o t x)) x.message_id)) [
        | inl e ↦ rw e (
            moved (still (d.0)) (
              operation_moved (d.0) operation_id o _ n
                (refl, refl, refl, refl, refl, refl, refl, refl)))
        | inr e ↦ rw e (
            moved (still (d.0)) (
              operation_moved (d.0) operation_id o _ n
                (refl, refl, refl, refl, refl, refl, refl, refl)))
      ]

  pub deliver_moves :
      (operation_id message_id owner : String) (transport : Transport) (now : ℕ)
      (d d' : Core × X.State) (x : Sent)
      → deliver E X operation_id message_id owner transport now d ≡ ok (x, d')
      → Moves (d.0) (d'.0)
  unfolding deliver
  deliver_moves operation_id message_id owner transport now d d' x h =
      elim (Option-cases (get (d.0.operations) operation_id)) [
        | inl n ↦ ground arith
        | inr (o, n) ↦ elim (Outcome-cases (task_of (d.0) o.task_id owner)) [
          | inr (f, i) ↦ ground arith
          | inl (t, i) ↦ elim (Option-cases (find message_id o.deliveries)) [
            | inl j ↦ ground arith
            | inr (y, j) ↦ elim (Bool-cases (is_delivered y)) [
              | inl e ↦ ends d d' (ground arith) (still (d.0))
              | inr e ↦ elim (Bool-cases (is_current_task E X now o t d)) [
                | inr f ↦ ends d d' (ground arith) (still (d.0))
                | inl f ↦ elim (Bool-cases (X.can_send_to y.recipient_urn owner (d.0) (d.1))) [
                  | inr g ↦ ends d d' (ground arith) (still (d.0))
                  | inl g ↦
                      ends ((submit E X operation_id o t y transport now d).1) d' (ground arith)
                        (submit_moves operation_id o t y transport now d n)
                ]
              ]
            ]
          ]
        ]
      ]

  send_all_moves :
      (operation_id owner : String) (transport : Transport) (now : ℕ → ℕ) (xs : List Delivery)
      (sent : List Message) (d : Core × X.State)
      → Moves (d.0) ((send_all E X operation_id owner transport now xs sent d).2.0)
  unfolding send_all
  send_all_moves operation_id owner transport now [] sent d = still (d.0)
  send_all_moves operation_id owner transport now (x ∷ xs) sent d =
      go (deliver E X operation_id x.message_id owner transport (now 0) d) refl
        (send_all_moves operation_id owner transport (λ n. now (suc n)) xs)
    where
      go :
          (o : Outcome (Sent × (Core × X.State)))
          → deliver E X operation_id x.message_id owner transport (now 0) d ≡ o
          → ((sent' : List Message) (d1 : Core × X.State)
              → Moves
                  (d1.0)
                  ((send_all E X operation_id owner transport (λ n. now (suc n)) xs sent' d1).2.0))
          → Moves (d.0) ((send_all E X operation_id owner transport now (x ∷ xs) sent d).2.0)
      go (raised f) e ih = rw (e, send_all) (still (d.0))
      go (ok (skipped, d1)) e ih =
          rw (e, send_all)
            (then (deliver_moves operation_id x.message_id owner transport (now 0) d d1 skipped e)
              (ih sent d1))
      go (ok (blocked cause ds, d1)) e ih =
          rw (e, send_all)
            (deliver_moves operation_id x.message_id owner transport (now 0) d d1 (blocked cause ds)
              e)
      go (ok (attempted m, d1)) e ih =
          rw (e, send_all)
            (then
              (deliver_moves operation_id x.message_id owner transport (now 0) d d1 (attempted m) e)
              (ih (sent ++ m ∷ []) d1))

  last_view_moves :
      (operation_id : String) (now : ℕ) (c : Core)
      (r : Outcome (Option Reply) × List Message × (Core × X.State))
      → Moves c (r.2.0)
      → Moves c ((last_view E X operation_id now r).2.0)
  unfolding last_view
  last_view_moves operation_id now c (raised e, sent, d) ms = ms
  last_view_moves operation_id now c (ok (some r), sent, d) ms = ms
  last_view_moves operation_id now c (ok none, sent, d) ms =
      elim (Option-cases (get (d.0.operations) operation_id)) [
        | inl e ↦ rw (e, last_view) ms
        | inr (o, e) ↦ rw (e, last_view) ms
      ]

  module _ (dispatch_v2 : String → String → Transport → Core × X.State → Run E X) where
    pub dispatch_moves :
        (operation_id owner : String) (transport : Transport) (now : ℕ → ℕ) (last : ℕ)
        (d : Core × X.State)
        → X.is_v2_operation operation_id (d.1) ≡ false
        → IsSound (d.0)
        → Moves (d.0) ((dispatch E X dispatch_v2 operation_id owner transport now last d).2.0)
    unfolding dispatch
    dispatch_moves operation_id owner transport now last d v1 s =
        elim (Outcome-cases (reserve E X operation_id owner (now 0) d)) [
          | inr (f, e) ↦ rw (v1, e, dispatch) (still (d.0))
          | inl ((finished r, d1), e) ↦
              rw (v1, e, dispatch)
                (reserve_moves E X operation_id owner (now 0) d d1 (finished r) s e)
          | inl ((reserved o, d1), e) ↦
              rw (v1, e, dispatch)
                (last_view_moves operation_id last (d.0)
                  (send_all E X operation_id owner transport (λ n. now (suc n)) (batch o.deliveries)
                    [] d1)
                  (then (reserve_moves E X operation_id owner (now 0) d d1 (reserved o) s e) (
                    send_all_moves operation_id owner transport (λ n. now (suc n))
                      (batch o.deliveries) [] d1)))
        ]
