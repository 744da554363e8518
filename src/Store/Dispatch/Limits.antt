-- ===== src/Store/Dispatch/Limits.antt =====
-- What `dispatch` (store.py) hands to the transport: how much, and under which conditions.
use agent_comm.Prelude.{
  zero, ℕ, suc, ◌+◌, ◌≤◌, String, true, false, Option, none, some, List, [], ◌∷◌, ◌++◌, ◌≡◌, refl,
  ap, arith, inl, inr, Option-cases, length, take,
}
use agent_comm.Table.{get}
use agent_comm.Remote.State.{Outcome, ok, raised}
use agent_comm.Remote.Handle.Answer.{Outcome-cases}
use agent_comm.Store.State.{Env, Task, TaskStatus, Operation, Delivery, Core, Mixins}
use agent_comm.Store.Tasks.{task_of}
use agent_comm.Store.Verdicts.{is_current_task}
use agent_comm.Store.Wire.{Reply}
use agent_comm.Store.Reserve.{finished, reserved, reserve}
use agent_comm.Store.Reserve.Moves.{is_live-active, task_of_lem, current_live}
use agent_comm.Store.Dispatch.{
  Transport, Message, Sent, skipped, blocked, attempted, is_delivered, find, undelivered, batch,
  message, submit, deliver, send_all, last_view, Run, dispatch,
}

length-snoc {ℓ} : {A : Type ℓ} (xs : List A) (x : A) → length (xs ++ x ∷ []) ≡ suc (length xs)
length-snoc [] x = refl
length-snoc (y ∷ ys) x = ap suc (length-snoc ys x)

length-take-le {ℓ} : {A : Type ℓ} (n : ℕ) (xs : List A) → length (take n xs) ≤ n
length-take-le zero xs = omega arith
length-take-le (suc n) [] = omega arith
length-take-le (suc n) (x ∷ xs) = omega (arith, length-take-le n xs)

module _ (E : Env) (X : Mixins) where
  send_all-le :
      (id owner : String) (transport : Transport) (now : ℕ → ℕ) (xs : List Delivery)
      (sent : List Message) (d : Core × X.State)
      → length ((send_all E X id owner transport now xs sent d).1) ≤ length sent + length xs
  unfolding send_all
  send_all-le id owner transport now [] sent d = omega arith
  send_all-le id owner transport now (x ∷ xs) sent d =
      go (deliver E X id x.message_id owner transport (now 0) d) refl
        (send_all-le id owner transport (λ n. now (suc n)) xs)
    where
      go :
          (o : Outcome (Sent × (Core × X.State)))
          → deliver E X id x.message_id owner transport (now 0) d ≡ o
          → ((sent' : List Message) (d1 : Core × X.State)
              → length ((send_all E X id owner transport (λ n. now (suc n)) xs sent' d1).1)
                ≤ length sent' + length xs)
          → length ((send_all E X id owner transport now (x ∷ xs) sent d).1)
            ≤ length sent + suc (length xs)
      go (raised f) e ih = rw (e, send_all) (omega arith)
      go (ok (skipped, d1)) e ih = rw (e, send_all) (omega (arith, ih sent d1))
      go (ok (blocked cause ds, d1)) e ih = rw (e, send_all) (omega arith)
      go (ok (attempted m, d1)) e ih =
          rw (e, send_all) (omega (arith, ih (sent ++ m ∷ []) d1, length-snoc {0} sent m))

  last_view_sent :
      (id : String) (now : ℕ) (r : Outcome (Option Reply) × List Message × (Core × X.State))
      → (last_view E X id now r).1 ≡ r.1
  unfolding last_view
  last_view_sent id now (raised e, sent, d) = refl
  last_view_sent id now (ok (some r), sent, d) = refl
  last_view_sent id now (ok none, sent, d) = elim (Option-cases (get (d.0.operations) id)) [
    | inl e ↦ rw (e, last_view) refl
    | inr (o, e) ↦ rw (e, last_view) refl
  ]

  -- A reservation leads to a send only where the task of the operation is live.
  reserved_live :
      (id owner : String) (now : ℕ) (d d' : Core × X.State) (o p : Operation)
      → get (d.0.operations) id ≡ some o
      → reserve E X id owner now d ≡ ok (reserved p, d')
      → (t : Task) × (get (d.0.tasks) o.task_id ≡ some t) × (t.status ≡ TaskStatus.active)
  unfolding reserve
  reserved_live id owner now d d' o p n h = elim (Outcome-cases (task_of (d.0) o.task_id owner)) [
    | inr (f, e) ↦ ground arith
    | inl (t, e) ↦ (
      t,
      task_of_lem (d.0) o.task_id owner t e,
      is_live-active now t (current_live E X now o t d (ground arith)),
    )
  ]

  -- A delivery hands a message to the transport only where its operation is there, the task of the
  -- operation is live, in the revision of the operation, and its proposal is current, the recipient may
  -- be sent to, and the helper has not accepted this message before. The message is then the stored
  -- text of the operation, for the recipient and under the identifier of the delivery.
  pub attempted_lem :
      (id message_id owner : String) (transport : Transport) (now : ℕ) (d d' : Core × X.State)
      (m : Message)
      → deliver E X id message_id owner transport now d ≡ ok (attempted m, d')
      → (o : Operation) × (t : Task) × (y : Delivery) × (get (d.0.operations) id ≡ some o)
        × (get (d.0.tasks) o.task_id ≡ some t)
        × (is_current_task E X now o t d ≡ true)
        × (find message_id o.deliveries ≡ some y)
        × (is_delivered y ≡ false)
        × (X.can_send_to y.recipient_urn owner (d.0) (d.1) ≡ true)
        × (m.text ≡ o.wire_text)
        × (m.recipient_urn ≡ y.recipient_urn)
        × (m.message_id ≡ y.message_id)
  unfolding deliver submit message
  attempted_lem id message_id owner transport now d d' m h =
      elim (Option-cases (get (d.0.operations) id)) [
        | inl n ↦ ground arith
        | inr (o, n) ↦ elim (Outcome-cases (task_of (d.0) o.task_id owner)) [
          | inr (f, i) ↦ ground arith
          | inl (t, i) ↦ elim (Option-cases (find message_id o.deliveries)) [
            | inl j ↦ ground arith
            | inr (y, j) ↦ (
              o,
              t,
              y,
              n,
              task_of_lem (d.0) o.task_id owner t i,
              ground arith,
              j,
              ground arith,
              ground arith,
              ground arith,
              ground arith,
              ground arith,
            )
          ]
        ]
      ]

  module _ (dispatch_v2 : String → String → Transport → Core × X.State → Run E X) where
    -- One call of `dispatch` on an operation of this protocol hands at most four messages to the
    -- transport.
    pub dispatch_bounds :
        (id owner : String) (transport : Transport) (now : ℕ → ℕ) (last : ℕ) (d : Core × X.State)
        → X.is_v2_operation id (d.1) ≡ false
        → length ((dispatch E X dispatch_v2 id owner transport now last d).1) ≤ 4
    unfolding dispatch
    dispatch_bounds id owner transport now last d v1 =
        elim (Outcome-cases (reserve E X id owner (now 0) d)) [
          | inr (f, e) ↦ rw (v1, e, dispatch) (omega arith)
          | inl ((finished r, d1), e) ↦ rw (v1, e, dispatch) (omega arith)
          | inl ((reserved o, d1), e) ↦
              rw (v1, e, dispatch)
                (rw
                  (last_view_sent id last
                    (send_all E X id owner transport (λ n. now (suc n)) (batch o.deliveries) [] d1))
                  (omega (
                    arith,
                    send_all-le id owner transport (λ n. now (suc n)) (batch o.deliveries) [] d1,
                    length-take-le {0} 4 (undelivered o.deliveries),
                  )))
        ]

    pub no_live_task :
        (id owner : String) (transport : Transport) (now : ℕ → ℕ) (last : ℕ) (d : Core × X.State)
        (o : Operation) (t : Task)
        → X.is_v2_operation id (d.1) ≡ false
        → get (d.0.operations) id ≡ some o
        → get (d.0.tasks) o.task_id ≡ some t
        → t.status ≡ TaskStatus.revoked
        → (dispatch E X dispatch_v2 id owner transport now last d).1 ≡ []
    unfolding dispatch
    no_live_task id owner transport now last d o t v1 n m r =
        elim (Outcome-cases (reserve E X id owner (now 0) d)) [
          | inr (f, e) ↦ rw (v1, e, dispatch) refl
          | inl ((finished q, d1), e) ↦ rw (v1, e, dispatch) refl
          | inl ((reserved p, d1), e) ↦
              let (u, i, live) = reserved_live id owner (now 0) d d1 o p n e in
              absurd (not_both t u (cc) r live)
        ]
      where
        not_both :
            (t u : Task) → t ≡ u → t.status ≡ TaskStatus.revoked → u.status ≡ TaskStatus.active → ⊥
        not_both t u e f g = cc
