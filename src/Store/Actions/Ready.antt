-- ===== src/Store/Actions/Ready.antt =====
-- An operation that `prepare_action` (store.py) makes ready lies within its mandate.
use agent_comm.Prelude.{
  ℕ, String, true, none, some, List, ◌≡◌, refl, sym, ◌∙◌, ap, arith, inl, inr, Bool-cases, subst,
}
use agent_comm.Json.{Json}
use agent_comm.Table.{get, put}
use agent_comm.Table.Laws.{get-put_self}
use agent_comm.Policy.Action.{Action, validate_action}
use agent_comm.Policy.Evaluate.{Decision, allow, ask, clarify, deny, Verdict}
use agent_comm.Remote.State.{ok}
use agent_comm.Policy.Fault.{Check}
use agent_comm.Remote.Handle.Answer.{Outcome-cases}
use agent_comm.Store.State.{Env, Contact, Task, Operation, OperationStatus, Core, Mixins}
use agent_comm.Store.Tasks.{is_live, task_of}
use agent_comm.Store.Verdicts.{is_stop, evaluate_current}
use agent_comm.Store.Wire.{Reply, gathered}
use agent_comm.Store.Actions.{
  base_of, ask_operation, operation_question, store_operation, new_operation, text_of_action,
  create, attempt, prepare_action,
}
use agent_comm.Store.Actions.Moves.{Ask-cases, Early-cases, Check-cases, ask_operation_moves}

allowed :
    (v : Decision)
    → elim v [ allow ↦ OperationStatus.ready | _ ↦ OperationStatus.awaiting_approval ]
      ≡ OperationStatus.ready
    → v ≡ allow
allowed allow h = refl
allowed ask h = cc
allowed clarify h = cc
allowed deny h = cc

-- The task, its version, the action, the owner and the status.
abbrev SameWork : Operation → Operation → Type 0
SameWork p o =
    (p.status ≡ o.status)
    × (p.task_id ≡ o.task_id)
    × (p.revision ≡ o.revision)
    × (p.action ≡ o.action)
    × (p.owner_session ≡ o.owner_session)

-- The operation carries out the action for the owner, under the task as it stands.
abbrev pub IsWorkOf : Task → Action → String → Operation → Type 0
IsWorkOf t a owner p =
    (p.task_id ≡ t.task_id) × (p.revision ≡ t.revision) × (p.action ≡ a) × (p.owner_session ≡ owner)

module _ (E : Env) (X : Mixins) where
  -- The row that is stored has the status that was decided.
  store_operation_row :
      (o : Operation) (t : Task) (recipients : List Contact) (owner : String) (now : ℕ)
      (d d' : Core × X.State) (r : Reply)
      → store_operation E X o t recipients owner now d ≡ ok (r, d')
      → (p : Operation) × (get (d'.0.operations) o.operation_id ≡ some p) × SameWork p o
  unfolding store_operation
  store_operation_row o t recipients owner now d d' r h = elim (Ask-cases o.verdict.decision) [
    | inr e ↦
        let k : put o.operation_id o (d.0.operations) ≡ d'.0.operations = ground arith in
        (
          o,
          subst (λ u. get u o.operation_id ≡ some o) k
              (get-put_self o.operation_id o (d.0.operations)),
          (refl, refl, refl, refl, refl),
        )
    | inl e ↦
        elim (Outcome-cases
          (ask_operation E X (operation_question E X o.action recipients o.text) owner o t now d)) [
            | inr (f, i) ↦ ground arith
            | inl ((o', d1), i) ↦
                let (ms, j, l) =
                  ask_operation_moves E X (operation_question E X o.action recipients o.text) owner
                    o o' t now d d1 i in
                let k : put o.operation_id o' (d1.0.operations) ≡ d'.0.operations = ground arith in
                (
                  o',
                  subst (λ u. get u o.operation_id ≡ some o') k
                      (get-put_self o.operation_id o' (d1.0.operations)),
                  (
                    ap (λ (q : Operation). q.status) j,
                    ap (λ (q : Operation). q.task_id) j,
                    ap (λ (q : Operation). q.revision) j,
                    ap (λ (q : Operation). q.action) j,
                    ap (λ (q : Operation). q.owner_session) j,
                  ),
                )
          ]
  ]

  create_ready :
      (id : String) (t : Task) (a : Action) (v : Verdict) (owner : String) (now : ℕ)
      (d d' : Core × X.State) (r : Reply) (p : Operation)
      → create E X id t a v owner now d ≡ ok (r, d')
      → get (d.0.operations) id ≡ none
      → get (d'.0.operations) id ≡ some p
      → p.status ≡ OperationStatus.ready
      → (v.decision ≡ allow) × IsWorkOf t a owner p
  unfolding create new_operation
  create_ready id t a v owner now d d' r p h n m s = elim (Early-cases (gathered (d.0) owner a)) [
    | inl (q, e) ↦ ground arith
    | inr ((xs, wire, rs), e) ↦ elim (Outcome-cases (text_of_action E X a wire rs)) [
      | inr (f, i) ↦ ground arith
      | inl (text, i) ↦ elim (Early-cases (base_of E X t a v.decision owner d)) [
        | inl (q, j) ↦ ground arith
        | inr ((base, d1), j) ↦
            let o = new_operation E X id t a xs rs text wire owner v now base in
            let (q, k, l) = store_operation_row o t xs owner now d1 d' r (ground arith) in
            let same_row : p ≡ q = cc in
            (
              allowed v.decision
                  (sym (l.0) ∙ (ap (λ (x : Operation). x.status) (sym same_row) ∙ s)),
              (
                ap (λ (x : Operation). x.task_id) same_row ∙ l.1,
                ap (λ (x : Operation). x.revision) same_row ∙ l.2,
                ap (λ (x : Operation). x.action) same_row ∙ l.3,
                ap (λ (x : Operation). x.owner_session) same_row ∙ l.4,
              ),
            )
      ]
    ]
  ]

  attempt_ready :
      (id : String) (t : Task) (action : Json) (v : Verdict) (owner : String) (now : ℕ)
      (d d' : Core × X.State) (r : Reply) (p : Operation)
      → attempt E X id t action v owner now d ≡ ok (r, d')
      → get (d.0.operations) id ≡ none
      → get (d'.0.operations) id ≡ some p
      → p.status ≡ OperationStatus.ready
      → (v.decision ≡ allow)
        × (is_live now t ≡ true)
        × (a : Action) × (validate_action action ≡ Check.ok a)
        × IsWorkOf t a owner p
  unfolding attempt
  attempt_ready id t action v owner now d d' r p h n m s = elim (Bool-cases (is_stop v.decision)) [
    | inl e ↦ ground arith
    | inr e ↦ elim (Bool-cases (is_live now t)) [
      | inr f ↦ ground arith
      | inl f ↦ elim (Check-cases (validate_action action)) [
        | inr (x, g) ↦ ground arith
        | inl (a, g) ↦
            let (i, w) = create_ready id t a v owner now d d' r p (ground arith) n m s in
            (i, f, a, g, w)
      ]
    ]
  ]

  -- An operation that `prepare_action` stores as ready, with no question to the owner, belongs to a
  -- live task of this owner, as the task stands, and carries out the action that was asked for; and the
  -- evaluation of this action against the mandate of the task, with the candidates that were sent
  -- before, allows it.
  pub ready_within_mandate :
      (task_id id : String) (action : Json) (owner : String) (now : ℕ) (d d' : Core × X.State)
      (r : Reply) (p : Operation)
      → prepare_action E X task_id id action owner now d ≡ ok (r, d')
      → get (d.0.operations) id ≡ none
      → get (d'.0.operations) id ≡ some p
      → p.status ≡ OperationStatus.ready
      → (t : Task) × (task_of (d.0) task_id owner ≡ ok t)
        × ((evaluate_current E X t action now (d.0)).decision ≡ allow)
        × (is_live now t ≡ true)
        × (a : Action) × (validate_action action ≡ Check.ok a)
        × IsWorkOf t a owner p
  unfolding prepare_action
  ready_within_mandate task_id id action owner now d d' r p h n m s =
      elim (Outcome-cases (task_of (d.0) task_id owner)) [
        | inr (f, e) ↦ ground arith
        | inl (t, e) ↦
            let v : Verdict = evaluate_current E X t action now (d.0) in
            let (i, j, b, g, w) =
              attempt_ready id t action v owner now d d' r p (ground arith) n m s in
            (t, e, i, j, b, g, w)
      ]
