-- ===== src/Store/Actions/Moves.antt =====
-- `prepare_action` (store.py) makes moves of the specification.
use agent_comm.Prelude.{
  ap, ℕ, ◌+◌, min, String, Bool, true, false, none, List, ◌≡◌, refl, sym, ◌∙◌, arith, inl, inr, ◌⊎◌,
  Option-cases, Bool-cases, subst,
}
use agent_comm.Json.{Json}
use agent_comm.Table.{get, put}
use agent_comm.Policy.Fault.{Check, Fault}
use agent_comm.Policy.Action.{
  Action, Payload, Meeting, share_slots, share_resource, propose_meeting, accept_meeting, send_text,
  validate_action,
}
use agent_comm.Policy.Evaluate.{Decision, allow, ask, clarify, deny, Verdict}
use agent_comm.Remote.State.{ok}
use agent_comm.Remote.Handle.Answer.{Outcome-cases}
use agent_comm.Store.State.{Env, Contact, Task, Operation, operation_grant, Core, Mixins}
use agent_comm.Store.Prepare.{request_approval}
use agent_comm.Store.Prepare.Moves.{request_approval_moves, request_approval_keeps}
use agent_comm.Store.Verdicts.{is_stop, evaluate_current, proposal_key}
use agent_comm.Store.Records.{is_same_owner}
use agent_comm.Store.Tasks.{is_live, task_of}
use agent_comm.Store.Wire.{Reply, Early, answer, go_on, gathered}
use agent_comm.Store.Actions.{
  propose, base_of, ask_operation, operation_question, store_operation, new_operation,
  text_of_action, create, repeat, attempt, prepare_action,
}
use agent_comm.Store.Spec.{Moves, ends, still, moved, then, proposal_written, operation_stored}

pub Ask-cases : (v : Decision) → (v ≡ ask) ⊎ ((v ≡ allow) ⊎ ((v ≡ clarify) ⊎ (v ≡ deny)))
Ask-cases allow = inr (inl refl)
Ask-cases ask = inl refl
Ask-cases clarify = inr (inr (inl refl))
Ask-cases deny = inr (inr (inr refl))

pub Early-cases :
    {A : Type 0} (x : Early A) → ((r : Reply) × (x ≡ answer r)) ⊎ ((a : A) × (x ≡ go_on a))
Early-cases (answer r) = inl (r, refl)
Early-cases (go_on a) = inr (a, refl)

pub Check-cases :
    {A : Type 0} (x : Check A) → ((a : A) × (x ≡ Check.ok a)) ⊎ ((e : Fault) × (x ≡ Check.fault e))
Check-cases (Check.ok a) = inl (a, refl)
Check-cases (Check.fault e) = inr (e, refl)

module _ (E : Env) (X : Mixins) where
  pub ask_operation_moves :
      (question owner : String) (o o' : Operation) (t : Task) (now : ℕ) (d d' : Core × X.State)
      → ask_operation E X question owner o t now d ≡ ok (o', d')
      → Moves (d.0) (d'.0)
        × (o' ≡ record o { approval_id = o'.approval_id })
        × (d'.0.operations ≡ d.0.operations)
  unfolding ask_operation
  ask_operation_moves question owner o o' t now d d' h =
      elim (Outcome-cases (
        request_approval E X (operation_grant o.hash t.revision) o.operation_id owner question
          (min t.scope.expires_at (now + 900000000)) now d)) [
            | inr (f, e) ↦ ground arith
            | inl ((a, d1), e) ↦ (
              ends d1 d' (ground arith) (
                  request_approval_moves E X (operation_grant o.hash t.revision) o.operation_id
                    owner question (min t.scope.expires_at (now + 900000000)) now d d1 a e),
              ground arith,
              ground (
                arith,
                request_approval_keeps E X (operation_grant o.hash t.revision) o.operation_id owner
                    question (min t.scope.expires_at (now + 900000000)) now d d1 a e,
              ),
            )
          ]

  store_operation_moves :
      (o : Operation) (t : Task) (recipients : List Contact) (owner : String) (now : ℕ)
      (d d' : Core × X.State) (r : Reply)
      → get (d.0.operations) o.operation_id ≡ none
      → store_operation E X o t recipients owner now d ≡ ok (r, d')
      → Moves (d.0) (d'.0)
  unfolding store_operation
  store_operation_moves o t recipients owner now d d' r n h = elim (Ask-cases o.verdict.decision) [
    | inr e ↦
        let k : record (d.0) { operations = put o.operation_id o (d.0.operations) } ≡ d'.0 =
          ground arith in
        subst (Moves (d.0)) k (moved (still (d.0)) (operation_stored (d.0) _ o n refl))
    | inl e ↦
        elim (Outcome-cases
          (ask_operation E X (operation_question E X o.action recipients o.text) owner o t now d)) [
            | inr (f, i) ↦ ground arith
            | inl ((o', d1), i) ↦
                let (ms, j, l) =
                  ask_operation_moves (operation_question E X o.action recipients o.text) owner o o'
                    t now d d1 i in
                let k : record (d1.0) { operations = put o.operation_id o' (d1.0.operations) }
                    ≡ d'.0 =
                  ground arith in
                subst (Moves (d.0)) k (
                  moved ms (
                    operation_stored (d1.0) _ o' (ap (λ u. get u o.operation_id) l ∙ n)
                      (ap (λ (q : Operation). q.operation_id) j)))
          ]
  ]

  -- A proposal is written, or nothing is.
  propose_cases :
      (task_id : String) (m : Meeting) (is_acceptance : Bool) (decision : Decision)
      (owner base : String) (d d' : Core × X.State)
      → propose E X task_id m is_acceptance decision owner d ≡ go_on (base, d')
      → (d' ≡ d)
        ⊎ (d'.0 ≡ record (d.0) {
          proposals =
              put
                (proposal_key E X task_id m.proposal_id)
                (record {
                  task_id = task_id;
                  payload = propose_meeting m;
                  source_message_id = none;
                })
                (d.0.proposals);
        })
  unfolding propose
  propose_cases task_id m is_acceptance decision owner base d d' h = ground arith

  propose_moves :
      (task_id : String) (m : Meeting) (is_acceptance : Bool) (decision : Decision)
      (owner base : String) (d d' : Core × X.State)
      → propose E X task_id m is_acceptance decision owner d ≡ go_on (base, d')
      → Moves (d.0) (d'.0) × (d'.0.operations ≡ d.0.operations)
  propose_moves task_id m is_acceptance decision owner base d d' h =
      elim (propose_cases task_id m is_acceptance decision owner base d d' h) [
        | inl e ↦ (ends d d' (sym e) (still (d.0)), ap (λ (x : Core × X.State). x.0.operations) e)
        | inr e ↦ (
          subst (Moves (d.0)) (sym e) (moved (still (d.0)) (proposal_written (d.0) _ _)),
          ap (λ (x : Core). x.operations) e,
        )
      ]

  base_of_moves :
      (t : Task) (a : Action) (decision : Decision) (owner base : String) (d d' : Core × X.State)
      → base_of E X t a decision owner d ≡ go_on (base, d')
      → Moves (d.0) (d'.0) × (d'.0.operations ≡ d.0.operations)
  unfolding base_of
  base_of_moves t a decision owner base d d' h = go a.payload refl
    where
      go : (p : Payload) → a.payload ≡ p → Moves (d.0) (d'.0) × (d'.0.operations ≡ d.0.operations)
      go (propose_meeting m) e =
          propose_moves t.task_id m false decision owner base d d' (ground arith)
      go (accept_meeting m) e =
          propose_moves t.task_id m true decision owner base d d' (ground arith)
      go (share_slots is) e =
          let k : d ≡ d' = ground arith in
          (ends d d' k (still (d.0)), ap (λ (x : Core × X.State). x.0.operations) (sym k))
      go (share_resource id) e =
          let k : d ≡ d' = ground arith in
          (ends d d' k (still (d.0)), ap (λ (x : Core × X.State). x.0.operations) (sym k))
      go (send_text s) e =
          let k : d ≡ d' = ground arith in
          (ends d d' k (still (d.0)), ap (λ (x : Core × X.State). x.0.operations) (sym k))

  create_moves :
      (operation_id : String) (t : Task) (a : Action) (v : Verdict) (owner : String) (now : ℕ)
      (d d' : Core × X.State) (r : Reply)
      → create E X operation_id t a v owner now d ≡ ok (r, d')
      → Moves (d.0) (d'.0)
  unfolding create new_operation
  create_moves operation_id t a v owner now d d' r h = elim (Early-cases (gathered (d.0) owner a)) [
    | inl (q, e) ↦ ends d d' (ground arith) (still (d.0))
    | inr ((xs, wire, rs), e) ↦ elim (Outcome-cases (text_of_action E X a wire rs)) [
      | inr (f, i) ↦ ground arith
      | inl (text, i) ↦ elim (Option-cases (get (d.0.operations) operation_id)) [
        | inr (old, n) ↦ ends d d' (ground arith) (still (d.0))
        | inl n ↦ elim (Early-cases (base_of E X t a v.decision owner d)) [
          | inl (q, j) ↦ ends d d' (ground arith) (still (d.0))
          | inr ((base, d1), j) ↦
              let (ms, l) = base_of_moves t a v.decision owner base d d1 j in
              then ms (
                store_operation_moves
                  (new_operation E X operation_id t a xs rs text wire owner v now base) t xs owner
                  now d1 d' r (ap (λ u. get u operation_id) l ∙ n) (ground arith))
        ]
      ]
    ]
  ]

  repeat_keeps :
      (task_id : String) (old : Operation) (action : Json) (v : Verdict) (now : ℕ)
      (d d' : Core × X.State) (r : Reply)
      → repeat E X task_id old action v now d ≡ ok (r, d')
      → d ≡ d'
  unfolding repeat
  repeat_keeps task_id old action v now d d' r h = ground arith

  attempt_moves :
      (operation_id : String) (t : Task) (action : Json) (v : Verdict) (owner : String) (now : ℕ)
      (d d' : Core × X.State) (r : Reply)
      → attempt E X operation_id t action v owner now d ≡ ok (r, d')
      → Moves (d.0) (d'.0)
  unfolding attempt
  attempt_moves operation_id t action v owner now d d' r h =
      elim (Bool-cases (is_stop v.decision)) [
        | inl e ↦ ends d d' (ground arith) (still (d.0))
        | inr e ↦ elim (Bool-cases (is_live now t)) [
          | inr f ↦ ends d d' (ground arith) (still (d.0))
          | inl f ↦ elim (Check-cases (validate_action action)) [
            | inr (x, g) ↦ ground arith
            | inl (a, g) ↦ create_moves operation_id t a v owner now d d' r (ground arith)
          ]
        ]
      ]

  pub prepare_action_moves :
      (task_id operation_id : String) (action : Json) (owner : String) (now : ℕ)
      (d d' : Core × X.State) (r : Reply)
      → prepare_action E X task_id operation_id action owner now d ≡ ok (r, d')
      → Moves (d.0) (d'.0)
  unfolding prepare_action
  prepare_action_moves task_id operation_id action owner now d d' r h =
      elim (Outcome-cases (task_of (d.0) task_id owner)) [
        | inr (f, e) ↦ ground arith
        | inl (t, e) ↦
            let v : Verdict = evaluate_current E X t action now (d.0) in
            elim (Option-cases (get (d.0.operations) operation_id)) [
              | inl n ↦ attempt_moves operation_id t action v owner now d d' r (ground arith)
              | inr (old, n) ↦ elim (Bool-cases (is_same_owner old.owner_session owner)) [
                | inl s ↦
                    ends d d' (repeat_keeps task_id old action v now d d' r (ground arith))
                      (still (d.0))
                | inr s ↦ attempt_moves operation_id t action v owner now d d' r (ground arith)
              ]
            ]
      ]
