-- ===== src/Store/Once/Moves.antt =====
-- `remote_mutation` and `execute_owner_once` (store.py) act by the specification.
use agent_comm.Prelude.{
  ℕ, String, none, some, ◌≡◌, ◌∙◌, ap, arith, inl, inr, Option-cases, Bool-cases, subst, same,
}
use agent_comm.Json.{Json, Fields}
use agent_comm.Table.{get, put}
use agent_comm.Remote.State.{Outcome, ok}
use agent_comm.Remote.Handle.Answer.{Outcome-cases}
use agent_comm.Store.State.{Env, Mutation, OwnerAction, Core, Mixins}
use agent_comm.Store.Records.{principal}
use agent_comm.Store.Respond.Moves.{respond_approval_moves, add_contact_moves}
use agent_comm.Store.Once.{Claimed, perform, remote_mutation, claim_action, complete_action}
use agent_comm.Store.Spec.{Moves}
use agent_comm.Store.Spec.Sound.{IsSound}
use agent_comm.Store.Spec.Acts.{Act, Acts, moves, recorded, done, acted, Moves-receipts}

module _ (E : Env) (X : Mixins) where
  module _
      (others : String → Fields → String → ℕ → Core × X.State → Outcome (Json × (Core × X.State)))
      (others_moves : (method : String) (params : Fields) (owner : String) (now : ℕ)
          (d d' : Core × X.State) (r : Json)
        → IsSound (d.0)
        → others method params owner now d ≡ ok (r, d')
        → Moves (d.0) (d'.0)) where
    perform_moves :
        (method : String) (params : Fields) (owner : String) (now : ℕ) (d d' : Core × X.State)
        (r : Json)
        → IsSound (d.0)
        → perform E X others method params owner now d ≡ ok (r, d')
        → Moves (d.0) (d'.0)
    unfolding perform
    perform_moves method params owner now d d' r s h =
        elim (Bool-cases (same method "contacts.add")) [
          | inl e ↦ add_contact_moves E X params owner now d d' r s (ground arith)
          | inr e ↦ elim (Bool-cases (same method "approval.respond")) [
            | inl f ↦ respond_approval_moves E X params owner now d d' r s (ground arith)
            | inr f ↦ others_moves method params owner now d d' r s (ground arith)
          ]
        ]

    pub remote_mutation-Acts :
        (method : String) (params : Fields) (owner request_key fingerprint : String)
        (valid_until now : ℕ) (d d' : Core × X.State) (r : Json)
        → IsSound (d.0)
        → remote_mutation E X others method params owner request_key fingerprint valid_until now d
          ≡ ok (r, d')
        → Acts (d.0) (d'.0)
    unfolding remote_mutation
    remote_mutation-Acts method params owner request_key fingerprint valid_until now d d' r s h =
        elim (Option-cases (get (d.0.mutations) request_key)) [
          | inr (old, n) ↦ let k : d.0 ≡ d'.0 = ground arith in subst (Acts (d.0)) k (done (d.0))
          | inl n ↦ elim (Outcome-cases (perform E X others method params owner now d)) [
            | inr (f, e) ↦ ground arith
            | inl ((q, d1), e) ↦
                let ms = perform_moves method params owner now d d1 q s e in
                let m : Mutation = record {
                  fingerprint = fingerprint;
                  owner_id = principal owner;
                  result = q;
                } in
                let k : record (d1.0) { mutations = put request_key m (d1.0.mutations) } ≡ d'.0 =
                  ground arith in
                subst (Acts (d.0)) k (
                  acted (acted (done (d.0)) (moves ms)) (
                    recorded (d1.0) request_key m
                      (ap (λ t. get t request_key) (Moves-receipts ms).0 ∙ n)))
          ]
        ]

  pub claim_action-Acts :
      (owner request_key fingerprint : String) (valid_until now : ℕ) (d d' : Core × X.State)
      (x : Claimed)
      → claim_action X owner request_key fingerprint valid_until now d ≡ ok (x, d')
      → Acts (d.0) (d'.0)
  unfolding claim_action
  claim_action-Acts owner request_key fingerprint valid_until now d d' x h =
      elim (Option-cases (get (d.0.owner_actions) request_key)) [
        | inr (old, n) ↦ let k : d.0 ≡ d'.0 = ground arith in subst (Acts (d.0)) k (done (d.0))
        | inl n ↦
            let a : OwnerAction = record {
              owner_id = principal owner;
              fingerprint = fingerprint;
              created_at = now;
              result = none;
            } in
            let k : record (d.0) { owner_actions = put request_key a (d.0.owner_actions) } ≡ d'.0 =
              ground arith in
            subst (Acts (d.0)) k (acted (done (d.0)) (Act.claimed (d.0) request_key a n))
      ]

  pub complete_action-Acts :
      (request_key : String) (a : OwnerAction) (v : Json) (d : Core × X.State)
      → get (d.0.owner_actions) request_key ≡ some a
      → a.result ≡ none
      → Acts (d.0) ((complete_action X request_key a v d).0)
  unfolding complete_action
  complete_action-Acts request_key a v d n e =
      acted (done (d.0)) (Act.completed (d.0) request_key a v n e)
