-- ===== src/Store/Steps/Receipts.antt =====
-- Requests run once (store.py): in every run after a request, it is answered from its receipt.
use agent_comm.Prelude.{
  ℕ, ◌<◌, String, some, ◌≡◌, arith, inl, inr, Option-cases, subst, same_iff, same_refl,
}
use agent_comm.Json.{Json, Fields}
use agent_comm.Table.{get, put}
use agent_comm.Table.Laws.{get-put_self}
use agent_comm.Remote.State.{ok}
use agent_comm.Remote.Handle.Answer.{Outcome-cases}
use agent_comm.Store.State.{Env, Mutation}
use agent_comm.Store.Records.{principal}
use agent_comm.Store.Once.{perform, remote_mutation}
use agent_comm.Store.Spec.Sound.{IsSound}
use agent_comm.Store.Spec.Acts.{Acts-Receipts}
use agent_comm.Social.State.{Neighbours}
use agent_comm.Social.Mixin.{Others, mixins}
use agent_comm.Social.Remote.{Place, mixin_method}
use agent_comm.Store.Steps.{Steps, Steps-Acts}

module _ (E : Env) (N : Neighbours) (O : Others N) where
  abbrev receipt : String → String → Json → Mutation
  receipt fingerprint owner r = record {
    fingerprint = fingerprint;
    owner_id = principal owner;
    result = r;
  }

  -- A request that was answered has its receipt.
  mutation_recorded :
      (method : String) (params : Fields) (owner key fingerprint : String) (valid_until now : ℕ)
      (d d' : Place E N O) (r : Json)
      → remote_mutation E
          (mixins E N O)
          (mixin_method E N O)
          method
          params
          owner
          key
          fingerprint
          valid_until
          now
          d
        ≡ ok (r, d')
      → get (d'.0.mutations) key ≡ some (receipt fingerprint owner r)
  unfolding remote_mutation
  mutation_recorded method params owner key fingerprint valid_until now d d' r h =
      elim (Option-cases (get (d.0.mutations) key)) [
        | inr (old, n) ↦
            ground
              (arith, same_iff old.fingerprint fingerprint, same_iff old.owner_id (principal owner))
        | inl n ↦
            elim (Outcome-cases
              (perform E (mixins E N O) (mixin_method E N O) method params owner now d)) [
                | inr (f, e) ↦ ground arith
                | inl ((q, d1), e) ↦
                    let k : put key (receipt fingerprint owner q) (d1.0.mutations)
                        ≡ d'.0.mutations =
                      ground arith in
                    let i : q ≡ r = ground arith in
                    subst (λ t. get t key ≡ some (receipt fingerprint owner r)) k
                      (subst
                        (λ x.
                          get (put key (receipt fingerprint owner q) (d1.0.mutations)) key
                          ≡ some (receipt fingerprint owner x))
                        i (get-put_self key (receipt fingerprint owner q) (d1.0.mutations)))
              ]
      ]

  module _ (method : String) (params : Fields) (owner key fingerprint : String)
      (valid_until now : ℕ) (d d' : Place E N O) (r : Json)
      (answered : remote_mutation E
          (mixins E N O)
          (mixin_method E N O)
          method
          params
          owner
          key
          fingerprint
          valid_until
          now
          d
        ≡ ok (r, d'))
      (sound : IsSound (d'.0)) where
    receipt_lasts :
        (e : Place E N O)
        → Steps E N O d' e
        → get (e.0.mutations) key ≡ some (receipt fingerprint owner r)
    receipt_lasts e run =
        let (m, i, p) =
          (Acts-Receipts (Steps-Acts E N O run sound).0).mutations key (receipt fingerprint owner r)
            (mutation_recorded method params owner key fingerprint valid_until now d d' r
              answered) in
        subst (λ x. get (e.0.mutations) key ≡ some x) p i

    -- A remote request that was answered once gets the same answer again before its deadline, after any
    -- further run of the store, and the database does not change: it is carried out at most once.
    pub mutation_replays :
        (e : Place E N O) (later : ℕ)
        → Steps E N O d' e
        → later < valid_until
        → remote_mutation E
            (mixins E N O)
            (mixin_method E N O)
            method
            params
            owner
            key
            fingerprint
            valid_until
            later
            e
          ≡ ok (r, e)
    unfolding remote_mutation
    mutation_replays e later run h =
        let n = receipt_lasts e run in
        ground (arith, same_refl fingerprint, same_refl (principal owner))
