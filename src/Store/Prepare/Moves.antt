-- ===== src/Store/Prepare/Moves.antt =====
-- `_approval`, `register_resource` and `prepare_contact` (store.py) make moves of the specification.
use agent_comm.Prelude.{
  ◌+◌, ℕ, String, Option, none, some, ◌≡◌, refl, sym, arith, ◌⊎◌, inl, inr, Option-cases, subst,
}
use agent_comm.Json.{Json}
use agent_comm.Table.{get, put}
use agent_comm.Remote.State.{Outcome, ok}
use agent_comm.Store.State.{
  Env, Contact, Resource, Approval, Subject, contact_binding, Core, Mixins,
}
use agent_comm.Store.Same.Laws.{same_resource-eq}
use agent_comm.Store.Requests.{contact_value}
use agent_comm.Remote.Handle.Answer.{Outcome-cases}
use agent_comm.Store.Prepare.{
  request_approval, new_approval, approval_id_of, register_resource, prepare_contact,
  contact_question,
}
use agent_comm.Store.Spec.{Moves, ends, still, moved, approval_asked, resource_registered}

module _ (E : Env) (X : Mixins) where
  -- The two results of `_approval`.
  request_approval_cases :
      (subject : Subject) (subject_id owner question : String) (expires_at now : ℕ)
      (d d' : Core × X.State) (a : Approval)
      → request_approval E X subject subject_id owner question expires_at now d ≡ ok (a, d')
      → (d' ≡ d)
        ⊎ ((get (d.0.approvals) (approval_id_of E X subject subject_id owner) ≡ none)
            × (d'.0 ≡ record (d.0) {
              approvals =
                  put
                    (approval_id_of E X subject subject_id owner)
                    (new_approval E X subject subject_id owner question expires_at now)
                    (d.0.approvals);
            }))
  unfolding request_approval new_approval
  request_approval_cases subject subject_id owner question expires_at now d d' a h = ground arith

  pub request_approval_moves :
      (subject : Subject) (subject_id owner question : String) (expires_at now : ℕ)
      (d d' : Core × X.State) (a : Approval)
      → request_approval E X subject subject_id owner question expires_at now d ≡ ok (a, d')
      → Moves (d.0) (d'.0)
  unfolding new_approval
  request_approval_moves subject subject_id owner question expires_at now d d' a h =
      elim (request_approval_cases subject subject_id owner question expires_at now d d' a h) [
        | inl e ↦ subst (λ (x : Core × X.State). Moves (d.0) (x.0)) (sym e) (still (d.0))
        | inr (n, e) ↦
            subst (Moves (d.0)) (sym e) (moved (still (d.0)) (approval_asked (d.0) _ _ n refl refl))
      ]

  -- `_approval` writes no task and no operation.
  pub request_approval_keeps :
      (subject : Subject) (subject_id owner question : String) (expires_at now : ℕ)
      (d d' : Core × X.State) (a : Approval)
      → request_approval E X subject subject_id owner question expires_at now d ≡ ok (a, d')
      → (d'.0.operations ≡ d.0.operations) × (d'.0.tasks ≡ d.0.tasks)
  unfolding request_approval
  request_approval_keeps subject subject_id owner question expires_at now d d' a h = ground arith

  register_resource_cases :
      (resource_id title text owner : String) (provenance : Option Json) (d d' : Core × X.State)
      (r : Resource)
      → register_resource E X resource_id title text owner provenance d ≡ ok (r, d')
      → ((get (d.0.resources) resource_id ≡ none) ⊎ (get (d.0.resources) resource_id ≡ some r))
        × (d'.0 ≡ record (d.0) { resources = put resource_id r (d.0.resources) })
  unfolding register_resource
  register_resource_cases resource_id title text owner provenance d d' r h =
      elim (Option-cases (get (d.0.resources) resource_id)) [
        | inl e ↦ (inl e, ground arith)
        | inr (s, e) ↦ (ground (arith, same_resource-eq s r), ground arith)
      ]

  pub register_resource_moves :
      (resource_id title text owner : String) (provenance : Option Json) (d d' : Core × X.State)
      (r : Resource)
      → register_resource E X resource_id title text owner provenance d ≡ ok (r, d')
      → Moves (d.0) (d'.0)
  register_resource_moves resource_id title text owner provenance d d' r h =
      let (i, e) = register_resource_cases resource_id title text owner provenance d d' r h in
      subst (Moves (d.0)) (sym e) (moved (still (d.0)) (resource_registered (d.0) resource_id r i))

  -- What `_prepare_existing_contact` of social.py may do: it asks for an approval, or a request is
  -- there already.
  module _
      (existing : Contact → String → Core × X.State → Outcome (Option Approval × (Core × X.State)))
      (existing_moves : (x : Contact) (owner : String) (d d' : Core × X.State) (a : Option Approval)
        → existing x owner d ≡ ok (a, d')
        → Moves (d.0) (d'.0)) where
    pub prepare_contact_moves :
        (id aliases urn : Option Json) (owner : String) (now : ℕ) (d d' : Core × X.State)
        (a : Option Approval)
        → prepare_contact E X existing id aliases urn owner now d ≡ ok (a, d')
        → Moves (d.0) (d'.0)
    unfolding prepare_contact
    prepare_contact_moves id aliases urn owner now d d' a h =
        elim (Outcome-cases (contact_value E id aliases urn owner)) [
          | inr (f, e) ↦ ground arith
          | inl (x, e) ↦ elim (Option-cases (get (d.0.contacts) x.contact_id)) [
            | inr (old, g) ↦ existing_moves old owner d d' a (ground arith)
            | inl g ↦
                elim (Outcome-cases (
                  request_approval E X (contact_binding x) x.contact_id owner
                    (contact_question E X x) (now + 900000000) now d)) [
                      | inl ((b, d1), i) ↦ ends d1 d' (ground arith) (
                          request_approval_moves (contact_binding x) x.contact_id owner
                            (contact_question E X x) (now + 900000000) now d d1 b i)
                      | inr (f, i) ↦ ground arith
                    ]
          ]
        ]
