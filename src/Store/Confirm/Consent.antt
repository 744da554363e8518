-- ===== src/Store/Confirm/Consent.antt =====
-- When the native confirmation of store.py grants what was asked for.
use agent_comm.Prelude.{
  ◌⊎◌, ℕ, ◌+◌, ◌<◌, min, String, true, false, not, ◌||◌, Option, some, ◌≡◌, ◌≢◌, ◌↔◌, refl, arith,
  inl, inr, Option-cases, Bool-cases, subst, leb, same, same_iff, same_refl,
}
use agent_comm.Json.{str}
use agent_comm.Table.{get, put}
use agent_comm.Table.Laws.{get-put_self}
use agent_comm.Remote.State.{ok}
use agent_comm.Remote.Handle.Answer.{Outcome-cases}
use agent_comm.Store.State.{
  Env, Approval, ApprovalStatus, Subject, task_grant, operation_grant, contact_binding, Operation,
  OperationStatus, friend_request, contact_response, direct_message, worker_policy,
  collaboration_v2, Core, Mixins,
}
use agent_comm.Store.Requests.{digest}
use agent_comm.Store.Current.{approval_current, apply_approval, deny_approval}
use agent_comm.Store.Confirm.{
  is_open, is_presenting, is_leased, is_token, Display, Answer, consent, refusal, unclear,
  Resolution, approved_once, unleased, answer_of, begin_confirmation, awaited, resolved, decide,
  finish_confirmation,
}

module _ (E : Env) (X : Mixins) where
  -- The displayed request: its row is displayed to this conversation, its token is given, and the lease,
  -- the deadline and the request itself still stand.
  abbrev pub IsAnswerable : String → String → String → ℕ → Core × X.State → Approval → Type 0
  IsAnswerable approval_id token owner now d a =
      (get (d.0.approvals) approval_id ≡ some a)
      × (a.owner_session ≡ owner)
      × (is_presenting a.status ≡ true)
      × (is_token E X token a ≡ true)
      × (is_leased now a ≡ true)
      × (now < a.expires_at)
      × (approval_current E X (unleased a.status a) now d ≡ true)

  awaited_row :
      (approval_id token owner : String) (c : Core) (a : Approval)
      → awaited E X approval_id token owner c ≡ ok a
      → (get c.approvals approval_id ≡ some a)
        × (a.owner_session ≡ owner)
        × (is_presenting a.status ≡ true)
        × (is_token E X token a ≡ true)
  unfolding awaited
  awaited_row approval_id token owner c a h = elim (Option-cases (get c.approvals approval_id)) [
    | inl n ↦ ground arith
    | inr (b, n) ↦ ground (arith, same_iff b.owner_session owner)
  ]

  decide_approves :
      (approval_id : String) (a : Approval) (answer : Answer) (now : ℕ) (d d' : Core × X.State)
      → decide E X approval_id a answer now d ≡ ok (approved_once, d')
      → (answer ≡ consent)
        × (get (d'.0.approvals) approval_id ≡ some (unleased ApprovalStatus.approved a))
  unfolding decide resolved
  decide_approves approval_id a consent now d d' h =
      elim (Outcome-cases (apply_approval E X (unleased ApprovalStatus.approved a) now d)) [
        | inr (f, e) ↦ ground arith
        | inl (d1, e) ↦
            let b = unleased ApprovalStatus.approved a in
            let k : put approval_id b (d1.0.approvals) ≡ d'.0.approvals = ground arith in
            (
              refl,
              subst (λ t. get t approval_id ≡ some b) k
                  (get-put_self approval_id b (d1.0.approvals)),
            )
      ]
  decide_approves approval_id a refusal now d d' h =
      elim (Outcome-cases (deny_approval E X (unleased ApprovalStatus.denied a) d)) [
        | inr (f, e) ↦ ground arith
        | inl (d1, e) ↦ ground arith
      ]
  decide_approves approval_id a unclear now d d' h = ground arith

  -- A native confirmation grants what was asked for only where the request is displayed to this very
  -- conversation, with the token of this display, before the lease and the deadline end, while the
  -- request is current, and the owner's answer is one of the words of consent; the approval is then
  -- recorded as approved.
  pub approved_needs_consent :
      (approval_id token owner : String) (raw : Option String) (now : ℕ) (d d' : Core × X.State)
      → finish_confirmation E X approval_id token owner raw now d ≡ ok (approved_once, d')
      → (a : Approval) × IsAnswerable approval_id token owner now d a
        × (answer_of E raw ≡ consent)
        × (get (d'.0.approvals) approval_id ≡ some (unleased ApprovalStatus.approved a))
  unfolding finish_confirmation
  approved_needs_consent approval_id token owner raw now d d' h =
      elim (Outcome-cases (awaited E X approval_id token owner (d.0))) [
        | inr (f, e) ↦ ground arith
        | inl (a, e) ↦
            let (n, o, s, t) = awaited_row approval_id token owner (d.0) a e in
            elim (Bool-cases (
              not (is_leased now a)
              || leb a.expires_at now
              || not (approval_current E X (unleased a.status a) now d))) [
                | inl late ↦ ground arith
                | inr timely ↦
                    let (x, y) =
                      decide_approves approval_id a (answer_of E raw) now d d' (ground arith) in
                    (a, (n, o, s, t, ground arith, ground arith, ground arith), x, y)
              ]
      ]

  decide_applies :
      (approval_id : String) (a : Approval) (answer : Answer) (now : ℕ) (d d' : Core × X.State)
      → decide E X approval_id a answer now d ≡ ok (approved_once, d')
      → (d1 : Core × X.State) × (apply_approval E X (unleased ApprovalStatus.approved a) now d
          ≡ ok d1)
        × (d' ≡ resolved E X approval_id (unleased ApprovalStatus.approved a) d1)
  unfolding decide
  decide_applies approval_id a consent now d d' h =
      elim (Outcome-cases (apply_approval E X (unleased ApprovalStatus.approved a) now d)) [
        | inr (f, e) ↦ ground arith
        | inl (d1, e) ↦ (d1, e, ground arith)
      ]
  decide_applies approval_id a refusal now d d' h =
      elim (Outcome-cases (deny_approval E X (unleased ApprovalStatus.denied a) d)) [
        | inr (f, e) ↦ ground arith
        | inl (d1, e) ↦ ground arith
      ]
  decide_applies approval_id a unclear now d d' h = ground arith

  -- What was approved is applied: the row that stands, and then its decision is written.
  pub approved_applies :
      (approval_id token owner : String) (raw : Option String) (now : ℕ) (d d' : Core × X.State)
      → finish_confirmation E X approval_id token owner raw now d ≡ ok (approved_once, d')
      → (a : Approval) × (d1 : Core × X.State) × (get (d.0.approvals) approval_id ≡ some a)
        × (a.owner_session ≡ owner)
        × (apply_approval E X (unleased ApprovalStatus.approved a) now d ≡ ok d1)
        × (d' ≡ resolved E X approval_id (unleased ApprovalStatus.approved a) d1)
  unfolding finish_confirmation
  approved_applies approval_id token owner raw now d d' h =
      elim (Outcome-cases (awaited E X approval_id token owner (d.0))) [
        | inr (f, e) ↦ ground arith
        | inl (a, e) ↦
            let (n, o, s, t) = awaited_row approval_id token owner (d.0) a e in
            elim (Bool-cases (
              not (is_leased now a)
              || leb a.expires_at now
              || not (approval_current E X (unleased a.status a) now d))) [
                | inl late ↦ ground arith
                | inr timely ↦
                    let (d1, x, y) =
                      decide_applies approval_id a (answer_of E raw) now d d' (ground arith) in
                    (a, d1, n, o, x, y)
              ]
      ]

  -- The operations are as before, or one of them was refused.
  abbrev pub Refuses : Core → Core → Type 0
  Refuses c e =
      (e.operations ≡ c.operations)
      ⊎ ((k : String) × (o : Operation) × (get c.operations k ≡ some o)
          × (e.operations
              ≡ put o.operation_id (record o { status = OperationStatus.refused }) c.operations))

  -- What a confirmation that does not grant leaves alone.
  abbrev pub Ungranted : Core → Core → Type 0
  Ungranted c e =
      (e.tasks ≡ c.tasks)
      × (e.contacts ≡ c.contacts)
      × (e.proposals ≡ c.proposals)
      × (e.resources ≡ c.resources)
      × Refuses c e

  deny-Ungranted :
      (a : Approval) (d d' : Core × X.State)
      → deny_approval E X a d ≡ ok d'
      → Ungranted (d.0) (d'.0)
  unfolding deny_approval
  deny-Ungranted a d d' h = go a.subject refl
    where
      go : (u : Subject) → a.subject ≡ u → Ungranted (d.0) (d'.0)
      go (operation_grant hash revision) e =
          elim (Option-cases (get (d.0.operations) a.subject_id)) [
            | inl n ↦ ground arith
            | inr (o, n) ↦ (
              ground arith,
              ground arith,
              ground arith,
              ground arith,
              inr (a.subject_id, o, n, ground arith),
            )
          ]
      go (contact_binding x) e =
          (ground arith, ground arith, ground arith, ground arith, inl (ground arith))
      go (task_grant scope revision) e =
          (ground arith, ground arith, ground arith, ground arith, inl (ground arith))
      go (friend_request v) e =
          (ground arith, ground arith, ground arith, ground arith, inl (ground arith))
      go (contact_response v) e =
          (ground arith, ground arith, ground arith, ground arith, inl (ground arith))
      go (direct_message v) e =
          (ground arith, ground arith, ground arith, ground arith, inl (ground arith))
      go (worker_policy v) e =
          (ground arith, ground arith, ground arith, ground arith, inl (ground arith))
      go (collaboration_v2 v) e =
          (ground arith, ground arith, ground arith, ground arith, inl (ground arith))

  decide-Ungranted :
      (approval_id : String) (a : Approval) (answer : Answer) (now : ℕ) (d d' : Core × X.State)
      (r : Resolution)
      → decide E X approval_id a answer now d ≡ ok (r, d')
      → r ≢ approved_once
      → Ungranted (d.0) (d'.0)
  unfolding decide resolved
  decide-Ungranted approval_id a consent now d d' r h ne =
      elim (Outcome-cases (apply_approval E X (unleased ApprovalStatus.approved a) now d)) [
        | inr (f, e) ↦ ground arith
        | inl (d1, e) ↦ absurd (ne (ground arith))
      ]
  decide-Ungranted approval_id a refusal now d d' r h ne =
      elim (Outcome-cases (deny_approval E X (unleased ApprovalStatus.denied a) d)) [
        | inr (f, e) ↦ ground arith
        | inl (d1, e) ↦
            let (i, j, k, l, m) = deny-Ungranted (unleased ApprovalStatus.denied a) d d1 e in
            (
              ground arith,
              ground arith,
              ground arith,
              ground arith,
              elim m [
                | inl n ↦ inl (ground arith)
                | inr (key, o, n, p) ↦ inr (key, o, n, ground arith)
              ],
            )
      ]
  decide-Ungranted approval_id a unclear now d d' r h ne =
      (ground arith, ground arith, ground arith, ground arith, inl (ground arith))

  -- A native confirmation with any other result grants nothing: it leaves the tasks, the contacts, the
  -- proposals and the resources as they are, and of the operations it may refuse one.
  pub finish_confirmation-Ungranted :
      (approval_id token owner : String) (raw : Option String) (now : ℕ) (d d' : Core × X.State)
      (r : Resolution)
      → finish_confirmation E X approval_id token owner raw now d ≡ ok (r, d')
      → r ≢ approved_once
      → Ungranted (d.0) (d'.0)
  unfolding finish_confirmation
  finish_confirmation-Ungranted approval_id token owner raw now d d' r h ne =
      elim (Outcome-cases (awaited E X approval_id token owner (d.0))) [
        | inr (f, e) ↦ ground arith
        | inl (a, e) ↦
            elim (Bool-cases (
              not (is_leased now a)
              || leb a.expires_at now
              || not (approval_current E X (unleased a.status a) now d))) [
                | inl late ↦
                    (ground arith, ground arith, ground arith, ground arith, inl (ground arith))
                | inr timely ↦
                    decide-Ungranted approval_id a (answer_of E raw) now d d' r (ground arith) ne
              ]
      ]

  -- The row that `begin_confirmation` leaves.
  abbrev pub displayed : String → ℕ → Display → Approval → Approval
  displayed owner now p a = record a {
    status = ApprovalStatus.presenting;
    owner_session = owner;
    expires_at = p.expires_at;
    token_hash = some (digest E (str p.token));
    lease_until = some (min p.expires_at (now + 360000000));
  }

  begun_row :
      (approval_id owner token : String) (now : ℕ) (d d' : Core × X.State) (p : Display)
      → begin_confirmation E X approval_id owner token now d ≡ ok (p, d')
      → (a : Approval) × (get (d'.0.approvals) approval_id ≡ some (displayed owner now p a))
        × (is_open a.status ≡ true)
  unfolding begin_confirmation
  begun_row approval_id owner token now d d' p h =
      elim (Option-cases (get (d.0.approvals) approval_id)) [
        | inl n ↦ ground arith
        | inr (a, n) ↦
            let b = displayed owner now p a in
            let k : put approval_id b (d.0.approvals) ≡ d'.0.approvals = ground arith in
            (
              a,
              subst (λ t. get t approval_id ≡ some b) k
                  (get-put_self approval_id b (d.0.approvals)),
              ground arith,
            )
      ]

  awaited_accepts :
      (approval_id token owner : String) (c : Core) (b : Approval)
      → get c.approvals approval_id ≡ some b
      → same b.owner_session owner ≡ true
      → is_presenting b.status ≡ true
      → is_token E X token b ≡ true
      → awaited E X approval_id token owner c ≡ ok b
  unfolding awaited
  awaited_accepts approval_id token owner c b n o s t = ground arith

  awaited_refuses :
      (approval_id token owner : String) (c : Core) (b : Approval)
      → get c.approvals approval_id ≡ some b
      → is_token E X token b ≡ false
      → awaited E X approval_id token owner c ≢ ok b
  unfolding awaited
  awaited_refuses approval_id token owner c b n t e = ground arith

  -- A display that was begun accepts its own token, from the same conversation, and no token with
  -- another digest; and its lease runs until the deadline of the display, but for six minutes at most.
  pub begun_accepts_token :
      (approval_id owner token other : String) (now later : ℕ) (d d' : Core × X.State) (p : Display)
      → begin_confirmation E X approval_id owner token now d ≡ ok (p, d')
      → (b : Approval) × (awaited E X approval_id p.token owner (d'.0) ≡ ok b)
        × ((is_leased later b ≡ true) ↔ (later < min p.expires_at (now + 360000000)))
        × (digest E (str p.token) ≢ digest E (str other)
            → awaited E X approval_id other owner (d'.0) ≢ ok b)
  begun_accepts_token approval_id owner token other now later d d' p h =
      let (a, n, o) = begun_row approval_id owner token now d d' p h in
      let b = displayed owner now p a in
      (
        b,
        awaited_accepts approval_id p.token owner (d'.0) b n (same_refl owner) refl
            (same_refl (digest E (str p.token))),
        ((λ l. ground arith), (λ l. ground arith)),
        λ ne.
            awaited_refuses approval_id other owner (d'.0) b n
              (ground (arith, same_iff (digest E (str p.token)) (digest E (str other)))),
      )
