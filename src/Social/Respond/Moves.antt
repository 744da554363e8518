-- ===== src/Social/Respond/Moves.antt =====
-- The owner's answer to a friend request (social.py) makes moves of the specification.
use agent_comm.Prelude.{
  ℕ, String, true, false, not, ◌||◌, Option, none, some, [], ◌∷◌, ◌≡◌, refl, sym, subst, arith, inl,
  inr, Bool-cases, Option-cases,
}
use agent_comm.Json.{Fields, lookup}
use agent_comm.Table.{get, put}
use agent_comm.Table.Sorted.{get-Each}
use agent_comm.Remote.State.{ok}
use agent_comm.Remote.Parse.{text_of}
use agent_comm.Remote.Handle.Answer.{Outcome-cases}
use agent_comm.Store.State.{Env, Contact, Core}
use agent_comm.Store.Records.{is_owned, check_identifier}
use agent_comm.Social.State.{RequestStatus, waiting, accepted, ContactRequest, Social, Neighbours}
use agent_comm.Social.Peers.{key, is_waiting, is_outgoing, peer_blocked}
use agent_comm.Social.Outbox.{queue_social}
use agent_comm.Social.Outbox.Moves.{queue_social_moves}
use agent_comm.Social.Inbox.{Db, same_status, decision_of, mark_message, friend_attention}
use agent_comm.Social.Inbox.Moves.{status_same, waits, connection_of, mark_message_moves}
use agent_comm.Social.Respond.{
  Response, checked_contact, bind_response, response_values, response_letter, bind_peer,
  answer_request, respond_contact,
}
use agent_comm.Social.Spec.{Moves, still, one, then, ends, request_decided, peer_connected}
use agent_comm.Social.Spec.Sound.{IsSound}

module _ (E : Env) (N : Neighbours) where
  -- The contact is there only in an acceptance.
  abbrev pub BindsAccepted : Response E N → Type 0
  BindsAccepted v = (x : Contact) → v.contact ≡ some x → v.status ≡ accepted

  bind_response_lem :
      (params : Fields) (r : ContactRequest) (status : RequestStatus) (owner : String) (c : Core)
      (v : Response E N)
      → bind_response E N params r status owner c ≡ ok v
      → (v.request ≡ r) × BindsAccepted v
  unfolding bind_response
  bind_response_lem params r status owner c v h = elim (Bool-cases (same_status status accepted)) [
    | inr e ↦ (ground arith, λ x i. ground arith)
    | inl e ↦ elim (Outcome-cases (checked_contact E N params r owner c)) [
      | inr (f, i) ↦ ground arith
      | inl (x, i) ↦
          let a : status ≡ accepted = status_same status accepted e in
          (ground arith, λ y j. ground arith)
    ]
  ]

  -- An answer is about a request to this owner, from a peer that is not blocked.
  pub response_values_lem :
      (params : Fields) (owner : String) (c : Core) (s : Social) (v : Response E N)
      → IsSound s
      → response_values E N params owner c s ≡ ok v
      → (get s.requests v.request.request_id ≡ some v.request)
        × (is_owned v.request.owner_id owner ≡ true)
        × (is_outgoing v.request ≡ false)
        × (peer_blocked E v.request.peer_urn owner s ≡ false)
        × BindsAccepted v
  unfolding response_values
  response_values_lem params owner c s v sound h =
      elim (Option-cases (text_of (lookup "request_id" params))) [
        | inl e ↦ ground arith
        | inr (id, e) ↦ elim (Outcome-cases (check_identifier id "request_id")) [
          | inr (f, i) ↦ ground arith
          | inl (u, i) ↦ elim (Option-cases (get s.requests id)) [
            | inl j ↦ ground arith
            | inr (r, j) ↦ elim (Bool-cases (not (is_owned r.owner_id owner) || is_outgoing r)) [
              | inl k ↦ ground arith
              | inr k ↦ elim (Bool-cases (peer_blocked E r.peer_urn owner s)) [
                | inl l ↦ ground arith
                | inr l ↦
                    elim (Outcome-cases (
                      decision_of (lookup "decision" params)
                        "Contact decision must be accept or reject")) [
                          | inr (f, n) ↦ ground arith
                          | inl (status, n) ↦
                              let w : bind_response E N params r status owner c ≡ ok v =
                                ground arith in
                              let (p, q) = bind_response_lem params r status owner c v w in
                              let key_of : r.request_id ≡ id =
                                get-Each (λ k r. r.request_id ≡ k) s.requests id r sound.requests
                                  j in
                              let row : get s.requests r.request_id ≡ some r =
                                subst (λ u. get s.requests u ≡ some r) (sym key_of) j in
                              (
                                subst (λ x. get s.requests x.request_id ≡ some x) (sym p) row,
                                subst (λ x. is_owned x.owner_id owner ≡ true) (sym p)
                                    (ground arith),
                                subst (λ x. is_outgoing x ≡ false) (sym p) (ground arith),
                                subst (λ x. peer_blocked E x.peer_urn owner s ≡ false) (sym p) l,
                                q,
                              )
                        ]
              ]
            ]
          ]
        ]
      ]

module _ (E : Env) (N : Neighbours) {may_lift : String → Type 0} where
  -- The letter and the read mark that follow the rows of the decision.
  answer_request_moves :
      (r : ContactRequest) (status : RequestStatus) (owner : String) (now : ℕ) (d d' : Db E N)
      (q : ContactRequest) (s : Social)
      → Moves may_lift s (record (d.1) {
        requests = put r.request_id (record r { status = status; updated_at = now }) (d.1.requests);
      })
      → answer_request E N r status owner now d ≡ ok (q, d')
      → Moves may_lift s (d'.1)
  unfolding answer_request
  answer_request_moves r status owner now (c, s0, σ) d' q s ms h =
      let r' : ContactRequest = record r { status = status; updated_at = now } in
      let s1 : Social = record s0 { requests = put r.request_id r' s0.requests } in
      elim (Outcome-cases (queue_social E (response_letter E N r status) r.owner_id now s1)) [
        | inr (f, e) ↦ ground arith
        | inl ((o, s2), e) ↦
            let d2 : Db E N = (c, s2, friend_attention E N r' σ) in
            elim (Outcome-cases (mark_message E N r.request_id owner now d2)) [
              | inr (f, i) ↦ ground arith
              | inl ((m, d3), i) ↦ ends (d'.1) (ground arith) (
                  then ms (
                    then
                      (queue_social_moves E (response_letter E N r status) r.owner_id now s1 s2 o e)
                      (mark_message_moves E N r.request_id owner now d2 d3 m i)))
            ]
      ]

  bound_moves :
      (r : ContactRequest) (status : RequestStatus) (contact : Option Contact) (owner : String)
      (now : ℕ) (d d' : Db E N) (q : ContactRequest)
      → get (d.1.requests) r.request_id ≡ some r
      → r.status ≡ waiting
      → ((x : Contact) → contact ≡ some x → status ≡ accepted)
      → answer_request E N
          ((bind_peer E N r contact now d).0)
          status
          owner
          now
          ((bind_peer E N r contact now d).1)
        ≡ ok (q, d')
      → Moves may_lift (d.1) (d'.1)
  unfolding bind_peer
  bound_moves r status none owner now (c, s, σ) d' q row w binds h =
      answer_request_moves r status owner now (c, s, σ) d' q s
        (one (
          request_decided s r.request_id r (record r { status = status; updated_at = now }) row
            ((refl, refl, refl, refl, refl), inl w)))
        h
  bound_moves r status (some x) owner now (c, s, σ) d' q row w binds h =
      let p : ContactRequest = record r { contact_id = some x.contact_id } in
      let p' : ContactRequest = record p { status = status; updated_at = now } in
      let k = key E (r.owner_id ∷ r.peer_urn ∷ []) in
      answer_request_moves p status owner now ((bind_peer E N r (some x) now (c, s, σ)).1) d' q s
        (one (
          peer_connected s r.request_id k r p' (connection_of r now) row
            ((refl, refl, refl, refl, refl), inl w) (binds x refl) (refl, refl, refl)))
        h

  pub respond_contact_moves :
      (params : Fields) (owner : String) (now : ℕ) (d d' : Db E N) (q : ContactRequest)
      → IsSound (d.1)
      → respond_contact E N params owner now d ≡ ok (q, d')
      → Moves may_lift (d.1) (d'.1)
  unfolding respond_contact bind_peer
  respond_contact_moves params owner now (c, s, σ) d' q sound h =
      elim (Outcome-cases (response_values E N params owner c s)) [
        | inr (f, e) ↦ ground arith
        | inl (v, e) ↦
            let (row, mine, way, free, binds) =
              response_values_lem E N params owner c s v sound e in
            elim (Bool-cases (is_waiting v.request.status)) [
              | inr i ↦ elim (Bool-cases (same_status v.request.status v.status)) [
                | inr j ↦ ground arith
                | inl j ↦ ends (d'.1) (ground arith) (still s)
              ]
              | inl i ↦
                  bound_moves v.request v.status v.contact owner now (c, s, σ) d' q row
                    (waits v.request.status i) binds (ground arith)
            ]
      ]
