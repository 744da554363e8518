-- ===== src/Social/Ask/Moves.antt =====
-- What social.py asks the owner (`_prepare_existing_contact`, `prepare_contact_response`,
-- `prepare_message`), against the specification of the rows of store.py.
use agent_comm.Prelude.{
  ◌+◌, ◌<>◌, suc, ℕ, String, Option, ◌≡◌, refl, sym, subst, arith, inl, inr, filter, length,
  Bool-cases, Option-cases, List-cases,
}
use agent_comm.Json.{Fields}
use agent_comm.Table.{get}
use agent_comm.Remote.State.{ok}
use agent_comm.Remote.Handle.Answer.{Outcome-cases}
use agent_comm.Store.State.{
  Env, Contact, Approval, Subject, friend_request, contact_response, direct_message,
}
use agent_comm.Store.Prepare.{request_approval, approval_id_of}
use agent_comm.Store.Prepare.Moves.{request_approval_moves}
use agent_comm.Store.Spec.{Moves, still}
use agent_comm.Social.State.{ContactRequest, Neighbours}
use agent_comm.Social.Peers.{
  unverified, pending, connected, declined, blocked, is_waiting, requests_to, contact_status,
  is_offline,
}
use agent_comm.Social.Outbox.{message_values}
use agent_comm.Social.Respond.{response_values}
use agent_comm.Social.Mixin.{Others, mixins}
use agent_comm.Social.Ask.{
  Db, friend_payload, ask_friend, prepare_existing_contact, response_payload, verb_of,
  prepare_contact_response, message_payload, message_question, prepare_message,
}

module _ (E : Env) (N : Neighbours) (O : Others N) where
  -- The rows of store.py move as they may, and those of social.py stay.
  abbrev pub Asks : Db E N O → Db E N O → Type 0
  Asks d d' = Moves (d.0) (d'.0) × (d'.1.0 ≡ d.1.0)

  no_question : (d d' : Db E N O) → d' ≡ d → Asks d d'
  no_question d d' e = subst (Asks d) (sym e) (still (d.0), refl)

  question_asked :
      (subject : Subject) (subject_id owner question : String) (expires_at now : ℕ)
      (d d' : Db E N O) (a : Approval)
      → request_approval E (mixins E N O) subject subject_id owner question expires_at now d
        ≡ ok (a, d')
      → Asks d d'
  unfolding request_approval
  question_asked subject subject_id owner question expires_at now d d' a h = (
    request_approval_moves E (mixins E N O) subject subject_id owner question expires_at now d d' a
        h,
    elim (Option-cases
        (get (d.0.approvals) (approval_id_of E (mixins E N O) subject subject_id owner))) [
          | inr (b, e) ↦ ground arith
          | inl e ↦ ground arith
        ],
  )

  ask_friend-Asks :
      (x : Contact) (owner : String) (now : ℕ) (d d' : Db E N O) (a : Option Approval)
      → ask_friend E N O x owner now d ≡ ok (a, d')
      → Asks d d'
  unfolding ask_friend
  ask_friend-Asks x owner now d d' a h =
      let v =
        friend_request (friend_payload x (suc (length (requests_to x.owner_id x.urn (d.1.0))))) in
      let q = "向 " <> (x.urn <> " 发送好友请求？对方接受后建立连接。") in
      elim (Outcome-cases
        (request_approval E (mixins E N O) v x.contact_id owner q (now + 900000000) now d)) [
          | inr (f, e) ↦ ground arith
          | inl ((b, d1), e) ↦
              subst (Asks d) {x = d1} {y = d'} (ground arith)
                (question_asked v x.contact_id owner q (now + 900000000) now d d1 b e)
        ]

  pub prepare_existing_contact-Asks :
      (now : ℕ) (x : Contact) (owner : String) (d d' : Db E N O) (a : Option Approval)
      → prepare_existing_contact E N O now x owner d ≡ ok (a, d')
      → Asks d d'
  unfolding prepare_existing_contact
  prepare_existing_contact-Asks now x owner d d' a h = elim (Bool-cases (is_offline E)) [
    | inl e ↦ no_question d d' (ground arith)
    | inr e ↦
        elim (contact_status E x (d.1.0)) as (λ v. contact_status E x (d.1.0) ≡ v → Asks d d') [
          | blocked ↦ λ f. ground arith
          | connected ↦ λ f. no_question d d' (ground arith)
          | pending ↦ λ f.
              elim (List-cases
                (filter (λ r. is_waiting r.status) (requests_to x.owner_id x.urn (d.1.0)))) [
                  | inl g ↦ ground arith
                  | inr (r, rs, g) ↦ no_question d d' (ground arith)
                ]
          | unverified ↦ λ f. ask_friend-Asks x owner now d d' a (ground arith)
          | declined ↦ λ f. ask_friend-Asks x owner now d d' a (ground arith)
        ]
          refl
  ]

  pub prepare_contact_response-Asks :
      (params : Fields) (owner : String) (now : ℕ) (d d' : Db E N O) (r : ContactRequest)
      (a : Option Approval)
      → prepare_contact_response E N O params owner now d ≡ ok ((r, a), d')
      → Asks d d'
  unfolding prepare_contact_response
  prepare_contact_response-Asks params owner now d d' r a h =
      elim (Outcome-cases (response_values E N params owner (d.0) (d.1.0))) [
        | inr (f, e) ↦ ground arith
        | inl (v, e) ↦ elim (Bool-cases (is_waiting v.request.status)) [
          | inr g ↦ no_question d d' (ground arith)
          | inl g ↦
              let p = contact_response (response_payload v.request v.status v.contact) in
              let q = verb_of v.status <> ("来自 " <> (v.request.peer_urn <> " 的好友请求？")) in
              elim (Outcome-cases (
                request_approval E (mixins E N O) p v.request.request_id owner q (now + 900000000)
                  now d)) [
                    | inr (f, i) ↦ ground arith
                    | inl ((b, d1), i) ↦ subst (Asks d) {x = d1} {y = d'} (ground arith) (
                        question_asked p v.request.request_id owner q (now + 900000000) now d d1 b
                          i)
                  ]
        ]
      ]

  pub prepare_message-Asks :
      (params : Fields) (fresh owner : String) (now : ℕ) (d d' : Db E N O) (a : Approval)
      → prepare_message E N O params fresh owner now d ≡ ok (a, d')
      → Asks d d'
  unfolding prepare_message
  prepare_message-Asks params fresh owner now d d' a h =
      elim (Outcome-cases (message_values E params fresh owner (d.0) (d.1.0))) [
        | inr (f, e) ↦ ground arith
        | inl (m, e) ↦
            question_asked (direct_message (message_payload m)) m.message_id owner
              (message_question m) (now + 900000000) now d d' a (ground arith)
      ]
