-- ===== src/Social/Respond/Rows.antt =====
-- What the owner's answer to a friend request (social.py) writes of the rows of store.py,
-- against its specification.
use agent_comm.Prelude.{
  ℕ, String, true, Option, none, some, ◌≡◌, sym, subst, inl, inr, arith, Bool-cases, Option-cases,
}
use agent_comm.Json.{Fields}
use agent_comm.Table.{get, put}
use agent_comm.Remote.State.{ok}
use agent_comm.Remote.Handle.Answer.{Outcome-cases}
use agent_comm.Store.State.{Env, Contact}
use agent_comm.Store.Records.{check_identifier}
use agent_comm.Store.Spec.{Moves, still, moved, contacts_written}
use agent_comm.Social.State.{RequestStatus, ContactRequest, Inbound, Social, Neighbours}
use agent_comm.Social.Peers.{is_waiting}
use agent_comm.Social.Outbox.{queue_social}
use agent_comm.Social.Inbox.{Db, same_status, mark_message, message_visible, friend_attention}
use agent_comm.Social.Respond.{
  response_values, response_letter, bind_peer, answer_request, respond_contact,
}

module _ (E : Env) (N : Neighbours) where
  pub mark_message_core :
      (id owner : String) (now : ℕ) (d d' : Db E N) (m : Inbound)
      → mark_message E N id owner now d ≡ ok (m, d')
      → d'.0 ≡ d.0
  unfolding mark_message
  mark_message_core id owner now d d' m h =
      elim (Outcome-cases (check_identifier id "message_id")) [
        | inr (f, e) ↦ ground arith
        | inl (u, e) ↦ elim (Option-cases (get (d.1.inbound) id)) [
          | inl i ↦ ground arith
          | inr (x, i) ↦ elim (Bool-cases (message_visible E N true x owner d)) [
            | inr j ↦ ground arith
            | inl j ↦ ground arith
          ]
        ]
      ]

  answer_request_core :
      (r : ContactRequest) (status : RequestStatus) (owner : String) (now : ℕ) (d d' : Db E N)
      (q : ContactRequest)
      → answer_request E N r status owner now d ≡ ok (q, d')
      → d'.0 ≡ d.0
  unfolding answer_request
  answer_request_core r status owner now (c, s, σ) d' q h =
      let r' : ContactRequest = record r { status = status; updated_at = now } in
      let s1 : Social = record s { requests = put r.request_id r' s.requests } in
      elim (Outcome-cases (queue_social E (response_letter E N r status) r.owner_id now s1)) [
        | inr (f, e) ↦ ground arith
        | inl ((o, s2), e) ↦
            let d2 : Db E N = (c, s2, friend_attention E N r' σ) in
            elim (Outcome-cases (mark_message E N r.request_id owner now d2)) [
              | inr (f, i) ↦ ground arith
              | inl ((m, d3), i) ↦
                  let k = mark_message_core r.request_id owner now d2 d3 m i in ground arith
            ]
      ]

  bind_peer_moves :
      (r : ContactRequest) (contact : Option Contact) (now : ℕ) (d : Db E N)
      → Moves (d.0) ((bind_peer E N r contact now d).1.0)
  unfolding bind_peer
  bind_peer_moves r none now d = still (d.0)
  bind_peer_moves r (some x) now (c, s, σ) = moved (still c) (contacts_written c _)

  pub respond_contact_core :
      (params : Fields) (owner : String) (now : ℕ) (d d' : Db E N) (q : ContactRequest)
      → respond_contact E N params owner now d ≡ ok (q, d')
      → Moves (d.0) (d'.0)
  unfolding respond_contact
  respond_contact_core params owner now d d' q h =
      elim (Outcome-cases (response_values E N params owner (d.0) (d.1))) [
        | inr (f, e) ↦ ground arith
        | inl (v, e) ↦ elim (Bool-cases (is_waiting v.request.status)) [
          | inr i ↦ elim (Bool-cases (same_status v.request.status v.status)) [
            | inr j ↦ ground arith
            | inl j ↦ let k : d.0 ≡ d'.0 = ground arith in subst (Moves (d.0)) k (still (d.0))
          ]
          | inl i ↦
              let b = bind_peer E N v.request v.contact now d in
              subst (Moves (d.0))
                (sym (answer_request_core (b.0) v.status owner now (b.1) d' q (ground arith)))
                (bind_peer_moves v.request v.contact now d)
        ]
      ]
