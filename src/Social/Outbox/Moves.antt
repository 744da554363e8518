-- ===== src/Social/Outbox/Moves.antt =====
-- The operations of the outbox (social.py) make moves of the specification.
use agent_comm.Prelude.{
  ℕ, String, false, not, Option, none, [], ◌∷◌, ◌<>◌, ◌≡◌, refl, arith, inl, inr, filter, same,
  Bool-cases, Option-cases, List-cases, ◌||◌,
}
use agent_comm.Json.{Fields}
use agent_comm.Table.{get, put}
use agent_comm.Remote.State.{ok}
use agent_comm.Remote.Handle.Answer.{Outcome-cases}
use agent_comm.Store.State.{Env, Contact, Core}
use agent_comm.Store.Records.{principal}
use agent_comm.Store.Requests.{is_local}
use agent_comm.Social.State.{ContactRequest, Letter, queued, delivered, Outgoing, Social}
use agent_comm.Social.Peers.{key, peer_blocked, requests_to, is_offline}
use agent_comm.Social.Outbox.{
  same_letter, is_settled, is_pursued, is_sendable, is_crash, is_unreachable, accepts, Answer, Turn,
  queue_social, request_letter, new_request, start_request, request_contact, message_values,
  send_message, hand_over, submit_one,
}
use agent_comm.Social.Spec.{
  Moves, still, one, then, ends, request_made, letter_queued, letter_settled,
}

unsettled : (o : Outgoing) → is_settled o.status ≡ false → o.status ≡ queued
unsettled o h = ground arith

module _ (E : Env) {may_lift : String → Type 0} where
  pub queue_social_moves :
      (m : Letter) (owner : String) (now : ℕ) (s s' : Social) (o : Outgoing)
      → queue_social E m owner now s ≡ ok (o, s')
      → Moves may_lift s s'
  unfolding queue_social
  queue_social_moves m owner now s s' o h = elim (Option-cases (get s.inbound m.message_id)) [
    | inr (i, e) ↦ ground arith
    | inl e ↦ elim (Option-cases (get s.outbox m.message_id)) [
      | inr (old, f) ↦
          elim (Bool-cases (not (same_letter old.letter m) || not (same old.owner_id owner))) [
            | inl g ↦ ground arith
            | inr g ↦ ends s' (ground arith) (still s)
          ]
      | inl f ↦ ends s' (ground arith) (
          one (
            letter_queued s m.message_id
              (record {
                message_id = m.message_id;
                owner_id = owner;
                letter = m;
                status = queued;
                created_at = now;
                updated_at = now;
              })
              f refl))
    ]
  ]

  start_request_moves :
      (id : String) (x : Contact) (now : ℕ) (s s' : Social) (r : Option ContactRequest)
      → get s.requests id ≡ none
      → start_request E id x now s ≡ ok (r, s')
      → Moves may_lift s s'
  unfolding start_request new_request
  start_request_moves id x now s s' r fresh h =
      let s1 = record s { requests = put id (new_request E id x now s) s.requests } in
      elim (Outcome-cases (queue_social E (request_letter E id x.urn) x.owner_id now s1)) [
        | inr (f, e) ↦ ground arith
        | inl ((o, s2), e) ↦ ends s' (ground arith) (
            then (one (request_made s id (new_request E id x now s) fresh refl refl))
              (queue_social_moves (request_letter E id x.urn) x.owner_id now s1 s2 o e))
      ]

  -- The token is fresh: no request has its identifier.
  pub request_contact_moves :
      (x : Contact) (token : String) (now : ℕ) (s s' : Social) (r : Option ContactRequest)
      → get s.requests ("friend-" <> token) ≡ none
      → request_contact E x token now s ≡ ok (r, s')
      → Moves may_lift s s'
  unfolding request_contact
  request_contact_moves x token now s s' r fresh h =
      elim (Bool-cases (peer_blocked E x.urn x.owner_id s)) [
        | inl e ↦ ground arith
        | inr e ↦ elim (Bool-cases (is_offline E)) [
          | inl f ↦ ends s' (ground arith) (still s)
          | inr f ↦ elim (Bool-cases (is_local E E.local_urn x.urn)) [
            | inl g ↦ ground arith
            | inr g ↦ elim (Option-cases (get s.connections (key E (x.owner_id ∷ x.urn ∷ [])))) [
              | inr (c, i) ↦ ends s' (ground arith) (still s)
              | inl i ↦
                  elim (List-cases
                    (filter (λ r. is_pursued r.status) (requests_to x.owner_id x.urn s))) [
                      | inr (q, qs, k) ↦ ends s' (ground arith) (still s)
                      | inl k ↦
                          let j : start_request E ("friend-" <> token) x now s ≡ ok (r, s') =
                            ground arith in
                          start_request_moves ("friend-" <> token) x now s s' r fresh j
                    ]
            ]
          ]
        ]
      ]

  pub send_message_moves :
      (params : Fields) (fresh owner : String) (now : ℕ) (c : Core) (s s' : Social) (o : Outgoing)
      → send_message E params fresh owner now c s ≡ ok (o, s')
      → Moves may_lift s s'
  unfolding send_message
  send_message_moves params fresh owner now c s s' o h =
      elim (Outcome-cases (message_values E params fresh owner c s)) [
        | inr (f, e) ↦ ground arith
        | inl (m, e) ↦
            let i : queue_social E m (principal owner) now s ≡ ok (o, s') = ground arith in
            queue_social_moves m (principal owner) now s s' o i
      ]

  pub submit_one_moves :
      (r : Outgoing) (transport : Letter → Answer) (now : ℕ) (c : Core) (s s' : Social) (t : Turn E)
      → submit_one E r transport now c s ≡ (t, s')
      → Moves may_lift s s'
  unfolding submit_one hand_over
  submit_one_moves r transport now c s s' t h = elim (Option-cases (get s.outbox r.message_id)) [
    | inl e ↦ ends s' (ground arith) (still s)
    | inr (o, e) ↦ elim (Bool-cases (is_sendable E c s o)) [
      | inr f ↦ ends s' (ground arith) (still s)
      | inl f ↦ elim (Bool-cases (is_crash (transport o.letter))) [
        | inl g ↦ ends s' (ground arith) (still s)
        | inr g ↦ elim (Bool-cases (is_unreachable (transport o.letter))) [
          | inl i ↦ ends s' (ground arith) (still s)
          | inr i ↦ elim (Bool-cases (accepts (transport o.letter) o.message_id)) [
            | inr j ↦ ends s' (ground arith) (still s)
            | inl j ↦
                let k : o.status ≡ queued = unsettled o (ground arith) in
                ends s' (ground arith) (
                  one (
                    letter_settled s r.message_id o
                      (record o { status = delivered; updated_at = now }) e
                      (refl, refl, refl, refl, inl k)))
          ]
        ]
      ]
    ]
  ]
