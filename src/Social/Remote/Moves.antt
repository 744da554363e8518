-- ===== src/Social/Remote/Moves.antt =====
-- What the mixins' methods of `remote_mutation` write of the rows of store.py, against its
-- specification.
use agent_comm.Prelude.{ℕ, String, true, false, ◌<>◌, ◌≡◌, subst, inl, inr, arith, same, Bool-cases}
use agent_comm.Json.{Json, Fields, lookup}
use agent_comm.Remote.State.{ok, value_error}
use agent_comm.Remote.Parse.{text_of, required}
use agent_comm.Remote.Handle.Answer.{Outcome-cases}
use agent_comm.Store.State.{Env}
use agent_comm.Store.Spec.{Moves, still}
use agent_comm.Store.Spec.Sound.{IsSound}
use agent_comm.Social.State.{Neighbours}
use agent_comm.Social.Outbox.{send_message}
use agent_comm.Social.Inbox.{mark_message}
use agent_comm.Social.Respond.{respond_contact}
use agent_comm.Social.Respond.Rows.{mark_message_core, respond_contact_core}
use agent_comm.Social.Block.{set_peer_block}
use agent_comm.Social.Block.Rows.{set_peer_block_core}
use agent_comm.Social.Mixin.{Others}
use agent_comm.Social.Remote.{
  Place, respond_method, block_method, review_method, send_method, read_method, mixin_method,
}

module _ (E : Env) (N : Neighbours) (O : Others N) where
  respond_method_moves :
      (params : Fields) (owner : String) (now : ℕ) (d d' : Place E N O) (v : Json)
      → respond_method E N O params owner now d ≡ ok (v, d')
      → Moves (d.0) (d'.0)
  unfolding respond_method
  respond_method_moves params owner now (c, (s, σ)) d' v h =
      elim (Outcome-cases (respond_contact E N params owner now (c, s, σ))) [
        | inr (f, e) ↦ ground arith
        | inl ((r, d1), e) ↦
            let k : d1.0 ≡ d'.0 = ground arith in
            subst (Moves c) k (respond_contact_core E N params owner now (c, s, σ) d1 r e)
      ]

  block_method_moves :
      (value : _) (params : Fields) (owner : String) (now : ℕ) (d d' : Place E N O) (v : Json)
      → IsSound (d.0)
      → block_method E N O value params owner now d ≡ ok (v, d')
      → Moves (d.0) (d'.0)
  unfolding block_method
  block_method_moves value params owner now (c, (s, σ)) d' v sound h =
      elim (Outcome-cases (set_peer_block E N (lookup "urn" params) value owner now (c, s, σ))) [
        | inr (f, e) ↦ ground arith
        | inl ((r, d1), e) ↦
            let k : d1.0 ≡ d'.0 = ground arith in
            subst (Moves c) k
              (set_peer_block_core E N (lookup "urn" params) value owner now (c, s, σ) d1 r sound e)
      ]

  review_method_moves :
      (params : Fields) (owner : String) (now : ℕ) (d d' : Place E N O) (v : Json)
      → review_method E N O params owner now d ≡ ok (v, d')
      → Moves (d.0) (d'.0)
  unfolding review_method
  review_method_moves params owner now (c, (s, σ)) d' v h =
      elim (Outcome-cases
        (O.review (lookup "message_id" params) (lookup "decision" params) owner now c s σ)) [
          | inr (f, e) ↦ ground arith
          | inl (r, e) ↦ let k : c ≡ d'.0 = ground arith in subst (Moves c) k (still c)
        ]

  send_method_moves :
      (params : Fields) (owner : String) (now : ℕ) (d d' : Place E N O) (v : Json)
      → send_method E N O params owner now d ≡ ok (v, d')
      → Moves (d.0) (d'.0)
  unfolding send_method
  send_method_moves params owner now (c, (s, σ)) d' v h =
      elim (Outcome-cases (send_message E params ("message-" <> (N.token σ).0) owner now c s)) [
        | inr (f, e) ↦ ground arith
        | inl (r, e) ↦ let k : c ≡ d'.0 = ground arith in subst (Moves c) k (still c)
      ]

  read_method_moves :
      (params : Fields) (owner : String) (now : ℕ) (d d' : Place E N O) (v : Json)
      → read_method E N O params owner now d ≡ ok (v, d')
      → Moves (d.0) (d'.0)
  unfolding read_method
  read_method_moves params owner now (c, (s, σ)) d' v h =
      elim (Outcome-cases (
        required (text_of (lookup "message_id" params))
          (value_error "message_id must contain 1–128 ASCII letters, digits, ., _, : or -"))) [
            | inr (f, e) ↦ ground arith
            | inl (id, e) ↦ elim (Outcome-cases (mark_message E N id owner now (c, s, σ))) [
              | inr (f, i) ↦ ground arith
              | inl ((m, d1), i) ↦
                  let j = mark_message_core E N id owner now (c, s, σ) d1 m i in
                  let k : c ≡ d'.0 = ground arith in subst (Moves c) k (still c)
            ]
          ]

  pub mixin_method_moves :
      (method : String) (params : Fields) (owner : String) (now : ℕ) (d d' : Place E N O) (v : Json)
      → IsSound (d.0)
      → mixin_method E N O method params owner now d ≡ ok (v, d')
      → Moves (d.0) (d'.0)
  unfolding mixin_method
  mixin_method_moves method params owner now d d' v sound h =
      elim (Bool-cases (same method "contacts.respond")) [
        | inl a ↦ respond_method_moves params owner now d d' v (ground arith)
        | inr a ↦ elim (Bool-cases (same method "contacts.block")) [
          | inl b ↦ block_method_moves true params owner now d d' v sound (ground arith)
          | inr b ↦ elim (Bool-cases (same method "contacts.unblock")) [
            | inl c ↦ block_method_moves false params owner now d d' v sound (ground arith)
            | inr c ↦ elim (Bool-cases (same method "inbox.review")) [
              | inl e ↦ review_method_moves params owner now d d' v (ground arith)
              | inr e ↦ elim (Bool-cases (same method "messages.send")) [
                | inl f ↦ send_method_moves params owner now d d' v (ground arith)
                | inr f ↦ read_method_moves params owner now d d' v (ground arith)
              ]
            ]
          ]
        ]
      ]
