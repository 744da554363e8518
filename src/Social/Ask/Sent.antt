-- ===== src/Social/Ask/Sent.antt =====
-- The approval of a message, from `prepare_message` (social.py) to `_apply_approval` (store.py).
use agent_comm.Prelude.{
  ℕ, String, true, Option, none, some, ◌≡◌, ◌≢◌, refl, sym, ap, ◌∙◌, arith, inl, inr, same_iff,
  Bool-cases, Option-cases, ◌+◌,
}
use agent_comm.Json.{Fields}
use agent_comm.Table.{get}
use agent_comm.Table.Laws.{get-put_self}
use agent_comm.Remote.State.{ok}
use agent_comm.Remote.Handle.Answer.{Outcome-cases}
use agent_comm.Store.State.{Env, Approval, ApprovalStatus, Subject, direct_message, Core}
use agent_comm.Store.Confirm.{approved_once, unleased, resolved, finish_confirmation}
use agent_comm.Store.Confirm.Consent.{approved_applies}
use agent_comm.Store.Spec.Sound.{IsSound, Moves-IsSound}
use agent_comm.Store.Spec.Acts.{Acts-Lasts}
use agent_comm.Store.Steps.{Steps, Steps-Acts}
use agent_comm.Social.Ask.Moves.{prepare_message-Asks}
use agent_comm.Store.Records.{principal}
use agent_comm.Store.Prepare.{request_approval, approval_id_of, new_approval}
use agent_comm.Store.Current.{apply_approval}
use agent_comm.Social.State.{Letter, Outgoing, Social, Neighbours}
use agent_comm.Social.Outbox.{same_option, same_letter, queue_social, message_values}
use agent_comm.Social.Mixin.{Others, mixins, letter_of, apply_message}
use agent_comm.Social.Ask.{Db, message_payload, message_question, prepare_message}

same_option-eq : (x y : Option String) → same_option x y ≡ true → x ≡ y
same_option-eq none none h = refl
same_option-eq (some x) (some y) h = ap some (ground (arith, same_iff x y))
same_option-eq none (some y) h = cc
same_option-eq (some x) none h = cc

same_letter-eq : (x y : Letter) → same_letter x y ≡ true → x ≡ y
unfolding same_letter
same_letter-eq x y h = ground (
  arith,
  same_iff x.message_id y.message_id,
  same_iff x.recipient_urn y.recipient_urn,
  same_iff x.kind y.kind,
  same_option-eq x.conversation_id y.conversation_id,
  same_option-eq x.in_reply_to y.in_reply_to,
  same_iff x.text y.text,
)

module _ (E : Env) where
  -- What is queued is the message that was given, for the owner.
  queue_social_lem :
      (m : Letter) (owner : String) (now : ℕ) (s s' : Social) (o : Outgoing)
      → queue_social E m owner now s ≡ ok (o, s')
      → (get s'.outbox m.message_id ≡ some o) × (o.letter ≡ m) × (o.owner_id ≡ owner)
  unfolding queue_social
  queue_social_lem m owner now s s' o h = elim (Option-cases (get s.inbound m.message_id)) [
    | inr (i, e) ↦ ground arith
    | inl e ↦ elim (Option-cases (get s.outbox m.message_id)) [
      | inr (old, f) ↦ elim (Bool-cases (same_letter old.letter m)) [
        | inr g ↦ ground arith
        | inl g ↦
            let i = same_letter-eq old.letter m g in ground (arith, same_iff old.owner_id owner)
      ]
      | inl f ↦ ground (arith, get-put_self m.message_id o s.outbox)
    ]
  ]

  -- A message of the owner is no part of a conversation.
  message_values_lem :
      (params : Fields) (fresh owner : String) (c : Core) (s : Social) (m : Letter)
      → message_values E params fresh owner c s ≡ ok m
      → (m.conversation_id ≡ none) × (m.in_reply_to ≡ none)
  unfolding message_values
  message_values_lem params fresh owner c s m h = ground arith

-- The payload of an approval gives such a message back.
letter_of-message_payload :
    (m : Letter)
    → m.conversation_id ≡ none
    → m.in_reply_to ≡ none
    → letter_of (message_payload m) ≡ ok m
unfolding message_payload letter_of
letter_of-message_payload m e f = rw (letter_of, message_payload, e, f) refl

module _ (E : Env) (N : Neighbours) (O : Others N) where
  -- `_approval` writes no row of social.py, and a new approval is about what was asked.
  request_approval_lem :
      (subject : Subject) (subject_id owner question : String) (expires_at now : ℕ)
      (d d' : Db E N O) (a : Approval)
      → ((k : String) → get (d.0.approvals) k ≢ some a)
      → request_approval E (mixins E N O) subject subject_id owner question expires_at now d
        ≡ ok (a, d')
      → (d'.1.0 ≡ d.1.0)
        × (a.subject ≡ subject)
        × (a.subject_id ≡ subject_id)
        × (a.question ≡ question)
        × (get (d'.0.approvals) a.approval_id ≡ some a)
  unfolding request_approval new_approval
  request_approval_lem subject subject_id owner question expires_at now d d' a n h =
      elim (Option-cases
        (get (d.0.approvals) (approval_id_of E (mixins E N O) subject subject_id owner))) [
          | inr (b, e) ↦
              let i = n (approval_id_of E (mixins E N O) subject subject_id owner) in ground arith
          | inl e ↦
              let b =
                new_approval E (mixins E N O) subject subject_id owner question expires_at now in
              ground (arith, get-put_self b.approval_id b (d.0.approvals))
        ]

  -- What `prepare_message` asks, and that it writes no row of social.py.
  prepare_message_lem :
      (params : Fields) (fresh owner : String) (now : ℕ) (d d' : Db E N O) (a : Approval)
      → ((k : String) → get (d.0.approvals) k ≢ some a)
      → prepare_message E N O params fresh owner now d ≡ ok (a, d')
      → (d'.1.0 ≡ d.1.0)
        × (m : Letter) × (letter_of (message_payload m) ≡ ok m)
        × (a.subject ≡ direct_message (message_payload m))
        × (a.subject_id ≡ m.message_id)
        × (a.question ≡ message_question m)
        × (get (d'.0.approvals) a.approval_id ≡ some a)
  unfolding prepare_message
  prepare_message_lem params fresh owner now d d' a n h =
      elim (Outcome-cases (message_values E params fresh owner (d.0) (d.1.0))) [
        | inr (f, e) ↦ ground arith
        | inl (m, e) ↦
            let (i, j) = message_values_lem E params fresh owner (d.0) (d.1.0) m e in
            let g : request_approval E (mixins E N O) (direct_message (message_payload m))
                  m.message_id owner (message_question m) (now + 900000000) now d
                ≡ ok (a, d') =
              ground arith in
            let (s, b, x, z, row) =
              request_approval_lem (direct_message (message_payload m)) m.message_id owner
                (message_question m) (now + 900000000) now d d' a n g in
            (s, m, letter_of-message_payload m i j, b, x, z, row)
      ]

  -- The consent to a message queues it.
  apply_approval_lem :
      (a : Approval) (m : Letter) (now : ℕ) (d d' : Db E N O)
      → letter_of (message_payload m) ≡ ok m
      → a.subject ≡ direct_message (message_payload m)
      → apply_approval E (mixins E N O) a now d ≡ ok d'
      → (o : Outgoing) × (get (d'.1.0.outbox) m.message_id ≡ some o)
        × (o.letter ≡ m)
        × (o.owner_id ≡ principal a.owner_session)
  unfolding apply_approval apply_message
  apply_approval_lem a m now d d' e f h =
      elim (Outcome-cases (queue_social E m (principal a.owner_session) now (d.1.0))) [
        | inr (x, g) ↦ ground arith
        | inl ((o, s'), g) ↦
            let (i, j, k) = queue_social_lem E m (principal a.owner_session) now (d.1.0) s' o g in
            (o, ground arith, j, k)
      ]

  -- The record of a decision writes no row of social.py.
  resolved_same :
      (id : String) (a : Approval) (d : Db E N O) → (resolved E (mixins E N O) id a d).1.0 ≡ d.1.0
  unfolding resolved
  resolved_same id a d = refl

  -- Where `prepare_message` asks for a new approval, it writes no row of social.py; and where the owner
  -- confirms this approval at the host after any further run of the store, the outbox has the message
  -- of the question, for the owner who confirmed, under the identifier that the approval names.
  pub asked_is_sent :
      (params : Fields) (fresh owner owner' token : String) (raw : Option String) (now later : ℕ)
      (d d' e e' : Db E N O) (a : Approval)
      → IsSound (d.0)
      → ((k : String) → get (d.0.approvals) k ≢ some a)
      → prepare_message E N O params fresh owner now d ≡ ok (a, d')
      → Steps E N O d' e
      → finish_confirmation E (mixins E N O) a.approval_id token owner' raw later e
        ≡ ok (approved_once, e')
      → (d'.1.0 ≡ d.1.0)
        × (o : Outgoing) × (get (e'.1.0.outbox) a.subject_id ≡ some o)
        × (a.question ≡ message_question o.letter)
        × (o.letter.message_id ≡ a.subject_id)
        × (o.owner_id ≡ principal owner')
  asked_is_sent params fresh owner owner' token raw now later d d' e e' a sound n h run k =
      let (s, m, l, f, g, q, row) = prepare_message_lem params fresh owner now d d' a n h in
      let sound' =
        Moves-IsSound (prepare_message-Asks E N O params fresh owner now d d' a h).0 sound in
      let (b, t, r) = (Acts-Lasts (Steps-Acts E N O run sound').0).approvals a.approval_id a row in
      let (b', e1, t', w, x, y) =
        approved_applies E (mixins E N O) a.approval_id token owner' raw later e e' k in
      let same_row : b' ≡ b = ground arith in
      let subject : b'.subject ≡ direct_message (message_payload m) =
        ap (λ (z : Approval). z.subject) same_row ∙ (r.0.1 ∙ f) in
      let (o, i, j, p) =
        apply_approval_lem (unleased ApprovalStatus.approved b') m later e e1 l subject x in
      let kept : e'.1.0 ≡ e1.1.0 =
        ap (λ (z : Db E N O). z.1.0) y
        ∙ resolved_same a.approval_id (unleased ApprovalStatus.approved b') e1 in
      (
        s,
        o,
        ap (λ z. get z.outbox a.subject_id) kept ∙ (ap (λ z. get (e1.1.0.outbox) z) g ∙ i),
        q ∙ ap message_question (sym j),
        ap (λ (z : Letter). z.message_id) j ∙ sym g,
        p ∙ ap principal w,
      )
