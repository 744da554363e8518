-- ===== src/Social/Outbox/Submit.antt =====
-- What the transaction of one record (social.py, `flush_social_outbox`) does.
use agent_comm.Prelude.{
  ℕ, String, true, false, Option, none, some, ◌≡◌, refl, arith, inl, inr, Bool-cases, Option-cases,
}
use agent_comm.Json.{null, bool, int, decimal, str, arr, obj}
use agent_comm.Table.{get, put}
use agent_comm.Store.State.{Env, Core}
use agent_comm.Social.State.{Letter, delivered, Outgoing, Social}
use agent_comm.Social.Outbox.{
  Answer, unreachable, failed, crashed, answered, Turn, passed, broken, stopped, refused, confirmed,
  is_sendable, is_crash, is_unreachable, accepts, hand_over, submit_one,
}

accepted_answer :
    (a : Answer) (id : String)
    → accepts a id ≡ true
    → (is_crash a ≡ false) × (is_unreachable a ≡ false)
unfolding accepts
accepted_answer unreachable id h = cc
accepted_answer failed id h = cc
accepted_answer crashed id h = cc
accepted_answer (answered (obj fs)) id h = (refl, refl)
accepted_answer (answered null) id h = cc
accepted_answer (answered (bool b)) id h = cc
accepted_answer (answered (int n)) id h = cc
accepted_answer (answered (decimal m e)) id h = cc
accepted_answer (answered (str s)) id h = cc
accepted_answer (answered (arr xs)) id h = cc

module _ (E : Env) where
  -- The letter that the transaction of a record hands to the helper.
  abbrev pub letter_of : Turn E → Option Letter
  letter_of passed = none
  letter_of (broken m) = some m
  letter_of (stopped m) = some m
  letter_of (refused m) = some m
  letter_of (confirmed m) = some m

  hand_over_letter :
      (r o : Outgoing) (transport : Letter → Answer) (now : ℕ) (s : Social)
      → letter_of ((hand_over E r o transport now s).0) ≡ some o.letter
  unfolding hand_over
  hand_over_letter r o transport now s = elim (Bool-cases (is_crash (transport o.letter))) [
    | inl g ↦ rw (g, hand_over) refl
    | inr g ↦ elim (Bool-cases (is_unreachable (transport o.letter))) [
      | inl i ↦ rw (g, i, hand_over) refl
      | inr i ↦ elim (Bool-cases (accepts (transport o.letter) o.message_id)) [
        | inl j ↦ rw (g, i, j, hand_over) refl
        | inr j ↦ rw (g, i, j, hand_over) refl
      ]
    ]
  ]

  -- A letter is handed over only where its record is there and may be sent.
  pub submit_one_lem :
      (r : Outgoing) (transport : Letter → Answer) (now : ℕ) (c : Core) (s s' : Social) (t : Turn E)
      (m : Letter)
      → submit_one E r transport now c s ≡ (t, s')
      → letter_of t ≡ some m
      → (o : Outgoing) × (get s.outbox r.message_id ≡ some o)
        × (o.letter ≡ m)
        × (is_sendable E c s o ≡ true)
  unfolding submit_one
  submit_one_lem r transport now c s s' t m h l = elim (Option-cases (get s.outbox r.message_id)) [
    | inl e ↦ ground arith
    | inr (o, e) ↦ elim (Bool-cases (is_sendable E c s o)) [
      | inr f ↦ ground arith
      | inl f ↦
          let k : (hand_over E r o transport now s).0 ≡ t = ground arith in
          let j = hand_over_letter r o transport now s in (o, e, ground arith, f)
    ]
  ]

  -- A record that may be sent is delivered where the helper accepts its letter.
  pub submit_one-accepted :
      (r : Outgoing) (transport : Letter → Answer) (now : ℕ) (c : Core) (s : Social)
      → get s.outbox r.message_id ≡ some r
      → is_sendable E c s r ≡ true
      → accepts (transport r.letter) r.message_id ≡ true
      → submit_one E r transport now c s ≡ (
        confirmed r.letter,
        record s {
          outbox = put r.message_id (record r { status = delivered; updated_at = now }) s.outbox;
        },
      )
  unfolding submit_one hand_over
  submit_one-accepted r transport now c s e f a =
      let (g, i) = accepted_answer (transport r.letter) r.message_id a in
      rw (e, f, g, i, a, submit_one, hand_over) refl
