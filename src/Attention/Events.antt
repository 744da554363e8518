-- ===== src/Attention/Events.antt =====
-- The projection of conversation turns (`record_conversation_event` of attention.py).
use agent_comm.Prelude.{
  ap, ◌∙◌, ◌≢◌, same_iff, ℕ, String, true, some, ◌≡◌, refl, inl, inr, arith, same, Bool-cases,
  Option-cases, subst, sym,
}
use agent_comm.Runtime.{Runtime}
use agent_comm.Table.{get, put}
use agent_comm.Table.Laws.{get-put_self, get-put_ne}
use agent_comm.Remote.State.{
  Turn, TurnStatus, submitted, running, completed, failed, interrupted, ok,
}
use agent_comm.Attention.{
  Feed, Source, Notice, attention_put, record_conversation_event, notice_of, source_of, is_settled,
  same_source, is_terminal, status_text,
}
use agent_comm.Attention.Revisions.{put_shape}

-- The turn has a row, and it ended.
abbrev HasEnded : String → Feed → Type 0
HasEnded id f = (s : Source) × ((get f.turns id ≡ some s) × (is_terminal s.status ≡ true))

status_same :
    (a b : TurnStatus)
    → same (status_text a) (status_text b) ≡ true
    → is_terminal b ≡ true
    → is_terminal a ≡ true
status_same submitted submitted h e = e
status_same submitted running h e = e
status_same submitted completed h e = h
status_same submitted failed h e = h
status_same submitted interrupted h e = h
status_same running submitted h e = e
status_same running running h e = e
status_same running completed h e = h
status_same running failed h e = h
status_same running interrupted h e = h
status_same completed b h e = refl
status_same failed b h e = refl
status_same interrupted b h e = refl

module _ (R : Runtime) where
  put-HasEnded :
      (now : ℕ) (j : Turn) (f f' : Feed)
      → attention_put R now (notice_of j) (record f { turns = put j.turn_id (source_of j) f.turns })
        ≡ ok f'
      → is_terminal j.status ≡ true
      → HasEnded j.turn_id f'
  put-HasEnded now j f f' h e =
      let g = record f { turns = put j.turn_id (source_of j) f.turns } in
      let q = get-put_self j.turn_id (source_of j) f.turns in
      elim (put_shape R now (notice_of j) g f' h) [
        | inl (s, p) ↦ subst (HasEnded j.turn_id) p ((source_of j, (q, e)))
        | inr (i, p) ↦ subst (HasEnded j.turn_id) p ((source_of j, (q, e)))
      ]

  settled-HasEnded :
      (j : Turn) (f : Feed)
      → is_settled (get f.turns j.turn_id) (source_of j) ≡ true
      → is_terminal j.status ≡ true
      → HasEnded j.turn_id f
  unfolding is_settled same_source
  settled-HasEnded j f h e = elim (Option-cases (get f.turns j.turn_id)) [
    | inl p ↦ absurd (ground arith)
    | inr (s, p) ↦ (s, (p, grind (arith, h, p, e, status_same s.status j.status)))
  ]

  record-HasEnded :
      (now : ℕ) (j : Turn) (f f' : Feed)
      → record_conversation_event R now j f ≡ ok f'
      → is_terminal j.status ≡ true
      → HasEnded j.turn_id f'
  unfolding record_conversation_event
  record-HasEnded now j f f' h e =
      elim (Bool-cases (is_settled (get f.turns j.turn_id) (source_of j))) [
        | inl s ↦
            let p : f ≡ f' = ground arith in subst (HasEnded j.turn_id) p (settled-HasEnded j f s e)
        | inr s ↦ put-HasEnded now j f f' (ground arith) e
      ]

  -- Any records of turns, in any order and at any time.
  pub data Records : Feed → Feed → Type 0 where
    begin : (f : Feed) → Records f f
    then_record :
        {f g h : Feed} (now : ℕ) (j : Turn)
        → Records f g
        → record_conversation_event R now j g ≡ ok h
        → Records f h

  settled_record :
      (now : ℕ) (i : Turn) (f : Feed) (s : Source)
      → get f.turns i.turn_id ≡ some s
      → is_terminal s.status ≡ true
      → record_conversation_event R now i f ≡ ok f
  unfolding record_conversation_event is_settled
  settled_record now i f s q t = rw q (grind (arith, t))

  put_turns :
      (now : ℕ) (n : Notice) (f f' : Feed) → attention_put R now n f ≡ ok f' → f'.turns ≡ f.turns
  put_turns now n f f' h = elim (put_shape R now n f f' h) [
    | inl (s, p) ↦ ap (λ x. Feed.turns x) (sym p)
    | inr (s, p) ↦ ap (λ x. Feed.turns x) (sym p)
  ]

  -- A record leaves the rows of other turns.
  other_kept :
      (now : ℕ) (i : Turn) (f f' : Feed) (k : String)
      → record_conversation_event R now i f ≡ ok f'
      → i.turn_id ≢ k
      → get f'.turns k ≡ get f.turns k
  unfolding record_conversation_event
  other_kept now i f f' k h apart =
      elim (Bool-cases (is_settled (get f.turns i.turn_id) (source_of i))) [
        | inl s ↦ let p : f ≡ f' = ground arith in ap (λ x. get (Feed.turns x) k) (sym p)
        | inr s ↦
            let g = record f { turns = put i.turn_id (source_of i) f.turns } in
            ap (λ t. get t k) (put_turns now (notice_of i) g f' (ground arith))
            ∙ get-put_ne i.turn_id k (source_of i) f.turns apart
      ]

  -- A record leaves the row of a turn that ended.
  record_kept :
      (now : ℕ) (i : Turn) (f f' : Feed) (k : String) (s : Source)
      → record_conversation_event R now i f ≡ ok f'
      → get f.turns k ≡ some s
      → is_terminal s.status ≡ true
      → get f'.turns k ≡ some s
  record_kept now i f f' k s h e t = elim (Bool-cases (same i.turn_id k)) [
    | inl c ↦
        let same_turn : i.turn_id ≡ k = (same_iff i.turn_id k).0 c in
        let row : get f.turns i.turn_id ≡ some s =
          subst (λ x. get f.turns x ≡ some s) (sym same_turn) e in
        let stays = settled_record now i f s row t in
        let p : f ≡ f' = ground arith in subst (λ x. get (Feed.turns x) k ≡ some s) p e
    | inr c ↦
        let apart : i.turn_id ≢ k = λ x. cc (c, (same_iff i.turn_id k).1 x) in
        other_kept now i f f' k h apart ∙ e
  ]

  Records-kept :
      (f e : Feed) (k : String) (s : Source)
      → Records f e
      → get f.turns k ≡ some s
      → is_terminal s.status ≡ true
      → get e.turns k ≡ some s
  Records-kept f e k s (begin _) q t = q
  Records-kept f e k s (then_record {g = g} now j rs h) q t =
      record_kept now j g e k s h (Records-kept f g k s rs q t) t

  -- After the end of a turn was recorded, and after any further records of this and other turns, the
  -- row of the turn is the one that its end left, and no record of the turn changes the feed,
  -- whatever its status: a late one does not open the turn again.
  pub record_final :
      (now now' : ℕ) (j i : Turn) (f f' e : Feed)
      → record_conversation_event R now j f ≡ ok f'
      → is_terminal j.status ≡ true
      → Records f' e
      → i.turn_id ≡ j.turn_id
      → (get e.turns j.turn_id ≡ get f'.turns j.turn_id)
        × (record_conversation_event R now' i e ≡ ok e)
  record_final now now' j i f f' e h t rs k =
      let (s, (p, u)) = record-HasEnded now j f f' h t in
      let q : get e.turns j.turn_id ≡ some s = Records-kept f' e j.turn_id s rs p u in
      (q ∙ sym p, settled_record now' i e s (subst (λ x. get e.turns x ≡ some s) (sym k) q) u)
