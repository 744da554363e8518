-- ===== src/Social/Outbox/Flush.antt =====
-- With a helper that accepts, `flush_social_outbox` (social.py) empties the outbox of what may be sent.
use agent_comm.Prelude.{
  ℕ, ◌≤◌, String, true, false, some, List, [], ◌∷◌, ◌≡◌, refl, sym, ◌∙◌, ap, subst, ◌⊎◌, inl, inr,
  arith, same, same_iff, Bool-cases, filter, length, map, All,
}
use agent_comm.Table.{Table, get, put, rows}
use agent_comm.Table.Laws.{get-put_self, get-put_ne}
use agent_comm.Table.Sorted.{Each, put-Each, get-Each}
use agent_comm.Store.State.{Env, Core}
use agent_comm.Social.State.{Letter, delivered, Outgoing, Social}
use agent_comm.Social.Peers.{peer_blocked, contact_status, can_send_to}
use agent_comm.Social.Outbox.{
  Answer, is_sendable, accepts, submit_one, passed, broken, stopped, refused, confirmed, handed,
  flush_loop, flush,
}
use agent_comm.Social.Outbox.Apart.{
  In, Apart, rows-Apart, All-filter, Apart-filter, In-filter, get-In, rows_present, take-all,
}
use agent_comm.Social.Outbox.Submit.{submit_one-accepted}
use agent_comm.Social.Spec.Sound.{IsSound}

module _ (E : Env) (transport : Letter → Answer) (now : ℕ) (c : Core) where
  abbrev sent : Outgoing → Outgoing
  sent r = record r { status = delivered; updated_at = now }

  -- Whether a record may be sent does not hang on the others of the outbox.
  is_sendable_same :
      (s : Social) (t : Table Outgoing) (o : Outgoing)
      → is_sendable E c (record s { outbox = t }) o ≡ is_sendable E c s o
  unfolding peer_blocked contact_status can_send_to
  is_sendable_same s t o = refl

  -- The helper accepts the letters of the records, which are in the outbox and may be sent.
  abbrev Ready : Social → List Outgoing → Type 0
  Ready s rs =
      All
        (λ r.
          (get s.outbox r.message_id ≡ some r)
          × (is_sendable E c s r ≡ true)
          × (accepts (transport r.letter) r.message_id ≡ true))
        rs

  abbrev Left : List Outgoing → Social → Type 0
  Left rs s =
      (j : String) (x : Outgoing)
      → get s.outbox j ≡ some x
      → (is_sendable E c s x ≡ false) ⊎ In x rs

  Left-on :
      (r : Outgoing) (rs : List Outgoing) (s : Social) (t : Table Outgoing)
      → t ≡ put r.message_id (sent r) s.outbox
      → Each (λ k o. o.message_id ≡ k) s.outbox
      → Left (r ∷ rs) s
      → Left rs (record s { outbox = t })
  Left-on r rs s t e keyed h j x g = elim (Bool-cases (same r.message_id j)) [
    | inl i ↦
        let row : get (put r.message_id (sent r) s.outbox) j ≡ some (sent r) =
          subst (λ k. get (put r.message_id (sent r) s.outbox) k ≡ some (sent r))
            ((same_iff r.message_id j).0 i) (get-put_self r.message_id (sent r) s.outbox) in
        let same_row : x ≡ sent r = cc (e, g, row) in
        inl (subst (λ y. is_sendable E c (record s { outbox = t }) y ≡ false) (sym same_row) refl)
    | inr i ↦
        let before : get s.outbox j ≡ some x =
          sym (
            get-put_ne r.message_id j (sent r) s.outbox
              (λ k. cc (i, (same_iff r.message_id j).1 k)))
          ∙ ap (λ u. get u j) (sym e)
          ∙ g in
        elim (h j x before) [
          | inl f ↦ inl (is_sendable_same s t x ∙ f)
          | inr (inr k) ↦ inr k
          | inr (inl k) ↦
              let own : x.message_id ≡ j =
                get-Each (λ k o. o.message_id ≡ k) s.outbox j x keyed before in
              absurd (cc (i, (same_iff r.message_id j).1 (ap (λ y. y.message_id) (sym k) ∙ own)))
        ]
  ]

  Ready-on :
      (r : Outgoing) (rs : List Outgoing) (s : Social)
      → All (λ y. same r.message_id y.message_id ≡ false) rs
      → Ready s rs
      → Ready (record s { outbox = put r.message_id (sent r) s.outbox }) rs
  Ready-on r [] s a h = tt
  Ready-on r (y ∷ ys) s (n, a) ((e, f, g), h) = (
    (
      get-put_ne r.message_id y.message_id (sent r) s.outbox
            (λ i. cc (n, (same_iff r.message_id y.message_id).1 i))
          ∙ e,
      is_sendable_same s (put r.message_id (sent r) s.outbox) y ∙ f,
      g,
    ),
    Ready-on r ys s a h,
  )

  All-Ready :
      (s : Social) (rs : List Outgoing)
      → All (λ r. (get s.outbox r.message_id ≡ some r) × (is_sendable E c s r ≡ true)) rs
      → All (λ r. accepts (transport r.letter) r.message_id ≡ true) rs
      → Ready s rs
  All-Ready s [] h a = tt
  All-Ready s (r ∷ rs) ((e, f), h) (g, a) = ((e, f, g), All-Ready s rs h a)

  Left-all : (s : Social) → Left (filter (is_sendable E c s) (rows s.outbox)) s
  Left-all s j x g = elim (Bool-cases (is_sendable E c s x)) [
    | inr f ↦ inl f
    | inl f ↦ inr (In-filter (is_sendable E c s) x (rows s.outbox) (get-In s.outbox j x g) f)
  ]

  accepted_step :
      (r : Outgoing) (rs : List Outgoing) (s s1 : Social)
      → submit_one E r transport now c s ≡ (confirmed r.letter, s1)
      → flush_loop E (r ∷ rs) transport now c s
        ≡ handed E r.letter 1 (flush_loop E rs transport now c s1)
  unfolding flush_loop
  accepted_step r rs s s1 e =
      ap
        (λ p. elim (p.0) [
          | passed ↦ flush_loop E rs transport now c (p.1)
          | broken m ↦ (false, m ∷ [], 0, p.1)
          | stopped m ↦ (true, m ∷ [], 0, p.1)
          | refused m ↦ handed E m 0 (flush_loop E rs transport now c (p.1))
          | confirmed m ↦ handed E m 1 (flush_loop E rs transport now c (p.1))
        ])
        e

  -- The loop over records that are ready hands over each of their letters once, and leaves none.
  loop_drains :
      (rs : List Outgoing) (s : Social)
      → Each (λ k o. o.message_id ≡ k) s.outbox
      → Apart rs
      → Ready s rs
      → Left rs s
      → ((flush_loop E rs transport now c s).0 ≡ true)
        × ((flush_loop E rs transport now c s).1 ≡ map (λ r. r.letter) rs)
        × ((flush_loop E rs transport now c s).2 ≡ length rs)
        × ((k : String) (o : Outgoing)
            → get ((flush_loop E rs transport now c s).3.outbox) k ≡ some o
            → is_sendable E c ((flush_loop E rs transport now c s).3) o ≡ false)
  unfolding flush_loop
  loop_drains [] s keyed a h l =
      (refl, refl, refl, λ k o e. elim (l k o e) [ inl f ↦ f | inr f ↦ absurd f ])
  loop_drains (r ∷ rs) s keyed (n, a) ((e, f, g), h) l =
      let s1 : Social = record s { outbox = put r.message_id (sent r) s.outbox } in
      let (b, ms, k, d) =
        loop_drains rs s1
          (put-Each (λ k o. o.message_id ≡ k) r.message_id (sent r) s.outbox refl keyed) a
          (Ready-on r rs s n h) (Left-on r rs s (s1.outbox) refl keyed l) in
      let step : flush_loop E (r ∷ rs) transport now c s
          ≡ handed E r.letter 1 (flush_loop E rs transport now c s1) =
        accepted_step r rs s s1 (submit_one-accepted E r transport now c s e f g) in
      rw step (b, ap (λ u. r.letter ∷ u) ms, omega (arith, k), d)

  -- With a helper that accepts each letter that may be sent, and a limit that is not below their
  -- number, a flush hands over each of them once, counts them all, and leaves none that may be sent.
  pub flush_drains :
      (limit : ℕ) (s : Social)
      → IsSound s
      → length (filter (is_sendable E c s) (rows s.outbox)) ≤ limit
      → All
          (λ r. accepts (transport r.letter) r.message_id ≡ true)
          (filter (is_sendable E c s) (rows s.outbox))
      → ((flush E limit transport now c s).0 ≡ true)
        × ((flush E limit transport now c s).1
            ≡ map (λ r. r.letter) (filter (is_sendable E c s) (rows s.outbox)))
        × ((flush E limit transport now c s).2
            ≡ length (filter (is_sendable E c s) (rows s.outbox)))
        × ((k : String) (o : Outgoing)
            → get ((flush E limit transport now c s).3.outbox) k ≡ some o
            → is_sendable E c ((flush E limit transport now c s).3) o ≡ false)
  unfolding flush
  flush_drains limit s h enough accepting =
      let rs = filter (is_sendable E c s) (rows s.outbox) in
      rw (take-all limit rs enough, flush)
        (loop_drains rs s h.outbox
          (Apart-filter (is_sendable E c s) (rows s.outbox)
            (rows-Apart s.outbox h.sorted_outbox h.outbox))
          (All-Ready s rs
            (All-filter (λ r. get s.outbox r.message_id ≡ some r) (is_sendable E c s)
              (rows s.outbox) (rows_present s.outbox h.sorted_outbox h.outbox))
            accepting)
          (Left-all s))
