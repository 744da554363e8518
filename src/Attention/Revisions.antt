-- ===== src/Attention/Revisions.antt =====
-- The revisions of the feed (attention.py): what a reader of the feed may rely on.
use agent_comm.Prelude.{
  ◌&&◌, false, ap, ◌≢◌, Option-cases, ℕ, ◌+◌, ◌≤◌, String, Bool, true, ◌||◌, Option, none, some,
  ◌≡◌, refl, sym, ◌⊎◌, inl, inr, arith, same, same_iff, same_refl, Bool-cases, subst,
}
use agent_comm.Runtime.{Runtime}
use agent_comm.Table.{get, put}
use agent_comm.Table.Laws.{get-put, get-put_self, get-put_ne}
use agent_comm.Remote.State.{ok}
use agent_comm.Attention.{
  SourceRevision, numbered, named, same_revision, Feed, Row, Content, Notice, attention_put,
  attention_id, counter_of, owner_key, content_of, same_content, same_text, same_time, new_row,
  unchanged,
}

same_text_refl : (o : Option String) → same_text o o ≡ true
unfolding same_text
same_text_refl none = refl
same_text_refl (some s) = same_refl s

same_time_refl : (o : Option ℕ) → same_time o o ≡ true
unfolding same_time
same_time_refl none = refl
same_time_refl (some n) = ground arith

same_revision_refl : (r : SourceRevision) → same_revision r r ≡ true
unfolding same_revision
same_revision_refl (numbered n) = ground arith
same_revision_refl (named s) = same_refl s

same_content_refl : (c : Content) → same_content c c ≡ true
unfolding same_content
same_content_refl c = ground (
  arith,
  same_refl c.attention_id,
  same_refl c.owner_id,
  same_refl c.kind,
  same_refl c.subject_id,
  same_revision_refl c.source_revision,
  same_refl c.state,
  same_refl c.title,
  same_refl c.safe_summary,
  same_refl c.target_kind,
  same_refl c.target_id,
  same_refl c.source_kind,
  same_refl c.source_id,
  same_text_refl c.task_id,
  same_text_refl c.turn_id,
  same_time_refl c.expires_at,
  same_text_refl c.approval_id,
)

same_text-eq : (o p : Option String) → same_text o p ≡ true → o ≡ p
unfolding same_text
same_text-eq none none h = refl
same_text-eq (some s) (some t) h = ap some (ground (arith, same_iff s t))
same_text-eq none (some t) h = cc
same_text-eq (some s) none h = cc

same_time-eq : (o p : Option ℕ) → same_time o p ≡ true → o ≡ p
unfolding same_time
same_time-eq none none h = refl
same_time-eq (some s) (some t) h = ap some (ground arith)
same_time-eq none (some t) h = cc
same_time-eq (some s) none h = cc

same_revision-eq : (r q : SourceRevision) → same_revision r q ≡ true → r ≡ q
unfolding same_revision
same_revision-eq (numbered n) (numbered m) h = ap numbered (ground arith)
same_revision-eq (named s) (named t) h = ap named (ground (arith, same_iff s t))
same_revision-eq (numbered n) (named t) h = cc
same_revision-eq (named s) (numbered m) h = cc

both : (a b : Bool) → (a && b) ≡ true → (a ≡ true) × (b ≡ true)
both true b h = (refl, h)
both false b h = cc

-- Equal texts and options, and an equal revision.
same_content-eq : (c d : Content) → same_content c d ≡ true → c ≡ d
unfolding same_content
same_content-eq c d h =
    let (h15, e16) =
      both
        (same c.attention_id d.attention_id
          && same c.owner_id d.owner_id
          && same c.kind d.kind
          && same c.subject_id d.subject_id
          && same_revision c.source_revision d.source_revision
          && same c.state d.state
          && same c.title d.title
          && same c.safe_summary d.safe_summary
          && same c.target_kind d.target_kind
          && same c.target_id d.target_id
          && same c.source_kind d.source_kind
          && same c.source_id d.source_id
          && same_text c.task_id d.task_id
          && same_text c.turn_id d.turn_id
          && same_time c.expires_at d.expires_at)
        (same_text c.approval_id d.approval_id) h in
    let (h14, e15) =
      both
        (same c.attention_id d.attention_id
          && same c.owner_id d.owner_id
          && same c.kind d.kind
          && same c.subject_id d.subject_id
          && same_revision c.source_revision d.source_revision
          && same c.state d.state
          && same c.title d.title
          && same c.safe_summary d.safe_summary
          && same c.target_kind d.target_kind
          && same c.target_id d.target_id
          && same c.source_kind d.source_kind
          && same c.source_id d.source_id
          && same_text c.task_id d.task_id
          && same_text c.turn_id d.turn_id)
        (same_time c.expires_at d.expires_at) h15 in
    let (h13, e14) =
      both
        (same c.attention_id d.attention_id
          && same c.owner_id d.owner_id
          && same c.kind d.kind
          && same c.subject_id d.subject_id
          && same_revision c.source_revision d.source_revision
          && same c.state d.state
          && same c.title d.title
          && same c.safe_summary d.safe_summary
          && same c.target_kind d.target_kind
          && same c.target_id d.target_id
          && same c.source_kind d.source_kind
          && same c.source_id d.source_id
          && same_text c.task_id d.task_id)
        (same_text c.turn_id d.turn_id) h14 in
    let (h12, e13) =
      both
        (same c.attention_id d.attention_id
          && same c.owner_id d.owner_id
          && same c.kind d.kind
          && same c.subject_id d.subject_id
          && same_revision c.source_revision d.source_revision
          && same c.state d.state
          && same c.title d.title
          && same c.safe_summary d.safe_summary
          && same c.target_kind d.target_kind
          && same c.target_id d.target_id
          && same c.source_kind d.source_kind
          && same c.source_id d.source_id)
        (same_text c.task_id d.task_id) h13 in
    let (h11, e12) =
      both
        (same c.attention_id d.attention_id
          && same c.owner_id d.owner_id
          && same c.kind d.kind
          && same c.subject_id d.subject_id
          && same_revision c.source_revision d.source_revision
          && same c.state d.state
          && same c.title d.title
          && same c.safe_summary d.safe_summary
          && same c.target_kind d.target_kind
          && same c.target_id d.target_id
          && same c.source_kind d.source_kind)
        (same c.source_id d.source_id) h12 in
    let (h10, e11) =
      both
        (same c.attention_id d.attention_id
          && same c.owner_id d.owner_id
          && same c.kind d.kind
          && same c.subject_id d.subject_id
          && same_revision c.source_revision d.source_revision
          && same c.state d.state
          && same c.title d.title
          && same c.safe_summary d.safe_summary
          && same c.target_kind d.target_kind
          && same c.target_id d.target_id)
        (same c.source_kind d.source_kind) h11 in
    let (h9, e10) =
      both
        (same c.attention_id d.attention_id
          && same c.owner_id d.owner_id
          && same c.kind d.kind
          && same c.subject_id d.subject_id
          && same_revision c.source_revision d.source_revision
          && same c.state d.state
          && same c.title d.title
          && same c.safe_summary d.safe_summary
          && same c.target_kind d.target_kind)
        (same c.target_id d.target_id) h10 in
    let (h8, e9) =
      both
        (same c.attention_id d.attention_id
          && same c.owner_id d.owner_id
          && same c.kind d.kind
          && same c.subject_id d.subject_id
          && same_revision c.source_revision d.source_revision
          && same c.state d.state
          && same c.title d.title
          && same c.safe_summary d.safe_summary)
        (same c.target_kind d.target_kind) h9 in
    let (h7, e8) =
      both
        (same c.attention_id d.attention_id
          && same c.owner_id d.owner_id
          && same c.kind d.kind
          && same c.subject_id d.subject_id
          && same_revision c.source_revision d.source_revision
          && same c.state d.state
          && same c.title d.title)
        (same c.safe_summary d.safe_summary) h8 in
    let (h6, e7) =
      both
        (same c.attention_id d.attention_id
          && same c.owner_id d.owner_id
          && same c.kind d.kind
          && same c.subject_id d.subject_id
          && same_revision c.source_revision d.source_revision
          && same c.state d.state)
        (same c.title d.title) h7 in
    let (h5, e6) =
      both
        (same c.attention_id d.attention_id
          && same c.owner_id d.owner_id
          && same c.kind d.kind
          && same c.subject_id d.subject_id
          && same_revision c.source_revision d.source_revision)
        (same c.state d.state) h6 in
    let (h4, e5) =
      both
        (same c.attention_id d.attention_id
          && same c.owner_id d.owner_id
          && same c.kind d.kind
          && same c.subject_id d.subject_id)
        (same_revision c.source_revision d.source_revision) h5 in
    let (h3, e4) =
      both (same c.attention_id d.attention_id && same c.owner_id d.owner_id && same c.kind d.kind)
        (same c.subject_id d.subject_id) h4 in
    let (h2, e3) =
      both (same c.attention_id d.attention_id && same c.owner_id d.owner_id) (same c.kind d.kind)
        h3 in
    let (h1, e2) = both (same c.attention_id d.attention_id) (same c.owner_id d.owner_id) h2 in
    let p1 = (same_iff c.attention_id d.attention_id).0 h1 in
    let p2 = (same_iff c.owner_id d.owner_id).0 e2 in
    let p3 = (same_iff c.kind d.kind).0 e3 in
    let p4 = (same_iff c.subject_id d.subject_id).0 e4 in
    let p5 = same_revision-eq c.source_revision d.source_revision e5 in
    let p6 = (same_iff c.state d.state).0 e6 in
    let p7 = (same_iff c.title d.title).0 e7 in
    let p8 = (same_iff c.safe_summary d.safe_summary).0 e8 in
    let p9 = (same_iff c.target_kind d.target_kind).0 e9 in
    let p10 = (same_iff c.target_id d.target_id).0 e10 in
    let p11 = (same_iff c.source_kind d.source_kind).0 e11 in
    let p12 = (same_iff c.source_id d.source_id).0 e12 in
    let p13 = same_text-eq c.task_id d.task_id e13 in
    let p14 = same_text-eq c.turn_id d.turn_id e14 in
    let p15 = same_time-eq c.expires_at d.expires_at e15 in
    let p16 = same_text-eq c.approval_id d.approval_id e16 in cc

module _ (R : Runtime) where
  -- No row of the feed is ahead of the counter of its owner.
  abbrev pub IsBehind : Feed → Type 0
  IsBehind f =
      (k : String) (r : Row)
      → get f.items k ≡ some r
      → r.revision ≤ counter_of R r.content.owner_id f

  -- The notice says nothing new: it has no owner, or its row has this content.
  abbrev pub IsKnown : Notice → Feed → Type 0
  IsKnown n f =
      (n.owner ≡ "")
      ⊎ ((r : Row) × (get f.items (attention_id R n) ≡ some r) × (r.content ≡ content_of R n))

  -- The row of the notice has its content and the next revision of its owner, which the counter
  -- shows; the other rows, the counters of other owners and the turns are as before.
  abbrev pub IsWrite : Notice → Feed → Feed → Type 0
  IsWrite n f f' =
      (counter_of R n.owner f' ≡ counter_of R n.owner f + 1)
      × ((r : Row) × (get f'.items (attention_id R n) ≡ some r)
          × (r.content ≡ content_of R n)
          × (r.revision ≡ counter_of R n.owner f'))
      × ((k : String) → attention_id R n ≢ k → get f'.items k ≡ get f.items k)
      × ((o : String) → owner_key R n.owner ≢ owner_key R o → counter_of R o f' ≡ counter_of R o f)
      × (f'.turns ≡ f.turns)

  -- Nothing changes just where the notice says nothing new.
  abbrev pub IsMove : Notice → Feed → Feed → Type 0
  IsMove n f f' = (IsKnown n f × (f' ≡ f)) ⊎ ((IsKnown n f → ⊥) × IsWrite n f f')

  -- The feed after a notice that is not skipped.
  abbrev pub moved : ℕ → Notice → Feed → Feed
  moved now n f = record f {
    items = put (attention_id R n) (new_row R now n f) f.items;
    counters = put (owner_key R n.owner) (counter_of R n.owner f + 1) f.counters;
  }

  -- The notice is skipped: it has no owner, or its row has this content.
  unfoldable pub skips : Notice → Feed → Bool
  skips n f = same n.owner "" || unchanged (get f.items (attention_id R n)) (content_of R n)

  pub put_shape :
      (now : ℕ) (n : Notice) (f f' : Feed)
      → attention_put R now n f ≡ ok f'
      → ((skips n f ≡ true) × (f ≡ f')) ⊎ ((skips n f ≡ false) × (moved now n f ≡ f'))
  unfolding attention_put skips
  put_shape now n f f' h = elim (Bool-cases (skips n f)) [
    | inl e ↦ inl (e, ground arith)
    | inr e ↦ inr (e, ground arith)
  ]

  skips-IsKnown : (n : Notice) (f : Feed) → skips n f ≡ true → IsKnown n f
  unfolding skips
  skips-IsKnown n f h = elim (Bool-cases (same n.owner "")) [
    | inl e ↦ inl ((same_iff n.owner "").0 e)
    | inr e ↦ elim (Option-cases (get f.items (attention_id R n))) [
      | inl i ↦ absurd (ground arith)
      | inr (r, i) ↦ inr (r, i, same_content-eq r.content (content_of R n) (ground arith))
    ]
  ]

  IsKnown-skips : (n : Notice) (f : Feed) → IsKnown n f → skips n f ≡ true
  unfolding skips
  IsKnown-skips n f (inl e) = let i = (same_iff n.owner "").1 e in ground arith
  IsKnown-skips n f (inr (r, i, e)) =
      let j : same_content r.content (content_of R n) ≡ true =
        subst (λ c. same_content c (content_of R n) ≡ true) (sym e)
          (same_content_refl (content_of R n)) in
      rw i (grind (arith, j))

  items_kept :
      (now : ℕ) (n : Notice) (f : Feed) (k : String)
      → attention_id R n ≢ k
      → get (moved now n f).items k ≡ get f.items k
  items_kept now n f k h = get-put_ne (attention_id R n) k (new_row R now n f) f.items h

  counters_kept :
      (now : ℕ) (n : Notice) (f : Feed) (o : String)
      → owner_key R n.owner ≢ owner_key R o
      → counter_of R o (moved now n f) ≡ counter_of R o f
  unfolding counter_of
  counters_kept now n f o h =
      rw
        (get-put_ne (owner_key R n.owner) (owner_key R o) (counter_of R n.owner f + 1) f.counters h)
        refl

  counter_grows :
      (now : ℕ) (n : Notice) (f : Feed) (o : String)
      → counter_of R o f ≤ counter_of R o (moved now n f)
  unfolding counter_of
  counter_grows now n f o = grind (
    arith,
    same_iff (owner_key R n.owner) (owner_key R o),
    get-put (owner_key R n.owner) (owner_key R o) (counter_of R n.owner f + 1) f.counters,
  )

  counter_moved :
      (now : ℕ) (n : Notice) (f : Feed)
      → counter_of R n.owner (moved now n f) ≡ counter_of R n.owner f + 1
  unfolding counter_of
  counter_moved now n f =
      rw (get-put_self (owner_key R n.owner) (counter_of R n.owner f + 1) f.counters) refl

  moved-IsBehind : (now : ℕ) (n : Notice) (f : Feed) → IsBehind f → IsBehind (moved now n f)
  unfolding new_row content_of
  moved-IsBehind now n f h k r e = elim (Bool-cases (same (attention_id R n) k)) [
    | inl s ↦
        let p : new_row R now n f ≡ r =
          grind (arith, s, e, get-put (attention_id R n) k (new_row R now n f) f.items) in
        subst (λ x. Row.revision x ≤ counter_of R x.content.owner_id (moved now n f)) p
          (let q = counter_moved now n f in omega arith)
    | inr s ↦
        let p : get f.items k ≡ some r =
          grind (arith, s, e, get-put (attention_id R n) k (new_row R now n f) f.items) in
        let a = h k r p in let b = counter_grows now n f r.content.owner_id in omega arith
  ]

  -- A notice that `_attention_put` accepts keeps every row at or behind the counter of its owner. It
  -- changes nothing just where it has no owner or its row has its content already; otherwise its row
  -- has its content and the owner's next revision, which is ahead of every revision before it, and no
  -- other row, no counter of another owner and no turn changes.
  pub put_moves :
      (now : ℕ) (n : Notice) (f f' : Feed)
      → IsBehind f
      → attention_put R now n f ≡ ok f'
      → IsBehind f' × IsMove n f f'
  unfolding new_row
  put_moves now n f f' h e = elim (put_shape now n f f' e) [
    | inl (q, p) ↦ (subst IsBehind p h, inl (skips-IsKnown n f q, sym p))
    | inr (q, p) ↦
        subst (λ x. IsBehind x × IsMove n f x) p
          (
            moved-IsBehind now n f h,
            inr (
              λ i. let j = IsKnown-skips n f i in cc,
              (
                counter_moved now n f,
                (
                  new_row R now n f,
                  get-put_self (attention_id R n) (new_row R now n f) f.items,
                  refl,
                  sym (counter_moved now n f),
                ),
                items_kept now n f,
                counters_kept now n f,
                refl,
              ),
            ),
          )
  ]

  skipped : (now : ℕ) (n : Notice) (f : Feed) → skips n f ≡ true → attention_put R now n f ≡ ok f
  unfolding attention_put skips
  skipped now n f e = ground arith

  moved-skips : (now : ℕ) (n : Notice) (f : Feed) → skips n (moved now n f) ≡ true
  unfolding skips new_row
  moved-skips now n f =
      rw (get-put_self (attention_id R n) (new_row R now n f) f.items)
        (grind (arith, same_content_refl (content_of R n)))

  -- A notice that was accepted changes nothing when it is given again, at any time.
  pub put_twice :
      (now now' : ℕ) (n : Notice) (f f' : Feed)
      → attention_put R now n f ≡ ok f'
      → attention_put R now' n f' ≡ ok f'
  put_twice now now' n f f' h = elim (put_shape now n f f' h) [
    | inl (e, p) ↦ subst (λ x. attention_put R now' n x ≡ ok x) p (skipped now' n f e)
    | inr (e, p) ↦
        subst (λ x. attention_put R now' n x ≡ ok x) p
          (skipped now' n (moved now n f) (moved-skips now n f))
  ]
