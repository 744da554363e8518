-- ===== src/Remote/Turns/Final.antt =====
-- Turns that ended stay as they are, and after a restart no turn runs (remote.py).
use agent_comm.Prelude.{
  ℕ, String, Bool, true, false, ◌&&◌, Option, none, some, List, [], ◌∷◌, ◌≡◌, refl, ◌∙◌, inl, inr,
  arith, any, All, All-mono, same, same_iff, Option-cases, if_both, if◌then◌else◌,
}
use agent_comm.Runtime.{Runtime}
use agent_comm.Table.{Table, get, put, rows}
use agent_comm.Table.Laws.{get-put}
use agent_comm.Table.Sorted.{get-Each}
use agent_comm.Remote.State.{Turn, TurnStatus, Bridge, Outcome, ok, raised}
use agent_comm.Remote.Pairing.{Settings}
use agent_comm.Remote.Invoke.{is_pending}
use agent_comm.Remote.Conversation.{sort_turns}
use agent_comm.Remote.Turns.{
  Claim, is_running, is_submitted, save, start, refuse, may_start, claim_from, claim, end, finish,
  abandon, recover_from, recover,
}
use agent_comm.Remote.Turns.Sound.{IsKeyed}
use agent_comm.Remote.Turns.Grant.{IsKeyed-All, sort_turns-All}

-- No turn of the list that passes the test has the identifier.
abbrev IsApart : (TurnStatus → Bool) → String → List Turn → Type 0
IsApart f k js = All (λ i. (same i.turn_id k && f i.status) ≡ false) js

save_apart :
    (j : Turn) (k : String) (b : Bridge)
    → same j.turn_id k ≡ false
    → get (put j.turn_id j b.turns) k ≡ get b.turns k
save_apart j k b h = grind (arith, h, get-put j.turn_id k j b.turns)

recover_from_apart :
    (now : ℕ) (k : String) (js : List Turn) (b : Bridge)
    → IsApart is_running k js
    → get ((recover_from now js b).turns) k ≡ get b.turns k
unfolding recover_from abandon
recover_from_apart now k [] b a = refl
recover_from_apart now k (j ∷ js) b (h, a) =
    recover_from_apart now k js (if is_running j.status then save (abandon now j) b else b) a
    ∙ if_both (λ x. get (Bridge.turns x) k ≡ get b.turns k) (is_running j.status)
        (λ e. save_apart (abandon now j) k b (ground arith)) (λ _. refl)

-- Whether the turn of the identifier runs.
abbrev runs_at : String → Bridge → Bool
runs_at k b = elim (get b.turns k) [ none ↦ false | some j ↦ is_running j.status ]

runs_in : String → List Turn → Bool
runs_in k js = any (λ i. same i.turn_id k && is_running i.status) js

recover_from_none :
    (now : ℕ) (k : String) (js : List Turn) (b : Bridge)
    → (runs_at k b ≡ true → runs_in k js ≡ true)
    → runs_at k (recover_from now js b) ≡ false
unfolding recover_from runs_in abandon
recover_from_none now k [] b h = ground arith
recover_from_none now k (j ∷ js) b h =
    recover_from_none now k js (if is_running j.status then save (abandon now j) b else b) (
      if_both (λ x. runs_at k x ≡ true → runs_in k js ≡ true) (is_running j.status)
        (λ e r. grind (arith, e, h, get-put j.turn_id k (abandon now j) b.turns))
        (λ e r. ground (arith, e, h)))

get-any :
    (p : Turn → Bool) (t : Table Turn) (k : String) (j : Turn)
    → get t k ≡ some j
    → p j ≡ true
    → any p (rows t) ≡ true
unfolding get rows
get-any p [] k j h e = ground arith
get-any p ((i, w) ∷ t) k j h e = grind (arith, get-any p t k j)

runs_at-rows :
    (k : String) (b : Bridge) → IsKeyed b → runs_at k b ≡ true → runs_in k (rows b.turns) ≡ true
unfolding runs_in
runs_at-rows k b (s, e) h = elim (Option-cases (get b.turns k)) [
  | inl f ↦ ground arith
  | inr (j, f) ↦
      let i = get-Each (λ k j. k ≡ j.turn_id) b.turns k j e f in
      get-any (λ i. same i.turn_id k && is_running i.status) b.turns k j f
        (ground (arith, i, h, f, same_iff j.turn_id k))
]

-- After `recover_interrupted_turns` on sorted rows that stand under their own identifiers, no turn
-- that is read runs.
pub recover_none :
    (now : ℕ) (b : Bridge) (k : String) (j : Turn)
    → IsKeyed b
    → get ((recover now b).turns) k ≡ some j
    → is_running j.status ≡ false
unfolding recover
recover_none now b k j e h =
    let n = recover_from_none now k (rows b.turns) b (runs_at-rows k b e) in ground (arith, h, n)

IsApart-row :
    (f : TurnStatus → Bool) (k : String) (j : Turn) (b : Bridge)
    → IsKeyed b
    → get b.turns k ≡ some j
    → f j.status ≡ false
    → IsApart f k (rows b.turns)
IsApart-row f k j b e h n =
    All-mono
      (λ i (m : get b.turns i.turn_id ≡ some i). grind (arith, m, h, n, same_iff i.turn_id k))
      (rows b.turns) (IsKeyed-All b e)

finish_apart :
    (turn_id : String) (response error : Option String) (is_interrupted : Bool) (now : ℕ)
    (b : Bridge) (k : String) (j : Turn)
    → IsKeyed b
    → get b.turns k ≡ some j
    → is_running j.status ≡ false
    → get ((finish turn_id response error is_interrupted now b).1.turns) k ≡ some j
unfolding finish end
finish_apart turn_id response error is_interrupted now b k j (q, e) h n =
    go (get b.turns turn_id) refl
  where
    go :
        (o : Option Turn)
        → get b.turns turn_id ≡ o
        → get ((finish turn_id response error is_interrupted now b).1.turns) k ≡ some j
    go none f = rw (f, finish) h
    go (some i) f =
        let m : turn_id ≡ i.turn_id = get-Each (λ k i. k ≡ i.turn_id) b.turns turn_id i e f in
        rw (f, finish)
          (if_both (λ (x : Option Turn × Bridge). get (x.1.turns) k ≡ some j) (is_running i.status)
            (λ r.
              save_apart (end response error is_interrupted now i) k b
                (grind (arith, r, m, f, h, n, same_iff i.turn_id k))
              ∙ h)
            (λ _. h))

module _ (R : Runtime) where
  claim_from_apart :
      (s : Settings) (now : ℕ) (k : String) (js : List Turn) (b : Bridge)
      → IsApart is_submitted k js
      → get ((claim_from R s now js b).bridge.turns) k ≡ get b.turns k
  unfolding claim_from start refuse
  claim_from_apart s now k [] b a = refl
  claim_from_apart s now k (i ∷ js) b (h, a) =
      go (is_submitted i.status) refl (may_start R s now b i) refl
        (λ b'. claim_from_apart s now k js b' a)
    where
      go :
          (x : Bool)
          → is_submitted i.status ≡ x
          → (o : Outcome Unit) → may_start R s now b i ≡ o
          → ((b' : Bridge) → get ((claim_from R s now js b').bridge.turns) k ≡ get b'.turns k)
          → get ((claim_from R s now (i ∷ js) b).bridge.turns) k ≡ get b.turns k
      go false e o f ih = rw (e, claim_from) (ih b)
      go true e (raised x) f ih =
          rw (e, f, claim_from)
            (ih (save (refuse x now i) b) ∙ save_apart (refuse x now i) k b (ground arith))
      go true e (ok x) f ih = rw (e, f, claim_from) (save_apart (start now i) k b (ground arith))

  -- A turn that completed, failed or was interrupted is never written again by `claim_turn`,
  -- `finish_turn` or `recover_interrupted_turns`, on sorted rows under their own identifiers.
  pub ended_stays :
      (s : Settings) (now : ℕ) (turn_id : String) (response error : Option String)
      (is_interrupted : Bool) (b : Bridge) (k : String) (j : Turn)
      → IsKeyed b
      → get b.turns k ≡ some j
      → is_pending j.status ≡ false
      → (get ((claim R s now b).bridge.turns) k ≡ some j)
        × ((get ((finish turn_id response error is_interrupted now b).1.turns) k ≡ some j)
            × (get ((recover now b).turns) k ≡ some j))
  unfolding claim recover finish
  ended_stays s now turn_id response error is_interrupted b k j e h n = (
    if_both (λ (x : Claim). get (x.bridge.turns) k ≡ some j)
        (any (λ i. is_running i.status) (rows b.turns)) (λ _. h)
        (λ _.
          claim_from_apart s now k (sort_turns (rows b.turns)) b (
            sort_turns-All (λ i. (same i.turn_id k && is_submitted i.status) ≡ false) (rows b.turns)
              (IsApart-row is_submitted k j b e h (ground arith)))
          ∙ h),
    (
      finish_apart turn_id response error is_interrupted now b k j e h (ground arith),
      recover_from_apart now k (rows b.turns) b (IsApart-row is_running k j b e h (ground arith))
          ∙ h,
    ),
  )
