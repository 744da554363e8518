-- ===== src/Remote/Turns/Sound.antt =====
-- The turns of a sound database stand under their own identifiers, and at most one runs.
use agent_comm.Prelude.{
  ℕ, String, Bool, true, false, Option, none, some, List, [], ◌∷◌, ◌≤◌, ◌≡◌, refl, arith, any,
  if◌then◌else◌, if_both,
}
use agent_comm.Runtime.{Runtime}
use agent_comm.Table.{get, rows}
use agent_comm.Table.Laws.{count, count-put}
use agent_comm.Table.Sorted.{Each, IsSorted, put-Each, put-IsSorted}
use agent_comm.Remote.State.{Turn, Bridge, Outcome, ok, raised}
use agent_comm.Remote.Pairing.{Settings}
use agent_comm.Remote.Turns.{
  is_running, is_submitted, start, refuse, save, may_start, claim_from, claim, Claim, finish,
  outcome_of, finish_texts, end, abandon, recover_from, recover,
}
use agent_comm.Remote.Conversation.{sort_turns}

abbrev is_run : Turn → Bool
is_run j = is_running j.status

-- How many turns run.
abbrev pub running_turns : Bridge → ℕ
running_turns b = count is_run (rows b.turns)

-- The rows of kind "turn" are sorted, each under its own identifier.
abbrev pub IsKeyed : Bridge → Type 0
IsKeyed b = IsSorted b.turns × Each (λ k j. k ≡ j.turn_id) b.turns

abbrev pub IsSound : Bridge → Type 0
IsSound b = IsKeyed b × (running_turns b ≤ 1)

pub save-IsKeyed : (j : Turn) (b : Bridge) → IsKeyed b → IsKeyed (save j b)
save-IsKeyed j b (s, e) =
    (put-IsSorted j.turn_id j b.turns s, put-Each (λ k i. k ≡ i.turn_id) j.turn_id j b.turns refl e)

-- A turn that does not run adds none.
pub save_idle :
    (j : Turn) (b : Bridge)
    → is_running j.status ≡ false
    → running_turns (save j b) ≤ running_turns b
save_idle j b h = let c = count-put is_run j.turn_id j b.turns in ground (arith, h, c)

pub save-IsSound :
    (j : Turn) (b : Bridge) → is_running j.status ≡ false → IsSound b → IsSound (save j b)
save-IsSound j b h (k, c) = (save-IsKeyed j b k, (let d = save_idle j b h in omega arith))

outcome_idle :
    (is_interrupted : Bool) (e : Option String) → is_running (outcome_of is_interrupted e) ≡ false
unfolding outcome_of
outcome_idle true e = refl
outcome_idle false none = refl
outcome_idle false (some e) = ground arith

end_idle :
    (response error : Option String) (is_interrupted : Bool) (now : ℕ) (j : Turn)
    → is_running ((end response error is_interrupted now j).status) ≡ false
unfolding end
end_idle response error is_interrupted now j =
    outcome_idle is_interrupted ((finish_texts response error).1)

pub finish-IsSound :
    (turn_id : String) (response error : Option String) (is_interrupted : Bool) (now : ℕ)
    (b : Bridge)
    → IsSound b
    → IsSound ((finish turn_id response error is_interrupted now b).1)
unfolding finish
finish-IsSound turn_id response error is_interrupted now b h = go (get b.turns turn_id) refl
  where
    go :
        (o : Option Turn)
        → get b.turns turn_id ≡ o
        → IsSound ((finish turn_id response error is_interrupted now b).1)
    go none e = rw (e, finish) h
    go (some j) e =
        rw (e, finish)
          (if_both (λ (x : Option Turn × Bridge). IsSound (x.1)) (is_running j.status)
            (λ _.
              save-IsSound (end response error is_interrupted now j) b
                (end_idle response error is_interrupted now j) h)
            (λ _. h))

recover_from-IsSound :
    (now : ℕ) (js : List Turn) (b : Bridge) → IsSound b → IsSound (recover_from now js b)
unfolding recover_from abandon
recover_from-IsSound now [] b h = h
recover_from-IsSound now (j ∷ js) b h =
    recover_from-IsSound now js (if is_running j.status then save (abandon now j) b else b)
      (if_both IsSound (is_running j.status) (λ _. save-IsSound (abandon now j) b refl h) (λ _. h))

pub recover-IsSound : (now : ℕ) (b : Bridge) → IsSound b → IsSound (recover now b)
unfolding recover
recover-IsSound now b h = recover_from-IsSound now (rows b.turns) b h

any-false-count : (js : List Turn) → any is_run js ≡ false → count is_run js ≤ 0
any-false-count [] h = omega arith
any-false-count (j ∷ js) h = ground (arith, any-false-count js)

module _ (R : Runtime) where
  claim_from-IsSound :
      (s : Settings) (now : ℕ) (js : List Turn) (b : Bridge)
      → IsKeyed b
      → running_turns b ≤ 0
      → IsSound ((claim_from R s now js b).bridge)
  unfolding claim_from start refuse
  claim_from-IsSound s now [] b k c = (k, (omega arith))
  claim_from-IsSound s now (j ∷ js) b k c =
      go (is_submitted j.status) refl (may_start R s now b j) refl (claim_from-IsSound s now js)
    where
      go :
          (x : Bool)
          → is_submitted j.status ≡ x
          → (o : Outcome Unit) → may_start R s now b j ≡ o
          → ((b' : Bridge)
              → IsKeyed b'
              → running_turns b' ≤ 0
              → IsSound ((claim_from R s now js b').bridge))
          → IsSound ((claim_from R s now (j ∷ js) b).bridge)
      go false e o f ih = rw (e, claim_from) (ih b k c)
      go true e (raised x) f ih =
          let d = save_idle (refuse x now j) b refl in
          rw (e, f, claim_from)
            (ih (save (refuse x now j) b) (save-IsKeyed (refuse x now j) b k) (omega arith))
      go true e (ok x) f ih =
          let d = count-put is_run j.turn_id (start now j) b.turns in
          rw (e, f, claim_from) ((save-IsKeyed (start now j) b k, (omega arith)))

  pub claim-IsSound :
      (s : Settings) (now : ℕ) (b : Bridge) → IsSound b → IsSound ((claim R s now b).bridge)
  unfolding claim
  claim-IsSound s now b (k, c) =
      if_both (λ x. IsSound (Claim.bridge x)) (any is_run (rows b.turns)) (λ _. (k, c))
        (λ e.
          claim_from-IsSound s now (sort_turns (rows b.turns)) b k
            (any-false-count (rows b.turns) e))
