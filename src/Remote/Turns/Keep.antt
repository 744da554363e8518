-- ===== src/Remote/Turns/Keep.antt =====
-- `claim_turn`, `finish_turn` and `recover_interrupted_turns` (remote.py) write turns and nothing else:
-- what holds after each write of a turn holds after them.
use agent_comm.Prelude.{
  ℕ, String, Bool, true, false, Option, none, some, List, [], ◌∷◌, ◌≡◌, refl, any, if◌then◌else◌,
  if_both,
}
use agent_comm.Runtime.{Runtime}
use agent_comm.Table.{get, rows}
use agent_comm.Remote.State.{Turn, Bridge, Outcome, ok, raised}
use agent_comm.Remote.Pairing.{Settings}
use agent_comm.Remote.Conversation.{sort_turns}
use agent_comm.Remote.Turns.{
  Claim, is_running, is_submitted, save, start, refuse, may_start, claim_from, claim, end, finish,
  abandon, recover_from, recover,
}

module _ (P : Bridge → Type 0) (f : (j : Turn) (b : Bridge) → P b → P (save j b)) where
  pub finish_keeps :
      (turn_id : String) (response error : Option String) (is_interrupted : Bool) (now : ℕ)
      (b : Bridge)
      → P b
      → P ((finish turn_id response error is_interrupted now b).1)
  unfolding finish
  finish_keeps turn_id response error is_interrupted now b h = go (get b.turns turn_id) refl
    where
      go :
          (o : Option Turn)
          → get b.turns turn_id ≡ o
          → P ((finish turn_id response error is_interrupted now b).1)
      go none e = rw (e, finish) h
      go (some j) e =
          rw (e, finish)
            (if_both (λ (x : Option Turn × Bridge). P (x.1)) (is_running j.status)
              (λ _. f (end response error is_interrupted now j) b h) (λ _. h))

  recover_from_keeps : (now : ℕ) (js : List Turn) (b : Bridge) → P b → P (recover_from now js b)
  unfolding recover_from
  recover_from_keeps now [] b h = h
  recover_from_keeps now (j ∷ js) b h =
      recover_from_keeps now js (if is_running j.status then save (abandon now j) b else b)
        (if_both P (is_running j.status) (λ _. f (abandon now j) b h) (λ _. h))

  pub recover_keeps : (now : ℕ) (b : Bridge) → P b → P (recover now b)
  unfolding recover
  recover_keeps now b h = recover_from_keeps now (rows b.turns) b h

  module _ (R : Runtime) where
    claim_from_keeps :
        (s : Settings) (now : ℕ) (js : List Turn) (b : Bridge)
        → P b
        → P ((claim_from R s now js b).bridge)
    unfolding claim_from
    claim_from_keeps s now [] b h = h
    claim_from_keeps s now (j ∷ js) b h =
        go (is_submitted j.status) refl (may_start R s now b j) refl (claim_from_keeps s now js)
      where
        go :
            (x : Bool)
            → is_submitted j.status ≡ x
            → (o : Outcome Unit) → may_start R s now b j ≡ o
            → ((b' : Bridge) → P b' → P ((claim_from R s now js b').bridge))
            → P ((claim_from R s now (j ∷ js) b).bridge)
        go false e o g ih = rw (e, claim_from) (ih b h)
        go true e (raised x) g ih =
            rw (e, g, claim_from) (ih (save (refuse x now j) b) (f (refuse x now j) b h))
        go true e (ok x) g ih = rw (e, g, claim_from) (f (start now j) b h)

    pub claim_keeps : (s : Settings) (now : ℕ) (b : Bridge) → P b → P ((claim R s now b).bridge)
    unfolding claim
    claim_keeps s now b h =
        if_both (λ x. P (Claim.bridge x)) (any (λ j. is_running j.status) (rows b.turns)) (λ _. h)
          (λ _. claim_from_keeps s now (sort_turns (rows b.turns)) b h)
