-- ===== src/Remote/Steps/Lasting.antt =====
-- What lasts over the runs of the bridge (remote.py).
use agent_comm.Prelude.{ℕ, String, true, some, ◌≡◌, sym, inl, inr, arith, subst, same_refl, mem}
use agent_comm.Json.{Json}
use agent_comm.Runtime.{Runtime}
use agent_comm.Table.{get, put}
use agent_comm.Remote.State.{Pairing, Turn, Bridge, Response}
use agent_comm.Remote.Parse.{Request}
use agent_comm.Remote.Pairing.{Settings}
use agent_comm.Remote.Invoke.{Store}
use agent_comm.Remote.Handle.{handle, resolve}
use agent_comm.Remote.Handle.Rows.{IsAnswer, resolve_rows, handle_cases}
use agent_comm.Remote.Turns.{save, claim_turn, finish_turn, recover_interrupted_turns}
use agent_comm.Remote.Turns.Keep.{claim_keeps, finish_keeps, recover_keeps}
use agent_comm.Remote.Steps.{
  Steps, handled, paired, revoked, claimed, finished, recovered, selected, stored, begin, next,
  paired_in,
}
use agent_comm.Remote.Steps.Frame.{pair_frame, revoke_frame, select_frame}

module _ (R : Runtime) (S : Store) where
  -- A property that no operation but `handle` and `pair` touches.
  module _ (P : Bridge → Type 0) (on_save : (j : Turn) (b : Bridge) → P b → P (save j b))
      (on_cursor : (id : String) (b : Bridge) → P b → P (record b { cursor = some id }))
      (on_answer : (r : Request) (b : Bridge) (x : Response × Bridge × S.State)
        → IsAnswer R S r b x
        → P b
        → P (x.1)) where
    handle_keeps :
        (s : Settings) (message : Json) (now : ℕ) (b : Bridge) (σ : S.State)
        → P b
        → P ((handle R S s message now b σ).1)
    handle_keeps s message now b σ h = elim (handle_cases R S s message now b σ) [
      | inl e ↦ subst P (sym e) h
      | inr (r, e) ↦
          subst P (sym e) (on_answer r b (resolve R S s r now b σ) (resolve_rows R S s r now b σ) h)
    ]

    pub steps_keep :
        {v w : Bridge × S.State} (run : Steps R S v w)
        → ((console : String) (b : Bridge) (p : Pairing)
            → mem console (paired_in R S run) ≡ true
            → P b
            → P (record b { pairings = put console p b.pairings }))
        → ((console : String) (b : Bridge) (p : Pairing)
            → get b.pairings console ≡ some p
            → P b
            → P (record b { pairings = put console (record p { revoked = true }) b.pairings }))
        → P (v.0)
        → P (w.0)
    unfolding claim_turn finish_turn recover_interrupted_turns
    steps_keep (begin w) f g h = h
    steps_keep (next run (handled s message now b σ)) f g h =
        handle_keeps s message now b σ (steps_keep run f g h)
    steps_keep (next run (paired console owner methods expires_at now b b' σ p e)) f g h =
        let ih = steps_keep run (λ c b1 q m. f c b1 q (ground (arith, m))) g h in
        subst P (pair_frame R console owner methods expires_at now b b' p e)
          (f console b p (ground (arith, same_refl console)) ih)
    steps_keep (next run (revoked console b b' σ e)) f g h =
        let (p, (k, i)) = revoke_frame R console b b' e in
        subst P i (g console b p k (steps_keep run f g h))
    steps_keep (next run (claimed s now b σ)) f g h =
        claim_keeps P on_save R s now b (steps_keep run f g h)
    steps_keep (next run (finished turn_id response error is_interrupted now b σ)) f g h =
        finish_keeps P on_save turn_id response error is_interrupted now b (steps_keep run f g h)
    steps_keep (next run (recovered now b σ)) f g h =
        recover_keeps P on_save now b (steps_keep run f g h)
    steps_keep (next run (selected messages limit b b' σ batch e)) f g h =
        elim (select_frame messages limit b b' batch e) [
          | inl i ↦ subst P i (steps_keep run f g h)
          | inr (id, i) ↦ subst P i (on_cursor id b (steps_keep run f g h))
        ]
    steps_keep (next run (stored b σ τ)) f g h = steps_keep run f g h
