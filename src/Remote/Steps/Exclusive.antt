-- ===== src/Remote/Steps/Exclusive.antt =====
-- In every run of the bridge (remote.py) at most one turn runs at a time.
use agent_comm.Prelude.{ℕ, refl, sym, inl, inr, arith, subst}
use agent_comm.Json.{Json}
use agent_comm.Runtime.{Runtime}
use agent_comm.Table.{rows}
use agent_comm.Remote.State.{Bridge, Response}
use agent_comm.Remote.Parse.{Request}
use agent_comm.Remote.Pairing.{Settings}
use agent_comm.Remote.Invoke.{Store}
use agent_comm.Remote.Route.Effect.{IsEffect}
use agent_comm.Remote.Handle.{handle, resolve}
use agent_comm.Remote.Handle.Rows.{IsAnswer, resolve_rows, handle_cases}
use agent_comm.Remote.Turns.{claim_turn, finish_turn, recover_interrupted_turns}
use agent_comm.Remote.Turns.Sound.{
  IsSound, save-IsSound, claim-IsSound, finish-IsSound, recover-IsSound,
}
use agent_comm.Remote.Steps.{
  new_bridge, Step, Steps, handled, paired, revoked, claimed, finished, recovered, selected, stored,
  begin, next,
}
use agent_comm.Remote.Steps.Frame.{pair_frame, revoke_frame, select_frame}

effect-IsSound : (b b' : Bridge) → IsEffect b b' → IsSound b → IsSound b'
effect-IsSound b b' (inl e) h = subst IsSound (sym e) h
effect-IsSound b b' (inr (j, (s, e))) h = subst IsSound (sym e) (save-IsSound j b (rw s refl) h)

module _ (R : Runtime) (S : Store) where
  answer-IsSound :
      (r : Request) (b : Bridge) (x : Response × Bridge × S.State)
      → IsAnswer R S r b x
      → IsSound b
      → IsSound (x.1)
  answer-IsSound r b x (b1, (i, inl e)) h = subst IsSound (sym e) (effect-IsSound b b1 i h)
  answer-IsSound r b x (b1, (i, inr (c, (e, k)))) h =
      subst IsSound (sym e) (effect-IsSound b b1 i h)

  handle-IsSound :
      (s : Settings) (message : Json) (now : ℕ) (b : Bridge) (σ : S.State)
      → IsSound b
      → IsSound ((handle R S s message now b σ).1)
  handle-IsSound s message now b σ h = elim (handle_cases R S s message now b σ) [
    | inl e ↦ subst IsSound (sym e) h
    | inr (r, e) ↦
        subst IsSound (sym e)
          (answer-IsSound r b (resolve R S s r now b σ) (resolve_rows R S s r now b σ) h)
  ]

  -- Each operation leads from a sound database to a sound one.
  pub Step-IsSound : {v w : Bridge × S.State} → Step R S v w → IsSound (v.0) → IsSound (w.0)
  unfolding claim_turn finish_turn recover_interrupted_turns
  Step-IsSound (handled s message now b σ) h = handle-IsSound s message now b σ h
  Step-IsSound (paired console owner methods expires_at now b b' σ p e) h =
      subst IsSound (pair_frame R console owner methods expires_at now b b' p e) h
  Step-IsSound (revoked console b b' σ e) h =
      let (p, (_, f)) = revoke_frame R console b b' e in subst IsSound f h
  Step-IsSound (claimed s now b σ) h = claim-IsSound R s now b h
  Step-IsSound (finished turn_id response error is_interrupted now b σ) h =
      finish-IsSound turn_id response error is_interrupted now b h
  Step-IsSound (recovered now b σ) h = recover-IsSound now b h
  Step-IsSound (selected messages limit b b' σ batch e) h =
      elim (select_frame messages limit b b' batch e) [
        | inl f ↦ subst IsSound f h
        | inr (id, f) ↦ subst IsSound f h
      ]
  Step-IsSound (stored b σ τ) h = h

  Steps-IsSound : {v w : Bridge × S.State} → Steps R S v w → IsSound (v.0) → IsSound (w.0)
  Steps-IsSound (begin w) h = h
  Steps-IsSound (next run step) h = Step-IsSound step (Steps-IsSound run h)

  -- In every run that begins with a new database, whatever the order of the operations, at most one
  -- turn runs at a time, and the rows of the turns stand sorted under their own identifiers.
  pub at_most_one_runs : (b : Bridge) (σ τ : S.State) → Steps R S (new_bridge, σ) (b, τ) → IsSound b
  unfolding rows
  at_most_one_runs b σ τ run = Steps-IsSound run ((tt, tt), (omega arith))
