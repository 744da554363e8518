-- ===== src/Remote/Route/Effect.antt =====
-- What `_invoke` (remote.py) may write to the bridge's own database.
use agent_comm.Prelude.{ℕ, String, ◌&&◌, List, ◌≡◌, refl, ◌⊎◌, inl, inr, same, mem, if_both}
use agent_comm.Json.{Json}
use agent_comm.Runtime.{Runtime}
use agent_comm.Table.{put, rows}
use agent_comm.Remote.State.{Pairing, Turn, submitted, Bridge, Outcome, ok, raised, ◌>>=◌}
use agent_comm.Remote.Parse.{Request}
use agent_comm.Remote.Pairing.{Settings, read_methods, write_methods}
use agent_comm.Remote.Invoke.{Store, Call}
use agent_comm.Remote.Conversation.{new_turn, turn_id_of, turn_params, send, submitted_row}
use agent_comm.Remote.Route.{
  invoke, perform, sent, sync_events, write_call, read_call, handler_call, session_of,
}

-- The database is as before, or has one more turn that was submitted.
abbrev pub IsEffect : Bridge → Bridge → Type 0
IsEffect b b' =
    (b' ≡ b)
    ⊎ ((j : Turn) × ((j.status ≡ submitted) × (b' ≡ record b { turns = put j.turn_id j b.turns })))

module _ (R : Runtime) (S : Store) (b : Bridge) where
  -- The database of a run of `_invoke`.
  Keeps : Outcome Json × Bridge × S.State → Type 0
  Keeps x = IsEffect b (x.1)

  perform_lem : (o : Outcome Call) (σ : S.State) → Keeps (perform R S o b σ)
  unfolding perform Keeps
  perform_lem (raised e) σ = inl refl
  perform_lem (ok c) σ = inl refl

  sent_lem :
      (s : Settings) (r : Request) (p : Pairing) (owner : String) (now : ℕ) (σ τ : S.State)
      → Keeps (sent R S (send R S s r p owner now b σ) b τ)
  unfolding sent Keeps send new_turn
  sent_lem s r p owner now σ τ = go (turn_params R S s r p owner b σ)
    where
      go :
          (o : Outcome (String × List String × String))
          → Keeps (
              sent R S
                (o >>= λ given. ok (
                  submitted_row R S (new_turn R S r p now given),
                  record b {
                    turns = put (turn_id_of R S r p) (new_turn R S r p now given) b.turns;
                  },
                ))
                b
                τ)
      go (ok given) = inr (new_turn R S r p now given, (refl, refl))
      go (raised e) = inl refl

  attention_lem :
      (o : Outcome Call) (σ τ : S.State)
      → Keeps (elim o [ raised e ↦ (raised e, b, σ) | ok c ↦ perform R S (ok c) b τ ])
  unfolding perform Keeps
  attention_lem (raised e) σ τ = inl refl
  attention_lem (ok c) σ τ = inl refl

  pub invoke-IsEffect :
      (s : Settings) (r : Request) (p : Pairing) (now : ℕ) (σ : S.State)
      → IsEffect b ((invoke R S s r p now b σ).1)
  unfolding invoke Keeps
  invoke-IsEffect s r p now σ =
      if_both Keeps (same r.method "capabilities") (λ _. inl refl)
        λ _.
          if_both Keeps (mem r.method write_methods) (λ _. perform_lem (write_call R r p) σ)
            λ _.
              if_both Keeps (same r.method "attention.list")
                (λ _. attention_lem (read_call R r p b) σ (sync_events R S p (rows b.turns) σ))
                λ _.
                  if_both Keeps (mem r.method read_methods) (λ _. perform_lem (read_call R r p b) σ)
                    λ _.
                      if_both Keeps (same r.method "conversation.send" && s.conversations)
                        (λ _. sent_lem s r p (session_of R p) now σ σ)
                        λ _.
                          if_both Keeps (same r.method "conversation.get" && s.conversations)
                            (λ _. inl refl)
                            λ _.
                              if_both Keeps (mem r.method s.handlers)
                                (λ _. perform_lem (handler_call R r p b) σ) (λ _. inl refl)
