-- ===== src/Remote/Handle/Rows.antt =====
-- What `handle` (remote.py) writes to the database of the bridge.
use agent_comm.Prelude.{ℕ, Option, none, some, ◌≡◌, refl, ◌⊎◌, inl, inr, arith, Bool-cases, leb}
use agent_comm.Json.{Json}
use agent_comm.Runtime.{Runtime}
use agent_comm.Table.{get, put}
use agent_comm.Remote.State.{Pairing, Bridge, Cached, Response, Outcome, ok, raised}
use agent_comm.Remote.Parse.{Request, parse, deadline_of}
use agent_comm.Remote.Pairing.{Settings, authorized}
use agent_comm.Remote.Invoke.{Store}
use agent_comm.Remote.Route.{request_key, request_fingerprint, invoke}
use agent_comm.Remote.Route.Effect.{IsEffect, invoke-IsEffect}
use agent_comm.Remote.Handle.{handle, gate, resolve, answered, store_response}
use agent_comm.Remote.Handle.Answer.{Outcome-cases}

module _ (R : Runtime) (S : Store) where
  -- The database after a request: that of `_invoke`, and one row for a request that had none.
  abbrev pub IsAnswer : Request → Bridge → Response × Bridge × S.State → Type 0
  IsAnswer r b x =
      (b1 : Bridge) × (IsEffect b b1
        × ((x.1 ≡ b1)
            ⊎ ((c : Cached) × ((x.1 ≡ record b1 { requests = put (request_key R r) c b1.requests })
                  × ((c.response ≡ x.0)
                      × ((c.fingerprint ≡ request_fingerprint R r)
                          × (get b.requests (request_key R r) ≡ none)))))))

  gate_old :
      (s : Settings) (r : Request) (now : ℕ) (b : Bridge) (p : Pairing) (o : Option Cached)
      → gate R s r now b ≡ ok (p, o)
      → get b.requests (request_key R r) ≡ o
  unfolding gate
  gate_old s r now b p o h = elim (Outcome-cases (authorized R s r.console_urn r.method now b)) [
    | inl (q, e) ↦ ground arith
    | inr (f, e) ↦ ground arith
  ]

  answered_lem :
      (r : Request) (p : Pairing) (b : Bridge) (x : Outcome Json × Bridge × S.State)
      → IsEffect b (x.1)
      → get b.requests (request_key R r) ≡ none
      → IsAnswer r b (answered R S r p x)
  unfolding answered store_response
  answered_lem r p b (raised e, b1, τ) i h = (b1, (i, inl refl))
  answered_lem r p b (ok v, b1, τ) i h = (b1, (i, inr (_, (refl, (refl, (refl, h))))))

  pub resolve_rows :
      (s : Settings) (r : Request) (now : ℕ) (b : Bridge) (σ : S.State)
      → IsAnswer r b (resolve R S s r now b σ)
  unfolding resolve
  resolve_rows s r now b σ = go (gate R s r now b) refl
    where
      go :
          (o : Outcome (Pairing × Option Cached))
          → gate R s r now b ≡ o
          → IsAnswer r b (resolve R S s r now b σ)
      go (raised e) h = rw (h, resolve) ((b, (inl refl, inl refl)))
      go (ok (p, some c)) h = rw (h, resolve) ((b, (inl refl, inl refl)))
      go (ok (p, none)) h =
          rw (h, resolve)
            (answered_lem r p b (invoke R S s r p now b σ) (invoke-IsEffect R S b s r p now σ)
              (gate_old s r now b p none h))

  -- `handle` writes what its transaction writes, if it gets there.
  pub handle_cases :
      (s : Settings) (message : Json) (now : ℕ) (b : Bridge) (σ : S.State)
      → ((handle R S s message now b σ).1 ≡ b)
        ⊎ ((r : Request) × ((handle R S s message now b σ).1 ≡ (resolve R S s r now b σ).1))
  unfolding handle
  handle_cases s message now b σ = elim (Outcome-cases (parse R s.local_urn now message)) [
    | inr (x, e) ↦ inl (rw (e, handle) refl)
    | inl (r, e) ↦ elim (Outcome-cases (deadline_of R (some r.deadline))) [
      | inr (x, f) ↦ inl (rw (e, f, handle) refl)
      | inl (t, f) ↦ elim (Bool-cases (leb t now)) [
        | inl k ↦ inl (rw (e, f, k, handle) refl)
        | inr k ↦ inr (r, rw (e, f, k, handle) refl)
      ]
    ]
  ]
