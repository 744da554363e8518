-- ===== src/Remote/Steps/Replay.antt =====
-- A request (remote.py) is run at most once: its answer stays in the database.
use agent_comm.Prelude.{ℕ, String, none, some, ◌≡◌, sym, ap, ◌∙◌, inl, inr, arith, subst, same_iff}
use agent_comm.Runtime.{Runtime}
use agent_comm.Table.{Table, get, put}
use agent_comm.Table.Laws.{get-put_self, get-put}
use agent_comm.Remote.State.{Pairing, Bridge, Cached, Response}
use agent_comm.Remote.Parse.{Request}
use agent_comm.Remote.Pairing.{Settings}
use agent_comm.Remote.Invoke.{Store}
use agent_comm.Remote.Route.{request_key, request_fingerprint}
use agent_comm.Remote.Route.Effect.{IsEffect}
use agent_comm.Remote.Handle.{resolve}
use agent_comm.Remote.Handle.Rows.{IsAnswer, resolve_rows}
use agent_comm.Remote.Pairing.Access.{Allows}
use agent_comm.Remote.Handle.Answer.{IsSafe, resolve_answered}
use agent_comm.Remote.Steps.{Steps}
use agent_comm.Remote.Steps.Lasting.{steps_keep}

-- The row of the key is there.
abbrev pub HasRow : String → Cached → Bridge → Type 0
HasRow k c b = get b.requests k ≡ some c

effect-HasRow :
    (k : String) (c : Cached) (b b' : Bridge) → IsEffect b b' → HasRow k c b → HasRow k c b'
effect-HasRow k c b b' (inl e) h = subst (HasRow k c) (sym e) h
effect-HasRow k c b b' (inr (j, (s, e))) h = subst (HasRow k c) (sym e) h

effect_none :
    (k : String) (b b' : Bridge)
    → IsEffect b b'
    → get b.requests k ≡ none
    → get b'.requests k ≡ none
effect_none k b b' (inl e) h = subst (λ x. get (Bridge.requests x) k ≡ none) (sym e) h
effect_none k b b' (inr (j, (s, e))) h = subst (λ x. get (Bridge.requests x) k ≡ none) (sym e) h

put_apart :
    (i k : String) (c d : Cached) (t : Table Cached)
    → get t i ≡ none
    → get t k ≡ some c
    → get (put i d t) k ≡ some c
put_apart i k c d t f h = grind (arith, get-put i k d t, same_iff i k)

module _ (R : Runtime) (S : Store) where
  answer-HasRow :
      (r : Request) (k : String) (c : Cached) (b : Bridge) (x : Response × Bridge × S.State)
      → IsAnswer R S r b x
      → HasRow k c b
      → HasRow k c (x.1)
  answer-HasRow r k c b x (b1, (i, inl e)) h =
      subst (HasRow k c) (sym e) (effect-HasRow k c b b1 i h)
  answer-HasRow r k c b x (b1, (i, inr (d, (e, (_, (_, f)))))) h = subst (HasRow k c) (sym e) (
      put_apart (request_key R r) k c d b1.requests (effect_none (request_key R r) b b1 i f)
        (effect-HasRow k c b b1 i h))

  run_row :
      (k : String) (c : Cached) {v w : Bridge × S.State}
      → HasRow k c (v.0)
      → Steps R S v w
      → HasRow k c (w.0)
  run_row k c h run =
      steps_keep R S (HasRow k c) (λ j d g. g) (λ id d g. g)
        (λ r d x i g. answer-HasRow r k c d x i g) run (λ i d p n g. g) (λ i d p n g. g) h

  answer_row :
      (r : Request) (b : Bridge) (x : Response × Bridge × S.State) (c : Cached)
      → IsAnswer R S r b x
      → get b.requests (request_key R r) ≡ none
      → HasRow (request_key R r) c (x.1)
      → (c.response ≡ x.0) × (c.fingerprint ≡ request_fingerprint R r)
  answer_row r b x c (b1, (i, inl e)) h f =
      let k = subst (HasRow (request_key R r) c) e f in
      grind (arith, k, effect_none (request_key R r) b b1 i h)
  answer_row r b x c (b1, (i, inr (d, (e, (g, (j, _)))))) h f =
      let k = subst (HasRow (request_key R r) c) e f in
      grind (arith, k, g, j, get-put_self (request_key R r) d b1.requests)

  -- A request that `handle` answered with a row of its own is answered with the same response, and
  -- runs nothing again, after any run of the bridge, by whichever process and under whichever
  -- settings: as long as a pairing of the same owner allows it and, for a conversation, the host
  -- still is safe.
  pub replay_lasts :
      (s s' : Settings) (r : Request) (now now' : ℕ) (b b' : Bridge) (σ τ : S.State) (c : Cached)
      (p : Pairing)
      → get b.requests (request_key R r) ≡ none
      → HasRow (request_key R r) c ((resolve R S s r now b σ).1)
      → Steps R S ((resolve R S s r now b σ).1, (resolve R S s r now b σ).2) (b', τ)
      → Allows R s' r.console_urn r.method now' b' p
      → c.owner_principal ≡ p.owner_principal
      → IsSafe R s' r
      → resolve R S s' r now' b' τ ≡ ((resolve R S s r now b σ).0, b', τ)
  replay_lasts s s' r now now' b b' σ τ c p h f run a o k =
      let (i, j) = answer_row r b (resolve R S s r now b σ) c (resolve_rows R S s r now b σ) h f in
      resolve_answered R S s' r now' b' τ p c a (run_row (request_key R r) c f run) (j, o) k
      ∙ ap (λ v. (v, b', τ)) i
