-- ===== src/Remote/Handle/Answer.antt =====
-- What `handle` (remote.py) answers and writes: without a pairing, at first, and again.
use agent_comm.Prelude.{
  ℕ, true, false, ◌&&◌, some, ◌≡◌, refl, ◌⊎◌, inl, inr, arith, same, same_iff, Option, none,
  if_both, leb,
}
use agent_comm.Runtime.{Runtime}
use agent_comm.Table.{get}
use agent_comm.Remote.State.{Response, Pairing, Bridge, Cached, Outcome, ok, raised, Failure}
use agent_comm.Remote.Parse.{Request}
use agent_comm.Remote.Pairing.{Settings, authorized}
use agent_comm.Remote.Pairing.Access.{Allows, authorized_iff}
use agent_comm.Remote.Invoke.{Store, require_peer_model_safety}
use agent_comm.Remote.Route.{request_key, request_fingerprint}
use agent_comm.Remote.Handle.{
  gate, delivered, still_owned, resolve, error_response, envelope, conflict,
}

pub Outcome-cases {ℓ} :
    {A : Type ℓ} (o : Outcome A) → ((a : A) × (o ≡ ok a)) ⊎ ((e : Failure) × (o ≡ raised e))
Outcome-cases (ok a) = inl (a, refl)
Outcome-cases (raised e) = inr (e, refl)

module _ (R : Runtime) where
  -- The row answers the request of this fingerprint for the owner of the pairing.
  abbrev pub Answers : Request → Pairing → Cached → Type 0
  Answers r p c =
      (c.fingerprint ≡ request_fingerprint R r) × (c.owner_principal ≡ p.owner_principal)

  -- The host may run a conversation, where the request is to send one.
  abbrev pub IsSafe : Settings → Request → Type 0
  IsSafe s r =
      r.method ≡ "conversation.send"
      → (s.conversations && s.peer_content_safety_enabled && s.reviews) ≡ true

  gate-denied :
      (s : Settings) (r : Request) (now : ℕ) (b : Bridge) (e : Failure)
      → authorized R s r.console_urn r.method now b ≡ raised e
      → gate R s r now b ≡ raised e
  unfolding gate
  gate-denied s r now b e h = rw h refl

  gate-answered :
      (s : Settings) (r : Request) (now : ℕ) (b : Bridge) (p : Pairing) (c : Cached)
      → authorized R s r.console_urn r.method now b ≡ ok p
      → get b.requests (request_key R r) ≡ some c
      → Answers r p c
      → IsSafe s r
      → gate R s r now b ≡ ok (p, some c)
  unfolding gate require_peer_model_safety
  gate-answered s r now b p c h f (i, j) k =
      rw (h, f)
        (ground (
          arith,
          same_iff c.fingerprint (request_fingerprint R r),
          same_iff c.owner_principal p.owner_principal,
          same_iff r.method "conversation.send",
        ))

  gate-conflict :
      (s : Settings) (r : Request) (now : ℕ) (b : Bridge) (p : Pairing) (c : Cached)
      → authorized R s r.console_urn r.method now b ≡ ok p
      → get b.requests (request_key R r) ≡ some c
      → (same c.fingerprint (request_fingerprint R r) && same c.owner_principal p.owner_principal)
        ≡ false
      → gate R s r now b ≡ raised (conflict R)
  unfolding gate
  gate-conflict s r now b p c h f i = rw (h, f) ground arith

  error_response_lem : (r : Request) (e : Failure) → (error_response R r e).is_result ≡ false
  unfolding error_response envelope
  error_response_lem r e = refl

module _ (R : Runtime) (S : Store) where
  -- A request that no pairing of its console allows gets an error, and neither the database of the
  -- bridge nor the store changes.
  pub resolve_denied :
      (s : Settings) (r : Request) (now : ℕ) (b : Bridge) (σ : S.State)
      → ((p : Pairing) → ¬ Allows R s r.console_urn r.method now b p)
      → ((resolve R S s r now b σ).0.is_result ≡ false)
        × (((resolve R S s r now b σ).1 ≡ b) × ((resolve R S s r now b σ).2 ≡ σ))
  unfolding resolve
  resolve_denied s r now b σ h =
      elim (Outcome-cases (authorized R s r.console_urn r.method now b)) [
        | inl (p, e) ↦ absurd (h p ((authorized_iff R s r.console_urn r.method now b p).0 e))
        | inr (e, f) ↦
            rw (gate-denied R s r now b e f, resolve) ((error_response_lem R r e, (refl, refl)))
      ]

  -- A request that has a row, for the same contents and the owner of the pairing that allows it, gets
  -- the response of the row, and neither the database of the bridge nor the store changes.
  pub resolve_answered :
      (s : Settings) (r : Request) (now : ℕ) (b : Bridge) (σ : S.State) (p : Pairing) (c : Cached)
      → Allows R s r.console_urn r.method now b p
      → get b.requests (request_key R r) ≡ some c
      → Answers R r p c
      → IsSafe R s r
      → resolve R S s r now b σ ≡ (c.response, b, σ)
  unfolding resolve
  resolve_answered s r now b σ p c a f i k =
      let e = (authorized_iff R s r.console_urn r.method now b p).1 a in
      rw (gate-answered R s r now b p c e f i k, resolve) refl

  -- A request whose row is for other contents or for another owner gets an error, and neither the
  -- database of the bridge nor the store changes.
  pub resolve-conflict :
      (s : Settings) (r : Request) (now : ℕ) (b : Bridge) (σ : S.State) (p : Pairing) (c : Cached)
      → Allows R s r.console_urn r.method now b p
      → get b.requests (request_key R r) ≡ some c
      → (same c.fingerprint (request_fingerprint R r) && same c.owner_principal p.owner_principal)
        ≡ false
      → resolve R S s r now b σ ≡ (error_response R r (conflict R), b, σ)
  unfolding resolve
  resolve-conflict s r now b σ p c a f i =
      let e = (authorized_iff R s r.console_urn r.method now b p).1 a in
      rw (gate-conflict R s r now b p c e f i, resolve) refl

  -- What `delivery` may hand to the transport: no response that discloses a result.
  abbrev pub IsUndisclosed : Option Response → Type 0
  IsUndisclosed none = Unit
  IsUndisclosed (some v) = v.is_result ≡ false

  -- A request that no pairing of its console allows any more delivers no result, also where `handle`
  -- had made one before.
  pub delivered_denied :
      (s : Settings) (r : Request) (t now : ℕ) (o : Option Response) (b : Bridge)
      → ((p : Pairing) → ¬ Allows R s r.console_urn r.method now b p)
      → IsUndisclosed (delivered R s r t now o b)
  unfolding delivered still_owned
  delivered_denied s r t now none b h = tt
  delivered_denied s r t now (some v) b h =
      elim (Outcome-cases (authorized R s r.console_urn r.method now b)) [
        | inl (p, e) ↦ absurd (h p ((authorized_iff R s r.console_urn r.method now b p).0 e))
        | inr (e, f) ↦
            if_both IsUndisclosed (leb t now) (λ _. tt)
              λ _.
                if_both IsUndisclosed v.is_result
                  (λ _. rw (f, still_owned) (error_response_lem R r e)) λ k. k
      ]
