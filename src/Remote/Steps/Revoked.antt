-- ===== src/Remote/Steps/Revoked.antt =====
-- A revoked pairing (remote.py) stays without effect until the console is paired again.
use agent_comm.Prelude.{
  ℕ, String, true, false, Option, some, ◌≡◌, refl, sym, inl, inr, arith, subst, same, same_iff,
  same_refl, mem, Bool-cases,
}
use agent_comm.Runtime.{Runtime}
use agent_comm.Table.{get, put}
use agent_comm.Table.Laws.{get-put}
use agent_comm.Remote.State.{ok, Pairing, Bridge, Response}
use agent_comm.Remote.Parse.{Request}
use agent_comm.Remote.Pairing.{Settings}
use agent_comm.Remote.Pairing.{revoke}
use agent_comm.Table.Laws.{get-put}
use agent_comm.Remote.Invoke.{Store}
use agent_comm.Remote.Route.Effect.{IsEffect}
use agent_comm.Remote.Handle.{resolve}
use agent_comm.Remote.Handle.Rows.{IsAnswer}
use agent_comm.Remote.Pairing.Access.{Allows}
use agent_comm.Remote.Handle.Answer.{IsUndisclosed, resolve_denied, delivered_denied}
use agent_comm.Remote.Handle.{delivered}
use agent_comm.Remote.Steps.{Steps, paired_in}
use agent_comm.Remote.Steps.Frame.{revoke_frame}
use agent_comm.Remote.Steps.Lasting.{steps_keep}

-- A console whose pairing, if it has one, is revoked.
abbrev pub IsOut : String → Bridge → Type 0
IsOut console b = (p : Pairing) → get b.pairings console ≡ some p → p.revoked ≡ true

effect-IsOut : (k : String) (b b' : Bridge) → IsEffect b b' → IsOut k b → IsOut k b'
effect-IsOut k b b' (inl e) h = subst (IsOut k) (sym e) h
effect-IsOut k b b' (inr (j, (s, e))) h = subst (IsOut k) (sym e) h

module _ (R : Runtime) (S : Store) where
  answer-IsOut :
      (r : Request) (k : String) (b : Bridge) (x : Response × Bridge × S.State)
      → IsAnswer R S r b x
      → IsOut k b
      → IsOut k (x.1)
  answer-IsOut r k b x (b1, (i, inl e)) h = subst (IsOut k) (sym e) (effect-IsOut k b b1 i h)
  answer-IsOut r k b x (b1, (i, inr (d, (e, _)))) h =
      subst (IsOut k) (sym e) (effect-IsOut k b b1 i h)

  put-IsOut :
      (i k : String) (p : Pairing) (b : Bridge)
      → (same i k ≡ true → p.revoked ≡ true)
      → IsOut k b
      → IsOut k (record b { pairings = put i p b.pairings })
  put-IsOut i k p b f h q e = elim (Bool-cases (same i k)) [
    | inl m ↦ grind (arith, f m, get-put i k p b.pairings)
    | inr m ↦ grind (arith, h q, get-put i k p b.pairings)
  ]

  run-IsOut :
      (console : String) (b b' b'' : Bridge) (σ τ : S.State)
      → revoke R console b ≡ ok b'
      → (run : Steps R S (b', σ) (b'', τ)) → mem console (paired_in R S run) ≡ false
      → IsOut console b''
  run-IsOut console b b' b'' σ τ e run m =
      steps_keep R S (IsOut console) (λ j c h. h) (λ id c h. h)
        (λ r c x i h. answer-IsOut r console c x i h) run
        (λ i c p n h. put-IsOut i console p c (λ u. grind (arith, m, n, same_iff i console)) h)
        (λ i c p n h. put-IsOut i console (record p { revoked = true }) c (λ _. refl) h)
        (let (p, (g, f)) = revoke_frame R console b b' e in
          subst (IsOut console) f (λ q u. grind (
            arith,
            u,
            get-put console console (record p { revoked = true }) b.pairings,
            same_refl console,
          )))

  not_allowed :
      (s : Settings) (r : Request) (console : String) (now : ℕ) (b : Bridge)
      → IsOut console b
      → r.console_urn ≡ console
      → (p : Pairing) → ¬ Allows R s r.console_urn r.method now b p
  not_allowed s r console now b h k p (e, (f, _)) = grind (arith, e, f, k, h p)

  -- After `revoke` of a console, and after any run that does not pair the console again, a request of
  -- the console gets no result and changes nothing, and no response that discloses a result is
  -- delivered to it, also where `handle` had made one before.
  pub revoke_lasts :
      (console : String) (b b' b'' : Bridge) (σ τ : S.State)
      → revoke R console b ≡ ok b'
      → (run : Steps R S (b', σ) (b'', τ)) → mem console (paired_in R S run) ≡ false
      → (s : Settings) (r : Request) (t now : ℕ) (o : Option Response) → r.console_urn ≡ console
      → ((resolve R S s r now b'' τ).0.is_result ≡ false)
        × (((resolve R S s r now b'' τ).1 ≡ b'')
            × (((resolve R S s r now b'' τ).2 ≡ τ)
                × IsUndisclosed R S (delivered R s r t now o b'')))
  revoke_lasts console b b' b'' σ τ e run m s r t now o k =
      let out = run-IsOut console b b' b'' σ τ e run m in
      let denied : (p : Pairing) → ¬ Allows R s r.console_urn r.method now b'' p =
        λ p a. not_allowed s r console now b'' out k p a in
      let (i, (j, l)) = resolve_denied R S s r now b'' τ denied in
      (i, (j, (l, delivered_denied R S s r t now o b'' denied)))
