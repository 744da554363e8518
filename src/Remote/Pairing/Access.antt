-- ===== src/Remote/Pairing/Access.antt =====
-- What `_authorized` (remote.py) admits, after `pair` and after `revoke`.
use agent_comm.Prelude.{
  ℕ, String, true, false, Option, none, some, ◌≡◌, ◌<◌, ◌↔◌, arith, same_iff, mem, Option-cases,
  inl, inr,
}
use agent_comm.Runtime.{Runtime}
use agent_comm.Table.{get}
use agent_comm.Remote.State.{Pairing, Bridge, ok}
use agent_comm.Remote.Pairing.{Settings, authorized, admit, is_over, foreign}

-- The principal that the host profile is bound to, if any, owns the pairing.
abbrev pub IsBound : Option String → Pairing → Type 0
IsBound none p = Unit
IsBound (some owner) p = p.owner_principal ≡ owner

module _ (R : Runtime) where
  abbrev pub IsCurrent : ℕ → Pairing → Type 0
  IsCurrent now p = (t : ℕ) × ((R.instant p.expires_at ≡ some t) × (now < t))

  -- The pairing `p` of the console allows the method at the instant `now`.
  abbrev pub Allows : Settings → String → String → ℕ → Bridge → Pairing → Type 0
  Allows s console method now b p =
      (get b.pairings console ≡ some p)
      × ((p.revoked ≡ false)
          × (IsCurrent now p × (IsBound s.bound_principal p × (mem method p.methods ≡ true))))

  pub is_over-IsCurrent : (now : ℕ) (p : Pairing) → (is_over R p now ≡ false) ↔ IsCurrent now p
  unfolding is_over
  is_over-IsCurrent now p = elim (Option-cases (R.instant p.expires_at)) [
    | inl e ↦ ground arith
    | inr (t, e) ↦ ((λ h. (t, (e, ground arith))), λ (u, (f, h)). ground arith)
  ]

  foreign-IsBound : (o : Option String) (p : Pairing) → (foreign R o p ≡ false) ↔ IsBound o p
  unfolding foreign
  foreign-IsBound none p = ground arith
  foreign-IsBound (some owner) p = ground (arith, same_iff p.owner_principal owner)

  admit_iff :
      (s : Settings) (method : String) (now : ℕ) (o : Option Pairing) (p : Pairing)
      → (admit R s method now o ≡ ok p) ↔ (
          (o ≡ some p)
          × ((p.revoked ≡ false)
              × ((is_over R p now ≡ false)
                  × ((foreign R s.bound_principal p ≡ false) × (mem method p.methods ≡ true)))))
  unfolding admit
  admit_iff s method now none p = ground arith
  admit_iff s method now (some q) p = grind arith

  -- `_authorized` gives a pairing exactly when it is the console's, is not revoked, has an expiry
  -- ahead, belongs to the bound principal if there is one, and lists the method.
  pub authorized_iff :
      (s : Settings) (console method : String) (now : ℕ) (b : Bridge) (p : Pairing)
      → (authorized R s console method now b ≡ ok p) ↔ Allows s console method now b p
  unfolding authorized
  authorized_iff s console method now b p = grind (
    arith,
    admit_iff s method now (get b.pairings console) p,
    is_over-IsCurrent now p,
    foreign-IsBound s.bound_principal p,
  )
