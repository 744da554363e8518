-- ===== src/Remote/Turns/Grant.antt =====
-- What `claim_turn` (remote.py) gives out.
use agent_comm.Prelude.{
  ℕ, Bool, true, false, ◌&&◌, some, List, [], ◌∷◌, ◌≡◌, refl, inl, inr, arith, any, All, same_iff,
  if_both, subst,
}
use agent_comm.Runtime.{Runtime}
use agent_comm.Table.{get, rows}
use agent_comm.Table.Laws.{get-put_self}
use agent_comm.Remote.State.{
  Pairing, Turn, TurnStatus, submitted, running, completed, failed, interrupted, Bridge, Outcome,
  ok, raised,
}
use agent_comm.Remote.Pairing.{Settings, authorized}
use agent_comm.Remote.Pairing.Access.{Allows, authorized_iff}
use agent_comm.Remote.Conversation.{place, precedes, sort_turns}
use agent_comm.Remote.Turns.Sound.{IsKeyed}
use agent_comm.Table.Sorted.{Each-map, Each-get, Each-rows}
use agent_comm.Remote.Handle.Answer.{Outcome-cases}
use agent_comm.Remote.Turns.{
  is_running, is_submitted, save, start, refuse, may_start, claim_from, claim,
}

submitted_lem : (t : TurnStatus) → is_submitted t ≡ true → t ≡ submitted
submitted_lem submitted h = refl
submitted_lem running h = absurd (ground arith)
submitted_lem completed h = absurd (ground arith)
submitted_lem failed h = absurd (ground arith)
submitted_lem interrupted h = absurd (ground arith)

place-All : (P : Turn → Type 0) (i : Turn) (js : List Turn) → P i → All P js → All P (place i js)
unfolding place
place-All P i [] h a = (h, tt)
place-All P i (j ∷ js) h (p, a) =
    if_both (All P) (precedes j i) (λ _. (p, place-All P i js h a)) (λ _. (h, (p, a)))

pub sort_turns-All : (P : Turn → Type 0) (js : List Turn) → All P js → All P (sort_turns js)
unfolding sort_turns
sort_turns-All P [] a = tt
sort_turns-All P (j ∷ js) (p, a) = place-All P j (sort_turns js) p (sort_turns-All P js a)

-- Each row of a keyed database is read by its own identifier.
pub IsKeyed-All :
    (b : Bridge) → IsKeyed b → All (λ j. get b.turns j.turn_id ≡ some j) (rows b.turns)
IsKeyed-All b (s, e) =
    Each-rows (λ j. get b.turns j.turn_id ≡ some j) b.turns
      (Each-map (λ k j p q. subst (λ x. get b.turns x ≡ some j) p q) b.turns e (Each-get b.turns s))

module _ (R : Runtime) where
  -- The turn runs in the database under its identifier; the host is safe, and a pairing of the owner of the turn allows its console to send.
  abbrev pub IsGranted : Settings → ℕ → Bridge → Turn → Type 0
  IsGranted s now b' j =
      (j.status ≡ running)
      × ((get b'.turns j.turn_id ≡ some j)
          × (((s.conversations && s.peer_content_safety_enabled && s.reviews) ≡ true)
              × ((p : Pairing) × (Allows R s j.console_urn "conversation.send" now b' p
                    × (p.owner_principal ≡ j.owner_principal)))))

  may_start_lem :
      (s : Settings) (now : ℕ) (b : Bridge) (j : Turn) (u : Unit)
      → may_start R s now b j ≡ ok u
      → ((s.conversations && s.peer_content_safety_enabled && s.reviews) ≡ true)
        × ((p : Pairing) × (Allows R s j.console_urn "conversation.send" now b p
              × (p.owner_principal ≡ j.owner_principal)))
  unfolding may_start
  may_start_lem s now b j u h =
      elim (Outcome-cases (authorized R s j.console_urn "conversation.send" now b)) [
        | inr (e, f) ↦ absurd (ground arith)
        | inl (p, f) ↦ (
          ground arith,
          (
            p,
            (
              (authorized_iff R s j.console_urn "conversation.send" now b p).0 f,
              ground (arith, same_iff p.owner_principal j.owner_principal),
            ),
          ),
        )
      ]

  -- A row of a list of turns, submitted, of which the given turn is the start.
  abbrev pub IsStart : (Turn → Type 0) → ℕ → Turn → Type 0
  IsStart P now j = (i : Turn) × (P i × ((i.status ≡ submitted) × (start now i ≡ j)))

  claim_from-IsGranted :
      (P : Turn → Type 0) (s : Settings) (now : ℕ) (js : List Turn) (b : Bridge) (j : Turn)
      → All P js
      → (claim_from R s now js b).claimed ≡ some j
      → IsGranted s now ((claim_from R s now js b).bridge) j × IsStart P now j
  unfolding claim_from start
  claim_from-IsGranted P s now [] b j a h = absurd (ground arith)
  claim_from-IsGranted P s now (i ∷ js) b j (p, a) h =
      go (is_submitted i.status) refl (may_start R s now b i) refl
        (λ b'. claim_from-IsGranted P s now js b' j a) h
    where
      Goal : Bridge → Type 0
      Goal b' =
          (claim_from R s now js b').claimed ≡ some j
          → IsGranted s now ((claim_from R s now js b').bridge) j × IsStart P now j

      given : some (start now i) ≡ some j → start now i ≡ j
      given h = ground arith

      granted :
          (x : Unit)
          → may_start R s now b i ≡ ok x
          → is_submitted i.status ≡ true
          → IsGranted s now (save (start now i) b) (start now i) × IsStart P now (start now i)
      granted x f e = (
        (refl, (get-put_self i.turn_id (start now i) b.turns, may_start_lem s now b i x f)),
        (i, (p, (submitted_lem i.status e, refl))),
      )

      go :
          (x : Bool)
          → is_submitted i.status ≡ x
          → (o : Outcome Unit) → may_start R s now b i ≡ o
          → ((b' : Bridge) → Goal b')
          → (claim_from R s now (i ∷ js) b).claimed ≡ some j
          → IsGranted s now ((claim_from R s now (i ∷ js) b).bridge) j × IsStart P now j
      go false e o f ih = rw (e, claim_from) (ih b)
      go true e (raised x) f ih = rw (e, f, claim_from) (ih (save (refuse x now i) b))
      go true e (ok x) f ih =
          rw (e, f, claim_from)
            (λ h.
              subst (λ k. IsGranted s now (save (start now i) b) k × IsStart P now k) (given h)
                (granted x f e))

  -- `claim_turn` gives out a turn only where none runs. The turn was submitted under its identifier
  -- and now runs there, the host is safe for conversations, and a current pairing of the owner of the
  -- turn still allows its console to send.
  pub claim-IsGranted :
      (s : Settings) (now : ℕ) (b : Bridge) (j : Turn)
      → IsKeyed b
      → (claim R s now b).claimed ≡ some j
      → (any (λ i. is_running i.status) (rows b.turns) ≡ false)
        × (IsGranted s now ((claim R s now b).bridge) j
            × IsStart (λ i. get b.turns i.turn_id ≡ some i) now j)
  unfolding claim
  claim-IsGranted s now b j k = go (any (λ i. is_running i.status) (rows b.turns)) refl
    where
      go :
          (x : Bool)
          → any (λ i. is_running i.status) (rows b.turns) ≡ x
          → (claim R s now b).claimed ≡ some j
          → (any (λ i. is_running i.status) (rows b.turns) ≡ false)
            × (IsGranted s now ((claim R s now b).bridge) j
                × IsStart (λ i. get b.turns i.turn_id ≡ some i) now j)
      go true e = rw (e, claim) (λ h. absurd (ground arith))
      go false e =
          rw (e, claim)
            (λ h. (
              refl,
              claim_from-IsGranted (λ i. get b.turns i.turn_id ≡ some i) s now
                  (sort_turns (rows b.turns)) b j
                  (sort_turns-All (λ i. get b.turns i.turn_id ≡ some i) (rows b.turns)
                    (IsKeyed-All b k))
                  h,
            ))
