-- ===== src/Policy/Action/Supported.antt =====
-- `validate_action` (policy.py) refuses an unsupported capability before it looks at anything else.
use agent_comm.Prelude.{
  ℕ, String, false, ◌||◌, any, all, codes, length, ltb, some, ◌≡◌, refl, inl, inr, arith, mem,
  Bool-cases,
}
use agent_comm.Json.{Json, Fields, str, obj, lookup}
use agent_comm.Policy.Fault.{Fault, Check, ok, fault, is_missing, ◌>>=◌}
use agent_comm.Policy.Fields.{capabilities, identifier, is_space, is_control, string}
use agent_comm.Policy.Action.{supported, early, validate_action}

-- A check that refuses, and not for a missing field.
abbrev Refuses {ℓ} : {A : Type ℓ} → Check A → Type 0
Refuses (ok a) = ⊥
Refuses (fault e) = is_missing e ≡ false

Refuses-fault {ℓ} :
    {A : Type ℓ} (c : Check A) → Refuses c → (e : Fault) × (c ≡ fault e) × (is_missing e ≡ false)
Refuses-fault (ok a) h = absurd h
Refuses-fault (fault e) h = (e, refl, h)

-- A check of the text `s` that gives it back, or refuses it.
abbrev Gives : String → Check String → Type 0
Gives s (ok a) = a ≡ s
Gives s (fault e) = is_missing e ≡ false

string-Gives : (s path : String) (maximum : ℕ) → Gives s (string (some (str s)) path maximum)
unfolding string
string-Gives s path maximum =
    elim (Bool-cases (all is_space (codes s) || ltb maximum (length (codes s)))) [
      | inl bad ↦ rw bad refl
      | inr good ↦ elim (Bool-cases (any is_control (codes s))) [
        | inl bad ↦ rw (good, bad) refl
        | inr fine ↦ rw (good, fine) refl
      ]
    ]

identifier-Gives : (s path : String) → Gives s (identifier (some (str s)) path)
unfolding identifier
identifier-Gives s path = go (string (some (str s)) path 256) refl (string-Gives s path 256)
  where
    go :
        (c : Check String)
        → string (some (str s)) path 256 ≡ c
        → Gives s c
        → Gives s (identifier (some (str s)) path)
    go (ok a) e g = rw (e, g) (ground arith)
    go (fault f) e g = rw e g

supported-Refuses :
    (name : String) → mem name capabilities ≡ false → Refuses (supported (some (str name)))
unfolding supported
supported-Refuses name h =
    go (identifier (some (str name)) "action.capability") refl
      (identifier-Gives name "action.capability")
  where
    go :
        (c : Check String)
        → identifier (some (str name)) "action.capability" ≡ c
        → Gives name c
        → Refuses (supported (some (str name)))
    go (ok a) e g = rw (e, g, h) refl
    go (fault f) e g = rw e g

early_given :
    (fs : Fields) (v : Json)
    → lookup "capability" fs ≡ some v
    → early (obj fs) ≡ (supported (some v) >>= λ _. ok tt)
unfolding early
early_given fs v h = rw (h, early) refl

pub validate_action_unsupported :
    (fs : Fields) (name : String)
    → lookup "capability" fs ≡ some (str name)
    → mem name capabilities ≡ false
    → (e : Fault) × (validate_action (obj fs) ≡ fault e) × (is_missing e ≡ false)
unfolding validate_action
validate_action_unsupported fs name given unknown =
    let (e, refused, present) =
      Refuses-fault (supported (some (str name))) (supported-Refuses name unknown) in
    (e, rw (early_given fs (str name) given, refused) refl, present)
