-- ===== src/Policy/Fault.antt =====
-- `_ValidationError`: one constructor for each `raise`, with what its message shows.
use agent_comm.Prelude.{ℕ, String, Bool, true, false, List, ◌≡◌, refl}

pub data Fault : Type 0 where
  not_object : String → Fault
  unsupported_fields : String → List String → Fault
  missing_fields : String → List String → Fault
  bad_string : String → ℕ → Fault
  control_characters : String → Fault
  not_identifier : String → Fault
  bad_list : String → Bool → Fault
  unsupported_capability : String → Fault
  bad_integer : String → ℕ → ℕ → Fault
  bad_time : String → Fault
  invalid_datetime : String → Fault
  empty_interval : String → Fault
  window_order : Fault
  bad_windows : Fault
  windows_outside : Fault
  bad_slots : Fault
  duplicate_slots : Fault
  unsupported_action : Fault

-- `exc.missing`
abbrev pub is_missing : Fault → Bool
is_missing (missing_fields _ _) = true
is_missing _ = false

pub data Check {ℓ} (A : Type ℓ) : Type ℓ where
  ok : A → Check A
  fault : Fault → Check A

infixl 5 ◌>>=◌ ◌>>◌
abbrev pub ◌>>=◌ {ℓ κ} : {A : Type ℓ} {B : Type κ} → Check A → (A → Check B) → Check B
ok a >>= f = f a
fault e >>= f = fault e

abbrev pub ◌>>◌ {ℓ} : {B : Type ℓ} → Check (Unit {0}) → Check B → Check B
m >> k = m >>= λ _. k

-- `if b: raise e`
abbrev pub raise_if : Bool → Fault → Check (Unit {0})
raise_if true e = fault e
raise_if false e = ok tt

module _ {ℓ} {B : Type ℓ} {b : B} where
  -- What a chain that ends well says of its first check, and of the others.
  pub passed {κ} :
      {A : Type κ} (rest : A → Check B) (first : Check A)
      → (first >>= rest) ≡ ok b
      → (value : A) × (first ≡ ok value) × (rest value ≡ ok b)
  passed rest (fault e) h = cc
  passed rest (ok value) h = (value, refl, h)

  pub not_raised :
      (test : Bool) (e : Fault) (rest : Check B)
      → (raise_if test e >> rest) ≡ ok b
      → (test ≡ false) × (rest ≡ ok b)
  not_raised false e rest h = (refl, h)
  not_raised true e rest h = cc

pub ok_injective {ℓ} : {A : Type ℓ} {a b : A} → ok a ≡ ok b → a ≡ b
ok_injective h = cc
