-- ===== src/Remote/State.antt =====
-- The tables of the bridge, its settings, and its view of the store.
use agent_comm.Prelude.{ℕ, String, Bool, true, false, Option, List}
use agent_comm.Table.{Table}

pub record Pairing : Type 0 where
  pub console_urn : String
  pub owner_principal : String
  pub methods : List String
  pub expires_at : String
  pub revoked : Bool
  pub paired_at : ℕ

pub data TurnStatus : Type 0 where
  submitted running completed failed interrupted : TurnStatus

-- A row of kind "turn". `mentions` holds the `task_id`s: each mention is of kind "task".
pub record Turn : Type 0 where
  pub turn_id : String
  pub conversation_id : String
  pub console_urn : String
  pub owner_principal : String
  pub status : TurnStatus
  pub text : String
  pub mentions : List String
  pub response : Option String
  pub error : Option String
  pub created_at : ℕ
  pub updated_at : ℕ

-- The envelope that `_response` builds, with whether its text holds "result" or "error".
pub record Response : Type 0 where
  pub message_id : String
  pub recipient_urn : String
  pub in_reply_to : String
  pub conversation_id : String
  pub deadline : String
  pub text : String
  pub is_result : Bool

-- A row of kind "request".
pub record Cached : Type 0 where
  pub fingerprint : String
  pub owner_principal : String
  pub response : Response

-- The database of the bridge; `cursor` is the row "mailbox" of kind "cursor".
pub record Bridge : Type 0 where
  pub pairings : Table Pairing
  pub requests : Table Cached
  pub turns : Table Turn
  pub cursor : Option String

-- An exception that `handle` turns into an error response: `getattr(exc, "code", ...)`, `str(exc)`.
pub record Failure : Type 0 where
  pub code : String
  pub message : String

pub data Outcome {ℓ} (A : Type ℓ) : Type ℓ where
  ok : A → Outcome A
  raised : Failure → Outcome A

infixl 5 ◌>>=◌ ◌>>◌
abbrev pub ◌>>=◌ {ℓ κ} : {A : Type ℓ} {B : Type κ} → Outcome A → (A → Outcome B) → Outcome B
ok a >>= f = f a
raised e >>= f = raised e

abbrev pub ◌>>◌ {ℓ} : {B : Type ℓ} → Outcome (Unit {0}) → Outcome B → Outcome B
m >> k = m >>= λ _. k

abbrev pub raise_if : Bool → Failure → Outcome (Unit {0})
raise_if true f = raised f
raise_if false f = ok tt

-- `ValueError(message)`: it has no code of its own.
abbrev pub value_error : String → Failure
value_error text = record { code = "invalid_params"; message = text }

-- `RemoteError(code, message)`
abbrev pub remote_error : String → String → Failure
remote_error code text = record { code = code; message = text }
