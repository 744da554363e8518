-- ===== src/Runtime.antt =====
-- What the modelled modules take from the Python runtime and do not implement: the parser of ISO
-- times, the JSON decoder and encoder, and SHA-256. The theorems hold for every choice of these.
use agent_comm.Prelude.{ℕ, String, Option}
use agent_comm.Json.{Json}

pub record Runtime : Type 0 where
  -- `instant(value)`: the instant of an ISO 8601 text with a time zone; `none` is a `ValueError`.
  pub instant : String → Option ℕ
  -- `json.loads(text)`; `none` is a `ValueError` or a `RecursionError`.
  pub loads : String → Option Json
  -- `json.dumps(value, ensure_ascii=False, sort_keys=True, separators=(",", ":"), allow_nan=False)`
  pub canonical : Json → String
  -- `hashlib.sha256(text.encode()).hexdigest()`
  pub sha256 : String → String
  -- `text[:n]`
  pub take : ℕ → String → String
