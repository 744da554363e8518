-- ===== src/Policy/Scope.antt =====
-- `validate_scope` and `_interval` of policy.py. A normalized scope is a record: the dict that the
-- source returns has exactly these keys, `allowed_windows` only where it is given.
pub mod Valid
use agent_comm.Prelude.{
  ℕ, ◌+◌, show, ◌≤◌, ◌<◌, String, Bool, true, false, not, ◌&&◌, ◌||◌, Option, none, some, List, [],
  ◌∷◌, ◌≡◌, refl, arith, length, is_empty, any, ltb, leb, if◌then◌else◌, ◌<>◌, All, AllMem, minus,
  mem,
}
use agent_comm.Json.{Json, Fields, arr, lookup, items}
use agent_comm.Policy.Fault.{
  Fault, Check, ok, fault, raise_if, window_order, bad_windows, windows_outside, ◌>>=◌, ◌>>◌,
}
use agent_comm.Policy.Fields.{object, string, ids, integer}
use agent_comm.Policy.Time.{Interval, time, interval_of}

pub record Scope : Type 0 where
  pub purpose : String
  pub topic : String
  pub capabilities : List String
  pub recipient_ids : List String
  pub participant_ids : List String
  pub resource_ids : List String
  pub window_start : ℕ
  pub window_end : ℕ
  pub expires_at : ℕ
  pub allowed_windows : Option (List Interval)
  pub max_duration_minutes : ℕ
  pub max_candidates : ℕ
  pub max_actions : ℕ

-- `_SCOPE_FIELDS`, sorted
abbrev pub scope_fields : List String
scope_fields =
    "allowed_windows" ∷ "capabilities" ∷ "expires_at" ∷ "max_actions" ∷ "max_candidates"
    ∷ "max_duration_minutes" ∷ "participant_ids" ∷ "purpose" ∷ "recipient_ids" ∷ "resource_ids"
    ∷ "topic" ∷ "window_end" ∷ "window_start" ∷ []

-- `_interval(value, path)`
unfoldable pub interval : Json → String → Check Interval
interval v path = do
  fs ← object (some v) ("end" ∷ "start" ∷ []) path []
  interval_of (lookup "start" fs) (lookup "end" fs) path

-- The intervals of a list; `n` is the index of the first one in it.
unfoldable pub intervals : List Json → String → ℕ → Check (List Interval)
unfolding interval show
intervals [] path n = ok []
intervals (v ∷ vs) path n = do
  i ← interval v (path <> "[" <> show n <> "]")
  is ← intervals vs path (n + 1)
  ok (i ∷ is)

abbrev pub leaves : ℕ → ℕ → Interval → Bool
leaves start end i = ltb i.start start || ltb end i.end

-- The test `"allowed_windows" in scope` and what follows it.
unfoldable pub windows : Option Json → ℕ → ℕ → Check (Option (List Interval))
unfolding intervals
windows none start end = ok none
windows (some (arr xs)) start end = do
  let values = items xs
  raise_if (is_empty values || ltb 128 (length values)) bad_windows
  normalized ← intervals values "scope.allowed_windows" 0
  raise_if (any (leaves start end) normalized) windows_outside
  ok (some normalized)
windows (some _) start end = fault bad_windows

-- `validate_scope(scope)`
unfoldable pub validate_scope : Json → Check Scope
unfolding windows
validate_scope scope = do
  fs ← object (some scope) scope_fields "scope" ("allowed_windows" ∷ [])
  purpose ← string (lookup "purpose" fs) "scope.purpose" 1000
  topic ← string (lookup "topic" fs) "scope.topic" 500
  capabilities ← ids (lookup "capabilities" fs) "scope.capabilities" true true
  recipients ← ids (lookup "recipient_ids" fs) "scope.recipient_ids" true false
  participants ← ids (lookup "participant_ids" fs) "scope.participant_ids" false false
  resources ← ids (lookup "resource_ids" fs) "scope.resource_ids" false false
  start ← time (lookup "window_start" fs) "scope.window_start"
  end ← time (lookup "window_end" fs) "scope.window_end"
  expires ← time (lookup "expires_at" fs) "scope.expires_at"
  raise_if (leb end start) window_order
  allowed ← windows (lookup "allowed_windows" fs) start end
  minutes ← integer (lookup "max_duration_minutes" fs) "scope.max_duration_minutes" 1 10080
  candidates ← integer (lookup "max_candidates" fs) "scope.max_candidates" 1 128
  actions ← integer (lookup "max_actions" fs) "scope.max_actions" 1 100000
  ok (record {
    purpose = purpose;
    topic = topic;
    capabilities = capabilities;
    recipient_ids = recipients;
    participant_ids = participants;
    resource_ids = resources;
    window_start = start;
    window_end = end;
    expires_at = expires;
    allowed_windows = allowed;
    max_duration_minutes = minutes;
    max_candidates = candidates;
    max_actions = actions;
  })
