-- ===== src/Policy/Scope/Valid.antt =====
-- What `validate_scope` (policy.py) guarantees of the scopes that it accepts.
use agent_comm.Prelude.{
  ℕ, ◌≤◌, ◌<◌, String, Bool, true, false, Option, none, some, List, [], ◌∷◌, ◌≡◌, refl, arith,
  leb-false-lt, length, is_empty, any, any-false-All, All, AllMem, minus, minus_nil-AllMem, ltb,
  leb, suc, ap, ◌+◌, ◌<>◌, show, sort_set, ◌&&◌, ◌||◌, not,
}
use agent_comm.Json.{Json, arr, items, lookup}
use agent_comm.Policy.Fault.{ok, passed, not_raised, ok_injective}
use agent_comm.Policy.Fields.{capabilities, object, string, identifiers, ids, integer}
use agent_comm.Policy.Time.{Interval, time, interval_of-lt}
use agent_comm.Policy.Scope.{
  Scope, scope_fields, interval, intervals, windows, leaves, validate_scope,
}

-- An interval that is not empty and lies in the outer window.
abbrev pub Inside : ℕ → ℕ → Interval → Type 0
Inside start end i = (start ≤ i.start) × (i.start < i.end) × (i.end ≤ end)

abbrev pub WindowsValid : ℕ → ℕ → Option (List Interval) → Type 0
WindowsValid start end none = Unit
WindowsValid start end (some ws) = (1 ≤ length ws) × (length ws ≤ 128) × All (Inside start end) ws

pub record IsValid (s : Scope) : Type 0 where
  pub ordered : s.window_start < s.window_end
  pub supported : AllMem s.capabilities capabilities
  pub windows : WindowsValid s.window_start s.window_end s.allowed_windows
  pub minutes : (1 ≤ s.max_duration_minutes) × (s.max_duration_minutes ≤ 10080)
  pub candidates : (1 ≤ s.max_candidates) × (s.max_candidates ≤ 128)
  pub actions : (1 ≤ s.max_actions) × (s.max_actions ≤ 100000)

pub integer_bounds :
    (v : Option Json) (path : String) (lo hi n : ℕ)
    → integer v path lo hi ≡ ok n
    → (lo ≤ n) × (n ≤ hi)
unfolding integer
integer_bounds v path lo hi n h = ground arith

pub ids_supported :
    (v : Option Json) (path : String) (nonempty : Bool) (xs : List String)
    → ids v path nonempty true ≡ ok xs
    → AllMem xs capabilities
unfolding ids
ids_supported (some (arr vs)) path nonempty xs h =
    let (_, h1) =
      not_raised (ltb 128 (length (items vs)) || nonempty && is_empty (items vs)) _ _ h in
    let (names, _, h2) = passed _ (identifiers (items vs) (path <> "[]")) h1 in
    let (inside, h3) =
      not_raised (true && not (is_empty (minus (sort_set names) capabilities))) _ _ h2 in
    rw (← ok_injective h3) (minus_nil-AllMem (sort_set names) capabilities (ground (arith, inside)))
ids_supported _ path nonempty xs h = cc

pub interval-lt :
    (v : Json) (path : String) (i : Interval) → interval v path ≡ ok i → i.start < i.end
unfolding interval
interval-lt v path i h =
    let (fs, _, e) = passed _ (object (some v) ("end" ∷ "start" ∷ []) path []) h in
    interval_of-lt (lookup "start" fs) (lookup "end" fs) path i e

pub intervals-lt :
    (vs : List Json) (path : String) (n : ℕ) (is : List Interval)
    → intervals vs path n ≡ ok is
    → All (λ i. i.start < i.end) is × (length is ≡ length vs)
unfolding intervals
intervals-lt [] path n is h = rw (← ok_injective h) (tt, refl)
intervals-lt (v ∷ vs) path n is h =
    let (j, hj, h1) = passed _ (interval v (path <> "[" <> show n <> "]")) h in
    let (js, hjs, h2) = passed _ (intervals vs path (n + 1)) h1 in
    let (lt, len) = intervals-lt vs path (n + 1) js hjs in
    rw (← ok_injective h2) ((interval-lt v _ j hj, lt), ap suc len)

All-both {ℓ} :
    {A : Type ℓ} (P Q R : A → Type 0) (f : (x : A) → P x → Q x → R x) (xs : List A)
    → All P xs
    → All Q xs
    → All R xs
All-both P Q R f [] p q = tt
All-both P Q R f (x ∷ xs) (p, ps) (q, qs) = (f x p q, All-both P Q R f xs ps qs)

sized_bounds :
    (vs : List Json)
    → (is_empty vs || ltb 128 (length vs)) ≡ false
    → (1 ≤ length vs) × (length vs ≤ 128)
sized_bounds [] h = cc
sized_bounds (v ∷ vs) h = ground arith

windows_valid :
    (v : Option Json) (start end : ℕ) (ws : Option (List Interval))
    → windows v start end ≡ ok ws
    → WindowsValid start end ws
unfolding windows
windows_valid none start end ws h = rw (← ok_injective h) tt
windows_valid (some (arr vs)) start end ws h =
    let (sized, h1) = not_raised (is_empty (items vs) || ltb 128 (length (items vs))) _ _ h in
    let (is, his, h2) = passed _ (intervals (items vs) "scope.allowed_windows" 0) h1 in
    let (within, h3) = not_raised (any (leaves start end) is) _ _ h2 in
    let (lt, len) = intervals-lt (items vs) _ 0 is his in
    rw (← ok_injective h3) (
      rw len (sized_bounds (items vs) sized).0,
      rw len (sized_bounds (items vs) sized).1,
      All-both (λ i. i.start < i.end) (λ i. leaves start end i ≡ false) (Inside start end)
          (λ i p q. ground arith) is lt (any-false-All (leaves start end) is within),
    )
windows_valid _ start end ws h = cc

-- Every scope that `validate_scope` accepts is valid: its outer window is not empty, its
-- capabilities are supported, its allowed windows, if any, are 1 to 128 intervals that are not
-- empty and lie in the outer window, and its three limits are in their ranges.
pub validate_scope-IsValid : (v : Json) (s : Scope) → validate_scope v ≡ ok s → IsValid s
unfolding validate_scope
validate_scope-IsValid v s h =
    let (fs, _, h1) = passed _ (object (some v) scope_fields "scope" ("allowed_windows" ∷ [])) h in
    let (purpose, _, h2) = passed _ (string (lookup "purpose" fs) "scope.purpose" 1000) h1 in
    let (topic, _, h3) = passed _ (string (lookup "topic" fs) "scope.topic" 500) h2 in
    let (caps, hcaps, h4) =
      passed _ (ids (lookup "capabilities" fs) "scope.capabilities" true true) h3 in
    let (rs, _, h5) =
      passed _ (ids (lookup "recipient_ids" fs) "scope.recipient_ids" true false) h4 in
    let (ps, _, h6) =
      passed _ (ids (lookup "participant_ids" fs) "scope.participant_ids" false false) h5 in
    let (res, _, h7) =
      passed _ (ids (lookup "resource_ids" fs) "scope.resource_ids" false false) h6 in
    let (start, _, h8) = passed _ (time (lookup "window_start" fs) "scope.window_start") h7 in
    let (end, _, h9) = passed _ (time (lookup "window_end" fs) "scope.window_end") h8 in
    let (expires, _, h10) = passed _ (time (lookup "expires_at" fs) "scope.expires_at") h9 in
    let (order, h11) = not_raised (leb end start) _ _ h10 in
    let (ws, hws, h12) = passed _ (windows (lookup "allowed_windows" fs) start end) h11 in
    let (mi, hmi, h13) =
      passed _ (integer (lookup "max_duration_minutes" fs) "scope.max_duration_minutes" 1 10080)
        h12 in
    let (ca, hca, h14) =
      passed _ (integer (lookup "max_candidates" fs) "scope.max_candidates" 1 128) h13 in
    let (ac, hac, h15) =
      passed _ (integer (lookup "max_actions" fs) "scope.max_actions" 1 100000) h14 in
    rw (← ok_injective h15) (record {
      ordered = leb-false-lt end start order;
      supported = ids_supported (lookup "capabilities" fs) "scope.capabilities" true caps hcaps;
      windows = windows_valid (lookup "allowed_windows" fs) start end ws hws;
      minutes = integer_bounds (lookup "max_duration_minutes" fs) _ 1 10080 mi hmi;
      candidates = integer_bounds (lookup "max_candidates" fs) _ 1 128 ca hca;
      actions = integer_bounds (lookup "max_actions" fs) _ 1 100000 ac hac;
    })
