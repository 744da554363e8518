-- ===== src/Policy/Evaluate.antt =====
-- `evaluate` of policy.py; what it permits is stated in the child modules. The reasons and the entries of `delta` are data types with a constructor
-- for each text or key that the source puts there.
pub mod Permits
pub mod Limits
use agent_comm.Prelude.{
  ℕ, ◌+◌, ◌*◌, ◌-◌, String, Bool, true, false, not, ◌&&◌, ◌||◌, Option, none, some, List, [], ◌∷◌,
  ◌++◌, length, is_empty, any, filter, ltb, leb, if◌then◌else◌, minus, same,
}
use agent_comm.Json.{ℤ, pos, negsuc, Json}
use agent_comm.Policy.Fault.{Fault, Check, ok, fault, is_missing}
use agent_comm.Policy.Time.{Interval}
use agent_comm.Policy.Scope.{Scope, validate_scope, leaves}
use agent_comm.Policy.Action.{
  Action, Payload, share_slots, share_resource, propose_meeting, accept_meeting, send_text,
  capability, validate_action,
}

pub data Decision : Type 0 where
  allow ask clarify deny : Decision

pub data Reason : Type 0 where
  invalid_scope invalid_usage invalid_time expired action_limit_reached : Reason
  missing_action_fields invalid_action scope_exceeded free_text_requires_approval : Reason
  within_scope cumulative_candidate_limit : Reason

pub data Excess : Type 0 where
  error : Fault → Excess
  expires_at : ℕ → Excess
  max_actions : ℕ → ℕ → Excess
  -- `delta[key]` of `subset`: key, allowed, requested, outside
  subset : String → List String → List String → List String → Excess
  max_candidates : ℕ → ℕ → Excess
  topic : String → String → Excess
  window : ℕ → ℕ → List Interval → Excess
  allowed_windows : List Interval → List Interval → Excess
  max_duration_minutes : ℕ → List Interval → Excess
  exact_text : String → Excess
  -- `delta["candidate_total:<recipient>"]`: recipient, allowed, requested total
  candidate_total : String → ℕ → ℕ → Excess

pub record Verdict : Type 0 where
  pub decision : Decision
  pub reasons : List Reason
  pub delta : List Excess

-- `now`: left out, no aware `datetime`, or an instant.
pub data Now : Type 0 where
  unset unaware : Now
  at : ℕ → Now

abbrev pub verdict : Decision → Reason → List Excess → Verdict
verdict d r delta = record { decision = d; reasons = r ∷ []; delta = delta }

-- The nested function `subset`.
unfoldable pub subset_of : String → List String → List String → List Excess
subset_of key allowed requested =
    let outside = minus requested allowed in
    if is_empty outside then [] else subset key allowed requested outside ∷ []

-- `intervals` of the source.
abbrev pub payload_intervals : Payload → List Interval
payload_intervals (share_slots is) = is
payload_intervals (propose_meeting m) = m.interval ∷ []
payload_intervals (accept_meeting m) = m.interval ∷ []
payload_intervals _ = []

topic_of : Scope → String → List Excess
topic_of scope t = if same t scope.topic then [] else topic scope.topic t ∷ []

-- The branches on the capability.
payload_excess : Scope → Payload → List Excess
unfolding subset_of topic_of
payload_excess scope (share_resource r) = subset_of "resource_ids" scope.resource_ids (r ∷ [])
payload_excess scope (share_slots is) =
    if ltb scope.max_candidates (length is)
    then max_candidates scope.max_candidates (length is) ∷ []
    else []
payload_excess scope (propose_meeting m) =
    subset_of "participant_ids" scope.participant_ids m.participant_ids ++ topic_of scope m.topic
payload_excess scope (accept_meeting m) =
    subset_of "participant_ids" scope.participant_ids m.participant_ids ++ topic_of scope m.topic
payload_excess scope (send_text t) = []

abbrev pub covers : Interval → Interval → Bool
covers i w = leb w.start i.start && leb i.end w.end

abbrev pub uncovered : List Interval → Interval → Bool
uncovered ws i = not (any (covers i) ws)

-- `timedelta` of an interval against a number of minutes.
abbrev pub too_long : ℕ → Interval → Bool
too_long minutes i = ltb (minutes * 60000000) (i.end - i.start)

window_excess : Scope → List Interval → List Excess
window_excess scope is =
    let outside = filter (leaves scope.window_start scope.window_end) is in
    if is_empty outside then [] else window scope.window_start scope.window_end outside ∷ []

allowed_excess : Option (List Interval) → List Interval → List Excess
allowed_excess none is = []
allowed_excess (some ws) is =
    let outside = filter (uncovered ws) is in
    if is_empty outside then [] else allowed_windows ws outside ∷ []

length_excess : Scope → List Interval → List Excess
length_excess scope is =
    let long = filter (too_long scope.max_duration_minutes) is in
    if is_empty long then [] else max_duration_minutes scope.max_duration_minutes long ∷ []

-- `delta`, before the free text.
unfoldable pub excess : Scope → Action → List Excess
unfolding subset_of payload_excess window_excess allowed_excess length_excess
excess scope action =
    let is = payload_intervals action.payload in
    subset_of "capabilities" scope.capabilities (capability action.payload ∷ [])
    ++ (subset_of "recipient_ids" scope.recipient_ids action.recipient_ids
        ++ (payload_excess scope action.payload
            ++ (window_excess scope is
                ++ (allowed_excess scope.allowed_windows is ++ length_excess scope is))))

within : List Excess → Verdict
within [] = verdict allow within_scope []
within (e ∷ es) = verdict ask scope_exceeded (e ∷ es)

-- The end of `evaluate`, on a valid action.
unfoldable pub judge : Scope → Action → Verdict
unfolding within
judge scope action = elim action.payload [
  | send_text t ↦
      let delta = excess scope action in
      record {
        decision = ask;
        reasons =
            (if is_empty delta then [] else scope_exceeded ∷ [])
            ++ free_text_requires_approval ∷ [];
        delta = delta ++ exact_text t ∷ [];
      }
  | _ ↦ within (excess scope action)
]

-- From `validate_action` on.
unfoldable pub judge_checked : Scope → Check Action → Verdict
unfolding judge
judge_checked scope (ok action) = judge scope action
judge_checked scope (fault e) =
    if is_missing e
    then verdict clarify missing_action_fields (error e ∷ [])
    else verdict deny invalid_action (error e ∷ [])

-- From the tests of the count and of the time on.
unfoldable pub judge_at : Scope → Json → ℤ → ℕ → Verdict
unfolding judge_checked
judge_at scope action (negsuc n) now = verdict deny invalid_usage []
judge_at scope action (pos used) now =
    if leb scope.expires_at now
    then verdict deny expired (expires_at scope.expires_at ∷ [])
    else if leb scope.max_actions used
    then verdict deny action_limit_reached (max_actions scope.max_actions (used + 1) ∷ [])
    else judge_checked scope (validate_action action)

-- `clock` is what `datetime.now(timezone.utc)` gives.
unfoldable pub judge_now : Scope → Json → ℤ → Now → ℕ → Verdict
unfolding judge_at
judge_now scope action (negsuc n) now clock = verdict deny invalid_usage []
judge_now scope action (pos used) unset clock = judge_at scope action (pos used) clock
judge_now scope action (pos used) unaware clock = verdict deny invalid_time []
judge_now scope action (pos used) (at t) clock = judge_at scope action (pos used) t

-- `evaluate(scope, action, used_count=..., now=...)`
unfoldable pub evaluate : Json → Json → ℤ → Now → ℕ → Verdict
unfolding judge_now
evaluate scope action used now clock = elim (validate_scope scope) [
  | fault e ↦ verdict deny invalid_scope (error e ∷ [])
  | ok s ↦ judge_now s action used now clock
]
