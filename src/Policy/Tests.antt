-- ===== src/Policy/Tests.antt =====
-- A scope and some actions of the policy, and the theorems at them.
use agent_comm.Prelude.{sort_set, ℕ, String, none, some, [], ◌∷◌, ◌≡◌, refl, ◌↔◌, ◌<◌, arith}
use agent_comm.Json.{ℤ, pos, Json, Items, Fields, str, int, arr, obj, nil, cons, no_fields, field}
use agent_comm.Policy.Fault.{ok}
use agent_comm.Policy.Fields.{object, string, ids, integer}
use agent_comm.Policy.Time.{time, interval_of}
use agent_comm.Policy.Scope.{Scope, validate_scope}
use agent_comm.Policy.Scope.Valid.{IsValid, validate_scope-IsValid}
use agent_comm.Policy.Action.{Action, send_text, share_slots, validate_action}
use agent_comm.Policy.Evaluate.{Decision, allow, ask, clarify, deny, Now, at, excess, evaluate}
use agent_comm.Policy.Evaluate.Limits.{
  Allowed, effective, evaluate_allow_iff, evaluate_hard_limits, evaluate_allow_mono,
}

abbrev one : Json → Items
one v = cons v nil

abbrev scope : Json
scope = obj (
    field "purpose" (str "talk") (
      field "topic" (str "plan") (
        field "capabilities" (arr (cons (str "share_slots") (one (str "send_text")))) (
          field "recipient_ids" (arr (one (str "bob"))) (
            field "participant_ids" (arr nil) (
              field "resource_ids" (arr nil) (
                field "window_start" (str "2026-03-01T08:00:00Z") (
                  field "window_end" (str "2026-03-01T18:00:00Z") (
                    field "expires_at" (str "2026-03-02T00:00:00Z") (
                      field "max_duration_minutes" (int (pos 60)) (
                        field "max_candidates" (int (pos 2))
                          (field "max_actions" (int (pos 3)) no_fields))))))))))))

abbrev acting : String → Fields → Json
acting name payload = obj (
    field "capability" (str name)
      (field "recipient_ids" (arr (one (str "bob"))) (field "payload" (obj payload) no_fields)))

abbrev slot : String → String → Json
slot s e = obj (field "start" (str s) (field "end" (str e) no_fields))

abbrev share : Json
share =
    acting "share_slots" (
      field "slots" (arr (one (slot "2026-03-01T09:00:00+00:00" "2026-03-01T10:00:00Z"))) no_fields)

abbrev text : Json
text = acting "send_text" (field "text" (str "hello") no_fields)

-- 2026-03-01T07:00:00Z
abbrev morning : ℕ
morning = 63907945200000000

abbrev the_scope : Scope
the_scope = record {
  purpose = "talk";
  topic = "plan";
  capabilities = "send_text" ∷ "share_slots" ∷ [];
  recipient_ids = "bob" ∷ [];
  participant_ids = [];
  resource_ids = [];
  window_start = 63907948800000000;
  window_end = 63907984800000000;
  expires_at = 63908006400000000;
  allowed_windows = none;
  max_duration_minutes = 60;
  max_candidates = 2;
  max_actions = 3;
}

-- What a run of the policy calls.
run : Json → Json → ℤ → Now → ℕ → Decision
unfolding evaluate validate_scope validate_action object string ids integer sort_set time
    interval_of excess
run scope action used now clock = (evaluate scope action used now clock).decision

scope_valid : validate_scope scope ≡ ok the_scope
unfolding run
scope_valid = refl

share_allowed : (evaluate scope share (pos 2) (at morning) 0).decision ≡ allow
unfolding run
share_allowed = refl

-- A second past an hour is too long, and the budget ends at three.
verdicts :
    (run scope share (pos 3) (at morning) 0 ≡ deny)
    × (run scope share (pos 0) (at 63908006400000000) 0 ≡ deny)
    × (run scope text (pos 0) (at morning) 0 ≡ ask)
    × (run scope (acting "send_text" no_fields) (pos 0) (at morning) 0 ≡ clarify)
    × (run scope
          (acting "share_slots" (
            field "slots"
              (arr (one (slot "2026-03-01T09:00:00Z" "2026-03-01T10:00:00.000001Z")))
              no_fields))
          (pos 0)
          (at morning)
          0
        ≡ ask)
unfolding run
verdicts = (refl, refl, refl, refl, refl)

validate_scope-IsValid_example : IsValid the_scope
validate_scope-IsValid_example = validate_scope-IsValid scope the_scope scope_valid

abbrev the_share : Action
the_share = record {
  recipient_ids = "bob" ∷ [];
  payload = share_slots (record { start = 63907952400000000; end = 63907956000000000 } ∷ []);
}

evaluate_allow_iff_example :
    ((evaluate scope share (pos 2) (at morning) 0).decision ≡ allow)
    ↔ Allowed scope share (pos 2) (at morning) 0
evaluate_allow_iff_example = evaluate_allow_iff scope share (pos 2) (at morning) 0

evaluate_hard_limits_example :
    (s : Scope) × (n : ℕ) × (t : ℕ) × (validate_scope scope ≡ ok s)
    × (pos 2 ≡ pos n)
    × (effective (at morning) 0 ≡ some t)
    × (t < s.expires_at)
    × (n < s.max_actions)
evaluate_hard_limits_example =
    evaluate_hard_limits scope share (pos 2) (at morning) 0 (λ d. cc (d, share_allowed))

evaluate_allow_mono_example : (evaluate scope share (pos 1) (at 7) 0).decision ≡ allow
evaluate_allow_mono_example =
    evaluate_allow_mono scope share 2 1 morning 7 0 (omega arith) (omega arith) share_allowed

text_valid :
    validate_action text ≡ ok (record { recipient_ids = "bob" ∷ []; payload = send_text "hello" })
unfolding run
text_valid = refl
