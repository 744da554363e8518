-- ===== src/Policy/Evaluate/Limits.antt =====
-- The hard limits of `evaluate` (policy.py), and everything that an "allow" rests on.
use agent_comm.Prelude.{
  ℕ, ◌≤◌, ◌<◌, Option, none, some, List, [], ◌∷◌, ◌≡◌, ◌≢◌, refl, ◌↔◌, arith, String, ◌++◌, mem,
  false,
}
use agent_comm.Json.{ℤ, pos, negsuc, Json, Fields, str, obj, lookup}
use agent_comm.Policy.Fault.{Fault, Check, ok, fault, is_missing}
use agent_comm.Policy.Fields.{capabilities}
use agent_comm.Policy.Action.Supported.{validate_action_unsupported}
use agent_comm.Policy.Scope.{Scope, validate_scope}
use agent_comm.Policy.Action.{Action, send_text, validate_action}
use agent_comm.Policy.Evaluate.{
  allow, ask, deny, Now, unset, unaware, at, judge, judge_checked, judge_at, judge_now, evaluate,
  exact_text, excess,
}
use agent_comm.Policy.Evaluate.Permits.{Permits, judge_allow_iff}

-- The instant that a call of `evaluate` takes as the current one.
abbrev pub effective : Now → ℕ → Option ℕ
effective unset clock = some clock
effective unaware clock = none
effective (at t) clock = some t

-- Everything that an "allow" rests on.
pub record Allowed (scope action : Json) (used : ℤ) (now : Now) (clock : ℕ) : Type 0 where
  pub s : Scope
  pub a : Action
  pub n : ℕ
  pub t : ℕ
  pub valid_scope : validate_scope scope ≡ ok s
  pub valid_action : validate_action action ≡ ok a
  pub counted : used ≡ pos n
  pub current : effective now clock ≡ some t
  pub unexpired : t < s.expires_at
  pub in_budget : n < s.max_actions
  pub permits : Permits s a

judge_checked_allow :
    (s : Scope) (c : Check Action)
    → (judge_checked s c).decision ≡ allow
    → (a : Action) × (c ≡ ok a) × Permits s a
unfolding judge_checked
judge_checked_allow s (ok a) h = (a, refl, (judge_allow_iff s a).0 h)
judge_checked_allow s (fault e) h = absurd (ground arith)

judge_at_allow :
    (s : Scope) (action : Json) (n t : ℕ)
    → (judge_at s action (pos n) t).decision ≡ allow
    → (t < s.expires_at)
      × (n < s.max_actions)
      × ((judge_checked s (validate_action action)).decision ≡ allow)
unfolding judge_at
judge_at_allow s action n t h = ground arith

allow_judge_at :
    (s : Scope) (action : Json) (n t : ℕ)
    → t < s.expires_at
    → n < s.max_actions
    → judge_at s action (pos n) t ≡ judge_checked s (validate_action action)
unfolding judge_at
allow_judge_at s action n t h k = ground arith

judge_now_allow :
    (s : Scope) (action : Json) (used : ℤ) (now : Now) (clock : ℕ)
    → (judge_now s action used now clock).decision ≡ allow
    → (n : ℕ) × (t : ℕ) × (used ≡ pos n)
      × (effective now clock ≡ some t)
      × ((judge_at s action (pos n) t).decision ≡ allow)
unfolding judge_now
judge_now_allow s action (pos n) unset clock h = (n, clock, refl, refl, h)
judge_now_allow s action (pos n) unaware clock h = cc
judge_now_allow s action (pos n) (at t) clock h = (n, t, refl, refl, h)
judge_now_allow s action (negsuc n) now clock h = cc

judge_now_at :
    (s : Scope) (action : Json) (n t : ℕ) (now : Now) (clock : ℕ)
    → effective now clock ≡ some t
    → judge_now s action (pos n) now clock ≡ judge_at s action (pos n) t
unfolding judge_now
judge_now_at s action n t unset clock h = ground arith
judge_now_at s action n t unaware clock h = cc
judge_now_at s action n t (at u) clock h = ground arith

evaluate_ok :
    (scope action : Json) (s : Scope) (used : ℤ) (now : Now) (clock : ℕ)
    → validate_scope scope ≡ ok s
    → evaluate scope action used now clock ≡ judge_now s action used now clock
unfolding evaluate
evaluate_ok scope action s used now clock h = rw (h, evaluate) refl

evaluate_scope :
    (scope action : Json) (used : ℤ) (now : Now) (clock : ℕ)
    → (evaluate scope action used now clock).decision ≢ deny
    → (s : Scope) × (validate_scope scope ≡ ok s)
unfolding evaluate
evaluate_scope scope action used now clock h = go (validate_scope scope) refl
  where
    go : (c : Check Scope) → validate_scope scope ≡ c → (s : Scope) × (validate_scope scope ≡ ok s)
    go (ok s) e = (s, e)
    go (fault f) e = absurd (h (rw (e, evaluate) refl))

evaluate-Allowed :
    (scope action : Json) (used : ℤ) (now : Now) (clock : ℕ)
    → (evaluate scope action used now clock).decision ≡ allow
    → Allowed scope action used now clock
evaluate-Allowed scope action used now clock h =
    let (s, vs) = evaluate_scope scope action used now clock (λ d. cc (d, h)) in
    let (n, t, counted, current, at_allow) =
      judge_now_allow s action used now clock
        (rw (evaluate_ok scope action s used now clock vs) at h) in
    let (unexpired, in_budget, checked) = judge_at_allow s action n t at_allow in
    let (a, va, permits) = judge_checked_allow s (validate_action action) checked in
    record {
      s = s;
      a = a;
      n = n;
      t = t;
      valid_scope = vs;
      valid_action = va;
      counted = counted;
      current = current;
      unexpired = unexpired;
      in_budget = in_budget;
      permits = permits;
    }

judge_checked_ok : (s : Scope) (a : Action) → judge_checked s (ok a) ≡ judge s a
unfolding judge_checked
judge_checked_ok s a = refl

Allowed-evaluate :
    (scope action : Json) (used : ℤ) (now : Now) (clock : ℕ)
    → Allowed scope action used now clock
    → (evaluate scope action used now clock).decision ≡ allow
Allowed-evaluate scope action used now clock h =
    rw
      (
        evaluate_ok scope action h.s used now clock h.valid_scope,
        h.counted,
        judge_now_at h.s action h.n h.t now clock h.current,
        allow_judge_at h.s action h.n h.t h.unexpired h.in_budget,
        h.valid_action,
        judge_checked_ok h.s h.a,
      )
      ((judge_allow_iff h.s h.a).1 h.permits)

-- `evaluate` says "allow" exactly when the scope and the action are valid, the count is a number
-- below `max_actions`, the current time is known and before `expires_at`, and every bound of the
-- scope holds of the action.
pub evaluate_allow_iff :
    (scope action : Json) (used : ℤ) (now : Now) (clock : ℕ)
    → ((evaluate scope action used now clock).decision ≡ allow)
      ↔ Allowed scope action used now clock
evaluate_allow_iff scope action used now clock =
    (evaluate-Allowed scope action used now clock, Allowed-evaluate scope action used now clock)

judge_at_limits :
    (s : Scope) (action : Json) (n t : ℕ)
    → (judge_at s action (pos n) t).decision ≢ deny
    → (t < s.expires_at) × (n < s.max_actions)
unfolding judge_at
judge_at_limits s action n t h = ground arith

judge_now_limits :
    (s : Scope) (action : Json) (used : ℤ) (now : Now) (clock : ℕ)
    → (judge_now s action used now clock).decision ≢ deny
    → (n : ℕ) × (t : ℕ) × (used ≡ pos n)
      × (effective now clock ≡ some t)
      × (t < s.expires_at)
      × (n < s.max_actions)
unfolding judge_now
judge_now_limits s action (pos n) unset clock h =
    let (p, q) = judge_at_limits s action n clock h in (n, clock, refl, refl, p, q)
judge_now_limits s action (pos n) unaware clock h = absurd (h refl)
judge_now_limits s action (pos n) (at t) clock h =
    let (p, q) = judge_at_limits s action n t h in (n, t, refl, refl, p, q)
judge_now_limits s action (negsuc n) now clock h = absurd (h refl)

-- Expiry and the count are hard limits: a verdict other than "deny", so also "ask" and "clarify",
-- is given only for a valid scope, before `expires_at` and with fewer than `max_actions` used.
pub evaluate_hard_limits :
    (scope action : Json) (used : ℤ) (now : Now) (clock : ℕ)
    → (evaluate scope action used now clock).decision ≢ deny
    → (s : Scope) × (n : ℕ) × (t : ℕ) × (validate_scope scope ≡ ok s)
      × (used ≡ pos n)
      × (effective now clock ≡ some t)
      × (t < s.expires_at)
      × (n < s.max_actions)
evaluate_hard_limits scope action used now clock h =
    let (s, vs) = evaluate_scope scope action used now clock h in
    let (n, t, counted, current, unexpired, in_budget) =
      judge_now_limits s action used now clock
        (λ d. h (rw (evaluate_ok scope action s used now clock vs) d)) in
    (s, n, t, vs, counted, current, unexpired, in_budget)

-- An allowed action stays allowed at an earlier time and with fewer actions used.
pub evaluate_allow_mono :
    (scope action : Json) (n m t u clock : ℕ)
    → m ≤ n
    → u ≤ t
    → (evaluate scope action (pos n) (at t) clock).decision ≡ allow
    → (evaluate scope action (pos m) (at u) clock).decision ≡ allow
evaluate_allow_mono scope action n m t u clock hm hu h =
    let w = evaluate-Allowed scope action (pos n) (at t) clock h in
    Allowed-evaluate scope action (pos m) (at u) clock (record {
      s = w.s;
      a = w.a;
      n = m;
      t = u;
      valid_scope = w.valid_scope;
      valid_action = w.valid_action;
      counted = refl;
      current = refl;
      unexpired = ground (arith, w.current, w.unexpired);
      in_budget = ground (arith, w.counted, w.in_budget);
      permits = w.permits;
    })

-- A free text is never allowed on the scope alone: for a valid scope and action, before `expires_at`
-- and with fewer than `max_actions` used, the verdict is "ask", and its delta is what exceeds the
-- scope and the exact text.
pub evaluate_free_text :
    (scope action : Json) (n t clock : ℕ) (s : Scope) (recipients : List String) (text : String)
    → validate_scope scope ≡ ok s
    → validate_action action ≡ ok (record { recipient_ids = recipients; payload = send_text text })
    → t < s.expires_at
    → n < s.max_actions
    → let v = evaluate scope action (pos n) (at t) clock in
      let a : Action = record { recipient_ids = recipients; payload = send_text text } in
      (v.decision ≡ ask) × (v.delta ≡ excess s a ++ exact_text text ∷ [])
evaluate_free_text scope action n t clock s recipients text vs va lt lb =
    rw
      (
        evaluate_ok scope action s (pos n) (at t) clock vs,
        judge_now_at s action n t (at t) clock refl,
        allow_judge_at s action n t lt lb,
        va,
      )
      (unfold judge_checked judge in (refl, refl))

judge_checked_deny :
    (s : Scope) (e : Fault) → is_missing e ≡ false → (judge_checked s (fault e)).decision ≡ deny
unfolding judge_checked
judge_checked_deny s e h = rw h refl

judge_at_deny :
    (s : Scope) (action : Json) (used : ℤ) (t : ℕ)
    → (judge_checked s (validate_action action)).decision ≡ deny
    → (judge_at s action used t).decision ≡ deny
unfolding judge_at
judge_at_deny s action (pos n) t h = ground arith
judge_at_deny s action (negsuc n) t h = refl

judge_now_deny :
    (s : Scope) (action : Json) (used : ℤ) (now : Now) (clock : ℕ)
    → (judge_checked s (validate_action action)).decision ≡ deny
    → (judge_now s action used now clock).decision ≡ deny
unfolding judge_now
judge_now_deny s action (pos n) unset clock h = judge_at_deny s action (pos n) clock h
judge_now_deny s action (pos n) unaware clock h = refl
judge_now_deny s action (pos n) (at t) clock h = judge_at_deny s action (pos n) t h
judge_now_deny s action (negsuc n) now clock h = refl

evaluate_deny :
    (scope action : Json) (used : ℤ) (now : Now) (clock : ℕ)
    → ((s : Scope) → (judge_checked s (validate_action action)).decision ≡ deny)
    → (evaluate scope action used now clock).decision ≡ deny
evaluate_deny scope action used now clock h = go (validate_scope scope) refl
  where
    go :
        (c : Check Scope)
        → validate_scope scope ≡ c
        → (evaluate scope action used now clock).decision ≡ deny
    go (ok s) e =
        rw (evaluate_ok scope action s used now clock e)
          (judge_now_deny s action used now clock (h s))
    go (fault f) e = unfold evaluate in rw (e, evaluate) refl

-- An action that names an unsupported capability is denied, whatever else it holds or leaves out,
-- and whatever the scope, the count and the time are.
pub evaluate_unsupported :
    (scope : Json) (fs : Fields) (name : String) (used : ℤ) (now : Now) (clock : ℕ)
    → lookup "capability" fs ≡ some (str name)
    → mem name capabilities ≡ false
    → (evaluate scope (obj fs) used now clock).decision ≡ deny
evaluate_unsupported scope fs name used now clock given unknown =
    let (e, refused, present) = validate_action_unsupported fs name given unknown in
    evaluate_deny scope (obj fs) used now clock λ s. rw refused (judge_checked_deny s e present)
