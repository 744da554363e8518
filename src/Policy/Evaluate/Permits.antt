-- ===== src/Policy/Evaluate/Permits.antt =====
-- What an "allow" of `evaluate` (policy.py) means.
use agent_comm.Prelude.{
  ◌*◌, ◌-◌, ◌≤◌, String, true, Option, none, some, List, [], ◌∷◌, ◌++◌, ◌≡◌, refl, ◌↔◌, arith, All,
  AllMem, All-mono, length, mem, All-filter_nil, filter_nil-All, minus_nil-AllMem, AllMem-minus_nil,
  same_iff, any,
}
use agent_comm.Policy.Time.{Interval}
use agent_comm.Policy.Scope.{Scope, leaves}
use agent_comm.Policy.Action.{
  Action, Payload, Meeting, share_slots, share_resource, propose_meeting, accept_meeting, send_text,
  capability,
}
use agent_comm.Policy.Evaluate.{
  allow, Excess, subset_of, payload_intervals, payload_excess, covers, uncovered, too_long,
  window_excess, allowed_excess, length_excess, excess, within, judge,
}

-- Some window of the list holds the whole interval.
abbrev pub IsCovered : List Interval → Interval → Type 0
IsCovered ws i = any (covers i) ws ≡ true

-- Where the scope lists windows, each interval lies in one of them.
abbrev pub InWindows : Option (List Interval) → List Interval → Type 0
InWindows none is = Unit
InWindows (some ws) is = All (IsCovered ws) is

-- The bounds that concern one capability only. A free text is never within a scope.
abbrev pub PayloadPermits : Scope → Payload → Type 0
PayloadPermits s (share_slots is) = length is ≤ s.max_candidates
PayloadPermits s (share_resource r) = mem r s.resource_ids ≡ true
PayloadPermits s (propose_meeting m) =
    AllMem m.participant_ids s.participant_ids × (m.topic ≡ s.topic)
PayloadPermits s (accept_meeting m) =
    AllMem m.participant_ids s.participant_ids × (m.topic ≡ s.topic)
PayloadPermits s (send_text t) = ⊥

pub record Permits (s : Scope) (a : Action) : Type 0 where
  pub capability : mem (capability a.payload) s.capabilities ≡ true
  pub recipients : AllMem a.recipient_ids s.recipient_ids
  pub payload : PayloadPermits s a.payload
  pub inside :
      All (λ i. (s.window_start ≤ i.start) × (i.end ≤ s.window_end)) (payload_intervals a.payload)
  pub windows : InWindows s.allowed_windows (payload_intervals a.payload)
  pub short :
      All (λ i. i.end - i.start ≤ s.max_duration_minutes * 60000000) (payload_intervals a.payload)

append-nil_parts {ℓ} : {A : Type ℓ} (xs ys : List A) → xs ++ ys ≡ [] → (xs ≡ []) × (ys ≡ [])
append-nil_parts [] ys h = (refl, h)
append-nil_parts (x ∷ xs) ys h = cc

subset_nil : (k : String) (xs ys : List String) → subset_of k xs ys ≡ [] → AllMem ys xs
unfolding subset_of
subset_nil k xs ys h = minus_nil-AllMem ys xs (ground arith)

nil-subset : (k : String) (xs ys : List String) → AllMem ys xs → subset_of k xs ys ≡ []
unfolding subset_of
nil-subset k xs ys h = ground (arith, AllMem-minus_nil ys xs h)

module _ (s : Scope) (is : List Interval) where
  window_nil :
      window_excess s is ≡ [] → All (λ i. (s.window_start ≤ i.start) × (i.end ≤ s.window_end)) is
  unfolding window_excess
  window_nil h =
      All-mono (λ i p. ground arith) is
        (All-filter_nil (leaves s.window_start s.window_end) is (ground arith))

  nil-window :
      All (λ i. (s.window_start ≤ i.start) × (i.end ≤ s.window_end)) is → window_excess s is ≡ []
  unfolding window_excess
  nil-window h = ground (
    arith,
    filter_nil-All (leaves s.window_start s.window_end) is (All-mono (λ i p. ground arith) is h),
  )

  length_nil :
      length_excess s is ≡ [] → All (λ i. i.end - i.start ≤ s.max_duration_minutes * 60000000) is
  unfolding length_excess
  length_nil h =
      All-mono (λ i p. ground arith) is
        (All-filter_nil (too_long s.max_duration_minutes) is (ground arith))

  nil-length :
      All (λ i. i.end - i.start ≤ s.max_duration_minutes * 60000000) is → length_excess s is ≡ []
  unfolding length_excess
  nil-length h = ground (
    arith,
    filter_nil-All (too_long s.max_duration_minutes) is (All-mono (λ i p. ground arith) is h),
  )

allowed_nil :
    (ws : Option (List Interval)) (is : List Interval) → allowed_excess ws is ≡ [] → InWindows ws is
unfolding allowed_excess
allowed_nil none is h = tt
allowed_nil (some ws) is h =
    All-mono (λ i p. ground arith) is (All-filter_nil (uncovered ws) is (ground arith))

nil-allowed :
    (ws : Option (List Interval)) (is : List Interval) → InWindows ws is → allowed_excess ws is ≡ []
unfolding allowed_excess
nil-allowed none is h = refl
nil-allowed (some ws) is h =
    ground (arith, filter_nil-All (uncovered ws) is (All-mono (λ i p. ground arith) is h))

-- The bounds of one capability, a free text left aside.
abbrev PayloadFits : Scope → Payload → Type 0
PayloadFits s (send_text t) = Unit
PayloadFits s p = PayloadPermits s p

meeting_nil :
    (s : Scope) (m : Meeting)
    → payload_excess s (propose_meeting m) ≡ []
    → AllMem m.participant_ids s.participant_ids × (m.topic ≡ s.topic)
unfolding payload_excess
meeting_nil s m h =
    let (p, t) = append-nil_parts _ _ h in
    (
      subset_nil "participant_ids" s.participant_ids m.participant_ids p,
      ground (arith, same_iff m.topic s.topic),
    )

payload_nil : (s : Scope) (p : Payload) → payload_excess s p ≡ [] → PayloadFits s p
unfolding payload_excess
payload_nil s (share_slots is) h = ground arith
payload_nil s (share_resource r) h = (subset_nil "resource_ids" s.resource_ids (r ∷ []) h).0
payload_nil s (propose_meeting m) h = meeting_nil s m h
payload_nil s (accept_meeting m) h = meeting_nil s m h
payload_nil s (send_text t) h = tt

nil-payload : (s : Scope) (p : Payload) → PayloadFits s p → payload_excess s p ≡ []
unfolding payload_excess
nil-payload s (share_slots is) h = ground arith
nil-payload s (share_resource r) h = nil-subset "resource_ids" s.resource_ids (r ∷ []) (h, tt)
nil-payload s (propose_meeting m) (h, t) =
    rw (nil-subset "participant_ids" s.participant_ids m.participant_ids h)
      (ground (arith, same_iff m.topic s.topic))
nil-payload s (accept_meeting m) (h, t) =
    rw (nil-subset "participant_ids" s.participant_ids m.participant_ids h)
      (ground (arith, same_iff m.topic s.topic))
nil-payload s (send_text t) h = refl

record Fits (s : Scope) (a : Action) : Type 0 where
  capability : mem (capability a.payload) s.capabilities ≡ true
  recipients : AllMem a.recipient_ids s.recipient_ids
  payload : PayloadFits s a.payload
  inside :
      All (λ i. (s.window_start ≤ i.start) × (i.end ≤ s.window_end)) (payload_intervals a.payload)
  windows : InWindows s.allowed_windows (payload_intervals a.payload)
  short :
      All (λ i. i.end - i.start ≤ s.max_duration_minutes * 60000000) (payload_intervals a.payload)

excess_nil : (s : Scope) (a : Action) → excess s a ≡ [] → Fits s a
unfolding excess
excess_nil s a h =
    let (p1, h1) = append-nil_parts _ _ h in
    let (p2, h2) = append-nil_parts _ _ h1 in
    let (p3, h3) = append-nil_parts _ _ h2 in
    let (p4, h4) = append-nil_parts _ _ h3 in
    let (p5, p6) = append-nil_parts _ _ h4 in
    record {
      capability = (subset_nil "capabilities" s.capabilities (capability a.payload ∷ []) p1).0;
      recipients = subset_nil "recipient_ids" s.recipient_ids a.recipient_ids p2;
      payload = payload_nil s a.payload p3;
      inside = window_nil s (payload_intervals a.payload) p4;
      windows = allowed_nil s.allowed_windows (payload_intervals a.payload) p5;
      short = length_nil s (payload_intervals a.payload) p6;
    }

nil-excess : (s : Scope) (a : Action) → Fits s a → excess s a ≡ []
unfolding excess
nil-excess s a f = cc (
  nil-subset "capabilities" s.capabilities (capability a.payload ∷ []) (f.capability, tt),
  nil-subset "recipient_ids" s.recipient_ids a.recipient_ids f.recipients,
  nil-payload s a.payload f.payload,
  nil-window s (payload_intervals a.payload) f.inside,
  nil-allowed s.allowed_windows (payload_intervals a.payload) f.windows,
  nil-length s (payload_intervals a.payload) f.short,
)

within_allow : (es : List Excess) → (within es).decision ≡ allow → es ≡ []
unfolding within
within_allow [] h = refl
within_allow (e ∷ es) h = cc

Permits-of : (s : Scope) (a : Action) → Fits s a → PayloadPermits s a.payload → Permits s a
Permits-of s a f p = record {
  capability = f.capability;
  recipients = f.recipients;
  payload = p;
  inside = f.inside;
  windows = f.windows;
  short = f.short;
}

fits_payload : (s : Scope) (p : Payload) → PayloadPermits s p → PayloadFits s p
fits_payload s (send_text t) h = tt
fits_payload s _ h = h

Fits-of : (s : Scope) (a : Action) → Permits s a → Fits s a
Fits-of s a p = record {
  capability = p.capability;
  recipients = p.recipients;
  payload = fits_payload s a.payload p.payload;
  inside = p.inside;
  windows = p.windows;
  short = p.short;
}

abbrev acting : List String → Payload → Action
acting rs p = record { recipient_ids = rs; payload = p }

judge_allow :
    (s : Scope) (rs : List String) (p : Payload)
    → (judge s (acting rs p)).decision ≡ allow
    → Permits s (acting rs p)
unfolding judge
judge_allow s rs (send_text t) h = cc
judge_allow s rs _ h =
    let f = excess_nil s (acting rs _) (within_allow _ h) in Permits-of s (acting rs _) f f.payload

Permits-judge :
    (s : Scope) (rs : List String) (p : Payload)
    → Permits s (acting rs p)
    → (judge s (acting rs p)).decision ≡ allow
unfolding judge within
Permits-judge s rs (send_text t) h = absurd h.payload
Permits-judge s rs _ h = rw (nil-excess s (acting rs _) (Fits-of s (acting rs _) h)) refl

-- The verdict on a valid action is "allow" exactly when every bound of the scope holds of it.
pub judge_allow_iff : (s : Scope) (a : Action) → ((judge s a).decision ≡ allow) ↔ Permits s a
judge_allow_iff s a =
    (judge_allow s a.recipient_ids a.payload, Permits-judge s a.recipient_ids a.payload)
