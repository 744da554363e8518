-- ===== src/Store/Confirm.antt =====
-- The native confirmation of store.py: `begin_confirmation`, `confirmation_result`,
-- `finish_confirmation`; and `_remote_respond_approval`, the decision on the web.
pub mod Moves
pub mod Consent
use agent_comm.Prelude.{
  ℕ, ◌+◌, min, String, Bool, true, false, not, ◌&&◌, ◌||◌, Option, none, some, List, [], ◌∷◌, same,
  any, mem, ltb, leb, if◌then◌else◌,
}
use agent_comm.Json.{str}
use agent_comm.Table.{get, rows}
use agent_comm.Remote.State.{Outcome, ok, raised, value_error, raise_if, ◌>>=◌, ◌>>◌}
use agent_comm.Store.State.{
  Env, Approval, ApprovalStatus, task_grant, operation_grant, contact_binding, worker_policy,
  collaboration_v2, Core, Mixins,
}
use agent_comm.Store.Records.{check_owner, check_identifier, is_same_owner, put_approval, audit}
use agent_comm.Store.Requests.{digest, strip}
use agent_comm.Store.Current.{missing_row, approval_current, apply_approval, deny_approval}

-- "pending", "presenting" or "expired"
abbrev pub is_open : ApprovalStatus → Bool
is_open ApprovalStatus.pending = true
is_open ApprovalStatus.presenting = true
is_open ApprovalStatus.expired = true
is_open _ = false

abbrev pub is_presenting : ApprovalStatus → Bool
is_presenting ApprovalStatus.presenting = true
is_presenting _ = false

-- `approval.get("lease_until", 0) > clock`
abbrev pub is_leased : ℕ → Approval → Bool
is_leased now a = elim a.lease_until [ none ↦ false | some t ↦ ltb now t ]

abbrev pub is_displayed : ℕ → Approval → Bool
is_displayed now a = is_presenting a.status && is_leased now a

-- `_belongs` of the row that is read.
abbrev pub own_approval : Core → String → String → String → Outcome Approval
own_approval c approval_id owner message = elim (get c.approvals approval_id) [
  | none ↦ raised (value_error message)
  | some a ↦ (if is_same_owner a.owner_session owner then ok a else raised (value_error message))
]

-- What the host may show: `token`, `question`, `expires_at`.
pub record Display : Type 0 where
  pub token : String
  pub question : String
  pub expires_at : ℕ

pub data Answer : Type 0 where
  consent refusal unclear : Answer

-- What `finish_confirmation` returns.
pub data Resolution : Type 0 where
  approved_once denied expired_or_superseded no_consent : Resolution

is_self_binding : Approval → Bool
is_self_binding a = elim a.subject [ contact_binding x ↦ same a.subject_id "self" | _ ↦ false ]

abbrev pub unleased : ApprovalStatus → Approval → Approval
unleased s a = record a { status = s; token_hash = none; lease_until = none }

module _ (E : Env) where
  abbrev yes_words : List String
  yes_words = "可以" ∷ "可以。" ∷ "同意" ∷ "同意。" ∷ "批准" ∷ "允许" ∷ "确认" ∷ "yes" ∷ "approve" ∷ "允许本次" ∷ []

  abbrev no_words : List String
  no_words = "不可以" ∷ "不同意" ∷ "拒绝" ∷ "取消" ∷ "不允许" ∷ "no" ∷ "deny" ∷ "cancel" ∷ []

  -- `raw_response`: `none` where it is no text.
  unfoldable pub answer_of : Option String → Answer
  unfolding strip
  answer_of none = unclear
  answer_of (some raw) =
      let answer = E.casefold (strip raw) in
      if mem answer yes_words then consent else if mem answer no_words then refusal else unclear

module _ (E : Env) (X : Mixins) where
  -- The deadline of the native confirmation.
  deadline_of : Approval → ℕ → Core × X.State → Outcome ℕ
  deadline_of a now d = elim a.subject [
    | task_grant scope revision ↦ elim (get (d.0.tasks) a.subject_id) [
      | none ↦ missing_row
      | some t ↦ ok (min (now + 900000000) t.scope.expires_at)
    ]
    | operation_grant hash revision ↦ elim (get (d.0.operations) a.subject_id) [
      | none ↦ missing_row
      | some o ↦ elim (get (d.0.tasks) o.task_id) [
        | none ↦ missing_row
        | some t ↦ ok (min (now + 900000000) t.scope.expires_at)
      ]
    ]
    | collaboration_v2 v ↦ ok (min (now + 900000000) (X.deadline a now (d.0) (d.1)))
    | worker_policy v ↦ ok (min (now + 900000000) (X.deadline a now (d.0) (d.1)))
    | _ ↦ ok (now + 900000000)
  ]

  -- `begin_confirmation(approval_id, owner_session)`; `token` is what `secrets` gives.
  unfoldable pub begin_confirmation :
      String → String → String → ℕ → Core × X.State → Outcome (Display × (Core × X.State))
  unfolding check_owner is_self_binding approval_current deadline_of digest
  begin_confirmation approval_id owner token now d = do
    check_owner owner
    a ← own_approval (d.0) approval_id owner "Approval does not belong to this native owner session"
    raise_if (is_self_binding a) (
        value_error
          "contact_id 'self' is reserved for the local agent; confirm this contact using a different contact_id")
    raise_if (not (is_open a.status)) (value_error "Approval is already decided")
    raise_if (is_displayed now a)
        (value_error "This request is already displayed in a native confirmation")
    raise_if (any (λ b. same b.owner_session owner && is_displayed now b) (rows (d.0.approvals)))
        (value_error "Another native confirmation is in progress in this conversation")
    raise_if (not (approval_current E X a now d))
        (value_error "Approval belongs to a revoked task or superseded proposal")
    deadline ← deadline_of a now d
    ok (
      record { token = token; question = a.question; expires_at = deadline },
      put_approval X approval_id
          (record a {
            status = ApprovalStatus.presenting;
            owner_session = owner;
            expires_at = deadline;
            token_hash = some (digest E (str token));
            lease_until = some (min deadline (now + 360000000));
          })
          d,
    )

  -- `confirmation_result(approval_id, owner_session)`: the decision, where there is one.
  unfoldable pub confirmation_result : String → String → Core → Outcome (Option Bool)
  unfolding check_owner check_identifier
  confirmation_result approval_id owner c = do
    check_owner owner
    check_identifier approval_id "approval_id"
    a ← own_approval c approval_id owner "Approval does not belong to this owner"
    ok (elim a.status [
      | ApprovalStatus.approved ↦ some true
      | ApprovalStatus.denied ↦ some false
      | _ ↦ none
    ])

  abbrev pub is_token : String → Approval → Bool
  is_token token a = elim a.token_hash [
    | none ↦ same "" (digest E (str token))
    | some h ↦ same h (digest E (str token))
  ]

  -- The row that `finish_confirmation` accepts.
  unfoldable pub awaited : String → String → String → Core → Outcome Approval
  unfolding digest
  awaited approval_id token owner c = elim (get c.approvals approval_id) [
    | none ↦ raised (value_error "No matching active native confirmation")
    | some a ↦
        (if same a.owner_session owner && is_presenting a.status && is_token token a
          then ok a
          else raised (value_error "No matching active native confirmation"))
  ]

  unfoldable pub resolved : String → Approval → Core × X.State → Core × X.State
  resolved approval_id a d = audit X "native_confirmation_resolved" (put_approval X approval_id a d)

  -- The answer of the owner to a request that is current.
  unfoldable pub decide :
      String → Approval → Answer → ℕ → Core × X.State → Outcome (Resolution × (Core × X.State))
  unfolding apply_approval deny_approval resolved
  decide approval_id a consent now d = do
    let a' = unleased ApprovalStatus.approved a
    d' ← apply_approval E X a' now d
    ok (approved_once, resolved approval_id a' d')
  decide approval_id a refusal now d = do
    let a' = unleased ApprovalStatus.denied a
    d' ← deny_approval E X a' d
    ok (denied, resolved approval_id a' d')
  decide approval_id a unclear now d =
      ok (no_consent, resolved approval_id (unleased ApprovalStatus.pending a) d)

  -- `finish_confirmation(approval_id, token, owner_session, raw_response)`
  unfoldable pub finish_confirmation :
      String
      → String
      → String
      → Option String
      → ℕ
      → Core × X.State
      → Outcome (Resolution × (Core × X.State))
  unfolding awaited answer_of decide resolved approval_current
  finish_confirmation approval_id token owner raw now d = do
    a ← awaited approval_id token owner (d.0)
    if not (is_leased now a)
          || leb a.expires_at now
          || not (approval_current E X (unleased a.status a) now d)
        then ok (expired_or_superseded, resolved approval_id (unleased ApprovalStatus.expired a) d)
        else decide approval_id a (answer_of E raw) now d
