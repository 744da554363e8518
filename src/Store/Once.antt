-- ===== src/Store/Once.antt =====
-- The entry points of store.py that run at most once for a request: `remote_mutation` and
-- `execute_owner_once`.
pub mod Moves
use agent_comm.Prelude.{
  ℕ, String, Bool, false, not, ◌&&◌, Option, none, some, List, [], ◌∷◌, ◌++◌, same, all, mem, leb,
  if◌then◌else◌,
}
use agent_comm.Json.{Json, Fields, str, obj, no_fields, field, keys}
use agent_comm.Table.{get}
use agent_comm.Policy.Message.{is_digest}
use agent_comm.Remote.State.{
  Outcome, ok, raised, Failure, value_error, remote_error, raise_if, ◌>>=◌, ◌>>◌,
}
use agent_comm.Store.State.{Env, OwnerAction, Core, Mixins}
use agent_comm.Store.Records.{principal, check_owner, put_mutation, put_owner_action}
use agent_comm.Store.Respond.{respond_approval, add_contact}

-- `required` and `optional` of `remote_mutation`
required_fields : String → Option (List String × List String)
required_fields m =
    if same m "contacts.add"
    then some ("contact_id" ∷ "aliases" ∷ "urn" ∷ [], [])
    else if same m "approval.respond"
    then some ("approval_id" ∷ "decision" ∷ [], [])
    else if same m "contacts.respond"
    then some ("request_id" ∷ "decision" ∷ [], "contact_id" ∷ "aliases" ∷ [])
    else if same m "contacts.block"
    then some ("urn" ∷ [], [])
    else if same m "contacts.unblock"
    then some ("urn" ∷ [], [])
    else if same m "inbox.review"
    then some ("message_id" ∷ "decision" ∷ [], [])
    else if same m "messages.send"
    then some ("recipient_urn" ∷ "text" ∷ [], "message_id" ∷ [])
    else if same m "inbox.mark_read"
    then some ("message_id" ∷ [], [])
    else none

unfoldable pub takes : String → Fields → Bool
unfolding required_fields
takes m fs = elim (required_fields m) [
  | none ↦ false
  | some (needed, more) ↦
      all (λ k. mem k (keys fs)) needed && all (λ k. mem k (needed ++ more)) (keys fs)
]

-- `RemoteMutationConflict`, whose code is "request_conflict"
abbrev pub conflict : Failure
conflict =
    remote_error "request_conflict"
      "This request ID was already used for different contents or owner"

-- What the first transaction of `execute_owner_once` leads to.
pub data Claimed : Type 0 where
  claimed : OwnerAction → Claimed
  completed : Json → Claimed
  orphaned : Claimed

module _ (E : Env) (X : Mixins) where
  -- The methods of the mixins, `others`: "contacts.respond", "contacts.block", "contacts.unblock",
  -- "inbox.review", "messages.send" and "inbox.mark_read".
  module _
      (others : String
        → Fields
        → String
        → ℕ
        → Core × X.State
        → Outcome (Json × (Core × X.State))) where
    unfoldable pub perform :
        String → Fields → String → ℕ → Core × X.State → Outcome (Json × (Core × X.State))
    unfolding add_contact respond_approval
    perform method params owner now d =
        if same method "contacts.add"
        then add_contact E X params owner now d
        else if same method "approval.respond"
        then respond_approval E X params owner now d
        else others method params owner now d

    -- `remote_mutation(method, params, owner_session, request_key=..., fingerprint=...,
    -- valid_until=...)`
    unfoldable pub remote_mutation :
        String
        → Fields
        → String
        → String
        → String
        → ℕ
        → ℕ
        → Core × X.State
        → Outcome (Json × (Core × X.State))
    unfolding check_owner is_digest takes perform principal
    remote_mutation method params owner request_key fingerprint valid_until now d = do
      check_owner owner
      raise_if (not (is_digest request_key && is_digest fingerprint))
          (value_error "A stable authenticated remote request is required")
      raise_if (not (takes method params)) (value_error "Unexpected remote mutation or parameters")
      raise_if (leb valid_until now) (
          value_error "The remote request or local pairing expired before the mutation could start")
      elim (get (d.0.mutations) request_key) [
        | some old ↦
            (if not (same old.fingerprint fingerprint && same old.owner_id (principal owner))
              then raised conflict
              else ok (old.result, d))
        | none ↦ (do
          (result, d') ← perform method params owner now d
          ok (
            result,
            put_mutation X request_key
                (record { fingerprint = fingerprint; owner_id = principal owner; result = result })
                d',
          ))
      ]

module _ (X : Mixins) where
  -- The first transaction.
  unfoldable pub claim_action :
      String → String → String → ℕ → ℕ → Core × X.State → Outcome (Claimed × (Core × X.State))
  unfolding check_owner is_digest principal
  claim_action owner request_key fingerprint valid_until now d = do
    check_owner owner
    raise_if (not (is_digest request_key && is_digest fingerprint))
        (value_error "A trusted stable owner request is required")
    raise_if (leb valid_until now)
        (value_error "Owner request or local pairing expired before execution")
    elim (get (d.0.owner_actions) request_key) [
      | some old ↦
          (if not (same old.fingerprint fingerprint && same old.owner_id (principal owner))
            then raised conflict
            else elim old.result [
              | some result ↦ ok (completed result, d)
              | none ↦ ok (orphaned, d)
            ])
      | none ↦
          (let row : OwnerAction = record {
            owner_id = principal owner;
            fingerprint = fingerprint;
            created_at = now;
            result = none;
          } in
            ok (claimed row, put_owner_action X request_key row d))
    ]

  -- The second transaction, with the result of the callback.
  unfoldable pub complete_action : String → OwnerAction → Json → Core × X.State → Core × X.State
  complete_action request_key row result d =
      put_owner_action X request_key (record row { result = some result }) d

  after_callback :
      String → OwnerAction → Outcome Json × (Core × X.State) → Outcome Json × (Core × X.State)
  unfolding complete_action
  after_callback request_key row (raised e, d) = (raised e, d)
  after_callback request_key row (ok result, d) =
      (ok result, complete_action request_key row result d)

  abbrev uncertain : String → Json
  uncertain request_key = obj (
      field "status" (str "uncertain") (
        field "request_key" (str request_key) (
          field "instruction"
            (str
              "The previous owner action may have run before interruption. Inspect agent state and pending approvals before making a new request; this request was not repeated.")
            no_fields)))

  -- `execute_owner_once(owner_session, callback, request_key=..., fingerprint=..., valid_until=...)`.
  -- The callback may raise, and what it has committed stays.
  unfoldable pub execute_owner_once :
      String
      → (Core × X.State → Outcome Json × (Core × X.State))
      → String
      → String
      → ℕ
      → ℕ
      → Core × X.State
      → Outcome Json × (Core × X.State)
  unfolding claim_action after_callback
  execute_owner_once owner callback request_key fingerprint valid_until now d =
      elim (claim_action owner request_key fingerprint valid_until now d) [
        | raised e ↦ (raised e, d)
        | ok (completed result, d') ↦ (ok result, d')
        | ok (orphaned, d') ↦ (ok (uncertain request_key), d')
        | ok (claimed row, d') ↦ after_callback request_key row (callback d')
      ]
