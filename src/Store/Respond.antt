-- ===== src/Store/Respond.antt =====
-- `_remote_respond_approval` and `_remote_add_contact` of store.py.
pub mod Moves
use agent_comm.Prelude.{
  ℕ, String, Bool, true, false, not, ◌&&◌, ◌||◌, Option, none, some, List, [], ◌∷◌, same, any,
  if◌then◌else◌,
}
use agent_comm.Json.{Json, Fields, str, obj, no_fields, field, lookup}
use agent_comm.Table.{get, rows}
use agent_comm.Remote.State.{Outcome, ok, raised, value_error, raise_if, ◌>>=◌, ◌>>◌}
use agent_comm.Remote.Parse.{text_of, required}
use agent_comm.Store.State.{Env, Contact, Approval, ApprovalStatus, contact_binding, Core, Mixins}
use agent_comm.Store.Records.{check_identifier, is_same_owner, put_approval, put_contact, audit}
use agent_comm.Store.Same.{same_contact}
use agent_comm.Store.Requests.{contact_value}
use agent_comm.Store.Prepare.{is_bound}
use agent_comm.Store.Current.{approval_current, apply_approval, deny_approval}
use agent_comm.Store.Confirm.{is_open, own_approval}

-- `decision`, as the status that it leads to.
chosen : Option Json → Outcome ApprovalStatus
chosen given = do
  let bad = value_error "Approval decision must be approve or deny"
  s ← required (text_of given) bad
  if same s "approve"
      then ok ApprovalStatus.approved
      else if same s "deny"
      then ok ApprovalStatus.denied
      else raised bad

abbrev pub same_decision : ApprovalStatus → ApprovalStatus → Bool
same_decision ApprovalStatus.approved ApprovalStatus.approved = true
same_decision ApprovalStatus.denied ApprovalStatus.denied = true
same_decision _ _ = false

abbrev pub is_decided : ApprovalStatus → Bool
is_decided ApprovalStatus.approved = true
is_decided ApprovalStatus.denied = true
is_decided _ = false

abbrev pub decided_by : String → ApprovalStatus → Approval → Approval
decided_by owner s a = record a {
  status = s;
  owner_session = owner;
  token_hash = none;
  lease_until = none;
}

-- `result` of `_remote_respond_approval`
abbrev decision_json : String → ApprovalStatus → Json
decision_json approval_id s =
    let texts = elim s as (λ _. String × String) [
      | ApprovalStatus.approved ↦ ("allow", "approved_once")
      | _ ↦ ("deny", "denied")
    ] in
    obj (
      field "approval_id" (str approval_id)
        (field "decision" (str texts.0) (field "status" (str texts.1) no_fields)))

module _ (E : Env) (X : Mixins) where
  -- `_apply_approval` or `_deny_approval`, by the decision.
  act : ApprovalStatus → Approval → ℕ → Core × X.State → Outcome (Core × X.State)
  unfolding apply_approval deny_approval
  act s a now d = elim s [
    | ApprovalStatus.approved ↦ apply_approval E X a now d
    | _ ↦ deny_approval E X a d
  ]

  -- From the test of the status on.
  respond :
      String
      → String
      → ApprovalStatus
      → Approval
      → ℕ
      → Core × X.State
      → Outcome (Json × (Core × X.State))
  unfolding approval_current act
  respond approval_id owner s a now d =
      if is_decided a.status
      then (do
        raise_if (not (same_decision a.status s)) (value_error "Approval is already decided")
        ok (decision_json approval_id s, d))
      else (do
        raise_if (not (is_open a.status) || not (approval_current E X a now d))
            (value_error "Approval belongs to an expired or revoked task, or a superseded proposal")
        let a' = decided_by owner s a
        d' ← act s a' now d
        ok (
          decision_json approval_id s,
          audit X "remote_confirmation_resolved" (put_approval X approval_id a' d'),
        ))

  -- `_remote_respond_approval(params, owner_session)`
  unfoldable pub respond_approval :
      Fields → String → ℕ → Core × X.State → Outcome (Json × (Core × X.State))
  unfolding check_identifier chosen respond
  respond_approval params owner now d = do
    approval_id ←
        required (text_of (lookup "approval_id" params)) (value_error "Invalid approval_id")
    check_identifier approval_id "approval_id"
    s ← chosen (lookup "decision" params)
    a ← own_approval (d.0) approval_id owner "Approval does not belong to this paired owner"
    respond approval_id owner s a now d

  unfoldable pub is_binding_of : String → String → Approval → Bool
  is_binding_of contact_id owner a =
      is_same_owner a.owner_session owner
      && same a.subject_id contact_id
      && is_open a.status
      && elim a.subject [ contact_binding x ↦ true | _ ↦ false ]

  is_exact : Contact → Approval → Bool
  is_exact x a = elim a.subject [ contact_binding y ↦ same_contact y x | _ ↦ false ]

  -- The loop over the approvals of the contact.
  settle : Contact → String → List Approval → Core × X.State → Core × X.State
  unfolding is_binding_of is_exact
  settle x owner [] d = d
  settle x owner (a ∷ as') d = settle x owner as' (
      if is_binding_of x.contact_id owner a
      then (if is_exact x a
          then audit X "remote_confirmation_resolved"
              (put_approval X a.approval_id (decided_by owner ApprovalStatus.approved a) d)
          else (d.0, X.refresh a (d.0) (d.1)))
      else d)

  abbrev added : Contact → String → Option String → Core × X.State → Json
  added x status request d = obj (
      field "decision" (str "allow") (
        field "contact" (X.contact_view x (d.0) (d.1)) (
          field "status" (str status)
            (elim request [ none ↦ no_fields | some id ↦ field "request_id" (str id) no_fields ]))))

  earlier : String → String
  earlier s =
      if same s "connected"
      then "already_connected"
      else if same s "pending"
      then "already_requested"
      else "requested"

  -- `_remote_add_contact(params, owner_session)`
  unfoldable pub add_contact :
      Fields → String → ℕ → Core × X.State → Outcome (Json × (Core × X.State))
  unfolding contact_value settle earlier same_contact
  add_contact params owner now d = do
    x ←
        contact_value E (lookup "contact_id" params) (lookup "aliases" params) (lookup "urn" params)
          owner
    elim (get (d.0.contacts) x.contact_id) [
      | some old ↦
          (if not (same_contact old x)
            then raised (
                value_error
                  "Confirmed contact is immutable; use a new ID and confirm a new binding")
            else (do
              let before = X.contact_status old (d.0) (d.1)
              (request, σ) ← X.request_contact old now (d.0) (d.1)
              ok (added old (earlier before) request (d.0, σ), (d.0, σ))))
      | none ↦
          (if any (is_bound E X x.urn owner) (rows (d.0.contacts))
            then raised (
                value_error
                  "This agent identity is already a confirmed contact; use the existing contact")
            else (do
              let (c, σ) = put_contact X x.contact_id x d
              (request, σ') ← X.request_contact x now c σ
              let d' = audit X "remote_contact_added" (settle x owner (rows c.approvals) (c, σ'))
              ok (
                added x (elim request [ none ↦ "confirmed" | some _ ↦ "requested" ]) request d',
                d',
              )))
    ]
