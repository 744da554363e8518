-- ===== src/Store/Contacts.antt =====
-- `resolve_contact` and `contact_urn` (store.py): who a name or a contact ID stands for.
pub mod Sole
pub mod Export
use agent_comm.Prelude.{
  String, Bool, false, true, not, ◌&&◌, ◌||◌, Option, none, some, List, [], ◌∷◌, same, any, filter,
  mem, map, if◌then◌else◌,
}
use agent_comm.Json.{Json}
use agent_comm.Table.{get, rows}
use agent_comm.Policy.Evaluate.{Decision, allow, clarify}
use agent_comm.Remote.State.{Outcome, ok, raised, value_error, raise_if, ◌>>=◌, ◌>>◌}
use agent_comm.Remote.Parse.{text_of, required, identity}
use agent_comm.Store.State.{Env, Contact, Approval, ApprovalStatus, Subject, contact_binding, Core}
use agent_comm.Store.Records.{check_owner, check_identifier, is_same_owner, is_owned}
use agent_comm.Store.Requests.{strip}
use agent_comm.Store.Tasks.{own_contact}

-- `status in {"pending", "presenting", "expired"}`
abbrev is_undecided : ApprovalStatus → Bool
is_undecided ApprovalStatus.pending = true
is_undecided ApprovalStatus.presenting = true
is_undecided ApprovalStatus.expired = true
is_undecided _ = false

abbrev is_binding : Subject → Bool
is_binding (contact_binding x) = true
is_binding _ = false

-- `pending_self`
abbrev pub pends_self : String → Core → Bool
pends_self owner c =
    any
      (λ a.
        is_same_owner a.owner_session owner
        && is_binding a.subject
        && same a.subject_id "self"
        && is_undecided a.status)
      (rows c.approvals)

-- The URN of a contact that is confirmed for this owner.
unfoldable pub urn_of : Option Contact → Outcome String
unfolding identity
urn_of none = raised (value_error "Contact must be confirmed for the current owner before export")
urn_of (some x) = identity (some x.urn)

-- The URN that "self" stands for; an empty `local_urn` counts as none.
unfoldable pub own_urn : Option String → Outcome String
unfolding identity
own_urn none = raised (value_error "Configure the host's local agent URN before exporting self")
own_urn (some own) =
    if same own ""
    then raised (value_error "Configure the host's local agent URN before exporting self")
    else identity (some own)

has_contact : Option Contact → Bool
has_contact none = false
has_contact (some x) = true

-- `"allow" if len(matches) == 1 else "clarify"`
abbrev pub resolution_of : List Contact → Decision
resolution_of (x ∷ []) = allow
resolution_of _ = clarify

module _ (E : Env) where
  -- The contact is this owner's, and is meant by the name.
  abbrev pub answers_to : String → String → Contact → Bool
  answers_to name owner x =
      is_owned x.owner_id owner
      && (same x.contact_id name || mem (E.casefold name) (map E.casefold x.aliases))

  -- `resolve_contact(name, owner_session)`
  unfoldable pub resolve_contact : Option Json → String → Core → Outcome (Decision × List Contact)
  unfolding check_owner strip
  resolve_contact given owner c = do
    check_owner owner
    name ← required (text_of given) (value_error "Provide a contact ID or local alias")
    raise_if (same (strip name) "") (value_error "Provide a contact ID or local alias")
    let matches = filter (answers_to name owner) (rows c.contacts)
    ok (resolution_of matches, matches)

  -- `contact_urn("self", owner_session)`
  unfoldable pub export_self : String → Core → Outcome String
  unfolding own_contact own_urn has_contact
  export_self owner c = do
    raise_if (has_contact (own_contact c "self" owner) || pends_self owner c) (
        value_error
          "Legacy contact_id 'self' is ambiguous: confirm the friend under a different contact_id; ask the host to migrate the old self binding before exporting self")
    own_urn E.local_urn

  -- `contact_urn(contact_id, owner_session)`
  unfoldable pub contact_urn : Option Json → String → Core → Outcome String
  unfolding check_owner check_identifier own_contact urn_of export_self
  contact_urn given owner c = do
    check_owner owner
    contact_id ←
        required (text_of given)
          (value_error "contact_id must contain 1–128 ASCII letters, digits, ., _, : or -")
    check_identifier contact_id "contact_id"
    if same contact_id "self" then export_self owner c else urn_of (own_contact c contact_id owner)
