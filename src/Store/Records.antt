-- ===== src/Store/Records.antt =====
-- `_owner`, `_principal`, `_belongs`, `_put` and `_audit` of store.py.
use agent_comm.Prelude.{String, Bool, not, ◌||◌, ◌<>◌, same, ltb, ◌==◌, if◌then◌else◌}
use Prim.Native.Char.{code}
use Prim.Native.String.{count}
use agent_comm.Identity.{is_identifier}
use agent_comm.Table.{put}
use agent_comm.Remote.State.{Outcome, value_error, raise_if}
use agent_comm.Store.State.{
  Contact, Resource, Task, Approval, Operation, Proposal, Mutation, OwnerAction, Core, Mixins,
}

-- `owner_session.split("|", 1)[0]`
unfoldable pub principal : String → String
principal String.[] = String.[]
principal (String.◌∷◌ c s) =
    let rest = principal s in if code c == b'|' then String.[] else String.◌∷◌ c rest

-- `_owner(owner_session)`
unfoldable pub check_owner : String → Outcome (Unit {0})
check_owner owner =
    raise_if (same owner "" || ltb 512 (count owner))
      (value_error "A trusted host session is required")

-- `_belongs(record, owner_session)` on a record that holds an owner session.
abbrev pub is_same_owner : String → String → Bool
is_same_owner session owner = same (principal session) (principal owner)

-- `_belongs` on a record that holds an owner ID.
abbrev pub is_owned : String → String → Bool
is_owned owner_id owner = same owner_id (principal owner)

-- `identifier(value, name)`
unfoldable pub check_identifier : String → String → Outcome (Unit {0})
check_identifier value name =
    raise_if (not (is_identifier value))
      (value_error (name <> " must contain 1–128 ASCII letters, digits, ., _, : or -"))

module _ (X : Mixins) where
  abbrev pub Db : Type 0
  Db = Core × X.State

  -- The rest of `_put`, after the row was written.
  abbrev pub wrote : String → String → Core → Core × X.State → Core × X.State
  wrote kind key c (c', σ) = (c', X.on_write kind key c c' σ)

  -- `_put(kind, key, body)`, for each kind.
  abbrev pub put_task : String → Task → Core × X.State → Core × X.State
  put_task k t (c, σ) = wrote "task" k c (record c { tasks = put k t c.tasks }, σ)

  abbrev pub put_approval : String → Approval → Core × X.State → Core × X.State
  put_approval k a (c, σ) = wrote "approval" k c (record c { approvals = put k a c.approvals }, σ)

  abbrev pub put_operation : String → Operation → Core × X.State → Core × X.State
  put_operation k o (c, σ) =
      wrote "operation" k c (record c { operations = put k o c.operations }, σ)

  abbrev pub put_proposal : String → Proposal → Core × X.State → Core × X.State
  put_proposal k p (c, σ) = wrote "proposal" k c (record c { proposals = put k p c.proposals }, σ)

  abbrev pub put_contact : String → Contact → Core × X.State → Core × X.State
  put_contact k x (c, σ) = wrote "contact" k c (record c { contacts = put k x c.contacts }, σ)

  abbrev pub put_resource : String → Resource → Core × X.State → Core × X.State
  put_resource k x (c, σ) = wrote "resource" k c (record c { resources = put k x c.resources }, σ)

  abbrev pub put_mutation : String → Mutation → Core × X.State → Core × X.State
  put_mutation k m (c, σ) =
      wrote "remote_mutation" k c (record c { mutations = put k m c.mutations }, σ)

  abbrev pub put_owner_action : String → OwnerAction → Core × X.State → Core × X.State
  put_owner_action k a (c, σ) =
      wrote "owner_action" k c (record c { owner_actions = put k a c.owner_actions }, σ)

  -- `_audit(event, ...)`
  abbrev pub audit : String → Core × X.State → Core × X.State
  audit event (c, σ) = (c, X.audit event c σ)
