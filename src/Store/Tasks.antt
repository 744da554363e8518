-- ===== src/Store/Tasks.antt =====
-- `_references`, `prepare_task`, `_task`, `_live` and `revoke` of store.py.
pub mod Moves
use agent_comm.Prelude.{
  ℕ, ◌+◌, min, String, Bool, true, false, not, ◌&&◌, Option, none, some, List, [], ◌∷◌, ◌++◌, ◌<>◌,
  same, leb, ltb, map, filter, sort_set, if◌then◌else◌,
}
use agent_comm.Json.{Json}
use agent_comm.Table.{get}
use agent_comm.Policy.Fault.{Check}
use agent_comm.Policy.Scope.{Scope, validate_scope}
use agent_comm.Policy.Evaluate.{Decision, allow, deny}
use agent_comm.Policy.Render.{join, render_scope}
use agent_comm.Remote.State.{Outcome, ok, raised, value_error, raise_if, ◌>>=◌, ◌>>◌}
use agent_comm.Store.State.{
  Env, Contact, Resource, Task, TaskStatus, Approval, task_grant, Core, Mixins,
}
use agent_comm.Store.Records.{
  check_owner, check_identifier, is_owned, is_same_owner, put_task, audit,
}
use agent_comm.Store.Same.{same_scope}
use agent_comm.Store.Prepare.{request_approval}

-- A contact or a resource of this owner: `_get` and then `_belongs`.
unfoldable pub own_contact : Core → String → String → Option Contact
own_contact c key owner = elim (get c.contacts key) [
  | none ↦ none
  | some x ↦ if is_owned x.owner_id owner then some x else none
]

unfoldable pub own_resource : Core → String → String → Option Resource
own_resource c key owner = elim (get c.resources key) [
  | none ↦ none
  | some x ↦ if is_owned x.owner_id owner then some x else none
]

-- The two loops of `_references`. Python walks the set of contact IDs in an order of its own.
contacts_of : Core → String → List String → Outcome (List (String × Contact))
unfolding own_contact
contacts_of c owner [] = ok []
contacts_of c owner (k ∷ ks) = elim (own_contact c k owner) [
  | none ↦
      raised (value_error ("Contact " <> (k <> " must be confirmed in this owner session first")))
  | some x ↦ do xs ← contacts_of c owner ks; ok ((k, x) ∷ xs)
]

resources_of : Core → String → List String → Outcome (List (String × Resource))
unfolding own_resource
resources_of c owner [] = ok []
resources_of c owner (k ∷ ks) = elim (own_resource c k owner) [
  | none ↦
      raised (value_error ("Resource " <> (k <> " must be registered in this owner session first")))
  | some x ↦ do xs ← resources_of c owner ks; ok ((k, x) ∷ xs)
]

-- `_references(scope, owner_session)`
unfoldable pub references :
    Core → Scope → String → Outcome (List (String × Contact) × List (String × Resource))
unfolding contacts_of resources_of sort_set
references c scope owner = do
  contacts ←
      contacts_of c owner (
        filter (λ k. not (same k "self")) (sort_set (scope.recipient_ids ++ scope.participant_ids)))
  resources ← resources_of c owner scope.resource_ids
  ok (contacts, resources)

-- `- <key> / <aliases>: <urn>`
abbrev pub identity_line : String × Contact → String
identity_line (k, x) = "- " <> (k <> (" / " <> (join ", " x.aliases <> (": " <> x.urn))))

material : String × Resource → String
material (k, r) = "资料 " <> (k <> ("：" <> (r.title <> ("\n" <> r.text))))

or_none : String → String
or_none s = if same s "" then "无" else s

-- `_live(task)`
unfoldable pub is_live : ℕ → Task → Bool
is_live now t =
    (elim t.status [ TaskStatus.active ↦ true | _ ↦ false ]) && ltb now t.scope.expires_at

-- `_task(task_id, owner_session)`
unfoldable pub task_of : Core → String → String → Outcome Task
task_of c task_id owner = elim (get c.tasks task_id) [
  | none ↦ raised (value_error "Task is not available to this owner session")
  | some t ↦
      (if is_same_owner t.owner_session owner
        then ok t
        else raised (value_error "Task is not available to this owner session"))
]

-- What `prepare_task` returns: the task that is decided already, or the approval that is asked for.
pub data Prepared : Type 0 where
  settled : Decision → Task → Prepared
  asked : Approval → Prepared

checked : Check Scope → Outcome Scope
checked (Check.ok s) = ok s
checked (Check.fault e) = raised (value_error "Invalid scope")

abbrev new_task : String → String → Scope → Task
new_task task_id owner scope = record {
  task_id = task_id;
  owner_session = owner;
  scope = scope;
  revision = 1;
  status = TaskStatus.waiting;
  used_count = 0;
}

module _ (E : Env) (X : Mixins) where
  open E use {quoted, iso}

  task_question : Scope → List (String × Contact) → List (String × Resource) → String
  unfolding render_scope material or_none
  task_question scope contacts resources =
      "我可以按下面的范围替你推进这件事吗？范围内不逐条询问；越界时再问。\n\n"
      <> (render_scope quoted iso scope
          <> ("\n\n已确认的对象：\n"
              <> (join "\n" (map identity_line contacts)
                  <> ("\n\n本次允许提供的资料全文：\n"
                      <> (or_none (join "\n\n" (map material resources))
                          <> "\n\n仅本事项；不会建立常驻授权。请确认你允许向上述接收者提供这些内容。")))))

  ask_task :
      String
      → Scope
      → String
      → List (String × Contact)
      → List (String × Resource)
      → ℕ
      → Core × X.State
      → Outcome (Prepared × (Core × X.State))
  unfolding task_question request_approval
  ask_task task_id scope owner contacts resources now d = do
    (a, d') ←
        request_approval E X (task_grant scope 1) task_id owner
          (task_question scope contacts resources) (min scope.expires_at (now + 900000000)) now d
    ok (asked a, d')

  -- `prepare_task(task_id, scope, owner_session)`. The text of a fault of the scope is left out.
  unfoldable pub prepare_task :
      String → Json → String → ℕ → Core × X.State → Outcome (Prepared × (Core × X.State))
  unfolding check_owner check_identifier checked references ask_task same_scope
  prepare_task task_id given owner now d = do
    check_owner owner
    check_identifier task_id "task_id"
    scope ← checked (validate_scope given)
    raise_if (leb scope.expires_at now) (value_error "Cannot authorize an expired task")
    (contacts, resources) ← references (d.0) scope owner
    elim (get (d.0.tasks) task_id) [
      | none ↦
          ask_task task_id scope owner contacts resources now
            (put_task X task_id (new_task task_id owner scope) d)
      | some old ↦
          (if not (is_same_owner old.owner_session owner && same_scope old.scope scope)
            then raised (value_error "Task ID already exists with a different owner or mandate")
            else elim old.status [
              | TaskStatus.waiting ↦ ask_task task_id scope owner contacts resources now d
              | TaskStatus.active ↦ ok (settled allow old, d)
              | TaskStatus.revoked ↦ ok (settled deny old, d)
            ])
    ]

  -- `revoke(task_id, owner_session)`
  unfoldable pub revoke : String → String → Core × X.State → Outcome (Core × X.State)
  unfolding task_of
  revoke task_id owner d = do
    t ← task_of (d.0) task_id owner
    elim t.status [
      | TaskStatus.revoked ↦ ok d
      | _ ↦ ok (
          audit X "task_revoked" (
            put_task X task_id (record t { status = TaskStatus.revoked; revision = t.revision + 1 })
              d))
    ]
