-- ===== src/Store/Spec.antt =====
-- What store.py promises of its rows, with no code in it: the moves that a task, an approval, an
-- operation and a resource may make, whoever makes them. The operations of the store are shown to be
-- sequences of these moves in the child modules named Moves.
pub mod Sound
pub mod Lasting
pub mod Acts
use agent_comm.Prelude.{subst, ℕ, suc, ◌<◌, ◌+◌, String, Bool, true, none, some, Option, ◌≡◌, ◌⊎◌}
use agent_comm.Table.{Table, get, put}
use agent_comm.Store.State.{
  Contact, Resource, Task, TaskStatus, Approval, ApprovalStatus, Operation, Proposal, Core,
}
use agent_comm.Store.Confirm.{is_open}

-- The request that an owner decides on.
abbrev pub SameRequest : Approval → Approval → Type 0
SameRequest a b =
    (b.approval_id ≡ a.approval_id)
    × (b.subject ≡ a.subject)
    × (b.subject_id ≡ a.subject_id)
    × (b.fingerprint ≡ a.fingerprint)
    × (b.question ≡ a.question)

-- What an operation sends, to whom, and under which mandate.
abbrev pub SameContent : Operation → Operation → Type 0
SameContent o p =
    (p.operation_id ≡ o.operation_id)
    × (p.task_id ≡ o.task_id)
    × (p.revision ≡ o.revision)
    × (p.action ≡ o.action)
    × (p.recipients ≡ o.recipients)
    × (p.wire_text ≡ o.wire_text)
    × (p.hash ≡ o.hash)
    × (p.owner_session ≡ o.owner_session)

pub data Move : Core → Core → Type 0 where
  contacts_written : (c : Core) (t : Table Contact) → Move c (record c { contacts = t })
  proposal_written :
      (c : Core) (k : String) (p : Proposal) → Move c (record c { proposals = put k p c.proposals })
  resource_registered :
      (c : Core) (k : String) (r : Resource)
      → (get c.resources k ≡ none) ⊎ (get c.resources k ≡ some r)
      → Move c (record c { resources = put k r c.resources })
  task_prepared :
      (c : Core) (k : String) (t : Task)
      → get c.tasks k ≡ none
      → t.task_id ≡ k
      → t.status ≡ TaskStatus.waiting
      → t.used_count ≡ 0
      → Move c (record c { tasks = put k t c.tasks })
  task_approved :
      (c : Core) (k : String) (t : Task)
      → get c.tasks k ≡ some t
      → t.status ≡ TaskStatus.waiting
      → Move c (record c { tasks = put k (record t { status = TaskStatus.active }) c.tasks })
  task_revoked :
      (c : Core) (k : String) (t : Task)
      → get c.tasks k ≡ some t
      → (t.status ≡ TaskStatus.waiting) ⊎ (t.status ≡ TaskStatus.active)
      → Move c (record c {
        tasks = put k (record t { status = TaskStatus.revoked; revision = t.revision + 1 }) c.tasks;
      })
  task_spent :
      (c : Core) (k : String) (t : Task)
      → get c.tasks k ≡ some t
      → t.status ≡ TaskStatus.active
      → t.used_count < t.scope.max_actions
      → Move c (record c { tasks = put k (record t { used_count = suc t.used_count }) c.tasks })
  approval_asked :
      (c : Core) (k : String) (a : Approval)
      → get c.approvals k ≡ none
      → a.approval_id ≡ k
      → a.status ≡ ApprovalStatus.pending
      → Move c (record c { approvals = put k a c.approvals })
  approval_moved :
      (c : Core) (k : String) (a b : Approval)
      → get c.approvals k ≡ some a
      → is_open a.status ≡ true
      → SameRequest a b
      → Move c (record c { approvals = put k b c.approvals })
  operation_stored :
      (c : Core) (k : String) (o : Operation)
      → get c.operations k ≡ none
      → o.operation_id ≡ k
      → Move c (record c { operations = put k o c.operations })
  operation_moved :
      (c : Core) (k : String) (o p : Operation)
      → get c.operations k ≡ some o
      → SameContent o p
      → Move c (record c { operations = put k p c.operations })

-- A transaction is a sequence of moves.
pub data Moves : Core → Core → Type 0 where
  still : (c : Core) → Moves c c
  moved : {a b c : Core} → Moves a b → Move b c → Moves a c

pub then : {a b c : Core} → Moves a b → Moves b c → Moves a c
then ms (still c) = ms
then ms (moved ns m) = moved (then ms ns) m

-- Where the database ends.
pub ends : {S : Type 0} {c : Core} (d e : Core × S) → d ≡ e → Moves c (d.0) → Moves c (e.0)
ends {S} {c} d e h ms = subst (λ (y : Core × S). Moves c (y.0)) h ms
