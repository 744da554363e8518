-- ===== src/Store/Spec/Sound.antt =====
-- The rows of a sound database of store.py stand under their own identifiers, and no task has used
-- more actions than its mandate allows.
use agent_comm.Prelude.{◌≤◌, String, ◌≡◌, ◌∙◌, arith}
use agent_comm.Table.{put}
use agent_comm.Table.Sorted.{Each, IsSorted, put-Each, put-IsSorted, get-Each}
use agent_comm.Store.State.{Task, Approval, Operation, Core}
use agent_comm.Store.Spec.{
  Move, Moves, contacts_written, proposal_written, resource_registered, task_prepared,
  task_approved, task_revoked, task_spent, approval_asked, approval_moved, operation_stored,
  operation_moved, still, moved,
}

abbrev pub IsTask : String → Task → Type 0
IsTask k t = (t.task_id ≡ k) × (t.used_count ≤ t.scope.max_actions)

abbrev pub IsApproval : String → Approval → Type 0
IsApproval k a = a.approval_id ≡ k

abbrev pub IsOperation : String → Operation → Type 0
IsOperation k o = o.operation_id ≡ k

pub record IsSound (c : Core) : Type 0 where
  pub tasks : Each IsTask c.tasks
  pub approvals : Each IsApproval c.approvals
  pub sorted : IsSorted c.approvals
  pub operations : Each IsOperation c.operations
  pub sorted_operations : IsSorted c.operations

with_task :
    (c : Core) (k : String) (t : Task)
    → IsTask k t
    → IsSound c
    → IsSound (record c { tasks = put k t c.tasks })
with_task c k t h s = record {
  tasks = put-Each IsTask k t c.tasks h s.tasks;
  approvals = s.approvals;
  sorted = s.sorted;
  operations = s.operations;
  sorted_operations = s.sorted_operations;
}

with_approval :
    (c : Core) (k : String) (a : Approval)
    → IsApproval k a
    → IsSound c
    → IsSound (record c { approvals = put k a c.approvals })
with_approval c k a h s = record {
  tasks = s.tasks;
  approvals = put-Each IsApproval k a c.approvals h s.approvals;
  sorted = put-IsSorted k a c.approvals s.sorted;
  operations = s.operations;
  sorted_operations = s.sorted_operations;
}

with_operation :
    (c : Core) (k : String) (o : Operation)
    → IsOperation k o
    → IsSound c
    → IsSound (record c { operations = put k o c.operations })
with_operation c k o h s = record {
  tasks = s.tasks;
  approvals = s.approvals;
  sorted = s.sorted;
  operations = put-Each IsOperation k o c.operations h s.operations;
  sorted_operations = put-IsSorted k o c.operations s.sorted_operations;
}

pub Move-IsSound : {c d : Core} → Move c d → IsSound c → IsSound d
Move-IsSound (contacts_written c t) s = record {
  tasks = s.tasks;
  approvals = s.approvals;
  sorted = s.sorted;
  operations = s.operations;
  sorted_operations = s.sorted_operations;
}
Move-IsSound (proposal_written c k p) s = record {
  tasks = s.tasks;
  approvals = s.approvals;
  sorted = s.sorted;
  operations = s.operations;
  sorted_operations = s.sorted_operations;
}
Move-IsSound (resource_registered c k r h) s = record {
  tasks = s.tasks;
  approvals = s.approvals;
  sorted = s.sorted;
  operations = s.operations;
  sorted_operations = s.sorted_operations;
}
Move-IsSound (task_prepared c k t h e f g) s = with_task c k t (e, omega arith) s
Move-IsSound (task_approved c k t h f) s =
    let i = get-Each IsTask c.tasks k t s.tasks h in with_task c k _ i s
Move-IsSound (task_revoked c k t h f) s =
    let i = get-Each IsTask c.tasks k t s.tasks h in with_task c k _ i s
Move-IsSound (task_spent c k t h f g) s =
    let i = get-Each IsTask c.tasks k t s.tasks h in with_task c k _ (i.0, omega arith) s
Move-IsSound (approval_asked c k a h e f) s = with_approval c k a e s
Move-IsSound (approval_moved c k a b h f r) s =
    with_approval c k b (r.0 ∙ get-Each IsApproval c.approvals k a s.approvals h) s
Move-IsSound (operation_stored c k o h e) s = with_operation c k o e s
Move-IsSound (operation_moved c k o p h r) s =
    with_operation c k p (r.0 ∙ get-Each IsOperation c.operations k o s.operations h) s

pub Moves-IsSound : {c d : Core} → Moves c d → IsSound c → IsSound d
Moves-IsSound (still c) s = s
Moves-IsSound (moved ms m) s = Move-IsSound m (Moves-IsSound ms s)
