-- ===== src/Store/Tests.antt =====
-- The theorems about store.py at a small store.
mod Receipts
mod Sending
mod Consent
mod Contacts
use agent_comm.Prelude.{
  ℕ, String, false, true, Option, none, some, List, [], ◌∷◌, ◌≡◌, refl, sym, arith, subst,
}
use agent_comm.Json.{Json, null}
use agent_comm.Table.{get, put, rows}
use agent_comm.Remote.State.{Outcome, ok}
use agent_comm.Store.State.{TaskStatus, ApprovalStatus, Core, Task, Operation, empty_core}
use agent_comm.Social.Steps.Lasting.{no_rows}
use agent_comm.Store.Fixture.{
  env, neighbours, others, store, at, owner, task_with, approval_with, note, ready_operation,
  core_with,
}
use agent_comm.Identity.{is_name_character, is_identifier}
use agent_comm.Store.Records.{principal, check_owner, check_identifier}
use agent_comm.Store.Tasks.{revoke}
use agent_comm.Store.Prepare.{register_resource}
use agent_comm.Store.Spec.{SameContent, Moves, still}
use agent_comm.Store.Spec.Lasting.{Mandate}
use agent_comm.Store.Spec.Sound.{IsSound}
use agent_comm.Store.Spec.Acts.{Acts}
use agent_comm.Store.Steps.{Step, Steps, resource_registered, task_revoked, begin, next}
use agent_comm.Store.Steps.Lasting.{mandates_kept, decided_lasts, task_lasts, content_lasts}

abbrev pub revoked_core : Core
revoked_core = record (core_with TaskStatus.active ApprovalStatus.approved) {
  tasks =
      ("t1", record (task_with TaskStatus.active) { status = TaskStatus.revoked; revision = 2 })
      ∷ [];
}

pub sound : (t : TaskStatus) (a : ApprovalStatus) → IsSound (core_with t a)
sound t a = record {
  tasks = ((refl, omega arith), tt);
  approvals = (refl, tt);
  sorted = (tt, tt);
  operations = (refl, tt);
  sorted_operations = (tt, tt);
}

revokes :
    revoke env store "t1" owner (at (core_with TaskStatus.active ApprovalStatus.approved))
    ≡ ok (at revoked_core)
unfolding revoke get principal put
revokes = refl

step :
    Step env neighbours others
      (at (core_with TaskStatus.active ApprovalStatus.approved))
      (at revoked_core)
step =
    task_revoked "t1" owner (at (core_with TaskStatus.active ApprovalStatus.approved))
      (at revoked_core) revokes

pub run :
    Steps env neighbours others
      (at (core_with TaskStatus.active ApprovalStatus.approved))
      (at revoked_core)
run = next (begin (at (core_with TaskStatus.active ApprovalStatus.approved))) step

decided_lasts_example :
    get revoked_core.approvals "a1" ≡ some (approval_with ApprovalStatus.approved)
unfolding get
decided_lasts_example =
    decided_lasts env neighbours others run (sound TaskStatus.active ApprovalStatus.approved) "a1"
      (approval_with ApprovalStatus.approved) refl refl

task_lasts_example :
    (u : Task) × (get revoked_core.tasks "t1" ≡ some u) × Mandate (task_with TaskStatus.active) u
unfolding get
task_lasts_example =
    task_lasts env neighbours others run (sound TaskStatus.active ApprovalStatus.approved) "t1"
      (task_with TaskStatus.active) refl

content_lasts_example :
    (get revoked_core.resources "r1" ≡ some note)
    × ((p : Operation) × (get revoked_core.operations "op1" ≡ some p)
        × SameContent ready_operation p)
unfolding get
content_lasts_example =
    content_lasts env neighbours others run (sound TaskStatus.active ApprovalStatus.approved) "r1"
      "op1" note ready_operation refl refl

registers :
    register_resource env store "r1" "Note" "text" owner none (at empty_core)
    ≡ ok (note, (at (record empty_core { resources = ("r1", note) ∷ [] })))
unfolding register_resource is_name_character check_identifier check_owner principal get put
    is_identifier
registers = refl

mandates_kept_example : IsSound (record empty_core { resources = ("r1", note) ∷ [] })
mandates_kept_example =
    mandates_kept env neighbours others no_rows tt
      (at (record empty_core { resources = ("r1", note) ∷ [] }))
      (next (begin (at empty_core)) (
        resource_registered "r1" "Note" "text" owner none (at empty_core)
          (at (record empty_core { resources = ("r1", note) ∷ [] })) note registers))
