-- ===== src/Store/Spec/Lasting.antt =====
-- What no move of store.py takes back: a decision of the owner, the revocation of a task, the mandate
-- of a task, the text of a resource, the content of an operation.
use agent_comm.Prelude.{some, ◌≤◌, String, true, ◌≡◌, refl, sym, ◌∙◌, arith, inl, inr, subst}
use agent_comm.Table.{Table, get, put}
use agent_comm.Table.Keeps.{Keeps, Keeps-refl, Keeps-trans, put-Keeps, put-Keeps_new}
use agent_comm.Store.State.{Task, TaskStatus, Resource, Approval, ApprovalStatus, Operation, Core}
use agent_comm.Store.Confirm.{is_open}
use agent_comm.Store.Respond.{is_decided}
use agent_comm.Store.Spec.{
  SameRequest, SameContent, Move, Moves, contacts_written, proposal_written, resource_registered,
  task_prepared, task_approved, task_revoked, task_spent, approval_asked, approval_moved,
  operation_stored, operation_moved, still, moved,
}

-- A request stays what it is, and a decided one does not change at all.
abbrev pub Request : Approval → Approval → Type 0
Request a b = SameRequest a b × (is_decided a.status ≡ true → b ≡ a)

-- A task keeps its owner and its mandate; its revision and what it has used only grow; a revoked one
-- does not change at all.
abbrev pub Mandate : Task → Task → Type 0
Mandate t u =
    (u.task_id ≡ t.task_id)
    × (u.owner_session ≡ t.owner_session)
    × (u.scope ≡ t.scope)
    × (t.revision ≤ u.revision)
    × (t.used_count ≤ u.used_count)
    × (t.status ≡ TaskStatus.revoked → u ≡ t)

abbrev pub SameResource : Resource → Resource → Type 0
SameResource r s = s ≡ r

pub record Lasts (c d : Core) : Type 0 where
  pub approvals : Keeps Request c.approvals d.approvals
  pub tasks : Keeps Mandate c.tasks d.tasks
  pub resources : Keeps SameResource c.resources d.resources
  pub operations : Keeps SameContent c.operations d.operations

Request-refl : (a : Approval) → Request a a
Request-refl a = ((refl, refl, refl, refl, refl), λ h. refl)

Request-trans : (a b c : Approval) → Request a b → Request b c → Request a c
Request-trans a b c (p, f) (q, g) = (
  (q.0 ∙ p.0, q.1 ∙ p.1, q.2 ∙ p.2, q.3 ∙ p.3, q.4 ∙ p.4),
  λ h. g (subst (λ (x : Approval). is_decided x.status ≡ true) (sym (f h)) h) ∙ f h,
)

Mandate-refl : (t : Task) → Mandate t t
Mandate-refl t = (refl, refl, refl, omega arith, omega arith, λ h. refl)

Mandate-trans : (t u v : Task) → Mandate t u → Mandate u v → Mandate t v
Mandate-trans t u v p q = (
  q.0 ∙ p.0,
  q.1 ∙ p.1,
  q.2 ∙ p.2,
  omega arith,
  omega arith,
  λ h. q.5 (subst (λ (x : Task). x.status ≡ TaskStatus.revoked) (sym (p.5 h)) h) ∙ p.5 h,
)

Content-refl : (o : Operation) → SameContent o o
Content-refl o = (refl, refl, refl, refl, refl, refl, refl, refl)

Content-trans : (o p q : Operation) → SameContent o p → SameContent p q → SameContent o q
Content-trans o p q a b =
    (b.0 ∙ a.0, b.1 ∙ a.1, b.2 ∙ a.2, b.3 ∙ a.3, b.4 ∙ a.4, b.5 ∙ a.5, b.6 ∙ a.6, b.7 ∙ a.7)

pub Lasts-refl : (c : Core) → Lasts c c
Lasts-refl c = record {
  approvals = Keeps-refl Request Request-refl c.approvals;
  tasks = Keeps-refl Mandate Mandate-refl c.tasks;
  resources = Keeps-refl SameResource (λ r. refl) c.resources;
  operations = Keeps-refl SameContent Content-refl c.operations;
}

pub Lasts-trans : (c d e : Core) → Lasts c d → Lasts d e → Lasts c e
Lasts-trans c d e f g = record {
  approvals =
      Keeps-trans Request Request-trans c.approvals d.approvals e.approvals f.approvals g.approvals;
  tasks = Keeps-trans Mandate Mandate-trans c.tasks d.tasks e.tasks f.tasks g.tasks;
  resources =
      Keeps-trans SameResource (λ r s t p q. q ∙ p) c.resources d.resources e.resources f.resources
        g.resources;
  operations =
      Keeps-trans SameContent Content-trans c.operations d.operations e.operations f.operations
        g.operations;
}

with_tasks :
    (c : Core) (t : Table Task) → Keeps Mandate c.tasks t → Lasts c (record c { tasks = t })
with_tasks c t h = record {
  approvals = (Lasts-refl c).approvals;
  tasks = h;
  resources = (Lasts-refl c).resources;
  operations = (Lasts-refl c).operations;
}

with_approvals :
    (c : Core) (t : Table Approval)
    → Keeps Request c.approvals t
    → Lasts c (record c { approvals = t })
with_approvals c t h = record {
  approvals = h;
  tasks = (Lasts-refl c).tasks;
  resources = (Lasts-refl c).resources;
  operations = (Lasts-refl c).operations;
}

with_resources :
    (c : Core) (t : Table Resource)
    → Keeps SameResource c.resources t
    → Lasts c (record c { resources = t })
with_resources c t h = record {
  approvals = (Lasts-refl c).approvals;
  tasks = (Lasts-refl c).tasks;
  resources = h;
  operations = (Lasts-refl c).operations;
}

with_operations :
    (c : Core) (t : Table Operation)
    → Keeps SameContent c.operations t
    → Lasts c (record c { operations = t })
with_operations c t h = record {
  approvals = (Lasts-refl c).approvals;
  tasks = (Lasts-refl c).tasks;
  resources = (Lasts-refl c).resources;
  operations = h;
}

open_undecided : (s : ApprovalStatus) → is_open s ≡ true → is_decided s ≡ true → ⊥
open_undecided ApprovalStatus.pending h i = cc
open_undecided ApprovalStatus.presenting h i = cc
open_undecided ApprovalStatus.expired h i = cc
open_undecided ApprovalStatus.approved h i = cc
open_undecided ApprovalStatus.denied h i = cc
open_undecided ApprovalStatus.superseded h i = cc

abbrev replaced_task :
    (c : Core) (k : String) (t u : Task)
    → get c.tasks k ≡ some t
    → Mandate t u
    → Lasts c (record c { tasks = put k u c.tasks })
replaced_task c k t u h m =
    with_tasks c (put k u c.tasks) (put-Keeps Mandate Mandate-refl c.tasks k t u h m)

pub Move-Lasts : {c d : Core} → Move c d → Lasts c d
Move-Lasts (contacts_written c t) = record {
  approvals = (Lasts-refl c).approvals;
  tasks = (Lasts-refl c).tasks;
  resources = (Lasts-refl c).resources;
  operations = (Lasts-refl c).operations;
}
Move-Lasts (proposal_written c k p) = record {
  approvals = (Lasts-refl c).approvals;
  tasks = (Lasts-refl c).tasks;
  resources = (Lasts-refl c).resources;
  operations = (Lasts-refl c).operations;
}
Move-Lasts (resource_registered c k r (inl h)) =
    with_resources c _ (put-Keeps_new SameResource (λ s. refl) c.resources k r h)
Move-Lasts (resource_registered c k r (inr h)) =
    with_resources c _ (put-Keeps SameResource (λ s. refl) c.resources k r r h refl)
Move-Lasts (task_prepared c k t h e f g) =
    with_tasks c _ (put-Keeps_new Mandate Mandate-refl c.tasks k t h)
Move-Lasts (task_approved c k t h f) =
    replaced_task c k t _ h (refl, refl, refl, omega arith, omega arith, λ r. cc)
Move-Lasts (task_revoked c k t h (inl f)) =
    replaced_task c k t _ h (refl, refl, refl, omega arith, omega arith, λ r. cc)
Move-Lasts (task_revoked c k t h (inr f)) =
    replaced_task c k t _ h (refl, refl, refl, omega arith, omega arith, λ r. cc)
Move-Lasts (task_spent c k t h f g) =
    replaced_task c k t _ h (refl, refl, refl, omega arith, omega arith, λ r. cc)
Move-Lasts (approval_asked c k a h e f) =
    with_approvals c _ (put-Keeps_new Request Request-refl c.approvals k a h)
Move-Lasts (approval_moved c k a b h f r) = with_approvals c _ (
    put-Keeps Request Request-refl c.approvals k a b h
      (r, λ d. absurd (open_undecided a.status f d)))
Move-Lasts (operation_stored c k o h e) =
    with_operations c _ (put-Keeps_new SameContent Content-refl c.operations k o h)
Move-Lasts (operation_moved c k o p h r) =
    with_operations c _ (put-Keeps SameContent Content-refl c.operations k o p h r)

pub Moves-Lasts : {c d : Core} → Moves c d → Lasts c d
Moves-Lasts (still c) = Lasts-refl c
Moves-Lasts (moved {a} {b} {c} ms m) = Lasts-trans a b c (Moves-Lasts ms) (Move-Lasts m)
