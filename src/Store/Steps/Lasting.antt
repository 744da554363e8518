-- ===== src/Store/Steps/Lasting.antt =====
-- What lasts in every run of a store (store.py).
use agent_comm.Prelude.{String, true, some, ◌≡◌, subst}
use agent_comm.Table.{get}
use agent_comm.Store.State.{Env, Task, TaskStatus, Approval, Resource, Operation, empty_core}
use agent_comm.Store.Respond.{is_decided}
use agent_comm.Store.Spec.{SameContent}
use agent_comm.Store.Spec.Sound.{IsSound}
use agent_comm.Store.Spec.Lasting.{Mandate}
use agent_comm.Store.Spec.Acts.{Acts-Lasts}
use agent_comm.Social.State.{Social, Neighbours}
use agent_comm.Social.Mixin.{Others}
use agent_comm.Social.Remote.{Place}
use agent_comm.Store.Steps.{Steps, Steps-Acts}

module _ (E : Env) (N : Neighbours) (O : Others N) where
  -- In every run of the operations of Store.Steps that begins with an empty database of store.py,
  -- whatever their order, no task has used more actions than its mandate allows, each task, approval and
  -- operation stands under its own identifier, and the approvals and the operations are in order.
  pub mandates_kept :
      (s : Social) (σ : N.State) (e : Place E N O)
      → Steps E N O (empty_core, (s, σ)) e
      → IsSound (e.0)
  mandates_kept s σ e run = (Steps-Acts E N O run sound).1
    where
      sound : IsSound empty_core
      sound = record {
        tasks = tt;
        approvals = tt;
        sorted = tt;
        operations = tt;
        sorted_operations = tt;
      }

  module _ {d e : Place E N O} (run : Steps E N O d e) (sound : IsSound (d.0)) where
    -- In every run, an approval that was approved or denied stays exactly as it is, whatever the host,
    -- the console and the peers do.
    pub decided_lasts :
        (k : String) (a : Approval)
        → get (d.0.approvals) k ≡ some a
        → is_decided a.status ≡ true
        → get (e.0.approvals) k ≡ some a
    decided_lasts k a n h =
        let (b, m, p) = (Acts-Lasts (Steps-Acts E N O run sound).0).approvals k a n in
        subst (λ x. get (e.0.approvals) k ≡ some x) (p.1 h) m

    -- In every run, a task keeps its owner and its mandate, its revision and the number of actions it
    -- has used never fall, and a revoked task stays exactly as it is.
    pub task_lasts :
        (k : String) (t : Task)
        → get (d.0.tasks) k ≡ some t
        → (u : Task) × (get (e.0.tasks) k ≡ some u) × Mandate t u
    task_lasts k t n = (Acts-Lasts (Steps-Acts E N O run sound).0).tasks k t n

    pub revoked_lasts :
        (k : String) (t : Task)
        → get (d.0.tasks) k ≡ some t
        → t.status ≡ TaskStatus.revoked
        → get (e.0.tasks) k ≡ some t
    revoked_lasts k t n h =
        let (u, m, p) = task_lasts k t n in subst (λ x. get (e.0.tasks) k ≡ some x) (p.5 h) m

    -- In every run, a registered resource stays exactly as it is, and an operation keeps its task, its
    -- revision, its action, its recipients, the text that it sends, its hash and its owner.
    pub content_lasts :
        (k j : String) (r : Resource) (o : Operation)
        → get (d.0.resources) k ≡ some r
        → get (d.0.operations) j ≡ some o
        → (get (e.0.resources) k ≡ some r)
          × ((p : Operation) × (get (e.0.operations) j ≡ some p) × SameContent o p)
    content_lasts k j r o n m =
        let lasts = Acts-Lasts (Steps-Acts E N O run sound).0 in
        let (s, i, q) = lasts.resources k r n in
        (subst (λ x. get (e.0.resources) k ≡ some x) q i, lasts.operations j o m)
