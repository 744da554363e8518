-- ===== src/Store/Spec/Acts.antt =====
-- The moves of store.py with the receipts of `remote_mutation` and `execute_owner_once`: a receipt is
-- written once, and the claim of an owner action gets its result once.
use agent_comm.Prelude.{String, none, some, ◌≡◌, refl, sym, ◌∙◌, subst}
use agent_comm.Json.{Json}
use agent_comm.Table.{get, put}
use agent_comm.Table.Keeps.{Keeps, Keeps-refl, Keeps-trans, put-Keeps, put-Keeps_new}
use agent_comm.Store.State.{Mutation, OwnerAction, Core}
use agent_comm.Store.Spec.{
  Move, Moves, contacts_written, proposal_written, resource_registered, task_prepared,
  task_approved, task_revoked, task_spent, approval_asked, approval_moved, operation_stored,
  operation_moved, still, moved,
}
use agent_comm.Store.Spec.Sound.{IsSound, Moves-IsSound}
use agent_comm.Store.Spec.Lasting.{Lasts, Lasts-refl, Lasts-trans, Moves-Lasts}

pub data Act : Core → Core → Type 0 where
  moves : {c d : Core} → Moves c d → Act c d
  recorded :
      (c : Core) (k : String) (m : Mutation)
      → get c.mutations k ≡ none
      → Act c (record c { mutations = put k m c.mutations })
  claimed :
      (c : Core) (k : String) (a : OwnerAction)
      → get c.owner_actions k ≡ none
      → Act c (record c { owner_actions = put k a c.owner_actions })
  completed :
      (c : Core) (k : String) (a : OwnerAction) (v : Json)
      → get c.owner_actions k ≡ some a
      → a.result ≡ none
      → Act c (record c { owner_actions = put k (record a { result = some v }) c.owner_actions })

pub data Acts : Core → Core → Type 0 where
  done : (c : Core) → Acts c c
  acted : {a b c : Core} → Acts a b → Act b c → Acts a c

abbrev pub SameMutation : Mutation → Mutation → Type 0
SameMutation m n = n ≡ m

-- The claim stays, and so does its result.
abbrev pub SameClaim : OwnerAction → OwnerAction → Type 0
SameClaim a b =
    (b.owner_id ≡ a.owner_id)
    × (b.fingerprint ≡ a.fingerprint)
    × ((v : Json) → a.result ≡ some v → b.result ≡ some v)

pub record Receipts (c d : Core) : Type 0 where
  pub mutations : Keeps SameMutation c.mutations d.mutations
  pub owner_actions : Keeps SameClaim c.owner_actions d.owner_actions

Claim-refl : (a : OwnerAction) → SameClaim a a
Claim-refl a = (refl, refl, λ v h. h)

Claim-trans : (a b c : OwnerAction) → SameClaim a b → SameClaim b c → SameClaim a c
Claim-trans a b c p q = (q.0 ∙ p.0, q.1 ∙ p.1, λ v h. q.2 v (p.2 v h))

Receipts-refl : (c : Core) → Receipts c c
Receipts-refl c = record {
  mutations = Keeps-refl SameMutation (λ m. refl) c.mutations;
  owner_actions = Keeps-refl SameClaim Claim-refl c.owner_actions;
}

Receipts-trans : (c d e : Core) → Receipts c d → Receipts d e → Receipts c e
Receipts-trans c d e f g = record {
  mutations =
      Keeps-trans SameMutation (λ m n o p q. q ∙ p) c.mutations d.mutations e.mutations f.mutations
        g.mutations;
  owner_actions =
      Keeps-trans SameClaim Claim-trans c.owner_actions d.owner_actions e.owner_actions
        f.owner_actions g.owner_actions;
}

-- A move writes no receipt.
Move-receipts :
    {c d : Core} → Move c d → (d.mutations ≡ c.mutations) × (d.owner_actions ≡ c.owner_actions)
Move-receipts (contacts_written c t) = (refl, refl)
Move-receipts (proposal_written c k p) = (refl, refl)
Move-receipts (resource_registered c k r h) = (refl, refl)
Move-receipts (task_prepared c k t h e f g) = (refl, refl)
Move-receipts (task_approved c k t h f) = (refl, refl)
Move-receipts (task_revoked c k t h f) = (refl, refl)
Move-receipts (task_spent c k t h f g) = (refl, refl)
Move-receipts (approval_asked c k a h e f) = (refl, refl)
Move-receipts (approval_moved c k a b h f r) = (refl, refl)
Move-receipts (operation_stored c k o h e) = (refl, refl)
Move-receipts (operation_moved c k o p h r) = (refl, refl)

pub Moves-receipts :
    {c d : Core} → Moves c d → (d.mutations ≡ c.mutations) × (d.owner_actions ≡ c.owner_actions)
Moves-receipts (still c) = (refl, refl)
Moves-receipts (moved ms m) =
    ((Move-receipts m).0 ∙ (Moves-receipts ms).0, (Move-receipts m).1 ∙ (Moves-receipts ms).1)

Act-Receipts : {c d : Core} → Act c d → Receipts c d
Act-Receipts (moves {c} {d} ms) = record {
  mutations =
      subst (Keeps SameMutation c.mutations) (sym (Moves-receipts ms).0)
        (Receipts-refl c).mutations;
  owner_actions =
      subst (Keeps SameClaim c.owner_actions) (sym (Moves-receipts ms).1)
        (Receipts-refl c).owner_actions;
}
Act-Receipts (recorded c k m h) = record {
  mutations = put-Keeps_new SameMutation (λ n. refl) c.mutations k m h;
  owner_actions = (Receipts-refl c).owner_actions;
}
Act-Receipts (claimed c k a h) = record {
  mutations = (Receipts-refl c).mutations;
  owner_actions = put-Keeps_new SameClaim Claim-refl c.owner_actions k a h;
}
Act-Receipts (completed c k a v h n) = record {
  mutations = (Receipts-refl c).mutations;
  owner_actions = put-Keeps SameClaim Claim-refl c.owner_actions k a _ h (refl, refl, λ w e. cc);
}

-- The other rows are those of the moves.
Act-IsSound : {c d : Core} → Act c d → IsSound c → IsSound d
Act-IsSound (moves ms) s = Moves-IsSound ms s
Act-IsSound (recorded c k m h) s = record {
  tasks = s.tasks;
  approvals = s.approvals;
  sorted = s.sorted;
  operations = s.operations;
  sorted_operations = s.sorted_operations;
}
Act-IsSound (claimed c k a h) s = record {
  tasks = s.tasks;
  approvals = s.approvals;
  sorted = s.sorted;
  operations = s.operations;
  sorted_operations = s.sorted_operations;
}
Act-IsSound (completed c k a v h n) s = record {
  tasks = s.tasks;
  approvals = s.approvals;
  sorted = s.sorted;
  operations = s.operations;
  sorted_operations = s.sorted_operations;
}

same_rows :
    (c d : Core)
    → Lasts c c
    → (d.approvals ≡ c.approvals)
    → (d.tasks ≡ c.tasks)
    → (d.resources ≡ c.resources)
    → (d.operations ≡ c.operations)
    → Lasts c d
same_rows c d l e f g h = record {
  approvals = subst (Keeps _ c.approvals) (sym e) l.approvals;
  tasks = subst (Keeps _ c.tasks) (sym f) l.tasks;
  resources = subst (Keeps _ c.resources) (sym g) l.resources;
  operations = subst (Keeps _ c.operations) (sym h) l.operations;
}

Act-Lasts : {c d : Core} → Act c d → Lasts c d
Act-Lasts (moves ms) = Moves-Lasts ms
Act-Lasts (recorded c k m h) = same_rows c _ (Lasts-refl c) refl refl refl refl
Act-Lasts (claimed c k a h) = same_rows c _ (Lasts-refl c) refl refl refl refl
Act-Lasts (completed c k a v h n) = same_rows c _ (Lasts-refl c) refl refl refl refl

pub Acts-IsSound : {c d : Core} → Acts c d → IsSound c → IsSound d
Acts-IsSound (done c) s = s
Acts-IsSound (acted as' a) s = Act-IsSound a (Acts-IsSound as' s)

pub Acts-Lasts : {c d : Core} → Acts c d → Lasts c d
Acts-Lasts (done c) = Lasts-refl c
Acts-Lasts (acted {a} {b} {c} as' x) = Lasts-trans a b c (Acts-Lasts as') (Act-Lasts x)

pub Acts-Receipts : {c d : Core} → Acts c d → Receipts c d
Acts-Receipts (done c) = Receipts-refl c
Acts-Receipts (acted {a} {b} {c} as' x) = Receipts-trans a b c (Acts-Receipts as') (Act-Receipts x)

pub Acts-trans : {a b c : Core} → Acts a b → Acts b c → Acts a c
Acts-trans f (done c) = f
Acts-trans f (acted g x) = acted (Acts-trans f g) x
