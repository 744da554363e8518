-- ===== src/Store/Fixture.antt =====
-- A small store for the tests: one owner, one task, one operation and one approval.
use agent_comm.Prelude.{ℕ, String, false, true, none, [], ◌∷◌, ◌==◌, if◌then◌else◌}
use agent_comm.Json.{null}
use agent_comm.Runtime.{Runtime}
use agent_comm.Policy.Scope.{Scope}
use agent_comm.Policy.Action.{send_text}
use agent_comm.Policy.Evaluate.{verdict, allow, within_scope}
use agent_comm.Remote.State.{ok, raised, value_error}
use agent_comm.Social.State.{Social, Neighbours}
use agent_comm.Social.Mixin
use agent_comm.Social.Mixin.{Others}
use agent_comm.Social.Steps.Lasting.{no_rows}
use agent_comm.Store.State.{
  Env, Contact, Resource, Task, TaskStatus, Approval, ApprovalStatus, task_grant, Operation,
  OperationStatus, Core, Mixins, empty_core,
}

abbrev pub runtime : Runtime
runtime = record {
  instant = λ s. none;
  loads = λ s. none;
  canonical = λ v. "c";
  sha256 = λ s. s;
  take = λ n s. s;
}

-- The instants of the fixture in microseconds, and their texts.
abbrev pub iso : ℕ → String
iso t =
    if t == 63907948800000000
    then "2026-03-01T08:00:00+00:00"
    else if t == 63907984800000000
    then "2026-03-01T18:00:00+00:00"
    else "2026-03-02T00:00:00+00:00"

abbrev pub env : Env
env = record { runtime = runtime; quoted = λ v. ""; iso = iso; casefold = λ s. s; local_urn = none }

abbrev pub mixins : Mixins
mixins = record {
  State = Unit {0};
  on_write = λ kind key c c' σ. tt;
  audit = λ event c σ. tt;
  is_v2_operation = λ id σ. false;
  proposal_review_safe = λ p owner c σ. true;
  can_send_to = λ urn owner c σ. true;
  is_current = λ a now c σ. true;
  deadline = λ a now c σ. now;
  apply = λ a now c σ. ok (c.contacts, σ);
  deny = λ a c σ. tt;
  refresh = λ a c σ. tt;
  contact_status = λ x c σ. "pending";
  contact_view = λ x c σ. null;
  request_contact = λ x now c σ. ok (none, σ);
}

-- Mixins beside social.py that do nothing.
abbrev pub neighbours : Neighbours
neighbours = record {
  State = Unit {0};
  on_write = λ kind k c c' s σ. tt;
  token = λ σ. ("t", σ);
  request_notice = λ r σ. tt;
  answer_notice = λ r id urn σ. tt;
  read_notices = λ owner id σ. tt;
  close_notices = λ urn owner s σ. tt;
  refresh = λ a c s σ. tt;
  pause_workers = λ tasks owner σ. tt;
  retire_collaborations = λ urn owner now σ. tt;
  retire_v2_operations = λ urn owner σ. tt;
  v2_task = λ id σ. none;
  is_review_safe = λ m owner c s σ. true;
  is_task_ours = λ m owner c s σ. true;
  promote = λ urn id now c s σ. (s.inbound, σ);
}

abbrev pub others : Others neighbours
others = record {
  audit = λ event c s σ. tt;
  is_v2_operation = λ id σ. false;
  proposal_review_safe = λ p owner c s σ. true;
  is_current = λ a now c s σ. true;
  deadline = λ a now c s σ. now;
  apply = λ a now c s σ. ok (c.contacts, (s, σ));
  deny = λ a c s σ. tt;
  review = λ id decision owner' now c s σ. raised (value_error "Unknown message");
  contact_view = λ x c s σ. null;
}

-- The store with the mixin of social.py.
abbrev pub store : Mixins
store = Mixin.mixins env neighbours others

abbrev pub at : Core → Core × (Social × Unit {0})
at c = (c, (no_rows, tt))

-- 2026-03-01T07:00:00Z
abbrev pub morning : ℕ
morning = 63907945200000000

abbrev pub owner : String
owner = "alice|s1"

abbrev pub bob : Contact
bob = record {
  contact_id = "bob";
  aliases = "Bob" ∷ [];
  urn = "urn:hermes:agent:bob";
  owner_id = "alice";
}

abbrev pub scope : Scope
scope = record {
  purpose = "plan";
  topic = "review";
  capabilities = "send_text" ∷ "share_slots" ∷ [];
  recipient_ids = "bob" ∷ [];
  participant_ids = [];
  resource_ids = [];
  window_start = 63907948800000000;
  window_end = 63907984800000000;
  expires_at = 63908006400000000;
  allowed_windows = none;
  max_duration_minutes = 60;
  max_candidates = 3;
  max_actions = 2;
}

abbrev pub task_with : TaskStatus → Task
task_with s = record {
  task_id = "t1";
  owner_session = owner;
  scope = scope;
  revision = 1;
  status = s;
  used_count = 0;
}

abbrev pub approval_with : ApprovalStatus → Approval
approval_with s = record {
  approval_id = "a1";
  subject = task_grant scope 1;
  subject_id = "t1";
  owner_session = owner;
  fingerprint = "f";
  question = "q";
  expires_at = 63907945300000000;
  status = s;
  created_at = 0;
  token_hash = none;
  lease_until = none;
  peer_blocked = false;
}

abbrev pub ready_operation : Operation
ready_operation = record {
  operation_id = "op1";
  task_id = "t1";
  revision = 1;
  action = record { recipient_ids = "bob" ∷ []; payload = send_text "hello" };
  recipients = bob ∷ [];
  resources = [];
  text = "hello";
  wire_text = "wire";
  hash = "h";
  owner_session = owner;
  verdict = verdict allow within_scope [];
  status = OperationStatus.ready;
  created_at = 0;
  deliveries = [];
  base_proposal_hash = "c";
  approval_id = none;
  approved_once = true;
  reserved_at = none;
}

abbrev pub note : Resource
note = record {
  resource_id = "r1";
  title = "Note";
  text = "text";
  sha256 = "text";
  owner_id = "alice";
  provenance = none;
}

-- The database, with the task and the approval in a given status.
abbrev pub core_with : TaskStatus → ApprovalStatus → Core
core_with t a = record empty_core {
  contacts = ("bob", bob) ∷ [];
  resources = ("r1", note) ∷ [];
  tasks = ("t1", task_with t) ∷ [];
  approvals = ("a1", approval_with a) ∷ [];
  operations = ("op1", ready_operation) ∷ [];
}
