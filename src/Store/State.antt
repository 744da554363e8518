-- ===== src/Store/State.antt =====
-- The rows of the collaboration database (store.py), and what the store uses of its mixins.
use agent_comm.Prelude.{ℕ, String, Bool, Option, List, []}
use agent_comm.Json.{Json}
use agent_comm.Runtime.{Runtime}
use agent_comm.Table.{Table}
use agent_comm.Policy.Scope.{Scope}
use agent_comm.Policy.Action.{Action, Payload}
use agent_comm.Policy.Evaluate.{Verdict}
use agent_comm.Remote.State.{Outcome}

-- The runtime, with `json.dumps` of a quotation, and `isoformat` of an instant in UTC.
pub record Env : Type 0 where
  pub runtime : Runtime
  pub quoted : Json → String
  pub iso : ℕ → String
  -- `text.casefold()`
  pub casefold : String → String
  -- `Store(local_urn=...)`
  pub local_urn : Option String

pub record Contact : Type 0 where
  pub contact_id : String
  pub aliases : List String
  pub urn : String
  pub owner_id : String

pub record Provenance : Type 0 where
  pub reference : String
  pub source : String
  pub version : String

pub record Resource : Type 0 where
  pub resource_id : String
  pub title : String
  pub text : String
  pub sha256 : String
  pub owner_id : String
  pub provenance : Option Provenance

pub data TaskStatus : Type 0 where
  waiting active revoked : TaskStatus

-- The status "pending" of a task is `waiting`.
pub record Task : Type 0 where
  pub task_id : String
  pub owner_session : String
  pub scope : Scope
  pub revision : ℕ
  pub status : TaskStatus
  pub used_count : ℕ

pub data ApprovalStatus : Type 0 where
  pending presenting expired approved denied superseded : ApprovalStatus

-- The kind of an approval with its payload; those of the mixins keep theirs as JSON.
pub data Subject : Type 0 where
  task_grant : Scope → ℕ → Subject
  operation_grant : String → ℕ → Subject
  contact_binding : Contact → Subject
  friend_request contact_response direct_message worker_policy collaboration_v2 : Json → Subject

pub record Approval : Type 0 where
  pub approval_id : String
  pub subject : Subject
  pub subject_id : String
  pub owner_session : String
  pub fingerprint : String
  pub question : String
  pub expires_at : ℕ
  pub status : ApprovalStatus
  pub created_at : ℕ
  pub token_hash : Option String
  pub lease_until : Option ℕ
  -- `invalidation_reason == "peer_blocked"`
  pub peer_blocked : Bool

pub data OperationStatus : Type 0 where
  awaiting_approval ready sending accepted refused : OperationStatus

pub data DeliveryStatus : Type 0 where
  unsent delivered uncertain : DeliveryStatus

-- The statuses "pending" and "accepted" of a delivery are `unsent` and `delivered`.
pub record Delivery : Type 0 where
  pub recipient_id : String
  pub recipient_urn : String
  pub message_id : String
  pub status : DeliveryStatus
  pub accepted_at : Option ℕ

-- The status "denied" of an operation is `refused`.
pub record Operation : Type 0 where
  pub operation_id : String
  pub task_id : String
  pub revision : ℕ
  pub action : Action
  pub recipients : List Contact
  pub resources : List Resource
  pub text : String
  pub wire_text : String
  pub hash : String
  pub owner_session : String
  pub verdict : Verdict
  pub status : OperationStatus
  pub created_at : ℕ
  pub deliveries : List Delivery
  pub base_proposal_hash : String
  pub approval_id : Option String
  pub approved_once : Bool
  pub reserved_at : Option ℕ

pub record Proposal : Type 0 where
  pub task_id : String
  pub payload : Payload
  pub source_message_id : Option String

pub record Mutation : Type 0 where
  pub fingerprint : String
  pub owner_id : String
  pub result : Json

-- A row of kind "owner_action": its status is "completed" where it has a result.
pub record OwnerAction : Type 0 where
  pub owner_id : String
  pub fingerprint : String
  pub created_at : ℕ
  pub result : Option Json

-- The rows that store.py itself writes.
pub record Core : Type 0 where
  pub contacts : Table Contact
  pub resources : Table Resource
  pub tasks : Table Task
  pub approvals : Table Approval
  pub operations : Table Operation
  pub proposals : Table Proposal
  pub mutations : Table Mutation
  pub owner_actions : Table OwnerAction

-- The mixins of `Store`: each writes rows of its own, and `apply` contacts too.
pub record Mixins : Type 1 where
  pub State : Type 0
  -- What `_put` does beside its write: the task history, the attention feed and the source context,
  -- from the kind, the key, and the rows before and after the write.
  pub on_write : String → String → Core → Core → State → State
  -- `_audit(event, ...)`
  pub audit : String → Core → State → State
  -- `self._get("v2_operation", operation_id) is not None`
  pub is_v2_operation : String → State → Bool
  -- `_proposal_review_safe(proposal, owner_session)`
  pub proposal_review_safe : Option Proposal → String → Core → State → Bool
  -- `_can_send_to(urn, owner_session)`
  pub can_send_to : String → String → Core → State → Bool
  -- The branches of `_approval_current` on the kinds of the mixins.
  pub is_current : Approval → ℕ → Core → State → Bool
  -- The deadlines of `begin_confirmation` on "collaboration_v2" and "worker_policy".
  pub deadline : Approval → ℕ → Core → State → ℕ
  -- The branches of `_apply_approval` and `_deny_approval` on the kinds of the mixins.
  pub apply : Approval → ℕ → Core → State → Outcome (Table Contact × State)
  pub deny : Approval → Core → State → State
  -- `_attention_approval(approval, refresh=True)`
  pub refresh : Approval → Core → State → State
  -- `_contact_status(contact)`, and the row of `_contacts_view` for the contact
  pub contact_status : Contact → Core → State → String
  pub contact_view : Contact → Core → State → Json
  -- `_request_contact(contact)`: the request ID, if there is one.
  pub request_contact : Contact → ℕ → Core → State → Outcome (Option String × State)

abbrev pub empty_core : Core
empty_core = record {
  contacts = [];
  resources = [];
  tasks = [];
  approvals = [];
  operations = [];
  proposals = [];
  mutations = [];
  owner_actions = [];
}
