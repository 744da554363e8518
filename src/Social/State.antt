-- ===== src/Social/State.antt =====
-- The rows that social.py keeps, and what it uses of the other mixins of `Store`.
use agent_comm.Prelude.{ℕ, String, Bool, Option, List}
use agent_comm.Table.{Table}
use agent_comm.Store.State.{Approval, Core}

-- A row of kind "peer_block".
pub record Block : Type 0 where
  pub owner_id : String
  pub urn : String
  pub blocked : Bool
  pub blocked_at : ℕ
  pub updated_at : ℕ

-- A row of kind "peer_message_block".
pub record Tombstone : Type 0 where
  pub owner_id : String
  pub message_id : String
  pub fingerprint : Option String

pub data Direction : Type 0 where
  incoming outgoing : Direction

-- The status "pending" is `waiting`, "blocked" is `retired`.
pub data RequestStatus : Type 0 where
  waiting accepted rejected retired : RequestStatus

pub record ContactRequest : Type 0 where
  pub request_id : String
  pub owner_id : String
  pub direction : Direction
  pub peer_urn : String
  pub contact_id : Option String
  pub status : RequestStatus
  pub attempt : Option ℕ
  pub created_at : ℕ
  pub updated_at : ℕ

-- A row of kind "connection".
pub record Connection : Type 0 where
  pub owner_id : String
  pub peer_urn : String
  pub request_id : String
  pub connected_at : ℕ

-- What the outbox hands to the helper.
pub record Letter : Type 0 where
  pub message_id : String
  pub recipient_urn : String
  pub kind : String
  pub conversation_id : Option String
  pub in_reply_to : Option String
  pub text : String

-- The statuses "accepted" and "blocked" are `delivered` and `withdrawn`.
pub data OutgoingStatus : Type 0 where
  queued delivered withdrawn : OutgoingStatus

-- A row of kind "social_outbox".
pub record Outgoing : Type 0 where
  pub message_id : String
  pub owner_id : String
  pub letter : Letter
  pub status : OutgoingStatus
  pub created_at : ℕ
  pub updated_at : ℕ

-- What social.py reads of a row of kind "inbound".
pub record Inbound : Type 0 where
  pub message_id : String
  pub sender_urn : String
  pub text : String
  pub kind : Option String
  pub conversation_id : Option String
  pub in_reply_to : Option String
  pub quarantined : Bool

pub record Social : Type 0 where
  pub revisions : Table ℕ
  pub blocks : Table Block
  pub tombstones : Table Tombstone
  pub requests : Table ContactRequest
  pub connections : Table Connection
  pub outbox : Table Outgoing
  pub inbound : Table Inbound
  -- `message_read`: the instant of the first read.
  pub reads : Table ℕ
  -- `local_profile`
  pub mail_owner : Option String

-- The other mixins: the attention feed, the task history, peer review, the worker and collaboration v2.
pub record Neighbours : Type 1 where
  pub State : Type 0
  -- What `_put` does beside its write, from the kind, the key, and the rows before and after.
  pub on_write : String → String → Core → Core → Social → State → State
  -- `secrets.token_hex(20)`
  pub token : State → String × State
  -- `_attention_put` for a request, and for the answer to one (with the message's ID and the sender).
  pub request_notice : ContactRequest → State → State
  pub answer_notice : ContactRequest → String → String → State → State
  -- The notices of a message that was read, and those of messages from a blocked peer.
  pub read_notices : String → String → State → State
  pub close_notices : String → String → Social → State → State
  -- `_attention_approval(approval, refresh=True)`
  pub refresh : Approval → Core → Social → State → State
  -- The workers of the tasks pause; the collaborations with the peer end, and then their operations.
  pub pause_workers : List String → String → State → State
  pub retire_collaborations : String → String → ℕ → State → State
  pub retire_v2_operations : String → String → State → State
  -- The task of an operation of collaboration v2.
  pub v2_task : String → State → Option String
  -- `_message_review_safe`, and `_inbound_local_task(message, owner) is not False`
  pub is_review_safe : Inbound → String → Core → Social → State → Bool
  pub is_task_ours : Inbound → String → Core → Social → State → Bool
  -- `_promote_pending_messages(sender, request_id)`: the inbox after it.
  pub promote : String → String → ℕ → Core → Social → State → Table Inbound × State
