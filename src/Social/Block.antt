-- ===== src/Social/Block.antt =====
-- `_set_peer_block` and `consume_blocked_peer` (social.py): what ends when the owner blocks a peer.
pub mod Sweep
pub mod Loops
pub mod Ended
pub mod Same
pub mod Moves
pub mod Rows
use agent_comm.Prelude.{
  ℕ, zero, suc, String, Bool, true, false, not, ◌&&◌, ◌||◌, Option, none, some, List, [], ◌∷◌, ◌++◌,
  same, leb, mem, any, map, filter, is_empty, if◌then◌else◌,
}
use agent_comm.Json.{Json, null, bool, int, decimal, str, arr, obj, nil, no_fields, pos, lookup}
use agent_comm.Table.{get, put, rows}
use agent_comm.Policy.Message.{is_exactly}
use agent_comm.Remote.State.{Outcome, ok, raised, value_error, raise_if, ◌>>=◌, ◌>>◌}
use agent_comm.Remote.Parse.{text_of, identity}
use agent_comm.Store.State.{
  Env, Contact, Task, Approval, ApprovalStatus, Subject, task_grant, operation_grant,
  contact_response, worker_policy, collaboration_v2, Operation, OperationStatus, Core,
}
use agent_comm.Store.Records.{principal, is_owned, is_same_owner, check_owner, check_identifier}
use agent_comm.Store.Requests.{subject_json, is_local}
use agent_comm.Social.State.{
  Block, Tombstone, RequestStatus, waiting, retired, ContactRequest, OutgoingStatus, withdrawn,
  Outgoing, Inbound, Social, Neighbours,
}
use agent_comm.Social.Peers.{
  PeerStatus, blocked, unverified, key, is_waiting, safety_revision, peer_blocked, contact_status,
  contacts_with,
}
use agent_comm.Social.Outbox.{is_settled}
use agent_comm.Social.Inbox.{Db, friend_attention}

-- `for row in rows: if test(row): step(row)`
unfoldable pub each : {V S : Type 0} → (V → Bool) → (V → S → S) → List V → S → S
each p step [] s = s
each p step (x ∷ xs) s = each p step xs (if p x then step x s else s)

-- Python's `bool(value)`.
is_truthy : Json → Bool
is_truthy null = false
is_truthy (bool b) = b
is_truthy (int (pos zero)) = false
is_truthy (str s) = not (same s "")
is_truthy (arr nil) = false
is_truthy (obj no_fields) = false
is_truthy v = true

-- `a or b` of two `dict.get` results.
or_else : Option Json → Option Json → Option Json
unfolding is_truthy
or_else none w = w
or_else (some v) w = if is_truthy v then some v else w

field_of : Option Json → String → Option Json
field_of (some (obj fs)) k = lookup k fs
field_of _ k = none

-- `peer` of an approval, from its payload.
unfoldable pub peer_of : Json → Option Json
unfolding or_else field_of
peer_of v =
    or_else (field_of (some v) "urn")
      (or_else (field_of (some v) "recipient_urn") (field_of (field_of (some v) "contact") "urn"))

-- `status in {"pending", "presenting", "expired"}`
abbrev pub is_open : ApprovalStatus → Bool
is_open ApprovalStatus.pending = true
is_open ApprovalStatus.presenting = true
is_open ApprovalStatus.expired = true
is_open _ = false

-- `status not in {"accepted", "denied"}`
abbrev pub is_unfinished : OperationStatus → Bool
is_unfinished OperationStatus.accepted = false
is_unfinished OperationStatus.refused = false
is_unfinished _ = true

is_response : Subject → Bool
is_response (contact_response v) = true
is_response _ = false

-- The tasks of the owner that involve the contacts.
task_ids : List String → String → Core → List String
task_ids ids owner c =
    map (λ t. t.task_id)
      (filter
        (λ t.
          is_same_owner t.owner_session owner
          && any (λ k. mem k ids) (t.scope.recipient_ids ++ t.scope.participant_ids))
        (rows c.tasks))

-- The message was recorded with other contents.
conflicts_with : Option Tombstone → String → Bool
conflicts_with none print = false
conflicts_with (some t) print = elim t.fingerprint [ none ↦ false | some f ↦ not (same f print) ]

module _ (E : Env) (N : Neighbours) where
  open N use {on_write}

  -- The rows of the owner that a block of the peer ends.
  abbrev pub is_retiring : String → String → ContactRequest → Bool
  is_retiring urn owner r = is_owned r.owner_id owner && same r.peer_urn urn && is_waiting r.status

  abbrev pub is_withdrawing : String → String → Outgoing → Bool
  is_withdrawing urn owner o =
      is_owned o.owner_id owner && same o.letter.recipient_urn urn && not (is_settled o.status)

  abbrev pub is_refusing : String → String → Operation → Bool
  is_refusing urn owner o =
      is_same_owner o.owner_session owner
      && any (λ x. same x.urn urn) o.recipients
      && is_unfinished o.status

  bury : String → String → Inbound → Db E N → Db E N
  unfolding principal
  bury urn owner m (c, s, σ) = (
    c,
    record s {
      tombstones =
          put (key E (principal owner ∷ urn ∷ m.message_id ∷ []))
            (record { owner_id = principal owner; message_id = m.message_id; fingerprint = none })
            s.tombstones;
    },
    σ,
  )

  pub retire : ℕ → ContactRequest → Db E N → Db E N
  retire now r (c, s, σ) =
      let r' = record r { status = retired; updated_at = now } in
      (c, record s { requests = put r.request_id r' s.requests }, friend_attention E N r' σ)

  pub withdraw : ℕ → Outgoing → Db E N → Db E N
  withdraw now o (c, s, σ) = (
    c,
    record s {
      outbox = put o.message_id (record o { status = withdrawn; updated_at = now }) s.outbox;
    },
    σ,
  )

  refuse : Operation → Db E N → Db E N
  refuse o (c, s, σ) =
      let o' = record o { status = OperationStatus.refused } in
      let c' = record c { operations = put o.operation_id o' c.operations } in
      (c', s, on_write "operation" o.operation_id c c' s σ)

  -- `_approval_task_id(approval)`
  task_of_approval : Approval → Db E N → Option String
  task_of_approval a (c, s, σ) = elim a.subject [
    | task_grant scope revision ↦ some a.subject_id
    | worker_policy v ↦ some a.subject_id
    | operation_grant hash revision ↦ elim (get c.operations a.subject_id) [
      | none ↦ none
      | some o ↦ some o.task_id
    ]
    | collaboration_v2 v ↦ N.v2_task a.subject_id σ
    | _ ↦ none
  ]

  -- The approval concerns the peer.
  concerns : String → List String → Approval → Db E N → Bool
  unfolding peer_of is_response task_of_approval is_exactly subject_json
  concerns urn tasks a (c, s, σ) =
      is_exactly (peer_of (subject_json E a.subject)) urn
      || (is_response a.subject
          && (elim (get s.requests a.subject_id) [ none ↦ false | some r ↦ same r.peer_urn urn ]))
      || (elim (task_of_approval a (c, s, σ)) [ none ↦ false | some t ↦ mem t tasks ])

  supersede : Approval → Db E N → Db E N
  supersede a (c, s, σ) =
      let a' = record a {
        status = ApprovalStatus.superseded;
        peer_blocked = true;
        token_hash = none;
        lease_until = none;
      } in
      let c' = record c { approvals = put a.approval_id a' c.approvals } in
      (c', s, N.refresh a' c' s (on_write "approval" a.approval_id c c' s σ))

  -- The loop over the approvals reads each row of the list that it began with.
  end_approvals : String → List String → String → List Approval → Db E N → Db E N
  unfolding concerns supersede
  end_approvals urn tasks owner [] d = d
  end_approvals urn tasks owner (a ∷ rest) d = end_approvals urn tasks owner rest (
      if is_same_owner a.owner_session owner && is_open a.status && concerns urn tasks a d
      then supersede a d
      else d)

  -- The work that a block ends, in the order of the source.
  unfoldable pub end_messages : String → String → ℕ → Db E N → Db E N
  unfolding each bury retire withdraw
  end_messages urn owner now d0 =
      let d1 = each (λ m. same m.sender_urn urn) (bury urn owner) (rows (d0.1.inbound)) d0 in
      let d2 = each (is_retiring urn owner) (retire now) (rows (d1.1.requests)) d1 in
      each (is_withdrawing urn owner) (withdraw now) (rows (d2.1.outbox)) d2

  unfoldable pub end_work : String → String → ℕ → Db E N → Db E N
  unfolding each task_ids refuse end_approvals principal
  end_work urn owner now (c, s, σ) =
      let tasks = task_ids (map (λ x. x.contact_id) (contacts_with E urn owner c)) owner c in
      let σ' = N.retire_collaborations urn owner now (N.pause_workers tasks owner σ) in
      let d1 = each (is_refusing urn owner) refuse (rows c.operations) (c, s, σ') in
      let d2 : Db E N = (d1.0, d1.1, N.retire_v2_operations urn owner (d1.2)) in
      let (c2, s2, σ2) = end_approvals urn tasks owner (rows c.approvals) d2 in
      (c2, s2, N.close_notices urn (principal owner) s2 σ2)

  -- The rows of kind "peer_safety" and "peer_block".
  unfoldable pub write_block : String → Bool → String → ℕ → Social → Social
  unfolding principal peer_blocked safety_revision
  write_block urn value owner now s =
      let k = key E (principal owner ∷ urn ∷ []) in
      let changes = not (if peer_blocked E urn owner s then value else not value) in
      let at : ℕ = elim (get s.blocks k) [
        | none ↦ now
        | some b ↦ if b.blocked && value then b.blocked_at else now
      ] in
      record s {
        revisions =
            (if changes
              then put (key E (principal owner ∷ [])) (suc (safety_revision E owner s)) s.revisions
              else s.revisions);
        blocks =
            put k
              (record {
                owner_id = principal owner;
                urn = urn;
                blocked = value;
                blocked_at = at;
                updated_at = now;
              })
              s.blocks;
      }

  -- What `_set_peer_block` returns.
  pub record BlockReceipt : Type 0 where
    pub urn : String
    pub blocked : Bool
    pub safety_revision : ℕ
    pub connection_status : PeerStatus

  receipt_of : String → Bool → String → Db E N → BlockReceipt
  unfolding safety_revision contact_status
  receipt_of urn value owner (c, s, σ) = record {
    urn = urn;
    blocked = value;
    safety_revision = safety_revision E owner s;
    connection_status =
        if value
        then PeerStatus.blocked
        else elim (contacts_with E urn owner c) [ [] ↦ unverified | x ∷ xs ↦ contact_status E x s ];
  }

  -- `_set_peer_block(urn, blocked, owner_session)`
  unfoldable pub set_peer_block :
      Option Json → Bool → String → ℕ → Db E N → Outcome (BlockReceipt × Db E N)
  unfolding check_owner identity is_local peer_blocked safety_revision write_block end_messages
      end_work receipt_of
  set_peer_block given value owner now (c, s, σ) = do
    check_owner owner
    urn ← identity (text_of given)
    raise_if (is_local E E.local_urn urn) (value_error "Cannot block the local agent")
    let changes = not (if peer_blocked E urn owner s then value else not value)
    raise_if (changes && leb 9007199254740991 (safety_revision E owner s))
        (value_error "Owner safety revision is exhausted")
    let d1 : Db E N = (c, write_block urn value owner now s, σ)
    let d2 = if value then end_work urn owner now (end_messages urn owner now d1) else d1
    ok (receipt_of urn value owner d2, d2)

  -- `consume_blocked_peer(message, owner_session)`; `given` is the message as the helper gave it.
  unfoldable pub consume_blocked_peer :
      Json → String → String → String → Db E N → Outcome (Bool × Db E N)
  unfolding check_owner identity check_identifier peer_blocked principal conflicts_with
  consume_blocked_peer given sender message_id owner (c, s, σ) = do
    check_owner owner
    (if not (peer_blocked E sender owner s) then ok (false, (c, s, σ)) else (do
      urn ← identity (some sender)
      check_identifier message_id "message_id"
      let k = key E (principal owner ∷ urn ∷ message_id ∷ [])
      let print = E.runtime.sha256 (E.runtime.canonical given)
      raise_if (conflicts_with (get s.tombstones k) print)
          (value_error "Blocked message ID conflicts with its durable contents")
      let t : Tombstone = record {
        owner_id = principal owner;
        message_id = message_id;
        fingerprint = some print;
      }
      ok (true, (c, record s { tombstones = put k t s.tombstones }, σ))))
