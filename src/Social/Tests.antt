-- ===== src/Social/Tests.antt =====
-- The theorems about social.py at a small database: a friend request, its answer, and a block.
mod Blocks
mod Consents
mod Sent
use agent_comm.Prelude.{
  ◌<>◌, ◌≤◌, ℕ, String, Bool, true, false, Option, none, some, List, [], ◌∷◌, ◌≡◌, ◌≢◌, ◌⊎◌, inl,
  refl, arith, same, length, filter, map, if◌then◌else◌,
}
use agent_comm.Identity.{is_identifier, is_urn}
use agent_comm.Store.Requests.{contact_value}
use agent_comm.Json.{Json, Fields, bool, str, arr, obj, Items, nil, cons, no_fields, field}
use agent_comm.Runtime.{Runtime}
use agent_comm.Table.{get, put, rows}
use agent_comm.Table.Sorted.{Each}
use agent_comm.Remote.State.{Outcome, ok, raised}
use agent_comm.Store.State.{Env, Contact, Operation, Core, empty_core}
use agent_comm.Store.Records.{principal, check_owner, check_identifier}
use agent_comm.Social.State.{
  incoming, RequestStatus, waiting, accepted, ContactRequest, Connection, Letter, OutgoingStatus,
  queued, Outgoing, Inbound, Social, Neighbours,
}
use agent_comm.Social.Peers.{key, peer_blocked, can_send_to, contact_status}
use agent_comm.Social.Outbox.{
  Answer, answered, accepts, is_sendable, submit_one, flush, queue_social, confirmed,
}
use agent_comm.Social.Inbox.{Db, ingest_social, register_owner, mark_message, message_visible}
use agent_comm.Social.Respond.{respond_contact}
use agent_comm.Social.Block.{BlockReceipt, set_peer_block, is_retiring, is_withdrawing, is_refusing}
use agent_comm.Social.Steps.{
  Step, Steps, Steps-Moves, start, next, owner_registered, mail_ingested, request_answered,
  elsewhere, letter_submitted,
}
use agent_comm.Social.Steps.Lasting.{
  no_rows, no_rows-IsSound, connected_by_consent, answers_last, letters_last,
}
use agent_comm.Social.Spec.Sound.{IsSound, Moves-IsSound}

-- A canonical text that keeps different values apart.
flat_items : Items → String
flat_items nil = ""
flat_items (cons (str s) xs) = s <> ("." <> flat_items xs)
flat_items (cons v xs) = "-." <> flat_items xs

flat : Json → String
unfolding flat_items
flat (arr xs) = flat_items xs
flat v = "-"

abbrev request_fields : Fields
request_fields =
    field "protocol" (str "agent-comm-contacts/v1")
      (field "type" (str "request") (field "request_id" (str "r1") no_fields))

abbrev runtime : Runtime
runtime = record {
  instant = λ s. none;
  loads = λ s. if same s "req" then some (obj request_fields) else none;
  canonical = flat;
  sha256 = λ s. s;
  take = λ n s. s;
}

abbrev env : Env
env = record {
  runtime = runtime;
  quoted = λ v. "";
  iso = λ n. "";
  casefold = λ s. s;
  local_urn = some "urn:hermes:agent:alice";
}

abbrev others : Neighbours
others = record {
  State = Unit {0};
  on_write = λ kind k c c' s σ. tt;
  token = λ σ. ("t", σ);
  request_notice = λ r σ. tt;
  answer_notice = λ r id urn σ. tt;
  read_notices = λ owner id σ. tt;
  close_notices = λ urn owner s σ. tt;
  refresh = λ a c s σ. tt;
  pause_workers = λ tasks owner σ. tt;
  retire_collaborations = λ urn owner now σ. tt;
  retire_v2_operations = λ urn owner σ. tt;
  v2_task = λ id σ. none;
  is_review_safe = λ m owner c s σ. true;
  is_task_ours = λ m owner c s σ. true;
  promote = λ urn id now c s σ. (s.inbound, σ);
}

abbrev owner : String
owner = "alice|s1"

abbrev bob : String
bob = "urn:hermes:agent:bob"

abbrev asks : Inbound
asks = record {
  message_id = "r1";
  sender_urn = bob;
  text = "req";
  kind = some "contact.request";
  conversation_id = some "r1";
  in_reply_to = none;
  quarantined = false;
}

abbrev World : Type 0
World = Db env others

result : {A : Type 0} → World → Outcome (A × World) → World
result d (ok (x, d')) = d'
result d (raised e) = d

value : {A : Type 0} → A → Outcome (A × World) → A
value a (ok (x, d)) = x
value a (raised e) = a

abbrev world : World
world = (empty_core, no_rows, tt)

abbrev registered : Outcome (String × World)
registered = register_owner env others owner 1 world

abbrev at_home : World
at_home = result world registered

abbrev with_mail : World
with_mail = (empty_core, record (at_home.1) { inbound = ("r1", asks) ∷ [] }, tt)

abbrev ingested : Outcome (Option ContactRequest × World)
ingested = ingest_social env others asks 2 with_mail

abbrev asked : World
asked = result with_mail ingested

abbrev yes_please : Fields
yes_please = field "request_id" (str "r1") (field "decision" (str "accept") no_fields)

abbrev responded : Outcome (ContactRequest × World)
responded = respond_contact env others yes_please owner 3 asked

abbrev befriended : World
befriended = result asked responded

the_request : Option ContactRequest → ContactRequest
the_request (some r) = r
the_request none = record {
  request_id = "";
  owner_id = "";
  direction = incoming;
  peer_urn = "";
  contact_id = none;
  status = waiting;
  attempt = none;
  created_at = 0;
  updated_at = 0;
}

registers : registered ≡ ok ("alice", at_home)
unfolding register_owner result check_owner principal rows
registers = refl

ingests : ingested ≡ ok (value none ingested, asked)
unfolding ingest_social register_owner result value check_owner principal rows get put
    check_identifier is_identifier
ingests = refl

responds : responded ≡ ok (value (the_request none) responded, befriended)
unfolding respond_contact ingest_social register_owner result value the_request check_owner
    principal rows get put check_identifier is_identifier is_urn contact_value key flat flat_items
    peer_blocked queue_social mark_message message_visible
responds = refl

-- The run up to the request, and up to the friendship.
asks_run : Steps env others (λ k. Unit {0}) world asked
unfolding result register_owner rows
asks_run =
    next
      (next (next (start world) (owner_registered owner 1 world at_home "alice" registers))
        (elsewhere empty_core empty_core (at_home.1) (("r1", asks) ∷ []) tt tt))
      (mail_ingested asks 2 with_mail asked (value none ingested) ingests)

abbrev answers : Step env others (λ k. Unit {0}) asked befriended
answers =
    request_answered yes_please owner 3 asked befriended (value (the_request none) responded)
      responds

runs : Steps env others (λ k. Unit {0}) world befriended
runs = next asks_run answers

asked-IsSound : IsSound (asked.1)
asked-IsSound =
    Moves-IsSound no_rows (asked.1) (Steps-Moves env others world asked no_rows-IsSound asks_run)
      no_rows-IsSound

befriended-IsSound : IsSound (befriended.1)
befriended-IsSound =
    Moves-IsSound no_rows (befriended.1)
      (Steps-Moves env others world befriended no_rows-IsSound runs) no_rows-IsSound

abbrev friends : Connection
friends = record { owner_id = "alice"; peer_urn = bob; request_id = "r1"; connected_at = 3 }

connects : get (befriended.1.connections) (key env ("alice" ∷ bob ∷ [])) ≡ some friends
unfolding respond_contact ingest_social register_owner result value the_request check_owner
    principal rows get put check_identifier is_identifier is_urn contact_value key flat flat_items
    peer_blocked queue_social mark_message message_visible
connects = refl

connected_by_consent_example :
    (r : ContactRequest) × (get (befriended.1.requests) "r1" ≡ some r)
    × (r.status ≡ accepted)
    × (r.owner_id ≡ "alice")
    × (r.peer_urn ≡ bob)
connected_by_consent_example =
    connected_by_consent env others empty_core tt befriended (key env ("alice" ∷ bob ∷ [])) friends
      runs connects

abbrev open_request : ContactRequest
open_request = record {
  request_id = "r1";
  owner_id = "alice";
  direction = incoming;
  peer_urn = bob;
  contact_id = none;
  status = waiting;
  attempt = none;
  created_at = 2;
  updated_at = 2;
}

waits : get (asked.1.requests) "r1" ≡ some open_request
unfolding ingest_social register_owner result check_owner principal rows get put check_identifier
    is_identifier
waits = refl

answers_last_example :
    (q : ContactRequest) × (get (befriended.1.requests) "r1" ≡ some q)
    × (q.owner_id ≡ "alice")
    × (q.peer_urn ≡ bob)
    × (q.direction ≡ incoming)
    × ((waiting ≡ waiting) ⊎ (q.status ≡ waiting))
answers_last_example =
    answers_last env others asked befriended "r1" open_request asked-IsSound
      (next (start asked) answers) waits

abbrev reply_id : String
reply_id = "friend-response-r1.urn:hermes:agent:alice."

abbrev reply : Outgoing
reply = record {
  message_id = reply_id;
  owner_id = "alice";
  letter = record {
    message_id = reply_id;
    recipient_urn = bob;
    kind = "contact.response";
    conversation_id = some "r1";
    in_reply_to = some "r1";
    text = "-";
  };
  status = queued;
  created_at = 3;
  updated_at = 3;
}

-- A helper that accepts every letter.
abbrev helper : Letter → Answer
helper m =
    answered (obj (field "success" (bool true) (field "message_id" (str m.message_id) no_fields)))

replies : get (befriended.1.outbox) reply_id ≡ some reply
unfolding respond_contact ingest_social register_owner result value the_request check_owner
    principal rows get put check_identifier is_identifier is_urn contact_value key flat flat_items
    peer_blocked queue_social mark_message message_visible
replies = refl

abbrev after_submit : World
after_submit =
    (befriended.0, (submit_one env reply helper 4 (befriended.0) (befriended.1)).1, befriended.2)

submits : Step env others (λ k. Unit {0}) befriended after_submit
submits =
    letter_submitted reply helper 4 (befriended.0) (befriended.1) (after_submit.1) (befriended.2)
      ((submit_one env reply helper 4 (befriended.0) (befriended.1)).0) refl

letters_last_example :
    (p : Outgoing) × (get (after_submit.1.outbox) reply_id ≡ some p)
    × (p.letter ≡ reply.letter)
    × (p.owner_id ≡ "alice")
    × ((queued ≡ queued) ⊎ (p.status ≡ queued))
letters_last_example =
    letters_last env others befriended after_submit reply_id reply befriended-IsSound
      (next (start befriended) submits) replies
