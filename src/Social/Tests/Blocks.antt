-- ===== src/Social/Tests/Blocks.antt =====
-- The theorems about flushes and blocks at a small database.
use agent_comm.Prelude.{
  ◌⊎◌, ℕ, String, Bool, true, false, some, [], ◌∷◌, ◌≡◌, ◌≢◌, refl, arith, length, filter, map, All,
  inl,
}
use agent_comm.Json.{str, null}
use agent_comm.Identity.{is_identifier, is_urn}
use agent_comm.Table.{get, put, rows}
use agent_comm.Table.Sorted.{Each}
use agent_comm.Remote.State.{Outcome, ok, raised, value_error}
use agent_comm.Store.State.{Operation, OperationStatus, Core}
use agent_comm.Store.Records.{principal, check_owner, check_identifier}
use agent_comm.Store.Requests.{contact_value}
use agent_comm.Store.Dispatch.{Transport, Message, attempted, deliver}
use agent_comm.Social.State.{waiting, queued, Letter, ContactRequest, Outgoing, Inbound, Social}
use agent_comm.Social.Peers.{key, peer_blocked, unverified}
use agent_comm.Social.Outbox.{Answer, Turn, accepts, is_sendable, submit_one, flush, queue_social}
use agent_comm.Social.Outbox.Submit.{letter_of}
use agent_comm.Social.Outbox.Flush.{flush_drains}
use agent_comm.Social.Inbox.{ingest_social, register_owner, mark_message, message_visible}
use agent_comm.Social.Respond.{respond_contact}
use agent_comm.Social.Block.{BlockReceipt, set_peer_block}
use agent_comm.Social.Block.Ended.{HasRecipient, set_peer_block_ends}
use agent_comm.Social.Mixin.{Others, mixins, as_store}
use agent_comm.Social.Spec.Sound.{IsSound, Moves-IsSound}
use agent_comm.Social.Steps.{Step, Steps-Moves, start, next, block_changed, letter_submitted}
use agent_comm.Social.Steps.Lasting.{no_rows, no_rows-IsSound}
use agent_comm.Social.Steps.Silence.{blocked_gets_nothing}
use agent_comm.Social.Tests.{
  World, env, others, owner, bob, result, value, world, the_request, befriended, befriended-IsSound,
  runs, helper, reply, flat, flat_items,
}

one_letter :
    (length (filter (is_sendable env (befriended.0) (befriended.1)) (rows (befriended.1.outbox)))
      ≡ 1)
    × All
        (λ r. accepts (helper r.letter) r.message_id ≡ true)
        (filter (is_sendable env (befriended.0) (befriended.1)) (rows (befriended.1.outbox)))
unfolding respond_contact ingest_social register_owner result value the_request check_owner
    principal rows get put check_identifier is_identifier is_urn contact_value key flat flat_items
    peer_blocked queue_social mark_message message_visible accepts
one_letter = (refl, (refl, tt))

flush_drains_example :
    ((flush env 16 helper 9 (befriended.0) (befriended.1)).0 ≡ true)
    × ((flush env 16 helper 9 (befriended.0) (befriended.1)).1
        ≡ map
            (λ r. r.letter)
            (filter (is_sendable env (befriended.0) (befriended.1)) (rows (befriended.1.outbox))))
    × ((flush env 16 helper 9 (befriended.0) (befriended.1)).2
        ≡ length
            (filter (is_sendable env (befriended.0) (befriended.1)) (rows (befriended.1.outbox))))
    × ((k : String) (o : Outgoing)
        → get ((flush env 16 helper 9 (befriended.0) (befriended.1)).3.outbox) k ≡ some o
        → is_sendable env (befriended.0) ((flush env 16 helper 9 (befriended.0) (befriended.1)).3) o
          ≡ false)
flush_drains_example =
    flush_drains env helper 9 (befriended.0) 16 (befriended.1) befriended-IsSound
      (omega (arith, one_letter.0)) (one_letter.1)

abbrev blocks : Outcome (BlockReceipt env others × World)
blocks = set_peer_block env others (some (str bob)) true owner 5 befriended

abbrev silent : World
silent = result befriended blocks

abbrev receipt : BlockReceipt env others
receipt =
    value
      (record { urn = ""; blocked = false; safety_revision = 0; connection_status = unverified })
      blocks

blocks_run : blocks ≡ ok (receipt, silent)
unfolding set_peer_block respond_contact ingest_social register_owner result value the_request
    check_owner principal rows get put check_identifier is_identifier is_urn contact_value key flat
    flat_items peer_blocked queue_social mark_message message_visible
blocks_run = refl

no_operations : Each (λ k o. o.operation_id ≡ k) (befriended.0.operations)
unfolding respond_contact ingest_social register_owner result value the_request check_owner
    principal rows get put check_identifier is_identifier is_urn contact_value key flat flat_items
    peer_blocked queue_social mark_message message_visible
no_operations = tt

set_peer_block_ends_example :
    (peer_blocked env bob owner (silent.1) ≡ true)
    × ((k : String) (q : ContactRequest)
        → get (silent.1.requests) k ≡ some q
        → q.owner_id ≡ principal owner
        → q.peer_urn ≡ bob
        → q.status ≢ waiting)
    × ((k : String) (o : Outgoing)
        → get (silent.1.outbox) k ≡ some o
        → o.owner_id ≡ principal owner
        → o.letter.recipient_urn ≡ bob
        → o.status ≢ queued)
    × ((k : String) (o : Operation)
        → get (silent.0.operations) k ≡ some o
        → principal o.owner_session ≡ principal owner
        → HasRecipient bob o.recipients
        → (o.status ≡ OperationStatus.accepted) ⊎ (o.status ≡ OperationStatus.refused))
set_peer_block_ends_example =
    set_peer_block_ends env others bob owner 5 befriended silent receipt befriended-IsSound
      no_operations blocks_run

silent-IsSound : IsSound (silent.1)
silent-IsSound =
    Moves-IsSound no_rows (silent.1)
      (Steps-Moves env others world silent no_rows-IsSound (
        next runs (block_changed bob true owner 5 befriended silent receipt (inl refl) blocks_run)))
      no_rows-IsSound

abbrev mixed : Others others
mixed = record {
  audit = λ event c s σ. tt;
  is_v2_operation = λ id σ. false;
  proposal_review_safe = λ p owner c s σ. true;
  is_current = λ a now c s σ. true;
  deadline = λ a now c s σ. now;
  apply = λ a now c s σ. ok (c.contacts, (s, σ));
  deny = λ a c s σ. tt;
  review = λ id decision owner' now c s σ. raised (value_error "Unknown message");
  contact_view = λ x c s σ. null;
}

-- A flush comes to the withdrawn letter.
abbrev later : World
later = (silent.0, (submit_one env reply helper 6 (silent.0) (silent.1)).1, silent.2)

goes_on : Step env others (λ k. k ≢ key env (principal owner ∷ bob ∷ [])) silent later
goes_on =
    letter_submitted reply helper 6 (silent.0) (silent.1) (later.1) (silent.2)
      ((submit_one env reply helper 6 (silent.0) (silent.1)).0) refl

is_silent : peer_blocked env bob owner (silent.1) ≡ true
is_silent =
    (set_peer_block_ends env others bob owner 5 befriended silent receipt befriended-IsSound
      no_operations blocks_run).0

blocked_gets_nothing_example :
    ((r o : Outgoing) (transport : Letter → Answer) (now : ℕ) (s : Social) (t : Turn env)
        (m : Letter)
      → submit_one env r transport now (later.0) (later.1) ≡ (t, s)
      → letter_of env t ≡ some m
      → get (later.1.outbox) r.message_id ≡ some o
      → principal o.owner_id ≡ principal owner
      → m.recipient_urn ≢ bob)
    × ((id message_id : String) (transport : Transport) (now : ℕ)
          (d2 : Core × (Social × others.State)) (m : Message)
        → deliver env
            (mixins env others mixed)
            id
            message_id
            owner
            transport
            now
            (as_store env others later)
          ≡ ok (attempted m, d2)
        → m.recipient_urn ≢ bob)
    × ((review_gate : Bool) (m : Inbound)
        → m.sender_urn ≡ bob
        → message_visible env others review_gate m owner later ≡ false)
blocked_gets_nothing_example =
    blocked_gets_nothing env others mixed bob owner silent later silent-IsSound is_silent
      (next (start silent) goes_on)
