-- ===== src/Social/Tests/Consents.antt =====
-- Consent to a message at a small database; and a contact whose request was retired by a block.
use agent_comm.Prelude.{Option, true, false, some, [], ◌∷◌, ◌≡◌, refl}
use agent_comm.Json.{str, null}
use agent_comm.Identity.{is_urn}
use agent_comm.Table.{get, put, rows}
use agent_comm.Remote.State.{Outcome, ok, raised, value_error}
use agent_comm.Store.State.{Contact, empty_core}
use agent_comm.Store.Records.{principal, check_owner}
use agent_comm.Social.State.{ContactRequest, Social}
use agent_comm.Social.Peers.{pending, key, peer_blocked, contact_status}
use agent_comm.Social.Outbox.{queue_social, request_contact}
use agent_comm.Social.Inbox.{register_owner}
use agent_comm.Social.Block.{set_peer_block}
use agent_comm.Social.Mixin.{Others, as_store}
use agent_comm.Social.Ask.{prepare_existing_contact}
use agent_comm.Social.Tests.{World, env, others, owner, bob, result, at_home, flat, flat_items}

abbrev mixed : Others others
mixed = record {
  audit = λ event c s σ. tt;
  is_v2_operation = λ id σ. false;
  proposal_review_safe = λ p owner c s σ. true;
  is_current = λ a now c s σ. true;
  deadline = λ a now c s σ. now;
  apply = λ a now c s σ. ok (c.contacts, (s, σ));
  deny = λ a c s σ. tt;
  review = λ id decision owner' now c s σ. raised (value_error "Unknown message");
  contact_view = λ x c s σ. null;
}

abbrev friend : Contact
friend = record { contact_id = "bob"; aliases = "Bob" ∷ []; urn = bob; owner_id = "alice" }

-- The owner asks a contact for its friendship, and blocks and unblocks it before the answer.
abbrev acquainted : World
acquainted = (record empty_core { contacts = ("bob", friend) ∷ [] }, at_home.1, tt)

of_request : World → Outcome (Option ContactRequest × Social) → World
of_request d (ok (r, s)) = (d.0, s, tt)
of_request d (raised e) = d

abbrev requested : World
requested = of_request acquainted (request_contact env friend "t" 2 (acquainted.1))

abbrev lifted : World
lifted =
    let d = result requested (set_peer_block env others (some (str bob)) true owner 3 requested) in
    result d (set_peer_block env others (some (str bob)) false owner 4 d)

-- The contact still counts as pending, but no request waits.
counts_as_pending : contact_status env friend (lifted.1) ≡ pending
unfolding of_request request_contact set_peer_block register_owner result check_owner principal rows
    get put is_urn key flat flat_items peer_blocked queue_social contact_status
counts_as_pending = refl

-- So the owner cannot be asked for a new request.
prepare_fails :
    prepare_existing_contact env others mixed 5 friend owner (as_store env others lifted)
    ≡ raised (value_error "StopIteration")
unfolding of_request request_contact set_peer_block register_owner result check_owner principal rows
    get put is_urn key flat flat_items peer_blocked queue_social contact_status
    prepare_existing_contact
prepare_fails = refl
