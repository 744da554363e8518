-- ===== src/Store/Tests/Receipts.antt =====
-- The theorems about receipts at a small store.
use agent_comm.Prelude.{String, none, [], ◌∷◌, ◌≡◌, refl, arith}
use agent_comm.Json.{Json, Fields, null, str, no_fields, field}
use agent_comm.Table.{get, put, rows}
use agent_comm.Remote.State.{Outcome, ok, raised}
use agent_comm.Store.State.{OwnerAction, Core, empty_core}
use agent_comm.Store.Records.{principal, check_owner}
use agent_comm.Identity.{is_urn}
use agent_comm.Social.State.{Social}
use agent_comm.Social.Block.{set_peer_block}
use agent_comm.Store.Spec.Sound.{IsSound}
use agent_comm.Store.Once.{remote_mutation}
use agent_comm.Store.Steps.{begin}
use agent_comm.Store.Steps.Receipts.{mutation_replays}
use agent_comm.Store.Fixture.{env, neighbours, others, store, at, owner}
use agent_comm.Social.Remote.{mixin_method}

abbrev key : String
key = "0123456789abcdef0123456789abcdef0123456789abcdef0123456789abcdef"

abbrev params : Fields
params = field "urn" (str "urn:hermes:agent:bob") no_fields

abbrev Store : Type 0
Store = Core × (Social × neighbours.State)

abbrev unblocks : Outcome (Json × Store)
unblocks =
    remote_mutation env store (mixin_method env neighbours others) "contacts.unblock" params owner
      key key 10 5 (at empty_core)

answer_of : Outcome (Json × Store) → Json
answer_of (ok (v, d)) = v
answer_of (raised e) = null

place_of : Outcome (Json × Store) → Store
place_of (ok (v, d)) = d
place_of (raised e) = at empty_core

abbrev answered_place : Store
answered_place = place_of unblocks

answers : unblocks ≡ ok (answer_of unblocks, answered_place)
unfolding remote_mutation answer_of place_of mixin_method set_peer_block principal check_owner
    is_urn rows get put
answers = refl

sound : IsSound (answered_place.0)
unfolding remote_mutation place_of mixin_method set_peer_block principal check_owner is_urn rows get
    put
sound = record { tasks = tt; approvals = tt; sorted = tt; operations = tt; sorted_operations = tt }

mutation_replays_example :
    remote_mutation env store
      (mixin_method env neighbours others)
      "contacts.unblock"
      params
      owner
      key
      key
      10
      7
      answered_place
    ≡ ok (answer_of unblocks, answered_place)
mutation_replays_example =
    mutation_replays env neighbours others "contacts.unblock" params owner key key 10 5
      (at empty_core) answered_place (answer_of unblocks) answers sound answered_place 7
      (begin answered_place) (omega arith)

abbrev row : OwnerAction
row = record { owner_id = "alice"; fingerprint = key; created_at = 5; result = none }

abbrev claimed_core : Core
claimed_core = record empty_core { owner_actions = (key, row) ∷ [] }
