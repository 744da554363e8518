-- ===== src/Store/Steps.antt =====
-- The runs of a store (store.py): its public operations in any order, from several processes, each a
-- transaction of the database; `dispatch` is a step for its reservation and one for each delivery, and
-- `execute_owner_once` one for the claim and one for the result, so that other steps come between. The
-- mixins are those of social.py; of the others only what writes no row of store.py is a step.
pub mod Lasting
pub mod Sending
pub mod Receipts
use agent_comm.Prelude.{ℕ, String, Bool, Option, none, some, ◌≡◌}
use agent_comm.Json.{Json, Fields}
use agent_comm.Table.{get, put}
use agent_comm.Remote.State.{ok}
use agent_comm.Store.State.{Env, Resource, Approval, Proposal, OwnerAction, Core}
use agent_comm.Social.State.{ContactRequest, Social, Neighbours}
use agent_comm.Social.Inbox
use agent_comm.Social.Mixin.{Others, mixins}
use agent_comm.Social.Block.{BlockReceipt, set_peer_block}
use agent_comm.Social.Block.Rows.{set_peer_block_core}
use agent_comm.Social.Ask.{prepare_existing_contact, prepare_contact_response, prepare_message}
use agent_comm.Social.Ask.Moves.{
  prepare_existing_contact-Asks, prepare_contact_response-Asks, prepare_message-Asks,
}
use agent_comm.Social.Remote.{Place, mixin_method}
use agent_comm.Social.Remote.Moves.{mixin_method_moves}
use agent_comm.Store.Prepare.{register_resource, prepare_contact}
use agent_comm.Store.Prepare.Moves.{register_resource_moves, prepare_contact_moves}
use agent_comm.Store.Tasks.{Prepared, prepare_task, revoke}
use agent_comm.Store.Tasks.Moves.{prepare_task_moves, revoke_moves}
use agent_comm.Store.Wire.{Reply}
use agent_comm.Store.Actions.{prepare_action}
use agent_comm.Store.Actions.Moves.{prepare_action_moves}
use agent_comm.Store.Confirm.{Display, Resolution, begin_confirmation, finish_confirmation}
use agent_comm.Store.Confirm.Moves.{begin_confirmation_moves, finish_confirmation_moves}
use agent_comm.Store.Once.{Claimed, remote_mutation, claim_action, complete_action}
use agent_comm.Store.Once.Moves.{remote_mutation-Acts, claim_action-Acts, complete_action-Acts}
use agent_comm.Store.Reserve.{Reserved, reserve}
use agent_comm.Store.Reserve.Moves.{reserve_moves}
use agent_comm.Store.Dispatch.{Transport, Sent, deliver}
use agent_comm.Store.Dispatch.Moves.{deliver_moves}
use agent_comm.Store.Spec.{Moves, still, moved, proposal_written}
use agent_comm.Store.Spec.Sound.{IsSound}
use agent_comm.Store.Spec.Acts.{Act, Acts, moves, done, acted, Acts-trans, Acts-IsSound}

module _ (E : Env) (N : Neighbours) (O : Others N) where
  pub data Step : Place E N O → Place E N O → Type 0 where
    resource_registered :
        (id title text owner : String) (provenance : Option Json) (d d' : Place E N O)
        (r : Resource)
        → register_resource E (mixins E N O) id title text owner provenance d ≡ ok (r, d')
        → Step d d'
    contact_prepared :
        (id aliases urn : Option Json) (owner : String) (now : ℕ) (d d' : Place E N O)
        (a : Option Approval)
        → prepare_contact E
            (mixins E N O)
            (prepare_existing_contact E N O now)
            id
            aliases
            urn
            owner
            now
            d
          ≡ ok (a, d')
        → Step d d'
    task_prepared :
        (id : String) (scope : Json) (owner : String) (now : ℕ) (d d' : Place E N O) (p : Prepared)
        → prepare_task E (mixins E N O) id scope owner now d ≡ ok (p, d')
        → Step d d'
    task_revoked :
        (id owner : String) (d d' : Place E N O)
        → revoke E (mixins E N O) id owner d ≡ ok d'
        → Step d d'
    action_prepared :
        (task_id id : String) (action : Json) (owner : String) (now : ℕ) (d d' : Place E N O)
        (r : Reply)
        → prepare_action E (mixins E N O) task_id id action owner now d ≡ ok (r, d')
        → Step d d'
    confirmation_begun :
        (id owner token : String) (now : ℕ) (d d' : Place E N O) (p : Display)
        → begin_confirmation E (mixins E N O) id owner token now d ≡ ok (p, d')
        → Step d d'
    confirmation_finished :
        (id token owner : String) (raw : Option String) (now : ℕ) (d d' : Place E N O)
        (r : Resolution)
        → finish_confirmation E (mixins E N O) id token owner raw now d ≡ ok (r, d')
        → Step d d'
    operation_reserved :
        (id owner : String) (now : ℕ) (d d' : Place E N O) (r : Reserved)
        → reserve E (mixins E N O) id owner now d ≡ ok (r, d')
        → Step d d'
    delivery_tried :
        (id message_id owner : String) (transport : Transport) (now : ℕ) (d d' : Place E N O)
        (r : Sent)
        → deliver E (mixins E N O) id message_id owner transport now d ≡ ok (r, d')
        → Step d d'
    mutated :
        (method : String) (params : Fields) (owner request_key fingerprint : String)
        (valid_until now : ℕ) (d d' : Place E N O) (r : Json)
        → remote_mutation E
            (mixins E N O)
            (mixin_method E N O)
            method
            params
            owner
            request_key
            fingerprint
            valid_until
            now
            d
          ≡ ok (r, d')
        → Step d d'
    action_claimed :
        (owner request_key fingerprint : String) (valid_until now : ℕ) (d d' : Place E N O)
        (r : Claimed)
        → claim_action (mixins E N O) owner request_key fingerprint valid_until now d ≡ ok (r, d')
        → Step d d'
    -- The result of a callback, whose claim has none yet.
    action_completed :
        (request_key : String) (a : OwnerAction) (v : Json) (d : Place E N O)
        → get (d.0.owner_actions) request_key ≡ some a
        → a.result ≡ none
        → Step d (complete_action (mixins E N O) request_key a v d)
    -- The calls of social.py that do not come through `remote_mutation`.
    response_asked :
        (params : Fields) (owner : String) (now : ℕ) (d d' : Place E N O) (r : ContactRequest)
        (a : Option Approval)
        → prepare_contact_response E N O params owner now d ≡ ok ((r, a), d')
        → Step d d'
    message_asked :
        (params : Fields) (fresh owner : String) (now : ℕ) (d d' : Place E N O) (a : Approval)
        → prepare_message E N O params fresh owner now d ≡ ok (a, d')
        → Step d d'
    peer_block_set :
        (given : Option Json) (value : Bool) (owner : String) (now : ℕ) (c : Core) (s : Social)
        (σ : N.State) (d' : Inbox.Db E N) (r : BlockReceipt E N)
        → set_peer_block E N given value owner now (c, s, σ) ≡ ok (r, d')
        → Step (c, (s, σ)) (d'.0, (d'.1, d'.2))
    -- `import_proposal` writes one row of the proposals, whatever it is.
    proposal_imported :
        (k : String) (p : Proposal) (d : Place E N O)
        → Step d (record (d.0) { proposals = put k p (d.0.proposals) }, d.1)
    -- What writes no row of store.py, whatever it does to the rows of the mixins.
    elsewhere : (c : Core) (s s' : Social) (σ σ' : N.State) → Step (c, (s, σ)) (c, (s', σ'))

  pub data Steps : Place E N O → Place E N O → Type 0 where
    begin : (d : Place E N O) → Steps d d
    next : {c d e : Place E N O} → Steps c d → Step d e → Steps c e

  by_moves : {c d : Core} → Moves c d → Acts c d
  by_moves {c} ms = acted (done c) (moves ms)

  -- Each operation of a store whose database is sound acts on its rows by the specification: it makes
  -- moves, and writes receipts, and nothing else.
  pub Step-Acts : {d e : Place E N O} → Step d e → IsSound (d.0) → Acts (d.0) (e.0)
  Step-Acts (resource_registered id title text owner p d d' r h) s =
      by_moves (register_resource_moves E (mixins E N O) id title text owner p d d' r h)
  Step-Acts (contact_prepared id aliases urn owner now d d' a h) s = by_moves (
      prepare_contact_moves E (mixins E N O) (prepare_existing_contact E N O now)
        (λ x w e e' b g. (prepare_existing_contact-Asks E N O now x w e e' b g).0) id aliases urn
        owner now d d' a h)
  Step-Acts (task_prepared id scope owner now d d' p h) s =
      by_moves (prepare_task_moves E (mixins E N O) id scope owner now d d' p h)
  Step-Acts (task_revoked id owner d d' h) s =
      by_moves (revoke_moves E (mixins E N O) id owner d d' h)
  Step-Acts (action_prepared task_id id action owner now d d' r h) s =
      by_moves (prepare_action_moves E (mixins E N O) task_id id action owner now d d' r h)
  Step-Acts (confirmation_begun id owner token now d d' p h) s =
      by_moves (begin_confirmation_moves E (mixins E N O) id owner token now d d' p h)
  Step-Acts (confirmation_finished id token owner raw now d d' r h) s =
      by_moves (finish_confirmation_moves E (mixins E N O) id token owner raw now d d' r s h)
  Step-Acts (operation_reserved id owner now d d' r h) s =
      by_moves (reserve_moves E (mixins E N O) id owner now d d' r s h)
  Step-Acts (delivery_tried id message_id owner transport now d d' r h) s =
      by_moves (deliver_moves E (mixins E N O) id message_id owner transport now d d' r h)
  Step-Acts (mutated method params owner key fingerprint valid_until now d d' r h) s =
      remote_mutation-Acts E (mixins E N O) (mixin_method E N O) (mixin_method_moves E N O) method
        params owner key fingerprint valid_until now d d' r s h
  Step-Acts (action_claimed owner key fingerprint valid_until now d d' r h) s =
      claim_action-Acts E (mixins E N O) owner key fingerprint valid_until now d d' r h
  Step-Acts (action_completed key a v d n e) s = complete_action-Acts E (mixins E N O) key a v d n e
  Step-Acts (response_asked params owner now d d' r a h) s =
      by_moves (prepare_contact_response-Asks E N O params owner now d d' r a h).0
  Step-Acts (message_asked params fresh owner now d d' a h) s =
      by_moves (prepare_message-Asks E N O params fresh owner now d d' a h).0
  Step-Acts (peer_block_set given value owner now c z σ d' r h) s =
      by_moves (set_peer_block_core E N given value owner now (c, z, σ) d' r s h)
  Step-Acts (proposal_imported k p d) s =
      by_moves (moved (still (d.0)) (proposal_written (d.0) k p))
  Step-Acts (elsewhere c z z' σ σ') s = done c

  -- A run is a path of the specification, and keeps the database sound.
  pub Steps-Acts :
      {d e : Place E N O} → Steps d e → IsSound (d.0) → Acts (d.0) (e.0) × IsSound (e.0)
  Steps-Acts (begin d) s = (done (d.0), s)
  Steps-Acts (next run step) s =
      let (path, sound) = Steps-Acts run s in
      let act = Step-Acts step sound in (Acts-trans path act, Acts-IsSound act sound)
