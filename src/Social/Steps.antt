-- ===== src/Social/Steps.antt =====
-- The runs of social.py: its operations in any order, from several processes, each a transaction; a
-- flush is one step for each record that it hands over, so that other steps come between.
pub mod Lasting
pub mod Silence
use agent_comm.Prelude.{
  ◌<>◌, ℕ, String, Bool, true, Option, none, some, List, ◌≡◌, refl, ◌⊎◌, ◌∷◌, [],
}
use agent_comm.Json.{Json, Fields, str}
use agent_comm.Table.{Table, get}
use agent_comm.Remote.State.{ok}
use agent_comm.Store.State.{Env, Contact, Core}
use agent_comm.Store.Records.{principal}
use agent_comm.Social.State.{ContactRequest, Letter, Outgoing, Inbound, Social, Neighbours}
use agent_comm.Social.Peers.{key}
use agent_comm.Social.Outbox.{Answer, Turn, queue_social, request_contact, send_message, submit_one}
use agent_comm.Social.Outbox.Moves.{
  queue_social_moves, request_contact_moves, send_message_moves, submit_one_moves,
}
use agent_comm.Social.Inbox.{Db, mark_message, ingest_social, register_owner}
use agent_comm.Social.Inbox.Moves.{mark_message_moves, ingest_social_moves, register_owner_moves}
use agent_comm.Social.Respond.{respond_contact}
use agent_comm.Social.Respond.Moves.{respond_contact_moves}
use agent_comm.Social.Block.{BlockReceipt, set_peer_block, consume_blocked_peer}
use agent_comm.Social.Block.Moves.{set_peer_block_moves, consume_blocked_peer_moves}
use agent_comm.Social.Spec.{Moves, still, one, then, mail_moved}
use agent_comm.Social.Spec.Sound.{IsSound, Moves-IsSound}

module _ (E : Env) (N : Neighbours) where
  -- `may_lift` tells under which keys an owner may lift a block in the run.
  pub data Step (may_lift : String → Type 0) : Db E N → Db E N → Type 0 where
    -- The token is fresh: no request has the identifier that is made from it.
    contact_requested :
        (x : Contact) (token : String) (now : ℕ) (c : Core) (s s' : Social) (σ σ' : N.State)
        (r : Option ContactRequest)
        → get s.requests ("friend-" <> token) ≡ none
        → request_contact E x token now s ≡ ok (r, s')
        → Step may_lift (c, s, σ) (c, s', σ')
    message_sent :
        (params : Fields) (fresh owner : String) (now : ℕ) (c : Core) (s s' : Social) (σ : N.State)
        (o : Outgoing)
        → send_message E params fresh owner now c s ≡ ok (o, s')
        → Step may_lift (c, s, σ) (c, s', σ)
    -- A direct message whose approval is applied.
    message_consented :
        (m : Letter) (owner : String) (now : ℕ) (c c' : Core) (s s' : Social) (σ σ' : N.State)
        (o : Outgoing)
        → queue_social E m owner now s ≡ ok (o, s')
        → Step may_lift (c, s, σ) (c', s', σ')
    letter_submitted :
        (r : Outgoing) (transport : Letter → Answer) (now : ℕ) (c : Core) (s s' : Social)
        (σ : N.State) (t : Turn E)
        → submit_one E r transport now c s ≡ (t, s')
        → Step may_lift (c, s, σ) (c, s', σ)
    mail_ingested :
        (m : Inbound) (now : ℕ) (d d' : Db E N) (r : Option ContactRequest)
        → ingest_social E N m now d ≡ ok (r, d')
        → Step may_lift d d'
    owner_registered :
        (owner : String) (now : ℕ) (d d' : Db E N) (profile : String)
        → register_owner E N owner now d ≡ ok (profile, d')
        → Step may_lift d d'
    mail_read :
        (id owner : String) (now : ℕ) (d d' : Db E N) (m : Inbound)
        → mark_message E N id owner now d ≡ ok (m, d')
        → Step may_lift d d'
    request_answered :
        (params : Fields) (owner : String) (now : ℕ) (d d' : Db E N) (r : ContactRequest)
        → respond_contact E N params owner now d ≡ ok (r, d')
        → Step may_lift d d'
    block_changed :
        (urn : String) (value : Bool) (owner : String) (now : ℕ) (d d' : Db E N)
        (r : BlockReceipt E N)
        → (value ≡ true) ⊎ may_lift (key E (principal owner ∷ urn ∷ []))
        → set_peer_block E N (some (str urn)) value owner now d ≡ ok (r, d')
        → Step may_lift d d'
    mail_consumed :
        (given : Json) (sender id owner : String) (d d' : Db E N) (b : Bool)
        → consume_blocked_peer E N given sender id owner d ≡ ok (b, d')
        → Step may_lift d d'
    -- What else `Store` does writes the inbox at most, and no other rows of social.py.
    elsewhere :
        (c c' : Core) (s : Social) (inbound : Table Inbound) (σ σ' : N.State)
        → Step may_lift (c, s, σ) (c', record s { inbound = inbound }, σ')

  pub data Steps (may_lift : String → Type 0) : Db E N → Db E N → Type 0 where
    start : (d : Db E N) → Steps may_lift d d
    next : {d d' d2 : Db E N} → Steps may_lift d d' → Step may_lift d' d2 → Steps may_lift d d2

module _ (E : Env) (N : Neighbours) {may_lift : String → Type 0} where
  -- Each operation of social.py does to its rows what the specification allows, and nothing else.
  pub Step-Moves :
      (d d' : Db E N) → IsSound (d.1) → Step E N may_lift d d' → Moves may_lift (d.1) (d'.1)
  Step-Moves d d' h (contact_requested x token now c s s' σ σ' r f e) =
      request_contact_moves E x token now s s' r f e
  Step-Moves d d' h (message_sent params fresh owner now c s s' σ o e) =
      send_message_moves E params fresh owner now c s s' o e
  Step-Moves d d' h (message_consented m owner now c c' s s' σ σ' o e) =
      queue_social_moves E m owner now s s' o e
  Step-Moves d d' h (letter_submitted r transport now c s s' σ t e) =
      submit_one_moves E r transport now c s s' t e
  Step-Moves d d' h (mail_ingested m now _ _ r e) = ingest_social_moves E N m now d d' r h e
  Step-Moves d d' h (owner_registered owner now _ _ profile e) =
      register_owner_moves E N owner now d d' profile h e
  Step-Moves d d' h (mail_read id owner now _ _ m e) = mark_message_moves E N id owner now d d' m e
  Step-Moves d d' h (request_answered params owner now _ _ r e) =
      respond_contact_moves E N params owner now d d' r h e
  Step-Moves d d' h (block_changed urn value owner now _ _ r l e) =
      set_peer_block_moves E N urn value owner now d d' r l h e
  Step-Moves d d' h (mail_consumed given sender id owner _ _ b e) =
      consume_blocked_peer_moves E N given sender id owner d d' b e
  Step-Moves d d' h (elsewhere c c' s inbound σ σ') =
      one (mail_moved s (record s { inbound = inbound }) refl refl refl refl refl refl)

  pub Steps-Moves :
      (d d' : Db E N) → IsSound (d.1) → Steps E N may_lift d d' → Moves may_lift (d.1) (d'.1)
  Steps-Moves d d' h (start _) = still (d.1)
  Steps-Moves d d' h (next {d' = d1} ss p) =
      let ms = Steps-Moves d d1 h ss in
      then ms (Step-Moves d1 d' (Moves-IsSound (d.1) (d1.1) ms h) p)
