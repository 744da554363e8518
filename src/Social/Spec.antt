-- ===== src/Social/Spec.antt =====
-- The moves that the rows of social.py may make. No code is modelled here.
pub mod Sound
pub mod Lasting
use agent_comm.Prelude.{
  ℕ, String, Bool, true, false, Option, none, some, ◌≡◌, refl, ◌⊎◌, ◌≤◌, subst,
}
use agent_comm.Table.{Table, get, put}
use agent_comm.Social.State.{
  Block, Tombstone, RequestStatus, waiting, accepted, ContactRequest, Connection, OutgoingStatus,
  queued, Outgoing, Social,
}

-- What the answer to a request leaves as it is.
abbrev pub SameRequest : ContactRequest → ContactRequest → Type 0
SameRequest r q =
    (q.request_id ≡ r.request_id)
    × (q.owner_id ≡ r.owner_id)
    × (q.direction ≡ r.direction)
    × (q.peer_urn ≡ r.peer_urn)
    × (q.created_at ≡ r.created_at)

-- The request was not answered, or the answer is the same.
abbrev pub Decides : ContactRequest → ContactRequest → Type 0
Decides r q = SameRequest r q × ((r.status ≡ waiting) ⊎ (q.status ≡ r.status))

-- A record of the outbox keeps what it is to send, and a settled one stays as it is.
abbrev pub Settles : Outgoing → Outgoing → Type 0
Settles o p =
    (p.message_id ≡ o.message_id)
    × (p.owner_id ≡ o.owner_id)
    × (p.letter ≡ o.letter)
    × (p.created_at ≡ o.created_at)
    × ((o.status ≡ queued) ⊎ (p.status ≡ o.status))

-- The connection comes from the accepted request.
abbrev pub Joins : ContactRequest → Connection → Type 0
Joins r c = (c.request_id ≡ r.request_id) × (c.owner_id ≡ r.owner_id) × (c.peer_urn ≡ r.peer_urn)

-- `key b` is where a block of the owner stands, and the flag tells that a move may lift it.
pub data Move (may_lift : String → Type 0) : Social → Social → Type 0 where
  -- The inbox, the reads and the owner of the mail, which the properties do not bound.
  mail_moved :
      (s s' : Social)
      → s'.revisions ≡ s.revisions
      → s'.blocks ≡ s.blocks
      → s'.tombstones ≡ s.tombstones
      → s'.requests ≡ s.requests
      → s'.connections ≡ s.connections
      → s'.outbox ≡ s.outbox
      → Move may_lift s s'
  request_made :
      (s : Social) (k : String) (r : ContactRequest)
      → get s.requests k ≡ none
      → r.request_id ≡ k
      → r.status ≡ waiting
      → Move may_lift s (record s { requests = put k r s.requests })
  request_decided :
      (s : Social) (k : String) (r q : ContactRequest)
      → get s.requests k ≡ some r
      → Decides r q
      → Move may_lift s (record s { requests = put k q s.requests })
  peer_connected :
      (s : Social) (k j : String) (r q : ContactRequest) (c : Connection)
      → get s.requests k ≡ some r
      → Decides r q
      → q.status ≡ accepted
      → Joins q c
      → Move may_lift s
          (record s { requests = put k q s.requests; connections = put j c s.connections })
  letter_queued :
      (s : Social) (k : String) (o : Outgoing)
      → get s.outbox k ≡ none
      → o.message_id ≡ k
      → Move may_lift s (record s { outbox = put k o s.outbox })
  letter_settled :
      (s : Social) (k : String) (o p : Outgoing)
      → get s.outbox k ≡ some o
      → Settles o p
      → Move may_lift s (record s { outbox = put k p s.outbox })
  tombstone_set :
      (s : Social) (k : String) (t : Tombstone)
      → Move may_lift s (record s { tombstones = put k t s.tombstones })
  block_set :
      (s : Social) (k : String) (b : Block)
      → (b.blocked ≡ true) ⊎ may_lift k
      → Move may_lift s (record s { blocks = put k b s.blocks })
  revision_raised :
      (s : Social) (k : String) (n : ℕ)
      → ((m : ℕ) → get s.revisions k ≡ some m → m ≤ n)
      → Move may_lift s (record s { revisions = put k n s.revisions })

pub data Moves (may_lift : String → Type 0) : Social → Social → Type 0 where
  still : (s : Social) → Moves may_lift s s
  moved : {s s' s2 : Social} → Moves may_lift s s' → Move may_lift s' s2 → Moves may_lift s s2

module _ {may_lift : String → Type 0} where
  pub one : {s s' : Social} → Move may_lift s s' → Moves may_lift s s'
  one {s} m = moved (still s) m

  pub then : {s s' s2 : Social} → Moves may_lift s s' → Moves may_lift s' s2 → Moves may_lift s s2
  then ms (still s) = ms
  then ms (moved ns m) = moved (then ms ns) m

  -- The moves end in the rows that an operation returns.
  pub ends : {s s1 : Social} (s' : Social) → s1 ≡ s' → Moves may_lift s s1 → Moves may_lift s s'
  ends {s} s' e ms = subst (λ x. Moves may_lift s x) e ms
