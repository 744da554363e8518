-- ===== src/Social/Steps/Lasting.antt =====
-- What lasts in every run of social.py: answers, letters, and the consent behind a connection.
use agent_comm.Prelude.{String, none, some, [], ◌≡◌, ◌⊎◌, sym}
use agent_comm.Table.{get}
use agent_comm.Table.Sorted.{get-Each}
use agent_comm.Store.State.{Env, Core}
use agent_comm.Social.State.{
  waiting, accepted, ContactRequest, Connection, queued, Outgoing, Social, Neighbours,
}
use agent_comm.Social.Inbox.{Db}
use agent_comm.Social.Spec.Sound.{IsSound, IsJoined, Moves-IsSound}
use agent_comm.Social.Spec.Lasting.{Moves-requests, Moves-outbox}
use agent_comm.Social.Steps.{Steps, Steps-Moves}

-- The rows of a new database.
abbrev pub no_rows : Social
no_rows = record {
  revisions = [];
  blocks = [];
  tombstones = [];
  requests = [];
  connections = [];
  outbox = [];
  inbound = [];
  reads = [];
  mail_owner = none;
}

pub no_rows-IsSound : IsSound no_rows
no_rows-IsSound = record {
  requests = tt;
  sorted_requests = tt;
  outbox = tt;
  sorted_outbox = tt;
  connections = tt;
}

module _ (E : Env) (N : Neighbours) {may_lift : String → Type 0} where
  -- In every run that begins with an empty database, a connection with a peer comes from a friend
  -- request between the owner and this peer that was accepted: no order of messages, answers and
  -- blocks makes a connection otherwise.
  pub connected_by_consent :
      (c : Core) (σ : N.State) (d : Db E N) (k : String) (x : Connection)
      → Steps E N may_lift (c, no_rows, σ) d
      → get (d.1.connections) k ≡ some x
      → (r : ContactRequest) × (get (d.1.requests) x.request_id ≡ some r)
        × (r.status ≡ accepted)
        × (r.owner_id ≡ x.owner_id)
        × (r.peer_urn ≡ x.peer_urn)
  connected_by_consent c σ d k x ss e =
      let ms = Steps-Moves E N (c, no_rows, σ) d no_rows-IsSound ss in
      let h = Moves-IsSound no_rows (d.1) ms no_rows-IsSound in
      let (r, row, a, (i, o, u)) =
        get-Each (λ j y. IsJoined (d.1.requests) y) (d.1.connections) k x h.connections e in
      (r, row, a, sym o, sym u)

  -- An answered friend request keeps its answer in every run, and a request stays between the same
  -- owner and the same peer.
  pub answers_last :
      (d d' : Db E N) (k : String) (r : ContactRequest)
      → IsSound (d.1)
      → Steps E N may_lift d d'
      → get (d.1.requests) k ≡ some r
      → (q : ContactRequest) × (get (d'.1.requests) k ≡ some q)
        × (q.owner_id ≡ r.owner_id)
        × (q.peer_urn ≡ r.peer_urn)
        × (q.direction ≡ r.direction)
        × ((r.status ≡ waiting) ⊎ (q.status ≡ r.status))
  answers_last d d' k r h ss e =
      let (q, row, ((i, o, w, u, t), s)) =
        Moves-requests (d.1) (d'.1) (Steps-Moves E N d d' h ss) k r e in
      (q, row, o, u, w, s)

  -- A letter of the outbox never changes in any run, so that a retry hands over the same message, and
  -- one that was delivered or withdrawn stays so.
  pub letters_last :
      (d d' : Db E N) (k : String) (o : Outgoing)
      → IsSound (d.1)
      → Steps E N may_lift d d'
      → get (d.1.outbox) k ≡ some o
      → (p : Outgoing) × (get (d'.1.outbox) k ≡ some p)
        × (p.letter ≡ o.letter)
        × (p.owner_id ≡ o.owner_id)
        × ((o.status ≡ queued) ⊎ (p.status ≡ o.status))
  letters_last d d' k o h ss e =
      let (p, row, (i, u, l, t, s)) = Moves-outbox (d.1) (d'.1) (Steps-Moves E N d d' h ss) k o e in
      (p, row, l, u, s)
