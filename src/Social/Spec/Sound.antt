-- ===== src/Social/Spec/Sound.antt =====
-- A sound database of social.py: requests and letters stand under their own identifiers, and each
-- connection comes from a request that was accepted.
use agent_comm.Prelude.{String, some, ◌≡◌, refl, sym, subst, ◌∙◌, [], ◌∷◌, arith, inl, inr}
use agent_comm.Table.{Table, get, put}
use agent_comm.Table.Laws.{get-put_self}
use agent_comm.Table.Sorted.{Each, IsSorted, put-Each, put-IsSorted, get-Each}
use agent_comm.Table.Keeps.{Keeps, put-Keeps, put-Keeps_new}
use agent_comm.Social.State.{accepted, ContactRequest, Connection, Outgoing, Social}
use agent_comm.Social.Spec.{
  Decides, Joins, Move, mail_moved, request_made, request_decided, peer_connected, letter_queued,
  letter_settled, tombstone_set, block_set, revision_raised, Moves, still, moved,
}

-- The connection has its accepted request.
abbrev pub IsJoined : Table ContactRequest → Connection → Type 0
IsJoined t c =
    (r : ContactRequest) × (get t c.request_id ≡ some r) × (r.status ≡ accepted) × Joins r c

pub record IsSound (s : Social) : Type 0 where
  pub requests : Each (λ k r. r.request_id ≡ k) s.requests
  pub sorted_requests : IsSorted s.requests
  pub outbox : Each (λ k o. o.message_id ≡ k) s.outbox
  pub sorted_outbox : IsSorted s.outbox
  pub connections : Each (λ k c. IsJoined s.requests c) s.connections

-- An accepted request stays accepted where requests are only decided.
IsJoined-later :
    (t u : Table ContactRequest)
    → Keeps Decides t u
    → (c : Connection) → IsJoined t c
    → IsJoined u c
IsJoined-later t u f c (r, e, a, j) =
    let (q, g, (i, d)) = f c.request_id r e in
    let status : q.status ≡ accepted = elim d [ inl w ↦ cc | inr h ↦ h ∙ a ] in
    (q, g, status, ground arith)

pub Decides-refl : (r : ContactRequest) → Decides r r
Decides-refl r = ((refl, refl, refl, refl, refl), inr refl)

IsJoined-all :
    (t u : Table ContactRequest)
    → Keeps Decides t u
    → (v : Table Connection) → Each (λ k c. IsJoined t c) v
    → Each (λ k c. IsJoined u c) v
IsJoined-all t u f [] h = tt
IsJoined-all t u f ((k, c) ∷ v) (j, h) = (IsJoined-later t u f c j, IsJoined-all t u f v h)

-- A write over the requests of a sound database.
with_request :
    (s : Social) (k : String) (r : ContactRequest)
    → r.request_id ≡ k
    → Keeps Decides s.requests (put k r s.requests)
    → IsSound s
    → IsSound (record s { requests = put k r s.requests })
with_request s k r e f h = record {
  requests = put-Each (λ k r. r.request_id ≡ k) k r s.requests e h.requests;
  sorted_requests = put-IsSorted k r s.requests h.sorted_requests;
  outbox = h.outbox;
  sorted_outbox = h.sorted_outbox;
  connections = IsJoined-all s.requests (put k r s.requests) f s.connections h.connections;
}

with_letter :
    (s : Social) (k : String) (o : Outgoing)
    → o.message_id ≡ k
    → IsSound s
    → IsSound (record s { outbox = put k o s.outbox })
with_letter s k o e h = record {
  requests = h.requests;
  sorted_requests = h.sorted_requests;
  outbox = put-Each (λ k o. o.message_id ≡ k) k o s.outbox e h.outbox;
  sorted_outbox = put-IsSorted k o s.outbox h.sorted_outbox;
  connections = h.connections;
}

with_connection :
    (s : Social) (j : String) (c : Connection)
    → IsJoined s.requests c
    → IsSound s
    → IsSound (record s { connections = put j c s.connections })
with_connection s j c e h = record {
  requests = h.requests;
  sorted_requests = h.sorted_requests;
  outbox = h.outbox;
  sorted_outbox = h.sorted_outbox;
  connections = put-Each (λ k c. IsJoined s.requests c) j c s.connections e h.connections;
}

decided_keeps :
    (s : Social) (k : String) (r q : ContactRequest)
    → get s.requests k ≡ some r
    → Decides r q
    → Keeps Decides s.requests (put k q s.requests)
decided_keeps s k r q e d = put-Keeps Decides Decides-refl s.requests k r q e d

decided_key :
    (s : Social) (k : String) (r q : ContactRequest)
    → get s.requests k ≡ some r
    → Decides r q
    → IsSound s
    → q.request_id ≡ k
decided_key s k r q e (i, d) h =
    i.0 ∙ get-Each (λ k r. r.request_id ≡ k) s.requests k r h.requests e

module _ {may_lift : String → Type 0} where
  pub Move-IsSound : (s s' : Social) → Move may_lift s s' → IsSound s → IsSound s'
  Move-IsSound s s' (mail_moved _ _ e0 e1 e2 e3 e4 e5) h = record {
    requests = subst (λ t. Each (λ k r. r.request_id ≡ k) t) (sym e3) h.requests;
    sorted_requests = subst (λ t. IsSorted t) (sym e3) h.sorted_requests;
    outbox = subst (λ t. Each (λ k o. o.message_id ≡ k) t) (sym e5) h.outbox;
    sorted_outbox = subst (λ t. IsSorted t) (sym e5) h.sorted_outbox;
    connections =
        subst (λ t. Each (λ k c. IsJoined t c) s'.connections) (sym e3)
          (subst (λ t. Each (λ k c. IsJoined s.requests c) t) (sym e4) h.connections);
  }
  Move-IsSound s s' (request_made _ k r e i w) h =
      with_request s k r i (put-Keeps_new Decides Decides-refl s.requests k r e) h
  Move-IsSound s s' (request_decided _ k r q e d) h =
      with_request s k q (decided_key s k r q e d h) (decided_keeps s k r q e d) h
  Move-IsSound s s' (peer_connected _ k j r q c e d a i) h =
      let key : q.request_id ≡ k = decided_key s k r q e d h in
      let row : get (put k q s.requests) c.request_id ≡ some q =
        subst (λ x. get (put k q s.requests) x ≡ some q) (sym (i.0 ∙ key))
          (get-put_self k q s.requests) in
      with_connection (record s { requests = put k q s.requests }) j c (q, row, a, i)
        (with_request s k q key (decided_keeps s k r q e d) h)
  Move-IsSound s s' (letter_queued _ k o e i) h = with_letter s k o i h
  Move-IsSound s s' (letter_settled _ k o p e i) h =
      with_letter s k p (i.0 ∙ get-Each (λ k o. o.message_id ≡ k) s.outbox k o h.outbox e) h
  Move-IsSound s s' (tombstone_set _ k t) h = record {
    requests = h.requests;
    sorted_requests = h.sorted_requests;
    outbox = h.outbox;
    sorted_outbox = h.sorted_outbox;
    connections = h.connections;
  }
  Move-IsSound s s' (block_set _ k b p) h = record {
    requests = h.requests;
    sorted_requests = h.sorted_requests;
    outbox = h.outbox;
    sorted_outbox = h.sorted_outbox;
    connections = h.connections;
  }
  Move-IsSound s s' (revision_raised _ k n p) h = record {
    requests = h.requests;
    sorted_requests = h.sorted_requests;
    outbox = h.outbox;
    sorted_outbox = h.sorted_outbox;
    connections = h.connections;
  }

  pub Moves-IsSound : (s s' : Social) → Moves may_lift s s' → IsSound s → IsSound s'
  Moves-IsSound s s' (still _) h = h
  Moves-IsSound s s' (moved {s' = s1} ms m) h = Move-IsSound s1 s' m (Moves-IsSound s s1 ms h)
