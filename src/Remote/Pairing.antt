-- ===== src/Remote/Pairing.antt =====
-- `pair`, `revoke`, `pairings`, `register_handler` and `_authorized` of remote.py.
pub mod Access
use agent_comm.Prelude.{
  ℕ, String, Bool, true, false, not, ◌&&◌, ◌||◌, Option, none, some, List, [], ◌∷◌, ◌++◌, same, mem,
  is_empty, any, all, codes, leb, length, ◌==◌, if◌then◌else◌, sort_set,
}
use Prim.Native.String.{count}
use agent_comm.Runtime.{Runtime}
use agent_comm.Table.{get, put, rows}
use agent_comm.Remote.State.{
  Pairing, Bridge, Outcome, ok, raised, Failure, value_error, remote_error, raise_if, ◌>>=◌, ◌>>◌,
}
use agent_comm.Remote.Parse.{deadline_of, identity}

-- The attributes that `__init__` and `register_handler` set.
pub record Settings : Type 0 where
  pub local_urn : String
  pub conversations : Bool
  pub peer_content_safety_enabled : Bool
  pub bound_principal : Option String
  pub handlers : List String
  -- `isinstance(self.store, PeerReviewMixin)`
  pub reviews : Bool

abbrev pub read_methods : List String
read_methods =
    "capabilities" ∷ "contacts.list" ∷ "collaboration.state" ∷ "inbox.list" ∷ "inbox.review_preview"
    ∷ "attention.list" ∷ "contacts.requests" ∷ "task.list" ∷ "task.detail" ∷ "task.events" ∷ []

abbrev pub write_methods : List String
write_methods =
    "contacts.add" ∷ "contacts.respond" ∷ "contacts.block" ∷ "contacts.unblock" ∷ "messages.send"
    ∷ "inbox.mark_read" ∷ "inbox.review" ∷ "approval.respond" ∷ []

abbrev pub conversation_methods : List String
conversation_methods = "conversation.send" ∷ "conversation.get" ∷ []

-- `[a-z][a-z0-9_.]{0,79}`
is_method : List ℕ → Bool
is_method [] = false
is_method (c ∷ cs) =
    leb b'a' c
    && leb c b'z'
    && leb (length cs) 79
    && all (λ d. leb b'a' d && leb d b'z' || leb b'0' d && leb d b'9' || d == b'_' || d == b'.') cs

-- `owner_principal` has at most 256 characters and no "|".
is_principal : String → Bool
is_principal p = not (same p "") && not (any (λ c. c == b'|') (codes p)) && leb (count p) 256

-- `register_handler(method, handler)` with a callable handler; the names come back.
unfoldable pub register_handler : String → Settings → Outcome Settings
register_handler method s =
    if mem method (read_methods ++ (write_methods ++ conversation_methods))
    then raised
        (value_error "Built-in methods cannot be overridden; extension handler must be callable")
    else ok (record s {
      handlers = if mem method s.handlers then s.handlers else s.handlers ++ method ∷ [];
    })

module _ (R : Runtime) where
  open R use {instant}

  -- The checks of `pair(console_urn, owner_principal, methods, expires_at)`.
  unfoldable pub new_pairing : String → String → List String → String → ℕ → Outcome Pairing
  unfolding is_method is_principal identity deadline_of
  new_pairing console_urn owner_principal methods expires_at now = do
    identity (some console_urn) >>= λ _. ok tt
    raise_if (not (is_principal owner_principal))
        (value_error "Provide a local owner principal, not a remote session claim")
    raise_if (is_empty methods || any (λ m. not (is_method (codes m))) methods)
        (value_error "List explicit allowed RPC methods")
    deadline ← deadline_of R (some expires_at)
    raise_if (leb deadline now) (value_error "Pairing deadline must be in the future")
    ok (record {
      console_urn = console_urn;
      owner_principal = owner_principal;
      methods = sort_set methods;
      expires_at = expires_at;
      revoked = false;
      paired_at = now;
    })

  -- `pair`: the write, after the store has registered the owner.
  unfoldable pub pair :
      String → String → List String → String → ℕ → Bridge → Outcome (Pairing × Bridge)
  unfolding new_pairing
  pair console_urn owner_principal methods expires_at now b = do
    p ← new_pairing console_urn owner_principal methods expires_at now
    ok (p, record b { pairings = put console_urn p b.pairings })

  -- `revoke(console_urn)`
  unfoldable pub revoke : String → Bridge → Outcome Bridge
  unfolding identity
  revoke console_urn b = do
    identity (some console_urn) >>= λ _. ok tt
    elim (get b.pairings console_urn) [
      | none ↦ raised (value_error "No pairing exists for this console")
      | some p ↦
          ok (record b { pairings = put console_urn (record p { revoked = true }) b.pairings })
    ]

  -- `pairings()`
  unfoldable pub pairings : Bridge → List Pairing
  pairings b = rows b.pairings

  not_paired : Failure
  not_paired = remote_error "not_paired" "This console has no current local pairing"

  -- `instant(pairing["expires_at"]) <= self.clock()`; `pair` has stored only times that parse.
  unfoldable pub is_over : Pairing → ℕ → Bool
  is_over p now = elim (instant p.expires_at) [ none ↦ true | some t ↦ leb t now ]

  foreign : Option String → Pairing → Bool
  foreign none p = false
  foreign (some owner) p = not (same p.owner_principal owner)

  -- The tests of `_authorized` on the pairing that was read.
  unfoldable pub admit : Settings → String → ℕ → Option Pairing → Outcome Pairing
  unfolding not_paired is_over foreign
  admit s method now none = raised not_paired
  admit s method now (some p) = do
    raise_if (p.revoked || is_over p now) not_paired
    raise_if (foreign s.bound_principal p)
        (remote_error "owner_mismatch" "The local pairing belongs to a different host profile")
    raise_if (not (mem method p.methods))
        (remote_error "method_not_allowed" "This method is outside the local pairing scope")
    ok p

  -- `self._authorized(console, method)`
  unfoldable pub authorized : Settings → String → String → ℕ → Bridge → Outcome Pairing
  unfolding admit
  authorized s console method now b = admit s method now (get b.pairings console)
