-- ===== src/Remote/Steps.antt =====
-- The runs of a bridge: the public operations of `RemoteBridge` (remote.py) in any order, from several
-- processes, each a transaction of its database; the store may change between them.
pub mod Frame
pub mod Exclusive
pub mod Lasting
pub mod Revoked
pub mod Replay
use agent_comm.Prelude.{ℕ, String, Bool, Option, none, List, [], ◌∷◌, ◌≡◌}
use agent_comm.Json.{Json}
use agent_comm.Runtime.{Runtime}
use agent_comm.Remote.State.{Pairing, Bridge, ok}
use agent_comm.Remote.Pairing.{Settings, pair, revoke}
use agent_comm.Remote.Invoke.{Store}
use agent_comm.Remote.Handle.{handle}
use agent_comm.Remote.Turns.{claim_turn, finish_turn, recover_interrupted_turns}
use agent_comm.Remote.Mailbox.{Item, select_inbox_batch}

-- The database that `__init__` makes.
abbrev pub new_bridge : Bridge
new_bridge = record { pairings = []; requests = []; turns = []; cursor = none }

module _ (R : Runtime) (S : Store) where
  -- One operation. Each may run under other settings, as after a restart.
  pub data Step : Bridge × S.State → Bridge × S.State → Type 0 where
    handled :
        (s : Settings) (message : Json) (now : ℕ) (b : Bridge) (σ : S.State)
        → Step (b, σ) ((handle R S s message now b σ).1, (handle R S s message now b σ).2)
    paired :
        (console owner : String) (methods : List String) (expires_at : String) (now : ℕ)
        (b b' : Bridge) (σ : S.State) (p : Pairing)
        → pair R console owner methods expires_at now b ≡ ok (p, b')
        → Step (b, σ) (b', S.register_owner owner σ)
    revoked :
        (console : String) (b b' : Bridge) (σ : S.State)
        → revoke R console b ≡ ok b'
        → Step (b, σ) (b', σ)
    claimed :
        (s : Settings) (now : ℕ) (b : Bridge) (σ : S.State)
        → Step (b, σ) ((claim_turn R S s now b σ).1, (claim_turn R S s now b σ).2)
    finished :
        (turn_id : String) (response error : Option String) (is_interrupted : Bool) (now : ℕ)
        (b : Bridge) (σ : S.State)
        → Step (b, σ) (finish_turn R S turn_id response error is_interrupted now b σ)
    recovered :
        (now : ℕ) (b : Bridge) (σ : S.State) → Step (b, σ) (recover_interrupted_turns R S now b σ)
    selected :
        (messages : List Json) (limit : ℕ) (b b' : Bridge) (σ : S.State) (batch : List Item)
        → select_inbox_batch messages limit b ≡ ok (batch, b')
        → Step (b, σ) (b', σ)
    stored : (b : Bridge) (σ τ : S.State) → Step (b, σ) (b, τ)

  -- A run is a sequence of operations.
  pub data Steps : Bridge × S.State → Bridge × S.State → Type 0 where
    begin : (w : Bridge × S.State) → Steps w w
    next : {u v w : Bridge × S.State} → Steps u v → Step v w → Steps u w

  -- The consoles that a run pairs.
  abbrev pub paired_in : {u v : Bridge × S.State} → Steps u v → List String
  paired_in (begin w) = []
  paired_in (next run (paired console owner methods expires_at now b b' σ p e)) =
      console ∷ paired_in run
  paired_in (next run _) = paired_in run
