-- ===== src/Remote/Turns.antt =====
-- `claim_turn`, `finish_turn`, `recover_interrupted_turns` and `_sync_conversation_events` of
-- remote.py.
pub mod Keep
pub mod Grant
pub mod Final
pub mod Sound
use agent_comm.Prelude.{
  ℕ, String, Bool, true, false, not, Option, none, some, List, [], ◌∷◌, same, any, ltb,
  if◌then◌else◌,
}
use Prim.Native.String.{len}
use agent_comm.Runtime.{Runtime}
use agent_comm.Table.{get, put, rows}
use agent_comm.Remote.State.{
  Turn, TurnStatus, submitted, running, completed, failed, interrupted, Bridge, Outcome, ok, raised,
  Failure, remote_error, raise_if, ◌>>=◌, ◌>>◌,
}
use agent_comm.Remote.Pairing.{Settings, authorized}
use agent_comm.Remote.Invoke.{Store, require_peer_model_safety}
use agent_comm.Remote.Conversation.{sort_turns}

-- `j["status"] == "running"`
abbrev pub is_running : TurnStatus → Bool
is_running running = true
is_running _ = false

-- `j["status"] == "submitted"`
abbrev pub is_submitted : TurnStatus → Bool
is_submitted submitted = true
is_submitted _ = false

-- `job.update(status="running", updated_at=...)`
unfoldable pub start : ℕ → Turn → Turn
start now j = record j { status = running; updated_at = now }

-- `job.update(status="failed", error=..., updated_at=...)`
unfoldable pub refuse : Failure → ℕ → Turn → Turn
refuse e now j = record j {
  status = failed;
  error = some (
      if same e.code "peer_content_safety_required"
      then "Host lacks owner-review model admission"
      else "Pairing expired, changed or revoked before execution");
  updated_at = now;
}

-- `self._put("turn", job["turn_id"], job)`
abbrev pub save : Turn → Bridge → Bridge
save j b = record b { turns = put j.turn_id j b.turns }

-- What `claim_turn` returns, the rows it changed in their order, and the database.
pub record Claim : Type 0 where
  pub claimed : Option Turn
  pub changed : List Turn
  pub bridge : Bridge

module _ (R : Runtime) where
  -- The tests of the loop on a turn that was submitted.
  unfoldable pub may_start : Settings → ℕ → Bridge → Turn → Outcome (Unit {0})
  unfolding require_peer_model_safety
  may_start s now b j = do
    require_peer_model_safety s false
    p ← authorized R s j.console_urn "conversation.send" now b
    raise_if (not (same p.owner_principal j.owner_principal))
        (remote_error "owner_changed" "Local pairing owner changed")

  -- The loop of `claim_turn` over the sorted turns.
  unfoldable pub claim_from : Settings → ℕ → List Turn → Bridge → Claim
  unfolding may_start start refuse
  claim_from s now [] b = record { claimed = none; changed = []; bridge = b }
  claim_from s now (j ∷ js) b =
      if not (is_submitted j.status) then claim_from s now js b else elim (may_start s now b j) [
        | raised e ↦
            let j' = refuse e now j in
            let rest = claim_from s now js (save j' b) in
            record rest { changed = j' ∷ rest.changed }
        | ok _ ↦
            let j' = start now j in
            record { claimed = some j'; changed = j' ∷ []; bridge = save j' b }
      ]

  -- The transaction of `claim_turn()`.
  unfoldable pub claim : Settings → ℕ → Bridge → Claim
  unfolding claim_from
  claim s now b =
      if any (λ j. is_running j.status) (rows b.turns)
      then record { claimed = none; changed = []; bridge = b }
      else claim_from s now (sort_turns (rows b.turns)) b

-- The text and the error that `finish_turn` writes: a text of more than 200000 bytes is refused.
unfoldable pub finish_texts : Option String → Option String → Option String × Option String
finish_texts none error = (none, error)
finish_texts (some text) error =
    if ltb 200000 (len text)
    then (none, some "Host response exceeded the supported text size")
    else (some text, error)

-- `"interrupted" if interrupted else "failed" if error else "completed"`
unfoldable pub outcome_of : Bool → Option String → TurnStatus
outcome_of true error = interrupted
outcome_of false none = completed
outcome_of false (some e) = if same e "" then completed else failed

unfoldable pub end : Option String → Option String → Bool → ℕ → Turn → Turn
unfolding finish_texts outcome_of
end response error is_interrupted now j =
    let (text, problem) = finish_texts response error in
    record j {
      status = outcome_of is_interrupted problem;
      response = text;
      error = problem;
      updated_at = now;
    }

-- The transaction of `finish_turn`, with the row that it wrote.
unfoldable pub finish :
    String → Option String → Option String → Bool → ℕ → Bridge → Option Turn × Bridge
unfolding end
finish turn_id response error is_interrupted now b = elim (get b.turns turn_id) [
  | none ↦ (none, b)
  | some j ↦
      if is_running j.status
      then (let j' = end response error is_interrupted now j in (some j', save j' b))
      else (none, b)
]

unfoldable pub abandon : ℕ → Turn → Turn
abandon now j = record j {
  status = interrupted;
  error = some "Agent restarted during this turn; execution outcome is uncertain";
  updated_at = now;
}

unfoldable pub recover_from : ℕ → List Turn → Bridge → Bridge
unfolding abandon
recover_from now [] b = b
recover_from now (j ∷ js) b =
    recover_from now js (if is_running j.status then save (abandon now j) b else b)

-- The transaction of `recover_interrupted_turns()`.
unfoldable pub recover : ℕ → Bridge → Bridge
unfolding recover_from
recover now b = recover_from now (rows b.turns) b

module _ (R : Runtime) (S : Store) where
  -- `self.store.record_conversation_event(job)` for the rows that were changed.
  record_all : List Turn → S.State → S.State
  record_all [] σ = σ
  record_all (j ∷ js) σ = record_all js (S.record_event j σ)

  -- `claim_turn()`
  unfoldable pub claim_turn : Settings → ℕ → Bridge → S.State → Option Turn × Bridge × S.State
  unfolding claim record_all
  claim_turn s now b σ = let c = claim R s now b in (c.claimed, c.bridge, record_all c.changed σ)

  -- `finish_turn(turn_id, response=..., error=..., interrupted=...)`
  unfoldable pub finish_turn :
      String → Option String → Option String → Bool → ℕ → Bridge → S.State → Bridge × S.State
  unfolding finish
  finish_turn turn_id response error is_interrupted now b σ =
      let (done, b') = finish turn_id response error is_interrupted now b in
      (b', elim done [ none ↦ σ | some j ↦ S.record_event j σ ])

  -- `recover_interrupted_turns()`
  unfoldable pub recover_interrupted_turns : ℕ → Bridge → S.State → Bridge × S.State
  unfolding recover record_all
  recover_interrupted_turns now b σ = let b' = recover now b in (b', record_all (rows b'.turns) σ)
