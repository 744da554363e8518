-- ===== src/Remote/Tests.antt =====
-- Runs of the bridge (remote.py) on concrete requests, and concrete uses of its theorems.
use agent_comm.Prelude.{
  ℕ, ◌+◌, String, true, false, Option, none, some, [], ◌∷◌, ◌<>◌, ◌≡◌, ◌↔◌, refl, same, any, arith,
  if◌then◌else◌, sort_set,
}
use agent_comm.Json.{Json, null, str, obj, no_fields, field}
use agent_comm.Identity.{is_urn, is_identifier}
use agent_comm.Policy.Fields.{is_space}
use agent_comm.Runtime.{Runtime}
use agent_comm.Table.{get, put, rows}
use agent_comm.Remote.State.{
  Pairing, Turn, TurnStatus, submitted, running, completed, Bridge, Cached, Response, Outcome, ok,
}
use agent_comm.Remote.Parse.{Request, parse}
use agent_comm.Remote.Pairing.{Settings, pair, revoke, authorized}
use agent_comm.Remote.Pairing.Access.{Allows, authorized_iff}
use agent_comm.Remote.Invoke.{Store}
use agent_comm.Remote.Conversation.{send, sort_turns}
use agent_comm.Remote.Route.{invoke}
use agent_comm.Remote.Handle.{gate, handle, resolve, delivered}
use agent_comm.Remote.Handle.Answer.{IsUndisclosed, resolve_denied, delivered_denied}
use agent_comm.Remote.Turns.{is_running, claim_turn, claim, finish, abandon, recover}
use agent_comm.Remote.Turns.Sound.{IsSound, running_turns}
use agent_comm.Remote.Turns.Grant.{IsGranted, IsStart, claim-IsGranted}
use agent_comm.Remote.Turns.Final.{ended_stays, recover_none}
use agent_comm.Remote.Steps.{new_bridge, Steps, paired, handled, claimed, begin, next}
use agent_comm.Remote.Steps.Exclusive.{at_most_one_runs}
use agent_comm.Remote.Steps.Replay.{replay_lasts}
use agent_comm.Remote.Steps.Revoked.{revoke_lasts}

abbrev console : String
console = "urn:agent:console"

abbrev toy : Runtime
toy = record {
  instant = λ s. if same s "soon" then some 100 else none;
  loads = λ s. some (
      obj (
        field "agent_urn" (str "urn:agent:local") (
          field "console_urn" (str console) (
            field "deadline" (str "soon") (
              field "method" (str "conversation.send") (
                field "params" (obj (field "text" (str "hello") no_fields)) (
                  field "protocol" (str "agent-comm-control/v1")
                    (field "request_id" (str "r1") (field "type" (str "request") no_fields)))))))));
  canonical = λ j. "canonical";
  sha256 = λ s. s;
  take = λ n s. s;
}

-- A store that counts its calls.
abbrev toy_store : Store
toy_store = record {
  State = ℕ;
  perform = λ c σ. (ok null, σ + 1);
  has_task = λ task owner σ. false;
  links = λ owner c conversation turn σ. null;
  register_owner = λ owner σ. σ;
  record_event = λ j σ. σ + 1;
}

abbrev settings : Settings
settings = record {
  local_urn = "urn:agent:local";
  conversations = true;
  peer_content_safety_enabled = true;
  bound_principal = none;
  handlers = [];
  reviews = true;
}

abbrev message : Json
message = obj (
    field "kind" (str "control.request") (
      field "text" (str "body") (
        field "sender_urn" (str console) (
          field "message_id" (str "r1") (
            field "conversation_id" (str "control:r1")
              (field "deadline" (str "soon") no_fields))))))

abbrev pairing : Pairing
pairing = record {
  console_urn = console;
  owner_principal = "owner";
  methods = "conversation.send" ∷ [];
  expires_at = "soon";
  revoked = false;
  paired_at = 1;
}

abbrev bridge : Bridge
bridge = record { pairings = (console, pairing) ∷ []; requests = []; turns = []; cursor = none }

abbrev owner_turn : TurnStatus → Turn
owner_turn status = record {
  turn_id = "t1";
  conversation_id = "c1";
  console_urn = console;
  owner_principal = "owner";
  status = status;
  text = "hello";
  mentions = [];
  response = none;
  error = none;
  created_at = 1;
  updated_at = 1;
}

-- The paired bridge with one turn.
abbrev with_turn : TurnStatus → Bridge
with_turn status = record bridge { turns = ("t1", owner_turn status) ∷ [] }

abbrev request : Request
request = record {
  request_id = "r1";
  method = "conversation.send";
  params = field "text" (str "hello") no_fields;
  agent_urn = "urn:agent:local";
  console_urn = console;
  deadline = "soon";
  whole = null;
}

abbrev handled_state : Outcome (Option Response) × Bridge × ℕ
handled_state = handle toy toy_store settings message 2 bridge 0

abbrev claimed_state : Option Turn × Bridge × ℕ
claimed_state = claim_turn toy toy_store settings 3 (handled_state.1) (handled_state.2)

abbrev first_answer : Response × Bridge × ℕ
first_answer = resolve toy toy_store settings request 2 bridge 0

abbrev later_state : Option Turn × Bridge × ℕ
later_state = claim_turn toy toy_store settings 3 (first_answer.1) (first_answer.2)

abbrev row : Cached
row = record { fingerprint = "canonical"; owner_principal = "owner"; response = first_answer.0 }

abbrev other_row : Bridge
other_row = record bridge {
  requests =
      (
        console <> "\0" <> "r1",
        record { fingerprint = "other"; owner_principal = "owner"; response = first_answer.0 },
      )
      ∷ [];
}

abbrev revoked_bridge : Bridge
revoked_bridge = record bridge { pairings = (console, record pairing { revoked = true }) ∷ [] }

pair_runs :
    pair toy console "owner" ("conversation.send" ∷ []) "soon" 1 new_bridge ≡ ok (pairing, bridge)
unfolding pair put is_urn sort_set
pair_runs = refl

revoke_runs : revoke toy console bridge ≡ ok revoked_bridge
unfolding revoke put get is_urn
revoke_runs = refl

claim_runs : running_turns (claimed_state.1) ≡ 1
unfolding handle put rows get claim_turn parse is_identifier is_urn gate authorized invoke send
    is_space sort_turns
claim_runs = refl

paired_then_handled_then_claimed :
    Steps toy toy_store (new_bridge, 0) (claimed_state.1, claimed_state.2)
paired_then_handled_then_claimed =
    next
      (next
        (next (begin (new_bridge, 0)) (
          paired console "owner" ("conversation.send" ∷ []) "soon" 1 new_bridge bridge 0 pairing
            pair_runs))
        (handled settings message 2 bridge 0))
      (claimed settings 3 (handled_state.1) (handled_state.2))

at_most_one_runs_example : IsSound (claimed_state.1)
at_most_one_runs_example =
    at_most_one_runs toy toy_store (claimed_state.1) 0 (claimed_state.2)
      paired_then_handled_then_claimed

replay_lasts_example :
    resolve toy toy_store settings request 4 (later_state.1) (later_state.2)
    ≡ (first_answer.0, later_state.1, later_state.2)
unfolding resolve put rows get claim_turn is_identifier is_urn gate authorized invoke send is_space
    sort_turns
replay_lasts_example =
    replay_lasts toy toy_store settings settings request 2 4 bridge (later_state.1) 0
      (later_state.2) row pairing refl refl
      (next (begin (first_answer.1, first_answer.2))
        (claimed settings 3 (first_answer.1) (first_answer.2)))
      (refl, (refl, ((100, (refl, omega arith)), (tt, refl)))) refl (λ e. refl)

abbrev after_revoke : Outcome (Option Response) × Bridge × ℕ
after_revoke = handle toy toy_store settings message 2 revoked_bridge 0

revoke_lasts_example :
    ((resolve toy toy_store settings request 3 (after_revoke.1) (after_revoke.2)).0.is_result
      ≡ false)
    × (((resolve toy toy_store settings request 3 (after_revoke.1) (after_revoke.2)).1
          ≡ after_revoke.1)
        × (((resolve toy toy_store settings request 3 (after_revoke.1) (after_revoke.2)).2
              ≡ after_revoke.2)
            × IsUndisclosed toy toy_store
                (delivered toy settings request 100 3 (some (first_answer.0)) (after_revoke.1))))
revoke_lasts_example =
    revoke_lasts toy toy_store console bridge revoked_bridge (after_revoke.1) 0 (after_revoke.2)
      revoke_runs (next (begin (revoked_bridge, 0)) (handled settings message 2 revoked_bridge 0))
      refl settings request 100 3 (some (first_answer.0)) refl

authorized_iff_example :
    (authorized toy settings console "conversation.send" 2 bridge ≡ ok pairing)
    ↔ Allows toy settings console "conversation.send" 2 bridge pairing
authorized_iff_example = authorized_iff toy settings console "conversation.send" 2 bridge pairing

no_pairing : (p : Pairing) → ¬ Allows toy settings console "conversation.send" 2 new_bridge p
unfolding get
no_pairing p (e, _) = absurd (ground arith)

resolve_denied_example :
    ((resolve toy toy_store settings request 2 new_bridge 7).0.is_result ≡ false)
    × (((resolve toy toy_store settings request 2 new_bridge 7).1 ≡ new_bridge)
        × ((resolve toy toy_store settings request 2 new_bridge 7).2 ≡ 7))
resolve_denied_example = resolve_denied toy toy_store settings request 2 new_bridge 7 no_pairing

delivered_denied_example :
    IsUndisclosed toy toy_store
      (delivered toy settings request 100 2 (some (first_answer.0)) new_bridge)
delivered_denied_example =
    delivered_denied toy toy_store settings request 100 2 (some (first_answer.0)) new_bridge
      no_pairing

claim-IsGranted_example :
    (any (λ i. is_running i.status) (rows (with_turn submitted).turns) ≡ false)
    × (IsGranted toy settings 3
          ((claim toy settings 3 (with_turn submitted)).bridge)
          (record (owner_turn running) { updated_at = 3 })
        × IsStart toy
            (λ i. get (with_turn submitted).turns i.turn_id ≡ some i)
            3
            (record (owner_turn running) { updated_at = 3 }))
unfolding claim get rows put authorized sort_turns
claim-IsGranted_example =
    claim-IsGranted toy settings 3 (with_turn submitted)
      (record (owner_turn running) { updated_at = 3 }) ((tt, tt), (refl, tt)) refl

ended_stays_example :
    (get ((claim toy settings 3 (with_turn completed)).bridge.turns) "t1"
      ≡ some (owner_turn completed))
    × ((get ((finish "t1" none none true 3 (with_turn completed)).1.turns) "t1"
          ≡ some (owner_turn completed))
        × (get ((recover 3 (with_turn completed)).turns) "t1" ≡ some (owner_turn completed)))
unfolding get
ended_stays_example =
    ended_stays toy settings 3 "t1" none none true (with_turn completed) "t1" (owner_turn completed)
      ((tt, tt), (refl, tt)) refl refl

abbrev abandoned : Turn
abandoned = abandon 5 (owner_turn running)

recover_none_example : is_running abandoned.status ≡ false
unfolding get recover put rows
recover_none_example = recover_none 5 (with_turn running) "t1" abandoned ((tt, tt), (refl, tt)) refl
