-- ===== src/Remote/Handle.antt =====
-- `_response`, `handle` and `delivery` of remote.py.
pub mod Answer
pub mod Rows
use agent_comm.Prelude.{
  ℕ, String, Bool, true, false, not, ◌||◌, Option, none, some, ◌<>◌, same, leb, ltb, if◌then◌else◌,
}
use Prim.Native.String.{len}
use agent_comm.Json.{Json, str, obj, no_fields, field}
use agent_comm.Runtime.{Runtime}
use agent_comm.Table.{get, put}
use agent_comm.Remote.State.{
  Pairing, Bridge, Cached, Response, Outcome, ok, raised, Failure, remote_error, raise_if, ◌>>=◌,
  ◌>>◌,
}
use agent_comm.Remote.Parse.{Request, deadline_of, parse}
use agent_comm.Remote.Pairing.{Settings, authorized}
use agent_comm.Remote.Invoke.{Store, require_peer_model_safety}
use agent_comm.Remote.Route.{request_key, request_fingerprint, invoke}

module _ (R : Runtime) where
  open R use {sha256, canonical, take}

  -- The text of a response: the fields of the request, and "result" or "error".
  payload_text : Request → String → Json → String
  payload_text r name v = canonical (
      obj (
        field "protocol" (str "agent-comm-control/v1") (
          field "request_id" (str r.request_id) (
            field "method" (str r.method) (
              field "agent_urn" (str r.agent_urn) (
                field "console_urn" (str r.console_urn) (
                  field "deadline" (str r.deadline)
                    (field "type" (str "response") (field name v no_fields)))))))))

  envelope : Request → String → Bool → Response
  envelope r text is_result = record {
    message_id = "control-response-" <> take 48 (sha256 text);
    recipient_urn = r.console_urn;
    in_reply_to = r.request_id;
    conversation_id = "control:" <> r.request_id;
    deadline = r.deadline;
    text = text;
    is_result = is_result;
  }

  -- `_response(request, error=...)`. The texts of an error are short, so its response is never too
  -- large; the source would recurse forever if it were.
  unfoldable pub error_response : Request → Failure → Response
  unfolding payload_text envelope
  error_response r e =
      envelope r
        (payload_text r "error"
          (obj (field "code" (str e.code) (field "message" (str (take 500 e.message)) no_fields))))
        false

  -- `_response(request, result=...)`
  unfoldable pub result_response : Request → Json → Response
  unfolding payload_text envelope error_response
  result_response r v =
      let text = payload_text r "result" v in
      if ltb 250000 (len text)
      then error_response r
          (remote_error "result_too_large" "Narrow the requested task or conversation")
      else envelope r text true

  pub conflict : Failure
  conflict =
      remote_error "request_conflict"
        "This request ID was already used for different contents or owner"

  -- The tests of `handle` before it answers: the pairing, and the row that the request has.
  unfoldable pub gate : Settings → Request → ℕ → Bridge → Outcome (Pairing × Option Cached)
  unfolding conflict
  gate s r now b = do
    p ← authorized R s r.console_urn r.method now b
    let old = get b.requests (request_key R r)
    elim old [
      | none ↦ ok tt
      | some c ↦
          raise_if
            (not (same c.fingerprint (request_fingerprint R r))
              || not (same c.owner_principal p.owner_principal))
            conflict
    ]
    if same r.method "conversation.send"
        then require_peer_model_safety s (elim old [ none ↦ false | some _ ↦ true ])
        else ok tt
    ok (p, old)

  module _ (S : Store) where
    -- The row that `handle` writes for a result.
    store_response : Request → Pairing → Response → Bridge → Bridge
    store_response r p v b = record b {
      requests =
          put (request_key R r)
            (record {
              fingerprint = request_fingerprint R r;
              owner_principal = p.owner_principal;
              response = v;
            })
            b.requests;
    }

    answered : Request → Pairing → Outcome Json × Bridge × S.State → Response × Bridge × S.State
    unfolding store_response
    answered r p (raised e, b, σ) = (error_response r e, b, σ)
    answered r p (ok v, b, σ) = let w = result_response r v in (w, store_response r p w b, σ)

    -- The transaction of `handle(message)`, on a request whose deadline is ahead.
    unfoldable pub resolve : Settings → Request → ℕ → Bridge → S.State → Response × Bridge × S.State
    unfolding answered
    resolve s r now b σ = elim (gate s r now b) [
      | raised e ↦ (error_response r e, b, σ)
      | ok (p, some c) ↦ (c.response, b, σ)
      | ok (p, none) ↦ answered r p (invoke R S s r p now b σ)
    ]

    -- `handle(message)`: `raised` for what is no control request; no response past the deadline.
    unfoldable pub handle :
        Settings → Json → ℕ → Bridge → S.State → Outcome (Option Response) × Bridge × S.State
    unfolding resolve
    handle s message now b σ = elim (parse R s.local_urn now message) [
      | raised e ↦ (raised e, b, σ)
      | ok r ↦ elim (deadline_of R (some r.deadline)) [
        | raised e ↦ (raised e, b, σ)
        | ok t ↦
            (if leb t now
              then (ok none, b, σ)
              else let (v, b', σ') = resolve s r now b σ in (ok (some v), b', σ'))
      ]
    ]

  unfoldable pub still_owned : Settings → Request → ℕ → Bridge → Outcome (Unit {0})
  still_owned s r now b = do
    p ← authorized R s r.console_urn r.method now b
    elim (get b.requests (request_key R r)) [
      | none ↦ raised (remote_error "owner_changed" "Local pairing changed before delivery")
      | some c ↦
          raise_if (not (same c.owner_principal p.owner_principal))
            (remote_error "owner_changed" "Local pairing changed before delivery")
    ]

  -- What `delivery(message, response)` yields, for a request that has been parsed and whose deadline
  -- is the instant `t`.
  unfoldable pub delivered : Settings → Request → ℕ → ℕ → Option Response → Bridge → Option Response
  unfolding still_owned
  delivered s r t now none b = none
  delivered s r t now (some v) b =
      if leb t now
      then none
      else if v.is_result
      then elim (still_owned s r now b) [ ok _ ↦ some v | raised e ↦ some (error_response r e) ]
      else some v
