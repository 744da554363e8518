-- ===== src/Policy/Encode.antt =====
-- The dicts that `validate_scope` and `validate_action` of policy.py return, as JSON: their times are
-- texts in UTC, which `parsed.isoformat()` makes.
use agent_comm.Prelude.{ℕ, String, Option, none, some, List, [], ◌∷◌, map}
use agent_comm.Json.{Json, Items, Fields, pos, int, str, arr, obj, nil, cons, no_fields, field}
use agent_comm.Policy.Time.{Interval}
use agent_comm.Policy.Scope.{Scope}
use agent_comm.Policy.Action.{
  Action, Payload, Meeting, share_slots, share_resource, propose_meeting, accept_meeting, send_text,
  capability,
}

abbrev pub list_json : List Json → Json
list_json xs = arr (go xs)
  where
    go : List Json → Items
    go [] = nil
    go (y ∷ ys) = cons y (go ys)

abbrev pub texts_json : List String → Json
texts_json ss = list_json (map str ss)

abbrev pub nat_json : ℕ → Json
nat_json n = int (pos n)

module _ (iso : ℕ → String) where
  time_json : ℕ → Json
  time_json t = str (iso t)

  -- The fields of an interval, in front of others.
  interval_fields : Interval → Fields → Fields
  unfolding time_json
  interval_fields i fs = field "start" (time_json i.start) (field "end" (time_json i.end) fs)

  unfoldable pub interval_json : Interval → Json
  unfolding interval_fields
  interval_json i = obj (interval_fields i no_fields)

  windows_field : Option (List Interval) → Fields
  unfolding interval_json
  windows_field none = no_fields
  windows_field (some ws) = field "allowed_windows" (list_json (map interval_json ws)) no_fields

  -- What `validate_scope` returns.
  unfoldable pub scope_json : Scope → Json
  unfolding time_json windows_field
  scope_json s = obj (
      field "purpose" (str s.purpose) (
        field "topic" (str s.topic) (
          field "capabilities" (texts_json s.capabilities) (
            field "recipient_ids" (texts_json s.recipient_ids) (
              field "participant_ids" (texts_json s.participant_ids) (
                field "resource_ids" (texts_json s.resource_ids) (
                  field "window_start" (time_json s.window_start) (
                    field "window_end" (time_json s.window_end) (
                      field "expires_at" (time_json s.expires_at) (
                        field "max_duration_minutes" (nat_json s.max_duration_minutes) (
                          field "max_candidates" (nat_json s.max_candidates) (
                            field "max_actions" (nat_json s.max_actions)
                              (windows_field s.allowed_windows)))))))))))))

  meeting_fields : Meeting → Fields
  unfolding interval_fields
  meeting_fields m = field "proposal_id" (str m.proposal_id) (
      field "version" (nat_json m.version) (
        field "topic" (str m.topic) (
          field "participant_ids" (texts_json m.participant_ids)
            (interval_fields m.interval no_fields))))

  -- `action["payload"]`
  unfoldable pub payload_json : Payload → Json
  unfolding interval_json meeting_fields
  payload_json (share_slots is) = obj (field "slots" (list_json (map interval_json is)) no_fields)
  payload_json (share_resource id) = obj (field "resource_id" (str id) no_fields)
  payload_json (propose_meeting m) = obj (meeting_fields m)
  payload_json (accept_meeting m) = obj (meeting_fields m)
  payload_json (send_text text) = obj (field "text" (str text) no_fields)

  -- What `validate_action` returns.
  unfoldable pub action_json : Action → Json
  unfolding payload_json
  action_json a = obj (
      field "capability" (str (capability a.payload)) (
        field "recipient_ids" (texts_json a.recipient_ids)
          (field "payload" (payload_json a.payload) no_fields)))
