-- ===== src/Policy/Message.antt =====
-- `compile_message` of policy.py: the complete text that an action sends.
pub mod Snapshot
pub mod Tests
use agent_comm.Prelude.{
  ℕ, suc, String, Bool, true, false, not, ◌&&◌, ◌||◌, Option, none, some, List, [], ◌∷◌, ◌<>◌, same,
  all, leb, length, ◌==◌, codes, map, show, if◌then◌else◌,
}
use agent_comm.Json.{Json, Items, Fields, str, arr, obj, nil, cons, lookup}
use agent_comm.Runtime.{Runtime}
use agent_comm.Policy.Fault.{Fault, Check, ok, fault}
use agent_comm.Policy.Fields.{string}
use agent_comm.Policy.Time.{Interval}
use agent_comm.Policy.Action.{
  Action, Payload, Meeting, share_slots, share_resource, propose_meeting, accept_meeting, send_text,
  validate_action,
}

-- The text, a `_ValidationError`, or one of the `ValueError`s of the function itself.
pub data Compiled : Type 0 where
  compiled : String → Compiled
  invalid : Fault → Compiled
  not_mapping missing_snapshot bad_digest content_differs : Compiled

-- `re.fullmatch(r"[0-9a-f]{64}", digest)`
unfoldable pub is_digest : String → Bool
is_digest s =
    let cs = codes s in
    length cs == 64 && all (λ c. leb b'0' c && leb c b'9' || leb b'a' c && leb c b'f') cs

-- The value is this text.
unfoldable pub is_exactly : Option Json → String → Bool
is_exactly (some (str s)) t = same s t
is_exactly _ t = false

quoted_ids : List String → Json
quoted_ids ids = arr (go ids)
  where
    go : List String → Items
    go [] = nil
    go (x ∷ xs) = cons (str x) (go xs)

-- `json.dumps` of the quotations, and the ISO form of an instant in UTC, are given.
module _ (R : Runtime) (quoted : Json → String) (iso : ℕ → String) where
  -- The digest of the snapshot, and then its text.
  unfoldable pub digested : Option Json → String → String → Compiled
  unfolding is_digest
  digested (some (str digest)) title text =
      if not (is_digest digest)
      then bad_digest
      else if not (same (R.sha256 text) digest)
      then content_differs
      else compiled (title <> ("\n\n" <> text))
  digested _ title text = bad_digest

  unfoldable pub snapshot : Fields → Compiled
  unfolding digested string
  snapshot resource = elim (string (lookup "title" resource) "resource.title" 200) [
    | fault e ↦ invalid e
    | ok title ↦ elim (string (lookup "text" resource) "resource.text" 8000) [
      | fault e ↦ invalid e
      | ok text ↦ digested (lookup "sha256" resource) title text
    ]
  ]

  -- `resources.get(resource_id)` and its checks.
  unfoldable pub registered : String → Option Json → Compiled
  unfolding snapshot is_exactly
  registered id (some (obj resource)) =
      if is_exactly (lookup "resource_id" resource) id then snapshot resource else missing_snapshot
  registered id _ = missing_snapshot

  resource_text : String → Json → Compiled
  unfolding registered
  resource_text id (obj resources) = registered id (lookup id resources)
  resource_text id _ = not_mapping

  -- The numbered lines of the slots, from the number `n`.
  slot_lines : ℕ → List Interval → String
  slot_lines n [] = ""
  slot_lines n (i ∷ []) = show n <> (". " <> (iso i.start <> (" 至 " <> iso i.end)))
  slot_lines n (i ∷ j ∷ is) =
      show n
      <> (". " <> (iso i.start <> (" 至 " <> (iso i.end <> ("\n" <> slot_lines (suc n) (j ∷ is))))))

  meeting_text : String → Meeting → String
  unfolding quoted_ids
  meeting_text verb m =
      verb
      <> ("："
          <> (quoted (str m.proposal_id)
              <> ("，版本 "
                  <> (show m.version
                      <> ("\n主题："
                          <> (quoted (str m.topic)
                              <> ("\n参与人 ID："
                                  <> (quoted (quoted_ids m.participant_ids)
                                      <> ("\n时间（UTC）："
                                          <> (iso m.interval.start
                                              <> (" 至 " <> iso m.interval.end)))))))))))

  -- The branches on the capability.
  unfoldable pub text_for : Payload → Json → Compiled
  unfolding resource_text slot_lines meeting_text
  text_for (send_text text) resources = compiled text
  text_for (share_resource id) resources = resource_text id resources
  text_for (share_slots is) resources = compiled ("可选时段（UTC）：\n" <> slot_lines 1 is)
  text_for (propose_meeting m) resources = compiled (meeting_text "提出会议方案" m)
  text_for (accept_meeting m) resources = compiled (meeting_text "接受以下会议方案" m)

  -- `compile_message(action, resources)`
  unfoldable pub compile_message : Json → Json → Compiled
  unfolding text_for
  compile_message action resources = elim (validate_action action) [
    | fault e ↦ invalid e
    | ok a ↦ text_for a.payload resources
  ]
