-- ===== src/Policy/Render.antt =====
-- `render_scope` and `render_action` of policy.py, on what their validation returns: the texts that
-- the owner is asked to confirm.
use agent_comm.Prelude.{
  ℕ, ◌+◌, String, Option, none, some, List, [], ◌∷◌, ◌<>◌, show, same, map, if◌then◌else◌,
}
use agent_comm.Json.{Json, str}
use agent_comm.Policy.Time.{Interval}
use agent_comm.Policy.Scope.{Scope}
use agent_comm.Policy.Action.{Action, capability}
use agent_comm.Policy.Encode.{texts_json, payload_json}

-- `separator.join(texts)`
abbrev pub join : String → List String → String
join separator [] = ""
join separator (s ∷ []) = s
join separator (s ∷ t ∷ ts) = s <> (separator <> join separator (t ∷ ts))

-- `_LABELS[item]`
unfoldable pub label : String → String
label c =
    if same c "share_slots"
    then "分享候选空档"
    else if same c "share_resource"
    then "分享指定资料全文"
    else if same c "propose_meeting"
    then "提出会议方案"
    else if same c "accept_meeting"
    then "接受会议方案"
    else "发送自由文本（每次须确认确切全文）"

-- `f"{_LABELS[item]} [{item}]"`
labelled : String → String
unfolding label
labelled c = label c <> (" [" <> (c <> "]"))

module _ (quoted : Json → String) (iso : ℕ → String) where
  numbered : ℕ → List Interval → List String
  numbered n [] = []
  numbered n (w ∷ ws) =
      (show n <> (". " <> (iso w.start <> (" 至 " <> iso w.end)))) ∷ numbered (n + 1) ws

  windows_text : Option (List Interval) → String
  unfolding numbered
  windows_text none = "未指定分段允许时段：以上时间范围内的每一天、每个小时均可使用，不自动排除夜间或周末。"
  windows_text (some ws) = "实际允许时段（UTC；每个候选/会议须完整落在下列某一个时段内）：\n" <> join "\n" (numbered 1 ws)

  unfoldable pub render_scope : Scope → String
  unfolding windows_text labelled
  render_scope s = join "\n" (
      ("委托目的：" <> quoted (str s.purpose))
      ∷ "目的文字只是说明，不构成机器可检查的限制；例如工作日下午须明确列出实际允许时段。"
      ∷ ("会议主题（须精确相同）：" <> quoted (str s.topic))
      ∷ ("允许能力：" <> join "、" (map labelled s.capabilities))
      ∷ ("收件人 ID：" <> quoted (texts_json s.recipient_ids))
      ∷ ("参与人 ID：" <> quoted (texts_json s.participant_ids))
      ∷ ("可分享资料 ID（确切全文由宿主附上）：" <> quoted (texts_json s.resource_ids))
      ∷ ("候选/会议时间范围（UTC）：" <> (iso s.window_start <> (" 至 " <> iso s.window_end)))
      ∷ windows_text s.allowed_windows
      ∷ ("单次时长上限："
          <> (show s.max_duration_minutes <> (" 分钟；每位收件人的累计候选上限：" <> show s.max_candidates)))
      ∷ ("累计动作上限：" <> (show s.max_actions <> ("；委托到期（UTC）：" <> iso s.expires_at)))
      ∷ "自由文本每次另行确认确切全文；本委托不包括支付、日历写入或其它未列出的执行能力。"
      ∷ [])

  unfoldable pub render_action : Action → String
  unfolding labelled
  render_action a = join "\n" (
      ("动作：" <> labelled (capability a.payload))
      ∷ ("收件人 ID：" <> quoted (texts_json a.recipient_ids))
      ∷ ("确切参数：" <> quoted (payload_json iso a.payload))
      ∷ [])
