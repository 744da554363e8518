-- ===== src/Attention.antt =====
-- `_attention_put` and `record_conversation_event` of python/agent_comm_runtime/attention.py.
pub mod Revisions
pub mod Events
pub mod Tests
use agent_comm.Prelude.{
  ℕ, ◌+◌, String, Bool, true, false, not, ◌&&◌, ◌||◌, Option, none, some, List, [], ◌∷◌, ◌<>◌, same,
  ltb, ◌==◌, map, if◌then◌else◌,
}
use agent_comm.Json.{Json, str, arr}
use agent_comm.Runtime.{Runtime}
use agent_comm.Table.{Table, get, put}
use agent_comm.Remote.State.{
  Turn, TurnStatus, submitted, running, completed, failed, interrupted, Outcome, ok, value_error,
  raise_if, ◌>>=◌, ◌>>◌,
}
use agent_comm.Remote.Invoke.{to_items}

-- What `_attention_put` is given. A source revision is a text; an integer is its digits.
-- `source_revision`: an integer or a text.
pub data SourceRevision : Type 0 where
  numbered : ℕ → SourceRevision
  named : String → SourceRevision

pub record Notice : Type 0 where
  pub owner : String
  pub source_kind : String
  pub source_id : String
  pub kind : String
  pub subject_id : String
  pub title : String
  pub state : String
  pub task_id : Option String
  pub source_revision : SourceRevision
  pub target_kind : String
  pub summary : String
  pub expires_at : Option ℕ
  pub approval_id : Option String
  pub created_at : Option ℕ
  pub turn_id : Option String
  pub updated_at : Option ℕ

-- The fields of a row of kind "attention", but for its revision and its times.
pub record Content : Type 0 where
  pub attention_id : String
  pub owner_id : String
  pub kind : String
  pub subject_id : String
  pub source_revision : SourceRevision
  pub state : String
  pub title : String
  pub safe_summary : String
  pub target_kind : String
  pub target_id : String
  pub source_kind : String
  pub source_id : String
  pub task_id : Option String
  pub turn_id : Option String
  pub expires_at : Option ℕ
  pub approval_id : Option String

pub record Row : Type 0 where
  pub content : Content
  pub revision : ℕ
  pub created_at : ℕ
  pub updated_at : ℕ

-- A row of kind "conversation_turn".
pub record Source : Type 0 where
  pub turn_id : String
  pub conversation_id : String
  pub status : TurnStatus
  pub created_at : ℕ
  pub updated_at : ℕ
  pub owner_id : String

-- The rows of kinds "attention", "attention_counter" and "conversation_turn".
pub record Feed : Type 0 where
  pub items : Table Row
  pub counters : Table ℕ
  pub turns : Table Source

same_text : Option String → Option String → Bool
same_text none none = true
same_text (some s) (some t) = same s t
same_text _ _ = false

same_time : Option ℕ → Option ℕ → Bool
same_time none none = true
same_time (some s) (some t) = s == t
same_time _ _ = false

same_revision : SourceRevision → SourceRevision → Bool
same_revision (numbered n) (numbered m) = n == m
same_revision (named s) (named t) = same s t
same_revision _ _ = false

-- `old_content == value`
unfoldable pub same_content : Content → Content → Bool
unfolding same_text same_time same_revision
same_content c d =
    same c.attention_id d.attention_id
    && same c.owner_id d.owner_id
    && same c.kind d.kind
    && same c.subject_id d.subject_id
    && same_revision c.source_revision d.source_revision
    && same c.state d.state
    && same c.title d.title
    && same c.safe_summary d.safe_summary
    && same c.target_kind d.target_kind
    && same c.target_id d.target_id
    && same c.source_kind d.source_kind
    && same c.source_id d.source_id
    && same_text c.task_id d.task_id
    && same_text c.turn_id d.turn_id
    && same_time c.expires_at d.expires_at
    && same_text c.approval_id d.approval_id

abbrev or_else : ℕ → Option ℕ → ℕ
or_else d none = d
or_else d (some n) = n

-- `task_id if target_kind == "task" and task_id else subject_id`
target_of : Notice → String
target_of n = elim n.task_id [
  | none ↦ n.subject_id
  | some t ↦ if same n.target_kind "task" && not (same t "") then t else n.subject_id
]

-- `previous` has the same content.
abbrev unchanged : Option Row → Content → Bool
unchanged none c = false
unchanged (some r) c = same_content r.content c

-- `(previous or {}).get("created_at", ...)`
abbrev created : Option Row → ℕ → ℕ
created none t = t
created (some r) t = r.created_at

abbrev max_cursor : ℕ
max_cursor = 9007199254740991

module _ (R : Runtime) where
  open R use {sha256, canonical, take}

  -- `_key(*parts)`
  key : List String → String
  key parts = sha256 (canonical (arr (to_items (map str parts))))

  unfoldable pub attention_id : Notice → String
  unfolding key
  attention_id n = "attention-" <> take 48 (key (n.owner ∷ n.source_kind ∷ n.source_id ∷ []))

  unfoldable pub content_of : Notice → Content
  unfolding attention_id target_of
  content_of n = record {
    attention_id = attention_id n;
    owner_id = n.owner;
    kind = n.kind;
    subject_id = n.subject_id;
    source_revision = n.source_revision;
    state = n.state;
    title = n.title;
    safe_summary = n.summary;
    target_kind = n.target_kind;
    target_id = target_of n;
    source_kind = n.source_kind;
    source_id = n.source_id;
    task_id = n.task_id;
    turn_id = n.turn_id;
    expires_at = n.expires_at;
    approval_id = n.approval_id;
  }

  unfoldable pub owner_key : String → String
  unfolding key
  owner_key owner = key (owner ∷ [])

  -- The revision that the owner's feed is at.
  unfoldable pub counter_of : String → Feed → ℕ
  counter_of owner f = or_else 0 (get f.counters (owner_key owner))

  unfoldable pub new_row : ℕ → Notice → Feed → Row
  unfolding content_of counter_of
  new_row now n f = record {
    content = content_of n;
    revision = counter_of n.owner f + 1;
    created_at = created (get f.items (attention_id n)) (or_else now n.created_at);
    updated_at = or_else now n.updated_at;
  }

  -- `_attention_put(...)`
  unfoldable pub attention_put : ℕ → Notice → Feed → Outcome Feed
  unfolding new_row counter_of owner_key content_of attention_id
  attention_put now n f =
      if same n.owner "" || unchanged (get f.items (attention_id n)) (content_of n)
      then ok f
      else (do
        raise_if (ltb max_cursor (counter_of n.owner f + 1))
            (value_error "Attention revision exhausted")
        ok (record f {
          items = put (attention_id n) (new_row now n f) f.items;
          counters = put (owner_key n.owner) (counter_of n.owner f + 1) f.counters;
        }))

-- `status in {"completed", "failed", "interrupted"}`
abbrev pub is_terminal : TurnStatus → Bool
is_terminal completed = true
is_terminal failed = true
is_terminal interrupted = true
is_terminal _ = false

abbrev pub status_text : TurnStatus → String
status_text submitted = "submitted"
status_text running = "running"
status_text completed = "completed"
status_text failed = "failed"
status_text interrupted = "interrupted"

-- The source row of a turn.
abbrev pub source_of : Turn → Source
source_of j = record {
  turn_id = j.turn_id;
  conversation_id = j.conversation_id;
  status = j.status;
  created_at = j.created_at;
  updated_at = j.updated_at;
  owner_id = j.owner_principal;
}

unfoldable pub same_source : Source → Source → Bool
same_source a b =
    same a.turn_id b.turn_id
    && same a.conversation_id b.conversation_id
    && same (status_text a.status) (status_text b.status)
    && a.created_at == b.created_at
    && a.updated_at == b.updated_at
    && same a.owner_id b.owner_id

kind_of : TurnStatus → String
kind_of completed = "conversation_completed"
kind_of failed = "conversation_failed"
kind_of interrupted = "conversation_failed"
kind_of _ = "conversation_progress"

title_of : TurnStatus → String
title_of completed = "对话回合已结束"
title_of failed = "对话处理结果需要查看"
title_of interrupted = "对话处理结果需要查看"
title_of _ = "对话正在处理"

summary_of : TurnStatus → String
summary_of completed = "Agent 已结束这一回合；请回到原对话查看实际回复。"
summary_of interrupted = "Agent 在处理过程中重启或停止，执行结果不确定；请核对原回合，不要重复提交。"
summary_of failed = "这一回合未正常完成；请查看原回合的原因和已发生的动作。"
summary_of _ = "请等待这一回合的实际结果。"

-- The notice of a turn.
unfoldable pub notice_of : Turn → Notice
unfolding kind_of title_of summary_of
notice_of j = record {
  owner = j.owner_principal;
  source_kind = "conversation_turn";
  source_id = j.turn_id;
  kind = kind_of j.status;
  subject_id = j.conversation_id;
  title = title_of j.status;
  state = if is_terminal j.status then "open" else "resolved";
  task_id = none;
  source_revision = named (status_text j.status);
  target_kind = "conversation";
  summary = summary_of j.status;
  expires_at = none;
  approval_id = none;
  created_at = some j.created_at;
  turn_id = some j.turn_id;
  updated_at = some j.updated_at;
}

-- The row of the turn is this one, or is of a turn that ended.
unfoldable pub is_settled : Option Source → Source → Bool
unfolding same_source
is_settled none s = false
is_settled (some old) s = same_source old s || is_terminal old.status

module _ (R : Runtime) where
  -- `record_conversation_event(job)`
  unfoldable pub record_conversation_event : ℕ → Turn → Feed → Outcome Feed
  unfolding attention_put notice_of is_settled
  record_conversation_event now j f =
      if is_settled (get f.turns j.turn_id) (source_of j)
      then ok f
      else attention_put R now (notice_of j)
          (record f { turns = put j.turn_id (source_of j) f.turns })
