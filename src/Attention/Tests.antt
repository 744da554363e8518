-- ===== src/Attention/Tests.antt =====
-- Runs of the feed (attention.py), and concrete uses of its theorems.
use agent_comm.Prelude.{String, none, [], ◌<>◌, ◌≡◌, refl, arith}
use agent_comm.Json.{arr, Items, nil, cons, str}
use agent_comm.Runtime.{Runtime}
use agent_comm.Table.{get, put}
use agent_comm.Remote.State.{
  Turn, TurnStatus, submitted, running, completed, failed, Outcome, ok, raised,
}
use agent_comm.Attention.{
  same_content, is_settled, Feed, attention_put, counter_of, notice_of, record_conversation_event,
}
use agent_comm.Attention.Revisions.{IsBehind, IsMove, put_moves}
use agent_comm.Attention.Events.{begin, then_record, record_final}

abbrev joined : Items → String
joined nil = ""
joined (cons (str s) xs) = s <> ("," <> joined xs)
joined (cons _ xs) = joined xs

-- A runtime whose hash is the text that is hashed.
abbrev plain : Runtime
plain = record {
  instant = λ s. none;
  loads = λ s. none;
  canonical = λ j. elim j [ arr xs ↦ joined xs | _ ↦ "" ];
  sha256 = λ s. s;
  take = λ n s. s;
}

abbrev turn : TurnStatus → Turn
turn status = record {
  turn_id = "t1";
  conversation_id = "c1";
  console_urn = "urn:agent:console";
  owner_principal = "owner";
  status = status;
  text = "hello";
  mentions = [];
  response = none;
  error = none;
  created_at = 1;
  updated_at = 2;
}

abbrev empty : Feed
empty = record { items = []; counters = []; turns = [] }

abbrev result : Outcome Feed → Feed
result (ok f) = f
result (raised e) = empty

abbrev noticed : Feed
noticed = result (attention_put plain 5 (notice_of (turn running)) empty)

abbrev ended : Feed
ended = result (record_conversation_event plain 5 (turn completed) noticed)

ends : record_conversation_event plain 5 (turn completed) noticed ≡ ok ended
unfolding record_conversation_event get put same_content notice_of is_settled
ends = refl

put_runs : counter_of plain "owner" ended ≡ 2
unfolding record_conversation_event get put same_content
put_runs = refl

empty-IsBehind : IsBehind plain empty
unfolding get
empty-IsBehind k r e = absurd (ground arith)

put_moves_example : IsBehind plain noticed × IsMove plain (notice_of (turn running)) empty noticed
unfolding attention_put get put notice_of
put_moves_example = put_moves plain 5 (notice_of (turn running)) empty noticed empty-IsBehind refl

abbrev other : Turn
other = record (turn submitted) { turn_id = "t2" }

abbrev later : Feed
later = result (record_conversation_event plain 6 other ended)

records : record_conversation_event plain 6 other ended ≡ ok later
unfolding record_conversation_event get put same_content notice_of is_settled
records = refl

record_final_example :
    (get later.turns "t1" ≡ get ended.turns "t1")
    × (record_conversation_event plain 9 (turn failed) later ≡ ok later)
record_final_example =
    record_final plain 5 9 (turn completed) (turn failed) noticed ended later ends refl
      (then_record 6 other (begin ended) records) refl
