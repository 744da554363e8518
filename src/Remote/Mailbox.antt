-- ===== src/Remote/Mailbox.antt =====
-- `select_inbox_batch` of remote.py.
use agent_comm.Prelude.{
  ℕ, zero, suc, String, not, Option, none, some, List, [], ◌∷◌, ◌++◌, before, filter, leb, ◌&&◌,
  if◌then◌else◌,
}
use agent_comm.Json.{Json, Fields, obj, lookup}
use agent_comm.Remote.Parse.{text_of}
use agent_comm.Remote.State.{Bridge, Outcome, ok, value_error, raise_if, ◌>>◌}

-- A message that is an object with a text as its `message_id`.
pub record Item : Type 0 where
  pub message_id : String
  pub whole : Fields

-- `(m for m in messages if isinstance(m, dict) and isinstance(m.get("message_id"), str))`
unfoldable pub readable : List Json → List Item
readable [] = []
readable (obj fs ∷ ms) =
    let rest = readable ms in
    elim (text_of (lookup "message_id" fs)) [
      | none ↦ rest
      | some id ↦ record { message_id = id; whole = fs } ∷ rest
    ]
readable (_ ∷ ms) = readable ms

place : Item → List Item → List Item
place m [] = m ∷ []
place m (n ∷ ns) =
    let rest = place m ns in if before n.message_id m.message_id then n ∷ rest else m ∷ n ∷ ns

-- `sorted(..., key=lambda m: m["message_id"])`
unfoldable pub sort_items : List Item → List Item
unfolding place
sort_items [] = []
sort_items (m ∷ ms) = place m (sort_items ms)

unfoldable pub first : ℕ → List Item → List Item
first zero ms = []
first (suc n) [] = []
first (suc n) (m ∷ ms) = m ∷ first n ms

-- `batch[-1]["message_id"]`
unfoldable pub last_id : String → List Item → String
last_id default [] = default
last_id default (m ∷ ms) = last_id m.message_id ms

-- `(cursor or {"last_id": ""})["last_id"]`
abbrev pub cursor_of : Option String → String
cursor_of none = ""
cursor_of (some id) = id

-- `after + before` at a cursor
unfoldable pub rotate : String → List Item → List Item
rotate cursor ms =
    filter (λ m. before cursor m.message_id) ms ++ filter (λ m. not (before cursor m.message_id)) ms

-- `select_inbox_batch(messages, limit)`
unfoldable pub select_inbox_batch : List Json → ℕ → Bridge → Outcome (List Item × Bridge)
unfolding readable sort_items first last_id rotate
select_inbox_batch messages limit b = do
  raise_if (not (leb 1 limit && leb limit 100))
      (value_error "Inbox batch limit must be from 1 through 100")
  let ordered = sort_items (readable messages)
  let batch = first limit (rotate (cursor_of b.cursor) ordered)
  elim ordered [
    | [] ↦ ok ([], b)
    | _ ∷ _ ↦ ok (batch, record b { cursor = some (last_id "" batch) })
  ]
