-- ===== src/Policy/Fields.antt =====
-- `_object`, `_string`, `_identifier`, `_ids` and `_integer` of policy.py. A value that a dict does
-- not have is `none`; `_object` has been called before, so it stands for no run of the source.
use agent_comm.Prelude.{
  ℕ, String, Bool, not, ◌&&◌, ◌||◌, Option, some, List, [], ◌∷◌, codes, length, is_empty, any, all,
  minus, ltb, leb, ◌==◌, if◌then◌else◌, ◌<>◌, sort_set,
}
use agent_comm.Json.{pos, Json, Fields, str, int, arr, obj, keys, items}
use agent_comm.Policy.Fault.{
  Check, ok, fault, raise_if, not_object, unsupported_fields, missing_fields, bad_string,
  control_characters, not_identifier, bad_list, unsupported_capability, bad_integer, ◌>>=◌, ◌>>◌,
}

abbrev pub capabilities : List String
capabilities =
    "accept_meeting" ∷ "propose_meeting" ∷ "send_text" ∷ "share_resource" ∷ "share_slots" ∷ []

-- The checks of `_object` on a dict. `fields` is sorted; the keys of a JSON object are texts.
unfoldable pub check_fields : Fields → List String → String → List String → Check (Unit {0})
check_fields fs fields path optional = do
  let extra = minus (sort_set (keys fs)) fields
  raise_if (not (is_empty extra)) (unsupported_fields path extra)
  let absent = minus (minus fields (keys fs)) optional
  raise_if (not (is_empty absent)) (missing_fields path absent)

-- `_object(value, fields, path, optional=...)`; the dict comes back, for the reads that follow.
unfoldable pub object : Option Json → List String → String → List String → Check Fields
unfolding check_fields
object (some (obj fs)) fields path optional = do check_fields fs fields path optional; ok fs
object _ fields path optional = fault (not_object path)

-- `str.isspace` of one character.
unfoldable pub is_space : ℕ → Bool
is_space c =
    leb 0x09 c && leb c 0x0d
    || leb 0x1c c && leb c 0x20
    || c == 0x85
    || c == 0xa0
    || c == 0x1680
    || leb 0x2000 c && leb c 0x200a
    || c == 0x2028
    || c == 0x2029
    || c == 0x202f
    || c == 0x205f
    || c == 0x3000

-- `ord(char) < 32 and char not in "\n\t"`
unfoldable pub is_control : ℕ → Bool
is_control c = ltb c 32 && not (c == 10 || c == 9)

-- `_string(value, path, maximum)`. A text of the model has no lone surrogate, so `encode` succeeds.
unfoldable pub string : Option Json → String → ℕ → Check String
unfolding is_space is_control
string (some (str s)) path maximum = do
  let cs = codes s
  raise_if (all is_space cs || ltb maximum (length cs)) (bad_string path maximum)
  raise_if (any is_control cs) (control_characters path)
  ok s
string _ path maximum = fault (bad_string path maximum)

-- `_identifier(value, path)`
unfoldable pub identifier : Option Json → String → Check String
unfolding string
identifier v path = do
  s ← string v path 256
  raise_if (any is_space (codes s) || ltb 256 (length (codes s))) (not_identifier path)
  ok s

unfoldable pub identifiers : List Json → String → Check (List String)
unfolding identifier
identifiers [] path = ok []
identifiers (x ∷ xs) path = do s ← identifier (some x) path; ss ← identifiers xs path; ok (s ∷ ss)

-- `_ids(value, path, nonempty=..., capabilities=...)`
unfoldable pub ids : Option Json → String → Bool → Bool → Check (List String)
unfolding identifiers sort_set
ids (some (arr xs)) path nonempty are_capabilities = do
  let values = items xs
  raise_if (ltb 128 (length values) || nonempty && is_empty values) (bad_list path nonempty)
  names ← identifiers values (path <> "[]")
  let result = sort_set names
  raise_if (are_capabilities && not (is_empty (minus result capabilities)))
      (unsupported_capability path)
  ok result
ids _ path nonempty are_capabilities = fault (bad_list path nonempty)

-- `_integer(value, path, minimum, maximum)`; a `bool` is no `int` here.
unfoldable pub integer : Option Json → String → ℕ → ℕ → Check ℕ
integer (some (int (pos n))) path minimum maximum =
    if leb minimum n && leb n maximum then ok n else fault (bad_integer path minimum maximum)
integer _ path minimum maximum = fault (bad_integer path minimum maximum)
