-- ===== src/Store/Requests.antt =====
-- `_contact_value`, the fingerprint of `_approval`, and the checks of `register_resource` (store.py).
use agent_comm.Prelude.{
  ℕ, String, Bool, false, not, ◌&&◌, Option, none, some, List, [], ◌∷◌, same, length, leb, sort_set,
  if◌then◌else◌,
}
use Prim.Native.Char.{code}
use Prim.Native.String.{count}
use agent_comm.Json.{Json, null, str, arr, obj, no_fields, field, lookup, items}
use agent_comm.Policy.Fields.{is_space}
use agent_comm.Policy.Encode.{texts_json, nat_json, scope_json}
use agent_comm.Remote.State.{Outcome, ok, raised, value_error, raise_if, ◌>>=◌, ◌>>◌}
use agent_comm.Remote.Parse.{text_of, required, has_exactly, identity}
use agent_comm.Store.State.{
  Env, Contact, Provenance, Resource, Subject, task_grant, operation_grant, contact_binding,
  friend_request, contact_response, direct_message, worker_policy, collaboration_v2,
}
use agent_comm.Store.Records.{principal, check_owner, check_identifier}

strip_start : String → String
strip_start String.[] = String.[]
strip_start (String.◌∷◌ c s) =
    let rest = strip_start s in if is_space (code c) then rest else String.◌∷◌ c s

strip_end : String → String
strip_end String.[] = String.[]
strip_end (String.◌∷◌ c s) =
    let rest = strip_end s in
    if same rest "" && is_space (code c) then String.[] else String.◌∷◌ c rest

-- `text.strip()`
unfoldable pub strip : String → String
unfolding strip_start strip_end is_space
strip s = strip_end (strip_start s)

-- `1 <= len(text) <= n`
abbrev has_size : ℕ → String → Bool
has_size n s = leb 1 (count s) && leb (count s) n

unfoldable pub contact_json : Contact → Json
contact_json x = obj (
    field "contact_id" (str x.contact_id) (
      field "aliases" (texts_json x.aliases)
        (field "urn" (str x.urn) (field "owner_id" (str x.owner_id) no_fields))))

-- `approval["kind"]`
unfoldable pub kind_of : Subject → String
kind_of (task_grant _ _) = "task"
kind_of (operation_grant _ _) = "operation"
kind_of (contact_binding _) = "contact"
kind_of (friend_request _) = "friend_request"
kind_of (contact_response _) = "contact_response"
kind_of (direct_message _) = "direct_message"
kind_of (worker_policy _) = "worker_policy"
kind_of (collaboration_v2 _) = "collaboration_v2"

module _ (E : Env) where
  open E use {runtime, iso}

  -- `digest(value)`
  unfoldable pub digest : Json → String
  digest v = runtime.sha256 (runtime.canonical v)

  -- `approval["payload"]`
  unfoldable pub subject_json : Subject → Json
  unfolding contact_json scope_json
  subject_json (task_grant scope revision) =
      obj (field "scope" (scope_json iso scope) (field "revision" (nat_json revision) no_fields))
  subject_json (operation_grant hash revision) =
      obj (field "hash" (str hash) (field "task_revision" (nat_json revision) no_fields))
  subject_json (contact_binding x) = contact_json x
  subject_json (friend_request v) = v
  subject_json (contact_response v) = v
  subject_json (direct_message v) = v
  subject_json (worker_policy v) = v
  subject_json (collaboration_v2 v) = v

  -- The fingerprint that `_approval` takes.
  unfoldable pub fingerprint_of : Subject → String → String → String
  unfolding digest kind_of subject_json principal
  fingerprint_of subject subject_id owner = digest (
      obj (
        field "kind" (str (kind_of subject)) (
          field "subject_id" (str subject_id) (
            field "owner" (str (principal owner))
              (field "payload" (subject_json subject) no_fields)))))

  -- `_contact_value(contact_id, aliases, urn, owner_session)`
  abbrev alias_texts : List Json → Outcome (List String)
  alias_texts [] = ok []
  alias_texts (v ∷ vs) = do
    s ← required (text_of (some v)) (value_error "Provide 1–16 nonempty local aliases")
    raise_if (not (has_size 100 (strip s))) (value_error "Provide 1–16 nonempty local aliases")
    ss ← alias_texts vs
    ok (strip s ∷ ss)

  aliases_of : Option Json → Outcome (List String)
  unfolding strip
  aliases_of (some (arr vs)) = do
    raise_if (not (leb 1 (length (items vs)) && leb (length (items vs)) 16))
        (value_error "Provide 1–16 nonempty local aliases")
    alias_texts (items vs)
  aliases_of _ = raised (value_error "Provide 1–16 nonempty local aliases")

  unfoldable pub is_local : Option String → String → Bool
  is_local none urn = false
  is_local (some own) urn = same own urn

  unfoldable pub contact_value : Option Json → Option Json → Option Json → String → Outcome Contact
  unfolding check_owner check_identifier aliases_of identity is_local sort_set principal
  contact_value given_id given_aliases given_urn owner = do
    check_owner owner
    contact_id ← required (text_of given_id) (value_error "Invalid contact_id")
    check_identifier contact_id "contact_id"
    raise_if (same contact_id "self") (
        value_error
          "contact_id 'self' is reserved for the local agent; confirm this contact using a different contact_id")
    aliases ← aliases_of given_aliases
    urn ← identity (text_of given_urn)
    raise_if (is_local E.local_urn urn)
        (value_error "Cannot add the local agent as its own contact")
    ok (record {
      contact_id = contact_id;
      aliases = sort_set aliases;
      urn = urn;
      owner_id = principal owner;
    })

  provenance_of : Option Json → Outcome (Option Provenance)
  provenance_of none = ok none
  provenance_of (some null) = ok none
  provenance_of (some (obj fs)) = do
    raise_if (not (has_exactly fs ("reference" ∷ "source" ∷ "version" ∷ [])))
        (value_error "Snapshot provenance requires reference, source and version")
    let bad = value_error "Snapshot provenance values must have 1–500 characters"
    reference ← required (text_of (lookup "reference" fs)) bad
    source ← required (text_of (lookup "source" fs)) bad
    version ← required (text_of (lookup "version" fs)) bad
    raise_if (not (has_size 500 reference && has_size 500 source && has_size 500 version)) bad
    ok (some (record { reference = reference; source = source; version = version }))
  provenance_of (some _) =
      raised (value_error "Snapshot provenance requires reference, source and version")

  -- The resource that `register_resource` makes.
  unfoldable pub new_resource : String → String → String → String → Option Json → Outcome Resource
  unfolding check_owner check_identifier strip provenance_of principal
  new_resource resource_id title text owner given = do
    check_owner owner
    check_identifier resource_id "resource_id"
    raise_if (not (has_size 200 (strip title)))
        (value_error "Resource title must have 1–200 characters")
    raise_if (not (has_size 8000 text))
        (value_error "Resource text must have 1–8000 characters; arbitrary files are not read")
    provenance ← provenance_of given
    ok (record {
      resource_id = resource_id;
      title = strip title;
      text = text;
      sha256 = runtime.sha256 text;
      owner_id = principal owner;
      provenance = provenance;
    })
