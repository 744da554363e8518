-- ===== src/Store/Prepare.antt =====
-- `_approval`, `register_resource` and `prepare_contact` of store.py.
pub mod Moves
use agent_comm.Prelude.{
  ℕ, ◌+◌, String, Bool, false, not, ◌&&◌, Option, none, some, ◌<>◌, same, any, ltb, if◌then◌else◌,
}
use Prim.Native.String.{count}
use agent_comm.Json.{Json}
use agent_comm.Table.{get, rows}
use agent_comm.Policy.Render.{join}
use agent_comm.Remote.State.{Outcome, ok, raised, value_error, raise_if, ◌>>=◌, ◌>>◌}
use agent_comm.Store.State.{
  Env, Contact, Resource, Approval, ApprovalStatus, Subject, contact_binding, Core, Mixins,
}
use agent_comm.Store.Records.{is_owned, put_approval, put_resource, audit}
use agent_comm.Store.Same.{same_contact, same_resource}
use agent_comm.Store.Requests.{fingerprint_of, contact_value, new_resource}

module _ (E : Env) (X : Mixins) where
  open E use {runtime}

  pub approval_id_of : Subject → String → String → String
  unfolding fingerprint_of
  approval_id_of subject subject_id owner =
      "approval-" <> runtime.take 32 (fingerprint_of E subject subject_id owner)

  unfoldable pub new_approval : Subject → String → String → String → ℕ → ℕ → Approval
  unfolding approval_id_of fingerprint_of
  new_approval subject subject_id owner question expires_at now = record {
    approval_id = approval_id_of subject subject_id owner;
    subject = subject;
    subject_id = subject_id;
    owner_session = owner;
    fingerprint = fingerprint_of E subject subject_id owner;
    question = question;
    expires_at = expires_at;
    status = ApprovalStatus.pending;
    created_at = now;
    token_hash = none;
    lease_until = none;
    peer_blocked = false;
  }

  -- `_approval(kind, subject_id, owner_session, payload, question, expires_at)`: the approval that is
  -- there, or a new one.
  unfoldable pub request_approval :
      Subject
      → String
      → String
      → String
      → ℕ
      → ℕ
      → Core × X.State
      → Outcome (Approval × (Core × X.State))
  unfolding approval_id_of new_approval
  request_approval subject subject_id owner question expires_at now d = do
    raise_if (ltb 18000 (count question)) (
        value_error
          "The complete native confirmation exceeds 18000 characters; split this task or reduce its resources")
    elim (get (d.0.approvals) (approval_id_of subject subject_id owner)) [
      | some a ↦ ok (a, d)
      | none ↦
          let a = new_approval subject subject_id owner question expires_at now in
          ok (a, audit X "approval_requested" (put_approval X a.approval_id a d))
    ]

  -- `register_resource(resource_id, title, text, owner_session, provenance=...)`
  unfoldable pub register_resource :
      String
      → String
      → String
      → String
      → Option Json
      → Core × X.State
      → Outcome (Resource × (Core × X.State))
  unfolding new_resource same_resource
  register_resource resource_id title text owner provenance d = do
    resource ← new_resource E resource_id title text owner provenance
    elim (get (d.0.resources) resource_id) [
      | none ↦ ok tt
      | some old ↦
          raise_if (not (same_resource old resource))
            (value_error "Resource ID is immutable; register a new ID for changed content")
    ]
    ok (resource, put_resource X resource_id resource d)

  contact_question : Contact → String
  contact_question x =
      "请核对联系人：本地称呼 "
      <> (join ", " x.aliases
          <> ("（"
              <> (x.contact_id
                  <> ("）对应准确 URN "
                      <> (x.urn
                          <> ("。\n确认后将向此 URN 发送好友请求；对方接受后可以通信。这不验证对方的现实身份，也不授权资料披露、协作任务或代表你承诺。\n确认发送好友请求吗？"))))))

  -- The contact is owned and has this URN.
  abbrev pub is_bound : String → String → Contact → Bool
  is_bound urn owner x = is_owned x.owner_id owner && same x.urn urn

  -- `prepare_contact(contact_id, aliases, urn, owner_session)`, where `_prepare_existing_contact` of
  -- social.py is what a contact that is there already leads to.
  module _
      (existing : Contact
        → String
        → Core × X.State
        → Outcome (Option Approval × (Core × X.State))) where
    unfoldable pub prepare_contact :
        Option Json
        → Option Json
        → Option Json
        → String
        → ℕ
        → Core × X.State
        → Outcome (Option Approval × (Core × X.State))
    unfolding contact_value request_approval contact_question same_contact
    prepare_contact given_id given_aliases given_urn owner now d = do
      x ← contact_value E given_id given_aliases given_urn owner
      elim (get (d.0.contacts) x.contact_id) [
        | some old ↦
            (if not (same_contact old x)
              then raised (
                  value_error
                    "Confirmed contact is immutable; use a new ID and confirm a new binding")
              else existing old owner d)
        | none ↦
            (if any (is_bound x.urn owner) (rows (d.0.contacts))
              then raised (
                  value_error
                    "This agent identity is already a confirmed contact; use the existing contact")
              else (do
                (a, d') ←
                    request_approval (contact_binding x) x.contact_id owner (contact_question x)
                      (now + 900000000) now d
                ok (some a, d')))
      ]
