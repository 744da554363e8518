-- ===== src/Store/Same.antt =====
-- `==` of the dicts of store.py.
pub mod Laws
use agent_comm.Prelude.{Bool, true, false, ◌&&◌, Option, none, some, List, [], ◌∷◌, same, ◌==◌}
use agent_comm.Policy.Time.{Interval}
use agent_comm.Policy.Scope.{Scope}
use agent_comm.Policy.Action.{
  Action, Payload, Meeting, share_slots, share_resource, propose_meeting, accept_meeting, send_text,
}
use agent_comm.Store.State.{Contact, Provenance, Resource}

same_list {ℓ} : {A : Type ℓ} → (A → A → Bool) → List A → List A → Bool
same_list eq [] [] = true
same_list eq (x ∷ xs) (y ∷ ys) = eq x y && same_list eq xs ys
same_list eq _ _ = false

same_option {ℓ} : {A : Type ℓ} → (A → A → Bool) → Option A → Option A → Bool
same_option eq none none = true
same_option eq (some x) (some y) = eq x y
same_option eq _ _ = false

unfoldable pub same_contact : Contact → Contact → Bool
unfolding same_list
same_contact x y =
    same x.contact_id y.contact_id
    && same_list same x.aliases y.aliases
    && same x.urn y.urn
    && same x.owner_id y.owner_id

same_provenance : Provenance → Provenance → Bool
same_provenance x y =
    same x.reference y.reference && same x.source y.source && same x.version y.version

unfoldable pub same_resource : Resource → Resource → Bool
unfolding same_option same_provenance
same_resource x y =
    same x.resource_id y.resource_id
    && same x.title y.title
    && same x.text y.text
    && same x.sha256 y.sha256
    && same x.owner_id y.owner_id
    && same_option same_provenance x.provenance y.provenance

unfoldable pub same_interval : Interval → Interval → Bool
same_interval i j = i.start == j.start && i.end == j.end

unfoldable pub same_scope : Scope → Scope → Bool
unfolding same_list same_option same_interval
same_scope x y =
    same x.purpose y.purpose
    && same x.topic y.topic
    && same_list same x.capabilities y.capabilities
    && same_list same x.recipient_ids y.recipient_ids
    && same_list same x.participant_ids y.participant_ids
    && same_list same x.resource_ids y.resource_ids
    && x.window_start == y.window_start
    && x.window_end == y.window_end
    && x.expires_at == y.expires_at
    && same_option (same_list same_interval) x.allowed_windows y.allowed_windows
    && x.max_duration_minutes == y.max_duration_minutes
    && x.max_candidates == y.max_candidates
    && x.max_actions == y.max_actions

same_meeting : Meeting → Meeting → Bool
unfolding same_list same_interval
same_meeting x y =
    same x.proposal_id y.proposal_id
    && x.version == y.version
    && same x.topic y.topic
    && same_list same x.participant_ids y.participant_ids
    && same_interval x.interval y.interval

-- The payloads of a proposal and of its acceptance have the same fields.
unfoldable pub same_payload : Payload → Payload → Bool
unfolding same_list same_interval same_meeting
same_payload (share_slots is) (share_slots js) = same_list same_interval is js
same_payload (share_resource i) (share_resource j) = same i j
same_payload (propose_meeting m) (propose_meeting n) = same_meeting m n
same_payload (propose_meeting m) (accept_meeting n) = same_meeting m n
same_payload (accept_meeting m) (propose_meeting n) = same_meeting m n
same_payload (accept_meeting m) (accept_meeting n) = same_meeting m n
same_payload (send_text s) (send_text t) = same s t
same_payload _ _ = false

-- The capability tells the two apart.
same_capability : Payload → Payload → Bool
same_capability (propose_meeting _) (accept_meeting _) = false
same_capability (accept_meeting _) (propose_meeting _) = false
same_capability _ _ = true

unfoldable pub same_action : Action → Action → Bool
unfolding same_list same_payload same_capability
same_action x y =
    same_list same x.recipient_ids y.recipient_ids
    && same_payload x.payload y.payload
    && same_capability x.payload y.payload
