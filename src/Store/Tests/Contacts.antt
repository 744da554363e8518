-- ===== src/Store/Tests/Contacts.antt =====
-- The theorems about names and contact IDs at a small store.
use agent_comm.Prelude.{some, [], ◌∷◌, ◌≡◌, refl}
use agent_comm.Json.{str}
use agent_comm.Identity.{is_urn, is_identifier}
use agent_comm.Table.{get, put, rows}
use agent_comm.Policy.Evaluate.{allow, clarify}
use agent_comm.Remote.State.{ok}
use agent_comm.Store.State.{Contact, TaskStatus, ApprovalStatus}
use agent_comm.Store.Records.{principal}
use agent_comm.Store.Contacts.{resolve_contact, contact_urn}
use agent_comm.Store.Contacts.Sole.{IsSole, IsMeant, resolve_contact-IsSole}
use agent_comm.Store.Fixture.{env, owner, bob, core_with}

resolves :
    (resolve_contact env
        (some (str "Bob"))
        owner
        (core_with TaskStatus.active ApprovalStatus.approved)
      ≡ ok (allow, bob ∷ []))
    × (resolve_contact env
          (some (str "eve"))
          owner
          (core_with TaskStatus.active ApprovalStatus.approved)
        ≡ ok (clarify, []))
unfolding resolve_contact get put rows principal
resolves = (refl, refl)

resolve_contact-IsSole_example :
    (x : Contact) × (bob ∷ [] ≡ x ∷ [])
    × IsSole
        (IsMeant env "Bob" owner)
        x
        (rows (core_with TaskStatus.active ApprovalStatus.approved).contacts)
resolve_contact-IsSole_example =
    resolve_contact-IsSole env "Bob" owner (core_with TaskStatus.active ApprovalStatus.approved)
      (bob ∷ []) (resolves.0)

exports :
    contact_urn env (some (str "bob")) owner (core_with TaskStatus.active ApprovalStatus.approved)
    ≡ ok "urn:hermes:agent:bob"
unfolding contact_urn get put rows principal is_identifier is_urn
exports = refl
