-- ===== src/Store/Contacts/Export.antt =====
-- What `contact_urn` (store.py) may hand out.
use agent_comm.Prelude.{
  String, true, false, Option, none, some, same, ◌≡◌, ◌⊎◌, refl, arith, inl, inr, Bool-cases,
}
use agent_comm.Json.{str}
use agent_comm.Identity.{is_urn}
use agent_comm.Table.{get}
use agent_comm.Remote.State.{ok}
use agent_comm.Remote.Parse.{identity}
use agent_comm.Store.State.{Env, Contact, Core}
use agent_comm.Store.Records.{is_owned}
use agent_comm.Store.Tasks.{own_contact}
use agent_comm.Store.Contacts.{pends_self, urn_of, own_urn, export_self, contact_urn}

pub identity-ok : (s : String) (u : String) → identity (some s) ≡ ok u → (s ≡ u) × (is_urn u ≡ true)
unfolding identity
identity-ok s u h = elim (Bool-cases (is_urn s)) [
  | inl i ↦ let e : s ≡ u = ground arith in (e, ground arith)
  | inr i ↦ ground arith
]

own_urn-ok :
    (own : Option String) (u : String) → own_urn own ≡ ok u → (own ≡ some u) × (is_urn u ≡ true)
unfolding own_urn
own_urn-ok none u h = cc
own_urn-ok (some s) u h = elim (Bool-cases (same s "")) [
  | inl i ↦ ground arith
  | inr i ↦
      let j : identity (some s) ≡ ok u = ground arith in
      let (e, t) = identity-ok s u j in (ground arith, t)
]

own_contact-row :
    (c : Core) (key owner : String) (x : Contact)
    → own_contact c key owner ≡ some x
    → (get c.contacts key ≡ some x) × (is_owned x.owner_id owner ≡ true)
unfolding own_contact
own_contact-row c key owner x h = ground arith

urn_of-ok :
    (o : Option Contact) (u : String)
    → urn_of o ≡ ok u
    → (x : Contact) × (o ≡ some x) × (x.urn ≡ u) × (is_urn u ≡ true)
unfolding urn_of
urn_of-ok none u h = cc
urn_of-ok (some x) u h = let (e, t) = identity-ok (x.urn) u h in (x, refl, e, t)

module _ (E : Env) where
  self_urn :
      (owner u : String) (c : Core)
      → export_self E owner c ≡ ok u
      → (pends_self owner c ≡ false) × (E.local_urn ≡ some u) × (is_urn u ≡ true)
  unfolding export_self
  self_urn owner u c h = elim (Bool-cases (pends_self owner c)) [
    | inl i ↦ ground arith
    | inr i ↦
        let j : own_urn E.local_urn ≡ ok u = ground arith in
        let (e, t) = own_urn-ok E.local_urn u j in (i, e, t)
  ]

  -- Only a URN is exported. It is that of the local agent where the ID is "self" and the owner has
  -- no undecided request to bind a contact as "self", and otherwise that of the contact which
  -- stands under the ID and is confirmed for this owner.
  pub contact_urn_lem :
      (key owner u : String) (c : Core)
      → contact_urn E (some (str key)) owner c ≡ ok u
      → (is_urn u ≡ true)
        × (((same key "self" ≡ true) × (pends_self owner c ≡ false) × (E.local_urn ≡ some u))
            ⊎ ((same key "self" ≡ false)
                × (x : Contact) × (get c.contacts key ≡ some x)
                × (is_owned x.owner_id owner ≡ true)
                × (x.urn ≡ u)))
  unfolding contact_urn
  contact_urn_lem key owner u c h = elim (Bool-cases (same key "self")) [
    | inl i ↦
        let j : export_self E owner c ≡ ok u = ground arith in
        let (n, e, t) = self_urn owner u c j in (t, inl (i, n, e))
    | inr i ↦
        let j : urn_of (own_contact c key owner) ≡ ok u = ground arith in
        let (x, e, v, t) = urn_of-ok (own_contact c key owner) u j in
        let (g, w) = own_contact-row c key owner x e in (t, inr (i, x, g, w, v))
  ]
