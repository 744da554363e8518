-- ===== src/Policy/Message/Snapshot.antt =====
-- A shared resource is sent as the snapshot that its digest names (`compile_message` of policy.py).
use agent_comm.Prelude.{
  ℕ, String, true, Option, none, some, ◌≡◌, refl, arith, same_iff, ◌<>◌, Bool-cases, inl, inr, ◌⊎◌,
}
use agent_comm.Json.{Json, Fields, null, bool, int, decimal, str, arr, obj, lookup}
use agent_comm.Runtime.{Runtime}
use agent_comm.Policy.Fault.{Fault, Check, ok, fault}
use agent_comm.Policy.Fields.{string}
use agent_comm.Policy.Action.{Action, share_resource, validate_action}
use agent_comm.Policy.Message.{
  compiled, is_exactly, digested, snapshot, registered, resource_text, text_for, compile_message,
}

module _ (R : Runtime) (quoted : Json → String) (iso : ℕ → String) where
  -- The message is the title and the text of the resource, whose digest is that of the text.
  abbrev pub IsSnapshot : Fields → String → Type 0
  IsSnapshot resource message =
      (title : String) × ((text : String) × ((string (lookup "title" resource) "resource.title" 200
            ≡ ok title)
          × ((string (lookup "text" resource) "resource.text" 8000 ≡ ok text)
              × ((lookup "sha256" resource ≡ some (str (R.sha256 text)))
                  × (message ≡ (title <> ("\n\n" <> text)))))))

  digested_lem :
      (d : Option Json) (title text message : String)
      → digested R quoted iso d title text ≡ compiled message
      → (d ≡ some (str (R.sha256 text))) × (message ≡ (title <> ("\n\n" <> text)))
  unfolding digested
  digested_lem none title text message h = absurd (ground arith)
  digested_lem (some (str digest)) title text message h =
      grind (arith, same_iff (R.sha256 text) digest)
  digested_lem (some null) title text message h = absurd (ground arith)
  digested_lem (some (bool x)) title text message h = absurd (ground arith)
  digested_lem (some (int x)) title text message h = absurd (ground arith)
  digested_lem (some (decimal x y)) title text message h = absurd (ground arith)
  digested_lem (some (arr x)) title text message h = absurd (ground arith)
  digested_lem (some (obj x)) title text message h = absurd (ground arith)

  Check-cases {ℓ} :
      {A : Type ℓ} (c : Check A) → ((a : A) × (c ≡ ok a)) ⊎ ((e : Fault) × (c ≡ fault e))
  Check-cases (ok a) = inl (a, refl)
  Check-cases (fault e) = inr (e, refl)

  snapshot-IsSnapshot :
      (resource : Fields) (message : String)
      → snapshot R quoted iso resource ≡ compiled message
      → IsSnapshot resource message
  unfolding snapshot
  snapshot-IsSnapshot resource message h =
      elim (Check-cases (string (lookup "title" resource) "resource.title" 200)) [
        | inr (e, p) ↦ absurd (ground arith)
        | inl (title, p) ↦
            elim (Check-cases (string (lookup "text" resource) "resource.text" 8000)) [
              | inr (e, q) ↦ absurd (ground arith)
              | inl (text, q) ↦
                  let d : digested R quoted iso (lookup "sha256" resource) title text
                      ≡ compiled message =
                    ground arith in
                  (
                    title,
                    (text, (p, (q, digested_lem (lookup "sha256" resource) title text message d))),
                  )
            ]
      ]

  -- The resource is registered in the mapping under this identifier, which it bears itself.
  abbrev pub IsRegistered : String → Json → Fields → Type 0
  IsRegistered id resources resource =
      (all : Fields) × ((resources ≡ obj all)
        × ((lookup id all ≡ some (obj resource))
            × (is_exactly (lookup "resource_id" resource) id ≡ true)))

  registered_lem :
      (id : String) (o : Option Json) (message : String)
      → registered R quoted iso id o ≡ compiled message
      → (resource : Fields) × ((o ≡ some (obj resource))
          × ((is_exactly (lookup "resource_id" resource) id ≡ true) × IsSnapshot resource message))
  unfolding registered
  registered_lem id none message h = absurd (ground arith)
  registered_lem id (some (obj resource)) message h =
      elim (Bool-cases (is_exactly (lookup "resource_id" resource) id)) [
        | inr e ↦ absurd (ground arith)
        | inl e ↦ (resource, (refl, (e, snapshot-IsSnapshot resource message (ground arith))))
      ]
  registered_lem id (some null) message h = absurd (ground arith)
  registered_lem id (some (bool x)) message h = absurd (ground arith)
  registered_lem id (some (int x)) message h = absurd (ground arith)
  registered_lem id (some (decimal x y)) message h = absurd (ground arith)
  registered_lem id (some (arr x)) message h = absurd (ground arith)
  registered_lem id (some (str x)) message h = absurd (ground arith)

  resource_text_lem :
      (id : String) (resources : Json) (message : String)
      → resource_text R quoted iso id resources ≡ compiled message
      → (resource : Fields) × (IsRegistered id resources resource × IsSnapshot resource message)
  unfolding resource_text
  resource_text_lem id (obj all) message h =
      let (resource, (p, (q, s))) = registered_lem id (lookup id all) message h in
      (resource, ((all, (refl, (p, q))), s))
  resource_text_lem id null message h = absurd (ground arith)
  resource_text_lem id (bool x) message h = absurd (ground arith)
  resource_text_lem id (int x) message h = absurd (ground arith)
  resource_text_lem id (decimal x y) message h = absurd (ground arith)
  resource_text_lem id (arr x) message h = absurd (ground arith)
  resource_text_lem id (str x) message h = absurd (ground arith)

  -- The message of an action that shares a resource is the title and the text of a resource that is
  -- registered under the identifier of the action and bears it, and whose digest is the SHA-256 of
  -- that text.
  pub compile_shared :
      (action resources : Json) (a : Action) (id message : String)
      → validate_action action ≡ ok a
      → a.payload ≡ share_resource id
      → compile_message R quoted iso action resources ≡ compiled message
      → (resource : Fields) × (IsRegistered id resources resource × IsSnapshot resource message)
  unfolding compile_message text_for
  compile_shared action resources a id message v p h =
      resource_text_lem id resources message (ground arith)
