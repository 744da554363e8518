-- ===== src/Remote/Steps/Frame.antt =====
-- What each operation of the bridge leaves as it is.
use agent_comm.Prelude.{
  ℕ, String, true, some, List, [], ◌∷◌, ◌≡◌, refl, ◌⊎◌, inl, inr, arith, Option-cases, Bool-cases,
  leb, ◌&&◌,
}
use agent_comm.Json.{Json}
use agent_comm.Runtime.{Runtime}
use agent_comm.Table.{get, put}
use agent_comm.Remote.State.{Pairing, Bridge, ok}
use agent_comm.Remote.Pairing.{new_pairing, pair, revoke}
use agent_comm.Remote.Handle.Answer.{Outcome-cases}
use agent_comm.Remote.Mailbox.{
  Item, select_inbox_batch, rotate, cursor_of, sort_items, readable, first, last_id,
}

module _ (R : Runtime) where
  pub pair_frame :
      (console owner : String) (methods : List String) (expires_at : String) (now : ℕ)
      (b b' : Bridge) (p : Pairing)
      → pair R console owner methods expires_at now b ≡ ok (p, b')
      → record b { pairings = put console p b.pairings } ≡ b'
  unfolding pair
  pair_frame console owner methods expires_at now b b' p h =
      elim (Outcome-cases (new_pairing R console owner methods expires_at now)) [
        | inl (q, e) ↦ ground arith
        | inr (x, e) ↦ ground arith
      ]

  pub revoke_frame :
      (console : String) (b b' : Bridge)
      → revoke R console b ≡ ok b'
      → (p : Pairing) × ((get b.pairings console ≡ some p)
          × (record b { pairings = put console (record p { revoked = true }) b.pairings } ≡ b'))
  unfolding revoke
  revoke_frame console b b' h = elim (Option-cases (get b.pairings console)) [
    | inl e ↦ ground arith
    | inr (p, e) ↦ (p, (e, ground arith))
  ]

pub select_frame :
    (messages : List Json) (limit : ℕ) (b b' : Bridge) (batch : List Item)
    → select_inbox_batch messages limit b ≡ ok (batch, b')
    → (b ≡ b') ⊎ ((id : String) × (record b { cursor = some id } ≡ b'))
unfolding select_inbox_batch
select_frame messages limit b b' batch h = elim (Bool-cases (leb 1 limit && leb limit 100)) [
  | inr k ↦ ground arith
  | inl k ↦ go k (sort_items (readable messages)) refl
]
  where
    go :
        (leb 1 limit && leb limit 100) ≡ true
        → (ms : List Item) → sort_items (readable messages) ≡ ms
        → (b ≡ b') ⊎ ((id : String) × (record b { cursor = some id } ≡ b'))
    go k [] e = inl (ground arith)
    go k (m ∷ ms) e = inr (
      last_id "" (first limit (rotate (cursor_of b.cursor) (sort_items (readable messages)))),
      ground arith,
    )
