-- ===== src/Identity.antt =====
-- python/agent_comm_runtime/identity.py, and the identifier test of remote.py and task_history.py.
use agent_comm.Prelude.{
  ℕ, String, Bool, true, false, ◌&&◌, ◌||◌, List, [], ◌∷◌, ◌≡◌, refl, codes, length, all, ltb, leb,
  not, is_empty, ◌==◌,
}

-- `[A-Za-z0-9]`
unfoldable pub is_alphanumeric : ℕ → Bool
is_alphanumeric c = leb b'0' c && leb c b'9' || leb b'A' c && leb c b'Z' || leb b'a' c && leb c b'z'

-- `[A-Za-z0-9._-]`
unfoldable pub is_name_character : ℕ → Bool
unfolding is_alphanumeric
is_name_character c = is_alphanumeric c || c == b'.' || c == b'_' || c == b'-'

-- `[A-Za-z0-9][A-Za-z0-9._-]*` on the whole rest
is_final : List ℕ → Bool
is_final [] = false
is_final (c ∷ cs) = is_alphanumeric c && all is_name_character cs

-- `[A-Za-z0-9._:-]*:[A-Za-z0-9][A-Za-z0-9._-]*` on the whole rest, with the choice of the colon
after_namespace : List ℕ → Bool
after_namespace [] = false
after_namespace (c ∷ cs) =
    c == b':' && is_final cs || (is_name_character c || c == b':') && after_namespace cs

-- `_URN.fullmatch`
matches_urn : List ℕ → Bool
matches_urn (u ∷ r ∷ n ∷ colon ∷ c ∷ cs) =
    u == b'u' && r == b'r' && n == b'n' && colon == b':' && is_alphanumeric c && after_namespace cs
matches_urn _ = false

-- `validate_urn(value)` on a text: whether it returns, and so returns its argument.
unfoldable pub is_urn : String → Bool
unfolding is_final after_namespace matches_urn is_name_character
is_urn value = let cs = codes value in not (ltb 256 (length cs)) && matches_urn cs

-- `re.fullmatch(r"[A-Za-z0-9._:-]{1,128}", value)`
unfoldable pub is_identifier : String → Bool
unfolding is_name_character
is_identifier value =
    let cs = codes value in
    not (is_empty cs) && leb (length cs) 128 && all (λ c. is_name_character c || c == b':') cs

urns :
    (is_urn "urn:hermes:agent:a1.b" ≡ true)
    × (is_urn "urn:a:b:" ≡ false)
    × (is_urn "urn:-a:b" ≡ false)
    × (is_urn "urn:a" ≡ false)
unfolding is_urn
urns = (refl, refl, refl, refl)
