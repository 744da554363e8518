-- ===== src/Json.antt =====
-- Values as `json.loads` gives them, and the two reads that the source makes of a dict.
use agent_comm.Prelude.{ℕ, String, Bool, Option, none, some, List, [], ◌∷◌, same, if◌then◌else◌}

-- Python's `int`: `negsuc n` is -(n + 1).
pub data ℤ : Type 0 where
  pos : ℕ → ℤ
  negsuc : ℕ → ℤ

-- `decimal m e` is a `float`, m / 10 ^ e.
mutual
  pub data Json : Type 0 where
    null : Json
    bool : Bool → Json
    int : ℤ → Json
    decimal : ℤ → ℕ → Json
    str : String → Json
    arr : Items → Json
    obj : Fields → Json

  pub data Items : Type 0 where
    nil : Items
    cons : Json → Items → Items

  pub data Fields : Type 0 where
    no_fields : Fields
    field : String → Json → Fields → Fields

-- `d.get(k)`
abbrev pub lookup : String → Fields → Option Json
lookup k no_fields = none
lookup k (field j v fs) = if same j k then some v else lookup k fs

-- `list(d)`
abbrev pub keys : Fields → List String
keys no_fields = []
keys (field k v fs) = k ∷ keys fs

abbrev pub items : Items → List Json
items nil = []
items (cons x xs) = x ∷ items xs
