-- ===== src/Go/Json.antt =====
-- A decoded JSON document (encoding/json into `any`).
use authn.Prelude.{String, Bool, Option, none, some, List, [], ◌∷◌}
use authn.Prelude.Int.{ℤ}

mutual
  pub data Json : Type 0 where
    null : Json
    boolean : Bool → Json
    -- a float64, as the integer that `int64(v)` makes of it
    number : ℤ → Json
    string : String → Json
    array : Items → Json
    object : Json

  pub data Items : Type 0 where
    end : Items
    item : Json → Items → Items

-- The value of a claim that is neither missing nor null.
unfoldable pub present : Option Json → Option Json
present none = none
present (some null) = none
present (some v) = some v

-- `v, ok := raw.(string)`
unfoldable pub as_string : Json → Option String
as_string (string s) = some s
as_string _ = none

-- `v, _ := m[key].(string)`: the zero value where there is no text
unfoldable pub string_or_empty : Option Json → String
string_or_empty (some (string s)) = s
string_or_empty _ = ""

abbrev push : Json → Option (List String) → Option (List String)
push (string s) (some rest) = some (s ∷ rest)
push _ _ = none

-- The loop that asserts every item to be a string.
unfoldable pub all_strings : Items → Option (List String)
all_strings end = some []
all_strings (item v items) = push v (all_strings items)
