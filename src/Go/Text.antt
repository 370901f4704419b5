-- ===== src/Go/Text.antt =====
-- The functions of Go's `strings` that the program calls, over code points.
pub mod Laws
pub mod Pieces
use Prim.Native.String
use authn.Prelude.{
  ℕ, ◌+◌, Char, code, String, Bool, true, false, ◌&&◌, ◌||◌, Option, none, some, List, [], ◌∷◌, leb,
  nat_eq, ◌==◌, if◌then◌else◌,
}

-- strings.HasPrefix(s, prefix)
unfoldable pub has_prefix : String → String → Bool
has_prefix s String.[] = true
has_prefix String.[] (String.◌∷◌ c p) = false
has_prefix (String.◌∷◌ d s) (String.◌∷◌ c p) = nat_eq (code d) (code c) && has_prefix s p

-- strings.HasSuffix(s, suffix)
unfoldable pub has_suffix : String → String → Bool
has_suffix String.[] t = t == String.[]
has_suffix (String.◌∷◌ c s) t = String.◌∷◌ c s == t || has_suffix s t

-- strings.TrimPrefix(s, prefix)
unfoldable pub drop_prefix : String → String → String
drop_prefix s String.[] = s
drop_prefix String.[] (String.◌∷◌ c p) = String.[]
drop_prefix (String.◌∷◌ d s) (String.◌∷◌ c p) = drop_prefix s p

-- strings.Contains(s, sep) for a separator of one character
unfoldable pub contains_char : ℕ → String → Bool
contains_char sep String.[] = false
contains_char sep (String.◌∷◌ c s) = nat_eq (code c) sep || contains_char sep s

abbrev pub push_head : Char → List String → List String
push_head c [] = String.◌∷◌ c String.[] ∷ []
push_head c (p ∷ ps) = String.◌∷◌ c p ∷ ps

-- strings.Split(s, sep) for a separator of one character
unfoldable pub split : ℕ → String → List String
split sep String.[] = String.[] ∷ []
split sep (String.◌∷◌ c s) =
    let rest = split sep s in if nat_eq (code c) sep then String.[] ∷ rest else push_head c rest

-- strings.Join(parts, sep)
unfoldable pub join : String → List String → String
join sep [] = String.[]
join sep (x ∷ []) = x
join sep (x ∷ y ∷ xs) = String.◌++◌ x (String.◌++◌ sep (join sep (y ∷ xs)))

abbrev pub push_first : Char → List String → List String
push_first = push_head

-- strings.Cut(s, sep) for a separator of one character, as the pieces of strings.SplitN(s, sep, 2):
-- one piece where the separator is missing, else what stands before and after its first occurrence
unfoldable pub split_first : ℕ → String → List String
split_first sep String.[] = String.[] ∷ []
split_first sep (String.◌∷◌ c s) =
    let rest = split_first sep s in
    if nat_eq (code c) sep then String.[] ∷ s ∷ [] else push_first c rest

-- unicode.IsSpace
unfoldable pub is_space : Char → Bool
is_space c =
    (leb 9 n && leb n 13)
    || nat_eq n 0x20
    || nat_eq n 0x85
    || nat_eq n 0xA0
    || nat_eq n 0x1680
    || (leb 0x2000 n && leb n 0x200A)
    || nat_eq n 0x2028
    || nat_eq n 0x2029
    || nat_eq n 0x202F
    || nat_eq n 0x205F
    || nat_eq n 0x3000
  where
    n : ℕ
    n = code c

-- strings.ContainsFunc(s, unicode.IsSpace)
unfoldable pub contains_space : String → Bool
contains_space String.[] = false
contains_space (String.◌∷◌ c s) = is_space c || contains_space s

trim_left : String → String
trim_left String.[] = String.[]
trim_left (String.◌∷◌ c s) = let rest = trim_left s in if is_space c then rest else String.◌∷◌ c s

trim_right : String → String
trim_right String.[] = String.[]
trim_right (String.◌∷◌ c s) =
    let rest = trim_right s in
    if is_space c && (rest == String.[]) then String.[] else String.◌∷◌ c rest

-- strings.TrimSpace
unfoldable pub trim_space : String → String
unfolding trim_left trim_right
trim_space s = trim_right (trim_left s)

-- A character in lower case, of the ASCII alphabet.
abbrev lower : ℕ → ℕ
lower n = if leb 65 n && leb n 90 then n + 32 else n

-- What follows a prefix of ASCII characters, whatever their case (strings.EqualFold on the prefix).
unfoldable pub drop_folded : String → String → Option String
drop_folded s String.[] = some s
drop_folded String.[] (String.◌∷◌ c p) = none
drop_folded (String.◌∷◌ d s) (String.◌∷◌ c p) =
    let rest = drop_folded s p in if nat_eq (lower (code d)) (lower (code c)) then rest else none

abbrev all_dropped : Option String → Bool
all_dropped (some String.[]) = true
all_dropped _ = false

-- strings.EqualFold(s, t) for a text `t` of letters that fold with ASCII letters alone
unfoldable pub equal_fold : String → String → Bool
unfolding drop_folded
equal_fold s t = all_dropped (drop_folded s t)
