-- ===== src/Go/Dict.antt =====
-- A Go map with text keys, as a list of its entries. Go visits the entries of a map in any order:
-- what is claimed of a loop over a map is claimed of every order of its entries.
pub mod Seen
use text.Mathlib.TextPositions.{eq_refl}
use authn.Prelude.{
  String, ◌≡◌, refl, Bool, true, false, Option, none, some, List, [], ◌∷◌, arith, eq_iff, ◌==◌,
  if◌then◌else◌, Any,
}

abbrev pub Dict : Type 0 → Type 0
Dict V = List (String × V)

abbrev pub HasKey : {V : Type 0} → String → Dict V → Type 0
HasKey k d = Any (λ e. e.0 ≡ k) d

-- The text of a key that a map may lack.
abbrev pub text_at : Option String → String
text_at none = ""
text_at (some v) = v

-- `m[k]` of a map to booleans, false where there is no such key.
abbrev pub true_at : Option Bool → Bool
true_at none = false
true_at (some b) = b

module _ {V : Type 0} where
  -- `v, ok := m[k]`
  unfoldable pub lookup : String → Dict V → Option V
  lookup k [] = none
  lookup k ((j, v) ∷ d) = if j == k then some v else lookup k d

  -- `_, ok := m[k]`
  unfoldable pub has : String → Dict V → Bool
  has k [] = false
  has k ((j, v) ∷ d) = if j == k then true else has k d

  -- `m[k] = v`
  unfoldable pub insert : String → V → Dict V → Dict V
  insert k v [] = (k, v) ∷ []
  insert k v ((j, w) ∷ d) = if j == k then (k, v) ∷ d else (j, w) ∷ insert k v d

  -- `for k, v := range src { dst[k] = v }`
  unfoldable pub merge : Dict V → Dict V → Dict V
  merge dst [] = dst
  merge dst ((k, v) ∷ src) = merge (insert k v dst) src

  pub lookup-insert :
      (k j : String) (v : V) (d : Dict V)
      → lookup j (insert k v d) ≡ (if k == j then some v else lookup j d)
  unfolding lookup insert
  lookup-insert k j v [] = refl
  lookup-insert k j v ((i, w) ∷ d) =
      ground (arith, eq_iff k j, eq_iff i k, eq_iff i j, lookup-insert k j v d)

  pub lookup-insert_self : (k : String) (v : V) (d : Dict V) → lookup k (insert k v d) ≡ some v
  lookup-insert_self k v d = simp (lookup-insert, eq_refl)

  -- Where the keys of `src` do not hold `j`, the merge keeps what `dst` has there.
  pub lookup-merge_ne :
      (j : String) (dst src : Dict V)
      → lookup j src ≡ none
      → lookup j (merge dst src) ≡ lookup j dst
  unfolding lookup merge
  lookup-merge_ne j dst [] h = refl
  lookup-merge_ne j dst ((k, v) ∷ src) h =
      ground (arith, lookup-merge_ne j (insert k v dst) src, lookup-insert k j v dst)
