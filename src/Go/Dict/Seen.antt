-- ===== src/Go/Dict/Seen.antt =====
-- A map to booleans that a loop keeps beside the texts it has seen.
use authn.Prelude.{
  String, ◌≡◌, sym, ◌∙◌, Bool, true, false, ◌||◌, List, [], ◌∷◌, ◌++◌, ◌==◌, arith, slices_contains,
  slices_contains-In, In-slices_contains, In, Bool-cases, inl, inr,
}
use mathlib.Core.Bool.{false≢true}
use authn.Go.Dict.{Dict, lookup, insert, true_at, lookup-insert}

pub contains-append :
    (known : List String) (x y : String)
    → slices_contains (known ++ x ∷ []) y ≡ (slices_contains known y || x == y)
unfolding slices_contains
contains-append [] x y = ground arith
contains-append (k ∷ known) x y = ground (arith, contains-append known x y)

pub contains-false :
    (known : List String) (g : String) → slices_contains known g ≡ false → ¬ In g known
contains-false known g h m = absurd (false≢true (sym h ∙ In-slices_contains known g m))

pub false-contains :
    (known : List String) (g : String) → ¬ In g known → slices_contains known g ≡ false
false-contains known g n = elim (Bool-cases (slices_contains known g)) [
  | inl e ↦ absurd (n (slices_contains-In known g e))
  | inr e ↦ e
]

-- The map holds exactly the texts seen so far.
abbrev pub Tracks : Dict Bool → List String → Type 0
Tracks seen known = (g : String) → true_at (lookup g seen) ≡ slices_contains known g

pub Tracks-insert :
    (seen : Dict Bool) (known : List String) (x : String)
    → Tracks seen known
    → Tracks (insert x true seen) (known ++ x ∷ [])
Tracks-insert seen known x t g =
    rw (lookup-insert x g true seen) (ground (arith, contains-append known x g, t g))
