-- ===== src/Prelude/Lists.antt =====
-- Lists measured by native numbers, and predicates on lists that compute.
use Prim.Native.Nat.{ℕ, suc, ◌+◌}
use Prim.Native.String.{String}
use mathlib.Core.Path.{◌≡◌}
use mathlib.Core.Logic.{◌⊎◌, inl, inr}
use mathlib.Core.Bool.{Bool, true, false, ◌||◌}
use mathlib.Core.List.{List, [], ◌∷◌, ◌++◌}
use native.Mathlib.Omega.{arith}
use text.Mathlib.TextEquality.{eq_iff}
use authn.Prelude.Tests.{◌==◌, Bool-cases, if◌then◌else◌}

module _ {ℓ} {A : Type ℓ} where
  abbrev pub length : List A → ℕ
  length [] = 0
  length (x ∷ xs) = suc (length xs)

  abbrev pub any : (A → Bool) → List A → Bool
  any p [] = false
  any p (x ∷ xs) = p x || any p xs

  pub length-append : (xs ys : List A) → length (xs ++ ys) ≡ length xs + length ys
  length-append [] ys = omega arith
  length-append (x ∷ xs) ys = omega (arith, length-append xs ys)

module _ {ℓ κ} {A : Type ℓ} (P : A → Type κ) where
  -- `P` holds of every element.
  abbrev pub All : List A → Type κ
  All [] = Unit
  All (x ∷ xs) = P x × All xs

  pub All-append : (xs ys : List A) → All xs → All ys → All (xs ++ ys)
  All-append [] ys h k = k
  All-append (x ∷ xs) ys (p, h) k = (p, All-append xs ys h k)

module _ {ℓ} {A : Type ℓ} (P : A → Type 0) where
  -- `P` holds of some element.
  abbrev pub Any : List A → Type 0
  Any [] = ⊥
  Any (x ∷ xs) = P x ⊎ Any xs

-- The text stands in the list.
abbrev pub In : String → List String → Type 0
In want xs = Any (λ x. x ≡ want) xs

-- No text stands in the list twice.
abbrev pub Distinct : List String → Type 0
Distinct [] = Unit
Distinct (x ∷ xs) = ¬ In x xs × Distinct xs

-- slices.Contains: the loop that returns true at the first equal element.
unfoldable pub slices_contains : List String → String → Bool
slices_contains [] want = false
slices_contains (x ∷ xs) want = if x == want then true else slices_contains xs want

pub slices_contains-In :
    (xs : List String) (want : String) → slices_contains xs want ≡ true → In want xs
unfolding slices_contains
slices_contains-In [] want h = cc
slices_contains-In (x ∷ xs) want h = elim (Bool-cases (x == want)) [
  | inl e ↦ inl ((eq_iff x want).0 e)
  | inr e ↦ inr (slices_contains-In xs want (rw e at h))
]

pub In-slices_contains :
    (xs : List String) (want : String) → In want xs → slices_contains xs want ≡ true
unfolding slices_contains
In-slices_contains [] want h = absurd h
In-slices_contains (x ∷ xs) want (inl e) = rw ((eq_iff x want).1 e)
In-slices_contains (x ∷ xs) want (inr m) = elim (Bool-cases (x == want)) [
  | inl e ↦ rw e
  | inr e ↦ rw e (In-slices_contains xs want m)
]

module _ (g : String) where
  pub In-append_left : (xs ys : List String) → In g xs → In g (xs ++ ys)
  In-append_left [] ys m = absurd m
  In-append_left (x ∷ xs) ys (inl e) = inl e
  In-append_left (x ∷ xs) ys (inr m) = inr (In-append_left xs ys m)

  pub In-append_right : (xs ys : List String) → In g ys → In g (xs ++ ys)
  In-append_right [] ys m = m
  In-append_right (x ∷ xs) ys m = inr (In-append_right xs ys m)
