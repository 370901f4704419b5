-- ===== src/Go/Text/Laws.antt =====
-- Laws of the text functions.
use Prim.Native.String
use text.Mathlib.TextLemmas.{nil-append, cons-append}
use authn.Prelude.{
  ℕ, Char, code, String, ◌≡◌, ◌≢◌, refl, sym, ap, ◌∙◌, inl, inr, Bool, true, false, ◌||◌, Option,
  none, some, List, [], ◌∷◌, arith, eq_iff, eq_refl, ◌==◌, nat_eq, Bool-cases, All,
}
use authn.Go.Text.{has_prefix, has_suffix, drop_prefix, contains_char, split, split_first, join}

nat_eq_refl : (n : ℕ) → nat_eq n n ≡ true
nat_eq_refl n = ground arith

pub has_prefix-append : (p s : String) → has_prefix (String.◌++◌ p s) p ≡ true
unfolding has_prefix
has_prefix-append String.[] s = refl
has_prefix-append (String.◌∷◌ c p) s = rw (cons-append, nat_eq_refl) (has_prefix-append p s)

pub drop_prefix-append : (p s : String) → drop_prefix (String.◌++◌ p s) p ≡ s
unfolding drop_prefix
drop_prefix-append String.[] s = nil-append s
drop_prefix-append (String.◌∷◌ c p) s = rw cons-append (drop_prefix-append p s)

pub has_suffix_refl : (t : String) → has_suffix t t ≡ true
unfolding has_suffix
has_suffix_refl String.[] = refl
has_suffix_refl (String.◌∷◌ c t) = rw eq_refl

or-true : (a : Bool) {b : Bool} → b ≡ true → (a || b) ≡ true
or-true true h = refl
or-true false h = h

pub has_suffix-append : (s t : String) → has_suffix (String.◌++◌ s t) t ≡ true
unfolding has_suffix
has_suffix-append String.[] t = rw nil-append (has_suffix_refl t)
has_suffix-append (String.◌∷◌ c s) t = rw cons-append (or-true _ (has_suffix-append s t))

-- The last character of a text.
unfoldable pub last_or : Option Char → String → Option Char
last_or d String.[] = d
last_or d (String.◌∷◌ c s) = last_or (some c) s

-- A text that ends in a non-empty `t` has the last character of `t`.
last_or-has_suffix :
    (d d' : Option Char) (s t : String)
    → t ≢ String.[]
    → has_suffix s t ≡ true
    → last_or d s ≡ last_or d' t
unfolding has_suffix last_or
last_or-has_suffix d d' String.[] t ne h = absurd (ne ((eq_iff t String.[]).0 h))
last_or-has_suffix d d' (String.◌∷◌ c s) t ne h = elim (Bool-cases (String.◌∷◌ c s == t)) [
  | inl e ↦ ap (last_or d') ((eq_iff _ _).0 e)
  | inr e ↦ last_or-has_suffix (some c) d' s t ne (rw e at h)
]

last_or-append :
    (d : Option Char) (s t : String) (c : Char)
    → last_or d (String.◌++◌ s (String.◌∷◌ c t)) ≡ last_or (some c) t
unfolding last_or
last_or-append d String.[] t c = rw nil-append
last_or-append d (String.◌∷◌ b s) t c = rw cons-append (last_or-append (some b) s t c)

-- Texts that end in different characters: no suffix of one kind ends a text of the other kind.
pub has_suffix_disjoint :
    (s t u : String) (c b : Char)
    → last_or (some c) t ≢ last_or (some b) u
    → has_suffix (String.◌++◌ s (String.◌∷◌ c t)) (String.◌∷◌ b u) ≡ false
unfolding last_or
has_suffix_disjoint s t u c b ne =
    elim (Bool-cases (has_suffix (String.◌++◌ s (String.◌∷◌ c t)) (String.◌∷◌ b u))) [
      | inl e ↦ absurd (
          ne (
            sym (last_or-append none s t c)
            ∙ last_or-has_suffix none none _ (String.◌∷◌ b u) (λ k. cc) e))
      | inr e ↦ e
    ]

pub split-no_sep : (sep : ℕ) (x : String) → contains_char sep x ≡ false → split sep x ≡ x ∷ []
unfolding split contains_char
split-no_sep sep String.[] h = refl
split-no_sep sep (String.◌∷◌ c x) h = ground (arith, split-no_sep sep x)

pub split-append :
    (sep : ℕ) (x rest : String) (c : Char)
    → contains_char sep x ≡ false
    → code c ≡ sep
    → split sep (String.◌++◌ x (String.◌∷◌ c rest)) ≡ x ∷ split sep rest
unfolding split contains_char
split-append sep String.[] rest c h e = rw nil-append (ground arith)
split-append sep (String.◌∷◌ d x) rest c h e =
    rw cons-append (ground (arith, split-append sep x rest c))

-- Splitting undoes joining, for a non-empty list of texts that do not hold the separator.
pub split-join :
    (sep : ℕ) (c : Char) (x : String) (xs : List String)
    → code c ≡ sep
    → All (λ y. contains_char sep y ≡ false) (x ∷ xs)
    → split sep (join (String.◌∷◌ c String.[]) (x ∷ xs)) ≡ x ∷ xs
unfolding join
split-join sep c x [] e (h, hs) = split-no_sep sep x h
split-join sep c x (y ∷ ys) e (h, hs) =
    rw (cons-append, nil-append, split-append sep x _ c h e)
      (ap (λ l. x ∷ l) (split-join sep c y ys e hs))

pub split_first-append :
    (sep : ℕ) (x rest : String) (c : Char)
    → contains_char sep x ≡ false
    → code c ≡ sep
    → split_first sep (String.◌++◌ x (String.◌∷◌ c rest)) ≡ x ∷ rest ∷ []
unfolding split_first contains_char
split_first-append sep String.[] rest c h e = rw nil-append (ground arith)
split_first-append sep (String.◌∷◌ d x) rest c h e =
    rw cons-append (ground (arith, split_first-append sep x rest c))
