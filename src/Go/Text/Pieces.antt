-- ===== src/Go/Text/Pieces.antt =====
-- What a prefix that a text has, and the pieces that it was split in, say of the text.
use Prim.Native.String
use text.Mathlib.TextLemmas.{nil-append, cons-append}
use text.Mathlib.TextEquality.{Char-path}
use authn.Prelude.{
  ℕ, Char, code, String, ◌≡◌, refl, sym, ap, inl, inr, Bool, true, false, ◌&&◌, List, [], ◌∷◌,
  arith, nat_eq, Bool-cases,
}
use authn.Go.Text.{has_prefix, drop_prefix, contains_char, split_first, push_head}

same_head :
    (d c : Char) (rest : Bool)
    → (nat_eq (code d) (code c) && rest) ≡ true
    → (code d ≡ code c) × (rest ≡ true)
same_head d c rest h = ground arith

pub has_prefix-drop_prefix :
    (s p : String) → has_prefix s p ≡ true → s ≡ String.◌++◌ p (drop_prefix s p)
unfolding has_prefix drop_prefix
has_prefix-drop_prefix s String.[] h = sym (nil-append s)
has_prefix-drop_prefix String.[] (String.◌∷◌ c p) h = cc
has_prefix-drop_prefix (String.◌∷◌ d s) (String.◌∷◌ c p) h =
    let (e, rest) = same_head d c (has_prefix s p) h in
    rw (Char-path d c e, cons-append) (ap (λ t. String.◌∷◌ c t) (has_prefix-drop_prefix s p rest))

-- A text that was split in two at a separator.
pub record Pieces (sep : ℕ) (s a b : String) : Type 0 where
  pub at_char : Char
  pub separates : code at_char ≡ sep
  pub whole : s ≡ String.◌++◌ a (String.◌∷◌ at_char b)
  pub first : contains_char sep a ≡ false

push_head-pieces :
    (c : Char) (ps : List String) {a b : String}
    → push_head c ps ≡ a ∷ b ∷ []
    → (a' : String) × (a ≡ String.◌∷◌ c a') × (ps ≡ a' ∷ b ∷ [])
push_head-pieces c [] h = absurd cc
push_head-pieces c (p ∷ ps) h = (p, cc, cc)

pub split_first-Pieces :
    (sep : ℕ) (s : String) {a b : String} → split_first sep s ≡ a ∷ b ∷ [] → Pieces sep s a b
unfolding split_first contains_char
split_first-Pieces sep String.[] h = absurd cc
split_first-Pieces sep (String.◌∷◌ c s) {a} {b} h = elim (Bool-cases (nat_eq (code c) sep)) [
  | inl e ↦
      let h' : String.[] ∷ s ∷ [] ≡ a ∷ b ∷ [] = rw e at h in
      let ea : String.[] ≡ a = cc in
      let eb : s ≡ b = cc in
      record {
        at_char = c;
        separates = ground arith;
        whole = rw (← ea, ← eb) (sym (nil-append (String.◌∷◌ c s)));
        first = rw (← ea) refl;
      }
  | inr e ↦
      let h' : push_head c (split_first sep s) ≡ a ∷ b ∷ [] = rw e at h in
      let (a', ea, rest) = push_head-pieces c _ h' in
      let ih = split_first-Pieces sep s rest in
      record {
        at_char = ih.at_char;
        separates = ih.separates;
        whole = rw (ea, cons-append) (ap (λ t. String.◌∷◌ c t) ih.whole);
        first = rw (ea, contains_char, e) ih.first;
      }
]
