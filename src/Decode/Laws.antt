-- ===== src/Decode/Laws.antt =====
-- Which bodies are read (decode.go).
use authn.Prelude.{◌≡◌, ◌↔◌, refl, ap, true, Bool-cases, inl, inr, ◌||◌, ◌==◌, sym}
use mathlib.Core.Bool.{false≢true}
use mathlib.Core.Path.{subst}
use authn.Decode.{
  Body, Decoded, value, failure, end_of_input, BodyRead, body, no_body, BodyError, decoded,
  syntax_error, unexpected_end, wrong_type, other_error, json_body,
}

read_of : {A : Type 0} → A → BodyRead A → A
read_of a (body b) = b
read_of a (no_body e) = a

IsBody : {A : Type 0} → BodyRead A → Type 0
IsBody (body a) = Unit
IsBody (no_body e) = ⊥

body-injective : {A : Type 0} {a b : A} → body a ≡ body b → a ≡ b
unfolding read_of
body-injective {a = a} h = ap (λ r. read_of a r) h

no_body-ne : {A : Type 0} {e : BodyError} {a : A} → ¬ (no_body e ≡ body a)
unfolding IsBody
no_body-ne h = subst IsBody (sym h) tt

-- What is decoded is the value exactly when the first Decode gives it and the second one the end.
decoded_iff :
    {A : Type 0} (first : Decoded A) (second : Decoded (Unit {0})) (a : A)
    → (decoded first second ≡ body a) ↔ ((first ≡ value a) × (second ≡ failure end_of_input))
decoded_iff first second a = (there first second, λ (v, z). rw v (rw z refl))
  where
    there :
        (first : Decoded _) (second : Decoded (Unit {0}))
        → decoded first second ≡ body a
        → (first ≡ value a) × (second ≡ failure end_of_input)
    there (failure e) second h = absurd (no_body-ne h)
    there (value b) (value u) h = absurd (no_body-ne h)
    there (value b) (failure end_of_input) h = (ap (λ v. value v) (body-injective h), refl)
    there (value b) (failure (syntax_error n)) h = absurd (no_body-ne h)
    there (value b) (failure unexpected_end) h = absurd (no_body-ne h)
    there (value b) (failure (wrong_type f n)) h = absurd (no_body-ne h)
    there (value b) (failure (other_error t)) h = absurd (no_body-ne h)

-- A body is read as a value exactly when the request has no Content-Type or the media type
-- application/json, the first value of the body decodes to that value, and nothing follows it.
pub json_body_iff :
    {A : Type 0} (b : Body A) (a : A)
    → (json_body b ≡ body a) ↔ (
        ((b.content_type == "" || b.media_type == "application/json") ≡ true)
        × (b.first ≡ value a)
        × (b.second ≡ failure end_of_input))
unfolding json_body
json_body_iff b a = elim (Bool-cases (b.content_type == "" || b.media_type == "application/json")) [
  | inl e ↦ rw e (
    λ h. let (v, z) = (decoded_iff b.first b.second a).0 h in (refl, v, z),
    λ (t, v, z). (decoded_iff b.first b.second a).1 (v, z),
  )
  | inr e ↦ rw e (λ h. absurd (no_body-ne h), λ (t, v, z). absurd (false≢true t))
]
