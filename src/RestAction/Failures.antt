-- ===== src/RestAction/Failures.antt =====
-- What a caller is told of a failed RESTAction (failure.go).
use authn.Prelude.{
  ℕ, String, ◌≡◌, ap, ◌∙◌, true, some, List, [], ◌∷◌, ◌==◌, eq_iff, Bool-cases, Option-cases, inl,
  inr,
}
use authn.Go.Error.{
  Error, Arg, num, str, strs, errorf, wrapf, joined, api, caused, caused_privately,
}
use authn.Status.{from_error, as_cause, error_text, render}
use authn.RestAction.{failed, as_snowplow, public_text, in_form, snowplow_format}

-- An answer of snowplow that is no success, somewhere in an error: its code, its reason and its message.
pub data Carries (code : ℕ) (reason message : String) : Error → Type 0 where
  itself :
      Carries code reason message
        (errorf "snowplow answered %d %s: %s" (num code ∷ str reason ∷ str message ∷ []))
  wrapped :
      (f : String) (xs : List Arg) (e : Error)
      → Carries code reason message e
      → Carries code reason message (wrapf f xs e)
  first : (e e' : Error) → Carries code reason message e → Carries code reason message (joined e e')
  second :
      (e e' : Error) → Carries code reason message e' → Carries code reason message (joined e e')
  public :
      (c : ℕ) (t : String) (e : Error)
      → Carries code reason message e
      → Carries code reason message (caused c t e)
  public_part :
      (c : ℕ) (t : String) (e p : Error)
      → Carries code reason message e
      → Carries code reason message (caused_privately c t e p)

-- What a caller is told of a failed RESTAction: nothing of the failure, or the code and the reason of an
-- answer of snowplow that it carries.
pub data Told (e : Error) : Type 0 where
  nothing :
      from_error (failed e)
        ≡ from_error
            (caused 500 "RESTActionFailed" (errorf "the RESTAction could not be resolved" []))
      → Told e
  of_answer :
      (code : ℕ) (reason message : String)
      → Carries code reason message e
      → from_error (failed e)
        ≡ from_error (
            caused 500 "RESTActionFailed" (
              errorf "the RESTAction could not be resolved: snowplow answered %d %s"
                (num code ∷ str reason ∷ [])))
      → Told e

abbrev Found : Error → ℕ × String → Type 0
Found e s = (message : String) × Carries s.0 s.1 message e

as_num : Arg → ℕ
as_num (num n) = n
as_num (str s) = 0
as_num (strs ss) = 0

in_form-itself :
    (f : String) (xs : List Arg) (s : ℕ × String)
    → in_form (f == snowplow_format) xs ≡ some s
    → Found (errorf f xs) s
in_form-itself f xs s h = elim (Bool-cases (f == snowplow_format)) [
  | inl e ↦ rw ((eq_iff f snowplow_format).0 e) (shape xs (rw e at h))
  | inr e ↦ absurd (cc (rw e at h))
]
  where
    shape : (xs : List Arg) → in_form true xs ≡ some s → Found (errorf snowplow_format xs) s
    shape [] h = cc
    shape (num c ∷ []) h = cc
    shape (num c ∷ str r ∷ []) h = cc
    shape (num c ∷ str r ∷ str m ∷ []) h = let same : (c, r) ≡ s = cc in rw (← same) (m, itself)
    shape (num c ∷ str r ∷ str m ∷ a ∷ xs) h = cc
    shape (num c ∷ str r ∷ num m ∷ xs) h = cc
    shape (num c ∷ str r ∷ strs m ∷ xs) h = cc
    shape (num c ∷ num r ∷ xs) h = cc
    shape (num c ∷ strs r ∷ xs) h = cc
    shape (str c ∷ xs) h = cc
    shape (strs c ∷ xs) h = cc

as_snowplow-Found : (e : Error) (s : ℕ × String) → as_snowplow e ≡ some s → Found e s
unfolding as_snowplow
as_snowplow-Found (errorf f xs) s h = in_form-itself f xs s h
as_snowplow-Found (wrapf f xs e) s h = let (m, c) = as_snowplow-Found e s h in (m, wrapped f xs e c)
as_snowplow-Found (joined e e') s h = elim (Option-cases (as_snowplow e)) [
  | inl n ↦ let (m, c) = as_snowplow-Found e' s (rw n at h) in (m, second e e' c)
  | inr (t, q) ↦ let (m, c) = as_snowplow-Found e s (q ∙ rw q at h) in (m, first e e' c)
]
as_snowplow-Found (api r) s h = cc
as_snowplow-Found (caused c t e) s h = let (m, k) = as_snowplow-Found e s h in (m, public c t e k)
as_snowplow-Found (caused_privately c t e p) s h =
    let (m, k) = as_snowplow-Found e s h in (m, public_part c t e p k)

-- A caller is told of a failed RESTAction nothing but that it failed, or besides this the code and the
-- reason of an answer of snowplow that the failure carries: never the message of that answer, and
-- nothing of any other failure.
pub failed-Told : (e : Error) → Told e
unfolding failed from_error as_cause error_text render
failed-Told e = elim (Option-cases (as_snowplow e)) [
  | inl n ↦
      nothing (ap (λ s. from_error (caused_privately 500 "RESTActionFailed" (public_text s) e)) n)
  | inr ((code, reason), q) ↦
      let (message, c) = as_snowplow-Found e (code, reason) q in
      of_answer code reason message c
        (ap (λ s. from_error (caused_privately 500 "RESTActionFailed" (public_text s) e)) q)
]
