-- ===== src/Status/Laws.antt =====
-- What a caller is told of an error (status.go, log.go).
use authn.Prelude.{
  ℕ, ◌≤◌, ◌<◌, ◌≡◌, refl, sym, ◌↔◌, Option, none, some, arith, Option-cases, inl, inr, String,
}
use authn.Go.Error.{Error, errorf, wrapf, joined, api, caused, caused_privately}
use authn.Status.{
  Text, Cause, error_text, as_cause, new, verdict, success, listed_reason, from_error, log_failure,
  warn, render, first_cause,
}

-- The same error with every private reason taken out.
pub disclose : Error → Error
disclose (errorf f xs) = errorf f xs
disclose (wrapf f xs e) = wrapf f xs (disclose e)
disclose (joined e e') = joined (disclose e) (disclose e')
disclose (api r) = api r
disclose (caused code cause e) = caused code cause (disclose e)
disclose (caused_privately code cause e p) = caused code cause (disclose e)

error_text-disclose : (e : Error) → error_text (disclose e) ≡ error_text e
unfolding error_text disclose
error_text-disclose (errorf f xs) = refl
error_text-disclose (wrapf f xs e) = rw (error_text-disclose e)
error_text-disclose (joined e e') = rw (error_text-disclose e, error_text-disclose e')
error_text-disclose (api r) = refl
error_text-disclose (caused code cause e) = error_text-disclose e
error_text-disclose (caused_privately code cause e p) = error_text-disclose e

abbrev strip : Option Cause → Option Cause
strip none = none
strip (some c) = some (record c { private = none })

strip-first_cause : (c d : Option Cause) → strip (first_cause c d) ≡ first_cause (strip c) (strip d)
strip-first_cause none d = refl
strip-first_cause (some c) d = refl

as_cause-disclose : (e : Error) → as_cause (disclose e) ≡ strip (as_cause e)
unfolding as_cause disclose
as_cause-disclose (errorf f xs) = refl
as_cause-disclose (wrapf f xs e) = as_cause-disclose e
as_cause-disclose (joined e e') =
    rw (as_cause-disclose e, as_cause-disclose e') (sym (strip-first_cause _ _))
as_cause-disclose (api r) = refl
as_cause-disclose (caused code cause e) = rw (error_text-disclose e)
as_cause-disclose (caused_privately code cause e p) = rw (error_text-disclose e)

render-strip : (t : Text) (c : Option Cause) → render t (strip c) ≡ render t c
unfolding render
render-strip t none = refl
render-strip t (some c) = refl

-- The answer to a failure does not depend on any private reason of the error: taking all of them
-- out gives the same answer.
pub from_error-disclose : (e : Error) → from_error (disclose e) ≡ from_error e
unfolding from_error
from_error-disclose e =
    rw (error_text-disclose e, as_cause-disclose e) (render-strip (error_text e) (as_cause e))

listed_reason-ge : (code : ℕ) {r : String} → listed_reason code ≡ some r → 400 ≤ code
unfolding listed_reason
listed_reason-ge code h = ground arith

verdict-success_iff : (code : ℕ) → ((verdict code).0 ≡ success) ↔ ((200 ≤ code) × (code ≤ 299))
unfolding verdict
verdict-success_iff code = elim (Option-cases (listed_reason code)) [
  | inl e ↦ rw e (ground arith)
  | inr (r, e) ↦ let ge : 400 ≤ code = listed_reason-ge code e in rw e (ground arith)
]

-- A status has the word Success exactly for the codes 200 to 299.
pub new-success_iff :
    (code : ℕ) (message : Option Text)
    → ((new code message).status ≡ success) ↔ ((200 ≤ code) × (code ≤ 299))
unfolding new
new-success_iff code message = verdict-success_iff code

-- A failure is logged as a warning exactly when its answer has a code below 500.
pub log_failure-warn_iff :
    (e : Error) → ((log_failure e).level ≡ warn) ↔ ((from_error e).code < 500)
unfolding log_failure
log_failure-warn_iff e = ground arith
