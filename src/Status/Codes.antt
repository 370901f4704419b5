-- ===== src/Status/Codes.antt =====
-- The codes with which errors are answered (status.go).
use authn.Prelude.{ℕ, String, ◌≡◌, refl}
use authn.Go.Error.{Error, caused}
use authn.Status.{from_error, refused, refused_privately, failed, render, as_cause, new, error_text}

abbrev pub code_of : Error → ℕ
code_of e = (from_error e).code

pub caused-code : (code : ℕ) (cause : String) (e : Error) → code_of (caused code cause e) ≡ code
unfolding from_error render as_cause new
caused-code code cause e = refl

pub refused-code : (cause : String) (e : Error) → code_of (refused cause e) ≡ 403
refused-code cause e = caused-code 403 cause e

pub failed-code : (cause : String) (e : Error) → code_of (failed cause e) ≡ 500
failed-code cause e = caused-code 500 cause e

pub refused_privately-code :
    (cause : String) (public reason : Error) → code_of (refused_privately cause public reason) ≡ 403
unfolding from_error render as_cause new
refused_privately-code cause public reason = refl

-- The private reason of a refusal does not change its answer.
pub refused_privately-alike :
    (cause : String) (public reason other : Error)
    → from_error (refused_privately cause public reason)
      ≡ from_error (refused_privately cause public other)
unfolding from_error render as_cause error_text
refused_privately-alike cause public reason other = refl
