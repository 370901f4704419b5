-- ===== src/Status.antt =====
-- go/authn/internal/status: the body of a failed request, and how an error becomes one (status.go,
-- log.go).
pub mod Laws
pub mod Codes
use authn.Prelude.{
  ℕ, String, Bool, true, false, ◌&&◌, Option, none, some, List, [], ◌∷◌, leb, ltb, nat_eq,
  if◌then◌else◌,
}
use authn.Go.Error.{Arg, Reason, Error, errorf, wrapf, joined, api, caused, caused_privately}

-- What `err.Error()` renders. A CauseError renders its public error alone.
pub data Text : Type 0 where
  format : String → List Arg → Text
  format_with : String → List Arg → Text → Text
  lines : Text → Text → Text
  api_text : Reason → Text

unfoldable pub error_text : Error → Text
error_text (errorf f xs) = format f xs
error_text (wrapf f xs e) = format_with f xs (error_text e)
error_text (joined e e') = lines (error_text e) (error_text e')
error_text (api r) = api_text r
error_text (caused code cause e) = error_text e
error_text (caused_privately code cause e p) = error_text e

pub record StatusCause : Type 0 where
  pub reason : String
  pub message : Text

-- The values of Status.Status.
pub data Verdict : Type 0 where
  success failure : Verdict

pub record Status : Type 0 where
  pub kind : String
  pub api_version : String
  pub status : Verdict
  pub message : Option Text
  pub reason : String
  pub code : ℕ
  pub details : List StatusCause

-- The codes that the switch of `New` lists, with their reasons.
unfoldable pub listed_reason : ℕ → Option String
listed_reason code =
    if nat_eq code 400
    then some "BadRequest"
    else if nat_eq code 401
    then some "Unauthorized"
    else if nat_eq code 403
    then some "Forbidden"
    else if nat_eq code 404
    then some "NotFound"
    else if nat_eq code 409
    then some "Conflict"
    else if nat_eq code 410
    then some "Gone"
    else if nat_eq code 501
    then some "Invalid"
    else if nat_eq code 503
    then some "ServiceUnavailable"
    else if nat_eq code 406
    then some "NotAcceptable"
    else if nat_eq code 405
    then some "MethodNotAllowed"
    else if nat_eq code 500
    then some "InternalError"
    else if nat_eq code 413
    then some "RequestEntityTooLarge"
    else if nat_eq code 415
    then some "UnsupportedMediaType"
    else none

abbrev pub success_code : ℕ → Bool
success_code code = leb 200 code && leb code 299

abbrev judge : ℕ → Option String → Verdict × String
judge code (some reason) = (failure, reason)
judge code none = if success_code code then (success, "") else (failure, "")

-- The switch of `New`: the values of Status.Status and of Status.Reason.
unfoldable pub verdict : ℕ → Verdict × String
unfolding listed_reason
verdict code = judge code (listed_reason code)

-- New
unfoldable pub new : ℕ → Option Text → Status
unfolding verdict
new code message = record {
  kind = "Status";
  api_version = "v1";
  status = (verdict code).0;
  message = message;
  reason = (verdict code).1;
  code = code;
  details = [];
}

-- WithCause
unfoldable pub with_cause : String → Text → Status → Status
with_cause cause message s = record s {
  details = record { reason = cause; message = message } ∷ [];
}

abbrev pub bad_request : String → Error → Error
bad_request cause e = caused 400 cause e

abbrev pub refused : String → Error → Error
refused cause e = caused 403 cause e

abbrev pub refused_privately : String → Error → Error → Error
refused_privately cause public private = caused_privately 403 cause public private

abbrev pub failed : String → Error → Error
failed cause e = caused 500 cause e

-- The parts of a CauseError that a caller is told.
pub record Cause : Type 0 where
  pub code : ℕ
  pub cause : String
  pub public : Text
  pub private : Option Error

abbrev pub first_cause : Option Cause → Option Cause → Option Cause
first_cause (some c) d = some c
first_cause none d = d

-- errors.As(err, &CauseError): the first one in the chain of wrapped errors.
unfoldable pub as_cause : Error → Option Cause
unfolding error_text
as_cause (errorf f xs) = none
as_cause (wrapf f xs e) = as_cause e
as_cause (joined e e') = first_cause (as_cause e) (as_cause e')
as_cause (api r) = none
as_cause (caused code cause e) =
    some (record { code = code; cause = cause; public = error_text e; private = none })
as_cause (caused_privately code cause e p) =
    some (record { code = code; cause = cause; public = error_text e; private = some p })

unfoldable pub render : Text → Option Cause → Status
unfolding new with_cause
render text none = new 500 (some text)
render text (some c) = with_cause c.cause c.public (new c.code (some text))

-- FromError
unfoldable pub from_error : Error → Status
unfolding render as_cause error_text
from_error e = render (error_text e) (as_cause e)

pub data Level : Type 0 where
  warn error : Level

-- The event that LogFailure starts.
pub record LogEvent : Type 0 where
  pub level : Level
  pub err : Text
  pub code : ℕ
  pub cause : List StatusCause
  pub reason : Option Error

abbrev private_of : Option Cause → Option Error
private_of none = none
private_of (some c) = c.private

-- LogFailure
unfoldable pub log_failure : Error → LogEvent
unfolding from_error
log_failure e =
    let st = from_error e in
    record {
      level = if ltb st.code 500 then warn else error;
      err = error_text e;
      code = st.code;
      cause = st.details;
      reason = private_of (as_cause e);
    }
