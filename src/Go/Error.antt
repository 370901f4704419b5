-- ===== src/Go/Error.antt =====
-- Go errors as values: each is the format it was made with, the values its text shows, and the error
-- it wraps (`%w`). The rendered text itself plays no part in what the program decides.
use authn.Prelude.{ℕ, String, Bool, true, false, ◌||◌, Option, none, some, List, ◌==◌}

-- What a format's verbs are given.
pub data Arg : Type 0 where
  str : String → Arg
  num : ℕ → Arg
  strs : List String → Arg

-- The verdicts of the Kubernetes API that the program tells apart (apimachinery's IsNotFound,
-- IsAlreadyExists, IsConflict); `other` is any other failure.
pub data Reason : Type 0 where
  not_found already_exists conflict : Reason
  other : String → Reason

pub data Error : Type 0 where
  errorf : String → List Arg → Error
  wrapf : String → List Arg → Error → Error
  joined : Error → Error → Error
  api : Reason → Error
  -- status.CauseError: the code, the cause and the public error, without and with a private reason
  caused : ℕ → String → Error → Error
  caused_privately : ℕ → String → Error → Error → Error

abbrev or_else : Option Reason → Option Reason → Option Reason
or_else (some r) s = some r
or_else none s = s

-- errors.As for the API's status errors: the first one in the chain of wrapped errors.
unfoldable pub reason_of : Error → Option Reason
reason_of (errorf f xs) = none
reason_of (wrapf f xs e) = reason_of e
reason_of (joined e e') = or_else (reason_of e) (reason_of e')
reason_of (api r) = some r
reason_of (caused c t e) = reason_of e
reason_of (caused_privately c t e p) = reason_of e

abbrev is : Option Reason → Reason → Bool
is (some not_found) not_found = true
is (some already_exists) already_exists = true
is (some conflict) conflict = true
is _ _ = false

unfoldable pub is_not_found : Error → Bool
unfolding reason_of
is_not_found e = is (reason_of e) not_found

unfoldable pub is_already_exists : Error → Bool
unfolding reason_of
is_already_exists e = is (reason_of e) already_exists

unfoldable pub is_conflict : Error → Bool
unfolding reason_of
is_conflict e = is (reason_of e) conflict

-- errors.Is for an error that `errors.New` made with a text of its own.
unfoldable pub is_error : String → Error → Bool
is_error text (errorf f xs) = f == text
is_error text (wrapf f xs e) = is_error text e
is_error text (joined e e') = is_error text e || is_error text e'
is_error text (api r) = false
is_error text (caused c t e) = is_error text e
is_error text (caused_privately c t e p) = is_error text e
