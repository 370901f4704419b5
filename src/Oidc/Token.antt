-- ===== src/Oidc/Token.antt =====
-- What an ID token says of its user, and the claims it is read from (support.go).
use authn.Prelude.{String, Option, none, some, List, []}
use authn.Go.Error.{errorf}
use authn.Go.Time.{Time}
use authn.Go.Dict.{Dict, lookup}
use authn.Go.Json.{Json, string, array, present, all_strings}
use authn.Go.Act.{Result, ok, err}

-- idToken
pub record IdToken : Type 0 where
  pub acr : String
  pub auth_time : Time
  pub bearer_token : String
  pub name : String
  pub email : String
  pub preferred_username : String
  pub groups : List String
  pub avatar_url : String

-- TokenResponse, the two fields that are read
pub record TokenResponse : Type 0 where
  pub access_token : String
  pub id_token : String

abbrev pub text_of : Option Json → Result (Option String)
text_of none = ok none
text_of (some (string s)) = ok (some s)
text_of (some v) = err (errorf "is not a string" [])

-- stringClaim; `none` is "not there"
unfoldable pub string_claim : Dict Json → String → Result (Option String)
unfolding present
string_claim m key = text_of (present (lookup key m))

abbrev pub strings_or_error : Option (List String) → Result (Option (List String))
strings_or_error none = err (errorf "is not a list of strings" [])
strings_or_error (some v) = ok (some v)

abbrev pub texts_of : Option Json → Result (Option (List String))
texts_of none = ok none
texts_of (some (array items)) = strings_or_error (all_strings items)
texts_of (some v) = err (errorf "is not a list of strings" [])

-- stringListClaim
unfoldable pub string_list_claim : Dict Json → String → Result (Option (List String))
unfolding present all_strings
string_list_claim m key = texts_of (present (lookup key m))
