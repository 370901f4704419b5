-- ===== src/Oidc/Profile.antt =====
-- Reading an identity from an ID token's claims and from the UserInfo endpoint (support.go).
pub mod Laws
use authn.Prelude.{ℕ, String, Option, none, some, List, [], ◌∷◌}
use authn.Prelude.Int.{ℤ, pos}
use authn.Go.Text.{split}
use authn.Go.Error.{Error, errorf, wrapf, str}
use authn.Go.Time.{Time, unix}
use authn.Go.Dict.{Dict, lookup}
use authn.Go.Json.{Json, number, present}
use authn.Go.Act.{Result, ok, err}
use authn.Go.Check.{◌>>=◌, or_err, return}
use authn.Status.{refused, failed}
use authn.Oidc.Token.{IdToken, string_claim, string_list_claim}

-- The profile claims, in the order of the list.
pub data Profile : Type 0 where
  username_claim name_claim picture_claim email_claim : Profile

abbrev pub profile : List Profile
profile = username_claim ∷ name_claim ∷ picture_claim ∷ email_claim ∷ []

abbrev pub claim_key : Profile → String
claim_key username_claim = "preferred_username"
claim_key name_claim = "name"
claim_key picture_claim = "picture"
claim_key email_claim = "email"

abbrev pub set_claim : Profile → String → IdToken → IdToken
set_claim username_claim v tok = record tok { preferred_username = v }
set_claim name_claim v tok = record tok { name = v }
set_claim picture_claim v tok = record tok { avatar_url = v }
set_claim email_claim v tok = record tok { email = v }

abbrev pub invalid : String → Error → Error
invalid key e = refused "IDTokenInvalid" (wrapf "ID token claim %s %w" (str key ∷ []) e)

abbrev pub skip_claim : Profile → IdToken × List Profile → IdToken × List Profile
skip_claim c (tok, missing) = (tok, c ∷ missing)

abbrev pub set_or_skip : Profile → Option String → IdToken × List Profile → IdToken × List Profile
set_or_skip c none read = skip_claim c read
set_or_skip c (some v) (tok, missing) = (set_claim c v tok, missing)

-- The loop over the profile claims: the token with those that are there, and those that are not.
unfoldable pub read_profile : Dict Json → List Profile → IdToken → Result (IdToken × List Profile)
read_profile claims [] tok = ok (tok, [])
read_profile claims (c ∷ cs) tok = do
  v ← or_err (string_claim claims (claim_key c)) (invalid (claim_key c))
  rest ← read_profile claims cs tok
  return (set_or_skip c v rest)

abbrev pub text_or_empty : Option String → String
text_or_empty none = ""
text_or_empty (some v) = v

abbrev pub texts_or_nil : Option (List String) → List String
texts_or_nil none = []
texts_or_nil (some v) = v

unfoldable pub auth_time_of : Option Json → Result Time
auth_time_of none = ok (pos 0)
auth_time_of (some (number n)) = ok (unix n)
auth_time_of (some v) = err (invalid "auth_time" (errorf "is not a number" []))

abbrev pub dated_token : String → Time → String → IdToken
dated_token acr auth_time bearer_token = record {
  acr = acr;
  auth_time = auth_time;
  bearer_token = bearer_token;
  name = "";
  email = "";
  preferred_username = "";
  groups = [];
  avatar_url = "";
}

-- What doLogin reads of the validated claims.
unfoldable pub read_claims : Dict Json → String → Result (IdToken × List Profile)
read_claims claims access_token = do
  acr ← or_err (string_claim claims "acr") (invalid "acr")
  auth_time ← auth_time_of (present (lookup "auth_time" claims))
  read ← read_profile claims profile (dated_token (text_or_empty acr) auth_time access_token)
  groups ← or_err (string_list_claim claims "groups") (invalid "groups")
  return (record read.0 { groups = texts_or_nil groups }, read.1)

abbrev pub set_or_keep : Profile → Option String → IdToken → IdToken
set_or_keep c none tok = tok
set_or_keep c (some v) tok = set_claim c v tok

-- The loop over the missing claims, in UserInfo's answer.
unfoldable pub fill_profile : Dict Json → List Profile → IdToken → Result IdToken
fill_profile user_info [] tok = ok tok
fill_profile user_info (c ∷ cs) tok = do
  v ←
      or_err (string_claim user_info (claim_key c))
        (λ e. failed "UserInfoFailed" (wrapf "userinfo field %s %w" (str (claim_key c) ∷ []) e))
  fill_profile user_info cs (set_or_keep c v tok)

abbrev pub payload_part : List String → Result String
payload_part (header ∷ payload ∷ signature ∷ []) = ok payload
payload_part _ = err (errorf "invalid token: expected 3 parts, got %d" [])

-- decodeJWT, with the decoder of base64url and of JSON; `%v` does not wrap
unfoldable pub decode_jwt :
    (String → Result String) → (String → Result (Dict Json)) → String → Result (Dict Json)
unfolding split
decode_jwt decode_base64url unmarshal_object token = do
  part ← payload_part (split 46 token)
  payload ← or_err (decode_base64url part) (λ e. errorf "error decoding payload: %v" [])
  or_err (unmarshal_object payload) (λ e. errorf "error parsing payload JSON: %v" [])
