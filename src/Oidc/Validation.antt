-- ===== src/Oidc/Validation.antt =====
-- The checks of an ID token's claims (idtoken.go).
pub mod Laws
use authn.Prelude.{
  ℕ, String, Bool, true, false, not, ◌||◌, Option, none, some, List, [], ◌∷◌, length, leb, ◌==◌,
  if◌then◌else◌,
}
use authn.Prelude.Int.{ℤ, pos}
use authn.Go.Error.{Error, errorf, str, strs}
use authn.Go.Time.{Time, minute, unix, add, before}
use authn.Go.Dict.{Dict, lookup}
use authn.Go.Json.{Json, string, array, number, string_or_empty, all_strings}
use authn.Go.Act.{Result, ok, err}
use authn.Go.Check.{◌>>=◌, ◌>>◌, require, or_err}
use authn.Status.{refused, failed}

abbrev pub clock_skew : ℤ
clock_skew = pos minute

abbrev all_or_error : Option (List String) → Result (List String)
all_or_error none = err (errorf "ID token aud has a non-string value %v" [])
all_or_error (some out) = ok out

-- audiences
unfoldable pub audiences : Option Json → Result (List String)
unfolding all_strings
audiences (some (string aud)) = ok (aud ∷ [])
audiences (some (array aud)) = all_or_error (all_strings aud)
audiences _ = err (errorf "ID token has no aud" [])

-- contains
unfoldable pub contains : List String → String → Bool
contains [] want = false
contains (x ∷ xs) want = if x == want then true else contains xs want

-- `exp, ok := claims["exp"].(float64)`
unfoldable pub numeric : Option Json → Result ℤ
numeric (some (number n)) = ok n
numeric _ = err (errorf "ID token has no numeric exp" [])

-- validateIDToken
unfoldable pub validate_id_token : Dict Json → String → String → Time → Result (Unit {0})
validate_id_token claims issuer client_id now = do
  require (not (issuer == "")) (
      failed "IssuerUnknown" (
        errorf "no issuer to validate the ID token against: set spec.issuer or spec.discoveryURL"
          []))
  require (string_or_empty (lookup "iss" claims) == issuer) (
      refused "IssuerMismatch" (
        errorf "ID token issuer %q, expected %q"
          (str (string_or_empty (lookup "iss" claims)) ∷ str issuer ∷ [])))
  aud ← or_err (audiences (lookup "aud" claims)) (refused "IDTokenInvalid")
  require (contains aud client_id) (
      refused "AudienceMismatch"
        (errorf "ID token audience %q does not include client %q" (strs aud ∷ str client_id ∷ [])))
  require (leb (length aud) 1 || string_or_empty (lookup "azp" claims) == client_id) (
      refused "AudienceMismatch" (
        errorf "ID token has several audiences and azp %q is not client %q"
          (str (string_or_empty (lookup "azp" claims)) ∷ str client_id ∷ [])))
  exp ← or_err (numeric (lookup "exp" claims)) (refused "IDTokenInvalid")
  require (not (before (add (unix exp) clock_skew) now))
      (refused "TokenExpired" (errorf "ID token expired at %s" []))
