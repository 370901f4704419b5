-- ===== src/ServiceAccount/Reviewing.antt =====
-- go/authn/internal/routes/auth/serviceaccount/login.go: what the review of a token must say, and whose
-- token it is.
use authn.Prelude.{String, Bool, false, not, ◌||◌, List, [], ◌∷◌, ◌==◌, if◌then◌else◌}
use authn.Go.Text.{has_prefix, drop_prefix, split_first}
use authn.Go.Error.{Error, errorf, str}
use authn.Go.Act.{Result, ok, err}
use authn.Go.Check.{◌>>◌, require, or_err}
use authn.Status.{refused}

-- containsAudience
unfoldable pub contains_audience : List String → String → Bool
contains_audience [] want = false
contains_audience (a ∷ auds) want = a == want || contains_audience auds want

abbrev pub username_prefix : String
username_prefix = "system:serviceaccount:"

abbrev pub malformed : String → Error
malformed u = errorf "malformed service account username %q" (str u ∷ [])

abbrev pub parts_of : String → List String → Result (String × String)
parts_of u (ns ∷ name ∷ []) = if ns == "" || name == "" then err (malformed u) else ok (ns, name)
parts_of u _ = err (malformed u)

-- parseServiceAccountUsername
unfoldable pub parse_service_account_username : String → Result (String × String)
parse_service_account_username u =
    if not (has_prefix u username_prefix)
    then err (errorf "not a service account token (username %q)" (str u ∷ []))
    else parts_of u (split_first 58 (drop_prefix u username_prefix))

-- The status of a TokenReview.
pub record Review : Type 0 where
  pub authenticated : Bool
  pub username : String
  pub audiences : List String
  pub error : String

abbrev pub not_authenticated : String → Error
not_authenticated error =
    if error == ""
    then errorf "token not authenticated" []
    else errorf "token not authenticated: %s" (str error ∷ [])

-- The checks of a review, by the audience that is asked for.
abbrev pub reviewed : String → Review → Result (String × String)
reviewed audience tr = do
  require tr.authenticated (refused "TokenNotAuthenticated" (not_authenticated tr.error))
  require (contains_audience tr.audiences audience) (
      refused "AudienceMismatch"
        (errorf "token audience mismatch (require %q)" (str audience ∷ [])))
  or_err (parse_service_account_username tr.username) (refused "NotAServiceAccount")
