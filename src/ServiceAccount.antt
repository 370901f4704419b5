-- ===== src/ServiceAccount.antt =====
-- go/authn/internal/routes/auth/serviceaccount/login.go: logging in with the token of a ServiceAccount.
pub mod Allowlist
pub mod Blame
pub mod Laws
pub mod Mapping
pub mod Reviewing
pub mod Usernames
use Prim.Native.String
use authn.Prelude.{
  ℕ, code, String, Bool, true, false, not, ◌&&◌, ◌||◌, ◌+◌, Option, none, some, List, [], ◌∷◌, leb,
  nat_eq, ◌==◌, if◌then◌else◌,
}
use authn.Go.Text.{has_prefix, drop_prefix, split_first, trim_space, drop_folded}
use authn.Go.Error.{Error, errorf, wrapf, joined, str, is_error}
use authn.Go.Time.{Time, Duration}
use authn.Go.Act.{Result, ok, err, Act, ◌>>=◌, ◌>>◌, or_fail, lift, return}
use authn.Go.Check
use authn.Status.{refused, failed, new, with_cause, error_text}
use authn.UserInfo.{Info, new_default_user}
use authn.UserInfo.Exts.{add}
use authn.Kubeconfig.{KubeConfig}
use authn.Encode.{Answer, Tokens, Extras, Strategy, refusal, success, handle}
use authn.ServiceAccount.Reviewing.{Review, reviewed}
use authn.ServiceAccount.Mapping.{
  Resolver, SaMapping, service_account_for_sa, err_no_mapping, err_ambiguous_mapping,
}

abbrev pub default_audience : String
default_audience = "authn"

-- Login: the audience that is asked for
unfoldable pub audience_or_default : String → String
audience_or_default aud = if aud == "" then default_audience else aud

abbrev bearer_rest : Option String → Option String
bearer_rest none = none
bearer_rest (some String.[]) = none
bearer_rest (some (String.◌∷◌ c s)) = some (trim_space (String.◌∷◌ c s))

-- bearerToken, of the Authorization header
unfoldable pub bearer_token : String → Option String
bearer_token h = bearer_rest (drop_folded h "Bearer ")

-- What the login calls.
pub record Login (W : Type 0) : Type 0 where
  -- kubernetes.NewForConfig
  pub new_clientset : Act W (Unit {0})
  -- TokenReviews().Create, of a token and the audiences that it must be bound to
  pub review : String → List String → Act W Review
  pub resolver : Resolver W
  -- shortid.Generate
  pub new_id : W → String × W
  pub audience : String
  pub tokens : Tokens W
  -- Generator.Generate
  pub generate : String → Info → Act W (KubeConfig × Time)

abbrev pub lookup_failure : Error → Error
lookup_failure e =
    if is_error err_no_mapping e
    then refused "NoMapping" e
    else if is_error err_ambiguous_mapping e
    then refused "AmbiguousMapping" e
    else failed "MappingLookupFailed" e

module _ {W : Type 0} (sa : Login W) where
  abbrev pub identity : SaMapping → Act W Info
  identity m w = (
    ok (new_default_user m.name (sa.new_id w).0 m.groups (add "name" m.display_name [])),
    (sa.new_id w).1,
  )

  -- validate
  unfoldable pub validate : String → Act W Info
  validate token = do
    or_fail sa.new_clientset
        (λ e. failed "TokenReviewFailed" (wrapf "token review: building the client: %w" [] e))
    tr ←
        or_fail (sa.review token (sa.audience ∷ []))
          (λ e. failed "TokenReviewFailed" (wrapf "token review: %w" [] e))
    names ← lift (reviewed sa.audience tr)
    m ← or_fail (service_account_for_sa sa.resolver names.0 names.1) lookup_failure
    identity m

  module _ (jwt_duration : Duration) (jwt_private_key : Bool) (jwt_key_id : String) where
    abbrev extras : Info → Time → Extras
    extras user not_after = record {
      user_info = some user;
      strategy = some (record { kind = "serviceaccount"; name = "" });
      jwt_duration = jwt_duration;
      jwt_private_key = jwt_private_key;
      jwt_key_id = jwt_key_id;
      cert_not_after = not_after;
    }

    -- The kubeconfig is not part of the answer.
    unfoldable pub login : String → Act W (Answer (Unit {0}))
    login token = do
      user ← validate token
      issued ←
          or_fail (sa.generate "serviceaccount" user)
            (λ e. failed "IssuanceFailed" (wrapf "issuing clientconfig: %w" [] e))
      success sa.tokens tt (some (extras user issued.1))

    abbrev missing_bearer : Error
    missing_bearer = errorf "missing bearer token" []

    abbrev answer_to : Option String → W → Answer (Unit {0}) × W
    answer_to none w = (
      refusal (
          with_cause "MissingBearer" (error_text missing_bearer)
            (new 401 (some (error_text missing_bearer)))),
      w,
    )
    answer_to (some token) w = handle (login token) w

    -- loginRoute.Handler, on the Authorization header
    unfoldable pub handler : String → W → Answer (Unit {0}) × W
    handler authorization w = answer_to (bearer_token authorization) w
