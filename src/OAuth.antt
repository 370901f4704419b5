-- ===== src/OAuth.antt =====
-- go/authn/internal/routes/auth/oauth: logging in with an OAuth2 provider (login.go, support.go), and
-- go/authn/internal/helpers/kube/resolvers/oauthconfig.go.
pub mod Laws
pub mod Profile
pub mod Listing
use authn.Prelude.{
  ℕ, String, Bool, true, false, not, Option, none, some, List, [], ◌∷◌, ◌==◌, if◌then◌else◌,
}
use authn.Go.Text.{equal_fold}
use authn.Go.Error.{Error, errorf, wrapf, str, caused, is_not_found}
use authn.Go.Time.{Time, Duration}
use authn.Go.Dict.{Dict, lookup}
use authn.Go.Json.{Json, string_or_empty}
use authn.Go.Act.{Result, ok, err, Act, ◌>>=◌, ◌>>◌, or_fail, lift, return, rewrap}
use authn.Go.Check
use authn.Status.{bad_request, failed}
use authn.UserInfo.{Info, new_default_user}
use authn.UserInfo.Exts.{add}
use authn.Cluster.{Secrets, Os, ObjectRef, SecretKeySelector, get_operator_namespace}
use authn.CodeExchange
use authn.RestAction
use authn.Kubeconfig.{KubeConfig}
use authn.Encode.{Answer, Tokens, Extras, Strategy, success, handle}
use authn.OAuth.Profile.{UserInfo, update_config}

-- The spec of an OAuthConfig, as a login reads it. The Go field of clientSecretRef is a pointer; the
-- resource's schema (go/authn/crds/oauth.authn.krateo.io_oauthconfigs.yaml) requires it, so the API
-- gives no OAuthConfig without one.
pub record OauthSpec : Type 0 where
  pub client_id : String
  pub client_secret_ref : SecretKeySelector
  pub redirect_url : String
  pub scopes : List String
  pub auth_url : String
  pub token_url : String
  pub rest_action_ref : Option ObjectRef

-- oauth2.Config
pub record OauthConfig : Type 0 where
  pub client_id : String
  pub client_secret : String
  pub redirect_url : String
  pub scopes : List String
  pub auth_url : String
  pub token_url : String

-- oauth2.Token
pub record Token : Type 0 where
  pub token_type : String
  pub access_token : String

-- What the exchange of a code fails with: a RetrieveError with the response of the token endpoint,
-- or anything else.
pub data ExchangeError : Type 0 where
  retrieve_error : ℕ → String → Error → ExchangeError
  no_answer : Error → ExchangeError

pub data Exchanged : Type 0 where
  token : Token → Exchanged
  failure : ExchangeError → Exchanged

-- The parts of a request that the handler reads.
pub record Request : Type 0 where
  pub name : String
  pub auth_code : String
  pub code_verifier : String

-- What the login calls.
pub record Services (W : Type 0) : Type 0 where
  pub os : Os W
  -- client.New
  pub new_client : Act W (Unit {0})
  -- an OAuthConfig, by namespace and name
  pub get_config : String → String → Act W OauthSpec
  pub secrets : Secrets W
  pub is_path_segment : String → Bool
  -- oauth2.Config.Exchange, of a code and, where there is one, its verifier
  pub exchange : OauthConfig → String → Option String → W → Exchanged × W
  -- restaction.Resolve and restaction.LegacyResolve
  pub resolve : ObjectRef → String → Act W (Dict Json)
  pub legacy_resolve : ObjectRef → String → String → Act W (Dict Json)
  -- uuid.New and shortid.Generate
  pub new_uuid : W → String × W
  pub new_id : W → String × W
  pub make_dns1123_compatible : String → String
  pub tokens : Tokens W
  -- Generator.Generate
  pub generate : String → Info → Act W (KubeConfig × Time)

abbrev not_found_config : String → Error
not_found_config name =
    caused 404 "OAuthConfigNotFound" (errorf "OAuthConfig %q not found" (str name ∷ []))

-- The switch on the error of GetOAuthConfig.
unfoldable pub config_error : String → Error → Error
config_error name e =
    if is_not_found e
    then not_found_config name
    else failed "OAuthConfigLookupFailed" (wrapf "unable to resolve OAuth configuration: %w" [] e)

abbrev pub secret_in : String → Option String → Result String
secret_in key none =
    err
      (failed "ClientSecretLookupFailed" (errorf "the client secret has no key %q" (str key ∷ [])))
secret_in key (some secret) = ok secret

abbrev pub config_of : OauthSpec → String → OauthConfig
config_of spec client_secret = record {
  client_id = spec.client_id;
  client_secret = client_secret;
  redirect_url = spec.redirect_url;
  scopes = spec.scopes;
  auth_url = spec.auth_url;
  token_url = spec.token_url;
}

-- classifyExchange
unfoldable pub classify_exchange : ExchangeError → Error
classify_exchange (retrieve_error status_code error_code e) =
    CodeExchange.refusal status_code error_code e
classify_exchange (no_answer e) = CodeExchange.failed e

abbrev pub exchanged_in : {W : Type 0} → Exchanged × W → Result Token × W
exchanged_in (token tok, w) = (ok tok, w)
exchanged_in (failure e, w) = (err (classify_exchange e), w)

abbrev pub verifier_of : String → Option String
verifier_of verifier = if verifier == "" then none else some verifier

abbrev pub require_bearer : Token → Result (Unit {0})
require_bearer tok =
    Check.require (equal_fold tok.token_type "bearer")
      (CodeExchange.failed (errorf "oauth2 token is not type bearer: %s" (str tok.token_type ∷ [])))

abbrev pub named_or_error : Dict Json → Result (Dict Json)
named_or_error values =
    if string_or_empty (lookup "name" values) == ""
    then err (errorf "the RESTAction's answer has no name" [])
    else ok values

abbrev pub nobody : UserInfo
nobody = record { name = ""; email = ""; preferred_username = ""; groups = []; avatar_url = "" }

module _ {W : Type 0} (services : Services W) where
  open services use {os, new_client, secrets, resolve, legacy_resolve, make_dns1123_compatible}

  -- GetOAuthConfig
  unfoldable pub get_oauth_config : String → Act W OauthSpec
  get_oauth_config name = do
    ns ← or_fail (get_operator_namespace os) (wrapf "unable to resolve service namespace: %w" [])
    new_client
    services.get_config ns name

  -- getConfig
  unfoldable pub get_config : String → Act W (OauthConfig × Option ObjectRef)
  get_config name = do
    lift (Check.require (services.is_path_segment name) (not_found_config name))
    spec ← or_fail (get_oauth_config name) (config_error name)
    sec ←
        or_fail (secrets.get spec.client_secret_ref.namespace spec.client_secret_ref.name) (λ e.
          failed "ClientSecretLookupFailed" (wrapf "unable to read the client secret: %w" [] e))
    client_secret ←
        lift (secret_in spec.client_secret_ref.key (lookup spec.client_secret_ref.key sec.contents))
    return (config_of spec client_secret, spec.rest_action_ref)

  unfoldable pub exchange : OauthConfig → Request → Act W Token
  exchange cfg req w =
      exchanged_in (services.exchange cfg req.auth_code (verifier_of req.code_verifier) w)

  abbrev pub usable : Result (Dict Json) × W → Result (Dict Json) × W
  usable (err e, w) = (err e, w)
  usable (ok values, w) = (named_or_error values, w)

  abbrev pub or_legacy : ObjectRef → Token → Result (Dict Json) × W → Result (Dict Json) × W
  or_legacy ref tok (ok values, w) = (ok values, w)
  or_legacy ref tok (err e, w) =
      rewrap RestAction.failed
        (legacy_resolve ref (services.new_uuid w).0 tok.access_token (services.new_uuid w).1)

  -- restaction.Resolve with a name in its answer, and the legacy path where either fails.
  unfoldable pub fields_to_replace : ObjectRef → Token → Act W (Dict Json)
  fields_to_replace ref tok w = or_legacy ref tok (usable (resolve ref tok.access_token w))

  unfoldable pub user_of : Option ObjectRef → Token → Act W UserInfo
  user_of none tok = return nobody
  user_of (some ref) tok = do
    lift (require_bearer tok)
    values ← fields_to_replace ref tok
    or_fail (lift (update_config values nobody))
        (λ e. failed "RESTActionFailed" (wrapf "the RESTAction's answer is unusable: %w" [] e))

  -- validate
  unfoldable pub validate : UserInfo → Act W Info
  validate user w = (
    ok (
        new_default_user (make_dns1123_compatible user.preferred_username) (services.new_id w).0
          user.groups
          (add "avatarUrl" user.avatar_url (add "email" user.email (add "name" user.name [])))),
    (services.new_id w).1,
  )

  -- The handler, as far as the identity.
  unfoldable pub authenticate : Request → Act W Info
  authenticate req = do
    lift (
        Check.require (not (req.name == ""))
          (bad_request "MissingConfigName" (errorf "OAuthConfig 'name' must be specified" [])))
    lift (
        Check.require (not (req.auth_code == "")) (
          bad_request "MissingAuthorizationCode"
            (errorf "the %s header must carry the authorization code" (str "X-Auth-Code" ∷ []))))
    cfg ← get_config req.name
    tok ← exchange cfg.0 req
    user ← user_of cfg.1 tok
    validate user

  module _ (jwt_duration : Duration) (jwt_private_key : Bool) (jwt_key_id : String) where
    abbrev pub extras : Request → Info → Time → Extras
    extras req user not_after = record {
      user_info = some user;
      strategy = some (record { kind = "oauth"; name = req.name });
      jwt_duration = jwt_duration;
      jwt_private_key = jwt_private_key;
      jwt_key_id = jwt_key_id;
      cert_not_after = not_after;
    }

    unfoldable pub login : Request → Act W (Answer KubeConfig)
    login req = do
      user ← authenticate req
      issued ←
          or_fail (services.generate "oauth" user)
            (λ e. failed "IssuanceFailed" (wrapf "issuing clientconfig: %w" [] e))
      success services.tokens issued.0 (some (extras req user issued.1))

    -- loginRoute.Handler
    unfoldable pub handler : Request → W → Answer KubeConfig × W
    handler req = handle (login req)
