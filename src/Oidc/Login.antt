-- ===== src/Oidc/Login.antt =====
-- The handlers of /oidc/login and /oidc/stepup (login.go, stepup.go, support.go).
pub mod Admission
pub mod Laws
pub mod Granted
use authn.RestAction
use authn.Cluster.{ObjectRef}
use authn.Cluster.{SecretKeySelector}
use authn.Prelude.{
  ℕ, String, Bool, true, false, not, Option, none, some, List, [], ◌∷◌, ◌==◌, if◌then◌else◌,
  slices_contains,
}
use authn.Prelude.Int.{pos}
use authn.Go.Error.{Error, errorf, wrapf, str, is_not_found, is_error, caused, caused_privately}
use authn.Go.Time.{Time, Duration}
use authn.Go.Dict.{Dict, lookup}
use authn.Go.Json.{Json}
use authn.Go.Act.{Result, ok, err, Act, ◌>>=◌, ◌>>◌, or_fail, lift, return, throw, rewrap}
use authn.Status.{bad_request, refused, failed}
use authn.UserInfo.{Info, new_default_user, new_step_up_user}
use authn.UserInfo.Exts.{add}
use authn.Cluster.{Secret, Secrets}
use authn.Kubeconfig.{KubeConfig}
use authn.Encode.{Answer, Tokens, Strategy, Extras, success, handle}
use authn.Oidc.Token.{IdToken}
use authn.Oidc.StepUp.{StepUpConfig, resolve_step_up, check_step_up, step_up_level}
use authn.Oidc.Claims.{check_keys, update_config}
use authn.Oidc.Exchange.{OidcConfig, do_login}
use authn.Oidc.Discovery.{
  Discovery, OidcSpec, oidc_config_get, err_issuer_conflict, err_discovery_failed,
  err_endpoints_missing,
}

-- What the handlers call: the resolvers, the RESTActions, the generator of credentials (its
-- interface), and the token signer.
pub record Services (W : Type 0) : Type 0 where
  pub discovery : Discovery W
  pub secrets : Secrets W
  pub tokens : Tokens W
  -- len(rest.IsValidPathSegmentName(name)) == 0
  pub is_path_segment : String → Bool
  -- restaction.Resolve, with the user's access token
  pub resolve : ObjectRef → String → Act W (Dict Json)
  -- restaction.LegacyResolve, with the user's email and access token
  pub legacy_resolve : ObjectRef → String → String → Act W (Dict Json)
  -- shortid.Generate
  pub new_id : W → String × W
  pub make_dns1123_compatible : String → String
  -- Generator.Generate and Generator.GenerateStepUp
  pub generate : String → Info → Act W (KubeConfig × Time)
  pub generate_step_up : String → Info → Duration → Act W Time

-- The parts of a request that the handlers read.
pub record Request : Type 0 where
  pub name : String
  pub auth_code : String
  pub code_verifier : String

module _ {W : Type 0} (services : Services W) where
  open services use {discovery, secrets, tokens, is_path_segment, resolve, legacy_resolve}
  open services use {new_id, make_dns1123_compatible}

  abbrev not_found_config : String → Error
  not_found_config name =
      caused 404 "OIDCConfigNotFound" (errorf "OIDCConfig %q not found" (str name ∷ []))

  -- The switch on the error of OIDCConfigGet.
  unfoldable pub config_error : String → Error → Error
  config_error name e =
      if is_not_found e
      then not_found_config name
      else if is_error err_issuer_conflict e
      then failed "IssuerConflict" e
      else if is_error err_discovery_failed e
      then failed "OIDCDiscoveryFailed" e
      else if is_error err_endpoints_missing e
      then failed "OIDCConfigInvalid" e
      else failed "OIDCConfigLookupFailed" (wrapf "unable to resolve OIDC configuration: %w" [] e)

  abbrev or_empty : Option String → String
  or_empty none = ""
  or_empty (some v) = v

  unfoldable pub client_secret_of : Option SecretKeySelector → Act W String
  client_secret_of none = return ""
  client_secret_of (some ref) = do
    sec ←
        or_fail (secrets.get ref.namespace ref.name) (λ e.
          failed "ClientSecretLookupFailed" (wrapf "unable to read the client secret: %w" [] e))
    return (or_empty (lookup ref.key sec.contents))

  abbrev pub config_of : OidcSpec → String → OidcConfig
  config_of spec client_secret = record {
    step_up = resolve_step_up spec.step_up;
    allowed_groups = spec.allowed_groups;
    discovery_url = spec.discovery_url;
    issuer = spec.issuer;
    authorize_url = spec.authorization_url;
    token_url = spec.token_url;
    user_info_url = spec.user_info_url;
    redirect_uri = spec.redirect_uri;
    client_id = spec.client_id;
    client_secret = client_secret;
    additional_scopes = spec.additional_scopes;
    rest_action_ref = spec.rest_action_ref;
  }

  abbrev require : Bool → Error → Act W (Unit {0})
  require test e w = (if test then ok tt else err e, w)

  -- getConfig
  unfoldable pub get_config : String → Act W OidcConfig
  get_config name = do
    require (is_path_segment name) (not_found_config name)
    spec ← or_fail (oidc_config_get discovery name) (config_error name)
    client_secret ← client_secret_of spec.client_secret
    return (config_of spec client_secret)

  abbrev unusable : Error → Error
  unusable e = wrapf "the RESTAction's answer is unusable: %w" [] e

  abbrev checked : Dict Json → Result (Unit {0}) → Result (Dict Json)
  checked values (ok u) = ok values
  checked values (err e) = err (unusable e)

  abbrev usable : Result (Dict Json) × W → Result (Dict Json) × W
  usable (err e, w) = (err e, w)
  usable (ok values, w) = (checked values (check_keys values), w)

  abbrev or_legacy : ObjectRef → IdToken → Result (Dict Json) × W → Result (Dict Json) × W
  or_legacy ref tok (ok values, w) = (ok values, w)
  or_legacy ref tok (err e, w) =
      rewrap RestAction.failed (legacy_resolve ref tok.email tok.bearer_token w)

  -- restaction.Resolve with checkKeys, and the legacy path where either fails.
  unfoldable pub fields_to_replace : ObjectRef → IdToken → Act W (Dict Json)
  fields_to_replace ref tok w = or_legacy ref tok (usable (resolve ref tok.bearer_token w))

  abbrev pub replaced : Dict Json → IdToken → Act W IdToken
  replaced values tok =
      or_fail (lift (update_config values tok)) (λ e. failed "RESTActionFailed" (unusable e))

  unfoldable pub enrich : Option ObjectRef → IdToken → Act W IdToken
  enrich none tok = return tok
  enrich (some ref) tok = do values ← fields_to_replace ref tok; replaced values tok

  -- validate: the identity of a token
  unfoldable pub validate : IdToken → Act W Info
  validate tok w = (
    ok (
        new_default_user (make_dns1123_compatible tok.preferred_username) (new_id w).0 tok.groups
          (add "email" tok.email (add "avatarUrl" tok.avatar_url (add "name" tok.name [])))),
    (new_id w).1,
  )

  -- The loop of checkAllowedGroups.
  unfoldable pub some_allowed : List String → List String → Bool
  some_allowed allowed [] = false
  some_allowed allowed (g ∷ groups) =
      if slices_contains allowed g then true else some_allowed allowed groups

  -- checkAllowedGroups
  unfoldable pub check_allowed_groups : List String → Info → Result (Unit {0})
  check_allowed_groups [] nfo = ok tt
  check_allowed_groups allowed nfo =
      if some_allowed allowed nfo.groups
      then ok tt
      else err (
          refused "GroupNotAllowed"
            (errorf "user %q is in none of the groups this OIDCConfig admits" (str nfo.name ∷ [])))

  -- authenticate
  unfoldable pub authenticate : Request → Act W (OidcConfig × IdToken × Info)
  authenticate req = do
    require (not (req.name == ""))
        (bad_request "MissingConfigName" (errorf "OIDCConfig 'name' must be specified" []))
    require (not (req.auth_code == "")) (
        bad_request "MissingAuthorizationCode"
          (errorf "the %s header must carry the authorization code" (str "X-Auth-Code" ∷ [])))
    cfg ← get_config req.name
    proven ← do_login discovery.provider req.auth_code req.code_verifier cfg
    tok ← enrich cfg.rest_action_ref proven
    nfo ← validate tok
    lift (check_allowed_groups cfg.allowed_groups nfo)
    return (cfg, tok, nfo)

  -- What the two handlers know of the signing key and of the duration of sessions.
  abbrev pub extras : Info → Option Strategy → Duration → Bool → String → Time → Extras
  extras nfo strategy jwt_duration jwt_private_key jwt_key_id not_after = record {
    user_info = some nfo;
    strategy = strategy;
    jwt_duration = jwt_duration;
    jwt_private_key = jwt_private_key;
    jwt_key_id = jwt_key_id;
    cert_not_after = not_after;
  }

  module _ (jwt_private_key : Bool) (jwt_key_id : String) where
    unfoldable pub login : Duration → Request → Act W (Answer (Option KubeConfig))
    login jwt_duration req = do
      who ← authenticate req
      issued ←
          or_fail (services.generate "oidc" who.2)
            (λ e. failed "IssuanceFailed" (wrapf "issuing clientconfig: %w" [] e))
      success tokens (some issued.0) (
          some (
            extras who.2 (some (record { kind = "oidc"; name = req.name })) jwt_duration
              jwt_private_key jwt_key_id issued.1))

    -- loginRoute.Handler
    unfoldable pub login_handler : Duration → Request → W → Answer (Option KubeConfig) × W
    login_handler jwt_duration req = handle (login jwt_duration req)

    abbrev pub ttl_of : Option StepUpConfig → Duration
    ttl_of none = pos 0
    ttl_of (some cfg) = cfg.ttl

    abbrev pub check_now : OidcConfig → IdToken → Act W (Unit {0})
    check_now cfg tok w = (check_step_up cfg.step_up tok (tokens.now w), w)

    abbrev pub issue_step_up : OidcConfig → Info → Act W (Answer (Option KubeConfig))
    issue_step_up cfg nfo = do
      not_after ←
          or_fail
            (services.generate_step_up "oidc" (new_step_up_user nfo step_up_level)
              (ttl_of cfg.step_up))
            (λ e. failed "IssuanceFailed" (wrapf "issuing step-up credential: %w" [] e))
      success tokens none (
          some (
            extras (new_step_up_user nfo step_up_level) none (ttl_of cfg.step_up) jwt_private_key
              jwt_key_id not_after))

    unfoldable pub step_up : Request → Act W (Answer (Option KubeConfig))
    step_up req = do who ← authenticate req; check_now who.0 who.1; issue_step_up who.0 who.2

    -- stepUpRoute.Handler; the step-up is enabled once checkStepUp has passed
    unfoldable pub step_up_handler : Request → W → Answer (Option KubeConfig) × W
    step_up_handler req = handle (step_up req)
