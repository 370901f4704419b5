-- ===== src/Oidc/Discovery.antt =====
-- go/authn/internal/helpers/kube/resolvers/oidcconfig.go: completing an OIDCConfig for a login, from its
-- discovery document.
pub mod Laws
use Prim.Native.String
use authn.Cluster.{ObjectRef}
use authn.Cluster.{SecretKeySelector}
use authn.Go.Http.{HttpRequest}
use authn.Prelude.{
  ℕ, String, Bool, true, false, not, ◌||◌, ◌&&◌, Option, none, some, List, [], ◌∷◌, nat_eq, ◌==◌,
  if◌then◌else◌,
}
use authn.Go.Text.{contains_char, join}
use authn.Go.Error.{Error, errorf, wrapf, str, num}
use authn.Go.Dict.{Dict, insert}
use authn.Go.Act.{Result, ok, err, Act, ◌>>=◌, ◌>>◌, or_fail, lift, return, throw}
use authn.Cluster.{Os, get_operator_namespace}
use authn.Oidc.StepUp.{OidcStepUp}
use authn.Oidc.Exchange.{Provider}

-- The spec of an OIDCConfig, as a login reads it.
pub record OidcSpec : Type 0 where
  pub discovery_url : String
  pub issuer : String
  pub authorization_url : String
  pub token_url : String
  pub redirect_uri : String
  pub user_info_url : String
  pub client_id : String
  pub client_secret : Option SecretKeySelector
  pub additional_scopes : String
  pub rest_action_ref : Option ObjectRef
  pub step_up : Option OidcStepUp
  pub allowed_groups : List String

-- DiscoveryEndpointResponse
pub record DiscoveryEndpointResponse : Type 0 where
  pub issuer : String
  pub authorization_endpoint : String
  pub token_endpoint : String
  pub userinfo_endpoint : String

abbrev pub err_issuer_conflict : String
err_issuer_conflict = "spec.issuer differs from the discovered issuer"

abbrev pub err_discovery_failed : String
err_discovery_failed = "OIDC discovery failed"

abbrev pub err_endpoints_missing : String
err_endpoints_missing = "authorize or token endpoint unknown"

-- What discovery uses besides the calls of a login.
pub record Discovery (W : Type 0) : Type 0 where
  pub provider : Provider W
  pub os : Os W
  -- client.New
  pub new_client : Act W (Unit {0})
  -- an OIDCConfig's spec, by namespace and name
  pub get_spec : String → String → Act W OidcSpec
  pub unmarshal_discovery : String → Result DiscoveryEndpointResponse
  -- newState: crypto/rand, base64url
  pub new_state : W → String × W
  -- strings.Fields
  pub fields : String → List String

module _ {W : Type 0} (discovery : Discovery W) where
  open discovery use {provider, os, new_client, get_spec, unmarshal_discovery, new_state, fields}

  abbrev discovery_failed : String → Error → Error
  discovery_failed text e = wrapf text [] (errorf err_discovery_failed [])

  abbrev document_accepted : String → ℕ → Result (Unit {0})
  document_accepted discovery_url status_code =
      if nat_eq status_code 200
      then ok tt
      else err (
          wrapf "%w: %s answered %d" (str discovery_url ∷ num status_code ∷ [])
            (errorf err_discovery_failed []))

  -- fetchDiscovery
  unfoldable pub fetch_discovery : String → Act W DiscoveryEndpointResponse
  fetch_discovery discovery_url = do
    or_fail (lift (provider.new_request "GET" discovery_url))
        (discovery_failed "%w: creating the request: %v")
    resp ←
        or_fail
          (provider.send (record { method = "GET"; url = discovery_url; headers = []; body = "" }))
          (discovery_failed "%w: %v")
    lift (document_accepted discovery_url resp.status_code)
    body ← or_fail (lift resp.body) (discovery_failed "%w: reading the response: %v")
    or_fail (lift (unmarshal_discovery body))
        (discovery_failed "%w: the response is not a discovery document: %v")

  abbrev redirect_part : String → Dict String → Dict String
  redirect_part redirect_uri v =
      if redirect_uri == "" then v else insert "redirect_uri" redirect_uri v

  abbrev query_of : OidcSpec → String → Dict String
  query_of spec state = insert "state" state (
      insert "scope"
        (join " " (fields (String.◌++◌ "openid email profile " spec.additional_scopes)))
        (redirect_part spec.redirect_uri (
          ("response_type", "code")
          ∷ ("response_mode", "query")
          ∷ ("client_id", spec.client_id)
          ∷ [])))

  -- The code of the question mark.
  abbrev question_mark : ℕ
  question_mark = 63

  abbrev url_with : OidcSpec → String → String
  url_with spec state = String.◌++◌ spec.authorization_url (
      String.◌++◌ (if contains_char question_mark spec.authorization_url then "&" else "?")
        (provider.encode_form (query_of spec state)))

  -- authCodeURL
  unfoldable pub auth_code_url : OidcSpec → W → String × W
  auth_code_url spec w = (url_with spec (new_state w).0, (new_state w).1)

  -- `cfg.Spec.AuthorizationURL = authCodeURL(cfg)`
  abbrev pub with_auth_code_url : OidcSpec → Act W OidcSpec
  with_auth_code_url spec w =
      (ok (record spec { authorization_url = (auth_code_url spec w).0 }), (auth_code_url spec w).1)

  abbrev or_keep : String → String → String
  or_keep found kept = if found == "" then kept else found

  abbrev pub with_endpoints : OidcSpec → DiscoveryEndpointResponse → OidcSpec
  with_endpoints spec doc = record spec {
    authorization_url = or_keep doc.authorization_endpoint spec.authorization_url;
    token_url = or_keep doc.token_endpoint spec.token_url;
    user_info_url = or_keep doc.userinfo_endpoint spec.user_info_url;
  }

  abbrev pub endpoints_known : OidcSpec → Result (Unit {0})
  endpoints_known spec =
      if spec.token_url == "" || spec.authorization_url == ""
      then (if spec.discovery_url == ""
          then err (
              wrapf "%w: url for discovery and authorize/token endpoints cannot be empty" []
                (errorf err_endpoints_missing []))
          else err (
              wrapf "%w: url for authorize/token endpoint cannot be empty" []
                (errorf err_endpoints_missing [])))
      else ok tt

  -- applyDiscovery
  unfoldable pub apply_discovery : OidcSpec → DiscoveryEndpointResponse → Act W OidcSpec
  apply_discovery spec doc = do
    lift (endpoints_known (with_endpoints spec doc))
    with_auth_code_url (with_endpoints spec doc)

  -- The issuer that the ID token is validated against.
  abbrev pub with_issuer : OidcSpec → DiscoveryEndpointResponse → Result OidcSpec
  with_issuer spec doc =
      if spec.issuer == ""
      then ok (record spec { issuer = doc.issuer })
      else if not (doc.issuer == "") && not (doc.issuer == spec.issuer)
      then err (
          wrapf "%w: spec.issuer %q, discovery %q" (str spec.issuer ∷ str doc.issuer ∷ [])
            (errorf err_issuer_conflict []))
      else ok spec

  abbrev pub bare_query : OidcSpec → Act W OidcSpec
  bare_query spec =
      if contains_char question_mark spec.authorization_url
      then return spec
      else with_auth_code_url spec

  abbrev pub with_urls : OidcSpec → DiscoveryEndpointResponse → Act W OidcSpec
  with_urls spec doc =
      if spec.authorization_url == "" || spec.token_url == "" || spec.user_info_url == ""
      then apply_discovery spec doc
      else bare_query spec

  abbrev pub discovered : OidcSpec → Act W OidcSpec
  discovered spec = do
    doc ← fetch_discovery spec.discovery_url
    spec' ← lift (with_issuer spec doc)
    with_urls spec' doc

  abbrev pub undiscovered : OidcSpec → Act W OidcSpec
  undiscovered spec = if spec.authorization_url == "" then return spec else bare_query spec

  -- resolveOIDCConfig
  unfoldable pub resolve_oidc_config : OidcSpec → Act W OidcSpec
  resolve_oidc_config spec = if spec.discovery_url == "" then undiscovered spec else discovered spec

  -- OIDCConfigGet
  unfoldable pub oidc_config_get : String → Act W OidcSpec
  oidc_config_get name = do
    ns ← or_fail (get_operator_namespace os) (wrapf "unable to resolve service namespace: %w" [])
    new_client
    spec ← get_spec ns name
    resolve_oidc_config spec
