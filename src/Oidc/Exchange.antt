-- ===== src/Oidc/Exchange.antt =====
-- Exchanging an authorization code for a validated identity (support.go).
pub mod Laws
pub mod Requests
use Prim.Native.String
use authn.Cluster.{ObjectRef}
use authn.Go.Http.{HttpRequest}
use authn.Go.Http.{HttpResponse}
use authn.Prelude.{
  ℕ, String, Bool, true, false, not, ◌||◌, Option, none, some, List, [], ◌∷◌, length, nat_eq, ◌==◌,
  if◌then◌else◌,
}
use authn.Go.Error.{Error, errorf, wrapf, str, num}
use authn.Go.Time.{Time}
use authn.Go.Dict.{Dict, insert}
use authn.Go.Json.{Json}
use authn.Go.Act.{Result, ok, err, Act, ◌>>=◌, ◌>>◌, or_fail, lift, return, throw}
use authn.Status.{refused, failed}
use authn.CodeExchange
use authn.Oidc.Token.{IdToken, TokenResponse}
use authn.Oidc.StepUp.{StepUpConfig}
use authn.Oidc.Validation.{validate_id_token}
use authn.Oidc.Profile.{Profile, read_claims, fill_profile, decode_jwt}

-- oidcConfig
pub record OidcConfig : Type 0 where
  pub step_up : Option StepUpConfig
  pub allowed_groups : List String
  pub discovery_url : String
  pub issuer : String
  pub authorize_url : String
  pub token_url : String
  pub user_info_url : String
  pub redirect_uri : String
  pub client_id : String
  pub client_secret : String
  pub additional_scopes : String
  pub rest_action_ref : Option ObjectRef

-- net/http, net/url, encoding/json, encoding/base64 and the clock.
pub record Provider (W : Type 0) : Type 0 where
  pub now : W → Time
  -- whether http.NewRequestWithContext accepts a method and an address
  pub new_request : String → String → Result (Unit {0})
  pub send : HttpRequest → Act W HttpResponse
  -- url.Values.Encode
  pub encode_form : Dict String → String
  -- the "error" of an error answer, "" where there is none
  pub unmarshal_error : String → String
  pub unmarshal_token : String → Result TokenResponse
  pub unmarshal_object : String → Result (Dict Json)
  pub decode_base64url : String → Result String

module _ {W : Type 0} (provider : Provider W) where
  open provider use {now, new_request, send, encode_form}
  open provider use {unmarshal_error, unmarshal_token, unmarshal_object, decode_base64url}

  abbrev verifier_part : String → Dict String → Dict String
  verifier_part code_verifier form =
      if code_verifier == "" then form else insert "code_verifier" code_verifier form

  abbrev pub form_of : String → String → OidcConfig → Dict String
  form_of code code_verifier cfg = insert "grant_type" "authorization_code" (
      insert "redirect_uri" cfg.redirect_uri (
        verifier_part code_verifier (
          ("client_id", cfg.client_id)
          ∷ ("client_secret", cfg.client_secret)
          ∷ ("code", code)
          ∷ [])))

  unfoldable pub token_request : String → String → OidcConfig → HttpRequest
  token_request code code_verifier cfg = record {
    method = "POST";
    url = cfg.token_url;
    headers =
        ("Content-Type", "application/x-www-form-urlencoded") ∷ ("Accept", "application/json") ∷ [];
    body = encode_form (form_of code code_verifier cfg);
  }

  abbrev exchange_failed : String → Error → Error
  exchange_failed text e = CodeExchange.failed (errorf text [])

  abbrev pub token_accepted : ℕ → String → Result (Unit {0})
  token_accepted status_code body =
      if nat_eq status_code 200
      then ok tt
      else err (
          CodeExchange.refusal status_code (unmarshal_error body)
            (errorf "token endpoint answered %d: %s" (num status_code ∷ str body ∷ [])))

  abbrev user_info_accepted : ℕ → Result (Unit {0})
  user_info_accepted status_code =
      if nat_eq status_code 200
      then ok tt
      else err
          (failed "UserInfoFailed" (errorf "userinfo endpoint answered %d" (num status_code ∷ [])))

  abbrev user_info_failed : String → Error → Error
  user_info_failed text e = failed "UserInfoFailed" (errorf text [])

  -- fetchUserInfo
  unfoldable pub fetch_user_info : String → String → Act W (Dict Json)
  fetch_user_info user_info_url access_token = do
    or_fail (lift (new_request "GET" user_info_url))
        (user_info_failed "failed to create http request for userinfo endpoint: %v")
    resp ←
        or_fail
          (send (record {
            method = "GET";
            url = user_info_url;
            headers =
                ("Authorization", String.◌++◌ "Bearer " access_token)
                ∷ ("Accept", "application/json")
                ∷ [];
            body = "";
          }))
          (user_info_failed "failed to send userinfo request: %v")
    lift (user_info_accepted resp.status_code)
    body ← or_fail (lift resp.body) (user_info_failed "failed to read userinfo response: %v")
    or_fail (lift (unmarshal_object body))
        (user_info_failed "error parsing userinfo payload JSON: %v")

  abbrev pub ask_user_info : OidcConfig → String → IdToken × List Profile → Act W IdToken
  ask_user_info cfg access_token read = do
    user_info ← fetch_user_info cfg.user_info_url access_token
    lift (fill_profile user_info read.1 read.0)

  abbrev pub complete : OidcConfig → String → IdToken × List Profile → Act W IdToken
  complete cfg access_token read =
      if nat_eq (length read.1) 0 || cfg.user_info_url == ""
      then return read.0
      else if access_token == ""
      then throw (
          CodeExchange.failed
            (errorf "the token response has no access_token, which the userinfo call needs" []))
      else ask_user_info cfg access_token read

  abbrev pub validate_now : OidcConfig → Dict Json → Act W (Unit {0})
  validate_now cfg claims w = (validate_id_token claims cfg.issuer cfg.client_id (now w), w)

  -- doLogin
  unfoldable pub do_login : String → String → OidcConfig → Act W IdToken
  do_login code code_verifier cfg = do
    or_fail (lift (new_request "POST" cfg.token_url))
        (exchange_failed "failed to create request to token endpoint: %v")
    resp ←
        or_fail (send (token_request code code_verifier cfg))
          (exchange_failed "failed to send request to token endpoint: %v")
    body ← or_fail (lift resp.body) (exchange_failed "failed to read response body: %v")
    lift (token_accepted resp.status_code body)
    token ←
        or_fail (lift (unmarshal_token body))
          (exchange_failed "failed to unmarshal token response: %v")
    claims ←
        or_fail (lift (decode_jwt decode_base64url unmarshal_object token.id_token))
          (λ e. refused "IDTokenInvalid" (errorf "failed to decode JWT token: %v" []))
    validate_now cfg claims
    read ← lift (read_claims claims token.access_token)
    complete cfg token.access_token read
