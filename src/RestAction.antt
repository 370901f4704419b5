-- ===== src/RestAction.antt =====
-- go/authn/internal/helpers/restaction: asking snowplow to complete an identity (resolver.go,
-- failure.go).
pub mod Copies
pub mod Deleting
pub mod Failures
pub mod Laws
pub mod Leftovers
use Prim.Native.String
use authn.Prelude.{
  ℕ, String, Bool, true, false, not, Option, none, some, List, [], ◌∷◌, nat_eq, ◌==◌, ◌&&◌,
  if◌then◌else◌,
}
use authn.Go.Error.{Error, Arg, errorf, wrapf, joined, api, caused, caused_privately, str, num}
use authn.Go.Dict.{Dict}
use authn.Go.Json.{Json}
use authn.Go.Http.{HttpRequest, HttpResponse}
use authn.Go.Act.{Result, ok, err, Act, ◌>>=◌, ◌>>◌, or_fail, lift, return}
use authn.Go.Check
use authn.Cluster.{ObjectRef}
use authn.RestAction.Copies.{
  Objects, copy_rest_action_with_endpoints, delete_rest_action_copy_with_endpoints,
}

-- The request's context and what the calls use of net/http, net/url, fmt and encoding/json.
pub record Snowplow (W : Type 0) : Type 0 where
  -- the address in the context, which buildRoutes (go/authn/routes.go) always puts there, also where
  -- it is empty
  pub snowplow_url : String
  pub access_token : Option String
  -- json.Marshal of the extras with a token
  pub marshal_extras : String → Result String
  -- url.Values.Encode
  pub encode_query : Dict String → String
  -- fmt.Sprintf of texts
  pub sprintf : String → List String → String
  -- whether http.NewRequestWithContext accepts a method and an address
  pub new_request : String → String → Result (Unit {0})
  pub send : HttpRequest → Act W HttpResponse
  -- the status of a RESTAction
  pub unmarshal_status : String → Result (Dict Json)
  -- the reason and the message of a Status, each "" where there is none
  pub unmarshal_problem : String → String × String

abbrev pub snowplow_format : String
snowplow_format = "snowplow answered %d %s: %s"

-- A SnowplowError
abbrev pub snowplow_error_of : ℕ → String → String → Error
snowplow_error_of code reason message =
    errorf snowplow_format (num code ∷ str reason ∷ str message ∷ [])

abbrev pub problem : ℕ → String → String × String → Error
problem code body (reason, message) =
    if (reason == "") && (message == "")
    then snowplow_error_of code reason body
    else snowplow_error_of code reason message

abbrev pub in_form : Bool → List Arg → Option (ℕ × String)
in_form true (num code ∷ str reason ∷ str message ∷ []) = some (code, reason)
in_form _ _ = none

abbrev or_else : Option (ℕ × String) → Option (ℕ × String) → Option (ℕ × String)
or_else (some s) t = some s
or_else none t = t

-- errors.As(err, &SnowplowError): the code and the reason of the first one in the chain.
unfoldable pub as_snowplow : Error → Option (ℕ × String)
as_snowplow (errorf f xs) = in_form (f == snowplow_format) xs
as_snowplow (wrapf f xs e) = as_snowplow e
as_snowplow (joined e e') = or_else (as_snowplow e) (as_snowplow e')
as_snowplow (api r) = none
as_snowplow (caused c t e) = as_snowplow e
as_snowplow (caused_privately c t e p) = as_snowplow e

abbrev public_text : Option (ℕ × String) → Error
public_text none = errorf "the RESTAction could not be resolved" []
public_text (some (code, reason)) =
    errorf "the RESTAction could not be resolved: snowplow answered %d %s"
      (num code ∷ str reason ∷ [])

-- Failed
unfoldable pub failed : Error → Error
failed e = caused_privately 500 "RESTActionFailed" (public_text (as_snowplow e)) e

module _ {W : Type 0} (snowplow : Snowplow W) where
  open snowplow use {
    snowplow_url, access_token, marshal_extras, encode_query, sprintf, new_request, send,
  }
  open snowplow use {unmarshal_status, unmarshal_problem}

  -- snowplowError
  unfoldable pub snowplow_error : ℕ → String → Error
  snowplow_error code body = problem code body (unmarshal_problem body)

  abbrev pub jwt_of : Option String → Result String
  jwt_of none = err (errorf "failed to retrieve jwt token for authn" [])
  jwt_of (some jwt) = ok jwt

  abbrev pub no_request : Error → Error
  no_request e = wrapf "failed to create http request for restaction call to snowplow: %w" [] e

  abbrev pub accepted : ℕ → String → Result (Unit {0})
  accepted code raw = if nat_eq code 200 then ok tt else err (snowplow_error code raw)

  -- The answer to a request, where its status is 200.
  unfoldable pub call : HttpRequest → Act W String
  call request = do
    resp ←
        or_fail (send request)
          (wrapf "failed to send http request for restaction call to snowplow: %w" [])
    raw ← or_fail (lift resp.body) (wrapf "failed to read snowplow's answer: %w" [])
    lift (accepted resp.status_code raw)
    return raw

  abbrev pub query_of : ObjectRef → Dict String
  query_of ref =
      ("apiVersion", "templates.krateo.io/v1")
      ∷ ("resource", "restactions")
      ∷ ("name", ref.name)
      ∷ ("namespace", ref.namespace)
      ∷ []

  unfoldable pub read_url : ObjectRef → String
  read_url ref = String.◌++◌ snowplow_url (String.◌++◌ "/call/read?" (encode_query (query_of ref)))

  unfoldable pub read_request : ObjectRef → String → String → HttpRequest
  read_request ref jwt body = record {
    method = "POST";
    url = read_url ref;
    headers =
        ("Content-Type", "application/json")
        ∷ ("Accept", "application/json")
        ∷ ("Authorization", String.◌++◌ "Bearer " jwt)
        ∷ [];
    body = body;
  }

  abbrev pub status_in : String → Result (Dict Json)
  status_in raw =
      Check.or_err (unmarshal_status raw)
        (λ e. errorf "snowplow's answer is not a RESTAction: %v" [])

  -- Resolve
  unfoldable pub resolve : ObjectRef → String → Act W (Dict Json)
  resolve ref bearer_token = do
    lift (Check.require (not (snowplow_url == "")) (errorf "snowplow URL is not configured" []))
    body ← lift (Check.or_err (marshal_extras bearer_token) (wrapf "encoding the extras: %w" []))
    lift (Check.or_err (new_request "POST" (read_url ref)) no_request)
    jwt ← lift (jwt_of access_token)
    raw ← call (read_request ref jwt body)
    lift (status_in raw)

  abbrev pub legacy_url : ObjectRef → String
  legacy_url ref =
      sprintf
        (String.◌++◌ snowplow_url
          "/call?apiVersion=templates.krateo.io%%2Fv1&resource=restactions&name=%s&namespace=%s")
        (ref.name ∷ ref.namespace ∷ [])

  unfoldable pub legacy_request : ObjectRef → String → HttpRequest
  legacy_request ref jwt = record {
    method = "GET";
    url = legacy_url ref;
    headers = ("Authorization", String.◌++◌ "Bearer " jwt) ∷ [];
    body = "";
  }

  -- The call of a copy: from the request to the status of the answer.
  unfoldable pub call_copy : ObjectRef → Act W (Dict Json)
  call_copy ref = do
    lift (Check.or_err (new_request "GET" (legacy_url ref)) no_request)
    jwt ← lift (jwt_of access_token)
    raw ← call (legacy_request ref jwt)
    lift (
        Check.or_err (unmarshal_status raw)
          (λ e. errorf "error parsing userinfo payload JSON: %v\npayload: %s" (str raw ∷ [])))

  -- LegacyResolve
  unfoldable pub legacy_resolve : Objects W → ObjectRef → String → String → Act W (Dict Json)
  legacy_resolve objects ref email bearer_token = do
    copy ←
        or_fail (copy_rest_action_with_endpoints objects ref email bearer_token)
          (λ e. errorf "could not resolve restaction: %v" [])
    status ← call_copy copy
    or_fail (delete_rest_action_copy_with_endpoints objects copy)
        (λ e. errorf "error while deleting copy of restaction and secrets: %v" [])
    return status
