-- ===== src/Routes.antt =====
-- go/authn/internal/routes/routes.go: which route answers a request; and go/authn/routes.go: the
-- routes of the service.
pub mod Laws
use authn.Prelude.{
  String, Bool, true, false, ◌&&◌, Option, none, some, List, [], ◌∷◌, ◌++◌, ◌==◌, if◌then◌else◌,
}
use authn.Go.Error.{Error, wrapf, str}
use authn.Go.Time.{hour, Duration}
use authn.Prelude.Int.{pos}
use authn.Prelude.{◌*◌}
use authn.Go.Act.{Result, ok, err}
use authn.Go.Check.{◌>>=◌, or_err}
use authn.Encode.{TokenOptions}

-- Route, with its handler
pub record Route (H : Type 0) : Type 0 where
  pub name : String
  pub pattern : String
  pub method : String
  pub handler : H

-- What Serve does with a request: it calls the handler of a route, or answers 405 with the methods
-- that it allows, or 404.
pub data Served (H : Type 0) : Type 0 where
  calls : H → Served H
  method_not_allowed : List String → Served H
  page_not_found : Served H

module _ {H : Type 0} where
  -- What follows the loop.
  abbrev pub refuse : List String → Served H
  refuse [] = page_not_found
  refuse (m ∷ allow) = method_not_allowed (m ∷ allow)

  -- The loop of Serve.
  unfoldable pub serve_from : List String → List (Route H) → String → String → Served H
  serve_from allow [] path method = refuse allow
  serve_from allow (route ∷ all) path method =
      let skipped = serve_from allow all path method in
      let allowed = serve_from (allow ++ route.method ∷ []) all path method in
      if path == route.pattern
      then (if method == route.method then calls route.handler else allowed)
      else skipped

  -- Serve, on the path and the method of a request
  unfoldable pub serve : List (Route H) → String → String → Served H
  serve all path method = serve_from [] all path method

-- The handlers of the service, and what makes those of OAuth and OpenID Connect from the token with
-- which this service calls RESTActions.
pub record Handlers (H : Type 0) : Type 0 where
  pub strategies : H
  pub health : H
  pub jwks : H
  pub basic : H
  pub service_account : H
  pub ldap : H
  pub oauth : String → H
  pub oidc : String → H
  pub step_up : String → H

abbrev pub self_token : String → String → TokenOptions
self_token self_username key_id = record {
  username = self_username;
  groups = "authn" ∷ [];
  duration = pos (8760 * hour);
  key_id = key_id;
}

abbrev pub route : {H : Type 0} → String → String → String → H → Route H
route name pattern method handler = record {
  name = name;
  pattern = pattern;
  method = method;
  handler = handler;
}

module _ {H : Type 0} (handlers : Handlers H) where
  -- strategies.List, health.Check, jwks.Endpoint
  abbrev pub strategies_route : Route H
  strategies_route = route "strategies" "/strategies" "GET" handlers.strategies

  abbrev pub health_route : Route H
  health_route = route "health" "/health" "GET" handlers.health

  abbrev pub jwks_route : Route H
  jwks_route = route "jwks" "/.well-known/jwks.json" "GET" handlers.jwks

  -- The Login of each package, and oidc.StepUp.
  abbrev pub basic_route : Route H
  basic_route = route "basic" "/basic/login" "GET" handlers.basic

  abbrev pub service_account_route : Route H
  service_account_route =
      route "serviceaccount" "/serviceaccount/login" "POST" handlers.service_account

  abbrev pub ldap_route : Route H
  ldap_route = route "ldap.login" "/ldap/login" "POST" handlers.ldap

  abbrev pub oauth_route : String → Route H
  oauth_route token = route "oauth.login" "/oauth/login" "GET" (handlers.oauth token)

  abbrev pub oidc_route : String → Route H
  oidc_route token = route "oidc.login" "/oidc/login" "GET" (handlers.oidc token)

  abbrev pub step_up_route : String → Route H
  step_up_route token = route "oidc.stepup" "/oidc/stepup" "POST" (handlers.step_up token)

  -- What buildRoutes returns once it has a token.
  abbrev pub surface : String → List (Route H)
  surface token =
      strategies_route
      ∷ health_route
      ∷ jwks_route
      ∷ basic_route
      ∷ service_account_route
      ∷ ldap_route
      ∷ oauth_route token
      ∷ oidc_route token
      ∷ step_up_route token
      ∷ []

  -- buildRoutes, on jwtutil.CreateToken as it answers at startup
  unfoldable pub build_routes :
      (TokenOptions → Result String) → String → String → Result (List (Route H))
  build_routes create_token self_username key_id = do
    token ←
        or_err (create_token (self_token self_username key_id))
          (wrapf "cannot create jwt token for %s: %w" (str self_username ∷ []))
    ok (surface token)
