-- ===== src/Oidc/Discovery/Laws.antt =====
-- What discovery leaves alone (oidcconfig.go).
use authn.Prelude.{
  String, ◌≡◌, ◌≢◌, refl, sym, ap, ◌∙◌, not, ◌&&◌, ◌||◌, ◌==◌, eq_iff, Bool-cases, inl, inr,
}
use authn.Go.Text.{contains_char}
use authn.Go.Act.{ok, ok-injective, err≢ok}
use authn.Go.Act.Triple.{Triple, Always, bind, next, returns, lifts, calls, done}
use authn.Oidc.Discovery.{
  Discovery, OidcSpec, DiscoveryEndpointResponse, resolve_oidc_config, apply_discovery,
  with_auth_code_url, with_issuer, with_endpoints, bare_query, with_urls, discovered, undiscovered,
}

-- The policy of a configuration: everything but its addresses, and its issuer where it has one.
pub record SamePolicy (spec spec' : OidcSpec) : Type 0 where
  pub issuer : spec.issuer ≢ "" → spec'.issuer ≡ spec.issuer
  pub client_id : spec'.client_id ≡ spec.client_id
  pub client_secret : spec'.client_secret ≡ spec.client_secret
  pub redirect_uri : spec'.redirect_uri ≡ spec.redirect_uri
  pub step_up : spec'.step_up ≡ spec.step_up
  pub allowed_groups : spec'.allowed_groups ≡ spec.allowed_groups
  pub discovery_url : spec'.discovery_url ≡ spec.discovery_url
  pub additional_scopes : spec'.additional_scopes ≡ spec.additional_scopes
  pub rest_action_ref : spec'.rest_action_ref ≡ spec.rest_action_ref

-- The addresses of a configuration are replaced.
moved :
    (spec : OidcSpec) (a t u : String)
    → SamePolicy spec (record spec { authorization_url = a; token_url = t; user_info_url = u })
moved spec a t u = record {
  issuer = λ ne. refl;
  client_id = refl;
  client_secret = refl;
  redirect_uri = refl;
  step_up = refl;
  allowed_groups = refl;
  discovery_url = refl;
  additional_scopes = refl;
  rest_action_ref = refl;
}

chain_policies : {a b c : OidcSpec} → SamePolicy a b → SamePolicy b c → SamePolicy a c
chain_policies p q = record {
  issuer = λ ne. q.issuer (λ e. ne (sym (p.issuer ne) ∙ e)) ∙ p.issuer ne;
  client_id = q.client_id ∙ p.client_id;
  client_secret = q.client_secret ∙ p.client_secret;
  redirect_uri = q.redirect_uri ∙ p.redirect_uri;
  step_up = q.step_up ∙ p.step_up;
  allowed_groups = q.allowed_groups ∙ p.allowed_groups;
  discovery_url = q.discovery_url ∙ p.discovery_url;
  additional_scopes = q.additional_scopes ∙ p.additional_scopes;
  rest_action_ref = q.rest_action_ref ∙ p.rest_action_ref;
}

unnamed :
    (spec : OidcSpec) (issuer : String)
    → spec.issuer ≡ ""
    → SamePolicy spec (record spec { issuer = issuer })
unnamed spec issuer e = record {
  issuer = λ ne. absurd (ne e);
  client_id = refl;
  client_secret = refl;
  redirect_uri = refl;
  step_up = refl;
  allowed_groups = refl;
  discovery_url = refl;
  additional_scopes = refl;
  rest_action_ref = refl;
}

with_issuer-SamePolicy :
    (W : Type 0) (discovery : Discovery W) (spec spec' : OidcSpec) (doc : DiscoveryEndpointResponse)
    → with_issuer discovery spec doc ≡ ok spec'
    → SamePolicy spec spec'
with_issuer-SamePolicy W discovery spec spec' doc h = elim (Bool-cases (spec.issuer == "")) [
  | inl e ↦ rw (← ok-injective (rw e at h)) (unnamed spec doc.issuer ((eq_iff spec.issuer "").0 e))
  | inr e ↦ elim (Bool-cases (not (doc.issuer == "") && not (doc.issuer == spec.issuer))) [
    | inl f ↦ absurd (err≢ok (rw (e, f) at h))
    | inr f ↦
        rw (← ok-injective (rw (e, f) at h))
          (moved spec spec.authorization_url spec.token_url spec.user_info_url)
  ]
]

module _ {W : Type 0} (discovery : Discovery W) where
  with_auth_code_url-SamePolicy :
      (spec : OidcSpec)
      → Triple Always (with_auth_code_url discovery spec) (λ spec' _. SamePolicy spec spec')
  with_auth_code_url-SamePolicy spec = calls (λ w p spec' w' e.
      rw (← ok-injective (ap (λ x. x.0) e)) (moved spec _ spec.token_url spec.user_info_url))

  apply_discovery-SamePolicy :
      (spec : OidcSpec) (doc : DiscoveryEndpointResponse)
      → Triple Always (apply_discovery discovery spec doc) (λ spec' _. SamePolicy spec spec')
  unfolding apply_discovery
  apply_discovery-SamePolicy spec doc = next done (λ _. calls (λ w p spec' w' e.
      chain_policies (moved spec _ _ _)
        ((with_auth_code_url-SamePolicy (with_endpoints discovery spec doc)).run w tt spec' w' e)))

  bare_query-SamePolicy :
      (spec : OidcSpec)
      → Triple Always (bare_query discovery spec) (λ spec' _. SamePolicy spec spec')
  bare_query-SamePolicy spec = elim (Bool-cases (contains_char 63 spec.authorization_url)) [
    | inl e ↦ rw e (returns (λ w p. moved spec _ _ _))
    | inr e ↦ rw e (with_auth_code_url-SamePolicy spec)
  ]

  with_urls-SamePolicy :
      (spec : OidcSpec) (doc : DiscoveryEndpointResponse)
      → Triple Always (with_urls discovery spec doc) (λ spec' _. SamePolicy spec spec')
  with_urls-SamePolicy spec doc =
      elim (Bool-cases
        (spec.authorization_url == "" || spec.token_url == "" || spec.user_info_url == "")) [
          | inl e ↦ rw e (apply_discovery-SamePolicy spec doc)
          | inr e ↦ rw e (bare_query-SamePolicy spec)
        ]

  discovered-SamePolicy :
      (spec : OidcSpec)
      → Triple Always (discovered discovery spec) (λ spec' _. SamePolicy spec spec')
  discovered-SamePolicy spec = bind done (λ doc.
      bind {Mid = λ named _. SamePolicy spec named}
        (lifts (λ w p named e. with_issuer-SamePolicy W discovery spec named doc e))
        (λ named. calls (λ w p spec' w' e.
          chain_policies p ((with_urls-SamePolicy named doc).run w tt spec' w' e))))

  undiscovered-SamePolicy :
      (spec : OidcSpec)
      → Triple Always (undiscovered discovery spec) (λ spec' _. SamePolicy spec spec')
  undiscovered-SamePolicy spec = elim (Bool-cases (spec.authorization_url == "")) [
    | inl e ↦ rw e (returns (λ w p. moved spec _ _ _))
    | inr e ↦ rw e (bare_query-SamePolicy spec)
  ]

  resolve-Triple :
      (spec : OidcSpec)
      → Triple Always (resolve_oidc_config discovery spec) (λ spec' _. SamePolicy spec spec')
  unfolding resolve_oidc_config
  resolve-Triple spec = elim (Bool-cases (spec.discovery_url == "")) [
    | inl e ↦ rw e (undiscovered-SamePolicy spec)
    | inr e ↦ rw e (discovered-SamePolicy spec)
  ]

  -- Completing a configuration changes nothing but its authorization, token and UserInfo addresses,
  -- and gives it an issuer only where it has none: no discovery document replaces the configured
  -- issuer, client, redirect, scopes, RESTAction, groups or step-up.
  pub resolve_oidc_config-SamePolicy :
      (spec spec' : OidcSpec) (w w' : W)
      → resolve_oidc_config discovery spec w ≡ (ok spec', w')
      → SamePolicy spec spec'
  resolve_oidc_config-SamePolicy spec spec' w w' h = (resolve-Triple spec).run w tt spec' w' h
