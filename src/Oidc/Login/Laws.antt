-- ===== src/Oidc/Login/Laws.antt =====
-- Whom a login and a step-up let in (login.go, stepup.go).
use authn.Cluster.{ObjectRef, get_operator_namespace}
use authn.Prelude.{String, ◌≡◌, ◌≢◌, refl, ap, ◌↔◌, ◌⊎◌, false, Option, none, some, [], In}
use authn.Go.Act.{ok, ok-injective}
use authn.Go.Act.Triple.{Triple, Always, bind, next, returns, lifts, or_fails, calls, done, frame}
use authn.Go.Dict.{Dict}
use authn.Go.Json.{Json}
use authn.UserInfo.Exts.{add}
use authn.UserInfo.{Info, is_reserved, new_default_user, set_groups}
use authn.UserInfo.Groups.{Unreserved, new_default_user-Unreserved, new_default_user-groups_iff}
use authn.Oidc.Token.{IdToken}
use authn.Oidc.StepUp.{resolve_step_up}
use authn.Oidc.Claims.{update_config}
use authn.Oidc.Claims.Laws.{SameProof, same, update_config-SameProof}
use authn.Oidc.Exchange.{OidcConfig, do_login}
use authn.Oidc.Exchange.Laws.{Authentic, Authentic-same, do_login-Authentic}
use authn.Oidc.Discovery.{OidcSpec, oidc_config_get}
use authn.Oidc.Discovery.Laws.{SamePolicy, resolve_oidc_config-SamePolicy}
use authn.Oidc.Login.{
  Services, Request, config_of, client_secret_of, get_config, fields_to_replace, enrich, validate,
  authenticate,
}
use authn.Oidc.Login.Admission.{Admitted, check_allowed_groups_iff}

module _ {W : Type 0} (services : Services W) where
  open services use {discovery, make_dns1123_compatible, new_id}

  -- The configuration of a name: the spec that the operator's namespace has under the name, read, and
  -- what of it decides who is let in.
  pub record Configured (name : String) (cfg : OidcConfig) : Type 0 where
    pub ns : String
    pub asked : W
    pub located : W
    pub in_namespace : get_operator_namespace discovery.os asked ≡ (ok ns, located)
    pub spec : OidcSpec
    pub before : W
    pub later : W
    pub read : discovery.get_spec ns name before ≡ (ok spec, later)
    pub issuer : spec.issuer ≢ "" → cfg.issuer ≡ spec.issuer
    pub client_id : cfg.client_id ≡ spec.client_id
    pub step_up : cfg.step_up ≡ resolve_step_up spec.step_up
    pub allowed_groups : cfg.allowed_groups ≡ spec.allowed_groups
    pub rest_action_ref : cfg.rest_action_ref ≡ spec.rest_action_ref

  -- Where the profile of a login comes from: the provider alone, or the provider with the fields that
  -- the RESTAction of the configuration replaces.
  pub data Enriched (proven : IdToken) : Option ObjectRef → IdToken → Type 0 where
    as_proven : Enriched proven none proven
    from_action :
        (ref : ObjectRef) (values : Dict Json) (tok : IdToken) (v u : W)
        → fields_to_replace services ref proven v ≡ (ok values, u)
        → update_config values proven ≡ ok tok
        → Enriched proven (some ref) tok

  -- A code that the provider of a configuration exchanged for a profile, which a valid ID token of its
  -- answer proves.
  pub record LoggedIn (req : Request) (cfg : OidcConfig) (proven : IdToken) : Type 0 where
    pub configured : Configured req.name cfg
    pub before : W
    pub later : W
    pub exchanged :
        do_login discovery.provider req.auth_code req.code_verifier cfg before ≡ (ok proven, later)
    pub authentic : Authentic discovery.provider req.auth_code req.code_verifier cfg proven

  -- Whom `authenticate` lets through: the provider of the named configuration logged them in; the
  -- profile, with the fields of the configuration's RESTAction, has the same proof; the identity has
  -- the name of that profile and exactly its groups but for the reserved; and the configuration admits
  -- it.
  pub record Authenticated (req : Request) (who : OidcConfig × IdToken × Info) : Type 0 where
    pub proven : IdToken
    pub logged_in : LoggedIn req who.0 proven
    pub enriched : Enriched proven who.0.rest_action_ref who.1
    pub authentic : Authentic discovery.provider req.auth_code req.code_verifier who.0 who.1
    pub named : who.2.name ≡ make_dns1123_compatible who.1.preferred_username
    pub groups : (g : String) → In g who.2.groups ↔ (In g who.1.groups × (is_reserved g ≡ false))
    pub unreserved : Unreserved who.2.groups
    pub admitted : (who.0.allowed_groups ≡ []) ⊎ Admitted who.0.allowed_groups who.2.groups

  -- An identity has the name of a profile and its groups but for the reserved.
  record Identity (tok : IdToken) (nfo : Info) : Type 0 where
    named : nfo.name ≡ make_dns1123_compatible tok.preferred_username
    groups : (g : String) → In g nfo.groups ↔ (In g tok.groups × (is_reserved g ≡ false))
    unreserved : Unreserved nfo.groups

  Enriched-same :
      {proven tok : IdToken} {ref : Option ObjectRef}
      → Enriched proven ref tok
      → SameProof proven tok
  Enriched-same {proven} as_proven = same proven
  Enriched-same {proven} (from_action ref values tok v u e f) =
      update_config-SameProof values proven tok f

  enrich-Enriched :
      (ref : Option ObjectRef) (tok : IdToken)
      → Triple Always (enrich services ref tok) (λ tok' _. Enriched tok ref tok')
  unfolding enrich
  enrich-Enriched none tok = returns (λ w p. as_proven)
  enrich-Enriched (some ref) tok =
      bind
        {Mid = λ values _.
          (v : W) × (u : W) × (fields_to_replace services ref tok v ≡ (ok values, u))}
        (calls (λ w p values u e. (w, u, e)))
        (λ values. or_fails _ (lifts (λ w p tok' e. from_action ref values tok' p.0 p.1 p.2 e)))

  validate-Identity :
      (tok : IdToken) → Triple Always (validate services tok) (λ nfo _. Identity tok nfo)
  unfolding validate new_default_user set_groups
  validate-Identity tok = calls (λ w p nfo w' e. rw (← ok-injective (ap (λ x. x.0) e)) (record {
    named = refl;
    groups =
        new_default_user-groups_iff (make_dns1123_compatible tok.preferred_username) (new_id w).0
          tok.groups
          (add "email" tok.email (add "avatarUrl" tok.avatar_url (add "name" tok.name [])));
    unreserved =
        new_default_user-Unreserved (make_dns1123_compatible tok.preferred_username) (new_id w).0
          tok.groups
          (add "email" tok.email (add "avatarUrl" tok.avatar_url (add "name" tok.name [])));
  }))

  abbrev Located : String → Type 0
  Located ns = (v : W) × (u : W) × (get_operator_namespace discovery.os v ≡ (ok ns, u))

  -- The configuration that a spec, completed, gives.
  completed :
      (name ns : String) (spec spec' : OidcSpec) (secret : String)
      → Located ns × ((v : W) × (u : W) × (discovery.get_spec ns name v ≡ (ok spec, u)))
      → SamePolicy spec spec'
      → Configured name (config_of services spec' secret)
  completed name ns spec spec' secret p q = record {
    ns = ns;
    asked = p.0.0;
    located = p.0.1;
    in_namespace = p.0.2;
    spec = spec;
    before = p.1.0;
    later = p.1.1;
    read = p.1.2;
    issuer = q.issuer;
    client_id = q.client_id;
    step_up = ap resolve_step_up q.step_up;
    allowed_groups = q.allowed_groups;
    rest_action_ref = q.rest_action_ref;
  }

  oidc_config_get-Triple :
      (name : String)
      → Triple Always
          (oidc_config_get discovery name)
          (λ spec' _. (secret : String) → Configured name (config_of services spec' secret))
  unfolding oidc_config_get
  oidc_config_get-Triple name =
      bind {Mid = λ ns _. Located ns} (or_fails _ (calls (λ w p ns u e. (w, u, e)))) (λ ns.
        next (frame done) (λ _.
          bind
            {Mid = λ spec _.
              Located ns × ((v : W) × (u : W) × (discovery.get_spec ns name v ≡ (ok spec, u)))}
            (calls (λ w p spec u e. (p.0, (w, u, e))))
            (λ spec. calls (λ w p spec' u e secret.
              completed name ns spec spec' secret p
                (resolve_oidc_config-SamePolicy discovery spec spec' w u e)))))

  get_config-Configured :
      (name : String) → Triple Always (get_config services name) (λ cfg _. Configured name cfg)
  unfolding get_config
  get_config-Configured name = next done (λ _.
      bind (or_fails _ (oidc_config_get-Triple name)) (λ spec.
        bind (frame (done {m = client_secret_of services spec.client_secret}))
          (λ secret. returns (λ w p. p.0 secret))))

  pub authenticate-Triple :
      (req : Request) → Triple Always (authenticate services req) (λ who _. Authenticated req who)
  unfolding authenticate
  authenticate-Triple req = next done (λ _. next done (λ _.
      bind (get_config-Configured req.name) (λ cfg.
        bind {Mid = λ proven _. LoggedIn req cfg proven}
          (calls (λ w p proven u e. record {
            configured = p;
            before = w;
            later = u;
            exchanged = e;
            authentic =
                do_login-Authentic discovery.provider req.auth_code req.code_verifier cfg proven w u
                  e;
          }))
          (λ proven. bind (frame (enrich-Enriched cfg.rest_action_ref proven)) (λ tok.
            bind (frame (validate-Identity tok)) (λ nfo.
              next {Mid = λ _ _. Authenticated req (cfg, tok, nfo)}
                (lifts (λ w p u e. record {
                  proven = proven;
                  logged_in = p.0.0;
                  enriched = p.0.1;
                  authentic =
                      Authentic-same discovery.provider req.auth_code req.code_verifier cfg proven
                        tok p.0.0.authentic (Enriched-same p.0.1);
                  named = p.1.named;
                  groups = p.1.groups;
                  unreserved = p.1.unreserved;
                  admitted = (check_allowed_groups_iff services cfg.allowed_groups nfo).0 e;
                }))
                (λ _. returns (λ w p. p))))))))
