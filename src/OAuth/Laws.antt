-- ===== src/OAuth/Laws.antt =====
-- Whom an OAuth login lets in (login.go, support.go).
use authn.Prelude.{String, ◌≡◌, refl, sym, ap, Bool, true, false, In, ◌↔◌, Option, none, some, []}
use authn.Go.Text.{equal_fold}
use authn.Go.Time.{Time, Duration}
use authn.Go.Dict.{Dict}
use authn.Go.Json.{Json}
use authn.Go.Act.{ok, ok-injective, err≢ok}
use authn.Go.Act.Triple.{Triple, Always, bind, next, lifts, or_fails, calls, done, returns, frame}
use authn.Go.Check.{require-ok}
use authn.UserInfo.Exts.{add}
use authn.UserInfo.{Info, is_reserved, new_default_user, set_groups}
use authn.UserInfo.Groups.{Unreserved, new_default_user-Unreserved, new_default_user-groups_iff}
use authn.Cluster.{ObjectRef}
use authn.Kubeconfig.{KubeConfig}
use authn.Encode.{answered, Response}
use authn.Encode.Laws.{handle-answered}
use authn.Encode.Minting.{Minted, success-Minted}
use authn.OAuth.Profile.{UserInfo, update_config}
use authn.OAuth.{
  Services, Request, OauthConfig, Token, Exchanged, token, failure, exchanged_in, verifier_of,
  nobody, get_config, exchange, fields_to_replace, user_of, validate, authenticate, login, handler,
}

module _ {W : Type 0} (services : Services W) where
  open services use {make_dns1123_compatible, generate}

  -- Where the user of a login comes from: without a RESTAction nobody is named; with one, its answer
  -- fills the user in, for a bearer token.
  pub data Filled (tok : Token) : Option ObjectRef → UserInfo → Type 0 where
    nameless : Filled tok none nobody
    from_action :
        (ref : ObjectRef) (values : Dict Json) (user : UserInfo) (v u : W)
        → equal_fold tok.token_type "bearer" ≡ true
        → fields_to_replace services ref tok v ≡ (ok values, u)
        → update_config values nobody ≡ ok user
        → Filled tok (some ref) user

  -- An identity that the provider of a configuration vouched for.
  pub record LoggedIn (req : Request) (nfo : Info) : Type 0 where
    pub cfg : OauthConfig
    pub ref : Option ObjectRef
    pub before : W
    pub later : W
    pub configured : get_config services req.name before ≡ (ok (cfg, ref), later)
    pub tok : Token
    pub sent : W
    pub got : W
    pub exchanged :
        services.exchange cfg req.auth_code (verifier_of req.code_verifier) sent ≡ (token tok, got)
    pub user : UserInfo
    pub filled : Filled tok ref user
    pub named : nfo.name ≡ make_dns1123_compatible user.preferred_username
    pub groups : (g : String) → In g nfo.groups ↔ (In g user.groups × (is_reserved g ≡ false))
    pub unreserved : Unreserved nfo.groups

  exchanged_in-ok :
      (x : Exchanged × W) {tok : Token} {u : W} → exchanged_in x ≡ (ok tok, u) → x ≡ (token tok, u)
  exchanged_in-ok (token tok, w) h = λ i. (token (ok-injective (ap (λ x. x.0) h) i), (h i).1)
  exchanged_in-ok (failure e, w) h = absurd (err≢ok (ap (λ x. x.0) h))

  user_of-Filled :
      (ref : Option ObjectRef) (tok : Token)
      → Triple Always (user_of services ref tok) (λ user _. Filled tok ref user)
  unfolding user_of
  user_of-Filled none tok = returns (λ w p. nameless)
  user_of-Filled (some ref) tok =
      next {Mid = λ _ _. equal_fold tok.token_type "bearer" ≡ true}
        (lifts (λ w p u e. require-ok _ _ e))
        (λ _.
          bind
            {Mid = λ values _.
              (equal_fold tok.token_type "bearer" ≡ true)
              × ((v : W) × (u : W) × (fields_to_replace services ref tok v ≡ (ok values, u)))}
            (calls (λ w p values u e. (p, (w, u, e))))
            (λ values.
              or_fails _
                (lifts (λ w p user e. from_action ref values user p.1.0 p.1.1 p.0 p.1.2 e))))

  abbrev Configured : Request → OauthConfig × Option ObjectRef → Type 0
  Configured req cfg = (v : W) × (u : W) × (get_config services req.name v ≡ (ok cfg, u))

  abbrev Sent : Request → OauthConfig × Option ObjectRef → Token → Type 0
  Sent req cfg tok =
      Configured req cfg
      × ((v : W) × (u : W) × (services.exchange cfg.0 req.auth_code (verifier_of req.code_verifier)
              v
            ≡ (token tok, u)))

  validate-Triple :
      (req : Request) (cfg : OauthConfig × Option ObjectRef) (tok : Token) (user : UserInfo)
      → Triple
          (λ _. Sent req cfg tok × Filled tok cfg.1 user)
          (validate services user)
          (λ nfo _. LoggedIn req nfo)
  unfolding validate new_default_user set_groups
  validate-Triple req cfg tok user = calls (λ w p nfo u e. record {
    cfg = cfg.0;
    ref = cfg.1;
    before = p.0.0.0;
    later = p.0.0.1;
    configured = p.0.0.2;
    tok = tok;
    sent = p.0.1.0;
    got = p.0.1.1;
    exchanged = p.0.1.2;
    user = user;
    filled = p.1;
    named = ap (λ n. n.name) (sym (ok-injective (ap (λ x. x.0) e)));
    groups = rw (← ok-injective (ap (λ x. x.0) e)) (
        new_default_user-groups_iff (make_dns1123_compatible user.preferred_username)
          (services.new_id w).0 user.groups
          (add "avatarUrl" user.avatar_url (add "email" user.email (add "name" user.name []))));
    unreserved = rw (← ok-injective (ap (λ x. x.0) e)) (
        new_default_user-Unreserved (make_dns1123_compatible user.preferred_username)
          (services.new_id w).0 user.groups
          (add "avatarUrl" user.avatar_url (add "email" user.email (add "name" user.name []))));
  })

  authenticate-Triple :
      (req : Request) → Triple Always (authenticate services req) (λ nfo _. LoggedIn req nfo)
  unfolding authenticate exchange
  authenticate-Triple req = next done (λ _. next done (λ _.
      bind {Mid = λ cfg _. Configured req cfg} (calls (λ w p cfg u e. (w, u, e))) (λ cfg.
        bind {Mid = λ tok _. Sent req cfg tok}
          (calls (λ w p tok u e. (p, (w, u, exchanged_in-ok _ e))))
          (λ tok.
            bind {Mid = λ user _. Sent req cfg tok × Filled tok cfg.1 user}
              (frame (user_of-Filled cfg.1 tok)) (λ user. validate-Triple req cfg tok user)))))

  module _ (jwt_duration : Duration) (jwt_private_key : Bool) (jwt_key_id : String) where
    -- A credential that was generated for an identity that was vouched for, whom the response and
    -- its token name.
    pub record SessionGiven (req : Request) (r : Response KubeConfig) : Type 0 where
      pub nfo : Info
      pub logged_in : LoggedIn req nfo
      pub issued : KubeConfig × Time
      pub before : W
      pub later : W
      pub generated : generate "oauth" nfo before ≡ (ok issued, later)
      pub minted :
          Minted services.tokens issued.0 nfo
            (some (record { kind = "oauth"; name = req.name }))
            jwt_duration
            jwt_private_key
            jwt_key_id
            issued.1
            r

    login-Triple :
        (req : Request)
        → Triple Always
            (login services jwt_duration jwt_private_key jwt_key_id req)
            (λ a _. (r : Response KubeConfig) → a ≡ answered r → SessionGiven req r)
    unfolding login
    login-Triple req = bind (authenticate-Triple req) (λ nfo.
        bind
          {Mid = λ issued _.
            LoggedIn req nfo × ((v : W) × (u : W) × (generate "oauth" nfo v ≡ (ok issued, u)))}
          (or_fails _ (calls (λ w p issued u e. (p, (w, u, e)))))
          (λ issued. calls (λ w p a u e r q. record {
            nfo = nfo;
            logged_in = p.0;
            issued = issued;
            before = p.1.0;
            later = p.1.1;
            generated = p.1.2;
            minted =
                (success-Minted services.tokens issued.0 nfo _ jwt_duration jwt_private_key
                    jwt_key_id issued.1).run
                  w tt a u e r q;
          })))

    -- An OAuth login is answered with a response only where the token endpoint of the named
    -- configuration gave a token for the code, the user is the one that the RESTAction of the
    -- configuration fills in for a bearer token (nobody where it has none), the identity has that
    -- user's name and exactly that user's groups but for the reserved, and a credential was generated
    -- for it; the response then names that identity and its groups, and its token, where there is a key
    -- to sign it, was created for that name and those groups with the configured duration, as far as the
    -- certificate leaves it.
    pub handler-SessionGiven :
        (req : Request) (r : Response KubeConfig) (w u : W)
        → handler services jwt_duration jwt_private_key jwt_key_id req w ≡ (answered r, u)
        → SessionGiven req r
    unfolding handler
    handler-SessionGiven req r w u h =
        (login-Triple req).run w tt (answered r) u (handle-answered _ r w u h) r refl
