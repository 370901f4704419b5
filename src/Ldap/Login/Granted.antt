-- ===== src/Ldap/Login/Granted.antt =====
-- What a login with a directory that succeeds has done (login.go).
use authn.Prelude.{String, ◌≡◌, refl, Bool, some}
use authn.Go.Time.{Time, Duration}
use authn.Go.Act.{ok}
use authn.Go.Act.Triple.{Triple, Always, bind, next, lifts, or_fails, calls, done}
use authn.UserInfo.{Info}
use authn.Kubeconfig.{KubeConfig}
use authn.Encode.{answered, Response}
use authn.Encode.Laws.{handle-answered}
use authn.Encode.Minting.{Minted, success-Minted}
use authn.Decode.{Body, json_body}
use authn.Ldap.Config.{LdapConfig, get_config}
use authn.Ldap.Login.{Services, LoginInfo, login_info, authenticate, login, handler}
use authn.Ldap.Login.Laws.{LoggedIn, do_login-Triple}

module _ {W Conn Template : Type 0} (services : Services W Conn Template) where
  open services use {directory, templates, resolver, generate}

  -- A login that the directory of a configuration vouched for, with the credentials of the body.
  pub record Authenticated (name : String) (body : Body LoginInfo) (nfo : Info) : Type 0 where
    pub lo : LoginInfo
    pub given : login_info (json_body body) ≡ ok lo
    pub cfg : LdapConfig Template
    pub before : W
    pub later : W
    pub configured :
        get_config resolver templates directory.escape_filter name before ≡ (ok cfg, later)
    pub logged_in : LoggedIn services lo.username lo.password cfg nfo

  authenticate-Triple :
      (name : String) (body : Body LoginInfo)
      → Triple Always (authenticate services name body) (λ nfo _. Authenticated name body nfo)
  unfolding authenticate
  authenticate-Triple name body = next done (λ _.
      bind {Mid = λ lo _. login_info (json_body body) ≡ ok lo} (lifts (λ w p lo e. e)) (λ lo.
        bind
          {Mid = λ cfg _.
            (login_info (json_body body) ≡ ok lo)
            × ((v : W) × (u : W) × (get_config resolver templates directory.escape_filter name v
                  ≡ (ok cfg, u)))}
          (calls (λ w p cfg u e. (p, (w, u, e))))
          (λ cfg. calls (λ w p nfo u e. record {
            lo = lo;
            given = p.0;
            cfg = cfg;
            before = p.1.0;
            later = p.1.1;
            configured = p.1.2;
            logged_in = (do_login-Triple services lo.username lo.password cfg).run w tt nfo u e;
          }))))

  module _ (jwt_duration : Duration) (jwt_private_key : Bool) (jwt_key_id : String) where
    -- A credential that was generated for an identity that was vouched for, whom the response and
    -- its token name.
    pub record DirectorySession (name : String) (body : Body LoginInfo) (r : Response KubeConfig)
        : Type 0 where
      pub nfo : Info
      pub authenticated : Authenticated name body nfo
      pub issued : KubeConfig × Time
      pub before : W
      pub later : W
      pub generated : generate "ldap" nfo before ≡ (ok issued, later)
      pub minted :
          Minted services.tokens issued.0 nfo
            (some (record { kind = "ldap"; name = name }))
            jwt_duration
            jwt_private_key
            jwt_key_id
            issued.1
            r

    login-Triple :
        (name : String) (body : Body LoginInfo)
        → Triple Always
            (login services jwt_duration jwt_private_key jwt_key_id name body)
            (λ a _. (r : Response KubeConfig) → a ≡ answered r → DirectorySession name body r)
    unfolding login
    login-Triple name body = bind (authenticate-Triple name body) (λ nfo.
        bind
          {Mid = λ issued _.
            Authenticated name body nfo
            × ((v : W) × (u : W) × (generate "ldap" nfo v ≡ (ok issued, u)))}
          (or_fails _ (calls (λ w p issued u e. (p, (w, u, e)))))
          (λ issued. calls (λ w p a u e r q. record {
            nfo = nfo;
            authenticated = p.0;
            issued = issued;
            before = p.1.0;
            later = p.1.1;
            generated = p.1.2;
            minted =
                (success-Minted services.tokens issued.0 nfo _ jwt_duration jwt_private_key
                    jwt_key_id issued.1).run
                  w tt a u e r q;
          })))

    -- A login with a directory is answered with a response only where the search that the named
    -- configuration makes for the username found exactly one entry, the directory took the given
    -- password for that entry, and a credential was generated for an identity with the entry's uid
    -- and exactly the groups that the group search named, but for the empty one and the reserved;
    -- the response then names that identity and its groups, and its token, where there is a key to
    -- sign it, was created for them with the duration that the certificate leaves.
    pub handler-DirectorySession :
        (name : String) (body : Body LoginInfo) (r : Response KubeConfig) (w u : W)
        → handler services jwt_duration jwt_private_key jwt_key_id name body w ≡ (answered r, u)
        → DirectorySession name body r
    unfolding handler
    handler-DirectorySession name body r w u h =
        (login-Triple name body).run w tt (answered r) u (handle-answered _ r w u h) r refl
