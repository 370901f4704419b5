-- ===== src/Issuance.antt =====
-- The logins with the generator that buildRoutes hands to them (go/authn/routes.go): the OpenID
-- Connect login and its step-up, over the generator of go/authn/internal/helpers/kube/config.
use authn.Prelude.{String, ◌≡◌, Bool, true, false, Option, none, some}
use authn.Go.Time.{Time, Duration}
use authn.UserInfo.{Info, new_step_up_user}
use authn.UserInfo.Groups.{Unreserved}
use authn.Storage.Groups.{OneLine}
use authn.Kubeconfig.{
  Environment, Generator, CertInfo, ClusterInfo, KubeConfig, generate, generate_step_up,
}
use authn.Kubeconfig.Generate.{Credential}
use authn.Encode.{Response}
use authn.Oidc.Token.{IdToken}
use authn.Oidc.StepUp.{step_up_level}
use authn.Oidc.StepUp.Laws.{Proven}
use authn.Oidc.Exchange.{OidcConfig}
use authn.Encode.Minting.{Minted}
use authn.Go.Act.{ok}
use authn.Oidc.Login.{Services, Request, authenticate, ttl_of}
use authn.Oidc.Login.Laws.{Authenticated}

module _ {W : Type 0} (environment : Environment W) (services : Services (Generator × W))
    (jwt_private_key : Bool) (jwt_key_id : String) where
  -- What the login calls, its generator being the one of buildRoutes.
  abbrev pub wired : Services (Generator × W)
  wired = record services {
    generate = generate environment;
    generate_step_up = generate_step_up environment;
  }

  -- A session of the user that a valid ID token names and that the configuration admits: its
  -- credential is stored, its groups can be recorded and are not reserved, and the response and its
  -- token name it.
  pub record Session (jwt_duration : Duration) (req : Request) (w : Generator × W)
      (r : Response (Option KubeConfig)) : Type 0 where
    pub who : OidcConfig × IdToken × Info
    pub moment : Generator × W
    pub let_in : authenticate wired req w ≡ (ok who, moment)
    pub authenticated : Authenticated wired req who
    pub recorded : OneLine who.2.groups
    pub unreserved : Unreserved who.2.groups
    pub issued : KubeConfig × Time
    pub later : Generator × W
    pub credential :
        Credential environment "oidc" who.2 false issued.0.cert_info issued.0.cluster issued.1
          later.1
    pub minted :
        Minted services.tokens
          (some issued.0)
          who.2
          (some (record { kind = "oidc"; name = req.name }))
          jwt_duration
          jwt_private_key
          jwt_key_id
          issued.1
          r

  -- A step-up of the user whose ID token proved it: the credential of that user with the group of the
  -- level is stored, as a step-up.
  pub record SteppedUp (req : Request) (w : Generator × W) (r : Response (Option KubeConfig))
      : Type 0 where
    pub who : OidcConfig × IdToken × Info
    pub moment : Generator × W
    pub let_in : authenticate wired req w ≡ (ok who, moment)
    pub authenticated : Authenticated wired req who
    pub proven : Proven who.0.step_up who.1 (services.tokens.now moment)
    pub cert_info : CertInfo
    pub cluster_info : ClusterInfo
    pub not_after : Time
    pub later : Generator × W
    pub credential :
        Credential environment "oidc"
          (new_step_up_user who.2 step_up_level)
          true
          cert_info
          cluster_info
          not_after
          later.1
    pub minted :
        Minted services.tokens none
          (new_step_up_user who.2 step_up_level)
          none
          (ttl_of wired jwt_private_key jwt_key_id who.0.step_up)
          jwt_private_key
          jwt_key_id
          not_after
          r
