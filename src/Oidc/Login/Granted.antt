-- ===== src/Oidc/Login/Granted.antt =====
-- What a login and a step-up that succeed have done (login.go, stepup.go).
use authn.Prelude.{String, ◌≡◌, Bool, Option, none, some}
use authn.Go.Time.{Time, Duration}
use authn.Go.Act.{ok}
use authn.Go.Act.Triple.{Triple}
use authn.UserInfo.{Info, new_step_up_user}
use authn.Kubeconfig.{KubeConfig}
use authn.Encode.{Answer, answered, Response}
use authn.Encode.Minting.{Minted}
use authn.Oidc.Token.{IdToken}
use authn.Oidc.StepUp.{step_up_level}
use authn.Oidc.StepUp.Laws.{Proven}
use authn.Oidc.Exchange.{OidcConfig}
use authn.Oidc.Login.{Services, Request, authenticate, step_up, ttl_of}
use authn.Oidc.Login.Laws.{Authenticated}

module _ {W : Type 0} (services : Services W) (jwt_private_key : Bool) (jwt_key_id : String) where
  open services use {tokens, generate, generate_step_up}

  abbrev Who : Type 0
  Who = OidcConfig × IdToken × Info

  -- A session: the user that the request's authentication let in is the one that the credential was
  -- generated for next, and the one that the response and its token name.
  pub record SessionGiven (jwt_duration : Duration) (req : Request) (w : W)
      (r : Response (Option KubeConfig)) : Type 0 where
    pub who : OidcConfig × IdToken × Info
    pub moment : W
    pub let_in : authenticate services req w ≡ (ok who, moment)
    pub authenticated : Authenticated services req who
    pub issued : KubeConfig × Time
    pub later : W
    pub generated : generate "oidc" who.2 moment ≡ (ok issued, later)
    pub minted :
        Minted tokens
          (some issued.0)
          who.2
          (some (record { kind = "oidc"; name = req.name }))
          jwt_duration
          jwt_private_key
          jwt_key_id
          issued.1
          r

  -- A step-up: the token of the user that the request's authentication let in proved it at that
  -- instant, and the credential was generated next for that user with the group of the level, whom the
  -- response and its token name.
  pub record StepUpGiven (req : Request) (w : W) (r : Response (Option KubeConfig)) : Type 0 where
    pub who : OidcConfig × IdToken × Info
    pub moment : W
    pub let_in : authenticate services req w ≡ (ok who, moment)
    pub authenticated : Authenticated services req who
    pub proven : Proven who.0.step_up who.1 (tokens.now moment)
    pub not_after : Time
    pub later : W
    pub generated :
        generate_step_up "oidc"
          (new_step_up_user who.2 step_up_level)
          (ttl_of services jwt_private_key jwt_key_id who.0.step_up)
          moment
        ≡ (ok not_after, later)
    pub minted :
        Minted tokens none
          (new_step_up_user who.2 step_up_level)
          none
          (ttl_of services jwt_private_key jwt_key_id who.0.step_up)
          jwt_private_key
          jwt_key_id
          not_after
          r

  -- What holds of the response that an answer is.
  abbrev Responding : (Response (Option KubeConfig) → Type 0) → Answer (Option KubeConfig) → Type 0
  Responding P a = (r : Response (Option KubeConfig)) → a ≡ answered r → P r

  -- What authentication from a world gave.
  abbrev LetIn : Request → W → Who → W → Type 0
  LetIn req start who v =
      (authenticate services req start ≡ (ok who, v)) × Authenticated services req who

  abbrev Checked : Request → W → Who → W → Type 0
  Checked req start who v = LetIn req start who v × Proven who.0.step_up who.1 (tokens.now v)
