-- ===== src/Oidc/Exchange/Laws.antt =====
-- A login's identity is one that a valid ID token proves (support.go).
use authn.Prelude.{
  ℕ, String, ◌≡◌, refl, ap, ◌||◌, List, ◌==◌, nat_eq, length, Bool-cases, inl, inr, arith,
}
use authn.Go.Dict.{Dict}
use authn.Go.Json.{Json}
use authn.Go.Http.{HttpRequest, HttpResponse}
use authn.Go.Act.{ok, err≢ok}
use authn.Go.Act.Triple.{Triple, Always, bind, next, returns, lifts, calls, done, or_fails}
use authn.Oidc.Claims.Laws.{SameProof}
use authn.Oidc.Token.{IdToken, TokenResponse}
use authn.Oidc.Validation.Laws.{Valid, validate_id_token_iff}
use authn.Oidc.Profile.{Profile}
use authn.Oidc.Profile.Laws.{FromClaims, FromClaims-same, fill_profile-same, read_claims-FromClaims}
use authn.Oidc.Exchange.{
  Provider, OidcConfig, do_login, complete, validate_now, ask_user_info, form_of, token_request,
  token_accepted,
}
use authn.Oidc.Exchange.Requests.{Form, Holds, decode_jwt-Holds, form_of-Form}

module _ {W : Type 0} (provider : Provider W) where
  open provider use {now, send, encode_form, unmarshal_token, unmarshal_object, decode_base64url}

  -- The token endpoint's answer to the request for the tokens of a code.
  pub record Answered (code code_verifier : String) (cfg : OidcConfig) (token : TokenResponse)
      (later : W) : Type 0 where
    pub form : Dict String
    pub asked : Form code code_verifier cfg form
    pub request : HttpRequest
    pub method : request.method ≡ "POST"
    pub url : request.url ≡ cfg.token_url
    pub carried : request.body ≡ encode_form form
    pub resp : HttpResponse
    pub before : W
    pub sent : send request before ≡ (ok resp, later)
    pub accepted : resp.status_code ≡ 200
    pub body : String
    pub read : resp.body ≡ ok body
    pub understood : unmarshal_token body ≡ ok token

  -- What a token proves was read from the claims of the ID token that the token endpoint gave for
  -- the code, which are valid at the instant of its answer.
  pub record Authentic (code code_verifier : String) (cfg : OidcConfig) (tok : IdToken)
      : Type 0 where
    pub token : TokenResponse
    pub moment : W
    pub answered : Answered code code_verifier cfg token moment
    pub claims : Dict Json
    pub held : Holds decode_base64url unmarshal_object token.id_token claims
    pub valid : Valid claims cfg.issuer cfg.client_id (now moment)
    pub from : FromClaims claims token.access_token tok

  pub Authentic-same :
      (code code_verifier : String) (cfg : OidcConfig) (tok tok' : IdToken)
      → Authentic code code_verifier cfg tok
      → SameProof tok tok'
      → Authentic code code_verifier cfg tok'
  Authentic-same code code_verifier cfg tok tok' a s = record {
    token = a.token;
    moment = a.moment;
    answered = a.answered;
    claims = a.claims;
    held = a.held;
    valid = a.valid;
    from = FromClaims-same _ _ tok tok' a.from s;
  }

  accepted-ok :
      (code : ℕ) (body : String) {u : Unit {0}}
      → token_accepted provider code body ≡ ok u
      → code ≡ 200
  accepted-ok code body h = elim (Bool-cases (nat_eq code 200)) [
    | inl e ↦ ground arith
    | inr e ↦ absurd (err≢ok (rw e at h))
  ]

  module _ (code code_verifier : String) (cfg : OidcConfig) where
    abbrev Proven : IdToken → Type 0
    Proven = Authentic code code_verifier cfg

    ask-Authentic :
        (access_token : String) (read : IdToken × List Profile)
        → Triple
            (λ _. Proven read.0)
            (ask_user_info provider cfg access_token read)
            (λ tok _. Proven tok)
    ask-Authentic access_token read =
        bind {Mid = λ _ _. Proven read.0} (calls (λ w p a w' e. p)) (λ user_info.
          lifts (λ w p tok e.
            Authentic-same code code_verifier cfg read.0 tok p
              (fill_profile-same user_info read.1 read.0 tok e)))

    complete-Authentic :
        (access_token : String) (read : IdToken × List Profile)
        → Triple
            (λ _. Proven read.0)
            (complete provider cfg access_token read)
            (λ tok _. Proven tok)
    complete-Authentic access_token read =
        elim (Bool-cases (nat_eq (length read.1) 0 || cfg.user_info_url == "")) [
          | inl e ↦ rw e (returns (λ w p. p))
          | inr e ↦ rw e (elim (Bool-cases (access_token == "")) [
            | inl f ↦ rw f (calls (λ w p a w' x. absurd (err≢ok (ap (λ y. y.0) x))))
            | inr f ↦ rw f (ask-Authentic access_token read)
          ])
        ]

    abbrev Sent : HttpResponse → W → Type 0
    Sent resp u = (w : W) × (send (token_request provider code code_verifier cfg) w ≡ (ok resp, u))

    abbrev Read : HttpResponse → String → W → Type 0
    Read resp body u = Sent resp u × (resp.body ≡ ok body)

    abbrev Decoded : TokenResponse → Dict Json → W → Type 0
    Decoded token claims u =
        Answered code code_verifier cfg token u
        × Holds decode_base64url unmarshal_object token.id_token claims

    validate_now-Valid :
        (token : TokenResponse) (claims : Dict Json)
        → Triple
            (Decoded token claims)
            (validate_now provider cfg claims)
            (λ _ u. Decoded token claims u × Valid claims cfg.issuer cfg.client_id (now u))
    validate_now-Valid token claims = calls (λ w p a w' e.
        rw (← ap (λ x. x.1) e)
          (p, (validate_id_token_iff claims cfg.issuer cfg.client_id (now w)).0 (ap (λ x. x.0) e)))

    answered_with :
        (resp : HttpResponse) (body : String) (token : TokenResponse) (w : W)
        → Read resp body w × (resp.status_code ≡ 200)
        → unmarshal_token body ≡ ok token
        → Answered code code_verifier cfg token w
    unfolding token_request
    answered_with resp body token w p e = record {
      form = form_of provider code code_verifier cfg;
      asked = form_of-Form provider code code_verifier cfg;
      request = token_request provider code code_verifier cfg;
      method = refl;
      url = refl;
      carried = refl;
      resp = resp;
      before = p.0.0.0;
      sent = p.0.0.1;
      accepted = p.1;
      body = body;
      read = p.0.1;
      understood = e;
    }

    do_login-Triple : Triple Always (do_login provider code code_verifier cfg) (λ tok _. Proven tok)
    unfolding do_login
    do_login-Triple = next done (λ _.
        bind {Mid = Sent} (or_fails _ (calls (λ w p resp u e. (w, e)))) (λ resp.
          bind {Mid = Read resp} (or_fails _ (lifts (λ w p body e. (p, e)))) (λ body.
            next {Mid = λ _ u. Read resp body u × (resp.status_code ≡ 200)}
              (lifts (λ w p a e. (p, accepted-ok resp.status_code body e)))
              (λ _.
                bind {Mid = Answered code code_verifier cfg}
                  (or_fails _ (lifts (λ w p token e. answered_with resp body token w p e)))
                  (λ token.
                    bind {Mid = Decoded token}
                      (or_fails _ (lifts (λ w p claims e. (p, decode_jwt-Holds _ _ _ _ e))))
                      (λ claims. next (validate_now-Valid token claims) (λ _.
                        bind {Mid = λ read _. Proven read.0}
                          (lifts (λ w p read e. record {
                            token = token;
                            moment = w;
                            answered = p.0.0;
                            claims = claims;
                            held = p.0.1;
                            valid = p.1;
                            from = read_claims-FromClaims claims token.access_token read e;
                          }))
                          (λ read. complete-Authentic token.access_token read))))))))

  -- A code is exchanged for an identity only where the token endpoint answered 200 to a request for
  -- that code (with its verifier, where there is one, and as the configured client), the claims of
  -- the ID token in its answer are valid for the configured issuer and client at the instant of the
  -- answer, and the identity's acr, authentication time and access token are those of that answer,
  -- whatever the UserInfo endpoint answers.
  pub do_login-Authentic :
      (code code_verifier : String) (cfg : OidcConfig) (tok : IdToken) (w w' : W)
      → do_login provider code code_verifier cfg w ≡ (ok tok, w')
      → Authentic code code_verifier cfg tok
  do_login-Authentic code code_verifier cfg tok w w' h =
      (do_login-Triple code code_verifier cfg).run w tt tok w' h
