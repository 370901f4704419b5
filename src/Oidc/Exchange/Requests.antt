-- ===== src/Oidc/Exchange/Requests.antt =====
-- What a login asks of a provider for a code, and what a token holds (support.go).
use authn.Prelude.{String, ◌≡◌, ◌≢◌, ap, some, List, [], ◌∷◌, ◌==◌, eq_iff, Bool-cases, inl, inr}
use authn.Go.Text.{split}
use authn.Go.Dict.{Dict, lookup, lookup-insert}
use authn.Go.Json.{Json}
use authn.Go.Act.{Result, ok, ok-injective, err≢ok}
use authn.Go.Check.{bind-ok, or_err-ok}
use authn.Oidc.Profile.{decode_jwt, payload_part}
use authn.Oidc.Exchange.{Provider, OidcConfig, form_of}

-- The form that asks for the tokens of a code.
pub record Form (code code_verifier : String) (cfg : OidcConfig) (form : Dict String) : Type 0 where
  pub grant : lookup "grant_type" form ≡ some "authorization_code"
  pub code_sent : lookup "code" form ≡ some code
  pub client_id : lookup "client_id" form ≡ some cfg.client_id
  pub client_secret : lookup "client_secret" form ≡ some cfg.client_secret
  pub redirect_uri : lookup "redirect_uri" form ≡ some cfg.redirect_uri
  pub verifier : code_verifier ≢ "" → lookup "code_verifier" form ≡ some code_verifier

-- A JWT whose payload is these claims.
pub record Holds (decode_base64url : String → Result String)
    (unmarshal_object : String → Result (Dict Json)) (token : String) (claims : Dict Json)
    : Type 0 where
  pub header : String
  pub payload : String
  pub signature : String
  pub text : String
  pub parts : split 46 token ≡ header ∷ payload ∷ signature ∷ []
  pub decoded : decode_base64url payload ≡ ok text
  pub parsed : unmarshal_object text ≡ ok claims

payload_part-ok :
    (parts : List String) {payload : String}
    → payload_part parts ≡ ok payload
    → (header : String) × (signature : String) × (parts ≡ header ∷ payload ∷ signature ∷ [])
payload_part-ok [] h = absurd (err≢ok h)
payload_part-ok (a ∷ []) h = absurd (err≢ok h)
payload_part-ok (a ∷ b ∷ []) h = absurd (err≢ok h)
payload_part-ok (a ∷ b ∷ c ∷ []) h = (a, c, ap (λ p. a ∷ p ∷ c ∷ []) (ok-injective h))
payload_part-ok (a ∷ b ∷ c ∷ d ∷ parts) h = absurd (err≢ok h)

pub decode_jwt-Holds :
    (decode_base64url : String → Result String) (unmarshal_object : String → Result (Dict Json))
    (token : String) (claims : Dict Json)
    → decode_jwt decode_base64url unmarshal_object token ≡ ok claims
    → Holds decode_base64url unmarshal_object token claims
unfolding decode_jwt
decode_jwt-Holds decode_base64url unmarshal_object token claims h =
    let (part, parted, h₁) = bind-ok _ _ h in
    let (text, decoded, h₂) = bind-ok _ _ h₁ in
    let (header, signature, parts) = payload_part-ok (split 46 token) parted in
    record {
      header = header;
      payload = part;
      signature = signature;
      text = text;
      parts = parts;
      decoded = or_err-ok _ _ decoded;
      parsed = or_err-ok _ _ h₂;
    }

module _ {W : Type 0} (provider : Provider W) where
  pub form_of-Form :
      (code code_verifier : String) (cfg : OidcConfig)
      → Form code code_verifier cfg (form_of provider code code_verifier cfg)
  unfolding lookup
  form_of-Form code code_verifier cfg = elim (Bool-cases (code_verifier == "")) [
    | inl e ↦ rw e (record {
      grant = simp (lookup-insert);
      code_sent = simp (lookup-insert);
      client_id = simp (lookup-insert);
      client_secret = simp (lookup-insert);
      redirect_uri = simp (lookup-insert);
      verifier = λ ne. absurd (ne ((eq_iff code_verifier "").0 e));
    })
    | inr e ↦ rw e (record {
      grant = simp (lookup-insert);
      code_sent = simp (lookup-insert);
      client_id = simp (lookup-insert);
      client_secret = simp (lookup-insert);
      redirect_uri = simp (lookup-insert);
      verifier = λ ne. simp (lookup-insert);
    })
  ]
