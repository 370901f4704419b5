-- ===== src/Oidc/Profile/Laws.antt =====
-- Where an ID token's assurance and age come from (support.go).
use authn.Prelude.{String, ◌≡◌, refl, sym, ap, ◌∙◌, Option, none, some, List, [], ◌∷◌}
use authn.Go.Dict.{Dict, lookup}
use authn.Go.Json.{Json, present}
use authn.Go.Act.{ok, ok-injective}
use authn.Go.Check.{bind-ok, or_err-ok}
use authn.Oidc.Token.{IdToken, string_claim}
use authn.Oidc.Claims.Laws.{SameProof, same, same_trans}
use authn.Oidc.Profile.{
  Profile, username_claim, name_claim, picture_claim, email_claim, profile, set_claim, set_or_skip,
  set_or_keep, read_profile, read_claims, fill_profile, text_or_empty, auth_time_of,
}

-- The acr and the authentication time of a token are those of the claims.
pub record FromClaims (claims : Dict Json) (access_token : String) (tok : IdToken) : Type 0 where
  pub said : Option String
  pub acr_read : string_claim claims "acr" ≡ ok said
  pub acr : tok.acr ≡ text_or_empty said
  pub auth_time : auth_time_of (present (lookup "auth_time" claims)) ≡ ok tok.auth_time
  pub bearer_token : tok.bearer_token ≡ access_token

set_claim-same : (c : Profile) (v : String) (tok : IdToken) → SameProof tok (set_claim c v tok)
set_claim-same username_claim v tok = record { acr = refl; auth_time = refl; bearer_token = refl }
set_claim-same name_claim v tok = record { acr = refl; auth_time = refl; bearer_token = refl }
set_claim-same picture_claim v tok = record { acr = refl; auth_time = refl; bearer_token = refl }
set_claim-same email_claim v tok = record { acr = refl; auth_time = refl; bearer_token = refl }

set_or_skip-same :
    (c : Profile) (v : Option String) (read : IdToken × List Profile)
    → SameProof read.0 (set_or_skip c v read).0
set_or_skip-same c none read = same read.0
set_or_skip-same c (some v) read = set_claim-same c v read.0

set_or_keep-same :
    (c : Profile) (v : Option String) (tok : IdToken) → SameProof tok (set_or_keep c v tok)
set_or_keep-same c none tok = same tok
set_or_keep-same c (some v) tok = set_claim-same c v tok

read_profile-same :
    (claims : Dict Json) (cs : List Profile) (tok : IdToken) (read : IdToken × List Profile)
    → read_profile claims cs tok ≡ ok read
    → SameProof tok read.0
unfolding read_profile
read_profile-same claims [] tok read h = rw (← ok-injective h) (same tok)
read_profile-same claims (c ∷ cs) tok read h =
    let (v, _, h) = bind-ok _ _ h in
    let (rest, first, h) = bind-ok _ _ h in
    rw (← ok-injective h)
      (same_trans (read_profile-same claims cs tok rest first) (set_or_skip-same c v rest))

pub fill_profile-same :
    (user_info : Dict Json) (cs : List Profile) (tok tok' : IdToken)
    → fill_profile user_info cs tok ≡ ok tok'
    → SameProof tok tok'
unfolding fill_profile
fill_profile-same user_info [] tok tok' h = rw (← ok-injective h) (same tok)
fill_profile-same user_info (c ∷ cs) tok tok' h =
    let (v, _, h) = bind-ok _ _ h in
    same_trans (set_or_keep-same c v tok) (fill_profile-same user_info cs _ tok' h)

pub FromClaims-same :
    (claims : Dict Json) (access_token : String) (tok tok' : IdToken)
    → FromClaims claims access_token tok
    → SameProof tok tok'
    → FromClaims claims access_token tok'
FromClaims-same claims access_token tok tok' f s = record {
  said = f.said;
  acr_read = f.acr_read;
  acr = s.acr ∙ f.acr;
  auth_time = f.auth_time ∙ ap (λ t. ok t) (sym s.auth_time);
  bearer_token = s.bearer_token ∙ f.bearer_token;
}

pub read_claims-FromClaims :
    (claims : Dict Json) (access_token : String) (read : IdToken × List Profile)
    → read_claims claims access_token ≡ ok read
    → FromClaims claims access_token read.0
unfolding read_claims
read_claims-FromClaims claims access_token read h =
    let (acr, acr_read, h) = bind-ok _ _ h in
    let (auth_time, dated, h) = bind-ok _ _ h in
    let (r, read_r, h) = bind-ok _ _ h in
    let (groups, _, h) = bind-ok _ _ h in
    let s = read_profile-same claims profile _ r read_r in
    rw (← ok-injective h) (record {
      said = acr;
      acr_read = or_err-ok _ _ acr_read;
      acr = s.acr;
      auth_time = dated ∙ ap (λ t. ok t) (sym s.auth_time);
      bearer_token = s.bearer_token;
    })
