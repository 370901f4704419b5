-- ===== src/Encode/Minting.antt =====
-- What an answer to a login holds (success.go).
use authn.Prelude.{String, Bool, ◌≡◌, refl, ap, true, Option, some}
use authn.Go.Time.{Time, Duration}
use authn.UserInfo.{Info}
use authn.UserInfo.Exts.{get}
use authn.Go.Act.{ok}
use authn.Go.Act.Triple.{Triple, Always, bind, returns, calls, or_fails}
use authn.Encode.{
  Extras, Strategy, Tokens, Response, Answer, answered, access_token, body_for, success_body,
  success, token_duration,
}

module _ {W D : Type 0} (tokens : Tokens W) (dat : D) (nfo : Info) (strategy : Option Strategy)
    (jwt_duration : Duration) (jwt_private_key : Bool) (jwt_key_id : String)
    (not_after : Time) where
  -- The token was created, at some instant, for the name and the groups of the identity, under the
  -- key's ID, with the duration asked for as far as the certificate leaves it.
  pub record Created (text : String) : Type 0 where
    pub before : W
    pub later : W
    pub created :
        tokens.create_token
          (record {
            username = nfo.name;
            groups = nfo.groups;
            duration = token_duration (tokens.now before) jwt_duration not_after;
            key_id = jwt_key_id;
          })
          before
        ≡ (ok text, later)

  -- The response of an identity: its token (where there is a key to sign it), its name and its
  -- groups.
  pub record Minted (r : Response D) : Type 0 where
    pub token : jwt_private_key ≡ true → Created r.access_token
    pub user :
        r.user
        ≡ some (record {
          display_name = get "name" nfo.extensions;
          username = nfo.name;
          avatar_url = get "avatarUrl" nfo.extensions;
        })
    pub groups : r.groups ≡ nfo.groups
    pub strategy_told : r.strategy ≡ strategy
    pub payload : r.payload ≡ dat

  abbrev given : Extras
  given = record {
    user_info = some nfo;
    strategy = strategy;
    jwt_duration = jwt_duration;
    jwt_private_key = jwt_private_key;
    jwt_key_id = jwt_key_id;
    cert_not_after = not_after;
  }

  access_token-Created :
      Triple Always
        (access_token tokens given nfo)
        (λ text _. jwt_private_key ≡ true → Created text)
  unfolding access_token
  access_token-Created =
      calls (λ w p text u e k. record { before = w; later = u; created = rw k at e })

  body_for-Minted : Triple Always (body_for tokens dat given (some nfo)) (λ r _. Minted r)
  body_for-Minted = bind access_token-Created (λ text. returns (λ w created. record {
    token = created;
    user = refl;
    groups = refl;
    strategy_told = refl;
    payload = refl;
  }))

  pub success-Minted :
      Triple Always
        (success tokens dat (some given))
        (λ a _. (r : Response D) → a ≡ answered r → Minted r)
  unfolding success success_body
  success-Minted =
      bind {Mid = λ r _. Minted r} (or_fails _ body_for-Minted)
        (λ body. returns (λ w minted r e. rw (← same e) minted))
    where
      response_of : Answer D → Response D → Response D
      response_of (answered r) s = r
      response_of _ s = s

      same : {r s : Response D} → answered r ≡ answered s → r ≡ s
      same {r} e = ap (λ a. response_of a r) e
