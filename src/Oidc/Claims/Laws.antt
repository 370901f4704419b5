-- ===== src/Oidc/Claims/Laws.antt =====
-- What a RESTAction can and cannot change in an ID token (support.go).
use authn.Prelude.{String, ◌≡◌, refl, ◌∙◌, List, [], ◌∷◌}
use authn.Go.Dict.{Dict}
use authn.Go.Error.{Error}
use authn.Go.Json.{Json, null}
use authn.Go.Act.{Result, ok, err, ok-injective, err≢ok}
use authn.Go.Check.{bind-ok, next-ok, ok-bind}
use authn.Oidc.Token.{IdToken}
use authn.Oidc.Claims.{
  Field, name_field, email_field, username_field, groups_field, avatar_field, other_field, field,
  set_text, set_texts, update_at, update_field, update_config, as_check, check_at, check_key,
  check_keys,
}

-- What a step-up rests on, and the token that the provider is called with, are the same.
pub record SameProof (tok tok' : IdToken) : Type 0 where
  pub acr : tok'.acr ≡ tok.acr
  pub auth_time : tok'.auth_time ≡ tok.auth_time
  pub bearer_token : tok'.bearer_token ≡ tok.bearer_token

pub same : (tok : IdToken) → SameProof tok tok
same tok = record { acr = refl; auth_time = refl; bearer_token = refl }

pub same_trans : {a b c : IdToken} → SameProof a b → SameProof b c → SameProof a c
same_trans p q = record {
  acr = q.acr ∙ p.acr;
  auth_time = q.auth_time ∙ p.auth_time;
  bearer_token = q.bearer_token ∙ p.bearer_token;
}

module _ (tok tok' : IdToken) where
  set_text-same :
      (put : String → IdToken) (r : Result String)
      → ((v : String) → SameProof tok (put v))
      → set_text put r ≡ ok tok'
      → SameProof tok tok'
  set_text-same put (ok v) h e = rw (← ok-injective e) (h v)
  set_text-same put (err x) h e = absurd (err≢ok e)

  set_texts-same :
      (put : List String → IdToken) (r : Result (List String))
      → ((v : List String) → SameProof tok (put v))
      → set_texts put r ≡ ok tok'
      → SameProof tok tok'
  set_texts-same put (ok v) h e = rw (← ok-injective e) (h v)
  set_texts-same put (err x) h e = absurd (err≢ok e)

  update_at-same :
      (f : Field) (key : String) (v : Json) → update_at f key v tok ≡ ok tok' → SameProof tok tok'
  update_at-same name_field key v h =
      set_text-same _ _ (λ s. record { acr = refl; auth_time = refl; bearer_token = refl }) h
  update_at-same email_field key v h =
      set_text-same _ _ (λ s. record { acr = refl; auth_time = refl; bearer_token = refl }) h
  update_at-same username_field key v h =
      set_text-same _ _ (λ s. record { acr = refl; auth_time = refl; bearer_token = refl }) h
  update_at-same groups_field key v h =
      set_texts-same _ _ (λ s. record { acr = refl; auth_time = refl; bearer_token = refl }) h
  update_at-same avatar_field key v h =
      set_text-same _ _ (λ s. record { acr = refl; auth_time = refl; bearer_token = refl }) h
  update_at-same other_field key v h = rw (← ok-injective h) (same tok)

  update_field-same :
      (key : String) (v : Json) → update_field key v tok ≡ ok tok' → SameProof tok tok'
  unfolding update_field
  update_field-same key null h = rw (← ok-injective h) (same tok)
  update_field-same key v h = update_at-same (field key) key v h

-- No answer of a RESTAction changes the assurance level, the authentication time or the access token
-- of an ID token.
pub update_config-SameProof :
    (entries : Dict Json) (tok tok' : IdToken)
    → update_config entries tok ≡ ok tok'
    → SameProof tok tok'
unfolding update_config
update_config-SameProof [] tok tok' h = rw (← ok-injective h) (same tok)
update_config-SameProof ((key, v) ∷ entries) tok tok' h =
    let (mid, first, rest) = bind-ok _ _ h in
    same_trans (update_field-same tok mid key v first)
      (update_config-SameProof entries mid tok' rest)

-- A step of the loop that succeeds.
abbrev Updates : Result IdToken → Type 0
Updates r = (tok : IdToken) × (r ≡ ok tok)

set_text-ok :
    (put : String → IdToken) (e : Error) (r : Result String) {u : Unit {0}}
    → as_check e r ≡ ok u
    → Updates (set_text put r)
set_text-ok put e (ok v) h = (put v, refl)
set_text-ok put e (err x) h = absurd (err≢ok h)

set_texts-ok :
    (put : List String → IdToken) (e : Error) (r : Result (List String)) {u : Unit {0}}
    → as_check e r ≡ ok u
    → Updates (set_texts put r)
set_texts-ok put e (ok v) h = (put v, refl)
set_texts-ok put e (err x) h = absurd (err≢ok h)

checked_at :
    (f : Field) (key : String) (v : Json) (tok : IdToken) {u : Unit {0}}
    → check_at f key v ≡ ok u
    → Updates (update_at f key v tok)
checked_at name_field key v tok h = set_text-ok _ _ _ h
checked_at email_field key v tok h = set_text-ok _ _ _ h
checked_at username_field key v tok h = set_text-ok _ _ _ h
checked_at groups_field key v tok h = set_texts-ok _ _ _ h
checked_at avatar_field key v tok h = set_text-ok _ _ _ h
checked_at other_field key v tok h = absurd (err≢ok h)

checked_key :
    (key : String) (v : Json) (tok : IdToken) {u : Unit {0}}
    → check_key key v ≡ ok u
    → Updates (update_field key v tok)
unfolding check_key update_field
checked_key key null tok h = (tok, refl)
checked_key key v tok h = checked_at (field key) key v tok h

-- An answer that checkKeys accepts, in whatever order it visits the entries, can be applied to every
-- ID token.
pub check_keys-update_config :
    (entries : Dict Json) (tok : IdToken)
    → check_keys entries ≡ ok tt
    → (tok' : IdToken) × (update_config entries tok ≡ ok tok')
unfolding check_keys update_config
check_keys-update_config [] tok h = (tok, refl)
check_keys-update_config ((key, v) ∷ entries) tok h =
    let ((u, first), rest) = next-ok _ _ h in
    let (mid, e) = checked_key key v tok first in
    let (tok', e') = check_keys-update_config entries mid rest in (tok', ok-bind _ _ mid e e')
