-- ===== src/Scenarios/Provider.antt =====
-- A provider's tokens, and step-ups, at concrete inputs.
use authn.Prelude.{◌*◌, String, ◌≡◌, refl, ◌↔◌, none, some, [], ◌∷◌, arith, inl}
use authn.Prelude.Int.{pos, ◌-ℤ◌}
use authn.Go.Act.{ok}
use authn.Go.Check.{◌>>=◌, ◌>>◌, require}
use authn.Go.Dict.{Dict}
use authn.Go.Json.{Json, string, number, null}
use authn.Go.Text.{contains_space, is_space}
use authn.Go.Time.{minute, since}
use authn.Oidc.Token.{IdToken}
use authn.Oidc.Validation.{validate_id_token}
use authn.Oidc.Validation.Laws.{Valid, validate_id_token_iff}
use authn.Oidc.StepUp.{
  StepUpConfig, OidcStepUp, Urls, check_step_up, validate, validate_acr_values, step_up_extensions,
  resolve_step_up, asked,
}
use authn.Oidc.StepUp.Laws.{WellFormed, Proven, check_step_up_iff}
use authn.Oidc.Claims.{update_config, update_field, check_keys, check_key}

abbrev claims : Dict Json
claims = ("iss", string "https://idp") ∷ ("aud", string "authn") ∷ ("exp", number (pos 100)) ∷ []

validate_id_token_iff_example :
    (validate_id_token claims "https://idp" "authn" (pos 7) ≡ ok tt)
    ↔ Valid claims "https://idp" "authn" (pos 7)
validate_id_token_iff_example = validate_id_token_iff claims "https://idp" "authn" (pos 7)

abbrev cfg : StepUpConfig
cfg = record { acr_values = "silver" ∷ []; max_age = pos (5 * minute); ttl = pos (15 * minute) }

abbrev tok : IdToken
tok = record {
  acr = "silver";
  auth_time = pos 1000;
  bearer_token = "bearer";
  name = "Ada";
  email = "ada@example.org";
  preferred_username = "ada";
  groups = "dev" ∷ [];
  avatar_url = "";
}

cfg-WellFormed : WellFormed cfg
unfolding contains_space is_space
cfg-WellFormed = record {
  some_value = λ e. cc;
  values_usable = ((λ e. cc, refl), tt);
  max_age_positive = omega arith;
  ttl_allowed = omega arith;
}

check_step_up_iff_example :
    (check_step_up (some cfg) tok (pos 2000) ≡ ok tt) ↔ Proven (some cfg) tok (pos 2000)
check_step_up_iff_example = check_step_up_iff tok (pos 2000) (some cfg)

granted : check_step_up (some cfg) tok (pos 2000) ≡ ok tt
unfolding since ◌-ℤ◌
granted = (check_step_up_iff tok (pos 2000) (some cfg)).1 (record {
  cfg = cfg;
  enabled = refl;
  well_formed = cfg-WellFormed;
  assured = inl refl;
  dated = λ e. ground arith;
  recent = omega arith;
})

abbrev urls : Urls String
urls = record {
  parse = λ s. ok s;
  scheme = λ u. "https";
  host = λ u. "idp";
  set_query = λ key value u. u;
  to_string = λ u. u;
}

abbrev spec : OidcStepUp
spec = record { acr_values = "silver" ∷ []; max_age = none; ttl = none }

told : step_up_extensions urls (some spec) "https://idp" ≡ ok (some (asked urls cfg "https://idp"))
unfolding step_up_extensions validate validate_acr_values ◌>>=◌ ◌>>◌ require contains_space
    resolve_step_up is_space
told = refl

abbrev replaced : Dict Json
replaced = ("name", string "Lady Ada") ∷ ("acr", null) ∷ []

applied : update_config replaced tok ≡ ok (record tok { name = "Lady Ada" })
unfolding update_config update_field ◌>>=◌
applied = refl

checked : check_keys replaced ≡ ok tt
unfolding check_keys check_key ◌>>◌
checked = refl
