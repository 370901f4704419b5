-- ===== src/Oidc/StepUp.antt =====
-- Deciding whether an ID token proves a step-up, and telling a portal how to ask for one (stepup.go).
pub mod Laws
use authn.Prelude.{
  ℕ, ◌/◌, ◌*◌, String, Bool, true, false, not, ◌||◌, Option, none, some, List, [], ◌∷◌, length,
  nat_eq, leb, ◌==◌, if◌then◌else◌, slices_contains,
}
use authn.Prelude.Int.{ℤ, pos, ltb_ℤ, pos_part}
use authn.Go.Text.{contains_space, join}
use authn.Go.Dict.{Dict}
use authn.Go.Error.{Error, errorf, str, strs, num}
use authn.Go.Time.{Time, Duration, minute, second, is_zero, since}
use authn.Go.Act.{Result, ok, err}
use authn.Go.Check.{◌>>=◌, ◌>>◌, require, return}
use authn.Status.{refused, failed}
use authn.UserInfo.{decimal}
use authn.Oidc.Token.{IdToken}

-- spec.stepUp of an OIDCConfig
pub record OidcStepUp : Type 0 where
  pub acr_values : List String
  pub max_age : Option Duration
  pub ttl : Option Duration

pub record StepUpConfig : Type 0 where
  pub acr_values : List String
  pub max_age : Duration
  pub ttl : Duration

abbrev pub step_up_level : ℕ
step_up_level = 2

abbrev pub default_step_up_max_age : Duration
default_step_up_max_age = pos (5 * minute)

abbrev pub default_step_up_ttl : Duration
default_step_up_ttl = pos (15 * minute)

abbrev pub min_step_up_ttl : Duration
min_step_up_ttl = pos (10 * minute)

abbrev or_default : Duration → Option Duration → Duration
or_default d none = d
or_default d (some e) = e

-- resolveStepUp
unfoldable pub resolve_step_up : Option OidcStepUp → Option StepUpConfig
resolve_step_up none = none
resolve_step_up (some spec) = some (record {
  acr_values = spec.acr_values;
  max_age = or_default default_step_up_max_age spec.max_age;
  ttl = or_default default_step_up_ttl spec.ttl;
})

-- The loop of validate over the acr values.
unfoldable pub validate_acr_values : List String → Result (Unit {0})
validate_acr_values [] = ok tt
validate_acr_values (v ∷ values) = do
  require (not (v == "" || contains_space v)) (
      failed "StepUpMisconfigured" (
        errorf
          "spec.stepUp.acrValues has %q: an acr value must be non-empty and contain no whitespace"
          (str v ∷ [])))
  validate_acr_values values

-- stepUpConfig.validate
unfoldable pub validate : StepUpConfig → Result (Unit {0})
validate cfg = do
  require
      (not (
        nat_eq (length cfg.acr_values) 0
        || not (ltb_ℤ (pos 0) cfg.max_age)
        || ltb_ℤ cfg.ttl min_step_up_ttl))
      (failed "StepUpMisconfigured" (
        errorf
          "spec.stepUp needs acrValues, a positive maxAge and a ttl of at least %s (got %d acrValues, maxAge %s, ttl %s)"
          (num (length cfg.acr_values) ∷ [])))
  validate_acr_values cfg.acr_values

-- checkStepUp
unfoldable pub check_step_up : Option StepUpConfig → IdToken → Time → Result (Unit {0})
check_step_up none tok now = err (
    refused "StepUpNotEnabled"
      (errorf "step-up is not enabled for this OIDCConfig (spec.stepUp)" []))
check_step_up (some cfg) tok now = do
  validate cfg
  require (slices_contains cfg.acr_values tok.acr) (
      refused "InsufficientAssurance"
        (errorf "ID token acr %q is not one of %q" (str tok.acr ∷ strs cfg.acr_values ∷ [])))
  require (not (is_zero tok.auth_time)) (
      refused "StaleAuthentication"
        (errorf "ID token has no auth_time, so the authentication's age is unknown" []))
  require (not (ltb_ℤ cfg.max_age (since now tok.auth_time))) (
      refused "StaleAuthentication"
        (errorf "authenticated %s ago, more than the %s step-up allows" []))

-- net/url
pub record Urls (U : Type 0) : Type 0 where
  pub parse : String → Result U
  pub scheme : U → String
  pub host : U → String
  -- q := u.Query(); q.Set(key, value); u.RawQuery = q.Encode()
  pub set_query : String → String → U → U
  pub to_string : U → String

module _ {U : Type 0} (urls : Urls U) where
  abbrev not_absolute : String → Error
  not_absolute auth_code_url =
      errorf "authCodeURL %q is not an absolute URL: %v" (str auth_code_url ∷ [])

  abbrev pub absolute : String → Result U → Result U
  absolute auth_code_url (err e) = err (not_absolute auth_code_url)
  absolute auth_code_url (ok u) =
      if urls.scheme u == "" || urls.host u == "" then err (not_absolute auth_code_url) else ok u

  abbrev pub asked : StepUpConfig → U → Dict String
  asked cfg u =
      let acr_values = join " " cfg.acr_values in
      let max_age = decimal (pos_part cfg.max_age / second) in
      (
        "stepUpAuthCodeURL",
        urls.to_string
            (urls.set_query "max_age" max_age (urls.set_query "acr_values" acr_values u)),
      )
      ∷ ("stepUpPath", "/oidc/stepup")
      ∷ ("stepUpAcrValues", acr_values)
      ∷ ("stepUpMaxAge", max_age)
      ∷ []

  abbrev pub extensions_of : Option StepUpConfig → String → Result (Option (Dict String))
  extensions_of none auth_code_url = ok none
  extensions_of (some cfg) auth_code_url = do
    validate cfg
    u ← absolute auth_code_url (urls.parse auth_code_url)
    return (some (asked cfg u))

  -- StepUpExtensions; `none` is the nil map
  unfoldable pub step_up_extensions : Option OidcStepUp → String → Result (Option (Dict String))
  unfolding resolve_step_up
  step_up_extensions spec auth_code_url = extensions_of (resolve_step_up spec) auth_code_url
