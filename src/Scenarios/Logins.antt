-- ===== src/Scenarios/Logins.antt =====
-- A login and a step-up with a provider, at concrete inputs.
use authn.Prelude.{ℕ, suc, ◌+◌, ◌*◌, String, ◌≡◌, refl, true, Option, none, some, List, [], ◌∷◌}
use authn.Prelude.Int.{pos, ◌+ℤ◌}
use authn.Go.Text.{split, contains_char}
use authn.Go.Dict.{Dict, lookup}
use authn.Go.Json.{Json, string, number, array, item, end, present, all_strings, string_or_empty}
use authn.Go.Time.{Time, second, unix, wrap_int64, add}
use authn.Go.Act.{ok, err, after, rewrap}
use authn.Go.Check.{◌>>=◌, ◌>>◌, require, or_err}
use authn.UserInfo.{Info}
use authn.UserInfo.Exts
use authn.Kubeconfig.{KubeConfig}
use authn.Encode.{Tokens, Response, access_token}
use authn.Oidc.Token.{IdToken, string_claim, string_list_claim}
use authn.Oidc.Validation.{validate_id_token, audiences, contains, numeric}
use authn.Oidc.StepUp
use authn.Oidc.StepUp.{OidcStepUp}
use authn.Oidc.Profile.{read_claims, read_profile, decode_jwt, auth_time_of}
use authn.Oidc.Exchange.{Provider, OidcConfig, do_login}
use authn.Oidc.Exchange.Laws.{Authentic, do_login-Authentic}
use authn.Oidc.Discovery.{Discovery, OidcSpec, resolve_oidc_config, auth_code_url}
use authn.Oidc.Discovery.Laws.{SamePolicy, resolve_oidc_config-SamePolicy}
use authn.Oidc.Login
use authn.Oidc.Login.{Services, Request, config_of, step_up}
use authn.Scenarios.{document, os, secrets, refuse}

-- An hour of 1970, in nanoseconds from the zero time.
abbrev pub noon : Time
noon = pos ((62_135_596_800 + 3600) * second)

abbrev pub claims : Dict Json
claims =
    ("iss", string "https://idp")
    ∷ ("aud", string "authn")
    ∷ ("exp", number (pos 7200))
    ∷ ("acr", string "silver")
    ∷ ("auth_time", number (pos 3500))
    ∷ ("preferred_username", string "ada")
    ∷ ("name", string "Ada")
    ∷ ("picture", string "")
    ∷ ("email", string "ada@example.org")
    ∷ ("groups", array (item (string "dev") (item (string "krateo:loa:2") end)))
    ∷ []

abbrev pub provider : {W : Type 0} → Provider W
provider = record {
  now = λ w. noon;
  new_request = λ method url. ok tt;
  send = λ req w. (ok (record { status_code = 200; body = ok "{}" }), w);
  encode_form = λ form. "";
  unmarshal_error = λ body. "";
  unmarshal_token = λ body. ok (record { access_token = "bearer"; id_token = "h.p.s" });
  unmarshal_object = λ body. ok claims;
  decode_base64url = λ text. ok text;
}

abbrev pub spec : OidcSpec
spec = record {
  discovery_url = "";
  issuer = "https://idp";
  authorization_url = "https://idp/auth";
  token_url = "https://idp/token";
  redirect_uri = "";
  user_info_url = "";
  client_id = "authn";
  client_secret = none;
  additional_scopes = "";
  rest_action_ref = none;
  step_up = some (record { acr_values = "silver" ∷ []; max_age = none; ttl = none });
  allowed_groups = "dev" ∷ [];
}

abbrev pub discovery_in : {W : Type 0} → (W → W) → Discovery W
discovery_in next = record {
  provider = provider;
  os = os;
  new_client = λ w. (ok tt, w);
  get_spec = λ ns name w. (ok spec, w);
  unmarshal_discovery = λ body. err refuse;
  new_state = λ w. ("state", next w);
  fields = λ s. s ∷ [];
}

abbrev discovery : Discovery ℕ
discovery = discovery_in suc

abbrev pub tokens : {W : Type 0} → Tokens W
tokens = record { now = λ w. noon; create_token = λ options w. (ok "token", w) }

abbrev services : Services ℕ
services = record {
  discovery = discovery;
  secrets = secrets;
  tokens = tokens;
  is_path_segment = λ name. true;
  resolve = λ ref token w. (err refuse, w);
  legacy_resolve = λ ref email token w. (err refuse, w);
  new_id = λ w. ("id", suc w);
  make_dns1123_compatible = λ s. s;
  generate = λ strategy nfo w. (ok (document, noon), w);
  generate_step_up = λ strategy nfo ttl w. (ok noon, w);
}

abbrev cfg : OidcConfig
cfg = config_of services (record spec { authorization_url = "https://idp/auth?" }) ""

abbrev tok : IdToken
tok = record {
  acr = "silver";
  auth_time = pos ((62_135_596_800 + 3500) * second);
  bearer_token = "bearer";
  name = "Ada";
  email = "ada@example.org";
  preferred_username = "ada";
  groups = "dev" ∷ "krateo:loa:2" ∷ [];
  avatar_url = "";
}

logged_in : do_login (provider {W = ℕ}) "code" "" cfg 0 ≡ (ok tok, 0)
unfolding do_login after rewrap decode_jwt split validate_id_token audiences contains numeric
    string_or_empty lookup read_claims read_profile string_claim string_list_claim auth_time_of
    present all_strings unix wrap_int64 ◌+ℤ◌ ◌>>=◌ ◌>>◌ require or_err add
logged_in = refl

do_login-Authentic_example : Authentic (provider {W = ℕ}) "code" "" cfg tok
do_login-Authentic_example = do_login-Authentic (provider {W = ℕ}) "code" "" cfg tok 0 0 logged_in

resolved :
    resolve_oidc_config discovery spec 0
    ≡ (ok (record spec { authorization_url = "https://idp/auth?" }), 1)
unfolding resolve_oidc_config auth_code_url contains_char
resolved = refl

resolve_oidc_config-SamePolicy_example :
    SamePolicy spec (record spec { authorization_url = "https://idp/auth?" })
resolve_oidc_config-SamePolicy_example =
    resolve_oidc_config-SamePolicy discovery spec
      (record spec { authorization_url = "https://idp/auth?" }) 0 1 resolved

abbrev ada : Info
ada = record { name = "ada"; id = "id"; groups = "dev" ∷ []; extensions = []; dropped = [] }

abbrev allowed : List String
allowed = "ops" ∷ "dev" ∷ []

abbrev pub request : Request
request = record { name = "idp"; auth_code = "code"; code_verifier = "" }

abbrev pub session : Response (Option KubeConfig)
session = record {
  access_token = "token";
  user = some (record { display_name = "Ada"; username = "ada"; avatar_url = "" });
  groups = "dev" ∷ [];
  strategy = some (record { kind = "oidc"; name = "idp" });
  payload = some document;
}

abbrev pub stepped_up : Response (Option KubeConfig)
stepped_up = record session {
  groups = "dev" ∷ "krateo:loa:2" ∷ [];
  strategy = none;
  payload = none;
}
