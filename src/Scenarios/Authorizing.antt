-- ===== src/Scenarios/Authorizing.antt =====
-- A login with an OAuth2 provider, at concrete inputs.
use authn.Prelude.{ℕ, suc, ◌≡◌, refl, true, some, [], ◌∷◌}
use authn.Prelude.Int.{pos}
use authn.Go.Time.{is_zero}
use authn.Go.Text.{has_prefix, equal_fold, drop_folded}
use authn.Go.Dict.{lookup, insert}
use authn.Go.Json.{string, array, item, end, string_or_empty}
use authn.Go.Act.{ok, err, after, rewrap}
use authn.Go.Check.{require}
use authn.Go.Check
use authn.Cluster.{Secret, get_operator_namespace}
use authn.UserInfo.{new_default_user, set_groups, without_reserved, is_reserved}
use authn.UserInfo.Exts
use authn.Kubeconfig.{KubeConfig}
use authn.Encode.{Response, answered, success, success_body, access_token, handle}
use authn.Oidc.Claims.{field, text_value, texts_value}
use authn.OAuth.Profile.{update_config, replace_field, replace_at}
use authn.OAuth.{
  Services, OauthSpec, Request, token, get_oauth_config, get_config, exchange, fields_to_replace,
  user_of, validate, authenticate, login, handler,
}
use authn.OAuth.Laws.{SessionGiven, handler-SessionGiven}
use authn.Scenarios.{document, os, secrets, refuse}

abbrev spec : OauthSpec
spec = record {
  client_id = "authn";
  client_secret_ref = record { name = "client"; namespace = "krateo"; key = "secret" };
  redirect_url = "https://portal";
  scopes = "user" ∷ [];
  auth_url = "https://github/auth";
  token_url = "https://github/token";
  rest_action_ref = some (record { name = "github"; namespace = "krateo" });
}

abbrev client_secret : Secret
client_secret = record {
  name = "client";
  namespace = "krateo";
  uid = "u";
  resource_version = "1";
  annotations = [];
  contents = ("secret", "s3cret") ∷ [];
  string_data = [];
}

abbrev services : Services ℕ
services = record {
  os = os;
  new_client = λ w. (ok tt, w);
  get_config = λ ns name w. (ok spec, w);
  secrets = record secrets { get = λ ns name w. (ok client_secret, w) };
  is_path_segment = λ name. true;
  exchange =
      λ cfg code verifier w. (token (record { token_type = "Bearer"; access_token = "gho" }), w);
  resolve = λ ref access_token w. (
    ok (
        ("name", string "Ada")
        ∷ ("preferredUsername", string "ada")
        ∷ ("groups", array (item (string "dev") (item (string "krateo:loa:2") end)))
        ∷ []),
    w,
  );
  legacy_resolve = λ ref id access_token w. (err refuse, w);
  new_uuid = λ w. ("uuid", w);
  new_id = λ w. ("id", suc w);
  make_dns1123_compatible = λ s. s;
  tokens = record { now = λ w. pos 100; create_token = λ options w. (ok "token", w) };
  generate = λ strategy nfo w. (ok (document, pos 0), w);
}

abbrev request : Request
request = record { name = "github"; auth_code = "code"; code_verifier = "" }

abbrev session : Response KubeConfig
session = record {
  access_token = "token";
  user = some (record { display_name = "Ada"; username = "ada"; avatar_url = "" });
  groups = "dev" ∷ [];
  strategy = some (record { kind = "oauth"; name = "github" });
  payload = document;
}

given : handler services (pos 9000) true "kid" request 0 ≡ (answered session, 1)
unfolding handler login authenticate get_config get_oauth_config get_operator_namespace exchange
    user_of fields_to_replace equal_fold drop_folded update_config replace_field replace_at field
    text_value texts_value string_or_empty validate lookup insert Exts.add Exts.get new_default_user
    set_groups without_reserved is_reserved has_prefix handle success success_body access_token
    after rewrap require Check.◌>>=◌ is_zero
given = refl

handler-SessionGiven_example : SessionGiven services (pos 9000) true "kid" request session
handler-SessionGiven_example =
    handler-SessionGiven services (pos 9000) true "kid" request session 0 1 given
