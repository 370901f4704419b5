-- ===== src/Scenarios/Passwords.antt =====
-- A login with a password, at concrete inputs.
use authn.Prelude.{ℕ, suc, String, ◌≡◌, refl, true, none, some, [], ◌∷◌, ◌==◌, if◌then◌else◌}
use authn.Prelude.Int.{pos}
use authn.Go.Text.{has_prefix}
use authn.Go.Error.{api, not_found, is_not_found, reason_of}
use authn.Go.Dict.{lookup, insert}
use authn.Go.Act.{ok, err, after, rewrap, Act}
use authn.Cluster.{Secret, get_operator_namespace}
use authn.UserInfo.{Info, new_default_user, set_groups, without_reserved, is_reserved}
use authn.UserInfo.Exts
use authn.Basic.{Login, BasicUser, user_get, validate}
use authn.Basic.Laws.{Verified, Unknown, Wrong, told, validate-Verified, validate-alike}
use authn.Scenarios.{os, secrets, refuse}

abbrev usr : BasicUser
usr = record {
  name = "ada";
  display_name = "Ada";
  avatar_url = "";
  groups = "dev" ∷ [];
  password_ref = some (record { name = "ada-password"; namespace = "krateo"; key = "password" });
}

abbrev password_secret : Secret
password_secret = record {
  name = "ada-password";
  namespace = "krateo";
  uid = "u";
  resource_version = "1";
  annotations = [];
  contents = ("password", "lovelace") ∷ [];
  string_data = [];
}

abbrev get_user : String → String → Act ℕ BasicUser
get_user ns name w = (if name == "ada" then ok usr else err (api not_found), w)

abbrev basic : Login ℕ
basic = record {
  os = os;
  secrets = record secrets { get = λ ns name w. (ok password_secret, w) };
  new_client = λ w. (ok tt, w);
  get_user = get_user;
  is_path_segment = λ name. true;
  compare_password = λ got want. got == want;
  new_id = λ w. ("id", suc w);
  decoy_secret = none;
  tokens = record { now = λ w. pos 100; create_token = λ options w. (ok "token", w) };
  generate = λ strategy nfo w. (err refuse, w);
}

abbrev ada : Info
ada = record {
  name = "ada";
  id = "id";
  groups = "dev" ∷ [];
  extensions = ("name", "Ada" ∷ []) ∷ ("avatarUrl", "" ∷ []) ∷ [];
  dropped = [];
}

let_in : validate basic "ada" "lovelace" 0 ≡ (ok ada, 1)
unfolding validate user_get get_operator_namespace after rewrap lookup insert Exts.add
    new_default_user set_groups without_reserved is_reserved has_prefix
let_in = refl

validate-Verified_example : Verified basic "ada" "lovelace" ada
validate-Verified_example = validate-Verified basic "ada" "lovelace" ada 0 1 let_in

no_bob : Unknown basic "bob" 0
unfolding user_get get_operator_namespace after rewrap is_not_found reason_of
no_bob = record { named = refl; e = api not_found; u = 0; absent = refl; missing = refl }

not_ada : Wrong basic "ada" "byron" 0
unfolding user_get get_operator_namespace after rewrap lookup
not_ada = record {
  named = refl;
  usr = usr;
  ref = record { name = "ada-password"; namespace = "krateo"; key = "password" };
  sec = password_secret;
  pwd = "lovelace";
  u = 0;
  v = 0;
  found = refl;
  referred = refl;
  secret_read = refl;
  held = refl;
  differs = refl;
}

validate-alike_example :
    told basic (validate basic "bob" "secret" 0) ≡ told basic (validate basic "ada" "byron" 0)
validate-alike_example = validate-alike basic "bob" "ada" "secret" "byron" 0 0 no_bob not_ada
