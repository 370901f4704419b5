-- ===== src/Scenarios/Directory.antt =====
-- A login with a directory, at concrete inputs.
use authn.Prelude.{
  ℕ, suc, String, ◌≡◌, ◌≢◌, ◌↔◌, refl, true, false, Option, none, some, List, [], ◌∷◌, ◌==◌,
  if◌then◌else◌, In, Distinct,
}
use authn.Prelude.Int.{pos}
use authn.Go.Error.{errorf}
use authn.Go.Time.{is_zero}
use authn.Go.Text.{has_prefix}
use authn.Go.Dict.{lookup, insert}
use authn.Go.Act.{ok, err, after, rewrap}
use authn.Go.Check.{◌>>=◌, ◌>>◌, require, or_err}
use authn.Cluster.{get_operator_namespace}
use authn.Status.{from_error}
use authn.UserInfo.{new_default_user, set_groups, without_reserved, is_reserved}
use authn.UserInfo.Exts
use authn.Kubeconfig.{KubeConfig}
use authn.Encode.{Response, answered, success, success_body, access_token, handle}
use authn.Decode.{Body, value, failure, end_of_input, json_body}
use authn.Ldap.Server.{
  Directory, Entry, SearchRequest, Reply, LdapError, ResultCode, reply, refusal, replied,
  refuses_user, invalid_login,
}
use authn.Ldap.Config.{
  LdapConfig, LdapConfigSpec, Templates, get_config, ldap_config_get, group_search_of,
  parse_group_filter, render_group_filter, bind_secret_of, replace_all,
}
use authn.Ldap.Login.{
  Services, LoginInfo, login_info, names_from, group_names, values, only_entry, user_bind_failure,
  user_request, entry_to_user_info, login_over, do_login, authenticate, login, handler,
}
use authn.Ldap.Login.Groups.{first_names, group_names-first_names}
use authn.Ldap.Login.Granted.{DirectorySession, handler-DirectorySession}
use authn.Ldap.Server.Laws.{invalid_login-code}
use authn.Ldap.Login.Blame.{Blamed, do_login-Blamed, do_login-alike}
use authn.Scenarios.{document, os, secrets, refuse}

abbrev person : Entry
person = record { dn = "uid=ada"; attributes = ("uid", "ada" ∷ []) ∷ [] }

abbrev group : String → Entry
group name = record { dn = ""; attributes = ("cn", name ∷ []) ∷ [] }

abbrev groups : List Entry
groups = group "dev" ∷ group "krateo:loa:2" ∷ group "" ∷ group "dev" ∷ group "ops" ∷ []

abbrev first : Option (List String) → String
first (some (v ∷ vs)) = v
first _ = ""

-- The directory knows one person, and what the groups of a search are.
abbrev found : SearchRequest → List Entry
found req =
    if req.base_dn == "groups"
    then groups
    else if req.filter == "(|(cn=ada)(uid=ada)(userPrincipalName=ada)(mail=ada))"
    then person ∷ []
    else []

abbrev wrong_password : LdapError
wrong_password = record { code = ResultCode.invalid_credentials; error = refuse }

abbrev checked : String → String → Reply (Unit {0})
checked dn password =
    if dn == "cn=authn"
    then reply tt
    else if password == "pw"
    then reply tt
    else refusal wrong_password

abbrev directory : Directory ℕ ℕ
directory = record {
  dial = λ url w. (reply 7, w);
  start_tls = λ conn w. (reply tt, w);
  bind = λ conn dn password w. (checked dn password, w);
  search = λ conn req w. (reply (found req), w);
  close = λ conn w. w;
  escape_filter = λ s. s;
  attribute_value = λ entry name. first (lookup name entry.attributes);
  equal_fold_attribute_value = λ entry name. first (lookup name entry.attributes);
}

abbrev templates : Templates String
templates = record {
  parse = λ text. ok text;
  execute = λ tmpl vars. ok tmpl;
  compile_filter = λ text. ok tt;
}

abbrev spec : LdapConfigSpec
spec = record {
  dial_url = "ldap://directory";
  base_dn = "people";
  bind_dn = some "cn=authn";
  bind_secret = none;
  tls = some true;
  group_search = some (record { base_dn = "groups"; filter = ""; name_attribute = "" });
}

abbrev services : Services ℕ ℕ String
services = record {
  directory = directory;
  templates = templates;
  resolver = record {
    os = os;
    new_client = λ w. (ok tt, w);
    get_config = λ ns name w. (ok spec, w);
    secrets = secrets;
    is_path_segment = λ name. true;
  };
  new_id = λ w. ("id", suc w);
  tokens = record { now = λ w. pos 100; create_token = λ options w. (ok "token", w) };
  generate = λ strategy nfo w. (ok (document, pos 0), w);
}

abbrev body : Body LoginInfo
body = record {
  content_type = "";
  media_type = "";
  first = value (record { username = "ada"; password = "pw" });
  second = failure end_of_input;
}

abbrev session : Response KubeConfig
session = record {
  access_token = "token";
  user = some (record {
    display_name = "";
    username = "ada";
    avatar_url =
        "https://ui-avatars.com/api/?name=&size=128&bold=true&background=random&rounded=true";
  });
  groups = "dev" ∷ "ops" ∷ [];
  strategy = some (record { kind = "ldap"; name = "forumsys" });
  payload = document;
}

given : handler services (pos 9000) true "kid" "forumsys" body 0 ≡ (answered session, 1)
unfolding handler login authenticate login_info json_body get_config ldap_config_get group_search_of
    parse_group_filter render_group_filter bind_secret_of do_login login_over user_request
    replace_all only_entry entry_to_user_info group_names names_from replied lookup insert Exts.add
    Exts.get new_default_user set_groups without_reserved is_reserved has_prefix
    get_operator_namespace handle success success_body access_token after rewrap ◌>>=◌ ◌>>◌ require
    or_err is_zero
given = refl

handler-DirectorySession_example :
    DirectorySession services (pos 9000) true "kid" "forumsys" body session
handler-DirectorySession_example =
    handler-DirectorySession services (pos 9000) true "kid" "forumsys" body session 0 1 given

abbrev cfg : LdapConfig String
cfg = record {
  dial_url = "ldap://directory";
  bind_dn = "cn=authn";
  bind_secret = "";
  base_dn = "people";
  tls = false;
  group_base_dn = "groups";
  group_filter = "";
  group_name_attr = "cn";
}

unknown : do_login services "bob" "pw" cfg 0 ≡ (err (invalid_login (errorf "no users found" [])), 0)
unfolding do_login login_over user_request replace_all only_entry replied after has_prefix
unknown = refl

rejected : do_login services "ada" "guess" cfg 0 ≡ (err (invalid_login refuse), 0)
unfolding do_login login_over user_request replace_all only_entry user_bind_failure refuses_user
    replied after has_prefix
rejected = refl

do_login-Blamed_example : Blamed services "ada" "guess" cfg (invalid_login refuse)
do_login-Blamed_example =
    do_login-Blamed services "ada" "guess" cfg (invalid_login refuse) 0 0 rejected

do_login-alike_example :
    from_error (invalid_login (errorf "no users found" [])) ≡ from_error (invalid_login refuse)
do_login-alike_example =
    do_login-alike services "bob" "ada" "pw" "guess" cfg cfg
      (invalid_login (errorf "no users found" [])) (invalid_login refuse) 0 0 0 0 unknown rejected
      (invalid_login-code _) (invalid_login-code _)

group_names-first_names_example :
    (group_names services groups "cn" ≡ first_names (values services "cn" groups))
    × Distinct (group_names services groups "cn")
    × ((g : String)
        → In g (group_names services groups "cn") ↔ (In g (values services "cn" groups) × (g ≢ "")))
group_names-first_names_example = group_names-first_names services groups "cn"

named : group_names services groups "cn" ≡ "dev" ∷ "krateo:loa:2" ∷ "ops" ∷ []
unfolding group_names names_from lookup insert
named = refl
