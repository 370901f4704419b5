-- ===== src/Scenarios/Offering.antt =====
-- The lists of login strategies, at concrete inputs.
use authn.Prelude.{ℕ, suc, String, ◌≡◌, ◌↔◌, refl, none, some, List, [], ◌∷◌, All, Any}
use authn.Prelude.Int.{pos}
use authn.Go.Text.{contains_char}
use authn.Go.Act.{ok, err, after, rewrap, failure_of, IsOk}
use authn.Cluster.{get_operator_namespace}
use authn.Oidc.Discovery.{Discovery, OidcSpec}
use authn.Oidc.Listing.{
  OidcItem, list_oidc_configs, oidc_config_list, do_discovery, complete_items, complete_item,
}
use authn.Oidc.Listing.Laws.{oidc_config_list-last}
use authn.Oidc.Exchange.{Provider}
use authn.OAuth.{OauthSpec}
use authn.OAuth.Listing.{
  returned, panicked, OauthItem, Lister, list_oauth_configs, list_oauth_config, entries_from, mark,
}
use authn.OAuth.Listing.Laws.{Unconverted, list_oauth_configs-panicked_iff}
use authn.Strategies.{
  Lists, Strategy, handler, count_basic_auth_users, user_list, for_oidc, for_ldap, ldap_config_list,
  for_oauth, each, oidc_strategy, ldap_strategy, oauth_strategy, default_graphics,
}
use authn.Strategies.Laws.{Honest, handler-Honest}
use authn.Scenarios.{os, refuse}

abbrev oauth_spec : OauthSpec
oauth_spec = record {
  client_id = "authn";
  client_secret_ref = record { name = "client"; namespace = "krateo"; key = "secret" };
  redirect_url = "https://portal";
  scopes = [];
  auth_url = "https://github/auth";
  token_url = "https://github/token";
  rest_action_ref = none;
}

abbrev unreadable : OauthItem
unreadable = record { name = "odd"; converted = err refuse }

abbrev github : OauthItem
github = record {
  name = "github";
  converted = ok (record { name = "github"; spec = oauth_spec; graphics = none });
}

abbrev lister : Lister ℕ
lister = record {
  os = os;
  new_dynamic = λ w. (ok tt, w);
  list_items = λ ns w. (ok (unreadable ∷ github ∷ []), w);
  auth_code_url = λ cfg state. cfg.auth_url;
}

located : get_operator_namespace (os {W = ℕ}) 0 ≡ (ok "krateo", 0)
unfolding get_operator_namespace
located = refl

list_oauth_configs-panicked_iff_example :
    ((list_oauth_configs lister 0).0 ≡ panicked)
    ↔ (IsOk github.converted × Any (Unconverted) (unreadable ∷ []))
list_oauth_configs-panicked_iff_example =
    list_oauth_configs-panicked_iff lister (unreadable ∷ []) github "krateo" 0 0 0 located refl

abbrev hidden : OidcSpec
hidden = record {
  discovery_url = "https://idp/.well-known";
  issuer = "https://idp";
  authorization_url = "";
  token_url = "";
  redirect_uri = "";
  user_info_url = "";
  client_id = "authn";
  client_secret = none;
  additional_scopes = "";
  rest_action_ref = none;
  step_up = none;
  allowed_groups = [];
}

abbrev unreachable : OidcItem
unreachable = record { name = "idp"; spec = hidden; graphics = none }

abbrev keycloak : OidcItem
keycloak = record {
  name = "keycloak";
  spec = record hidden {
    discovery_url = "";
    authorization_url = "https://keycloak/auth?x=y";
    step_up = some (record { acr_values = "silver" ∷ []; max_age = none; ttl = none });
  };
  graphics = none;
}

abbrev provider : Provider ℕ
provider = record {
  now = λ w. pos 0;
  new_request = λ method url. ok tt;
  send = λ req w. (err refuse, w);
  encode_form = λ form. "";
  unmarshal_error = λ body. "";
  unmarshal_token = λ body. err refuse;
  unmarshal_object = λ body. ok [];
  decode_base64url = λ text. ok text;
}

abbrev discovery : Discovery ℕ
discovery = record {
  provider = provider;
  os = os;
  new_client = λ w. (ok tt, w);
  get_spec = λ ns name w. (err refuse, w);
  unmarshal_discovery = λ body. err refuse;
  new_state = λ w. ("state", suc w);
  fields = λ s. s ∷ [];
}

listed :
    list_oidc_configs discovery (λ ns w. (ok (unreachable ∷ keycloak ∷ []), w)) 0
    ≡ (ok (unreachable ∷ keycloak ∷ []), 0)
unfolding list_oidc_configs get_operator_namespace after rewrap
listed = refl

oidc_config_list-last_example :
    failure_of (oidc_config_list discovery (λ ns w. (ok (unreachable ∷ keycloak ∷ []), w)) 0).0
    ≡ (do_discovery discovery hidden (complete_items discovery [] none 0).1).0.1
oidc_config_list-last_example =
    oidc_config_list-last discovery (λ ns w. (ok (unreachable ∷ keycloak ∷ []), w)) [] unreachable
      (keycloak ∷ []) 0 0 listed refl (refl, tt)

abbrev lists : Lists ℕ String
lists = record {
  os = os;
  new_client = λ w. (ok tt, w);
  list_users = λ ns w. (err refuse, w);
  list_ldap = λ ns w. (ok (record { name = "forumsys"; graphics = none } ∷ []), w);
  discovery = discovery;
  list_oidc = λ ns w. (ok (keycloak ∷ []), w);
  lister = record lister { list_items = λ ns w. (ok (github ∷ []), w) };
  urls = record {
    parse = λ s. ok s;
    scheme = λ u. "https";
    host = λ u. "keycloak";
    set_query = λ key value u. u;
    to_string = λ u. u;
  };
}

abbrev offered : List Strategy
offered =
    oidc_strategy lists keycloak
    ∷ ldap_strategy lists (record { name = "forumsys"; graphics = none })
    ∷ record {
      kind = "oauth";
      path = "/oauth/login";
      name = "github";
      graphics = some (default_graphics "OAuth2");
      extensions = ("authCodeURL", "https://github/auth") ∷ ("redirectURL", "https://portal") ∷ [];
    }
    ∷ []

answered : handler lists 0 ≡ (returned offered, 0)
unfolding handler count_basic_auth_users user_list for_oidc oidc_config_list list_oidc_configs
    complete_items complete_item for_ldap ldap_config_list for_oauth list_oauth_configs
    list_oauth_config entries_from mark each oauth_strategy contains_char get_operator_namespace
    after rewrap
answered = refl

handler-Honest_example : All (Honest lists (count_basic_auth_users lists 0).1) offered
handler-Honest_example = handler-Honest lists 0 0 offered answered
