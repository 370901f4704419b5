-- ===== src/Strategies.antt =====
-- go/authn/internal/routes/auth/strategies: the login strategies that a portal offers (strategies.go,
-- support.go), with the lists of the Users and of the LDAPConfigs
-- (go/authn/internal/helpers/kube/resolvers/basic.go and ldapconfig.go).
pub mod Laws
use Prim.Native.String
use authn.Prelude.{
  ℕ, String, Bool, Option, none, some, List, [], ◌∷◌, ◌++◌, ltb, if◌then◌else◌, length,
}
use authn.Go.Error.{Error, wrapf}
use authn.Go.Dict.{Dict, merge}
use authn.Go.Act.{Result, ok, err, Act, ◌>>=◌, ◌>>◌, or_fail, return}
use authn.Cluster.{Graphics, Os, get_operator_namespace}
use authn.Basic.{BasicUser}
use authn.Oidc.Discovery.{Discovery}
use authn.Oidc.Listing.{OidcItem, oidc_config_list}
use authn.Oidc.StepUp.{Urls, step_up_extensions}
use authn.OAuth.Listing.{Run, returned, panicked, ConfigSpec, Lister, list_oauth_configs}

-- strategy
pub record Strategy : Type 0 where
  pub kind : String
  pub name : String
  pub graphics : Option Graphics
  pub path : String
  pub extensions : Dict String

-- An LDAPConfig, as the list reads it.
pub record LdapItem : Type 0 where
  pub name : String
  pub graphics : Option Graphics

-- What the list of strategies calls.
pub record Lists (W U : Type 0) : Type 0 where
  pub os : Os W
  -- client.New
  pub new_client : Act W (Unit {0})
  -- the Users and the LDAPConfigs of a namespace
  pub list_users : String → Act W (List BasicUser)
  pub list_ldap : String → Act W (List LdapItem)
  pub discovery : Discovery W
  pub list_oidc : String → Act W (List OidcItem)
  pub lister : Lister W
  pub urls : Urls U

-- getDefaultGraphicsObject
unfoldable pub default_graphics : String → Graphics
default_graphics auth_name = record {
  icon = "key";
  display_name = String.◌++◌ "Login with " auth_name;
  background_color = "#ffffff";
  text_color = "#000000";
}

abbrev pub graphics_or : String → Option Graphics → Option Graphics
graphics_or auth_name none = some (default_graphics auth_name)
graphics_or auth_name (some g) = some g

-- maps.Copy(ext, stepUp), of the nil map where step-ups are not enabled or not well configured.
abbrev pub copy_step_up : Dict String → Result (Option (Dict String)) → Dict String
copy_step_up ext (err e) = ext
copy_step_up ext (ok none) = ext
copy_step_up ext (ok (some step_up)) = merge ext step_up

module _ {W U : Type 0} (lists : Lists W U) where
  open lists use {os, new_client, urls}

  -- UserList
  unfoldable pub user_list : Act W (List BasicUser)
  user_list = do
    ns ← or_fail (get_operator_namespace os) (wrapf "unable to resolve service namespace: %w" [])
    new_client
    lists.list_users ns

  -- LDAPConfigList
  unfoldable pub ldap_config_list : Act W (List LdapItem)
  ldap_config_list = do
    ns ← or_fail (get_operator_namespace os) (wrapf "unable to resolve service namespace: %w" [])
    new_client
    lists.list_ldap ns

  abbrev login_extensions : OidcItem → Dict String
  login_extensions x =
      ("authCodeURL", x.spec.authorization_url) ∷ ("redirectURL", x.spec.redirect_uri) ∷ []

  -- One round of forOIDC's loop.
  unfoldable pub oidc_strategy : OidcItem → Strategy
  oidc_strategy x = record {
    kind = "oidc";
    path = "/oidc/login";
    name = x.name;
    graphics = graphics_or "OIDC" x.graphics;
    extensions =
        copy_step_up (login_extensions x)
          (step_up_extensions urls x.spec.step_up x.spec.authorization_url);
  }

  unfoldable pub ldap_strategy : LdapItem → Strategy
  ldap_strategy x = record {
    kind = "ldap";
    path = "/ldap/login";
    name = x.name;
    graphics = graphics_or "LDAP" x.graphics;
    extensions = [];
  }

  unfoldable pub oauth_strategy : ConfigSpec → Strategy
  oauth_strategy x = record {
    kind = "oauth";
    path = "/oauth/login";
    name = x.name;
    graphics = graphics_or "OAuth2" x.graphics;
    extensions = ("authCodeURL", x.auth_code_url) ∷ ("redirectURL", x.redirect_url) ∷ [];
  }

  -- The loops, which fill a slice of the list's length.
  unfoldable pub each : {A : Type 0} → (A → Strategy) → List A → List Strategy
  each f [] = []
  each f (x ∷ items) = f x ∷ each f items

  -- countBasicAuthUsers
  unfoldable pub count_basic_auth_users : Act W ℕ
  count_basic_auth_users = do users ← user_list; return (length users)

  -- forOIDC
  unfoldable pub for_oidc : Act W (List Strategy)
  for_oidc = do
    all ← oidc_config_list lists.discovery lists.list_oidc
    return (each oidc_strategy all)

  -- forLDAP
  unfoldable pub for_ldap : Act W (List Strategy)
  for_ldap = do all ← ldap_config_list; return (each ldap_strategy all)

  abbrev pub oauth_listed : Run (Result (List ConfigSpec)) × W → Run (Result (List Strategy)) × W
  oauth_listed (panicked, w) = (panicked, w)
  oauth_listed (returned (err e), w) = (returned (err e), w)
  oauth_listed (returned (ok all), w) = (returned (ok (each oauth_strategy all)), w)

  abbrev pub with_dynamic : Result (Unit {0}) × W → Run (Result (List Strategy)) × W
  with_dynamic (err e, w) = (returned (err e), w)
  with_dynamic (ok _, w) = oauth_listed (list_oauth_configs lists.lister w)

  -- forOAuth
  unfoldable pub for_oauth : W → Run (Result (List Strategy)) × W
  for_oauth w = with_dynamic (lists.lister.new_dynamic w)

  abbrev pub basic_strategy : Strategy
  basic_strategy = record {
    kind = "basic";
    path = "/basic/login";
    name = "";
    graphics = none;
    extensions = [];
  }

  -- Where there are Users, a password is a strategy.
  abbrev pub basic_offer : Result ℕ → List Strategy
  basic_offer (err e) = []
  basic_offer (ok tot) = if ltb 0 tot then basic_strategy ∷ [] else []

  -- A list that cannot be read adds nothing.
  abbrev pub offer : Result (List Strategy) → List Strategy
  offer (err e) = []
  offer (ok all) = all

  abbrev pub with_oauth : List Strategy → Run (Result (List Strategy)) → Run (List Strategy)
  with_oauth list panicked = panicked
  with_oauth list (returned r) = returned (list ++ offer r)

  -- strategiesRoute.Handler: the list that it answers with, as JSON and with 200
  unfoldable pub handler : W → Run (List Strategy) × W
  handler w =
      let (basic, w₁) = count_basic_auth_users w in
      let (oidc, w₂) = for_oidc w₁ in
      let (ldap, w₃) = for_ldap w₂ in
      let (oauth, w₄) = for_oauth w₃ in
      (with_oauth ((basic_offer basic ++ offer oidc) ++ offer ldap) oauth, w₄)
