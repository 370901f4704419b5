-- ===== src/OAuth/Listing.antt =====
-- go/authn/internal/helpers/kube/resolvers/list.go: the OAuthConfigs of the list of strategies.
pub mod Laws
use authn.Prelude.{String, Option, none, some, List, [], ◌∷◌, if◌then◌else◌}
use authn.Go.Error.{Error, wrapf, is_not_found}
use authn.Go.Act.{Result, ok, err, failure_of, Act, ◌>>=◌, or_fail}
use authn.Cluster.{Graphics, Os, get_operator_namespace}
use authn.OAuth.{OauthSpec, OauthConfig, config_of}

-- How a call of Go ends: it returns, or it panics.
pub data Run (A : Type 0) : Type 0 where
  returned : A → Run A
  panicked : Run A

-- ConfigSpec
pub record ConfigSpec : Type 0 where
  pub kind : String
  pub name : String
  pub auth_code_url : String
  pub redirect_url : String
  pub login_route : String
  pub graphics : Option Graphics

-- An OAuthConfig, with its name.
pub record Converted : Type 0 where
  pub name : String
  pub spec : OauthSpec
  pub graphics : Option Graphics

-- An item of the list, with the outcome of its conversion.
pub record OauthItem : Type 0 where
  pub name : String
  pub converted : Result Converted

pub record Lister (W : Type 0) : Type 0 where
  pub os : Os W
  -- dynamic.NewForConfig
  pub new_dynamic : Act W (Unit {0})
  -- the list of the OAuthConfigs of a namespace
  pub list_items : String → Act W (List OauthItem)
  -- oauth2.Config.AuthCodeURL
  pub auth_code_url : OauthConfig → String → String

module _ {W : Type 0} (lister : Lister W) where
  abbrev spec_of : OauthItem → Converted → ConfigSpec
  spec_of item el = record {
    kind = "";
    name = item.name;
    auth_code_url = lister.auth_code_url (config_of el.spec "") el.name;
    redirect_url = el.spec.redirect_url;
    login_route = "";
    graphics = el.graphics;
  }

  -- One round of listOauthConfig's loop: an item that cannot be converted leaves a nil.
  abbrev pub entry_of : OauthItem → Result Converted → Option ConfigSpec
  entry_of item (ok el) = some (spec_of item el)
  entry_of item (err e) = none

  -- The loop of listOauthConfig: each round overwrites the error, also with nil.
  unfoldable pub entries_from :
      List OauthItem → Option Error → List (Option ConfigSpec) × Option Error
  entries_from [] failure = ([], failure)
  entries_from (item ∷ items) failure =
      let (entries, failure') = entries_from items (failure_of item.converted) in
      (entry_of item item.converted ∷ entries, failure')

  -- `return res, err`; a nil list is the empty one.
  abbrev pub list_or_error :
      List (Option ConfigSpec) × Option Error → Result (List (Option ConfigSpec))
  list_or_error (entries, none) = ok entries
  list_or_error (entries, some e) = err e

  abbrev pub none_if_missing : Result (List OauthItem) × W → Result (List (Option ConfigSpec)) × W
  none_if_missing (ok items, w) = (list_or_error (entries_from items none), w)
  none_if_missing (err e, w) = (if is_not_found e then ok [] else err e, w)

  -- listOauthConfig
  unfoldable pub list_oauth_config : Act W (List (Option ConfigSpec))
  list_oauth_config = do
    ns ←
        or_fail (get_operator_namespace lister.os)
          (wrapf "unable to resolve service namespace: %w" [])
    λ w. none_if_missing (lister.list_items ns w)

  abbrev pub mark_head : Option ConfigSpec → Run (List ConfigSpec) → Run (List ConfigSpec)
  mark_head none rest = panicked
  mark_head (some x) panicked = panicked
  mark_head (some x) (returned rest) =
      returned (record x { kind = "oauth"; login_route = "/oauth/login" } ∷ rest)

  -- The loop of ListOAuthConfigs: it writes through every pointer, and panics at a nil.
  unfoldable pub mark : List (Option ConfigSpec) → Run (List ConfigSpec)
  mark [] = returned []
  mark (x ∷ entries) = mark_head x (mark entries)

  abbrev pub ok_run : Run (List ConfigSpec) → Run (Result (List ConfigSpec))
  ok_run panicked = panicked
  ok_run (returned specs) = returned (ok specs)

  abbrev pub marked : Result (List (Option ConfigSpec)) → Run (Result (List ConfigSpec))
  marked (err e) = returned (err e)
  marked (ok entries) = ok_run (mark entries)

  -- ListOAuthConfigs
  unfoldable pub list_oauth_configs : W → Run (Result (List ConfigSpec)) × W
  list_oauth_configs w = let (r, u) = list_oauth_config w in (marked r, u)
