-- ===== src/Oidc/Listing.antt =====
-- go/authn/internal/helpers/kube/resolvers/oidcconfig.go: the lists of the OIDCConfigs, for the list of
-- strategies (OIDCConfigList) and for the warning at startup (OIDCConfigsWithoutIssuer).
pub mod Laws
use authn.Prelude.{
  String, Bool, true, false, not, ◌||◌, ◌&&◌, Option, none, some, List, [], ◌∷◌, ◌==◌,
  if◌then◌else◌,
}
use authn.Go.Text.{contains_char}
use authn.Go.Error.{Error, wrapf}
use authn.Go.Act.{Result, ok, err, Act, ◌>>=◌, ◌>>◌, or_fail, return}
use authn.Cluster.{Graphics, Os, get_operator_namespace}
use authn.Oidc.Discovery.{
  Discovery, DiscoveryEndpointResponse, OidcSpec, fetch_discovery, with_endpoints, endpoints_known,
  auth_code_url,
}

-- An OIDCConfig, as the lists read it.
pub record OidcItem : Type 0 where
  pub name : String
  pub spec : OidcSpec
  pub graphics : Option Graphics

-- The spec as a step leaves it, with the step's error.
abbrev pub Completed : Type 0
Completed = OidcSpec × Option Error

-- The test of OIDCConfigList's loop.
abbrev pub needs_discovery : OidcSpec → Bool
needs_discovery spec =
    (spec.authorization_url == "" || spec.token_url == "" || spec.user_info_url == "")
    && not (spec.discovery_url == "")

-- The loop of OIDCConfigsWithoutIssuer.
unfoldable pub without_issuer : List OidcItem → List String
without_issuer [] = []
without_issuer (item ∷ items) =
    let rest = without_issuer items in
    if item.spec.issuer == "" && item.spec.discovery_url == "" then item.name ∷ rest else rest

-- `return res, err`: the callers read the items only where there is no error.
abbrev pub unless_failed :
    {W : Type 0} → (List OidcItem × Option Error) × W → Result (List OidcItem) × W
unless_failed ((items, none), w) = (ok items, w)
unless_failed ((items, some e), w) = (err e, w)

module _ {W : Type 0} (discovery : Discovery W) where
  open discovery use {os, new_client}

  abbrev known_or_failed : OidcSpec → Result (Unit {0}) → W → Completed × W
  known_or_failed spec (err e) w = ((spec, some e), w)
  known_or_failed spec (ok _) w = (
    (record spec { authorization_url = (auth_code_url discovery spec w).0 }, none),
    (auth_code_url discovery spec w).1,
  )

  -- applyDiscovery, with what it leaves behind when it fails: the endpoints that it found
  abbrev pub apply_in_place : OidcSpec → DiscoveryEndpointResponse → W → Completed × W
  apply_in_place spec doc w =
      let found = with_endpoints discovery spec doc in
      known_or_failed found (endpoints_known discovery found) w

  abbrev fetched : OidcSpec → Result DiscoveryEndpointResponse × W → Completed × W
  fetched spec (err e, w) = ((spec, some e), w)
  fetched spec (ok doc, w) = apply_in_place spec doc w

  abbrev no_document : DiscoveryEndpointResponse
  no_document = record {
    issuer = "";
    authorization_endpoint = "";
    token_endpoint = "";
    userinfo_endpoint = "";
  }

  -- doDiscovery
  unfoldable pub do_discovery : OidcSpec → W → Completed × W
  do_discovery spec w =
      if not (spec.discovery_url == "")
      then fetched spec (fetch_discovery discovery spec.discovery_url w)
      else apply_in_place spec no_document w

  -- The URL of an OIDCConfig that needs no discovery.
  abbrev pub with_query : OidcSpec → W → OidcSpec × W
  with_query spec w =
      if not (spec.authorization_url == "") && not (contains_char b'?' spec.authorization_url)
      then (
        record spec { authorization_url = (auth_code_url discovery spec w).0 },
        (auth_code_url discovery spec w).1,
      )
      else (spec, w)

  -- The body of OIDCConfigList's loop: it overwrites the error where it does a discovery.
  unfoldable pub complete_item : OidcItem → Option Error → W → (OidcItem × Option Error) × W
  complete_item item failure w =
      if needs_discovery item.spec
      then (let ((spec, failure'), w') = do_discovery item.spec w in
          ((record item { spec = spec }, failure'), w'))
      else (let (spec, w') = with_query item.spec w in ((record item { spec = spec }, failure), w'))

  -- OIDCConfigList's loop: the items, and the error as its last round leaves it.
  unfoldable pub complete_items :
      List OidcItem → Option Error → W → (List OidcItem × Option Error) × W
  complete_items [] failure w = (([], failure), w)
  complete_items (item ∷ items) failure w =
      let ((item', failure'), w') = complete_item item failure w in
      let ((items', failure''), w'') = complete_items items failure' w' in
      ((item' ∷ items', failure''), w'')

  abbrev completed : List OidcItem → Act W (List OidcItem)
  completed items w = unless_failed (complete_items items none w)

  module _ (list_items : String → Act W (List OidcItem)) where
    -- listOIDCConfigs
    unfoldable pub list_oidc_configs : Act W (List OidcItem)
    list_oidc_configs = do
      ns ← or_fail (get_operator_namespace os) (wrapf "unable to resolve service namespace: %w" [])
      new_client
      list_items ns

    -- OIDCConfigList
    unfoldable pub oidc_config_list : Act W (List OidcItem)
    oidc_config_list = do items ← list_oidc_configs; completed items

    -- OIDCConfigsWithoutIssuer
    unfoldable pub oidc_configs_without_issuer : Act W (List String)
    oidc_configs_without_issuer = do items ← list_oidc_configs; return (without_issuer items)
