-- ===== src/Oidc/Listing/Laws.antt =====
-- When the list of the OIDCConfigs fails (oidcconfig.go).
use authn.Prelude.{
  ◌≡◌, refl, ap, ◌∙◌, true, false, Option, none, some, List, [], ◌∷◌, ◌++◌, All, String,
}
use authn.Go.Error.{Error}
use authn.Go.Act.{failure_of, ok, Act, ok-after}
use authn.Oidc.Discovery.{Discovery}
use authn.Oidc.Listing.{
  OidcItem, list_oidc_configs, do_discovery, needs_discovery, complete_item, complete_items,
  unless_failed, oidc_config_list,
}

module _ {W : Type 0} (discovery : Discovery W) where
  -- No item of the list needs a discovery.
  abbrev pub Ready : List OidcItem → Type 0
  Ready items = All (λ item. needs_discovery item.spec ≡ false) items

  abbrev error_after : List OidcItem → Option Error → W → Option Error
  error_after items failure w = (complete_items discovery items failure w).0.1

  complete_items-Ready :
      (items : List OidcItem) (failure : Option Error) (w : W)
      → Ready items
      → error_after items failure w ≡ failure
  unfolding complete_items complete_item
  complete_items-Ready [] failure w h = refl
  complete_items-Ready (item ∷ items) failure w (r, h) =
      rw r (complete_items-Ready items failure _ h)

  complete_items-last :
      (before : List OidcItem) (item : OidcItem) (after : List OidcItem) (failure : Option Error)
      (w : W)
      → needs_discovery item.spec ≡ true
      → Ready after
      → error_after (before ++ item ∷ after) failure w
        ≡ (do_discovery discovery item.spec (complete_items discovery before failure w).1).0.1
  unfolding complete_items complete_item
  complete_items-last [] item after failure w n h =
      rw (error_after, n) (complete_items-Ready after _ _ h)
  complete_items-last (x ∷ before) item after failure w n h =
      complete_items-last before item after (complete_item discovery x failure w).0.1
        (complete_item discovery x failure w).1 n h

  unless_failed-failure :
      (x : (List OidcItem × Option Error) × W) → failure_of (unless_failed x).0 ≡ x.0.1
  unless_failed-failure ((items, none), w) = refl
  unless_failed-failure ((items, some e), w) = refl

  -- The list of the OIDCConfigs fails with the error that the discovery of the last one that needs a
  -- discovery reports, and succeeds where it reports none: the failures of the ones before it are
  -- forgotten, and its own withholds all of them.
  pub oidc_config_list-last :
      (list_items : String → Act W (List OidcItem)) (before : List OidcItem) (item : OidcItem)
      (after : List OidcItem) (w v : W)
      → list_oidc_configs discovery list_items w ≡ (ok (before ++ item ∷ after), v)
      → needs_discovery item.spec ≡ true
      → Ready after
      → failure_of (oidc_config_list discovery list_items w).0
        ≡ (do_discovery discovery item.spec (complete_items discovery before none v).1).0.1
  unfolding oidc_config_list
  oidc_config_list-last list_items before item after w v listed needed ready =
      let every = before ++ item ∷ after in
      ap (λ x. failure_of x.0) (ok-after _ every v listed refl)
      ∙ unless_failed-failure (complete_items discovery every none v)
      ∙ complete_items-last before item after none v needed ready
