-- ===== src/Strategies/Laws.antt =====
-- What the list of strategies says of step-ups (strategies.go).
use authn.Prelude.{
  ℕ, String, ◌≡◌, ◌⊎◌, refl, ap, Option, none, some, List, [], ◌∷◌, ◌++◌, All, All-append, Any, ◌/◌,
  inl, inr, ltb, Bool-cases,
}
use authn.Go.Text.{join}
use authn.Go.Time.{second}
use authn.Prelude.Int.{pos_part}
use authn.UserInfo.{decimal}
use authn.Go.Dict.{Dict, lookup, lookup-insert, merge}
use authn.Go.Act.{Result, ok, err, after, return}
use authn.OAuth.Listing.{list_oauth_configs, Run, returned, panicked, ConfigSpec}
use authn.Oidc.Listing.{OidcItem, oidc_config_list}
use authn.Oidc.StepUp.{StepUpConfig, resolve_step_up, step_up_extensions}
use authn.Oidc.StepUp.Laws.{WellFormed, step_up_extensions-Told}
use authn.Strategies.{
  Strategy, LdapItem, Lists, oidc_strategy, ldap_strategy, oauth_strategy, each,
  count_basic_auth_users, for_oidc, for_ldap, for_oauth, basic_offer, offer, with_oauth, handler,
  ldap_config_list, oauth_listed, with_dynamic,
}

module _ {W U : Type 0} (lists : Lists W U) where
  open lists use {urls}

  -- An OIDCConfig that the list of them gave, after the Users were counted.
  pub record Listed (w : W) (x : OidcItem) : Type 0 where
    pub items : List OidcItem
    pub later : W
    pub listed : oidc_config_list lists.discovery lists.list_oidc w ≡ (ok items, later)
    pub member : Any (λ y. y ≡ x) items

  -- A strategy tells how to ask for a step-up under the configuration of an OIDCConfig.
  pub record Tells (x : OidcItem) (s : Strategy) : Type 0 where
    pub kind : s.kind ≡ "oidc"
    pub name : s.name ≡ x.name
    pub cfg : StepUpConfig
    pub enabled : resolve_step_up x.spec.step_up ≡ some cfg
    pub well : WellFormed cfg
    pub address : U
    pub parsed : urls.parse x.spec.authorization_url ≡ ok address
    pub acr_values : lookup "stepUpAcrValues" s.extensions ≡ some (join " " cfg.acr_values)
    pub max_age :
        lookup "stepUpMaxAge" s.extensions ≡ some (decimal (pos_part cfg.max_age / second))
    pub path : lookup "stepUpPath" s.extensions ≡ some "/oidc/stepup"
    pub auth_code_url :
        lookup "stepUpAuthCodeURL" s.extensions
        ≡ some (
            urls.to_string (
              urls.set_query "max_age"
                (decimal (pos_part cfg.max_age / second))
                (urls.set_query "acr_values" (join " " cfg.acr_values) address)))

  -- A strategy that tells how to ask for a step-up is that of an OIDCConfig that was listed, under
  -- which step-ups are enabled and well configured, and tells that configuration.
  abbrev pub Honest : W → Strategy → Type 0
  Honest w s =
      (lookup "stepUpAuthCodeURL" s.extensions ≡ none) ⊎ ((x : OidcItem) × Listed w x × Tells x s)

  oidc_strategy-Tells :
      (x : OidcItem)
      → (lookup "stepUpAuthCodeURL" (oidc_strategy lists x).extensions ≡ none)
        ⊎ Tells x (oidc_strategy lists x)
  unfolding oidc_strategy lookup merge
  oidc_strategy-Tells x = go (step_up_extensions urls x.spec.step_up x.spec.authorization_url) refl
    where
      go :
          (r : Result (Option (Dict String)))
          → step_up_extensions urls x.spec.step_up x.spec.authorization_url ≡ r
          → (lookup "stepUpAuthCodeURL" (oidc_strategy lists x).extensions ≡ none)
            ⊎ Tells x (oidc_strategy lists x)
      go (err e) h = inl (rw h refl)
      go (ok none) h = inl (rw h refl)
      go (ok (some entries)) h =
          let t = step_up_extensions-Told urls x.spec.step_up x.spec.authorization_url entries h in
          inr (record {
            kind = refl;
            name = refl;
            cfg = t.cfg;
            enabled = t.enabled;
            well = t.well;
            address = t.address;
            parsed = t.parsed;
            acr_values = rw (h, t.exact) (simp (lookup-insert));
            max_age = rw (h, t.exact) (simp (lookup-insert));
            path = rw (h, t.exact) (simp (lookup-insert));
            auth_code_url = rw (h, t.exact) (simp (lookup-insert));
          })

  ldap_strategy-Honest : (w : W) (x : LdapItem) → Honest w (ldap_strategy lists x)
  unfolding ldap_strategy lookup
  ldap_strategy-Honest w x = inl refl

  oauth_strategy-Honest : (w : W) (x : ConfigSpec) → Honest w (oauth_strategy lists x)
  unfolding oauth_strategy lookup
  oauth_strategy-Honest w x = inl refl

  module _ (start : W) where
    each-Honest :
        {A : Type 0} (f : A → Strategy)
        → (items : List A) → ((x : A) → Any (λ y. y ≡ x) items → Honest start (f x))
        → All (Honest start) (each lists f items)
    unfolding each
    each-Honest f [] h = tt
    each-Honest f (x ∷ items) h = (h x (inl refl), each-Honest f items (λ y m. h y (inr m)))

    -- What a list of strategies that was read holds.
    abbrev Offered : Result (List Strategy) → Type 0
    Offered (err e) = Unit
    Offered (ok all) = All (Honest start) all

    each_or_error :
        {A : Type 0} (x : Result (List A) × W) (f : A → Strategy)
        → ((items : List A) (u : W)
            → x ≡ (ok items, u)
            → (y : A) → Any (λ z. z ≡ y) items
            → Honest start (f y))
        → Offered (after x (λ all. return (each lists f all))).0
    unfolding after
    each_or_error (ok items, w) f h = each-Honest f items (h items w refl)
    each_or_error (err e, w) f h = tt

    offer-Honest : (r : Result (List Strategy)) → Offered r → All (Honest start) (offer lists r)
    offer-Honest (err e) h = tt
    offer-Honest (ok all) h = h

    basic_offer-Honest : (r : Result ℕ) → All (Honest start) (basic_offer lists r)
    unfolding lookup
    basic_offer-Honest (err e) = tt
    basic_offer-Honest (ok tot) = elim (Bool-cases (ltb 0 tot)) [
      | inl e ↦ rw e (inl refl, tt)
      | inr e ↦ rw e tt
    ]

    for_oidc-Offered : Offered (for_oidc lists start).0
    unfolding for_oidc
    for_oidc-Offered =
        each_or_error (oidc_config_list lists.discovery lists.list_oidc start) (oidc_strategy lists)
          (λ items u e x m. elim (oidc_strategy-Tells x) [
            | inl n ↦ inl n
            | inr t ↦ inr (x, record { items = items; later = u; listed = e; member = m }, t)
          ])

    for_ldap-Offered : (w : W) → Offered (for_ldap lists w).0
    unfolding for_ldap
    for_ldap-Offered w =
        each_or_error (ldap_config_list lists w) (ldap_strategy lists)
          (λ items u e x m. ldap_strategy-Honest start x)

    -- What the part of the OAuthConfigs adds, where it does not panic.
    abbrev OfferedRun : Run (Result (List Strategy)) → Type 0
    OfferedRun panicked = Unit
    OfferedRun (returned r) = Offered r

    oauth_listed-Offered :
        (x : Run (Result (List ConfigSpec)) × W) → OfferedRun (oauth_listed lists x).0
    oauth_listed-Offered (panicked, w) = tt
    oauth_listed-Offered (returned (err e), w) = tt
    oauth_listed-Offered (returned (ok all), w) =
        each-Honest (oauth_strategy lists) all (λ x m. oauth_strategy-Honest start x)

    with_dynamic-Offered : (x : Result (Unit {0}) × W) → OfferedRun (with_dynamic lists x).0
    with_dynamic-Offered (err e, w) = tt
    with_dynamic-Offered (ok u, w) = oauth_listed-Offered (list_oauth_configs lists.lister w)

    for_oauth-Offered : (w : W) → OfferedRun (for_oauth lists w).0
    unfolding for_oauth
    for_oauth-Offered w = with_dynamic-Offered (lists.lister.new_dynamic w)

    with_oauth-Honest :
        (list : List Strategy) (r : Run (Result (List Strategy))) (every : List Strategy)
        → All (Honest start) list
        → OfferedRun r
        → with_oauth lists list r ≡ returned every
        → All (Honest start) every
    with_oauth-Honest list panicked every h k e = absurd (cc e)
    with_oauth-Honest list (returned r) every h k e =
        rw (← same) (All-append (Honest start) list (offer lists r) h (offer-Honest r k))
      where
        same : list ++ offer lists r ≡ every
        same = cc

  -- Where the list of strategies is answered, every strategy of it that tells how to ask for a
  -- step-up is that of an OIDCConfig that was listed for it, under which step-ups are enabled and
  -- well configured; and its extensions tell that configuration: the acr values and the maximum age
  -- that are configured, also in the query of the OIDCConfig's authorization URL, and the path.
  pub handler-Honest :
      (w u : W) (every : List Strategy)
      → handler lists w ≡ (returned every, u)
      → All (Honest (count_basic_auth_users lists w).1) every
  unfolding handler
  handler-Honest w u every h =
      let w₁ = (count_basic_auth_users lists w).1 in
      let w₂ = (for_oidc lists w₁).1 in
      let w₃ = (for_ldap lists w₂).1 in
      let basic = basic_offer lists (count_basic_auth_users lists w).0 in
      let oidc = offer lists (for_oidc lists w₁).0 in
      let ldap = offer lists (for_ldap lists w₂).0 in
      with_oauth-Honest w₁ ((basic ++ oidc) ++ ldap) (for_oauth lists w₃).0 every
        (All-append (Honest w₁) (basic ++ oidc) ldap
          (All-append (Honest w₁) basic oidc
            (basic_offer-Honest w₁ (count_basic_auth_users lists w).0)
            (offer-Honest w₁ (for_oidc lists w₁).0 (for_oidc-Offered w₁)))
          (offer-Honest w₁ (for_ldap lists w₂).0 (for_ldap-Offered w₁ w₂)))
        (for_oauth-Offered w₁ w₃) (ap (λ x. x.0) h)
