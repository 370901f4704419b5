-- ===== src/Oidc/StepUp/Laws.antt =====
-- Which step-ups are granted, and which configurations a portal is told about (stepup.go).
use authn.Prelude.{
  String, ◌≡◌, ◌≢◌, refl, ◌↔◌, inl, inr, Bool, Bool-cases, true, false, not, ◌||◌, Option, none,
  some, List, [], ◌∷◌, length, nat_eq, ◌==◌, arith, eq_iff, In, All, slices_contains-In,
  In-slices_contains,
}
use authn.Prelude.Int.{pos, negsuc, ◌≤ℤ◌, ◌<ℤ◌, ◌+ℤ◌, ltb_ℤ}
use authn.Go.Text.{contains_space}
use authn.Go.Time.{Time, Duration, is_zero, since, since-le, max_duration}
use authn.Go.Dict.{Dict}
use authn.Go.Act.{Result, ok, err, ok-injective, err≢ok}
use authn.Go.Check.{bind-ok, next-ok, ok-next, require-ok, ok-require}
use authn.Oidc.Token.{IdToken}
use authn.Oidc.StepUp.{
  OidcStepUp, StepUpConfig, Urls, resolve_step_up, validate_acr_values, validate, check_step_up,
  min_step_up_ttl, step_up_extensions, extensions_of, asked, absolute,
}

-- An acr value that an authorization request can carry and that no missing acr matches.
abbrev pub Usable : String → Type 0
Usable v = (v ≢ "") × (contains_space v ≡ false)

pub record WellFormed (cfg : StepUpConfig) : Type 0 where
  pub some_value : cfg.acr_values ≢ []
  pub values_usable : All Usable cfg.acr_values
  pub max_age_positive : pos 0 <ℤ cfg.max_age
  pub ttl_allowed : min_step_up_ttl ≤ℤ cfg.ttl

acceptable_iff : (v : String) → (not (v == "" || contains_space v) ≡ true) ↔ Usable v
acceptable_iff v = ground (arith, eq_iff v "")

validate_acr_values_iff :
    (values : List String) → (validate_acr_values values ≡ ok tt) ↔ All Usable values
unfolding validate_acr_values
validate_acr_values_iff [] = (λ _. tt, λ _. refl)
validate_acr_values_iff (v ∷ values) = (
  λ h.
      let ((u, first), rest) = next-ok _ _ h in
      ((acceptable_iff v).0 (require-ok _ _ first), (validate_acr_values_iff values).0 rest),
  λ (first, rest).
      ok-next _ _ tt (ok-require _ _ ((acceptable_iff v).1 first))
        ((validate_acr_values_iff values).1 rest),
)

nonempty_iff : {A : Type 0} (xs : List A) → (nat_eq (length xs) 0 ≡ false) ↔ (xs ≢ [])
nonempty_iff [] = (λ h. cc, λ h. absurd (h refl))
nonempty_iff (x ∷ xs) = (λ _ e. cc, λ _. ground arith)

bounds_iff :
    (empty : Bool) (max_age ttl : Duration)
    → (not (empty || not (ltb_ℤ (pos 0) max_age) || ltb_ℤ ttl min_step_up_ttl) ≡ true)
      ↔ ((empty ≡ false) × (pos 0 <ℤ max_age) × (min_step_up_ttl ≤ℤ ttl))
bounds_iff empty max_age ttl = ground arith

-- A configuration of step-ups is accepted exactly when it has acr values, each non-empty and
-- without white space, its maximum age is positive and its lifetime is one that the CSR API allows.
pub validate_iff : (cfg : StepUpConfig) → (validate cfg ≡ ok tt) ↔ WellFormed cfg
unfolding validate
validate_iff cfg = (forth, back)
  where
    forth : validate cfg ≡ ok tt → WellFormed cfg
    forth h =
        let ((u, first), rest) = next-ok _ _ h in
        let (full, positive, allowed) =
          (bounds_iff _ cfg.max_age cfg.ttl).0 (require-ok _ _ first) in
        record {
          some_value = (nonempty_iff cfg.acr_values).0 full;
          values_usable = (validate_acr_values_iff cfg.acr_values).0 rest;
          max_age_positive = positive;
          ttl_allowed = allowed;
        }

    back : WellFormed cfg → validate cfg ≡ ok tt
    back w =
        ok-next _ _ tt
          (ok-require _ _ (
            (bounds_iff _ cfg.max_age cfg.ttl).1
              ((nonempty_iff cfg.acr_values).1 w.some_value, w.max_age_positive, w.ttl_allowed)))
          ((validate_acr_values_iff cfg.acr_values).1 w.values_usable)

-- What a step-up proves: the configuration it was asked under, the assurance and the age.
pub record Proven (config : Option StepUpConfig) (tok : IdToken) (now : Time) : Type 0 where
  pub cfg : StepUpConfig
  pub enabled : config ≡ some cfg
  pub well_formed : WellFormed cfg
  pub assured : In tok.acr cfg.acr_values
  pub dated : tok.auth_time ≢ pos 0
  pub recent : since now tok.auth_time ≤ℤ cfg.max_age

dated_iff : (t : Time) → (not (is_zero t) ≡ true) ↔ (t ≢ pos 0)
unfolding is_zero
dated_iff (pos n) = ground arith
dated_iff (negsuc n) = (λ _ e. cc, λ _. refl)

recent_iff : (age max_age : Duration) → (not (ltb_ℤ max_age age) ≡ true) ↔ (age ≤ℤ max_age)
recent_iff age max_age = ground arith

module _ (tok : IdToken) (now : Time) where
  proven :
      (config : Option StepUpConfig) → check_step_up config tok now ≡ ok tt → Proven config tok now
  unfolding check_step_up
  proven none h = absurd (err≢ok h)
  proven (some cfg) h =
      let ((u, valid), h) = next-ok _ _ h in
      let ((u', acr), h) = next-ok _ _ h in
      let ((v, dated), h) = next-ok _ _ h in
      record {
        cfg = cfg;
        enabled = refl;
        well_formed = (validate_iff cfg).0 valid;
        assured = slices_contains-In cfg.acr_values tok.acr (require-ok _ _ acr);
        dated = (dated_iff tok.auth_time).0 (require-ok _ _ dated);
        recent = (recent_iff _ cfg.max_age).0 (require-ok _ _ h);
      }

  granted :
      (config : Option StepUpConfig) → Proven config tok now → check_step_up config tok now ≡ ok tt
  unfolding check_step_up
  granted config p =
      rw (p.enabled, check_step_up)
        (ok-next _ _ tt ((validate_iff p.cfg).1 p.well_formed) (
          ok-next _ _ tt (ok-require _ _ (In-slices_contains p.cfg.acr_values tok.acr p.assured)) (
            ok-next _ _ tt (ok-require _ _ ((dated_iff tok.auth_time).1 p.dated))
              (ok-require _ _ ((recent_iff _ p.cfg.max_age).1 p.recent)))))

  -- A validated ID token proves a step-up exactly when step-ups are enabled under an acceptable
  -- configuration, the token's acr is one of the configured values, and it has an authentication
  -- time whose age is at most the configured one.
  pub check_step_up_iff :
      (config : Option StepUpConfig)
      → (check_step_up config tok now ≡ ok tt) ↔ Proven config tok now
  check_step_up_iff config = (proven config, granted config)

All-In : (P : String → Type 0) (xs : List String) {x : String} → All P xs → In x xs → P x
All-In P [] h m = absurd m
All-In P (y ∷ xs) h (inl e) = rw (← e) h.0
All-In P (y ∷ xs) h (inr m) = All-In P xs h.1 m

-- A step-up is granted only to a token with an acr that is not empty, at an instant that lies no
-- later after its authentication than a maximum age below the largest duration allows.
pub check_step_up-recent :
    (cfg : StepUpConfig) (tok : IdToken) (now : Time)
    → cfg.max_age <ℤ max_duration
    → check_step_up (some cfg) tok now ≡ ok tt
    → (tok.acr ≢ "") × (now ≤ℤ tok.auth_time +ℤ cfg.max_age)
check_step_up-recent cfg tok now lt h =
    let p = proven tok now (some cfg) h in
    let same : p.cfg ≡ cfg = cc (p.enabled) in
    let (full, unspaced) = All-In Usable p.cfg.acr_values p.well_formed.values_usable p.assured in
    (full, since-le now tok.auth_time cfg.max_age (rw same at p.recent) lt)

-- What a portal is told: how to ask for a step-up under a configuration.
pub record Told {U : Type 0} (urls : Urls U) (spec : Option OidcStepUp) (auth_code_url : String)
    (entries : Dict String) : Type 0 where
  pub cfg : StepUpConfig
  pub enabled : resolve_step_up spec ≡ some cfg
  pub well : WellFormed cfg
  pub address : U
  pub parsed : urls.parse auth_code_url ≡ ok address
  pub exact : entries ≡ asked urls cfg address

module _ {U : Type 0} (urls : Urls U) where
  absolute-ok :
      (auth_code_url : String) (r : Result U) {u : U}
      → absolute urls auth_code_url r ≡ ok u
      → r ≡ ok u
  absolute-ok auth_code_url (err e) h = absurd (err≢ok h)
  absolute-ok auth_code_url (ok u) h =
      elim (Bool-cases (urls.scheme u == "" || urls.host u == "")) [
        | inl e ↦ absurd (err≢ok (rw e at h))
        | inr e ↦ rw e at h
      ]

  -- A portal is told how to ask for a step-up only where step-ups are enabled under a configuration
  -- that a step-up itself would accept, and it is told that configuration.
  pub step_up_extensions-Told :
      (spec : Option OidcStepUp) (auth_code_url : String) (entries : Dict String)
      → step_up_extensions urls spec auth_code_url ≡ ok (some entries)
      → Told urls spec auth_code_url entries
  unfolding step_up_extensions
  step_up_extensions-Told spec auth_code_url entries h = go (resolve_step_up spec) refl h
    where
      go :
          (config : Option StepUpConfig)
          → resolve_step_up spec ≡ config
          → extensions_of urls config auth_code_url ≡ ok (some entries)
          → Told urls spec auth_code_url entries
      go none e h = cc (ok-injective h)
      go (some cfg) e h =
          let ((u, valid), rest) = next-ok _ _ h in
          let (address, found, same) = bind-ok _ _ rest in
          record {
            cfg = cfg;
            enabled = e;
            well = (validate_iff cfg).0 valid;
            address = address;
            parsed = absolute-ok auth_code_url _ found;
            exact = cc (ok-injective same);
          }
