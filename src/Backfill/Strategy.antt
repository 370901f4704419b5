-- ===== src/Backfill/Strategy.antt =====
-- go/authn/internal/identitybackfill/backfill.go: which strategy issued a credential, as far as the
-- cluster proves it.
use authn.Prelude.{
  String, ◌≡◌, ap, inl, inr, Bool, true, false, not, ◌&&◌, [], ◌∷◌, ◌==◌, eq_iff, if◌then◌else◌,
  Bool-cases,
}
use authn.Go.Error.{wrapf, str, is_not_found}
use authn.Go.Act.{Result, ok, err, ok-injective, Act, ◌>>=◌, or_fail, return}
use authn.Go.Act.Triple.{Triple, Always, bind, or_fails, calls, returns}
use authn.Basic.{user_get, Login}
use authn.ServiceAccount.Mapping.{Resolver, service_account_mapping_get}

-- Lookup
pub record Lookup (W : Type 0) : Type 0 where
  pub service_account_mapping_exists : String → Act W Bool
  pub basic_user_exists : String → Act W Bool

module _ {W : Type 0} where
  abbrev exists_in : {A : Type 0} → Result A × W → Result Bool × W
  exists_in (ok a, w) = (ok true, w)
  exists_in (err e, w) = if is_not_found e then (ok false, w) else (err e, w)

  -- exists
  unfoldable pub exists : {A : Type 0} → Act W A → Act W Bool
  exists get w = exists_in (get w)

  -- clusterLookup
  unfoldable pub cluster_lookup : Resolver W → Login W → Lookup W
  cluster_lookup res basic = record {
    service_account_mapping_exists = λ username. exists (service_account_mapping_get res username);
    basic_user_exists = λ username. exists (user_get basic username);
  }

  module _ (identities : Lookup W) (self : String) where
    abbrev proved : Bool → Bool → String
    proved sa basic =
        if sa && not basic then "serviceaccount" else if basic && not sa then "basic" else "unknown"

    abbrev pub declared : String → Act W String
    declared username = do
      sa ←
          or_fail (identities.service_account_mapping_exists username)
            (wrapf "looking up a ServiceAccount mapping for %q: %w" (str username ∷ []))
      basic ←
          or_fail (identities.basic_user_exists username)
            (wrapf "looking up a basic User for %q: %w" (str username ∷ []))
      return (proved sa basic)

    -- strategyOf
    unfoldable pub strategy_of : String → Act W String
    strategy_of username w = if username == self then (ok "self", w) else declared username w

    abbrev Says : (String → Act W Bool) → String → Bool → Type 0
    Says ask username b = (v : W) × (u : W) × (ask username v ≡ (ok b, u))

    -- What is known where a strategy is recorded for a username: `unknown` where the cluster has
    -- both kinds of identity or neither.
    pub data Proven (username : String) : String → Type 0 where
      own : username ≡ self → Proven username "self"
      mapped :
          Says identities.service_account_mapping_exists username true
          → Says identities.basic_user_exists username false
          → Proven username "serviceaccount"
      with_password :
          Says identities.service_account_mapping_exists username false
          → Says identities.basic_user_exists username true
          → Proven username "basic"
      unproven :
          (b : Bool)
          → Says identities.service_account_mapping_exists username b
          → Says identities.basic_user_exists username b
          → Proven username "unknown"

    proved-Proven :
        (username : String) (sa basic : Bool)
        → Says identities.service_account_mapping_exists username sa
        → Says identities.basic_user_exists username basic
        → Proven username (proved sa basic)
    proved-Proven username true true s b = unproven true s b
    proved-Proven username true false s b = mapped s b
    proved-Proven username false true s b = with_password s b
    proved-Proven username false false s b = unproven false s b

    declared-Proven :
        (username : String) → Triple Always (declared username) (λ s _. Proven username s)
    declared-Proven username =
        bind {Mid = λ sa _. Says identities.service_account_mapping_exists username sa}
          (or_fails _ (calls (λ w p sa u e. (w, u, e))))
          (λ sa.
            bind
              {Mid = λ basic _.
                Says identities.service_account_mapping_exists username sa
                × Says identities.basic_user_exists username basic}
              (or_fails _ (calls (λ w p basic u e. (p, (w, u, e)))))
              (λ basic. returns (λ w p. proved-Proven username sa basic p.0 p.1)))

    -- A strategy is recorded only where the cluster proves it, and `unknown` only where the cluster
    -- has both kinds of identity for the username or neither.
    pub strategy_of-Proven :
        (username strategy : String) (w u : W)
        → strategy_of username w ≡ (ok strategy, u)
        → Proven username strategy
    unfolding strategy_of
    strategy_of-Proven username strategy w u h = elim (Bool-cases (username == self)) [
      | inl e ↦ rw (← ok-injective (ap (λ x. x.0) (rw e at h))) (own ((eq_iff username self).0 e))
      | inr e ↦ (declared-Proven username).run w tt strategy u (rw e at h)
    ]
