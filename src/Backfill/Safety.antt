-- ===== src/Backfill/Safety.antt =====
-- What a backfill may change (backfill.go).
use authn.Prelude.{
  String, ◌≡◌, refl, true, ◌&&◌, ◌||◌, List, [], ◌∷◌, ◌==◌, Bool-cases, inl, inr, slices_contains,
  Any,
}
use authn.Go.Text.{has_suffix}
use authn.Go.Dict.{Dict, has}
use authn.Go.Act.{Result, ok, err, or_fail, rewrap-ok}
use authn.Go.Act.Keeping.{Preserving, bind_keeps, or_fail_keeps, lift_keeps, return_keeps}
use authn.Cluster.{Secret, Listed}
use authn.Storage.{strategy_annotation, groups_annotation}
use authn.Backfill.Strategy.{strategy_of, declared}
use authn.Backfill.Stamping.{Stamped, missing_annotations-Derived, stamped_with-Stamped}
use authn.Backfill.{
  Options, Counts, Outcome, derived, missing_annotations, client_config_suffix, updated, stamp,
  backfill_one, backfill_secrets, after_listing, backfill_namespaces, run, listing_failure,
}

module _ {W : Type 0} (options : Options W) where
  open options use {secrets, namespaces, self_username, identities}

  -- A property of worlds that listing and looking up identities keep, and that the update of a listed
  -- Secret which only adds proved annotations keeps.
  pub record Kept (P : W → Type 0) : Type 0 where
    pub list_kept : (ns : String) → Preserving P (secrets.list ns)
    pub mapping_kept :
        (username : String) → Preserving P (identities.service_account_mapping_exists username)
    pub user_kept : (username : String) → Preserving P (identities.basic_user_exists username)
    pub update_kept :
        (ns : String) (sec sec' : Secret)
        → Listed secrets ns sec
        → Stamped options sec sec'
        → Preserving P (secrets.update sec')

  module _ (P : W → Type 0) (kept : Kept P) where
    strategy_of-kept :
        (username : String) → Preserving P (strategy_of identities self_username username)
    unfolding strategy_of
    strategy_of-kept username = record {
      keep = λ w p. elim (Bool-cases (username == self_username)) [
        | inl e ↦ rw e p
        | inr e ↦ rw e (declared_kept.keep w p)
      ];
    }
      where
        declared_kept : Preserving P (declared identities self_username username)
        declared_kept =
            bind_keeps (or_fail_keeps _ (kept.mapping_kept username))
              (λ sa. bind_keeps (or_fail_keeps _ (kept.user_kept username)) (λ basic. return_keeps))

    derived-kept : (sec : Secret) → Preserving P (derived options sec)
    derived-kept sec = bind_keeps lift_keeps (λ crt.
        bind_keeps (strategy_of-kept crt.common_name)
          (λ strategy. bind_keeps lift_keeps (λ want. return_keeps)))

    missing_annotations-kept : (sec : Secret) → Preserving P (missing_annotations options sec)
    unfolding missing_annotations
    missing_annotations-kept sec = record {
      keep = λ w p.
          elim (Bool-cases
            (has strategy_annotation sec.annotations && has groups_annotation sec.annotations)) [
              | inl e ↦ rw e p
              | inr e ↦ rw e ((derived-kept sec).keep w p)
            ];
    }

    updated-kept : (res : Counts) (x : Result (Unit {0}) × W) → P x.1 → P (updated options res x).1
    updated-kept res (ok u, w) p = p
    updated-kept res (err e, w) p = p

    stamp-kept :
        (ns : String) (sec : Secret) (res : Counts) (w : W) (x : Result (Dict String) × W)
        → Listed secrets ns sec
        → has_suffix sec.name client_config_suffix ≡ true
        → missing_annotations options sec w ≡ x
        → P x.1
        → P (stamp options sec res x).1
    stamp-kept ns sec res w (err e, u) l s q p = p
    stamp-kept ns sec res w (ok [], u) l s q p = p
    stamp-kept ns sec res w (ok (entry ∷ missing), u) l s q p = updated-kept res _ (
        (kept.update_kept ns sec _ l (
            stamped_with-Stamped options sec (entry ∷ missing) s
              (missing_annotations-Derived options sec entry missing w u q))).keep
          u p)

    backfill_one-kept :
        (ns : String) (sec : Secret) (res : Counts) (w : W)
        → Listed secrets ns sec
        → P w
        → P (backfill_one options sec res w).1
    unfolding backfill_one
    backfill_one-kept ns sec res w l p =
        elim (Bool-cases (has_suffix sec.name client_config_suffix)) [
          | inl t ↦
              rw t (stamp-kept ns sec _ w _ l t refl ((missing_annotations-kept sec).keep w p))
          | inr t ↦ rw t p
        ]

    backfill_secrets-kept :
        (ns : String) (list : List Secret) (res : Counts) (w : W)
        → ((sec : Secret) → Any (λ s. s ≡ sec) list → Listed secrets ns sec)
        → P w
        → P (backfill_secrets options list res w).1
    unfolding backfill_secrets
    backfill_secrets-kept ns [] res w l p = p
    backfill_secrets-kept ns (sec ∷ list) res w l p =
        backfill_secrets-kept ns list _ _ (λ s m. l s (inr m))
          (backfill_one-kept ns sec res w (l sec (inl refl)) p)

    after_listing-kept :
        (ns : String) (res : Counts) (v : W) (x : Result (List Secret) × W)
        (next : Counts → W → Outcome × W)
        → or_fail (secrets.list ns) (listing_failure options ns) v ≡ x
        → P x.1
        → ((res : Counts) (w : W) → P w → P (next res w).1)
        → P (after_listing options res x next).1
    after_listing-kept ns res v (ok list, w) next e p k = k _ _ (
        backfill_secrets-kept ns list res w
          (λ sec m. record {
            before = v;
            later = w;
            list = list;
            listed = rewrap-ok (listing_failure options ns) (secrets.list ns v) e;
            member = m;
          })
          p)
    after_listing-kept ns res v (err e, w) next q p k = p

    backfill_namespaces-kept :
        (names seen : List String) (res : Counts) (w : W)
        → P w
        → P (backfill_namespaces options names seen res w).1
    unfolding backfill_namespaces
    backfill_namespaces-kept [] seen res w p = p
    backfill_namespaces-kept (ns ∷ rest) seen res w p =
        elim (Bool-cases (ns == "" || slices_contains seen ns)) [
          | inl t ↦ rw (t, backfill_namespaces) (backfill_namespaces-kept rest seen res w p)
          | inr t ↦
              rw (t, backfill_namespaces)
                (after_listing-kept ns _ w _ _ refl ((or_fail_keeps _ (kept.list_kept ns)).keep w p)
                  (λ res' w' p'. backfill_namespaces-kept rest (ns ∷ seen) res' w' p'))
        ]

  -- A backfill keeps every property of the cluster that listing Secrets and looking up identities
  -- keep and that such an update keeps: one of a session credential as a listing gave it, of nothing but
  -- its annotations, which overwrites none that the listing gave, records the groups of the certificate
  -- and a strategy that is proved.
  pub run-kept : (P : W → Type 0) → Kept P → (w : W) → P w → P (run options w).1
  unfolding run
  run-kept P kept w p = backfill_namespaces-kept P kept namespaces [] _ w p
