-- ===== src/Backfill/Settled.antt =====
-- A Secret that a backfill has annotated is left alone by the next (backfill.go).
use authn.Prelude.{String, ◌≡◌, refl, [], ◌∷◌, suc, Bool-cases, inl, inr, if◌then◌else◌}
use authn.Go.Text.{has_suffix}
use authn.Go.Dict.{Dict, has}
use authn.Go.Act.{ok}
use authn.Cluster.{Secret}
use authn.Storage.{strategy_annotation, groups_annotation}
use authn.Backfill.Annotations.{has-merge-absent_from}
use authn.Backfill.Stamping.{Derived, missing_annotations-Derived}
use authn.Backfill.{
  Options, Counts, stamped_with, missing_annotations, client_config_suffix, backfill_one,
}

module _ {W : Type 0} (options : Options W) where
  nothing_missing :
      (sec : Secret) (missing : Dict String) (v : W)
      → Derived options sec missing
      → missing_annotations options (stamped_with sec missing) v ≡ (ok [], v)
  unfolding missing_annotations stamped_with has
  nothing_missing sec missing v d = rw (
    d.exact,
    has-merge-absent_from strategy_annotation sec.annotations _ refl,
    has-merge-absent_from groups_annotation sec.annotations _ refl,
  )

  -- Once the missing annotations of a Secret are written, the next run only counts it: whatever the
  -- cluster says by then, it writes nothing and looks nothing up.
  pub backfill_one-settled :
      (sec : Secret) (entry : String × String) (missing : Dict String) (w u v : W) (res : Counts)
      → missing_annotations options sec w ≡ (ok (entry ∷ missing), u)
      → backfill_one options (stamped_with sec (entry ∷ missing)) res v ≡ (
        if has_suffix sec.name client_config_suffix
            then record res { scanned = suc res.scanned }
            else res,
        v,
      )
  unfolding backfill_one stamped_with
  backfill_one-settled sec entry missing w u v res h =
      let settled =
        nothing_missing sec _ v (missing_annotations-Derived options sec entry missing w u h) in
      elim (Bool-cases (has_suffix sec.name client_config_suffix)) [
        | inl t ↦ rw (t, settled) refl
        | inr t ↦ rw t refl
      ]
