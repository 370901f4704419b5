-- ===== src/Renewal/Annotations.antt =====
-- Bringing a Secret's annotations in line with its certificate (renewal.go).
use text.Mathlib.TextPositions.{eq_refl}
use authn.Prelude.{String, ◌≡◌, refl, ◌∙◌, false, none, some, [], ◌∷◌}
use authn.Go.Dict.{Dict, lookup, insert, merge, text_at, lookup-insert_self, lookup-merge_ne}
use authn.Go.Act.{Result, ok, err}
use authn.Cert.{Certificate}
use authn.Cluster.{Secret}
use authn.Storage.{
  client_cert_label, cert_validity_annotations, identity_annotations, not_before_annotation,
  not_after_annotation, validity,
}
use authn.Storage.Writes.{identity_annotations-Identified}
use authn.Renewal.{Cluster, is_stale, want, wanted, with_identity, annotated, sync_annotations}

-- No key stands in the map twice.
abbrev DistinctKeys : Dict String → Type 0
DistinctKeys [] = Unit
DistinctKeys ((k, v) ∷ d) = (lookup k d ≡ none) × DistinctKeys d

-- The map has every entry of the other.
abbrev Holds : Dict String → Dict String → Type 0
Holds have [] = Unit
Holds have ((k, v) ∷ entries) = (lookup k have ≡ some v) × Holds have entries

merge-Holds :
    (have entries : Dict String) → DistinctKeys entries → Holds (merge have entries) entries
unfolding merge
merge-Holds have [] d = tt
merge-Holds have ((k, v) ∷ entries) (fresh, d) = (
  lookup-merge_ne k (insert k v have) entries fresh ∙ lookup-insert_self k v have,
  merge-Holds (insert k v have) entries d,
)

Holds-is_stale : (have entries : Dict String) → Holds have entries → is_stale have entries ≡ false
unfolding is_stale
Holds-is_stale have [] h = refl
Holds-is_stale have ((k, v) ∷ entries) (there, h) =
    rw (there, eq_refl v) (Holds-is_stale have entries h)

module _ {W F : Type 0} (cluster : Cluster W F) where
  open cluster use {formats}

  with_identity-Distinct :
      (crt : Certificate) (cert : String) (r : Result (Dict String))
      → identity_annotations formats "self" cert ≡ r
      → DistinctKeys (
          with_identity cluster
            ((not_before_annotation, formats.rfc3339 crt.not_before)
              ∷ (not_after_annotation, formats.rfc3339 crt.not_after)
              ∷ [])
            r)
  unfolding lookup merge insert
  with_identity-Distinct crt cert (err e) h = (refl, (refl, tt))
  with_identity-Distinct crt cert (ok entries) h =
      let i = identity_annotations-Identified formats "self" cert entries h in
      rw i.exact (refl, (refl, (refl, (refl, tt))))

  wanted-Distinct :
      (cert : String) (r : Result Certificate)
      → DistinctKeys (wanted cluster cert (validity formats r))
  wanted-Distinct cert (err e) = tt
  wanted-Distinct cert (ok crt) = with_identity-Distinct crt cert _ refl

  want-Distinct : (sec : Secret) → DistinctKeys (want cluster sec)
  unfolding want cert_validity_annotations
  want-Distinct sec = wanted-Distinct (text_at (lookup client_cert_label sec.contents)) _

  -- A Secret that was brought in line with its certificate once is left alone from then on, whatever
  -- the certificate and the annotations it had.
  pub sync_annotations-annotated :
      (sec : Secret) (w : W) → sync_annotations cluster (annotated cluster sec) w ≡ w
  unfolding sync_annotations want
  sync_annotations-annotated sec w = rw (
      Holds-is_stale (merge sec.annotations (want cluster sec)) (want cluster sec)
        (merge-Holds sec.annotations (want cluster sec) (want-Distinct sec)))
