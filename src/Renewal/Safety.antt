-- ===== src/Renewal/Safety.antt =====
-- What a check of the service's own certificate may change (renewal.go).
use authn.Prelude.{◌≡◌, refl, String, ◌==◌, Bool-cases, inl, inr}
use authn.Prelude.Int.{pos, ltb_ℤ}
use authn.Go.Error.{is_not_found}
use authn.Go.Act.{Result, ok, err}
use authn.Go.Act.Keeping.{Preserving}
use authn.Cert.{Certificate, parse_certificate_base64}
use authn.Cluster.{Secret}
use authn.Renewal.{
  Cluster, Renewer, parsed, held, read_back, current, want, is_stale, annotated, sync_annotations,
  annotate_read, annotate, until, due_of, scheduled, issued, issue, kept_or_issued, ensure,
}

module _ {W F : Type 0} (cluster : Cluster W F) (r : Renewer F) where
  open cluster use {formats, secrets, signup}

  -- A property of worlds that reading the renewer's Secret and issuing its certificate keep, and
  -- that adding the annotations of its certificate to that Secret, as it was just read, keeps.
  pub record Kept (P : W → Type 0) : Type 0 where
    pub get_kept : Preserving P (secrets.get r.namespace r.secret)
    pub signup_kept : Preserving P (signup r)
    pub update_kept :
        (sec : Secret) (w u : W)
        → secrets.get r.namespace r.secret w ≡ (ok sec, u)
        → P u
        → P (secrets.update (annotated cluster sec) u).1

  module _ (P : W → Type 0) (kept : Kept P) where
    sync_annotations-kept :
        (sec : Secret) (w u : W)
        → secrets.get r.namespace r.secret w ≡ (ok sec, u)
        → P u
        → P (sync_annotations cluster sec u)
    unfolding sync_annotations
    sync_annotations-kept sec w u h p =
        elim (Bool-cases (is_stale sec.annotations (want cluster sec))) [
          | inl t ↦ rw t (kept.update_kept sec w u h p)
          | inr t ↦ rw t p
        ]

    annotate_read-kept :
        (w : W) (x : Result Secret × W)
        → secrets.get r.namespace r.secret w ≡ x
        → P x.1
        → P (annotate_read cluster x)
    annotate_read-kept w (ok sec, u) h p = sync_annotations-kept sec w u h p
    annotate_read-kept w (err e, u) h p = p

    annotate-kept : (w : W) → P w → P (annotate cluster r w)
    unfolding annotate
    annotate-kept w p = annotate_read-kept w _ refl (kept.get_kept.keep w p)

    scheduled-kept : (w : W) (c : Result Certificate) → P w → P (scheduled cluster r w c).1
    scheduled-kept w (ok crt) p = p
    scheduled-kept w (err e) p = p

    issued-kept : (x : Result String × W) → P x.1 → P (issued cluster r x).1
    issued-kept (ok text, w) p = scheduled-kept _ _ (annotate-kept w p)
    issued-kept (err e, w) p = p

    issue-kept : (w : W) → P w → P (issue cluster r w).1
    unfolding issue
    issue-kept w p = issued-kept _ (kept.signup_kept.keep w p)

    parsed-kept :
        (sec : Secret) (x : Result Certificate) (w u : W)
        → secrets.get r.namespace r.secret w ≡ (ok sec, u)
        → P u
        → P (kept_or_issued cluster r (ok (parsed cluster sec x), u)).1
    parsed-kept sec (err e) w u h p = issue-kept u p
    parsed-kept sec (ok crt) w u h p =
        elim (Bool-cases (ltb_ℤ (pos 0) (until cluster (due_of cluster r crt) u))) [
          | inl t ↦ rw t (sync_annotations-kept sec w u h p)
          | inr t ↦ rw t (issue-kept u p)
        ]

    held-kept :
        (sec : Secret) (text : String) (w u : W)
        → secrets.get r.namespace r.secret w ≡ (ok sec, u)
        → P u
        → P (kept_or_issued cluster r (ok (held cluster sec text), u)).1
    held-kept sec text w u h p = elim (Bool-cases (text == "")) [
      | inl t ↦ rw t (issue-kept u p)
      | inr t ↦ rw t (parsed-kept sec (parse_certificate_base64 formats.codec text) w u h p)
    ]

    read_back-kept :
        (w : W) (x : Result Secret × W)
        → secrets.get r.namespace r.secret w ≡ x
        → P x.1
        → P (kept_or_issued cluster r (read_back cluster x)).1
    read_back-kept w (ok sec, u) h p = held-kept sec _ w u h p
    read_back-kept w (err e, u) h p = elim (Bool-cases (is_not_found e)) [
      | inl t ↦ rw t (issue-kept u p)
      | inr t ↦ rw t p
    ]

    -- A check of the certificate keeps every property of the cluster that reading the renewer's own
    -- Secret, issuing its certificate and annotating that Secret as it was just read keep: it writes
    -- nothing else.
    pub ensure-kept : (w : W) → P w → P (ensure cluster r w).1
    unfolding ensure current
    ensure-kept w p = read_back-kept w _ refl (kept.get_kept.keep w p)
