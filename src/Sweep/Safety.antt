-- ===== src/Sweep/Safety.antt =====
-- What a sweep may change (sweep.go).
use authn.Prelude.{
  String, ◌≡◌, refl, true, ◌||◌, none, some, List, [], ◌∷◌, ◌==◌, Bool-cases, inl, inr,
  slices_contains, Any,
}
use authn.Prelude.Int.{◌≤ℤ◌, ltb_ℤ→le}
use authn.Go.Error.{is_conflict, is_not_found}
use authn.Go.Time.{add, before}
use authn.Go.Act.{Result, ok, err}
use authn.Cluster.{Secret, Listed}
use authn.Cert.{Certificate, parse_certificate_base64}
use authn.Storage.{is_step_up_secret_name}
use authn.Sweep.{
  Options, Counts, Outcome, effective_grace, cert_data, deletion, read, sweep_one, go_on,
  sweep_secrets, listed, sweep_namespaces, sweep,
}

module _ {W : Type 0} (options : Options W) where
  open options use {secrets, codec, namespaces, now}

  -- A step-up credential whose certificate has been expired for the grace, in a world.
  pub record Expired (sec : Secret) (w : W) : Type 0 where
    pub crt : Certificate
    pub step_up : is_step_up_secret_name sec.name ≡ true
    pub parsed : parse_certificate_base64 codec (cert_data options sec) ≡ ok crt
    pub past : add crt.not_after (effective_grace options) ≤ℤ now w

  -- A property of worlds that listing keeps, and that the deletion of an expired step-up credential, as
  -- a listing gave it, keeps.
  pub record Kept (P : W → Type 0) : Type 0 where
    pub list_kept : (ns : String) (w : W) → P w → P (secrets.list ns w).1
    pub delete_kept :
        (ns : String) (sec : Secret) (w : W)
        → Listed secrets ns sec
        → Expired sec w
        → P w
        → P (secrets.delete ns sec.name sec.uid sec.resource_version w).1

  module _ (P : W → Type 0) (kept : Kept P) where
    deletion-kept :
        (res : Counts) (x : Result (Unit {0}) × W) → P x.1 → P (deletion options res x).1
    deletion-kept res (ok u, w) p = p
    deletion-kept res (err e, w) p = elim (Bool-cases (is_conflict e || is_not_found e)) [
      | inl t ↦ rw t p
      | inr t ↦ rw t p
    ]

    read-kept :
        (ns : String) (sec : Secret) (res : Counts) (w : W) (r : Result Certificate)
        → Listed secrets ns sec
        → is_step_up_secret_name sec.name ≡ true
        → parse_certificate_base64 codec (cert_data options sec) ≡ r
        → P w
        → P (read options ns sec res w r).1
    read-kept ns sec res w (err e) l s q p = p
    read-kept ns sec res w (ok crt) l s q p =
        elim (Bool-cases (before (now w) (add crt.not_after (effective_grace options)))) [
          | inl t ↦ rw t p
          | inr t ↦ rw t (
              deletion-kept res _ (
                kept.delete_kept ns sec w l
                  (record {
                    crt = crt;
                    step_up = s;
                    parsed = q;
                    past = ltb_ℤ→le (now w) (add crt.not_after (effective_grace options)) t;
                  })
                  p))
        ]

    sweep_one-kept :
        (ns : String) (sec : Secret) (res : Counts) (w : W)
        → Listed secrets ns sec
        → P w
        → P (sweep_one options ns sec res w).1
    unfolding sweep_one
    sweep_one-kept ns sec res w l p = elim (Bool-cases (is_step_up_secret_name sec.name)) [
      | inl t ↦ rw t (read-kept ns sec _ w _ l t refl p)
      | inr t ↦ rw t p
    ]

    go_on-kept :
        (x : Outcome × W) (next : Counts → W → Outcome × W)
        → P x.1
        → ((res : Counts) (w : W) → P w → P (next res w).1)
        → P (go_on options x next).1
    unfolding go_on
    go_on-kept ((res, none), w) next p k = k res w p
    go_on-kept ((res, some e), w) next p k = p

    sweep_secrets-kept :
        (ns : String) (list : List Secret) (res : Counts) (w : W)
        → ((sec : Secret) → Any (λ s. s ≡ sec) list → Listed secrets ns sec)
        → P w
        → P (sweep_secrets options ns list res w).1
    unfolding sweep_secrets
    sweep_secrets-kept ns [] res w l p = p
    sweep_secrets-kept ns (sec ∷ list) res w l p =
        go_on-kept _ _ (sweep_one-kept ns sec res w (l sec (inl refl)) p)
          (λ res' w' p'. sweep_secrets-kept ns list res' w' (λ s m. l s (inr m)) p')

    listed-kept :
        (ns : String) (res : Counts) (v : W) (x : Result (List Secret) × W)
        → secrets.list ns v ≡ x
        → P x.1
        → P (listed options ns res x).1
    listed-kept ns res v (ok list, w) e p =
        sweep_secrets-kept ns list res w
          (λ sec m. record { before = v; later = w; list = list; listed = e; member = m }) p
    listed-kept ns res v (err e, w) q p = p

    sweep_namespaces-kept :
        (names seen : List String) (res : Counts) (w : W)
        → P w
        → P (sweep_namespaces options names seen res w).1
    unfolding sweep_namespaces
    sweep_namespaces-kept [] seen res w p = p
    sweep_namespaces-kept (ns ∷ rest) seen res w p =
        elim (Bool-cases (ns == "" || slices_contains seen ns)) [
          | inl t ↦ rw (t, sweep_namespaces) (sweep_namespaces-kept rest seen res w p)
          | inr t ↦
              rw (t, sweep_namespaces)
                (go_on-kept _ _ (listed-kept ns res w _ refl (kept.list_kept ns w p))
                  (λ res' w' p'. sweep_namespaces-kept rest (ns ∷ seen) res' w' p'))
        ]

  -- A sweep keeps every property of the cluster that listing Secrets keeps and that deleting an
  -- expired step-up credential keeps, in the namespace in which it was listed and under the very name,
  -- UID and version that the listing gave. So it deletes nothing else: no session credential, none
  -- whose certificate cannot be read, and none before its certificate has been expired for the grace.
  pub sweep-kept : (P : W → Type 0) → Kept P → (w : W) → P w → P (sweep options w).1
  unfolding sweep
  sweep-kept P kept w p = sweep_namespaces-kept P kept namespaces [] _ w p
