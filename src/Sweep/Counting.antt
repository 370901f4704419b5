-- ===== src/Sweep/Counting.antt =====
-- The counts that a sweep returns (sweep.go).
use authn.Prelude.{
  suc, ◌+◌, ◌≤◌, String, ◌||◌, none, some, List, [], ◌∷◌, ◌==◌, arith, Bool-cases, inl, inr,
  slices_contains,
}
use authn.Go.Error.{is_conflict, is_not_found}
use authn.Go.Time.{add, before}
use authn.Go.Act.{Result, ok, err}
use authn.Cluster.{Secret}
use authn.Cert.{Certificate, parse_certificate_base64}
use authn.Storage.{is_step_up_secret_name}
use authn.Sweep.{
  Options, Counts, Outcome, effective_grace, cert_data, deletion, read, sweep_one, go_on,
  sweep_secrets, listed, sweep_namespaces, sweep,
}

-- No more Secrets were deleted or skipped than were seen.
abbrev Tallied : Counts → Type 0
Tallied res = res.deleted + res.skipped ≤ res.scanned

-- One Secret more was seen than is accounted for.
abbrev Open : Counts → Type 0
Open res = suc (res.deleted + res.skipped) ≤ res.scanned

module _ {W : Type 0} (options : Options W) where
  open options use {secrets, codec, namespaces, now}

  deletion-Tallied :
      (res : Counts) (x : Result (Unit {0}) × W) → Open res → Tallied (deletion options res x).0.0
  deletion-Tallied res (ok u, w) h = omega arith
  deletion-Tallied res (err e, w) h = elim (Bool-cases (is_conflict e || is_not_found e)) [
    | inl t ↦ rw t (omega arith)
    | inr t ↦ rw t (omega arith)
  ]

  read-Tallied :
      (ns : String) (sec : Secret) (res : Counts) (w : W) (r : Result Certificate)
      → Open res
      → Tallied (read options ns sec res w r).0.0
  read-Tallied ns sec res w (err e) h = omega arith
  read-Tallied ns sec res w (ok crt) h =
      elim (Bool-cases (before (now w) (add crt.not_after (effective_grace options)))) [
        | inl t ↦ rw t (omega arith)
        | inr t ↦ rw t (deletion-Tallied res _ h)
      ]

  sweep_one-Tallied :
      (ns : String) (sec : Secret) (res : Counts) (w : W)
      → Tallied res
      → Tallied (sweep_one options ns sec res w).0.0
  unfolding sweep_one
  sweep_one-Tallied ns sec res w h = elim (Bool-cases (is_step_up_secret_name sec.name)) [
    | inl t ↦ rw t (
        read-Tallied ns sec (record res { scanned = suc res.scanned }) w
          (parse_certificate_base64 codec (cert_data options sec)) (omega arith))
    | inr t ↦ rw t h
  ]

  go_on-Tallied :
      (x : Outcome × W) (next : Counts → W → Outcome × W)
      → Tallied x.0.0
      → ((res : Counts) (w : W) → Tallied res → Tallied (next res w).0.0)
      → Tallied (go_on options x next).0.0
  unfolding go_on
  go_on-Tallied ((res, none), w) next h k = k res w h
  go_on-Tallied ((res, some e), w) next h k = h

  sweep_secrets-Tallied :
      (ns : String) (list : List Secret) (res : Counts) (w : W)
      → Tallied res
      → Tallied (sweep_secrets options ns list res w).0.0
  unfolding sweep_secrets
  sweep_secrets-Tallied ns [] res w h = h
  sweep_secrets-Tallied ns (sec ∷ list) res w h =
      go_on-Tallied _ _ (sweep_one-Tallied ns sec res w h)
        (λ res' w' h'. sweep_secrets-Tallied ns list res' w' h')

  listed-Tallied :
      (ns : String) (res : Counts) (x : Result (List Secret) × W)
      → Tallied res
      → Tallied (listed options ns res x).0.0
  listed-Tallied ns res (ok list, w) h = sweep_secrets-Tallied ns list res w h
  listed-Tallied ns res (err e, w) h = h

  sweep_namespaces-Tallied :
      (names seen : List String) (res : Counts) (w : W)
      → Tallied res
      → Tallied (sweep_namespaces options names seen res w).0.0
  unfolding sweep_namespaces
  sweep_namespaces-Tallied [] seen res w h = h
  sweep_namespaces-Tallied (ns ∷ rest) seen res w h =
      elim (Bool-cases (ns == "" || slices_contains seen ns)) [
        | inl t ↦ rw (t, sweep_namespaces) (sweep_namespaces-Tallied rest seen res w h)
        | inr t ↦
            rw (t, sweep_namespaces)
              (go_on-Tallied _ _ (listed-Tallied ns res _ h)
                (λ res' w' h'. sweep_namespaces-Tallied rest (ns ∷ seen) res' w' h'))
      ]

  -- A sweep counts no more Secrets as deleted or skipped than it counts as seen, also where it ends
  -- with an error.
  pub sweep-counts :
      (w : W)
      → (sweep options w).0.0.deleted + (sweep options w).0.0.skipped
        ≤ (sweep options w).0.0.scanned
  unfolding sweep
  sweep-counts w = sweep_namespaces-Tallied namespaces [] _ w (omega arith)
