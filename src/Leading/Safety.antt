-- ===== src/Leading/Safety.antt =====
-- What the work of the leading replica keeps (main.go, renewal.go, sweep.go).
use authn.Prelude.{String, ◌≡◌, refl, true, Option, none, some, Bool-cases, inl, inr, ◌==◌}
use authn.Prelude.Int.{◌≤ℤ◌}
use authn.Cluster.{Os, get_operator_namespace}
use authn.Backfill.Safety as Backfilling
use authn.Sweep.Safety as Sweeping
use authn.Renewal.{Renewer, min_sleep}
use authn.Renewal.Laws.{ensure-min_sleep}
use authn.Renewal.Safety as Renewing
use authn.Leading.{
  Replica, Main, renewing, standing_by, returned, Leading, backfill_options, sweep_options,
  first_check, settled, own_identity, Step, due, cancelled, swept, tick, dismissed, others, Reached,
  begun, moved,
}

get_operator_namespace-world :
    {W : Type 0} (os : Os W) (w : W) → (get_operator_namespace os w).1 ≡ w
unfolding get_operator_namespace
get_operator_namespace-world os w = elim (Bool-cases (os.getenv "POD_NAMESPACE" w == "")) [
  | inl t ↦ rw t refl
  | inr t ↦ rw t refl
]

module _ {W F : Type 0} (replica : Replica W F) (Others : W → W → Type 0) where
  open replica use {cluster, renewer, cert_renewal_on}

  -- A property of worlds that all parts of the work keep, and the other writers too.
  pub record Kept (ns : String) (P : W → Type 0) : Type 0 where
    pub renewal_kept : (r : Renewer F) → renewer ≡ some r → Renewing.Kept cluster r P
    pub backfill_kept : Backfilling.Kept (backfill_options replica ns) P
    pub sweep_kept : Sweeping.Kept (sweep_options replica ns) P
    pub others_kept : (w u : W) → Others w u → P w → P u

  -- Only the replica's renewer is ever waited for, only where the renewal is enabled, and for a
  -- minute at least.
  abbrev pub Patient : Main F → Type 0
  Patient (renewing r wait) = (renewer ≡ some r) × (cert_renewal_on ≡ true) × (min_sleep ≤ℤ wait)
  Patient standing_by = Unit
  Patient returned = Unit

  settled-Patient :
      (o : Option (Renewer F)) (w : W)
      → renewer ≡ o
      → Patient (settled replica o (first_check replica o w).0)
  settled-Patient none w h = tt
  settled-Patient (some r) w h = elim (Bool-cases cert_renewal_on) [
    | inl t ↦ rw t (h, refl, ensure-min_sleep cluster r w)
    | inr t ↦ rw t tt
  ]

  module _ (ns : String) (P : W → Type 0) (kept : Kept ns P) where
    first_check-kept :
        (o : Option (Renewer F)) (w : W) → renewer ≡ o → P w → P (first_check replica o w).1
    first_check-kept none w h p = p
    first_check-kept (some r) w h p = Renewing.ensure-kept cluster r P (kept.renewal_kept r h) w p

    abbrev Sound : Leading W F → Type 0
    Sound s = P s.world × Patient s.main

    Step-Sound : (s t : Leading W F) → Step replica ns Others s t → Sound s → Sound t
    Step-Sound s t (due {r} {wait} {w = w}) (p, (has, on, slow)) = (
      Renewing.ensure-kept cluster r P (kept.renewal_kept r has) w p,
      (has, on, ensure-min_sleep cluster r w),
    )
    Step-Sound s t cancelled (p, q) = (p, tt)
    Step-Sound s t (swept {w = w}) (p, q) =
        (Sweeping.sweep-kept (sweep_options replica ns) P kept.sweep_kept w p, q)
    Step-Sound s t tick (p, q) = (p, q)
    Step-Sound s t dismissed (p, q) = (p, q)
    Step-Sound s t (others {w = w} {u} o) (p, q) = (kept.others_kept w u o p, q)

  own_identity-Sound :
      (w : W) (P : W → Type 0)
      → Kept (own_identity replica w).0 P
      → P w
      → P (own_identity replica w).1.world × Patient (own_identity replica w).1.main
  unfolding own_identity
  own_identity-Sound w P kept p =
      let ns = (own_identity replica w).0 in
      (
        Backfilling.run-kept (backfill_options replica ns) P kept.backfill_kept _ (
            rw (get_operator_namespace-world cluster.os (first_check replica renewer w).1)
              (first_check-kept ns P kept renewer w refl p)),
        settled-Patient renewer w refl,
      )

  -- In every state that the work of the leading replica reaches, in whatever order its checks, its
  -- passes and the steps of the other writers come, every property of the cluster holds that held
  -- when the replica began to lead, if the renewer, the backfill, the sweep and the others keep it;
  -- and the replica waits for its own renewer only, only where the renewal is enabled, and for a
  -- minute at least.
  pub Reached-Kept :
      (w : W) (P : W → Type 0) (s : Leading W F)
      → Kept (own_identity replica w).0 P
      → P w
      → Reached replica Others w s
      → P s.world × Patient s.main
  Reached-Kept w P s kept p begun = own_identity-Sound w P kept p
  Reached-Kept w P t kept p (moved {s} before step) =
      Step-Sound _ P kept s t step (Reached-Kept w P s kept p before)
