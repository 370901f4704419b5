-- ===== src/Renewal/Laws.antt =====
-- When a certificate is renewed, and how long the renewer waits (renewal.go).
use authn.Prelude.{String, inl, inr, Option, none, some, arith, Bool-cases}
use authn.Prelude.Int.{ℤ, pos, ◌≤ℤ◌, ◌<ℤ◌, ◌+ℤ◌, ◌-ℤ◌, ltb_ℤ, ltb_ℤ→le, +ℤ_parts, -ℤ_parts}
use authn.Go.Time.{Time, Duration, since, add}
use authn.Go.Act.{Result, ok, err}
use authn.Cert.{Certificate}
use authn.Cluster.{Secret}
use authn.Renewal.{
  Cluster, Renewer, sleep_for, min_sleep, renew_at, ensure, issue, issued, scheduled,
  kept_or_issued, until, due_of, Outcome,
}

sleep_for-min : (d : Duration) → min_sleep ≤ℤ sleep_for d
unfolding sleep_for
sleep_for-min d = ground arith

module _ {W F : Type 0} (cluster : Cluster W F) (r : Renewer F) where
  -- The wait of an outcome is not below the floor.
  abbrev Slow : Outcome cluster → Type 0
  Slow x = min_sleep ≤ℤ x.0.0

  scheduled-Slow : (w : W) (x : Result Certificate) → Slow (scheduled cluster r w x)
  scheduled-Slow w (ok crt) = sleep_for-min _
  scheduled-Slow w (err e) = sleep_for-min _

  issued-Slow : (x : Result String × W) → Slow (issued cluster r x)
  issued-Slow (ok text, w) = scheduled-Slow _ _
  issued-Slow (err e, w) = omega arith

  issue-Slow : (w : W) → Slow (issue cluster r w)
  unfolding issue
  issue-Slow w = issued-Slow _

  kept_or_issued-Slow :
      (x : Result (Option (Certificate × Secret)) × W) → Slow (kept_or_issued cluster r x)
  kept_or_issued-Slow (err e, w) = omega arith
  kept_or_issued-Slow (ok none, w) = issue-Slow w
  kept_or_issued-Slow (ok (some (crt, sec)), w) =
      elim (Bool-cases (ltb_ℤ (pos 0) (until cluster (due_of cluster r crt) w))) [
        | inl e ↦ rw e (sleep_for-min _)
        | inr e ↦ rw e (issue-Slow w)
      ]

  -- Whatever is stored, and whether reading it or issuing another fails, the renewer waits at least a
  -- minute before it checks again.
  pub ensure-min_sleep : (w : W) → min_sleep ≤ℤ (ensure cluster r w).0.0
  unfolding ensure
  ensure-min_sleep w = kept_or_issued-Slow _

-- A scaling by a threshold between none and all of a lifetime.
abbrev pub Partial : (Duration → Duration) → Type 0
Partial scale = (d : Duration) → pos 0 <ℤ d → (pos 0 ≤ℤ scale d) × (scale d ≤ℤ d)

within :
    (nb na d life : ℤ)
    → pos 0 ≤ℤ d
    → d ≤ℤ life
    → life ≤ℤ na -ℤ nb
    → (nb ≤ℤ nb +ℤ d) × (nb +ℤ d ≤ℤ na)
within nb na d life h k l =
    (omega (arith, +ℤ_parts nb d), omega (arith, +ℤ_parts nb d, -ℤ_parts na nb))

since-positive : (t u : Time) → pos 0 <ℤ since t u → since t u ≤ℤ t -ℤ u
unfolding since
since-positive t u h = ground arith

-- A certificate with a positive lifetime falls due for renewal within its validity, whatever part of
-- the lifetime the threshold takes.
pub renew_at-within :
    (scale : Duration → Duration) (not_before not_after : Time)
    → Partial scale
    → pos 0 <ℤ since not_after not_before
    → (not_before ≤ℤ renew_at scale not_before not_after)
      × (renew_at scale not_before not_after ≤ℤ not_after)
unfolding renew_at add
renew_at-within scale nb na partial positive =
    let life : Duration = since na nb in
    let (low, high) = partial (since na nb) positive in
    elim (Bool-cases (ltb_ℤ (pos 0) (since na nb))) [
      | inl e ↦ rw e (
          within nb na (scale (since na nb)) (since na nb) low high (since-positive na nb positive))
      | inr e ↦
          let past : since na nb ≤ℤ pos 0 = ltb_ℤ→le (pos 0) (since na nb) e in absurd (omega arith)
    ]
