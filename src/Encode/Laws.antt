-- ===== src/Encode/Laws.antt =====
-- How long an issued token lives (success.go).
use authn.Encode.{Answer, Response, answered, refusal, answer, handle}
use authn.Go.Act.{Result, ok, err, Act}
use authn.Status.{Status}
use authn.Prelude.{◌≡◌, ap, ◌≢◌, refl, Bool, false, arith, if◌then◌else◌}
use authn.Prelude.Int.{pos, negsuc, ◌≤ℤ◌, ◌-ℤ◌, ◌+ℤ◌, ltb_ℤ, +ℤ_parts, -ℤ_parts}
use authn.Go.Time.{Time, Duration, is_zero, since, min_duration}
use authn.Encode.{token_duration, requested_or_default}

is_zero_ne : (t : Time) → t ≢ pos 0 → is_zero t ≡ false
unfolding is_zero
is_zero_ne (pos n) ne = ground arith
is_zero_ne (negsuc n) ne = refl

-- The difference of two instants is at most what `Sub` gives, unless that is the largest duration.
since-remaining :
    (t u : Time) (d : Duration) → min_duration ≤ℤ t -ℤ u → d ≤ℤ since t u → u +ℤ d ≤ℤ t
unfolding since
since-remaining t u d low h = ground (arith, -ℤ_parts t u, +ℤ_parts u d)

clamp_le : (left requested : Duration) → (if ltb_ℤ left requested then left else requested) ≤ℤ left
clamp_le left requested = ground arith

clamp_le_requested :
    (expired : Bool) (left requested : Duration)
    → (if expired then requested else if ltb_ℤ left requested then left else requested) ≤ℤ requested
clamp_le_requested expired left requested = ground arith

-- A token given with a certificate never outlives it, whatever duration was asked for, as long as
-- the certificate did not expire longer ago than a duration can say.
pub token_duration-within :
    (now : Time) (requested : Duration) (not_after : Time)
    → not_after ≢ pos 0
    → min_duration ≤ℤ not_after -ℤ now
    → now +ℤ token_duration now requested not_after ≤ℤ not_after
unfolding token_duration
token_duration-within now requested not_after ne low = rw (is_zero_ne not_after ne) (
    since-remaining not_after now _ low
      (clamp_le (since not_after now) (requested_or_default requested)))

-- A token never lives longer than was asked for, or than eight hours where nothing was, and it lives
-- exactly as long where there is no certificate.
pub token_duration-requested :
    (now : Time) (requested : Duration) (not_after : Time)
    → (token_duration now requested not_after ≤ℤ requested_or_default requested)
      × (not_after ≡ pos 0
          → token_duration now requested not_after ≡ requested_or_default requested)
unfolding token_duration is_zero
token_duration-requested now requested not_after = (
  clamp_le_requested (is_zero not_after) (since not_after now) (requested_or_default requested),
  λ e. rw e refl,
)

module _ {W D : Type 0} where
  -- A handler that answers with a response ran its chain to the end.
  pub handle-answered :
      (m : Act W (Answer D)) (r : Response D) (w w' : W)
      → handle m w ≡ (answered r, w')
      → m w ≡ (ok (answered r), w')
  unfolding handle
  handle-answered m r w w' h = go (m w) h
    where
      go : (x : Result (Answer D) × W) → answer x ≡ (answered r, w') → x ≡ (ok (answered r), w')
      go (ok a, v) e = ap (λ p. (ok p.0, p.1)) e
      go (err e', v) e = absurd (unanswered (ap (λ p. p.0) e))
        where
          unanswered : {s : Status} → refusal s ≡ answered r → ⊥
          unanswered p = cc
