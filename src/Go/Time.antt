-- ===== src/Go/Time.antt =====
-- Instants and durations in nanoseconds. An instant counts from Go's zero time, so that the zero
-- value of time.Time is `pos 0`.
use authn.Prelude.{ℕ, ◌+◌, ◌%◌, ◌-◌, ltb, ◌*◌, Bool, false, arith, nat_eq, if◌then◌else◌}
use authn.Prelude.Int.{
  ℤ, pos, negsuc, ◌+ℤ◌, ◌-ℤ◌, ◌≤ℤ◌, ◌<ℤ◌, sub_ℕ, pos_part, neg_part, ltb_ℤ, +ℤ_parts, -ℤ_parts,
}

abbrev pub Time : Type 0
Time = ℤ

abbrev pub Duration : Type 0
Duration = ℤ

abbrev pub second : ℕ
second = 1_000_000_000

abbrev pub minute : ℕ
minute = 60 * second

abbrev pub hour : ℕ
hour = 60 * minute

-- The largest and the smallest time.Duration (an int64).
abbrev pub max_duration : Duration
max_duration = pos 9_223_372_036_854_775_807

abbrev pub min_duration : Duration
min_duration = negsuc 9_223_372_036_854_775_807

-- t.IsZero()
unfoldable pub is_zero : Time → Bool
is_zero (pos n) = nat_eq n 0
is_zero (negsuc n) = false

-- t.Sub(u), which saturates at the ends of time.Duration
unfoldable pub since : Time → Time → Duration
since t u =
    let d = t -ℤ u in
    if ltb_ℤ max_duration d then max_duration else if ltb_ℤ d min_duration then min_duration else d

-- t.Add(d)
unfoldable pub add : Time → Duration → Time
add t d = t +ℤ d

-- An integer as Go's int64 holds it.
unfoldable pub wrap_int64 : ℤ → ℤ
wrap_int64 n =
    let r =
      (pos_part n + (18_446_744_073_709_551_616 - neg_part n % 18_446_744_073_709_551_616))
      % 18_446_744_073_709_551_616 in
    if ltb r 9_223_372_036_854_775_808 then pos r else sub_ℕ r 18_446_744_073_709_551_616

-- time.Unix(sec, 0), which keeps the seconds since the zero time in an int64
unfoldable pub unix : ℤ → Time
unfolding wrap_int64
unix sec =
    let s = wrap_int64 (pos 62_135_596_800 +ℤ sec) in
    sub_ℕ (pos_part s * second) (neg_part s * second)

-- t.Before(u)
abbrev pub before : Time → Time → Bool
before t u = ltb_ℤ t u

-- A difference that saturates is still at most a bound exactly when the true difference is,
-- for a bound below the largest duration.
pub since-le : (t u : Time) (d : Duration) → since t u ≤ℤ d → d <ℤ max_duration → t ≤ℤ u +ℤ d
unfolding since
since-le t u d h lt = ground (arith, -ℤ_parts t u, +ℤ_parts u d)
