-- ===== src/Go/Act/Keeping.antt =====
-- Actions that keep a property of the world, whether they succeed or fail.
use authn.Go.Error.{Error}
use authn.Go.Act.{Result, ok, err, Act, after, rewrap, return, lift, or_fail, ◌>>=◌}

pub record Preserving {W A : Type 0} (P : W → Type 0) (m : Act W A) : Type 0 where
  pub keep : (w : W) → P w → P (m w).1

module _ {W A : Type 0} where
  rewrap-keep : (P : W → Type 0) (g : Error → Error) (x : Result A × W) → P x.1 → P (rewrap g x).1
  unfolding rewrap
  rewrap-keep P g (ok a, w) p = p
  rewrap-keep P g (err e, w) p = p

  after-keep :
      {B : Type 0} (P : W → Type 0) (x : Result A × W) (f : A → Act W B)
      → P x.1
      → ((a : A) → Preserving P (f a))
      → P (after x f).1
  unfolding after
  after-keep P (ok a, w) f p k = (k a).keep w p
  after-keep P (err e, w) f p k = p

module _ {W A : Type 0} {P : W → Type 0} where
  pub bind_keeps :
      {B : Type 0} {m : Act W A} {f : A → Act W B}
      → Preserving P m
      → ((a : A) → Preserving P (f a))
      → Preserving P (m >>= f)
  bind_keeps {m} {f} k h = record { keep = λ w p. after-keep P (m w) f (k.keep w p) h }

  pub or_fail_keeps :
      {m : Act W A} (g : Error → Error) → Preserving P m → Preserving P (or_fail m g)
  or_fail_keeps {m} g k = record { keep = λ w p. rewrap-keep P g (m w) (k.keep w p) }

  pub lift_keeps : {r : Result A} → Preserving P (lift r)
  lift_keeps = record { keep = λ w p. p }

  pub return_keeps : {a : A} → Preserving P (return a)
  return_keeps = record { keep = λ w p. p }
