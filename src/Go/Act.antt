-- ===== src/Go/Act.antt =====
-- Calls that read or change the outside world (the Kubernetes API, an identity provider, the
-- clock), as functions from a world to a result and the world after the call.
pub mod Failing
pub mod Keeping
pub mod Triple
use mathlib.Core.Path.{subst}
use authn.Prelude.{◌≡◌, refl, sym, ap, ◌⊎◌, inl, inr, Option, none, some}
use authn.Go.Error.{Error}

pub data Result {ℓ} (A : Type ℓ) : Type ℓ where
  ok : A → Result A
  err : Error → Result A

module _ {ℓ} {A : Type ℓ} where
  abbrev pub failure_of : Result A → Option Error
  failure_of (ok a) = none
  failure_of (err e) = some e

  abbrev value_or : A → Result A → A
  value_or d (ok a) = a
  value_or d (err e) = d

  pub ok-injective : {a b : A} → ok a ≡ ok b → a ≡ b
  ok-injective {a} h = ap (value_or a) h

  abbrev pub IsOk : Result A → Type 0
  IsOk (ok a) = Unit
  IsOk (err e) = ⊥

  abbrev pub IsErr : Result A → Type 0
  IsErr (ok a) = ⊥
  IsErr (err e) = Unit

  pub err≢ok : {a : A} {e : Error} → err e ≡ ok a → ⊥
  err≢ok h = subst IsOk (sym h) tt

  pub Result-cases : (r : Result A) → ((a : A) × (r ≡ ok a)) ⊎ ((e : Error) × (r ≡ err e))
  Result-cases (ok a) = inl (a, refl)
  Result-cases (err e) = inr (e, refl)

abbrev pub Act : Type 0 → Type 0 → Type 0
Act W A = W → Result A × W

module _ {W : Type 0} where
  unfoldable pub after : {A B : Type 0} → Result A × W → (A → Act W B) → Result B × W
  after (ok a, w) f = f a w
  after (err e, w) f = (err e, w)

  abbrev pub return : {A : Type 0} → A → Act W A
  return a w = (ok a, w)

  abbrev pub throw : {A : Type 0} → Error → Act W A
  throw e w = (err e, w)

  infixl 5 ◌>>=◌ ◌>>◌
  abbrev pub ◌>>=◌ : {A B : Type 0} → Act W A → (A → Act W B) → Act W B
  ◌>>=◌ m f w = after (m w) f

  abbrev pub ◌>>◌ : {A B : Type 0} → Act W A → Act W B → Act W B
  ◌>>◌ m k w = after (m w) (λ _. k)

  unfoldable pub rewrap : {A : Type 0} → (Error → Error) → Result A × W → Result A × W
  rewrap f (ok a, w) = (ok a, w)
  rewrap f (err e, w) = (err (f e), w)

  -- `if err != nil { return ..., f(err) }`
  abbrev pub or_fail : {A : Type 0} → Act W A → (Error → Error) → Act W A
  or_fail m f w = rewrap f (m w)

  -- A pure computation that may fail.
  abbrev pub lift : {A : Type 0} → Result A → Act W A
  lift r w = (r, w)

  -- An action that cannot fail.
  abbrev pub always : {A : Type 0} → (W → A × W) → Act W A
  always f w = (ok (f w).0, (f w).1)

module _ {W A B : Type 0} where
  -- A chain that succeeds has a first step that succeeds.
  pub after-ok :
      (x : Result A × W) (f : A → Act W B) {b : B} {w' : W}
      → after x f ≡ (ok b, w')
      → (a : A) × (w : W) × (x ≡ (ok a, w)) × (f a w ≡ (ok b, w'))
  unfolding after
  after-ok (ok a, w) f h = (a, w, refl, h)
  after-ok (err e, w) f h = absurd (err≢ok (ap (λ p. p.0) h))

module _ {W A : Type 0} where
  pub rewrap-ok :
      (f : Error → Error) (x : Result A × W) {a : A} {w' : W}
      → rewrap f x ≡ (ok a, w')
      → x ≡ (ok a, w')
  unfolding rewrap
  rewrap-ok f (ok a, w) h = h
  rewrap-ok f (err e, w) h = absurd (err≢ok (ap (λ p. p.0) h))

  pub lift-ok :
      (r : Result A) (w : W) {a : A} {w' : W} → lift r w ≡ (ok a, w') → (r ≡ ok a) × (w ≡ w')
  lift-ok r w h = (ap (λ p. p.0) h, ap (λ p. p.1) h)

  -- `defer`: the cleanup runs however the body ends, and its own result is dropped.
  abbrev pub finally : Act W (Unit {0}) → Act W A → Act W A
  finally cleanup body w = let (r, u) = body w in (r, (cleanup u).1)

module _ {W A B : Type 0} where
  -- A chain whose first step succeeds goes on with its result, and one whose first step fails fails.
  pub ok-after :
      {x : Result A × W} (f : A → Act W B) (a : A) (w : W) {r : Result B × W}
      → x ≡ (ok a, w)
      → f a w ≡ r
      → after x f ≡ r
  unfolding after
  ok-after f a w e h = rw (e, after) h

  pub err-after :
      {x : Result A × W} (f : A → Act W B) (e : Error) (w : W)
      → x ≡ (err e, w)
      → after x f ≡ (err e, w)
  unfolding after
  err-after f e w h = rw (h, after)
