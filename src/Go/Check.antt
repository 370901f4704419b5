-- ===== src/Go/Check.antt =====
-- Chains of checks without a world: `if err != nil { return err }` and `if !test { return err }`.
use authn.Prelude.{◌≡◌, refl, Bool, true, false, if◌then◌else◌}
use authn.Go.Error.{Error}
use authn.Go.Act.{Result, ok, err, err≢ok}

infixl 5 ◌>>=◌ ◌>>◌
unfoldable pub ◌>>=◌ : {A B : Type 0} → Result A → (A → Result B) → Result B
ok a >>= f = f a
err e >>= f = err e

unfoldable pub ◌>>◌ : {A B : Type 0} → Result A → Result B → Result B
ok a >> r = r
err e >> r = err e

unfoldable pub require : Bool → Error → Result (Unit {0})
require test e = if test then ok tt else err e

-- `fmt.Errorf("...: %w", err)` around the error of a failed step.
unfoldable pub or_err : {A : Type 0} → Result A → (Error → Error) → Result A
or_err (ok a) f = ok a
or_err (err e) f = err (f e)

abbrev pub return : {A : Type 0} → A → Result A
return a = ok a

module _ {A B : Type 0} where
  pub bind-ok :
      (r : Result A) (f : A → Result B) {b : B}
      → r >>= f ≡ ok b
      → (a : A) × (r ≡ ok a) × (f a ≡ ok b)
  unfolding ◌>>=◌
  bind-ok (ok a) f h = (a, refl, h)
  bind-ok (err e) f h = absurd (err≢ok h)

  pub ok-bind :
      (r : Result A) (f : A → Result B) (a : A) {b : B} → r ≡ ok a → f a ≡ ok b → r >>= f ≡ ok b
  unfolding ◌>>=◌
  ok-bind r f a e h = rw (e, ◌>>=◌) h

  pub next-ok :
      (r : Result A) (q : Result B) {b : B} → r >> q ≡ ok b → ((a : A) × (r ≡ ok a)) × (q ≡ ok b)
  unfolding ◌>>◌
  next-ok (ok a) q h = ((a, refl), h)
  next-ok (err e) q h = absurd (err≢ok h)

  pub ok-next : (r : Result A) (q : Result B) (a : A) {b : B} → r ≡ ok a → q ≡ ok b → r >> q ≡ ok b
  unfolding ◌>>◌
  ok-next r q a e h = rw (e, ◌>>◌) h

pub require-ok : (test : Bool) (e : Error) {u : Unit {0}} → require test e ≡ ok u → test ≡ true
unfolding require
require-ok true e h = refl
require-ok false e h = absurd (err≢ok h)

pub ok-require : (test : Bool) (e : Error) → test ≡ true → require test e ≡ ok tt
unfolding require
ok-require test e h = rw h

module _ {A : Type 0} where
  pub or_err-ok : (r : Result A) (f : Error → Error) {a : A} → or_err r f ≡ ok a → r ≡ ok a
  unfolding or_err
  or_err-ok (ok a) f h = h
  or_err-ok (err e) f h = absurd (err≢ok h)

  pub ok-or_err : (r : Result A) (f : Error → Error) {a : A} → r ≡ ok a → or_err r f ≡ ok a
  unfolding or_err
  ok-or_err r f e = rw (e, or_err)
