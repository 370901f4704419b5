-- ===== src/Go/Act/Failing.antt =====
-- What holds of the error and of the world when an action fails, given what held before it.
use authn.Prelude.{◌≡◌, refl, sym, ap, ◌⊎◌, inl, inr}
use authn.Go.Error.{Error}
use authn.Go.Act.{Result, ok, err, Act, err≢ok, after, rewrap, lift, or_fail, finally, ◌>>=◌, ◌>>◌}
use authn.Go.Act.Triple.{Triple}

pub record Failing {W A : Type 0} (Pre : W → Type 0) (m : Act W A) (Post : Error → W → Type 0)
    : Type 0 where
  pub run : (w : W) → Pre w → (e : Error) (w' : W) → m w ≡ (err e, w') → Post e w'

module _ {A : Type 0} where
  abbrev error_or : Error → Result A → Error
  error_or d (ok a) = d
  error_or d (err e) = e

  pub err-injective : {e e' : Error} → Path (Result A) (err e) (err e') → e ≡ e'
  err-injective {e} h = ap (error_or e) h

module _ {W A B : Type 0} where
  -- A chain that fails has a step that fails.
  after-err :
      (x : Result A × W) (f : A → Act W B) {e : Error} {w' : W}
      → after x f ≡ (err e, w')
      → (x ≡ (err e, w')) ⊎ ((a : A) × (w : W) × (x ≡ (ok a, w)) × (f a w ≡ (err e, w')))
  unfolding after
  after-err (ok a, w) f h = inr (a, w, refl, h)
  after-err (err d, w) f h = inl (rw (err-injective (ap (λ r. r.0) h), ap (λ r. r.1) h) refl)

module _ {W A : Type 0} where
  rewrap-err :
      (g : Error → Error) (x : Result A × W) {e : Error} {w' : W}
      → rewrap g x ≡ (err e, w')
      → (e₀ : Error) × (g e₀ ≡ e) × (x ≡ (err e₀, w'))
  unfolding rewrap
  rewrap-err g (ok a, w) h = absurd (err≢ok (sym (ap (λ r. r.0) h)))
  rewrap-err g (err e₀, w) h =
      (e₀, err-injective (ap (λ r. r.0) h), ap (λ u. (err e₀, u)) (ap (λ r. r.1) h))

module _ {W A B : Type 0} {Pre : W → Type 0} {Mid : A → W → Type 0} {Post : Error → W → Type 0}
    {m : Act W A} where
  pub bind_fails :
      {f : A → Act W B}
      → Failing Pre m Post
      → Triple Pre m Mid
      → ((a : A) → Failing (Mid a) (f a) Post)
      → Failing Pre (m >>= f) Post
  bind_fails {f} fails t k = record {
    run = λ w p e w' h. elim (after-err (m w) f h) [
      | inl first ↦ fails.run w p e w' first
      | inr (a, u, first, rest) ↦ (k a).run u (t.run w p a u first) e w' rest
    ];
  }

  pub next_fails :
      {n : Act W B}
      → Failing Pre m Post
      → Triple Pre m Mid
      → ((a : A) → Failing (Mid a) n Post)
      → Failing Pre (m >> n) Post
  next_fails {n} fails t k = record {
    run = λ w p e w' h. elim (after-err (m w) (λ _. n) h) [
      | inl first ↦ fails.run w p e w' first
      | inr (a, u, first, rest) ↦ (k a).run u (t.run w p a u first) e w' rest
    ];
  }

module _ {W A : Type 0} {Pre : W → Type 0} {Post : Error → W → Type 0} where
  pub or_fail_fails :
      {m : Act W A} (g : Error → Error)
      → ((w : W) → Pre w → (e : Error) (w' : W) → m w ≡ (err e, w') → Post (g e) w')
      → Failing Pre (or_fail m g) Post
  or_fail_fails {m} g h = record {
    run = λ w p e w' eq.
        let (e₀, same, first) = rewrap-err g (m w) eq in rw (← same) (h w p e₀ w' first);
  }

  pub lift_fails :
      {r : Result A}
      → ((w : W) → Pre w → (e : Error) → r ≡ err e → Post e w)
      → Failing Pre (lift r) Post
  lift_fails {r} h = record {
    run = λ w p e w' eq. rw (← ap (λ x. x.1) eq) (h w p e (ap (λ x. x.0) eq));
  }

  -- An action that cannot fail.
  pub never_fails :
      {m : Act W A} → ((w : W) (e : Error) (w' : W) → m w ≡ (err e, w') → ⊥) → Failing Pre m Post
  never_fails h = record { run = λ w p e w' eq. absurd (h w e w' eq) }

  -- `defer`: a cleanup that keeps what is known of the error.
  pub finishes_fails :
      {m : Act W A} (cleanup : Act W (Unit {0}))
      → ((e : Error) (w : W) → Post e w → Post e (cleanup w).1)
      → Failing Pre m Post
      → Failing Pre (finally cleanup m) Post
  finishes_fails {m} cleanup keep t = record {
    run = λ w p e w' h.
        rw (← ap (λ x. x.1) h)
          (keep e (m w).1 (t.run w p e (m w).1 (ap (λ r. (r, (m w).1)) (ap (λ x. x.0) h))));
  }
