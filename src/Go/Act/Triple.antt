-- ===== src/Go/Act/Triple.antt =====
-- What holds of the result and of the world when an action succeeds, given what held before it.
use authn.Prelude.{◌≡◌, ap}
use authn.Go.Error.{Error}
use authn.Go.Act.{
  Result, ok, Act, ok-injective, after-ok, rewrap-ok, return, lift, or_fail, finally, ◌>>=◌, ◌>>◌,
}

pub record Triple {W A : Type 0} (Pre : W → Type 0) (m : Act W A) (Post : A → W → Type 0)
    : Type 0 where
  pub run : (w : W) → Pre w → (a : A) (w' : W) → m w ≡ (ok a, w') → Post a w'

-- Nothing is asked.
abbrev pub Always : {W : Type 0} → W → Type 0
Always w = Unit

module _ {W A B : Type 0} {Pre : W → Type 0} {Mid : A → W → Type 0} {Post : B → W → Type 0}
    {m : Act W A} where
  pub bind :
      {f : A → Act W B}
      → Triple Pre m Mid
      → ((a : A) → Triple (Mid a) (f a) Post)
      → Triple Pre (m >>= f) Post
  bind {f} t k = record {
    run = λ w p b w' h.
        let (a, u, first, rest) = after-ok (m w) f h in (k a).run u (t.run w p a u first) b w' rest;
  }

  pub next :
      {n : Act W B}
      → Triple Pre m Mid
      → ((a : A) → Triple (Mid a) n Post)
      → Triple Pre (m >> n) Post
  next {n} t k = record {
    run = λ w p b w' h.
        let (a, u, first, rest) = after-ok (m w) (λ _. n) h in
        (k a).run u (t.run w p a u first) b w' rest;
  }

module _ {W A : Type 0} {Pre : W → Type 0} {Post : A → W → Type 0} where
  pub returns : {a : A} → ((w : W) → Pre w → Post a w) → Triple Pre (return a) Post
  returns {a} h = record {
    run = λ w p b w' e. rw (← ok-injective (ap (λ x. x.0) e), ← ap (λ x. x.1) e) (h w p);
  }

  pub lifts :
      {r : Result A} → ((w : W) → Pre w → (a : A) → r ≡ ok a → Post a w) → Triple Pre (lift r) Post
  lifts {r} h = record { run = λ w p a w' e. rw (← ap (λ x. x.1) e) (h w p a (ap (λ x. x.0) e)) }

  pub or_fails :
      {m : Act W A} (g : Error → Error) → Triple Pre m Post → Triple Pre (or_fail m g) Post
  or_fails {m} g t = record { run = λ w p a w' e. t.run w p a w' (rewrap-ok g (m w) e) }

  -- An action about which nothing is known but that it succeeded.
  pub calls :
      {m : Act W A}
      → ((w : W) → Pre w → (a : A) (w' : W) → m w ≡ (ok a, w') → Post a w')
      → Triple Pre m Post
  calls h = record { run = h }

  pub finishes :
      {m : Act W A} (cleanup : Act W (Unit {0}))
      → ((a : A) (w : W) → Post a w → Post a (cleanup w).1)
      → Triple Pre m Post
      → Triple Pre (finally cleanup m) Post
  finishes {m} cleanup keep t = record {
    run = λ w p a w' e.
        rw (← ap (λ x. x.1) e)
          (keep a (m w).1 (t.run w p a (m w).1 (ap (λ r. (r, (m w).1)) (ap (λ x. x.0) e))));
  }

module _ {W A : Type 0} {Pre : W → Type 0} where
  -- Nothing is kept of an action but that it succeeded.
  pub done : {m : Act W A} → Triple Pre m (λ _ _. Unit)
  done = record { run = λ w p a w' e. tt }

  pub weaken :
      {Pre' : W → Type 0} {m : Act W A} {Post : A → W → Type 0}
      → ((w : W) → Pre w → Pre' w)
      → Triple Pre' m Post
      → Triple Pre m Post
  weaken h t = record { run = λ w p. t.run w (h w p) }

module _ {W A : Type 0} {P : Type 0} {Post : A → W → Type 0} {m : Act W A} where
  -- What is known already and does not speak of the world stays known.
  pub frame : Triple Always m Post → Triple (λ _. P) m (λ a w. P × Post a w)
  frame t = record { run = λ w p a w' e. (p, t.run w tt a w' e) }
