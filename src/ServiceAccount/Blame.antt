-- ===== src/ServiceAccount/Blame.antt =====
-- Whom a failed login blames (login.go): the comment above its causes.
use authn.Prelude.{String, ◌≡◌, sym, ap, ◌⊎◌, inl, inr, Bool, true, false, [], ◌∷◌, Bool-cases}
use authn.Go.Error.{Error, is_error}
use authn.Go.Act.{Result, ok, err, err≢ok}
use authn.Go.Act.Triple.{Always, lifts, or_fails, calls, done}
use authn.Go.Act.Failing.{
  Failing, err-injective, bind_fails, next_fails, or_fail_fails, lift_fails, never_fails,
}
use authn.Go.Check
use authn.Status.{refused}
use authn.Status.Codes.{code_of, refused-code, failed-code}
use authn.ServiceAccount.Mapping.{service_account_for_sa, err_no_mapping, err_ambiguous_mapping}
use authn.ServiceAccount.Reviewing.{Review, reviewed, parse_service_account_username}
use authn.ServiceAccount.{Login, validate, lookup_failure}

module _ {A : Type 0} where
  -- Whatever a check reports is a refusal.
  abbrev Refusing : Result A → Type 0
  Refusing (ok a) = Unit
  Refusing (err e) = code_of e ≡ 403

  Refusing-err : (r : Result A) {e : Error} → Refusing r → r ≡ err e → code_of e ≡ 403
  Refusing-err (ok a) h eq = absurd (err≢ok (sym eq))
  Refusing-err (err e) h eq = rw (← err-injective eq) h

  or_err-Refusing : (r : Result A) (cause : String) → Refusing (Check.or_err r (refused cause))
  unfolding Check.or_err
  or_err-Refusing (ok a) cause = tt
  or_err-Refusing (err e) cause = refused-code cause e

  require-Refusing :
      (test : Bool) (cause : String) (e : Error) (r : Result A)
      → Refusing r
      → Refusing (Check.◌>>◌ (Check.require test (refused cause e)) r)
  unfolding Check.require Check.◌>>◌
  require-Refusing true cause e r h = h
  require-Refusing false cause e r h = refused-code cause e

reviewed-Refusing : (audience : String) (tr : Review) → Refusing (reviewed audience tr)
reviewed-Refusing audience tr = require-Refusing _ _ _ _ (
    require-Refusing _ _ _ _
      (or_err-Refusing (parse_service_account_username tr.username) "NotAServiceAccount"))

module _ {W : Type 0} (sa : Login W) where
  -- The cluster gave its verdict on the token.
  abbrev pub Answered : String → Type 0
  Answered token =
      (tr : Review) × (v : W) × (u : W) × (sa.review token (sa.audience ∷ []) v ≡ (ok tr, u))

  -- What this service needs failed: its client, the review, or the search for a mapping, which does
  -- not count as failed when it finds none or finds several.
  pub data Down (token : String) (u : W) : Type 0 where
    no_client : (v : W) (e : Error) → sa.new_clientset v ≡ (err e, u) → Down token u
    no_review :
        (v : W) (e : Error) → sa.review token (sa.audience ∷ []) v ≡ (err e, u) → Down token u
    no_search :
        (v : W) (e : Error) (ns name : String)
        → service_account_for_sa sa.resolver ns name v ≡ (err e, u)
        → is_error err_no_mapping e ≡ false
        → is_error err_ambiguous_mapping e ≡ false
        → Down token u

  abbrev pub Blamed : String → Error → W → Type 0
  Blamed token e u = ((code_of e ≡ 403) × Answered token) ⊎ ((code_of e ≡ 500) × Down token u)

  search_fails :
      (token ns name : String) (v u : W) (e : Error)
      → Answered token
      → service_account_for_sa sa.resolver ns name v ≡ (err e, u)
      → Blamed token (lookup_failure e) u
  search_fails token ns name v u e answered h = elim (Bool-cases (is_error err_no_mapping e)) [
    | inl n ↦ rw n (inl (refused-code _ e, answered))
    | inr n ↦ elim (Bool-cases (is_error err_ambiguous_mapping e)) [
      | inl a ↦ rw (n, a) (inl (refused-code _ e, answered))
      | inr a ↦ rw (n, a) (inr (failed-code _ e, no_search v e ns name h n a))
    ]
  ]

  validate-Failing : (token : String) → Failing Always (validate sa token) (Blamed token)
  unfolding validate
  validate-Failing token =
      next_fails (or_fail_fails _ (λ w p e u h. inr (failed-code _ _, no_client w e h))) done (λ _.
        bind_fails {Mid = λ tr _. Answered token}
          (or_fail_fails _ (λ w p e u h. inr (failed-code _ _, no_review w e h)))
          (or_fails _ (calls (λ w p tr u h. (tr, w, u, h))))
          (λ tr.
            bind_fails {Mid = λ names _. Answered token}
              (lift_fails (λ w p e h. inl (Refusing-err _ (reviewed-Refusing sa.audience tr) h, p)))
              (lifts (λ w p names h. p))
              (λ names.
                bind_fails {Mid = λ m _. Answered token}
                  (or_fail_fails _ (λ w p e u h. search_fails token _ _ w u e p h))
                  (or_fails _ (calls (λ w p m u h. p)))
                  (λ m. never_fails (λ w e u h. absurd (err≢ok (sym (ap (λ x. x.0) h))))))))

  -- A failed check of a token is answered with 403 or with 500: with 403 only where the cluster has
  -- given its verdict on the token, and with 500 only where the client, the review or the search
  -- for a mapping failed.
  pub validate-Blamed :
      (token : String) (e : Error) (w u : W) → validate sa token w ≡ (err e, u) → Blamed token e u
  validate-Blamed token e w u h = (validate-Failing token).run w tt e u h
