-- ===== src/Oidc/Validation/Laws.antt =====
-- Which ID tokens are accepted (idtoken.go).
use authn.Prelude.{
  ◌≤◌, String, ◌≡◌, ◌≢◌, refl, ap, ◌↔◌, ◌⊎◌, inl, inr, true, not, ◌||◌, Option, none, some, List,
  [], ◌∷◌, length, leb, ◌==◌, arith, eq_iff, Bool-cases, In,
}
use authn.Prelude.Int.{ℤ, ◌≤ℤ◌}
use authn.Go.Time.{Time, unix, add, before}
use authn.Go.Dict.{Dict, lookup}
use authn.Go.Json.{Json, number, string_or_empty}
use authn.Go.Act.{ok, ok-injective, err≢ok}
use authn.Go.Check.{
  bind-ok, next-ok, ok-bind, ok-next, require-ok, ok-require, or_err-ok, ok-or_err,
}
use authn.Oidc.Validation.{validate_id_token, audiences, contains, numeric, clock_skew}

-- What OpenID Connect Core asks of an ID token received from the token endpoint.
pub record Valid (claims : Dict Json) (issuer client_id : String) (now : Time) : Type 0 where
  pub issuer_known : issuer ≢ ""
  pub from_issuer : string_or_empty (lookup "iss" claims) ≡ issuer
  pub aud : List String
  pub addressed : audiences (lookup "aud" claims) ≡ ok aud
  pub to_client : In client_id aud
  pub authorized : (length aud ≤ 1) ⊎ (string_or_empty (lookup "azp" claims) ≡ client_id)
  pub exp : ℤ
  pub dated : lookup "exp" claims ≡ some (number exp)
  pub in_time : now ≤ℤ add (unix exp) clock_skew

contains_iff : (xs : List String) (want : String) → (contains xs want ≡ true) ↔ In want xs
unfolding contains
contains_iff [] want = (λ h. cc, λ h. absurd h)
contains_iff (x ∷ xs) want = elim (Bool-cases (x == want)) [
  | inl e ↦ rw e (λ _. inl ((eq_iff x want).0 e), λ _. refl)
  | inr e ↦ rw e (
    λ h. inr ((contains_iff xs want).0 h),
    λ m. elim m [ inl p ↦ let q = (eq_iff x want).1 p in cc | inr n ↦ (contains_iff xs want).1 n ],
  )
]

named_iff : (issuer : String) → (not (issuer == "") ≡ true) ↔ (issuer ≢ "")
named_iff issuer = ground (arith, eq_iff issuer "")

numeric-ok : (v : Option Json) {n : ℤ} → numeric v ≡ ok n → v ≡ some (number n)
unfolding numeric
numeric-ok none h = absurd (err≢ok h)
numeric-ok (some (number n)) h = rw (← ok-injective h)
numeric-ok (some v) h = absurd (err≢ok h)

in_time_iff : (t now : Time) → (not (before t now) ≡ true) ↔ (now ≤ℤ t)
in_time_iff t now = ground arith

authorized_iff :
    (aud : List String) (azp client_id : String)
    → ((leb (length aud) 1 || azp == client_id) ≡ true) ↔ ((length aud ≤ 1) ⊎ (azp ≡ client_id))
authorized_iff aud azp client_id = ground (arith, eq_iff azp client_id)

module _ (claims : Dict Json) (issuer client_id : String) (now : Time) where
  accepted :
      validate_id_token claims issuer client_id now ≡ ok tt → Valid claims issuer client_id now
  unfolding validate_id_token
  accepted h =
      let ((u, known), h) = next-ok _ _ h in
      let ((u', from), h) = next-ok _ _ h in
      let (aud, addressed, h) = bind-ok _ _ h in
      let ((v, to), h) = next-ok _ _ h in
      let ((v', azp), h) = next-ok _ _ h in
      let (exp, dated, h) = bind-ok _ _ h in
      record {
        issuer_known = (named_iff issuer).0 (require-ok _ _ known);
        from_issuer = (eq_iff _ issuer).0 (require-ok _ _ from);
        aud = aud;
        addressed = or_err-ok _ _ addressed;
        to_client = (contains_iff aud client_id).0 (require-ok _ _ to);
        authorized = (authorized_iff aud _ client_id).0 (require-ok _ _ azp);
        exp = exp;
        dated = numeric-ok _ (or_err-ok _ _ dated);
        in_time = (in_time_iff _ now).0 (require-ok _ _ h);
      }

  unrefused :
      Valid claims issuer client_id now → validate_id_token claims issuer client_id now ≡ ok tt
  unfolding validate_id_token numeric
  unrefused v = ok-next _ _ tt (ok-require _ _ ((named_iff issuer).1 v.issuer_known)) (
      ok-next _ _ tt (ok-require _ _ ((eq_iff _ issuer).1 v.from_issuer)) (
        ok-bind _ _ v.aud (ok-or_err _ _ v.addressed) (
          ok-next _ _ tt (ok-require _ _ ((contains_iff v.aud client_id).1 v.to_client)) (
            ok-next _ _ tt (ok-require _ _ ((authorized_iff v.aud _ client_id).1 v.authorized)) (
              ok-bind _ _ v.exp (ok-or_err _ _ (ap numeric v.dated))
                (ok-require _ _ ((in_time_iff _ now).1 v.in_time)))))))

  -- An ID token is accepted exactly when the issuer is known and is the token's, the token is
  -- addressed to the client (which is its authorized party where there are several audiences), and
  -- it has a numeric expiry that lies at most the clock skew in the past.
  pub validate_id_token_iff :
      (validate_id_token claims issuer client_id now ≡ ok tt) ↔ Valid claims issuer client_id now
  validate_id_token_iff = (accepted, unrefused)
