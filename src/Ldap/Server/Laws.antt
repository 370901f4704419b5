-- ===== src/Ldap/Server/Laws.antt =====
-- How the failures of a directory's calls are answered (support.go).
use authn.Prelude.{String, ◌≡◌, sym, ap, inl, inr, [], Bool-cases}
use authn.Go.Error.{Error, errorf}
use authn.Go.Act.{err, err≢ok}
use authn.Go.Act.Failing.{Failing, err-injective}
use authn.Status.{Status, from_error}
use authn.Status.Codes.{code_of, failed-code, refused_privately-code, refused_privately-alike}
use authn.Ldap.Server.{
  LdapError, Call, Reply, reply, refusal, replied, ask, server_failure, is_error_with_code, network,
  invalid_login,
}

module _ {W A : Type 0} where
  pub replied-err :
      (f : LdapError → Error) (x : Reply A × W) {e : Error} {u : W}
      → replied f x ≡ (err e, u)
      → (d : LdapError) × (f d ≡ e) × (x ≡ (refusal d, u))
  unfolding replied
  replied-err f (reply a, w) h = absurd (err≢ok (sym (ap (λ x. x.0) h)))
  replied-err f (refusal d, w) h =
      (d, err-injective (ap (λ x. x.0) h), ap (λ u. (refusal d, u)) (ap (λ x. x.1) h))

  pub ask_fails :
      {Pre : W → Type 0} {Post : Error → W → Type 0} {m : Call W A} (f : LdapError → Error)
      → ((w : W) → Pre w → (d : LdapError) (u : W) → m w ≡ (refusal d, u) → Post (f d) u)
      → Failing Pre (ask f m) Post
  ask_fails {m} f h = record {
    run = λ w p e u eq.
        let (d, same, refused) = replied-err f (m w) eq in rw (← same) (h w p d u refused);
  }

pub server_failure-code : (cause : String) (d : LdapError) → code_of (server_failure cause d) ≡ 500
unfolding server_failure
server_failure-code cause d = elim (Bool-cases (is_error_with_code d network)) [
  | inl e ↦ rw e (failed-code _ _)
  | inr e ↦ rw e (failed-code _ _)
]

pub invalid_login-code : (reason : Error) → code_of (invalid_login reason) ≡ 403
unfolding invalid_login
invalid_login-code reason = refused_privately-code _ _ reason

abbrev pub invalid_answer : Status
invalid_answer = from_error (invalid_login (errorf "" []))

pub invalid_login-alike : (reason : Error) → from_error (invalid_login reason) ≡ invalid_answer
unfolding invalid_login
invalid_login-alike reason = refused_privately-alike _ _ _ _
