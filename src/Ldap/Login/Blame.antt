-- ===== src/Ldap/Login/Blame.antt =====
-- Whom a failed login with a directory blames (support.go): the comment above doLogin.
use authn.Prelude.{
  arith, String, ◌≡◌, refl, sym, ap, ◌∙◌, ◌⊎◌, inl, inr, Bool, true, false, List, [], ◌∷◌,
  Bool-cases,
}
use authn.Go.Error.{Error}
use authn.Go.Act.{Result, ok, err, ◌>>=◌, lift, err≢ok}
use authn.Go.Act.Triple.{Always, lifts, calls, done}
use authn.Go.Act.Failing.{
  Failing, err-injective, bind_fails, next_fails, lift_fails, never_fails, finishes_fails,
}
use authn.Go.Check.{or_err}
use authn.Status.{from_error}
use authn.Status.Codes.{code_of, caused-code, failed-code}
use authn.Ldap.Server.{LdapError, Entry, reply, refusal, ask, server_failure, refuses_user}
use authn.Ldap.Config.{LdapConfig, render_group_filter}
use authn.Ldap.Login.{
  Services, only_entry, user_bind_failure, user_request, group_request, group_names,
  entry_to_user_info, filter_for, unrenderable, secure, close, login_over, do_login,
}
use authn.Ldap.Login.Laws
use authn.Ldap.Login.Laws.{replied-ok, only_entry-ok}
use authn.Ldap.Server.Laws.{
  ask_fails, server_failure-code, invalid_login-code, invalid_answer, invalid_login-alike,
}

module _ {W Conn Template : Type 0} (services : Services W Conn Template)
    (username password : String) (cfg : LdapConfig Template) where
  open services use {directory, templates}

  abbrev pub Searched : Conn → List Entry → Type 0
  Searched = Laws.Found services username password cfg

  -- The directory's verdict on the credentials: it has no such user, or it refuses the password.
  pub data Refused : Type 0 where
    unknown_user : (conn : Conn) → Searched conn [] → Refused
    wrong_password :
        (conn : Conn) (user : Entry) (d : LdapError) (v u : W)
        → Searched conn (user ∷ [])
        → directory.bind conn user.dn password v ≡ (refusal d, u)
        → refuses_user d ≡ true
        → Refused

  -- The username is that of several entries.
  pub data Ambiguous : Type 0 where
    several_users :
        (conn : Conn) (user other : Entry) (entries : List Entry)
        → Searched conn (user ∷ other ∷ entries)
        → Ambiguous

  -- A call of the directory that failed, without a verdict on the user, or a filter that cannot be
  -- rendered.
  pub data Down : Type 0 where
    no_connection :
        (d : LdapError) (v u : W) → directory.dial cfg.dial_url v ≡ (refusal d, u) → Down
    no_tls :
        (conn : Conn) (d : LdapError) (v u : W) → directory.start_tls conn v ≡ (refusal d, u) → Down
    no_bind :
        (conn : Conn) (d : LdapError) (v u : W)
        → directory.bind conn cfg.bind_dn cfg.bind_secret v ≡ (refusal d, u)
        → Down
    no_search :
        (conn : Conn) (d : LdapError) (v u : W)
        → directory.search conn (user_request services cfg username) v ≡ (refusal d, u)
        → Down
    no_verdict :
        (conn : Conn) (user : Entry) (d : LdapError) (v u : W)
        → directory.bind conn user.dn password v ≡ (refusal d, u)
        → refuses_user d ≡ false
        → Down
    no_filter :
        (user : Entry) (e : Error)
        → render_group_filter templates directory.escape_filter cfg.group_filter user.dn username
          ≡ err e
        → Down
    no_groups :
        (conn : Conn) (filter : String) (d : LdapError) (v u : W)
        → directory.search conn (group_request services cfg filter) v ≡ (refusal d, u)
        → Down

  abbrev pub Blamed : Error → Type 0
  Blamed e =
      ((code_of e ≡ 403) × (from_error e ≡ invalid_answer) × Refused)
      ⊎ (((code_of e ≡ 300) × Ambiguous) ⊎ ((code_of e ≡ 500) × Down))

  only_entry-Blamed :
      (conn : Conn) (entries : List Entry) {e : Error}
      → Searched conn entries
      → only_entry entries ≡ err e
      → Blamed e
  unfolding only_entry
  only_entry-Blamed conn [] f h =
      rw (← err-injective h)
        (inl (invalid_login-code _, invalid_login-alike _, unknown_user conn f))
  only_entry-Blamed conn (user ∷ []) f h = absurd (err≢ok (sym h))
  only_entry-Blamed conn (user ∷ other ∷ entries) f h =
      rw (← err-injective h)
        (inr (inl (caused-code 300 _ _, several_users conn user other entries f)))

  user_bind-Blamed :
      (conn : Conn) (user : Entry) (d : LdapError) (v u : W)
      → Searched conn (user ∷ [])
      → directory.bind conn user.dn password v ≡ (refusal d, u)
      → Blamed (user_bind_failure d)
  unfolding user_bind_failure
  user_bind-Blamed conn user d v u f h = elim (Bool-cases (refuses_user d)) [
    | inl e ↦
        rw e
          (inl (invalid_login-code _, invalid_login-alike _, wrong_password conn user d v u f h e))
    | inr e ↦ rw e (inr (inr (server_failure-code _ d, no_verdict conn user d v u h e)))
  ]

  filter-Blamed :
      (user : Entry) (r : Result String) {e : Error}
      → render_group_filter templates directory.escape_filter cfg.group_filter user.dn username ≡ r
      → or_err r unrenderable ≡ err e
      → Blamed e
  unfolding or_err
  filter-Blamed user (ok s) q h = absurd (err≢ok (sym h))
  filter-Blamed user (err e) q h =
      rw (← err-injective h) (inr (inr (failed-code _ _, no_filter user e q)))

  secure-Down :
      (tls : Bool) (conn : Conn) (d : LdapError) (w u : W)
      → secure services tls conn w ≡ (refusal d, u)
      → Down
  secure-Down true conn d w u h = no_tls conn d w u h
  secure-Down false conn d w u h = absurd (cc (ap (λ x. x.0) h))

  -- A failure of the search or of what follows it, which blames no user.
  groups-Failing :
      (conn : Conn) (user : Entry)
      → Failing Always
          (do
            filter ← lift (filter_for services cfg user username)
            found ←
                ask
                  (server_failure "LDAPSearchFailed")
                  (directory.search conn (group_request services cfg filter))
            entry_to_user_info services user (group_names services found cfg.group_name_attr))
          (λ e _. Blamed e)
  unfolding entry_to_user_info
  groups-Failing conn user =
      bind_fails (lift_fails (λ w p e h. filter-Blamed user _ refl h)) done (λ filter.
        bind_fails
          (ask_fails _
            (λ w p d u h. inr (inr (server_failure-code _ d, no_groups conn filter d w u h))))
          done (λ found. never_fails (λ w e u h. absurd (err≢ok (sym (ap (λ x. x.0) h))))))

  login_over-Failing :
      (conn : Conn)
      → Failing Always (login_over services conn username password cfg) (λ e _. Blamed e)
  unfolding login_over
  login_over-Failing conn =
      next_fails
        (ask_fails _ (λ w p d u h. inr (inr (failed-code _ _, secure-Down cfg.tls conn d w u h))))
        done
        (λ _.
          next_fails
            (ask_fails _ (λ w p d u h. inr (inr (server_failure-code _ d, no_bind conn d w u h))))
            done
            (λ _.
              bind_fails {Mid = λ entries _. Searched conn entries}
                (ask_fails _
                  (λ w p d u h. inr (inr (server_failure-code _ d, no_search conn d w u h))))
                (calls (λ w p entries u h. (w, u, replied-ok _ _ h)))
                (λ entries.
                  bind_fails {Mid = λ user _. Searched conn (user ∷ [])}
                    (lift_fails (λ w p e h. only_entry-Blamed conn entries p h))
                    (lifts (λ w p user h.
                      (p.0, p.1, p.2 ∙ ap (λ es. (reply es, p.1)) (only_entry-ok entries h))))
                    (λ user.
                      next_fails {Mid = λ _ _. Unit {0}}
                        (ask_fails _ (λ w p d u h. user_bind-Blamed conn user d w u p h))
                        (calls (λ w p _ u h. tt)) (λ _. groups-Failing conn user)))))

  do_login-Failing : Failing Always (do_login services username password cfg) (λ e _. Blamed e)
  unfolding do_login
  do_login-Failing =
      bind_fails (ask_fails _ (λ w p d u h. inr (inr (failed-code _ _, no_connection d w u h))))
        done (λ conn. finishes_fails (close services conn) (λ e w b. b) (login_over-Failing conn))

  -- A failed login with a directory is answered with 403, 300 or 500: with 403 only where the
  -- directory gave its verdict, that it has no such user or that it refuses the password; with 300
  -- only where the username is that of several entries; and with 500 only where a call of the
  -- directory failed without a verdict on the user or the group filter could not be rendered.
  pub do_login-Blamed :
      (e : Error) (w u : W) → do_login services username password cfg w ≡ (err e, u) → Blamed e
  do_login-Blamed e w u h = do_login-Failing.run w tt e u h

  refused-alike : (e : Error) → Blamed e → code_of e ≡ 403 → from_error e ≡ invalid_answer
  refused-alike e (inl (c, alike, r)) h = alike
  refused-alike e (inr (inl (c, a))) h = absurd (omega (arith, c, h))
  refused-alike e (inr (inr (c, d))) h = absurd (omega (arith, c, h))

module _ {W Conn Template : Type 0} (services : Services W Conn Template) where
  -- Two logins with a directory that fail with 403 are answered alike, whatever the usernames and
  -- passwords: the answer does not tell a user that the directory does not know from a password
  -- that it refuses.
  pub do_login-alike :
      (username other password guess : String) (cfg cfg' : LdapConfig Template) (e e' : Error)
      (w u v x : W)
      → do_login services username password cfg w ≡ (err e, u)
      → do_login services other guess cfg' v ≡ (err e', x)
      → code_of e ≡ 403
      → code_of e' ≡ 403
      → from_error e ≡ from_error e'
  do_login-alike username other password guess cfg cfg' e e' w u v x h k c d =
      refused-alike services username password cfg e
        (do_login-Blamed services username password cfg e w u h) c
      ∙ sym (
          refused-alike services other guess cfg' e'
            (do_login-Blamed services other guess cfg' e' v x k) d)
