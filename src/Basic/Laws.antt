-- ===== src/Basic/Laws.antt =====
-- Whom a password lets in, and what a refusal tells (login.go).
use authn.Cluster.{SecretKeySelector}
use authn.Prelude.{
  String, ◌≡◌, refl, sym, ap, ◌∙◌, Bool, true, false, Option, none, some, [], Bool-cases, inl, inr,
}
use authn.Go.Error.{Error, errorf, is_not_found}
use authn.Go.Dict.{lookup}
use authn.Go.Act.{Result, ok, err, ok-injective, err≢ok, lift, ◌>>◌, ok-after, err-after, rewrap}
use authn.Go.Act.Triple.{Triple, Always, bind, next, lifts, or_fails, calls, done}
use authn.Status.{Status, from_error, as_cause, error_text, render}
use authn.UserInfo.{Info, new_default_user, set_groups}
use authn.UserInfo.Groups.{Unreserved, new_default_user-Unreserved}
use authn.Cluster.{Secret}
use authn.Basic.{
  Login, BasicUser, user_get, validate, found_user, join_errors, secret_failure, decoy_password,
  invalid_credentials, password_ref_of, password_in, compared, identity, valid_name,
}

module _ {W : Type 0} (basic : Login W) where
  open basic use {secrets, compare_password}

  -- A password that was checked: the User was found, its Secret was read, and the password in it
  -- compared as the same.
  pub record Verified (username password : String) (nfo : Info) : Type 0 where
    pub usr : BasicUser
    pub ref : SecretKeySelector
    pub sec : Secret
    pub pwd : String
    pub before : W
    pub later : W
    pub found : user_get basic username before ≡ (ok usr, later)
    pub referred : usr.password_ref ≡ some ref
    pub secret_before : W
    pub secret_later : W
    pub secret_read : secrets.get ref.namespace ref.name secret_before ≡ (ok sec, secret_later)
    pub held : lookup ref.key sec.contents ≡ some pwd
    pub same : compare_password password pwd ≡ true
    pub named : nfo.name ≡ usr.name
    pub unreserved : Unreserved nfo.groups

  abbrev Found : String → BasicUser → Type 0
  Found username usr = (w : W) × (u : W) × (user_get basic username w ≡ (ok usr, u))

  found_user-ok :
      (username : String) (x : Result BasicUser × W) {usr : BasicUser} {u : W}
      → found_user basic username x ≡ (ok usr, u)
      → x ≡ (ok usr, u)
  found_user-ok username (ok usr, w) h = h
  found_user-ok username (err e, w) h = elim (Bool-cases (is_not_found e)) [
    | inl t ↦ absurd (err≢ok (ap (λ x. x.0) (rw t at h)))
    | inr t ↦ absurd (err≢ok (ap (λ x. x.0) (rw t at h)))
  ]

  password_ref_of-ok :
      (username : String) (o : Option SecretKeySelector) {ref : SecretKeySelector}
      → password_ref_of basic username o ≡ ok ref
      → o ≡ some ref
  password_ref_of-ok username none h = absurd (err≢ok h)
  password_ref_of-ok username (some ref) h = ap (λ r. some r) (ok-injective h)

  password_in-ok :
      (username : String) (o : Option String) {pwd : String}
      → password_in basic username o ≡ ok pwd
      → o ≡ some pwd
  password_in-ok username none h = absurd (err≢ok h)
  password_in-ok username (some pwd) h = ap (λ r. some r) (ok-injective h)

  compared-ok :
      (username : String) (b : Bool) {u : Unit {0}} → compared basic username b ≡ ok u → b ≡ true
  compared-ok username true h = refl
  compared-ok username false h = absurd (err≢ok h)

  identity-named :
      (usr : BasicUser) (w : W) (nfo : Info) (w' : W)
      → identity basic usr w ≡ (ok nfo, w')
      → nfo.name ≡ usr.name
  unfolding new_default_user set_groups
  identity-named usr w nfo w' h = ap (λ n. n.name) (sym (ok-injective (ap (λ x. x.0) h)))

  identity-Unreserved :
      (usr : BasicUser) (w : W) (nfo : Info) (w' : W)
      → identity basic usr w ≡ (ok nfo, w')
      → Unreserved nfo.groups
  identity-Unreserved usr w nfo w' h =
      rw (← ok-injective (ap (λ x. x.0) h)) (new_default_user-Unreserved _ _ _ _)

  abbrev Referred : String → BasicUser → SecretKeySelector → Type 0
  Referred username usr ref = Found username usr × (usr.password_ref ≡ some ref)

  abbrev SecretRead : SecretKeySelector → Secret → Type 0
  SecretRead ref sec = (v : W) × (v' : W) × (secrets.get ref.namespace ref.name v ≡ (ok sec, v'))

  abbrev PasswordRead : String → BasicUser → SecretKeySelector → Secret → String → Type 0
  PasswordRead username usr ref sec pwd =
      Referred username usr ref × (SecretRead ref sec × (lookup ref.key sec.contents ≡ some pwd))

  compared-Triple :
      (username password : String) (usr : BasicUser) (ref : SecretKeySelector) (sec : Secret)
      (pwd : String)
      → Triple
          (λ _. PasswordRead username usr ref sec pwd)
          (lift (compared basic username (compare_password password pwd)) >> identity basic usr)
          (λ nfo _. Verified username password nfo)
  compared-Triple username password usr ref sec pwd =
      next
        {Mid = λ _ _.
          PasswordRead username usr ref sec pwd × (compare_password password pwd ≡ true)}
        (lifts (λ w p u e. (p, compared-ok username _ e)))
        (λ _. calls (λ w p nfo w' e.
          let ((found, referred), (read, held)) = p.0 in
          record {
            usr = usr;
            ref = ref;
            sec = sec;
            pwd = pwd;
            before = found.0;
            later = found.1;
            found = found.2;
            referred = referred;
            secret_before = read.0;
            secret_later = read.1;
            secret_read = read.2;
            held = held;
            same = p.1;
            named = identity-named usr w nfo w' e;
            unreserved = identity-Unreserved usr w nfo w' e;
          }))

  validate-Triple :
      (username password : String)
      → Triple Always (validate basic username password) (λ nfo _. Verified username password nfo)
  unfolding validate
  validate-Triple username password = next done (λ _.
      bind {Mid = λ usr _. Found username usr}
        (calls (λ w p usr u e. (w, u, found_user-ok username _ e)))
        (λ usr.
          bind {Mid = λ ref _. Referred username usr ref}
            (lifts (λ w p ref e. (p, password_ref_of-ok username _ e)))
            (λ ref.
              bind {Mid = λ sec _. Referred username usr ref × SecretRead ref sec}
                (or_fails _ (calls (λ w p sec w' e. (p, (w, w', e)))))
                (λ sec.
                  bind {Mid = λ pwd _. PasswordRead username usr ref sec pwd}
                    (lifts (λ w p pwd e. (p.0, (p.1, password_in-ok username _ e))))
                    (λ pwd. compared-Triple username password usr ref sec pwd)))))

  -- A password lets someone in only as a User that was found under the given name and whose Secret
  -- holds a password that compares as the same; the identity has the User's name and no reserved
  -- group.
  pub validate-Verified :
      (username password : String) (nfo : Info) (w w' : W)
      → validate basic username password w ≡ (ok nfo, w')
      → Verified username password nfo
  validate-Verified username password nfo w w' h =
      (validate-Triple username password).run w tt nfo w' h

  -- A name that no User has, when it is asked for.
  pub record Unknown (username : String) (w : W) : Type 0 where
    pub named : valid_name basic username ≡ ok tt
    pub e : Error
    pub u : W
    pub absent : user_get basic username w ≡ (err e, u)
    pub missing : is_not_found e ≡ true

  -- A User with another password.
  pub record Wrong (username password : String) (w : W) : Type 0 where
    pub named : valid_name basic username ≡ ok tt
    pub usr : BasicUser
    pub ref : SecretKeySelector
    pub sec : Secret
    pub pwd : String
    pub u : W
    pub v : W
    pub found : user_get basic username w ≡ (ok usr, u)
    pub referred : usr.password_ref ≡ some ref
    pub secret_read : secrets.get ref.namespace ref.name u ≡ (ok sec, v)
    pub held : lookup ref.key sec.contents ≡ some pwd
    pub differs : compare_password password pwd ≡ false

  -- What a caller is told: nothing of a success, else the answer to the error.
  abbrev pub told : Result Info × W → Option Status
  told (ok nfo, w) = none
  told (err e, w) = some (from_error e)

  abbrev invalid_answer : Status
  invalid_answer = from_error (invalid_credentials (errorf "" []))

  invalid-alike : (reason : Error) → from_error (invalid_credentials reason) ≡ invalid_answer
  unfolding from_error invalid_credentials as_cause error_text render
  invalid-alike reason = refl

  told-Unknown :
      (username password : String) (w : W)
      → Unknown username w
      → told (validate basic username password w) ≡ some invalid_answer
  unfolding validate
  told-Unknown username password w x =
      ap told (
        ok-after _ tt w (ap (λ r. (r, w)) x.named) (
          err-after _ (invalid_credentials (join_errors basic x.e (decoy_password basic x.u).0.1))
            (decoy_password basic x.u).1
            (ap (found_user basic username) x.absent ∙ rw x.missing refl)))
      ∙ ap (λ s. some s) (invalid-alike _)

  told-Wrong :
      (username password : String) (w : W)
      → Wrong username password w
      → told (validate basic username password w) ≡ some invalid_answer
  unfolding validate rewrap
  told-Wrong username password w x =
      ap told (
        ok-after _ tt w (ap (λ r. (r, w)) x.named) (
          ok-after _ x.usr x.u (ap (found_user basic username) x.found) (
            ok-after _ x.ref x.u (ap (λ o. (password_ref_of basic username o, x.u)) x.referred) (
              ok-after _ x.sec x.v (ap (rewrap (secret_failure basic username)) x.secret_read) (
                ok-after _ x.pwd x.v (ap (λ o. (password_in basic username o, x.v)) x.held)
                  (err-after _ _ x.v (ap (λ b. (compared basic username b, x.v)) x.differs)))))))
      ∙ ap (λ s. some s) (invalid-alike _)

  -- A caller is told the same of a name that no User has as of a wrong password for a User.
  pub validate-alike :
      (username other password guess : String) (w v : W)
      → Unknown username w
      → Wrong other guess v
      → told (validate basic username password w) ≡ told (validate basic other guess v)
  validate-alike username other password guess w v x y =
      told-Unknown username password w x ∙ sym (told-Wrong other guess v y)
