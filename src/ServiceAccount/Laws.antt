-- ===== src/ServiceAccount/Laws.antt =====
-- Whom the token of a ServiceAccount lets in (login.go).
use authn.Prelude.{
  String, ◌≡◌, sym, ap, ◌∙◌, inl, inr, true, List, [], ◌∷◌, In, ◌==◌, eq_iff, Bool-cases,
}
use authn.Go.Act.{ok, ok-injective, err≢ok}
use authn.Go.Act.Triple.{Triple, Always, bind, next, lifts, or_fails, calls, done, frame}
use authn.Go.Check.{next-ok, require-ok, or_err-ok}
use authn.UserInfo.{Info, new_default_user, set_groups}
use authn.UserInfo.Groups.{Unreserved, new_default_user-Unreserved}
use authn.ServiceAccount.Mapping.{SaMapping, service_account_for_sa}
use authn.ServiceAccount.Allowlist.{referring, decided, select-decided}
use authn.ServiceAccount.Reviewing.{Review, reviewed, contains_audience}
use authn.ServiceAccount.Usernames.{username_of, Nameable, parse_service_account_username_iff}
use authn.ServiceAccount.{Login, validate, identity}

contains_audience-In :
    (auds : List String) (want : String) → contains_audience auds want ≡ true → In want auds
unfolding contains_audience
contains_audience-In [] want h = cc
contains_audience-In (a ∷ auds) want h = elim (Bool-cases (a == want)) [
  | inl e ↦ inl ((eq_iff a want).0 e)
  | inr e ↦ inr (contains_audience-In auds want (rw e at h))
]

-- A review that speaks for a ServiceAccount: it was authenticated and bound to the audience.
pub record SpeaksFor (audience : String) (tr : Review) (ns name : String) : Type 0 where
  pub authenticated : tr.authenticated ≡ true
  pub bound : In audience tr.audiences
  pub user : tr.username ≡ username_of ns name
  pub nameable : Nameable ns name

reviewed-ok :
    (audience : String) (tr : Review) (ns name : String)
    → reviewed audience tr ≡ ok (ns, name)
    → SpeaksFor audience tr ns name
reviewed-ok audience tr ns name h =
    let ((u, auth), h) = next-ok _ _ h in
    let ((u', aud), h) = next-ok _ _ h in
    let (user, nameable) = (parse_service_account_username_iff _ _ _).0 (or_err-ok _ _ h) in
    record {
      authenticated = require-ok _ _ auth;
      bound = contains_audience-In _ _ (require-ok _ _ aud);
      user = user;
      nameable = nameable;
    }

decided-ok :
    (ns name : String) (ms : List SaMapping) {m : SaMapping}
    → decided ns name ms ≡ ok m
    → ms ≡ m ∷ []
decided-ok ns name [] h = absurd (err≢ok h)
decided-ok ns name (m ∷ []) h = ap (λ x. x ∷ []) (ok-injective h)
decided-ok ns name (m ∷ m' ∷ ms) h = absurd (err≢ok h)

module _ {W : Type 0} (sa : Login W) where
  -- The only one of the listed mappings that refers to the ServiceAccount.
  pub record Mapped (ns name : String) (m : SaMapping) : Type 0 where
    pub operator_namespace : String
    pub items : List SaMapping
    pub before : W
    pub later : W
    pub listed : sa.resolver.list_mappings operator_namespace before ≡ (ok items, later)
    pub only : referring ns name items ≡ m ∷ []

  -- A token that was checked, for the identity of the mapping.
  pub record Admitted (token : String) (nfo : Info) : Type 0 where
    pub tr : Review
    pub before : W
    pub later : W
    pub asked : sa.review token (sa.audience ∷ []) before ≡ (ok tr, later)
    pub ns : String
    pub sa_name : String
    pub speaks : SpeaksFor sa.audience tr ns sa_name
    pub m : SaMapping
    pub mapped : Mapped ns sa_name m
    pub named : nfo.name ≡ m.name
    pub unreserved : Unreserved nfo.groups

  service_account_for_sa-Mapped :
      (ns name : String)
      → Triple Always (service_account_for_sa sa.resolver ns name) (λ m _. Mapped ns name m)
  unfolding service_account_for_sa
  service_account_for_sa-Mapped ns name = bind done (λ op. next done (λ _.
      bind {Mid = λ items _. (w : W) × (u : W) × (sa.resolver.list_mappings op w ≡ (ok items, u))}
        (calls (λ w p items u e. (w, u, e)))
        (λ items. lifts (λ w p m e. record {
          operator_namespace = op;
          items = items;
          before = p.0;
          later = p.1;
          listed = p.2;
          only = decided-ok ns name _ (sym (select-decided ns name items) ∙ e);
        }))))

  identity-named :
      (m : SaMapping) (w : W) (nfo : Info) (w' : W)
      → identity sa m w ≡ (ok nfo, w')
      → nfo.name ≡ m.name
  unfolding new_default_user set_groups
  identity-named m w nfo w' h = ap (λ n. n.name) (sym (ok-injective (ap (λ x. x.0) h)))

  identity-Unreserved :
      (m : SaMapping) (w : W) (nfo : Info) (w' : W)
      → identity sa m w ≡ (ok nfo, w')
      → Unreserved nfo.groups
  identity-Unreserved m w nfo w' h =
      rw (← ok-injective (ap (λ x. x.0) h)) (new_default_user-Unreserved _ _ _ _)

  abbrev Asked : String → Review → Type 0
  Asked token tr = (w : W) × (u : W) × (sa.review token (sa.audience ∷ []) w ≡ (ok tr, u))

  abbrev Spoken : String → Review → String × String → Type 0
  Spoken token tr names = Asked token tr × SpeaksFor sa.audience tr names.0 names.1

  identity-Admitted :
      (token : String) (tr : Review) (names : String × String) (m : SaMapping)
      → Triple
          (λ _. Spoken token tr names × Mapped names.0 names.1 m)
          (identity sa m)
          (λ nfo _. Admitted token nfo)
  identity-Admitted token tr names m = calls (λ w p nfo w' e. record {
    tr = tr;
    before = p.0.0.0;
    later = p.0.0.1;
    asked = p.0.0.2;
    ns = names.0;
    sa_name = names.1;
    speaks = p.0.1;
    m = m;
    mapped = p.1;
    named = identity-named m w nfo w' e;
    unreserved = identity-Unreserved m w nfo w' e;
  })

  validate-Triple :
      (token : String) → Triple Always (validate sa token) (λ nfo _. Admitted token nfo)
  unfolding validate
  validate-Triple token = next done (λ _.
      bind {Mid = λ tr _. Asked token tr} (or_fails _ (calls (λ w p tr u e. (w, u, e)))) (λ tr.
        bind {Mid = λ names _. Spoken token tr names}
          (lifts (λ w p names e. (p, reviewed-ok sa.audience tr names.0 names.1 e)))
          (λ names.
            bind {Mid = λ m _. Spoken token tr names × Mapped names.0 names.1 m}
              (or_fails _ (frame (service_account_for_sa-Mapped names.0 names.1)))
              (λ m. identity-Admitted token tr names m))))

  -- A token lets someone in only if its review was authenticated and bound to the audience of this
  -- service, the reviewed user is a ServiceAccount, and exactly one of the listed mappings refers to
  -- it; the identity has that mapping's name and no reserved group.
  pub validate-Admitted :
      (token : String) (nfo : Info) (w w' : W)
      → validate sa token w ≡ (ok nfo, w')
      → Admitted token nfo
  validate-Admitted token nfo w w' h = (validate-Triple token).run w tt nfo w' h
