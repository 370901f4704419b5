-- ===== src/Ldap/Login/Laws.antt =====
-- Whom a login with a directory lets in (login.go, support.go).
use authn.Prelude.{String, ◌≡◌, ◌≢◌, ◌↔◌, sym, ap, false, ◌∙◌, List, [], ◌∷◌, In}
use authn.Go.Act.{ok, ◌>>=◌, lift, ok-injective, err≢ok}
use authn.Go.Act.Triple.{Triple, Always, bind, next, lifts, calls, done, finishes}
use authn.Go.Check.{or_err-ok}
use authn.UserInfo.{Info, is_reserved, new_default_user, set_groups}
use authn.UserInfo.Groups.{new_default_user-groups_iff}
use authn.Ldap.Server.{LdapError, Entry, Reply, reply, refusal, replied, ask, server_failure}
use authn.Ldap.Config.{LdapConfig, render_group_filter}
use authn.Ldap.Login.{
  Services, only_entry, group_names, values, user_request, group_request, entry_to_user_info,
  filter_for, close, login_over, do_login,
}
use authn.Ldap.Login.Groups.{group_names-first_names}

module _ {W A : Type 0} where
  pub replied-ok :
      (f : LdapError → _) (x : Reply A × W) {a : A} {u : W}
      → replied f x ≡ (ok a, u)
      → x ≡ (reply a, u)
  unfolding replied
  replied-ok f (reply a, w) h = λ i. (reply (ok-injective (ap (λ x. x.0) h) i), (h i).1)
  replied-ok f (refusal e, w) h = absurd (err≢ok (ap (λ x. x.0) h))

pub only_entry-ok :
    (entries : List Entry) {user : Entry} → only_entry entries ≡ ok user → entries ≡ user ∷ []
unfolding only_entry
only_entry-ok [] h = absurd (err≢ok h)
only_entry-ok (user ∷ []) h = ap (λ e. e ∷ []) (ok-injective h)
only_entry-ok (user ∷ other ∷ entries) h = absurd (err≢ok h)

module _ {W Conn Template : Type 0} (services : Services W Conn Template) where
  open services use {directory, templates, resolver, generate}

  -- The directory knows one entry for the username, and took the password for it.
  pub record Bound (username password : String) (cfg : LdapConfig Template) (conn : Conn)
      (user : Entry) : Type 0 where
    pub searched : W
    pub found : W
    pub only :
        directory.search conn (user_request services cfg username) searched
        ≡ (reply (user ∷ []), found)
    pub asked : W
    pub accepted : W
    pub verified : directory.bind conn user.dn password asked ≡ (reply tt, accepted)

  -- The identity of an entry: its name, and as its groups exactly the names that the group search
  -- gave, but for the empty one and those that are reserved.
  pub record Named (username : String) (cfg : LdapConfig Template) (conn : Conn) (user : Entry)
      (nfo : Info) : Type 0 where
    pub filter : String
    pub rendered :
        render_group_filter templates directory.escape_filter cfg.group_filter user.dn username
        ≡ ok filter
    pub entries : List Entry
    pub before : W
    pub later : W
    pub searched :
        directory.search conn (group_request services cfg filter) before ≡ (reply entries, later)
    pub named : nfo.name ≡ directory.attribute_value user "uid"
    pub grouped :
        (g : String)
        → In g nfo.groups ↔ (
            (In g (values services cfg.group_name_attr entries) × (g ≢ ""))
            × (is_reserved g ≡ false))

  -- Who logged in.
  pub record LoggedIn (username password : String) (cfg : LdapConfig Template) (nfo : Info)
      : Type 0 where
    pub conn : Conn
    pub before : W
    pub later : W
    pub dialled : directory.dial cfg.dial_url before ≡ (reply conn, later)
    pub user : Entry
    pub bound : Bound username password cfg conn user
    pub identified : Named username cfg conn user nfo

  module _ (username password : String) (cfg : LdapConfig Template) (conn : Conn) where
    -- The search for the user gave these entries.
    abbrev pub Found : List Entry → Type 0
    Found entries =
        (v : W) × (u : W) × (directory.search conn (user_request services cfg username) v
          ≡ (reply entries, u))

    abbrev Rendered : Entry → String → Type 0
    Rendered user filter =
        render_group_filter templates directory.escape_filter cfg.group_filter user.dn username
        ≡ ok filter

    pub Found-only :
        (entries : List Entry) {user : Entry}
        → Found entries
        → only_entry entries ≡ ok user
        → Found (user ∷ [])
    Found-only entries (v, u, h) e = (v, u, h ∙ ap (λ es. (reply es, u)) (only_entry-ok entries e))

    grouped_lem :
        (user : Entry) (entries : List Entry) (w : W) (nfo : Info) (u : W)
        → entry_to_user_info services user (group_names services entries cfg.group_name_attr) w
          ≡ (ok nfo, u)
        → (g : String)
        → In g nfo.groups ↔ (
            (In g (values services cfg.group_name_attr entries) × (g ≢ ""))
            × (is_reserved g ≡ false))
    unfolding entry_to_user_info
    grouped_lem user entries w nfo u h g =
        let kept =
          new_default_user-groups_iff _ _ (group_names services entries cfg.group_name_attr) _ g in
        let named = (group_names-first_names services entries cfg.group_name_attr).2 g in
        rw (← ok-injective (ap (λ x. x.0) h))
          (λ m. (named.0 (kept.0 m).0, (kept.0 m).1), λ (m, k). kept.1 (named.1 m, k))

    named_lem :
        (user : Entry) (groups : List String) (w : W) (nfo : Info) (u : W)
        → entry_to_user_info services user groups w ≡ (ok nfo, u)
        → nfo.name ≡ directory.attribute_value user "uid"
    unfolding entry_to_user_info new_default_user set_groups
    named_lem user groups w nfo u h = ap (λ n. n.name) (sym (ok-injective (ap (λ x. x.0) h)))

    abbrev Identified : Info → Type 0
    Identified nfo =
        (user : Entry) × Bound username password cfg conn user × Named username cfg conn user nfo

    identified-Triple :
        (user : Entry)
        → Triple
            (λ _. Bound username password cfg conn user)
            (do
              filter ← lift (filter_for services cfg user username)
              found ←
                  ask
                    (server_failure "LDAPSearchFailed")
                    (directory.search conn (group_request services cfg filter))
              entry_to_user_info services user (group_names services found cfg.group_name_attr))
            (λ nfo _. Identified nfo)
    identified-Triple user =
        bind {Mid = λ filter _. Bound username password cfg conn user × Rendered user filter}
          (lifts (λ w p filter e. (p, or_err-ok _ _ e)))
          (λ filter.
            bind
              {Mid = λ entries _.
                (Bound username password cfg conn user × Rendered user filter)
                × ((v : W) × (u : W) × (directory.search conn (group_request services cfg filter) v
                      ≡ (reply entries, u)))}
              (calls (λ w p entries u e. (p, (w, u, replied-ok _ _ e))))
              (λ entries. calls (λ w p nfo u e. (
                user,
                p.0.0,
                record {
                  filter = filter;
                  rendered = p.0.1;
                  entries = entries;
                  before = p.1.0;
                  later = p.1.1;
                  searched = p.1.2;
                  named = named_lem user _ w nfo u e;
                  grouped = grouped_lem user entries w nfo u e;
                },
              ))))

    login_over-Triple :
        Triple Always (login_over services conn username password cfg) (λ nfo _. Identified nfo)
    unfolding login_over
    login_over-Triple = next done (λ _. next done (λ _.
        bind {Mid = λ entries _. Found entries}
          (calls (λ w p entries u e. (w, u, replied-ok _ _ e)))
          (λ entries.
            bind {Mid = λ user _. Found (user ∷ [])} (lifts (λ w p user e. Found-only entries p e))
              (λ user.
                next {Mid = λ _ _. Bound username password cfg conn user}
                  (calls (λ w p _ u e. record {
                    searched = p.0;
                    found = p.1;
                    only = p.2;
                    asked = w;
                    accepted = u;
                    verified = replied-ok _ _ e;
                  }))
                  (λ _. identified-Triple user)))))

  pub do_login-Triple :
      (username password : String) (cfg : LdapConfig Template)
      → Triple Always
          (do_login services username password cfg)
          (λ nfo _. LoggedIn username password cfg nfo)
  unfolding do_login
  do_login-Triple username password cfg =
      bind {Mid = λ conn _. (v : W) × (u : W) × (directory.dial cfg.dial_url v ≡ (reply conn, u))}
        (calls (λ w p conn u e. (w, u, replied-ok _ _ e)))
        (λ conn. finishes (close services conn) (λ nfo w p. p) (follows conn))
    where
      follows :
          (conn : Conn)
          → Triple
              (λ _. (v : W) × (u : W) × (directory.dial cfg.dial_url v ≡ (reply conn, u)))
              (login_over services conn username password cfg)
              (λ nfo _. LoggedIn username password cfg nfo)
      follows conn = calls (λ w p nfo u e.
          let (user, bound, identified) =
            (login_over-Triple username password cfg conn).run w tt nfo u e in
          record {
            conn = conn;
            before = p.0;
            later = p.1;
            dialled = p.2;
            user = user;
            bound = bound;
            identified = identified;
          })
