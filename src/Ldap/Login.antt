-- ===== src/Ldap/Login.antt =====
-- Logging in with a directory: doLogin and groupNames of
-- go/authn/internal/routes/auth/ldap/support.go, and the handler of login.go.
pub mod Groups
pub mod Laws
pub mod Granted
pub mod Blame
use Prim.Native.String
use authn.Prelude.{
  ℕ, String, Bool, true, false, not, ◌||◌, Option, none, some, List, [], ◌∷◌, ◌++◌, ◌==◌,
  if◌then◌else◌,
}
use authn.Go.Error.{Error, errorf, wrapf, caused}
use authn.Go.Time.{Time, Duration}
use authn.Go.Dict.{Dict, lookup, insert, true_at}
use authn.Go.Act.{Result, ok, err, Act, ◌>>=◌, ◌>>◌, or_fail, lift, return, finally}
use authn.Go.Check
use authn.Status.{bad_request, failed}
use authn.UserInfo.{Info, new_default_user}
use authn.UserInfo.Exts.{add}
use authn.Kubeconfig.{KubeConfig}
use authn.Encode.{Answer, Tokens, Extras, Strategy, success, handle}
use authn.Decode.{
  Body, BodyError, BodyRead, body, no_body, json_body, is_empty_body_error, body_error,
}
use authn.Ldap.Server.{
  LdapError, Directory, Entry, SearchRequest, Call, ask, reply, refuses_user, server_failure,
  unavailable, invalid_login,
}
use authn.Ldap.Config.{
  LdapConfig, Templates, Resolver, get_config, replace_all, filter_template, render_group_filter,
}

-- loginInfo
pub record LoginInfo : Type 0 where
  pub username : String
  pub password : String

-- What the login calls.
pub record Services (W Conn Template : Type 0) : Type 0 where
  pub directory : Directory W Conn
  pub templates : Templates Template
  pub resolver : Resolver W
  -- shortid.Generate
  pub new_id : W → String × W
  pub tokens : Tokens W
  -- Generator.Generate
  pub generate : String → Info → Act W (KubeConfig × Time)

-- The loop of groupNames, on the values of the entries' attribute.
unfoldable pub names_from : Dict Bool → List String → List String → List String
names_from seen groups [] = groups
names_from seen groups (name ∷ names) =
    let skipped = names_from seen groups names in
    let named = names_from (insert name true seen) (groups ++ name ∷ []) names in
    if name == "" || true_at (lookup name seen) then skipped else named

-- What the search for the user has to find: exactly one entry.
unfoldable pub only_entry : List Entry → Result Entry
only_entry [] = err (invalid_login (errorf "no users found" []))
only_entry (user ∷ []) = ok user
only_entry (user ∷ other ∷ entries) =
    err (caused 300 "AmbiguousUser" (errorf "too many entries found" []))

-- The failure of the bind as the user.
unfoldable pub user_bind_failure : LdapError → Error
user_bind_failure e =
    if refuses_user e then invalid_login e.error else server_failure "LDAPBindFailed" e

abbrev pub unrenderable : Error → Error
unrenderable e = failed "LDAPConfigInvalid" (wrapf "rendering spec.groupSearch.filter: %w" [] e)

-- The avatar of a user: Sprintf puts the name for the one verb of its format.
abbrev avatar_of : String → String
avatar_of name =
    String.◌++◌ "https://ui-avatars.com/api/?name="
      (String.◌++◌ name "&size=128&bold=true&background=random&rounded=true")

-- The login that is decoded from the body: the empty one where there is no body.
unfoldable pub login_info : BodyRead LoginInfo → Result LoginInfo
login_info (body lo) = ok lo
login_info (no_body e) =
    if not (is_empty_body_error e)
    then err (bad_request "InvalidRequestBody" (body_error e))
    else ok (record { username = ""; password = "" })

module _ {W Conn Template : Type 0} (services : Services W Conn Template) where
  open services use {directory, templates, resolver, new_id}
  open directory use {escape_filter, attribute_value, equal_fold_attribute_value, bind, search}

  abbrev pub values : String → List Entry → List String
  values name_attr [] = []
  values name_attr (entry ∷ entries) =
      equal_fold_attribute_value entry name_attr ∷ values name_attr entries

  -- groupNames
  unfoldable pub group_names : List Entry → String → List String
  group_names entries name_attr = names_from [] [] (values name_attr entries)

  -- The search for the entry of a user, and for the groups of an entry.
  unfoldable pub user_request : LdapConfig Template → String → SearchRequest
  user_request cfg username = record {
    base_dn = cfg.base_dn;
    filter = replace_all filter_template "$USERNAME" (escape_filter username);
    attributes = "uid" ∷ "cn" ∷ "mail" ∷ [];
  }

  abbrev pub group_request : LdapConfig Template → String → SearchRequest
  group_request cfg filter = record {
    base_dn = cfg.group_base_dn;
    filter = filter;
    attributes = cfg.group_name_attr ∷ [];
  }

  -- ldapEntryToUserInfo
  unfoldable pub entry_to_user_info : Entry → List String → Act W Info
  entry_to_user_info entry groups w = (
    ok (
        new_default_user (attribute_value entry "uid") (new_id w).0 groups (
          add "avatarUrl" (avatar_of (attribute_value entry "cn")) (
            add "email" (attribute_value entry "mail")
              (add "name" (attribute_value entry "cn") [])))),
    (new_id w).1,
  )

  abbrev pub secure : Bool → Conn → Call W (Unit {0})
  secure true conn w = directory.start_tls conn w
  secure false conn w = (reply tt, w)

  abbrev pub close : Conn → Act W (Unit {0})
  close conn w = (ok tt, directory.close conn w)

  abbrev pub filter_for : LdapConfig Template → Entry → String → Result String
  filter_for cfg user username =
      Check.or_err (render_group_filter templates escape_filter cfg.group_filter user.dn username)
        unrenderable

  -- doLogin on a connection
  unfoldable pub login_over : Conn → String → String → LdapConfig Template → Act W Info
  login_over conn username password cfg = do
    ask unavailable (secure cfg.tls conn)
    ask (server_failure "LDAPBindFailed") (bind conn cfg.bind_dn cfg.bind_secret)
    entries ← ask (server_failure "LDAPSearchFailed") (search conn (user_request cfg username))
    user ← lift (only_entry entries)
    ask user_bind_failure (bind conn user.dn password)
    filter ← lift (filter_for cfg user username)
    found ← ask (server_failure "LDAPSearchFailed") (search conn (group_request cfg filter))
    entry_to_user_info user (group_names found cfg.group_name_attr)

  -- doLogin
  unfoldable pub do_login : String → String → LdapConfig Template → Act W Info
  do_login username password cfg = do
    conn ← ask unavailable (directory.dial cfg.dial_url)
    finally (close conn) (login_over conn username password cfg)

  -- The handler, as far as the identity.
  unfoldable pub authenticate : String → Body LoginInfo → Act W Info
  authenticate name request_body = do
    lift (
        Check.require (not (name == ""))
          (bad_request "MissingConfigName" (errorf "LDAPConfig 'name' must be specified" [])))
    lo ← lift (login_info (json_body request_body))
    cfg ← get_config resolver templates escape_filter name
    do_login lo.username lo.password cfg

  module _ (jwt_duration : Duration) (jwt_private_key : Bool) (jwt_key_id : String) where
    abbrev pub extras : String → Info → Time → Extras
    extras name nfo not_after = record {
      user_info = some nfo;
      strategy = some (record { kind = "ldap"; name = name });
      jwt_duration = jwt_duration;
      jwt_private_key = jwt_private_key;
      jwt_key_id = jwt_key_id;
      cert_not_after = not_after;
    }

    unfoldable pub login : String → Body LoginInfo → Act W (Answer KubeConfig)
    login name request_body = do
      nfo ← authenticate name request_body
      issued ←
          or_fail (services.generate "ldap" nfo)
            (λ e. failed "IssuanceFailed" (wrapf "issuing clientconfig: %w" [] e))
      success services.tokens issued.0 (some (extras name nfo issued.1))

    -- loginRoute.Handler
    unfoldable pub handler : String → Body LoginInfo → W → Answer KubeConfig × W
    handler name request_body = handle (login name request_body)
