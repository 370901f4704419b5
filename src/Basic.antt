-- ===== src/Basic.antt =====
-- go/authn/internal/routes/auth/basic: logging in with a password (login.go), and
-- go/authn/internal/helpers/kube/resolvers/basic.go (UserGet).
pub mod Laws
use authn.Cluster.{SecretKeySelector}
use authn.Prelude.{
  ℕ, String, Bool, true, false, not, ◌||◌, Option, none, some, List, [], ◌∷◌, ◌==◌, if◌then◌else◌,
}
use authn.Go.Error.{Error, errorf, wrapf, joined, str, is_not_found}
use authn.Go.Time.{Time, Duration}
use authn.Go.Dict.{lookup}
use authn.Go.Act.{Result, ok, err, Act, ◌>>=◌, ◌>>◌, or_fail, lift, return}
use authn.Status.{refused_privately, failed, new, with_cause, error_text}
use authn.UserInfo.{Info, new_default_user}
use authn.UserInfo.Exts.{add}
use authn.Cluster.{Secret, Secrets, Os, get_operator_namespace}
use authn.Kubeconfig.{KubeConfig}
use authn.Encode.{Answer, Tokens, Extras, Strategy, refusal, attached, success, handle}

-- The spec of a User, with its name.
pub record BasicUser : Type 0 where
  pub name : String
  pub display_name : String
  pub avatar_url : String
  pub groups : List String
  pub password_ref : Option SecretKeySelector

-- What the login calls, and its decoy Secret.
pub record Login (W : Type 0) : Type 0 where
  pub os : Os W
  pub secrets : Secrets W
  -- client.New
  pub new_client : Act W (Unit {0})
  -- a User, by namespace and name
  pub get_user : String → String → Act W BasicUser
  pub is_path_segment : String → Bool
  -- comparePassword: whether the SHA-256 digests are the same
  pub compare_password : String → String → Bool
  -- shortid.Generate
  pub new_id : W → String × W
  pub decoy_secret : Option SecretKeySelector
  pub tokens : Tokens W
  -- Generator.Generate
  pub generate : String → Info → Act W (KubeConfig × Time)

-- invalidCredentials
unfoldable pub invalid_credentials : Error → Error
invalid_credentials reason =
    refused_privately "InvalidCredentials" (errorf "invalid credentials" []) reason

module _ {W : Type 0} (basic : Login W) where
  open basic use {
    os, secrets, new_client, get_user, is_path_segment, compare_password, new_id, decoy_secret,
  }

  -- resolvers.UserGet
  unfoldable pub user_get : String → Act W BasicUser
  user_get name = do
    ns ← or_fail (get_operator_namespace os) (wrapf "unable to resolve service namespace: %w" [])
    new_client
    get_user ns name

  abbrev unknown_user_password : String
  unknown_user_password = "authn: no such user"

  abbrev decoy_value : String → Option String → String × Option Error
  decoy_value key none =
      (unknown_user_password, some (errorf "the decoy Secret has no key %q" (str key ∷ [])))
  decoy_value key (some pwd) = (pwd, none)

  abbrev decoy_read : String → Result Secret × W → (String × Option Error) × W
  decoy_read key (err e, w) =
      ((unknown_user_password, some (wrapf "reading the decoy Secret: %w" [] e)), w)
  decoy_read key (ok sec, w) = (decoy_value key (lookup key sec.contents), w)

  abbrev decoy_of : Option SecretKeySelector → W → (String × Option Error) × W
  decoy_of none w = ((unknown_user_password, none), w)
  decoy_of (some ref) w = decoy_read ref.key (secrets.get ref.namespace ref.name w)

  -- decoyPassword: the value, and the failure of its reading
  unfoldable pub decoy_password : W → (String × Option Error) × W
  decoy_password w = decoy_of decoy_secret w

  -- errors.Join, which drops a nil error
  abbrev pub join_errors : Error → Option Error → Error
  join_errors e none = e
  join_errors e (some d) = joined e d

  -- The refusal of an unknown user; the outcome of comparing the decoy is dropped.
  abbrev pub unknown_user : Error → (String × Option Error) × W → Result BasicUser × W
  unknown_user e ((decoy, failure), w) = (err (invalid_credentials (join_errors e failure)), w)

  abbrev pub found_user : String → Result BasicUser × W → Result BasicUser × W
  found_user username (ok usr, w) = (ok usr, w)
  found_user username (err e, w) =
      if is_not_found e
      then unknown_user e (decoy_password w)
      else (err (failed "UserLookupFailed" (wrapf "reading User %q: %w" (str username ∷ []) e)), w)

  abbrev pub known_user : String → Act W BasicUser
  known_user username w = found_user username (user_get username w)

  abbrev pub password_ref_of : String → Option SecretKeySelector → Result SecretKeySelector
  password_ref_of username none =
      err
        (failed "PasswordSecretMissing" (errorf "user '%s' has no passwordRef" (str username ∷ [])))
  password_ref_of username (some ref) = ok ref

  abbrev pub secret_failure : String → Error → Error
  secret_failure username e =
      if is_not_found e
      then failed "PasswordSecretMissing" e
      else failed "PasswordLookupFailed"
          (wrapf "reading the password of user '%s': %w" (str username ∷ []) e)

  abbrev pub password_in : String → Option String → Result String
  password_in username none = err (
      failed "PasswordSecretMissing"
        (errorf "password for user '%s' not found" (str username ∷ [])))
  password_in username (some pwd) = ok pwd

  abbrev pub compared : String → Bool → Result (Unit {0})
  compared username true = ok tt
  compared username false =
      err (invalid_credentials (errorf "wrong password for user %q" (str username ∷ [])))

  abbrev pub valid_name : String → Result (Unit {0})
  valid_name username =
      if not (is_path_segment username) || username == ""
      then err (invalid_credentials (errorf "%q is not a valid User name" (str username ∷ [])))
      else ok tt

  abbrev pub identity : BasicUser → Act W Info
  identity usr w = (
    ok (
        new_default_user usr.name (new_id w).0 usr.groups
          (add "avatarUrl" usr.avatar_url (add "name" usr.display_name []))),
    (new_id w).1,
  )

  -- validate
  unfoldable pub validate : String → String → Act W Info
  validate username password = do
    lift (valid_name username)
    usr ← known_user username
    ref ← lift (password_ref_of username usr.password_ref)
    sec ← or_fail (secrets.get ref.namespace ref.name) (secret_failure username)
    pwd ← lift (password_in username (lookup ref.key sec.contents))
    lift (compared username (compare_password password pwd))
    identity usr

  module _ (jwt_duration : Duration) (jwt_private_key : Bool) (jwt_key_id : String) where
    abbrev extras : Info → Time → Extras
    extras user not_after = record {
      user_info = some user;
      strategy = some (record { kind = "basic"; name = "" });
      jwt_duration = jwt_duration;
      jwt_private_key = jwt_private_key;
      jwt_key_id = jwt_key_id;
      cert_not_after = not_after;
    }

    abbrev deliver : String → Bool → Info → KubeConfig × Time → Act W (Answer KubeConfig)
    deliver username as_file user issued =
        if as_file
        then return (attached username issued.0)
        else success basic.tokens issued.0 (some (extras user issued.1))

    unfoldable pub login : String → String → Bool → Act W (Answer KubeConfig)
    login username password as_file = do
      user ← validate username password
      issued ←
          or_fail (basic.generate "basic" user)
            (λ e. failed "IssuanceFailed" (wrapf "issuing clientconfig: %w" [] e))
      deliver username as_file user issued

    abbrev missing_credentials : Error
    missing_credentials = errorf "missing basic credentials" []

    -- loginRoute.Handler, on what BasicAuth finds and on whether the query has "d"
    unfoldable pub handler : Option (String × String) → Bool → W → Answer KubeConfig × W
    handler none as_file w = (
      refusal (
          with_cause "MissingCredentials" (error_text missing_credentials)
            (new 401 (some (error_text missing_credentials)))),
      w,
    )
    handler (some (username, password)) as_file w = handle (login username password as_file) w
