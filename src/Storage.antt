-- ===== src/Storage.antt =====
-- go/authn/internal/helpers/kube/config/storage: the Secrets that hold issued credentials, and the
-- annotations that record whom they were issued to (storage.go, identity.go).
pub mod Names
pub mod Groups
pub mod Writes
use Prim.Native.String
use Prim.Native.String.{len}
use authn.Prelude.{
  ℕ, String, Bool, true, false, ◌&&◌, Option, none, some, List, [], ◌∷◌, ltb, ◌==◌, if◌then◌else◌,
}
use authn.Go.Text.{has_suffix, contains_char, split, join}
use authn.Go.Dict.{Dict, merge}
use authn.Go.Error.{Error, errorf, wrapf, str, is_already_exists}
use authn.Go.Time.{Time}
use authn.Go.Act.{Result, ok, err, Act, after, throw, lift, or_fail, ◌>>=◌}
use authn.Cluster.{Secret, Secrets, Os, get_operator_namespace}
use authn.Cert.{Codec, Certificate, parse_certificate_base64}

abbrev pub client_cert_label : String
client_cert_label = "client-certificate-data"

abbrev pub not_before_annotation : String
not_before_annotation = "authn.krateo.io/certificate-not-before"

abbrev pub not_after_annotation : String
not_after_annotation = "authn.krateo.io/certificate-not-after"

abbrev pub strategy_annotation : String
strategy_annotation = "authn.krateo.io/strategy"

abbrev pub groups_annotation : String
groups_annotation = "authn.krateo.io/groups"

-- The code of groupSeparator, a newline.
abbrev pub newline : ℕ
newline = 10

abbrev pub group_separator : String
group_separator = "\n"

abbrev pub session_suffix : String
session_suffix = "-clientconfig"

abbrev pub step_up_suffix : String
step_up_suffix = "-clientconfig-stepup"

-- IsStepUpSecretName
unfoldable pub is_step_up_secret_name : String → Bool
is_step_up_secret_name name = has_suffix name step_up_suffix && ltb (len step_up_suffix) (len name)

-- ValidateGroups
unfoldable pub validate_groups : List String → Result (Unit {0})
validate_groups [] = ok tt
validate_groups (g ∷ groups) =
    if contains_char newline g
    then err (
        errorf "group %q contains a newline; it cannot be recorded in %s"
          (str g ∷ str groups_annotation ∷ []))
    else validate_groups groups

-- SplitGroups
unfoldable pub split_groups : String → List String
split_groups v = if v == "" then [] else split newline v

pub record AuthInfo : Type 0 where
  pub server : String
  pub proxy_url : String
  pub ca_data : String
  pub cert_data : String
  pub key_data : String
  pub strategy : String
  pub step_up : Bool

-- The libraries' part: certificates, RFC 3339 and plumbing's MakeDNS1123Compatible.
pub record Formats : Type 0 where
  pub codec : Codec
  pub rfc3339 : Time → String
  pub make_dns1123_compatible : String → String

module _ (formats : Formats) where
  open formats use {codec, rfc3339, make_dns1123_compatible}

  -- ClientConfigSecretName
  unfoldable pub client_config_secret_name : String → String
  client_config_secret_name username = String.◌++◌ (make_dns1123_compatible username) session_suffix

  -- StepUpSecretName
  unfoldable pub step_up_secret_name : String → String
  unfolding client_config_secret_name
  step_up_secret_name username = String.◌++◌ (client_config_secret_name username) "-stepup"

  abbrev pub validity : Result Certificate → Option (Dict String)
  validity (err e) = none
  validity (ok crt) = some (
      (not_before_annotation, rfc3339 crt.not_before)
      ∷ (not_after_annotation, rfc3339 crt.not_after)
      ∷ [])

  -- CertValidityAnnotations; `none` is the nil map
  unfoldable pub cert_validity_annotations : String → Option (Dict String)
  cert_validity_annotations cert_data = validity (parse_certificate_base64 codec cert_data)

  abbrev pub identity_of : String → List String → Result (Unit {0}) → Result (Dict String)
  identity_of strategy groups (err e) = err e
  identity_of strategy groups (ok _) =
      ok ((strategy_annotation, strategy) ∷ (groups_annotation, join group_separator groups) ∷ [])

  abbrev pub identity : String → Result Certificate → Result (Dict String)
  identity strategy (err e) = err (wrapf "identity annotations: %w" [] e)
  identity strategy (ok crt) =
      identity_of strategy crt.organization (validate_groups crt.organization)

  -- IdentityAnnotations
  unfoldable pub identity_annotations : String → String → Result (Dict String)
  identity_annotations strategy cert_data =
      if strategy == ""
      then err (errorf "identity annotations: empty strategy" [])
      else identity strategy (parse_certificate_base64 codec cert_data)

  abbrev or_empty : Option (Dict String) → Dict String
  or_empty none = []
  or_empty (some d) = d

  -- The Secret that `Put` sends.
  unfoldable pub secret_of : String → String → AuthInfo → Dict String → Secret
  secret_of ns name nfo identity_entries = record {
    name = if nfo.step_up then step_up_secret_name name else client_config_secret_name name;
    namespace = ns;
    uid = "";
    resource_version = "";
    annotations = merge (or_empty (cert_validity_annotations nfo.cert_data)) identity_entries;
    contents = [];
    string_data =
        ("certificate-authority-data", nfo.ca_data)
        ∷ (client_cert_label, nfo.cert_data)
        ∷ ("client-key-data", nfo.key_data)
        ∷ ("server-url", nfo.server)
        ∷ ("proxy-url", nfo.proxy_url)
        ∷ [];
  }

  module _ {W : Type 0} (secrets : Secrets W) (os : Os W) where
    abbrev pub created : Secret → Result (Unit {0}) × W → Result (Unit {0}) × W
    created sec (ok u, w) = (ok u, w)
    created sec (err e, w) = if is_already_exists e then secrets.update sec w else (err e, w)

    -- secretStore.Put
    unfoldable pub put : String → AuthInfo → Act W (Unit {0})
    put name nfo = do
      ns ← or_fail (get_operator_namespace os) (wrapf "unable to resolve service namespace: %w" [])
      entries ← lift (identity_annotations nfo.strategy nfo.cert_data)
      λ w.
          created (secret_of ns name nfo entries) (secrets.create (secret_of ns name nfo entries) w)
