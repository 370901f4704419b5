-- ===== src/Ldap/Config.antt =====
-- The configuration of a login with a directory (getConfig and parseGroupFilter of
-- go/authn/internal/routes/auth/ldap/support.go, and LDAPConfigGet).
use Prim.Native.String
use authn.Prelude.{
  ℕ, zero, suc, String, Bool, false, Option, none, some, [], ◌∷◌, ◌==◌, ◌-◌, if◌then◌else◌,
}
use authn.Go.Text.{has_prefix}
use authn.Go.Error.{Error, errorf, wrapf, caused, str, is_not_found}
use authn.Go.Dict.{lookup, text_at}
use authn.Go.Act.{Result, ok, Act, ◌>>=◌, ◌>>◌, or_fail, lift, return}
use authn.Go.Check
use authn.Status.{failed}
use authn.Cluster.{Secrets, Os, SecretKeySelector, get_operator_namespace}

-- LDAPGroupSearch
pub record GroupSearch : Type 0 where
  pub base_dn : String
  pub filter : String
  pub name_attribute : String

-- LDAPConfigSpec, as a login reads it
pub record LdapConfigSpec : Type 0 where
  pub dial_url : String
  pub base_dn : String
  pub bind_dn : Option String
  pub bind_secret : Option SecretKeySelector
  pub tls : Option Bool
  pub group_search : Option GroupSearch

-- ldapConfig
pub record LdapConfig (Template : Type 0) : Type 0 where
  pub dial_url : String
  pub bind_dn : String
  pub bind_secret : String
  pub base_dn : String
  pub tls : Bool
  pub group_base_dn : String
  pub group_filter : Template
  pub group_name_attr : String

-- groupFilterVars
pub record GroupFilterVars : Type 0 where
  pub dn : String
  pub username : String

-- text/template, and go-ldap's CompileFilter.
pub record Templates (Template : Type 0) : Type 0 where
  pub parse : String → Result Template
  pub execute : Template → GroupFilterVars → Result String
  pub compile_filter : String → Result (Unit {0})

-- What reads the configuration.
pub record Resolver (W : Type 0) : Type 0 where
  pub os : Os W
  -- client.New
  pub new_client : Act W (Unit {0})
  -- an LDAPConfig, by namespace and name
  pub get_config : String → String → Act W LdapConfigSpec
  pub secrets : Secrets W
  pub is_path_segment : String → Bool

-- The number of code points of a text.
abbrev pub chars : String → ℕ
chars String.[] = 0
chars (String.◌∷◌ c s) = suc (chars s)

-- strings.ReplaceAll(s, old, new) for a non-empty `old`, after the code points that a match takes.
unfoldable pub replace_from : String → String → ℕ → String → String
replace_from old new k String.[] = String.[]
replace_from old new (suc k) (String.◌∷◌ c s) = replace_from old new k s
replace_from old new zero (String.◌∷◌ c s) =
    let matched = String.◌++◌ new (replace_from old new (chars old - 1) s) in
    let kept = String.◌∷◌ c (replace_from old new zero s) in
    if has_prefix (String.◌∷◌ c s) old then matched else kept

unfoldable pub replace_all : String → String → String → String
unfolding replace_from
replace_all s old new = replace_from old new 0 s

abbrev pub filter_template : String
filter_template = "(|(cn=$USERNAME)(uid=$USERNAME)(userPrincipalName=$USERNAME)(mail=$USERNAME))"

abbrev pub default_group_filter : String
default_group_filter = "(|(member={{.DN}})(uniqueMember={{.DN}}))"

abbrev pub default_group_name_attribute : String
default_group_name_attribute = "cn"

module _ {Template : Type 0} (templates : Templates Template)
    (escape_filter : String → String) where
  -- renderGroupFilter
  unfoldable pub render_group_filter : Template → String → String → Result String
  render_group_filter tmpl dn username =
      templates.execute tmpl (record { dn = escape_filter dn; username = escape_filter username })

  abbrev not_a_filter : String → Error → Error
  not_a_filter sample e = wrapf "it renders %q, not an LDAP filter: %w" (str sample ∷ []) e

  -- parseGroupFilter
  unfoldable pub parse_group_filter : String → Result Template
  parse_group_filter text = Check.◌>>=◌ (templates.parse text) (λ tmpl.
      Check.◌>>=◌ (render_group_filter tmpl "uid=sample,dc=example" "sample") (λ sample.
        Check.◌>>◌ (Check.or_err (templates.compile_filter sample) (not_a_filter sample))
          (ok tmpl)))

abbrev pub not_found_config : String → Error
not_found_config name =
    caused 404 "LDAPConfigNotFound" (errorf "LDAPConfig %q not found" (str name ∷ []))

-- The switch on the error of LDAPConfigGet.
unfoldable pub config_error : String → Error → Error
config_error name e =
    if is_not_found e
    then not_found_config name
    else failed "LDAPConfigLookupFailed" (wrapf "unable to resolve LDAP configuration: %w" [] e)

abbrev text_or : String → String → String
text_or d s = if s == "" then d else s

abbrev false_or_value : Option Bool → Bool
false_or_value none = false
false_or_value (some b) = b

-- spec.groupSearch with its defaults: the base, the filter and the attribute of the group search.
unfoldable pub group_search_of : LdapConfigSpec → Option GroupSearch → GroupSearch
group_search_of spec none = record {
  base_dn = spec.base_dn;
  filter = default_group_filter;
  name_attribute = default_group_name_attribute;
}
group_search_of spec (some gs) = record {
  base_dn = text_or spec.base_dn gs.base_dn;
  filter = text_or default_group_filter gs.filter;
  name_attribute = text_or default_group_name_attribute gs.name_attribute;
}

abbrev pub config_of :
    {Template : Type 0} → LdapConfigSpec → GroupSearch → Template → String → LdapConfig Template
config_of spec gs tmpl bind_secret = record {
  dial_url = spec.dial_url;
  bind_dn = text_at spec.bind_dn;
  bind_secret = bind_secret;
  base_dn = spec.base_dn;
  tls = false_or_value spec.tls;
  group_base_dn = gs.base_dn;
  group_filter = tmpl;
  group_name_attr = gs.name_attribute;
}

module _ {W Template : Type 0} (resolver : Resolver W) (templates : Templates Template)
    (escape_filter : String → String) where
  open resolver use {os, new_client, secrets}

  -- LDAPConfigGet
  unfoldable pub ldap_config_get : String → Act W LdapConfigSpec
  ldap_config_get name = do
    ns ← or_fail (get_operator_namespace os) (wrapf "unable to resolve service namespace: %w" [])
    new_client
    resolver.get_config ns name

  abbrev unreadable_secret : Error → Error
  unreadable_secret e = failed "LDAPConfigLookupFailed" (wrapf "reading the bind secret: %w" [] e)

  -- The bind password: none is the empty one.
  unfoldable pub bind_secret_of : Option SecretKeySelector → Act W String
  bind_secret_of none = return ""
  bind_secret_of (some ref) = do
    sec ← or_fail (secrets.get ref.namespace ref.name) unreadable_secret
    return (text_at (lookup ref.key sec.contents))

  abbrev unusable_filter : String → Error → Error
  unusable_filter name e =
      failed "LDAPConfigInvalid"
        (wrapf "LDAPConfig %q: invalid spec.groupSearch.filter: %w" (str name ∷ []) e)

  -- getConfig
  unfoldable pub get_config : String → Act W (LdapConfig Template)
  get_config name = do
    lift (Check.require (resolver.is_path_segment name) (not_found_config name))
    spec ← or_fail (ldap_config_get name) (config_error name)
    let gs = group_search_of spec spec.group_search
    tmpl ←
        lift (
          Check.or_err (parse_group_filter templates escape_filter gs.filter)
            (unusable_filter name))
    secret ← bind_secret_of spec.bind_secret
    return (config_of spec gs tmpl secret)
