-- ===== src/ServiceAccount/Mapping.antt =====
-- go/authn/internal/helpers/kube/resolvers/serviceaccount.go: the ServiceAccount mappings, which are
-- the list of who may exchange a token.
use authn.Prelude.{
  String, Bool, false, ◌&&◌, Option, none, some, List, [], ◌∷◌, ◌==◌, if◌then◌else◌,
}
use authn.Go.Error.{Error, errorf, wrapf, str}
use authn.Go.Act.{Result, ok, err, Act, ◌>>=◌, ◌>>◌, or_fail, lift}
use authn.Go.Check
use authn.Cluster.{Os, get_operator_namespace}

pub record ServiceAccountRef : Type 0 where
  pub name : String
  pub namespace : String

-- A mapping: its spec, with its name.
pub record SaMapping : Type 0 where
  pub name : String
  pub service_account_ref : Option ServiceAccountRef
  pub display_name : String
  pub groups : List String

-- ErrNoMapping, ErrAmbiguousMapping
abbrev pub err_no_mapping : String
err_no_mapping = "no ServiceAccount mapping"

abbrev pub err_ambiguous_mapping : String
err_ambiguous_mapping = "ambiguous ServiceAccount mapping"

abbrev pub no_mapping : String → String → Error
no_mapping ns name =
    wrapf "%w for serviceaccount %s/%s (not in the exchange allowlist)" (str ns ∷ str name ∷ [])
      (errorf err_no_mapping [])

abbrev pub ambiguous_mapping : String → String → Error
ambiguous_mapping ns name =
    wrapf "%w: multiple ServiceAccount resources reference %s/%s" (str ns ∷ str name ∷ [])
      (errorf err_ambiguous_mapping [])

abbrev pub refers_to : String → String → Option ServiceAccountRef → Bool
refers_to ns name none = false
refers_to ns name (some ref) = (ref.namespace == ns) && (ref.name == name)

unfoldable pub refers : String → String → SaMapping → Bool
refers ns name m = refers_to ns name m.service_account_ref

module _ (ns name : String) where
  abbrev taken : Option SaMapping → SaMapping → Result (Option SaMapping)
  taken none m = ok (some m)
  taken (some first) m = err (ambiguous_mapping ns name)

  abbrev match_one : Option SaMapping → SaMapping → Result (Option SaMapping)
  match_one found m = if refers ns name m then taken found m else ok found

  -- The loop over the mappings, with the match so far.
  unfoldable pub match_all : Option SaMapping → List SaMapping → Result (Option SaMapping)
  match_all found [] = ok found
  match_all found (m ∷ items) = Check.◌>>=◌ (match_one found m) (λ next. match_all next items)

  abbrev pub matched : Option SaMapping → Result SaMapping
  matched none = err (no_mapping ns name)
  matched (some m) = ok m

  unfoldable pub select : List SaMapping → Result SaMapping
  unfolding match_all
  select items = Check.◌>>=◌ (match_all none items) matched

-- What the resolvers call.
pub record Resolver (W : Type 0) : Type 0 where
  pub os : Os W
  -- client.New
  pub new_client : Act W (Unit {0})
  -- the mappings of a namespace, and one by namespace and name
  pub list_mappings : String → Act W (List SaMapping)
  pub get_mapping : String → String → Act W SaMapping

module _ {W : Type 0} (res : Resolver W) where
  abbrev namespace : Act W String
  namespace =
      or_fail (get_operator_namespace res.os) (wrapf "unable to resolve service namespace: %w" [])

  -- ServiceAccountForSA
  unfoldable pub service_account_for_sa : String → String → Act W SaMapping
  service_account_for_sa sa_namespace sa_name = do
    ns ← namespace
    res.new_client
    items ← res.list_mappings ns
    lift (select sa_namespace sa_name items)

  -- ServiceAccountMappingGet
  unfoldable pub service_account_mapping_get : String → Act W SaMapping
  service_account_mapping_get name = do ns ← namespace; res.new_client; res.get_mapping ns name
