-- ===== src/Cluster.antt =====
-- What the program uses of the operating system and of the Kubernetes API for Secrets, as an
-- interface over a world (go/authn/internal/helpers/kube/secrets, kube/util).
use authn.Prelude.{String, ◌≡◌, Any, List, [], ◌==◌, if◌then◌else◌}
use authn.Go.Text.{trim_space}
use authn.Go.Error.{Error, errorf}
use authn.Go.Dict.{Dict}
use authn.Go.Act.{Result, ok, err, Act}

pub record Secret : Type 0 where
  pub name : String
  pub namespace : String
  pub uid : String
  pub resource_version : String
  pub annotations : Dict String
  -- what the API stores, as read back
  pub contents : Dict String
  -- StringData: what a writer sends
  pub string_data : Dict String

-- core.ObjectRef
pub record ObjectRef : Type 0 where
  pub name : String
  pub namespace : String

-- core.SecretKeySelector
pub record SecretKeySelector : Type 0 where
  pub name : String
  pub namespace : String
  pub key : String

-- core.Graphics
pub record Graphics : Type 0 where
  pub icon : String
  pub display_name : String
  pub background_color : String
  pub text_color : String

-- The calls of package secrets, and client-go's delete under preconditions.
pub record Secrets (W : Type 0) : Type 0 where
  -- by namespace and name
  pub get : String → String → Act W Secret
  pub list : String → Act W (List Secret)
  pub create : Secret → Act W (Unit {0})
  pub update : Secret → Act W (Unit {0})
  -- by namespace and name, only the object with this UID and resourceVersion
  pub delete : String → String → String → String → Act W (Unit {0})

-- A Secret that a listing of a namespace gave.
pub record Listed {W : Type 0} (secrets : Secrets W) (ns : String) (sec : Secret) : Type 0 where
  pub before : W
  pub later : W
  pub list : List Secret
  pub listed : secrets.list ns before ≡ (ok list, later)
  pub member : Any (λ s. s ≡ sec) list

-- os.ReadFile
pub data FileRead : Type 0 where
  contents : String → FileRead
  missing : FileRead
  unreadable : Error → FileRead

pub record Os (W : Type 0) : Type 0 where
  pub getenv : String → W → String
  pub read_file : String → W → FileRead

abbrev pub err_no_namespace : Error
err_no_namespace = errorf "namespace not found for current environment" []

abbrev namespace_in : FileRead → Result String
namespace_in (contents s) = ok (trim_space s)
namespace_in missing = err err_no_namespace
namespace_in (unreadable e) = err e

module _ {W : Type 0} where
  -- util.GetOperatorNamespace
  unfoldable pub get_operator_namespace : Os W → Act W String
  get_operator_namespace os w =
      if os.getenv "POD_NAMESPACE" w == ""
      then (
        namespace_in (os.read_file "/var/run/secrets/kubernetes.io/serviceaccount/namespace" w),
        w,
      )
      else (ok (os.getenv "POD_NAMESPACE" w), w)
