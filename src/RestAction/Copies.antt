-- ===== src/RestAction/Copies.antt =====
-- go/authn/internal/helpers/restaction: the copy of a RESTAction for a user, and its removal
-- (resolver.go, restactions.go), and go/authn/internal/helpers/kube/secrets (CreateOrUpdate).
use Prim.Native.String
use authn.Prelude.{
  String, Bool, true, false, ◌&&◌, ◌||◌, Option, none, some, List, [], ◌∷◌, ◌++◌, ◌==◌,
  if◌then◌else◌,
}
use authn.Go.Error.{Error, wrapf, str, is_not_found}
use authn.Go.Dict.{has}
use authn.Go.Act.{Result, ok, err, Act, ◌>>=◌, ◌>>◌, or_fail, return}
use authn.Cluster.{Secret, Secrets, ObjectRef}

-- A stage of a RESTAction: its endpoint, and the rest of it.
pub record Stage : Type 0 where
  pub endpoint_ref : Option ObjectRef
  pub api : String

pub record RestAction : Type 0 where
  pub name : String
  pub namespace : String
  pub resource_version : String
  pub stages : List Stage

-- The calls of the Kubernetes API for Secrets and RESTActions, by namespace and name, and plumbing's
-- MakeDNS1123Compatible.
pub record Objects (W : Type 0) : Type 0 where
  pub secrets : Secrets W
  -- Delete of package secrets
  pub delete_secret : String → String → Act W (Unit {0})
  pub get_rest_action : String → String → Act W RestAction
  pub post_rest_action : RestAction → Act W (Unit {0})
  pub put_rest_action : RestAction → Act W (Unit {0})
  pub delete_rest_action : String → String → Act W (Unit {0})
  pub make_dns1123_compatible : String → String

-- hasSecret
unfoldable pub has_secret : List ObjectRef → ObjectRef → Bool
has_secret [] obj = false
has_secret (ref ∷ list) obj =
    (ref.name == obj.name) && (ref.namespace == obj.namespace) || has_secret list obj

module _ {W : Type 0} (objects : Objects W) where
  open objects use {
    secrets, delete_secret, get_rest_action, post_rest_action, put_rest_action, delete_rest_action,
    make_dns1123_compatible,
  }

  abbrev pub secret_written : Secret → Result Secret × W → Result (Unit {0}) × W
  secret_written sec (ok existing, w) =
      secrets.update (record sec { resource_version = existing.resource_version }) w
  secret_written sec (err e, w) = if is_not_found e then secrets.create sec w else (err e, w)

  -- CreateOrUpdate of package secrets
  unfoldable pub create_or_update_secret : Secret → Act W (Unit {0})
  create_or_update_secret sec w = secret_written sec (secrets.get sec.namespace sec.name w)

  abbrev pub rest_action_written : RestAction → Result RestAction × W → Result (Unit {0}) × W
  rest_action_written ra (ok existing, w) =
      put_rest_action (record ra { resource_version = existing.resource_version }) w
  rest_action_written ra (err e, w) = if is_not_found e then post_rest_action ra w else (err e, w)

  -- CreateOrUpdate
  unfoldable pub create_or_update : RestAction → Act W (Unit {0})
  create_or_update ra w = rest_action_written ra (get_rest_action ra.namespace ra.name w)

  unfoldable pub copied_name : String → String → String
  copied_name name email = String.◌++◌ name (String.◌++◌ "-" (make_dns1123_compatible email))

  -- The user's token is written where the Secret has none.
  unfoldable pub secret_copy : Secret → String → String → Secret
  secret_copy sec email bearer_token = record {
    name = copied_name sec.name email;
    namespace = sec.namespace;
    uid = "";
    resource_version = "";
    annotations = [];
    contents = sec.contents;
    string_data = if has "token" sec.contents then [] else ("token", bearer_token) ∷ [];
  }

  module _ (ref : ObjectRef) (email bearer_token : String) where
    abbrev unreadable : ObjectRef → Error → Error
    unreadable endpoint e =
        wrapf "could not read endpoint secret object for restaction %s %s, endpoint %s %s: %w"
          (str ref.name ∷ str ref.namespace ∷ str endpoint.name ∷ str endpoint.namespace ∷ []) e

    abbrev unwritten : ObjectRef → Secret → Error → Error
    unwritten endpoint sec e =
        wrapf
          "could not create copy of endpoint secret object for restaction %s (%s) %s, endpoint %s %s: %w"
          (str ref.name
            ∷ str ref.namespace
            ∷ str endpoint.name
            ∷ str sec.name
            ∷ str endpoint.namespace
            ∷ [])
          e

    -- The body of the loop over the stages: the stage as the copy has it.
    unfoldable pub copy_endpoint : Stage → Option ObjectRef → Act W Stage
    copy_endpoint stage none = return stage
    copy_endpoint stage (some endpoint) = do
      sec ← or_fail (secrets.get endpoint.namespace endpoint.name) (unreadable endpoint)
      or_fail (create_or_update_secret (secret_copy sec email bearer_token))
          (unwritten endpoint sec)
      return (record stage {
        endpoint_ref = some (record endpoint { name = copied_name sec.name email });
      })

    unfoldable pub copy_stages : List Stage → Act W (List Stage)
    copy_stages [] = return []
    copy_stages (stage ∷ stages) = do
      copy ← copy_endpoint stage stage.endpoint_ref
      copies ← copy_stages stages
      return (copy ∷ copies)

    abbrev pub rest_action_copy : RestAction → List Stage → RestAction
    rest_action_copy ra stages = record {
      name = copied_name ra.name email;
      namespace = ra.namespace;
      resource_version = "";
      stages = stages;
    }

    -- copyRestActionWithEndpoints
    unfoldable pub copy_rest_action_with_endpoints : Act W ObjectRef
    copy_rest_action_with_endpoints = do
      ra ← or_fail (get_rest_action ref.namespace ref.name) (
          wrapf "could not obtain restaction object for %s %s: %w"
            (str ref.name ∷ str ref.namespace ∷ []))
      stages ← copy_stages ra.stages
      or_fail (create_or_update (rest_action_copy ra stages)) (
          wrapf "could not create copy of restaction object for %s (%s) %s: %w"
            (str ref.name ∷ str (copied_name ra.name email) ∷ str ref.namespace ∷ []))
      return (record { name = copied_name ra.name email; namespace = ra.namespace })

  abbrev pub undeleted : ObjectRef → ObjectRef → Error → Error
  undeleted ref endpoint e =
      wrapf
        "could not delete copy of endpoint secret object for restaction %s %s, endpoint %s %s: %w"
        (str ref.name ∷ str ref.namespace ∷ str endpoint.name ∷ str endpoint.namespace ∷ []) e

  -- The loop over the stages, with the Secrets that are deleted already.
  unfoldable pub delete_endpoints : ObjectRef → List ObjectRef → List Stage → Act W (Unit {0})
  delete_endpoints ref deleted [] = return tt
  delete_endpoints ref deleted (stage ∷ stages) = elim stage.endpoint_ref [
    | none ↦ delete_endpoints ref deleted stages
    | some endpoint ↦ elim (has_secret deleted endpoint) [
      | true ↦ delete_endpoints ref deleted stages
      | false ↦
          or_fail (delete_secret endpoint.namespace endpoint.name) (undeleted ref endpoint)
          >> delete_endpoints ref (deleted ++ endpoint ∷ []) stages
    ]
  ]

  -- deleteRestActionCopyWithEndpoints
  unfoldable pub delete_rest_action_copy_with_endpoints : ObjectRef → Act W (Unit {0})
  delete_rest_action_copy_with_endpoints ref = do
    ra ← or_fail (get_rest_action ref.namespace ref.name) (
        wrapf "could not obtain restaction object to delete for %s %s: %w"
          (str ref.name ∷ str ref.namespace ∷ []))
    delete_endpoints ref [] ra.stages
    or_fail (delete_rest_action ref.namespace ref.name) (
        wrapf "could not delete copy of restaction object for %s %s: %w"
          (str ref.name ∷ str ref.namespace ∷ []))
