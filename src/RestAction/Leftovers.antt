-- ===== src/RestAction/Leftovers.antt =====
-- What becomes of the copies of a RESTAction, which hold the user's token (resolver.go).
use authn.Prelude.{String, ◌≡◌, List}
use authn.Go.Dict.{Dict}
use authn.Go.Json.{Json}
use authn.Go.Act.{ok}
use authn.Go.Act.Triple.{Triple}
use authn.Cluster.{ObjectRef}
use authn.RestAction.Copies.{Objects, RestAction, copy_rest_action_with_endpoints}
use authn.RestAction.Deleting.{Once, SameSecrets, endpoints, delete_each}
use authn.RestAction.{Snowplow, call_copy}

module _ {W : Type 0} (snowplow : Snowplow W) (objects : Objects W) where
  open objects use {get_rest_action, delete_rest_action}

  -- A copy that was removed: it was read, the endpoint Secrets of its stages were deleted one after the
  -- other, each once, and then the copy was deleted.
  pub record Removed (copy : ObjectRef) (before later : W) : Type 0 where
    pub action : RestAction
    pub seen : W
    pub looked_up : get_rest_action copy.namespace copy.name before ≡ (ok action, seen)
    pub secrets : List ObjectRef
    pub once : Once secrets
    pub named : SameSecrets secrets (endpoints action.stages)
    pub emptied : W
    pub deleted : delete_each objects copy secrets seen ≡ (ok tt, emptied)
    pub gone : delete_rest_action copy.namespace copy.name emptied ≡ (ok tt, later)

  -- A copy that was made, called and removed, one after the other.
  pub record Cleaned (ref : ObjectRef) (email bearer_token : String) (w : W) (values : Dict Json)
      (u : W) : Type 0 where
    pub copy : ObjectRef
    pub copied : W
    pub made : copy_rest_action_with_endpoints objects ref email bearer_token w ≡ (ok copy, copied)
    pub called : W
    pub answered : call_copy snowplow copy copied ≡ (ok values, called)
    pub removed : Removed copy called u
