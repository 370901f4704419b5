-- ===== src/Scenarios/Completing.antt =====
-- Completing an identity with a RESTAction, at concrete inputs.
use authn.Prelude.{ℕ, String, ◌≡◌, refl, none, some, List, [], ◌∷◌, ◌++◌, ◌==◌, if◌then◌else◌}
use authn.Go.Error.{Error, wrapf, api, not_found, is_not_found, reason_of}
use authn.Go.Dict.{Dict}
use authn.Go.Json.{Json, string}
use authn.Go.Act.{ok, err, after, rewrap}
use authn.Go.Check
use authn.Cluster.{Secret, Secrets, ObjectRef}
use authn.RestAction.Copies.{
  Objects, RestAction, Stage, create_or_update_secret, create_or_update, copied_name, secret_copy,
  copy_endpoint, copy_stages, copy_rest_action_with_endpoints, delete_endpoints,
}
use authn.RestAction.{
  Snowplow, snowplow_error, snowplow_error_of, call, resolve, read_url, read_request,
  legacy_request, call_copy, legacy_resolve,
}
use authn.RestAction.Failures.{Told, failed-Told}
use authn.RestAction.Laws.{Resolved, resolve-Resolved}
use authn.RestAction.Deleting.{
  Once, SameSecrets, endpoints, fresh, delete_each, delete_endpoints-Once,
}

-- The world is the log of what was written and deleted.
abbrev Log : Type 0
Log = List String

abbrev endpoint : String → Stage
endpoint name = record {
  endpoint_ref = some (record { name = name; namespace = "krateo" });
  api = "api";
}

abbrev plain : Stage
plain = record { endpoint_ref = none; api = "api" }

abbrev action : String → List Stage → RestAction
action name stages = record {
  name = name;
  namespace = "krateo";
  resource_version = "1";
  stages = stages;
}

abbrev credential : String → Secret
credential name = record {
  name = name;
  namespace = "krateo";
  uid = "u";
  resource_version = "1";
  annotations = [];
  contents = ("server-url", "https://idp") ∷ [];
  string_data = [];
}

abbrev secrets : Secrets Log
secrets = record {
  get = λ ns name w. (if name == "idp" then ok (credential name) else err (api not_found), w);
  list = λ ns w. (ok [], w);
  create = λ sec w. (ok tt, w ++ "secret" ∷ []);
  update = λ sec w. (ok tt, w);
  delete = λ ns name uid rv w. (ok tt, w);
}

abbrev objects : Objects Log
objects = record {
  secrets = secrets;
  delete_secret = λ ns name w. (ok tt, w ++ "no secret" ∷ []);
  get_rest_action = λ ns name w. (
    if name == "profile"
        then ok (action "profile" (endpoint "idp" ∷ plain ∷ []))
        else ok (action name (endpoint "idp-ada" ∷ plain ∷ [])),
    w,
  );
  post_rest_action = λ ra w. (ok tt, w ++ "action" ∷ []);
  put_rest_action = λ ra w. (ok tt, w ++ "action" ∷ []);
  delete_rest_action = λ ns name w. (ok tt, w ++ "no action" ∷ []);
  make_dns1123_compatible = λ s. s;
}

abbrev ada_profile : Dict Json
ada_profile = ("email", string "ada@example.org") ∷ []

abbrev answering : ℕ → Snowplow Log
answering code = record {
  snowplow_url = "http://snowplow";
  access_token = some "jwt";
  marshal_extras = λ token. ok token;
  encode_query = λ query. "query";
  sprintf = λ format args. "http://snowplow/call";
  new_request = λ method address. ok tt;
  send = λ request w. (ok (record { status_code = code; body = ok "answer" }), w);
  unmarshal_status = λ raw. ok ada_profile;
  unmarshal_problem = λ raw. ("Unavailable", "down");
}

abbrev ref : ObjectRef
ref = record { name = "profile"; namespace = "krateo" }

abbrev copy : ObjectRef
copy = record { name = "profile-ada"; namespace = "krateo" }

resolved : resolve (answering 200) ref "token" [] ≡ (ok ada_profile, [])
unfolding resolve call read_url read_request after rewrap Check.require Check.or_err
resolved = refl

resolve-Resolved_example : Resolved (answering 200) ref "token" [] ada_profile []
resolve-Resolved_example = resolve-Resolved (answering 200) ref "token" ada_profile [] [] resolved

abbrev made : Log
made = "secret" ∷ "action" ∷ []

abbrev cleaned : Log
cleaned = "secret" ∷ "action" ∷ "no secret" ∷ "no action" ∷ []

copied : copy_rest_action_with_endpoints objects ref "ada" "token" [] ≡ (ok copy, made)
unfolding copy_rest_action_with_endpoints copy_stages copy_endpoint copied_name secret_copy
    create_or_update_secret create_or_update after rewrap is_not_found reason_of
copied = refl

abbrev unavailable : Error
unavailable = snowplow_error_of 503 "Unavailable" "down"

not_called : call_copy (answering 503) copy made ≡ (err unavailable, made)
unfolding call_copy call legacy_request snowplow_error after rewrap Check.or_err
not_called = refl

abbrev busy : Error
busy = wrapf "call: %w" [] (snowplow_error_of 503 "Unavailable" "busy")

failed-Told_example : Told busy
failed-Told_example = failed-Told busy

left_over : legacy_resolve (answering 503) objects ref "ada" "token" [] ≡ (err unavailable, made)
unfolding legacy_resolve copy_rest_action_with_endpoints copy_stages copy_endpoint copied_name
    secret_copy create_or_update_secret create_or_update call_copy call legacy_request
    snowplow_error after rewrap Check.or_err is_not_found reason_of
left_over = refl

abbrev stages : List Stage
stages = endpoint "idp" ∷ plain ∷ endpoint "users" ∷ endpoint "idp" ∷ []

delete_endpoints-Once_example :
    (delete_endpoints objects copy [] stages made
      ≡ delete_each objects copy (fresh [] (endpoints stages)) made)
    × (Once (fresh [] (endpoints stages))
        × SameSecrets (fresh [] (endpoints stages)) (endpoints stages))
delete_endpoints-Once_example = delete_endpoints-Once objects copy stages made
