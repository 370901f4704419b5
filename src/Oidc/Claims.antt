-- ===== src/Oidc/Claims.antt =====
-- The fields that a RESTAction replaces in an ID token (support.go).
pub mod Laws
use authn.Prelude.{
  String, Bool, true, false, Option, none, some, List, [], ◌∷◌, ◌==◌, if◌then◌else◌,
}
use authn.Go.Dict.{Dict}
use authn.Go.Error.{Error, errorf, str}
use authn.Go.Json.{Json, Items, null, string, array, all_strings}
use authn.Go.Act.{Result, ok, err}
use authn.Go.Check.{◌>>=◌, ◌>>◌}
use authn.Oidc.Token.{IdToken}

-- The cases of the two switches.
pub data Field : Type 0 where
  name_field email_field username_field groups_field avatar_field other_field : Field

unfoldable pub field : String → Field
field key =
    if key == "name"
    then name_field
    else if key == "email"
    then email_field
    else if key == "preferredUsername"
    then username_field
    else if key == "groups"
    then groups_field
    else if key == "avatarURL"
    then avatar_field
    else other_field

unfoldable pub text_value : String → Json → Result String
text_value key (string v) = ok v
text_value key v = err (errorf "error parsing updated config: %s is not type string" (str key ∷ []))

abbrev texts_or_error : String → Option (List String) → Result (List String)
texts_or_error key none =
    err (errorf "error parsing updated config: %s is not type string array" (str key ∷ []))
texts_or_error key (some v) = ok v

unfoldable pub texts_value : String → Json → Result (List String)
unfolding all_strings
texts_value key (array items) = texts_or_error key (all_strings items)
texts_value key v = err (errorf "error parsing updated config: %s is not type array" (str key ∷ []))

abbrev pub set_text : (String → IdToken) → Result String → Result IdToken
set_text put (ok v) = ok (put v)
set_text put (err e) = err e

abbrev pub set_texts : (List String → IdToken) → Result (List String) → Result IdToken
set_texts put (ok v) = ok (put v)
set_texts put (err e) = err e

abbrev pub update_at : Field → String → Json → IdToken → Result IdToken
update_at name_field key v config = set_text (λ s. record config { name = s }) (text_value key v)
update_at email_field key v config = set_text (λ s. record config { email = s }) (text_value key v)
update_at username_field key v config =
    set_text (λ s. record config { preferred_username = s }) (text_value key v)
update_at groups_field key v config =
    set_texts (λ gs. record config { groups = gs }) (texts_value key v)
update_at avatar_field key v config =
    set_text (λ s. record config { avatar_url = s }) (text_value key v)
update_at other_field key v config = ok config

-- The body of updateConfig's loop.
unfoldable pub update_field : String → Json → IdToken → Result IdToken
unfolding field text_value texts_value
update_field key null config = ok config
update_field key v config = update_at (field key) key v config

-- updateConfig, on the entries of the map in the order in which the loop visits them
unfoldable pub update_config : Dict Json → IdToken → Result IdToken
update_config [] config = ok config
update_config ((key, v) ∷ entries) config = update_field key v config >>= update_config entries

abbrev pub as_check : {A : Type 0} → Error → Result A → Result (Unit {0})
as_check e (ok a) = ok tt
as_check e (err e') = err e

abbrev pub check_at : Field → String → Json → Result (Unit {0})
check_at name_field key v = as_check (errorf "key name not string" []) (text_value key v)
check_at email_field key v = as_check (errorf "key email not string" []) (text_value key v)
check_at username_field key v =
    as_check (errorf "key preferredUsername not string" []) (text_value key v)
check_at groups_field key v = as_check (errorf "key groups not []any" []) (texts_value key v)
check_at avatar_field key v = as_check (errorf "key avatarURL not string" []) (text_value key v)
check_at other_field key v = err (errorf "found unexpected key: %s" (str key ∷ []))

-- The body of checkKeys's loop.
unfoldable pub check_key : String → Json → Result (Unit {0})
unfolding field text_value texts_value
check_key key null = ok tt
check_key key v = check_at (field key) key v

-- checkKeys, on the entries of the map in the order in which the loop visits them
unfoldable pub check_keys : Dict Json → Result (Unit {0})
check_keys [] = ok tt
check_keys ((key, v) ∷ entries) = check_key key v >> check_keys entries
