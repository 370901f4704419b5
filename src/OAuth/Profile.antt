-- ===== src/OAuth/Profile.antt =====
-- The user of an OAuth login, as a RESTAction fills it in
-- (go/authn/internal/routes/auth/oauth/support.go).
use authn.Prelude.{String, List, [], ◌∷◌}
use authn.Go.Dict.{Dict}
use authn.Go.Json.{Json, null}
use authn.Go.Act.{Result, ok}
use authn.Go.Check.{◌>>=◌}
use authn.Oidc.Claims.{
  Field, name_field, email_field, username_field, groups_field, avatar_field, other_field, field,
  text_value, texts_value,
}

-- userInfo
pub record UserInfo : Type 0 where
  pub name : String
  pub email : String
  pub preferred_username : String
  pub groups : List String
  pub avatar_url : String

-- The cases of the switch.
unfoldable pub replace_at : Field → String → Json → UserInfo → Result UserInfo
replace_at name_field key v config = do s ← text_value key v; ok (record config { name = s })
replace_at email_field key v config = do s ← text_value key v; ok (record config { email = s })
replace_at username_field key v config = do
  s ← text_value key v
  ok (record config { preferred_username = s })
replace_at groups_field key v config = do gs ← texts_value key v; ok (record config { groups = gs })
replace_at avatar_field key v config = do
  s ← text_value key v
  ok (record config { avatar_url = s })
replace_at other_field key v config = ok config

-- The body of updateConfig's loop.
unfoldable pub replace_field : String → Json → UserInfo → Result UserInfo
replace_field key null config = ok config
replace_field key v config = replace_at (field key) key v config

-- updateConfig, on the entries of the map in the order in which the loop visits them
unfoldable pub update_config : Dict Json → UserInfo → Result UserInfo
update_config [] config = ok config
update_config ((key, v) ∷ entries) config = replace_field key v config >>= update_config entries
