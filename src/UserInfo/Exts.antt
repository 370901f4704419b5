-- ===== src/UserInfo/Exts.antt =====
-- go/authn/internal/helpers/userinfo/extensions.go: additional information on a user.
use authn.Prelude.{String, Option, none, some, List, [], ◌∷◌, ◌++◌}
use authn.Go.Dict.{Dict, lookup, insert}

abbrev pub Extensions : Type 0
Extensions = Dict (List String)

abbrev values_or_nil : Option (List String) → List String
values_or_nil none = []
values_or_nil (some vs) = vs

abbrev first_or_empty : List String → String
first_or_empty [] = ""
first_or_empty (v ∷ vs) = v

-- Extensions.Add
unfoldable pub add : String → String → Extensions → Extensions
unfolding lookup insert
add key value exts = insert key (values_or_nil (lookup key exts) ++ value ∷ []) exts

-- Extensions.Get: the first value of a key, "" where there is none
unfoldable pub get : String → Extensions → String
unfolding lookup
get key exts = first_or_empty (values_or_nil (lookup key exts))
