-- ===== src/UserInfo.antt =====
-- go/authn/internal/helpers/userinfo: the identity of an authenticated user, and the groups that only
-- authn grants (userinfo.go, extensions.go). `Info` has one implementation, `DefaultUser`.
pub mod Exts
pub mod Groups
use Prim.Native.String
use authn.Prelude.{ℕ, zero, suc, ◌/◌, ◌%◌, String, Bool, List, [], ◌∷◌, ◌++◌, ltb, if◌then◌else◌}
use authn.Go.Text.{has_prefix}
use authn.UserInfo.Exts.{Extensions}

-- fmt's `%d` of a number below ten.
abbrev digit : ℕ → String
digit zero = "0"
digit (suc zero) = "1"
digit (suc (suc zero)) = "2"
digit (suc (suc (suc zero))) = "3"
digit (suc (suc (suc (suc zero)))) = "4"
digit (suc (suc (suc (suc (suc zero))))) = "5"
digit (suc (suc (suc (suc (suc (suc zero)))))) = "6"
digit (suc (suc (suc (suc (suc (suc (suc zero))))))) = "7"
digit (suc (suc (suc (suc (suc (suc (suc (suc zero)))))))) = "8"
digit _ = "9"

-- fmt's `%d`, on as many digits as the fuel allows.
abbrev decimal_from : ℕ → ℕ → String
decimal_from zero n = String.[]
decimal_from (suc f) n =
    let rest = decimal_from f (n / 10) in
    if ltb n 10 then digit n else String.◌++◌ rest (digit (n % 10))

abbrev pub decimal : ℕ → String
decimal n = decimal_from (suc n) n

abbrev pub reserved_group_prefix : String
reserved_group_prefix = "krateo:loa:"

unfoldable pub step_up_group : ℕ → String
step_up_group level = String.◌++◌ reserved_group_prefix (decimal level)

unfoldable pub is_reserved : String → Bool
is_reserved group = has_prefix group reserved_group_prefix

abbrev pub keep : String → List String × List String → List String × List String
keep g (kept, dropped) = (g ∷ kept, dropped)

abbrev pub drop : String → List String × List String → List String × List String
drop g (kept, dropped) = (kept, g ∷ dropped)

-- The groups an identity source may assert, and the reserved ones it may not.
unfoldable pub without_reserved : List String → List String × List String
without_reserved [] = ([], [])
without_reserved (g ∷ groups) =
    let rest = without_reserved groups in if is_reserved g then drop g rest else keep g rest

pub record DefaultUser : Type 0 where
  pub name : String
  pub id : String
  pub groups : List String
  pub extensions : Extensions
  pub dropped : List String

abbrev pub Info : Type 0
Info = DefaultUser

-- SetGroups
unfoldable pub set_groups : List String → DefaultUser → DefaultUser
unfolding without_reserved
set_groups groups d = record d {
  groups = (without_reserved groups).0;
  dropped = (without_reserved groups).1;
}

-- NewDefaultUser
unfoldable pub new_default_user : String → String → List String → Extensions → DefaultUser
unfolding set_groups
new_default_user name id groups extensions =
    set_groups groups
      (record { name = name; id = id; groups = []; extensions = extensions; dropped = [] })

-- NewStepUpUser
unfoldable pub new_step_up_user : Info → ℕ → DefaultUser
unfolding step_up_group
new_step_up_user base level = record {
  name = base.name;
  id = base.id;
  groups = base.groups ++ step_up_group level ∷ [];
  extensions = base.extensions;
  dropped = base.dropped;
}
