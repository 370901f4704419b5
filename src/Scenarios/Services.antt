-- ===== src/Scenarios/Services.antt =====
-- A login with the token of a ServiceAccount, at concrete inputs.
use authn.Prelude.{ℕ, suc, String, ◌≡◌, ◌↔◌, refl, none, some, [], ◌∷◌, ◌==◌}
use authn.Prelude.Int.{pos}
use authn.Go.Text.{drop_folded, has_prefix, drop_prefix, split_first, trim_space, is_space}
use authn.Go.Error.{Error, errorf}
use authn.Go.Act.{ok, err, after, rewrap}
use authn.Go.Check
use authn.Cluster.{get_operator_namespace}
use authn.UserInfo.{Info, new_default_user, set_groups, without_reserved, is_reserved}
use authn.UserInfo.Exts
use authn.Status.{refused}
use authn.ServiceAccount.Mapping.{
  Resolver, SaMapping, refers, match_all, select, service_account_for_sa,
}
use authn.ServiceAccount.Allowlist.{referring, decided, select-decided}
use authn.ServiceAccount.Reviewing.{Review, contains_audience, parse_service_account_username}
use authn.ServiceAccount.Usernames.{username_of, Nameable, parse_service_account_username_iff}
use authn.ServiceAccount.{Login, validate, bearer_token, audience_or_default}
use authn.ServiceAccount.Laws.{Admitted, validate-Admitted}
use authn.ServiceAccount.Blame.{Blamed, validate-Blamed}
use authn.Scenarios.{os, refuse}

abbrev builder : SaMapping
builder = record {
  name = "builder";
  service_account_ref = some (record { name = "ci"; namespace = "tools" });
  display_name = "Builder";
  groups = "dev" ∷ "krateo:loa:2" ∷ [];
}

abbrev deployer : SaMapping
deployer = record {
  name = "deployer";
  service_account_ref = some (record { name = "cd"; namespace = "tools" });
  display_name = "Deployer";
  groups = [];
}

abbrev unbound : SaMapping
unbound = record { name = "unbound"; service_account_ref = none; display_name = ""; groups = [] }

abbrev resolver : Resolver ℕ
resolver = record {
  os = os;
  new_client = λ w. (ok tt, w);
  list_mappings = λ ns w. (ok (unbound ∷ builder ∷ deployer ∷ []), w);
  get_mapping = λ ns name w. (err refuse, w);
}

abbrev review_of : String → Review
review_of token = record {
  authenticated = token == "good";
  username = "system:serviceaccount:tools:ci";
  audiences = "authn" ∷ [];
  error = "";
}

abbrev sa : Login ℕ
sa = record {
  new_clientset = λ w. (ok tt, w);
  review = λ token audiences w. (ok (review_of token), w);
  resolver = resolver;
  new_id = λ w. ("id", suc w);
  audience = "authn";
  tokens = record { now = λ w. pos 100; create_token = λ options w. (ok "token", w) };
  generate = λ strategy nfo w. (err refuse, w);
}

abbrev identity : Info
identity = record {
  name = "builder";
  id = "id";
  groups = "dev" ∷ [];
  extensions = ("name", "Builder" ∷ []) ∷ [];
  dropped = "krateo:loa:2" ∷ [];
}

let_in : validate sa "good" 0 ≡ (ok identity, 1)
unfolding validate Check.◌>>◌ Check.require Check.or_err Check.◌>>=◌ contains_audience
    parse_service_account_username service_account_for_sa select match_all refers
    get_operator_namespace after rewrap has_prefix drop_prefix split_first Exts.add new_default_user
    set_groups without_reserved is_reserved
let_in = refl

validate-Admitted_example : Admitted sa "good" identity
validate-Admitted_example = validate-Admitted sa "good" identity 0 1 let_in

abbrev refusal : Error
refusal = refused "TokenNotAuthenticated" (errorf "token not authenticated" [])

kept_out : validate sa "bad" 0 ≡ (err refusal, 0)
unfolding validate Check.◌>>◌ Check.require after rewrap
kept_out = refl

validate-Blamed_example : Blamed sa "bad" refusal 0
validate-Blamed_example = validate-Blamed sa "bad" refusal 0 0 kept_out

select-decided_example :
    select "tools" "ci" (builder ∷ deployer ∷ builder ∷ [])
    ≡ decided "tools" "ci" (referring "tools" "ci" (builder ∷ deployer ∷ builder ∷ []))
select-decided_example = select-decided "tools" "ci" (builder ∷ deployer ∷ builder ∷ [])

parse_service_account_username_iff_example :
    (parse_service_account_username "system:serviceaccount:tools:ci" ≡ ok ("tools", "ci"))
    ↔ (("system:serviceaccount:tools:ci" ≡ username_of "tools" "ci") × Nameable "tools" "ci")
parse_service_account_username_iff_example =
    parse_service_account_username_iff "system:serviceaccount:tools:ci" "tools" "ci"

bearer : bearer_token "bEaReR good " ≡ some "good"
unfolding bearer_token drop_folded trim_space is_space
bearer = refl

no_bearer : bearer_token "Bearer " ≡ none
unfolding bearer_token drop_folded
no_bearer = refl

default_kept : audience_or_default "" ≡ "authn"
unfolding audience_or_default
default_kept = refl
