-- ===== src/Scenarios/Surface.antt =====
-- The routes of the service, its key set and its lists of strategies, at concrete inputs.
use authn.Prelude.{String, ◌≡◌, ◌↔◌, refl, some, List, [], ◌∷◌, ◌==◌, Distinct}
use authn.Go.Text.{split, split_first, trim_space, is_space}
use authn.Go.Dict.{lookup, insert}
use authn.Go.Act.{ok, err}
use authn.Go.Check.{◌>>=◌, ◌>>◌, require, or_err}
use authn.Jwks.{
  Key, Keys, parse_previous_keys, keys_from, key_of, kid_and_path, public_key_from_pem, is_current,
  endpoint, jwk,
}
use authn.Jwks.Laws.{Listed, Unused, parse_previous_keys_iff, jwks_of, kids, endpoint-Distinct}
use authn.Routes.{Handlers, serve, build_routes, surface}
use authn.Routes.Laws.{first_or, not_served, methods_at, serve_lem}
use authn.Scenarios.{refuse as refused}

-- A key is a text, and a file holds the key of its name.
abbrev keys : Keys String
keys = record {
  read_file = λ path. ok path;
  public_of_private = λ raw. err refused;
  parse_public = λ raw. ok raw;
  same_key = λ a b. a == b;
  modulus = λ k. k;
  exponent = λ k. "AQAB";
}

abbrev retired : List (Key String)
retired = record { kid = "key-1"; public = "old" } ∷ record { kid = "key-0"; public = "older" } ∷ []

abbrev spec : String
spec = " key-1 = old ,, key-0=older"

parsed : parse_previous_keys keys "key-2" (some "new") spec ≡ ok retired
unfolding parse_previous_keys keys_from key_of kid_and_path public_key_from_pem is_current split
    split_first trim_space is_space lookup insert ◌>>=◌ ◌>>◌ require or_err
parsed = refl

parse_previous_keys_iff_example :
    (parse_previous_keys keys "key-2" (some "new") spec ≡ ok retired)
    ↔ (Listed keys "key-2" (some "new") (split b',' spec) retired × Unused ("key-2" ∷ []) retired)
parse_previous_keys_iff_example = parse_previous_keys_iff keys "key-2" (some "new") spec retired

endpoint-Distinct_example :
    (endpoint keys "new" "key-2" retired
      ≡ jwk keys (record { kid = "key-2"; public = "new" }) ∷ jwks_of keys retired)
    × Distinct (kids (endpoint keys "new" "key-2" retired))
endpoint-Distinct_example = endpoint-Distinct keys "key-2" (some "new") "new" spec retired parsed

-- A handler is its name.
abbrev handlers : Handlers String
handlers = record {
  strategies = "strategies";
  health = "health";
  jwks = "jwks";
  basic = "basic";
  service_account = "service account";
  ldap = "ldap";
  oauth = λ token. "oauth";
  oidc = λ token. "oidc";
  step_up = λ token. "step-up";
}

built : build_routes handlers (λ options. ok "token") "authn" "kid" ≡ ok (surface handlers "token")
unfolding build_routes ◌>>=◌ or_err
built = refl

serve_lem_example :
    serve (surface handlers "token") "/basic/login" "POST"
    ≡ first_or "/basic/login" "POST"
        (not_served "/basic/login" (methods_at "/basic/login" (surface handlers "token")))
        (surface handlers "token")
serve_lem_example = serve_lem "/basic/login" "POST" (surface handlers "token")
