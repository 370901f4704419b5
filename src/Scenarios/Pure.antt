-- ===== src/Scenarios/Pure.antt =====
-- Names, groups and answers at concrete inputs.
use authn.Prelude.{zero, suc, String, ◌≡◌, ◌≢◌, refl, ◌↔◌, some, List, [], ◌∷◌, arith}
use authn.Prelude.Int.{pos, ◌≤ℤ◌, ◌-ℤ◌, ◌+ℤ◌}
use authn.Go.Error.{errorf, caused_privately}
use authn.Go.Text.{join, contains_char}
use authn.Go.Time.{min_duration}
use authn.Go.Act.{ok}
use authn.Storage.{
  validate_groups, split_groups, group_separator, client_config_secret_name, step_up_secret_name,
}
use authn.Storage.Groups.{split_groups-join_iff}
use authn.Storage.Names.{session-ne-step_up}
use authn.Status.{from_error}
use authn.Status.Laws.{disclose, from_error-disclose}
use authn.Cert.{parse_certificate_pem, parse_blocks}
use authn.Cert.Parsing.{Shrinks, parse_certificate_pem-fuel}
use authn.Encode.{token_duration}
use authn.Encode.Laws.{token_duration-within}
use authn.Scenarios.{formats, codec}

abbrev groups : List String
groups = "dev" ∷ "ops" ∷ []

groups_valid : validate_groups groups ≡ ok tt
unfolding validate_groups contains_char
groups_valid = refl

split_groups-join_iff_example :
    (split_groups (join group_separator groups) ≡ groups) ↔ (groups ≢ "" ∷ [])
split_groups-join_iff_example = split_groups-join_iff groups groups_valid

session-ne-step_up_example :
    client_config_secret_name formats "ada-clientconfig" ≢ step_up_secret_name formats "ada"
session-ne-step_up_example = session-ne-step_up formats "ada-clientconfig" "ada"

from_error-disclose_example :
    from_error (disclose (caused_privately 403 "Refused" (errorf "no" []) (errorf "secret" [])))
    ≡ from_error (caused_privately 403 "Refused" (errorf "no" []) (errorf "secret" []))
from_error-disclose_example =
    from_error-disclose (caused_privately 403 "Refused" (errorf "no" []) (errorf "secret" []))

codec-Shrinks : Shrinks codec
codec-Shrinks [] rest block e = cc
codec-Shrinks (zero ∷ bytes) rest block e = cc
codec-Shrinks (suc (suc n) ∷ bytes) rest block e = cc
codec-Shrinks (suc zero ∷ []) rest block e =
    let none_left : [] ≡ rest = cc in rw (← none_left) (omega arith)
codec-Shrinks (suc zero ∷ m ∷ bytes) rest block e = cc

parse_certificate_pem-fuel_example :
    parse_blocks codec 9 (1 ∷ []) ≡ some (parse_certificate_pem codec (1 ∷ []))
parse_certificate_pem-fuel_example =
    parse_certificate_pem-fuel codec codec-Shrinks 9 (1 ∷ []) (omega arith)

dated : pos 3600 ≢ pos 0
dated e = ground arith

recent : min_duration ≤ℤ pos 3600 -ℤ pos 600
unfolding ◌-ℤ◌
recent = omega arith

token_duration-within_example :
    pos 600 +ℤ token_duration (pos 600) (pos 9000) (pos 3600) ≤ℤ pos 3600
token_duration-within_example = token_duration-within (pos 600) (pos 9000) (pos 3600) dated recent
