-- ===== src/Scenarios/Backfilling.antt =====
-- A backfill of two credentials, one of them annotated already.
use authn.Prelude.{
  String, ◌≡◌, refl, ap, ◌∙◌, true, false, List, [], ◌∷◌, ◌==◌, if◌then◌else◌, All, slices_contains,
}
use authn.Go.Text.{has_suffix, is_space, join, contains_char}
use authn.Go.Act.{ok, after, rewrap}
use authn.Go.Check
use authn.Go.Dict.{Dict, lookup, has}
use authn.Cert.{parse_certificate_base64}
use authn.Cluster.{Secret, Secrets}
use authn.Storage.{
  client_cert_label, strategy_annotation, groups_annotation, identity_annotations, validate_groups,
}
use authn.Backfill.{
  Options, stamped_with, missing_annotations, client_config_suffix, absent_from, run,
  backfill_namespaces, backfill_secrets, backfill_one,
}
use authn.Backfill.Strategy.{Lookup, strategy_of}
use authn.Backfill.Safety.{Kept, run-kept}
use authn.Backfill.Settled.{backfill_one-settled}
use authn.Scenarios.{formats}

abbrev secret_with : String → Dict String → Secret
secret_with name annotations = record {
  name = name;
  namespace = "krateo";
  uid = "u";
  resource_version = "1";
  annotations = annotations;
  contents = (client_cert_label, "ada") ∷ [];
  string_data = [];
}

abbrev ada : Secret
ada = secret_with "ada-clientconfig" ((strategy_annotation, "oidc") ∷ [])

abbrev stored : List Secret
stored = ada ∷ secret_with "ada-password" [] ∷ []

-- The world is what was written.
abbrev secrets : Secrets (List Secret)
secrets = record {
  get = λ ns name w. (ok ada, w);
  list = λ ns w. (ok stored, w);
  create = λ sec w. (ok tt, sec ∷ w);
  update = λ sec w. (ok tt, sec ∷ w);
  delete = λ ns name uid rv w. (ok tt, w);
}

abbrev identities : Lookup (List Secret)
identities = record {
  service_account_mapping_exists = λ username w. (ok false, w);
  basic_user_exists = λ username w. (ok (username == "ada"), w);
}

abbrev options : Options (List Secret)
options = record {
  secrets = secrets;
  formats = formats;
  namespaces = "krateo" ∷ "" ∷ "krateo" ∷ [];
  self_username = "authn";
  identities = identities;
}

abbrev Sessions : List Secret → Type 0
Sessions w = All (λ s. has_suffix s.name client_config_suffix ≡ true) w

Sessions-Kept : Kept options Sessions
Sessions-Kept = record {
  list_kept = λ ns. record { keep = λ w p. p };
  mapping_kept = λ username. record { keep = λ w p. p };
  user_kept = λ username. record { keep = λ w p. p };
  update_kept = λ ns sec sec' l s. record {
    keep = λ w p. (ap (λ x. has_suffix x.name client_config_suffix) s.changed ∙ s.named, p);
  };
}

run-kept_example : Sessions (run options []).1
run-kept_example = run-kept options Sessions Sessions-Kept [] tt

stamped : (run options []).0.0 ≡ record { scanned = 1; stamped = 1; skipped = 0 }
unfolding run backfill_namespaces backfill_secrets backfill_one missing_annotations strategy_of
    slices_contains has_suffix rewrap has after Check.or_err parse_certificate_base64 lookup
    is_space identity_annotations validate_groups contains_char absent_from
stamped = refl

found_missing : missing_annotations options ada [] ≡ (ok ((groups_annotation, "dev\nops") ∷ []), [])
unfolding missing_annotations strategy_of has after Check.or_err parse_certificate_base64 lookup
    is_space rewrap identity_annotations validate_groups contains_char absent_from join
found_missing = refl

backfill_one-settled_example :
    backfill_one options
      (stamped_with ada ((groups_annotation, "dev\nops") ∷ []))
      (record { scanned = 0; stamped = 0; skipped = 0 })
      []
    ≡ (
      if has_suffix ada.name client_config_suffix
          then record { scanned = 1; stamped = 0; skipped = 0 }
          else record { scanned = 0; stamped = 0; skipped = 0 },
      [],
    )
backfill_one-settled_example =
    backfill_one-settled options ada (groups_annotation, "dev\nops") [] [] [] []
      (record { scanned = 0; stamped = 0; skipped = 0 }) found_missing

proved_basic : strategy_of identities "authn" "ada" [] ≡ (ok "basic", [])
unfolding strategy_of after rewrap
proved_basic = refl
