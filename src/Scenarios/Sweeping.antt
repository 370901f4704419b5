-- ===== src/Scenarios/Sweeping.antt =====
-- A sweep that leaves a session credential.
use authn.Prelude.{
  String, ◌≡◌, refl, sym, ◌∙◌, true, false, List, [], ◌∷◌, ◌==◌, if◌then◌else◌, Any, inl, inr,
  Bool-cases, eq_iff, slices_contains,
}
use authn.Prelude.Int.{pos, ◌+ℤ◌}
use authn.Go.Text.{has_suffix, trim_space, is_space}
use authn.Go.Act.{ok}
use authn.Go.Dict.{lookup}
use authn.Go.Time.{add}
use authn.Cert.{parse_certificate_base64, parse_certificate_pem, parse_blocks}
use authn.Cluster.{Secret, Secrets}
use authn.Storage.{is_step_up_secret_name, client_cert_label}
use authn.Sweep.{Options, sweep, sweep_namespaces, sweep_secrets, sweep_one, go_on}
use authn.Sweep.Safety.{Kept, sweep-kept}
use authn.Scenarios.{codec}

-- The world is what the cluster stores.
unfoldable pub remove : String → List Secret → List Secret
remove name [] = []
remove name (s ∷ w) = let rest = remove name w in if s.name == name then rest else s ∷ rest

abbrev pub secret_named : String → Secret
secret_named name = record {
  name = name;
  namespace = "krateo";
  uid = "u";
  resource_version = "1";
  annotations = [];
  contents = (client_cert_label, "ada") ∷ [];
  string_data = [];
}

abbrev pub secrets : Secrets (List Secret)
secrets = record {
  get = λ ns name w. (ok (secret_named name), w);
  list = λ ns w. (ok w, w);
  create = λ sec w. (ok tt, sec ∷ w);
  update = λ sec w. (ok tt, w);
  delete = λ ns name uid rv w. (ok tt, remove name w);
}

abbrev options : Options (List Secret)
options = record {
  secrets = secrets;
  codec = codec;
  namespaces = "krateo" ∷ [];
  grace = pos 0;
  now = λ w. pos 1_000_000_000_000_000;
}

-- The session credential of ada is still there.
abbrev pub Logged : List Secret → Type 0
Logged w = Any (λ s. s.name ≡ "ada-clientconfig") w

session_named : is_step_up_secret_name "ada-clientconfig" ≡ false
unfolding is_step_up_secret_name has_suffix
session_named = refl

pub remove-Logged :
    (name : String) (w : List Secret)
    → is_step_up_secret_name name ≡ true
    → Logged w
    → Logged (remove name w)
unfolding remove
remove-Logged name [] s m = m
remove-Logged name (x ∷ w) s m = elim (Bool-cases (x.name == name)) [
  | inl e ↦ rw e (elim m [
    | inl p ↦ absurd (clash p ((eq_iff x.name name).0 e))
    | inr n ↦ remove-Logged name w s n
  ])
  | inr e ↦ rw e (elim m [ inl p ↦ inl p | inr n ↦ inr (remove-Logged name w s n) ])
]
  where
    clash : x.name ≡ "ada-clientconfig" → x.name ≡ name → ⊥
    clash p q = let named : "ada-clientconfig" ≡ name = sym p ∙ q in cc (s, session_named)

Logged-Kept : Kept options Logged
Logged-Kept = record {
  list_kept = λ ns w p. p;
  delete_kept = λ ns sec w l e p. remove-Logged sec.name w e.step_up p;
}

abbrev cluster : List Secret
cluster = secret_named "ada-clientconfig" ∷ secret_named "ada-clientconfig-stepup" ∷ []

sweep-kept_example : Logged (sweep options cluster).1
sweep-kept_example = sweep-kept options Logged Logged-Kept cluster (inl refl)

swept : (sweep options cluster).0.0.deleted ≡ 1
unfolding sweep sweep_namespaces sweep_secrets sweep_one go_on remove slices_contains
    is_step_up_secret_name has_suffix lookup parse_certificate_base64 parse_certificate_pem
    parse_blocks trim_space is_space add ◌+ℤ◌
swept = refl
