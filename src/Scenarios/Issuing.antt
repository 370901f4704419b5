-- ===== src/Scenarios/Issuing.antt =====
-- Storing and issuing a credential at concrete inputs.
use authn.Prelude.{ℕ, suc, zero, ◌≡◌, refl, [], ◌∷◌}
use authn.Prelude.Int.{pos}
use authn.Go.Text.{trim_space, is_space, contains_char}
use authn.Go.Act.{ok, err, err≢ok, after, rewrap}
use authn.Cluster.{get_operator_namespace}
use authn.Cert.{parse_certificate_pem, parse_certificate_base64, parse_blocks}
use authn.UserInfo.{Info}
use authn.Storage.{put, identity_annotations, validate_groups}
use authn.Storage.Writes.{Put, put-Put}
use authn.Kubeconfig.{Environment, Generator, Signer, KubeConfig}
use authn.Kubeconfig.Generate.{RoundTrip}
use authn.Scenarios.{formats, os, secrets, nfo, refuse}

stored : put formats secrets os "ada" nfo 0 ≡ (ok tt, 1)
unfolding put get_operator_namespace identity_annotations parse_certificate_base64
    parse_certificate_pem parse_blocks trim_space is_space validate_groups contains_char after
    rewrap
stored = refl

put-Put_example : Put formats secrets os "ada" nfo 0 1
put-Put_example = put-Put formats secrets os "ada" nfo 0 1 stored

abbrev ada : Info
ada = record { name = "ada"; id = "1"; groups = "dev" ∷ "ops" ∷ []; extensions = []; dropped = [] }

abbrev stepped_up : Info
stepped_up = record ada { groups = "dev" ∷ "krateo:loa:2" ∷ [] }

abbrev pub signer : Signer ℕ
signer = record {
  new_private_key = λ w. (ok "key", w);
  create_request = λ key user groups w. (ok [], w);
  int32_seconds = λ d. d;
  create = λ req w. (ok (record { name = "ada-x"; uid = "u" }), w);
  approve = λ csr w. (ok tt, w);
  wait = λ name uid w. (ok (1 ∷ []), w);
  delete = λ name w. (ok tt, w);
  encode_base64 = λ bytes. "ada";
  encode_key = λ key. key;
}

abbrev pub environment : Environment ℕ
environment = record {
  formats = formats;
  os = os;
  secrets = secrets;
  signer = signer;
  new_client = λ w. (ok tt, w);
  config_map = λ ns name w. (err refuse, w);
  join_host_port = λ host port. host;
  base64_of_text = λ s. s;
}

abbrev pub generator : Generator
generator = record {
  ca_data = "ca";
  proxy_url = "";
  cluster_name = "krateo";
  kubernetes_url = "https://api";
  cert_duration = pos 9000;
}

pub round_trip : RoundTrip environment
unfolding parse_certificate_pem parse_blocks trim_space is_space
round_trip [] crt e = absurd (err≢ok e)
round_trip (zero ∷ bytes) crt e = absurd (err≢ok e)
round_trip (suc (suc n) ∷ bytes) crt e = absurd (err≢ok e)
round_trip (suc zero ∷ m ∷ bytes) crt e = absurd (err≢ok e)
round_trip (suc zero ∷ []) crt e = refl

abbrev pub document : KubeConfig
document = record {
  cluster = record { certificate_authority_data = "ca"; proxy_url = ""; server = "https://api" };
  cluster_name = "krateo";
  context_user = "ada";
  cert_info = record { client_certificate_data = "ada"; client_key_data = "key" };
  user_name = "ada";
}
