-- ===== src/Scenarios.antt =====
-- Concrete inputs, and the theorems at them. The parts of the system that are not the program's are
-- played by small functions; the world is the number of Secrets written.
mod Completing
mod Backfilling
mod Services
mod Issuing
mod Pure
mod Provider
mod Sweeping
mod Passwords
mod Logins
mod Directory
mod Authorizing
mod Surface
mod Offering
mod Leaders
mod Issued
use authn.Prelude.{
  ℕ, suc, zero, String, Bool, true, false, Option, none, some, List, [], ◌∷◌, ◌==◌, if◌then◌else◌,
  ◌++◌,
}
use authn.Prelude.Int.{ℤ, pos}
use authn.Go.Error.{Error, errorf}
use authn.Go.Time.{Time, Duration, hour}
use authn.Go.Act.{Result, ok, err, Act}
use authn.Cert.{Certificate, PemBlock, Codec}
use authn.Cluster.{Secret, Secrets, Os, FileRead, missing}
use authn.Kubeconfig.{KubeConfig}
use authn.Storage.{Formats, AuthInfo}

abbrev pub refuse : Error
refuse = errorf "no" []

abbrev pub ada_crt : Certificate
ada_crt = record {
  common_name = "ada";
  organization = "dev" ∷ "ops" ∷ [];
  not_before = pos 0;
  not_after = pos 5000;
}

-- One text encodes one document, which holds one certificate.
abbrev pub decode_pem : List ℕ → Option (PemBlock × List ℕ)
decode_pem (suc zero ∷ []) = some (record { block_type = "CERTIFICATE"; bytes = [] }, [])
decode_pem _ = none

abbrev pub certificate_text : String → Result (List ℕ)
certificate_text s = if s == "ada" then ok (1 ∷ []) else err refuse

abbrev pub codec : Codec
codec = record {
  decode_base64 = certificate_text;
  decode_pem = decode_pem;
  parse_certificate = λ bytes. ok ada_crt;
}

abbrev pub formats : Formats
formats = record { codec = codec; rfc3339 = λ t. "now"; make_dns1123_compatible = λ s. s }

abbrev pub os : {W : Type 0} → Os W
os = record {
  getenv = λ key w. if key == "POD_NAMESPACE" then "krateo" else "";
  read_file = λ path w. missing;
}

abbrev pub secrets : Secrets ℕ
secrets = record {
  get = λ ns name w. (err refuse, w);
  list = λ ns w. (ok [], w);
  create = λ sec w. (ok tt, suc w);
  update = λ sec w. (ok tt, suc w);
  delete = λ ns name uid rv w. (ok tt, w);
}

abbrev pub nfo : AuthInfo
nfo = record {
  server = "https://api";
  proxy_url = "";
  ca_data = "ca";
  cert_data = "ada";
  key_data = "key";
  strategy = "basic";
  step_up = false;
}

abbrev pub document : KubeConfig
document = record {
  cluster = record { certificate_authority_data = "ca"; proxy_url = ""; server = "https://api" };
  cluster_name = "krateo";
  context_user = "ada";
  cert_info = record { client_certificate_data = "ada"; client_key_data = "key" };
  user_name = "ada";
}
