-- ===== src/Scenarios/Issued.antt =====
-- A login and a step-up of a provider's user with the generator, at concrete inputs.
use authn.Go.Act.{ok, err}
use authn.Kubeconfig.{KubeConfig, Generator, generate, generate_step_up}
use authn.Encode.{Response, access_token}
use authn.Scenarios.{refuse}
use authn.Prelude.{ℕ, [], ◌∷◌, true, Option, none, some}
use authn.Scenarios.Logins.{discovery_in, tokens}
use authn.Oidc.Login.{Services}
use authn.UserInfo.Exts
use authn.Oidc.StepUp
use authn.Oidc.Login

abbrev services : Services (Generator × ℕ)
services = record {
  discovery = discovery_in (λ w. w);
  secrets = record {
    get = λ ns name w. (err refuse, w);
    list = λ ns w. (ok [], w);
    create = λ sec w. (err refuse, w);
    update = λ sec w. (err refuse, w);
    delete = λ ns name uid rv w. (err refuse, w);
  };
  tokens = tokens;
  is_path_segment = λ name. true;
  resolve = λ ref token w. (err refuse, w);
  legacy_resolve = λ ref email token w. (err refuse, w);
  new_id = λ w. ("1", w);
  make_dns1123_compatible = λ s. s;
  generate = λ strategy nfo w. (err refuse, w);
  generate_step_up = λ strategy nfo ttl w. (err refuse, w);
}

abbrev session : Response (Option KubeConfig)
session = record {
  access_token = "token";
  user = some (record { display_name = "Ada"; username = "ada"; avatar_url = "" });
  groups = "dev" ∷ [];
  strategy = some (record { kind = "oidc"; name = "idp" });
  payload = some (record {
    cluster = record { certificate_authority_data = "ca"; proxy_url = ""; server = "https://api" };
    cluster_name = "krateo";
    context_user = "ada";
    cert_info = record { client_certificate_data = "ada"; client_key_data = "key" };
    user_name = "ada";
  });
}

abbrev stepped_up : Response (Option KubeConfig)
stepped_up = record session {
  groups = "dev" ∷ "krateo:loa:2" ∷ [];
  strategy = none;
  payload = none;
}
