-- ===== src/Kubeconfig/Generate.antt =====
-- The two promises of the generator's interface (build.go): what a caller who gets a credential can
-- rely on.
use authn.Prelude.{ℕ, String, ◌≡◌, Bool, true, false, List}
use authn.Go.Text.{trim_space}
use authn.Go.Time.{Time}
use authn.Go.Act.{ok}
use authn.Go.Act.Triple.{Triple}
use authn.Cert.{Certificate, parse_certificate_pem}
use authn.UserInfo.{Info}
use authn.UserInfo.Groups.{Unreserved}
use authn.Storage.Groups.{OneLine}
use authn.Storage.Writes.{Put}
use authn.Kubeconfig.{Environment, Generator, CertInfo, ClusterInfo, KubeConfig}
use authn.Kubeconfig.Checks.{SomeReserved}

module _ {W : Type 0} (environment : Environment W) where
  open environment use {formats, os, secrets, signer}

  -- A certificate's PEM survives the encoding in which the storage keeps it.
  abbrev pub RoundTrip : Type 0
  RoundTrip =
      (bytes : List ℕ) (crt : Certificate)
      → parse_certificate_pem formats.codec bytes ≡ ok crt
      → formats.codec.decode_base64 (trim_space (signer.encode_base64 bytes)) ≡ ok bytes

  -- An issued credential: the Secret that was stored for it records the strategy and the groups of
  -- the very certificate whose expiry is returned.
  pub record Credential (strategy : String) (user : Info) (step_up : Bool) (cert_info : CertInfo)
      (cluster_info : ClusterInfo) (not_after : Time) (w' : W) : Type 0 where
    pub w : W
    pub stored :
        Put formats secrets os user.name
          (record {
            server = cluster_info.server;
            proxy_url = cluster_info.proxy_url;
            ca_data = cluster_info.certificate_authority_data;
            cert_data = cert_info.client_certificate_data;
            key_data = cert_info.client_key_data;
            strategy = strategy;
            step_up = step_up;
          })
          w
          w'
    pub expiry : not_after ≡ stored.identified.crt.not_after

  abbrev pub GeneratePost : String → Info → KubeConfig × Time → Generator × W → Type 0
  GeneratePost strategy user issued s =
      OneLine user.groups
      × Unreserved user.groups
      × Credential strategy user false issued.0.cert_info issued.0.cluster issued.1 s.1

  abbrev pub StepUpPost : String → Info → Time → Generator × W → Type 0
  StepUpPost strategy user not_after s =
      OneLine user.groups
      × SomeReserved user.groups
      × (cert_info : CertInfo) × (cluster_info : ClusterInfo) × Credential strategy user true
          cert_info cluster_info not_after s.1
