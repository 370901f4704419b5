-- ===== src/Kubeconfig.antt =====
-- go/authn/internal/helpers/kube/config: issuing a session or a step-up credential (build.go, gen.go)
-- through the CSR API (go/authn/internal/helpers/kube/certs.go).
pub mod Checks
pub mod Issue
pub mod Generate
use Prim.Native.String
use authn.Prelude.{
  ℕ, suc, ◌+◌, ◌/◌, ◌%◌, ◌^◌, String, Bool, true, false, ◌&&◌, ◌||◌, Option, none, some, List, [],
  ◌∷◌, nat_eq, ◌==◌, if◌then◌else◌,
}
use authn.Go.Dict.{Dict, lookup}
use authn.Go.Error.{Error, errorf, wrapf, str, is_not_found}
use authn.Go.Time.{Time, Duration}
use authn.Go.Act.{Result, ok, err, Act, after, throw, return, lift, or_fail, finally, ◌>>=◌, ◌>>◌}
use authn.Cluster.{Secrets, Os, get_operator_namespace}
use authn.Cert.{Certificate, parse_certificate_pem}
use authn.UserInfo.{Info, is_reserved, reserved_group_prefix}
use authn.Storage.{AuthInfo, Formats, validate_groups, put}

pub record CertInfo : Type 0 where
  pub client_certificate_data : String
  pub client_key_data : String

pub record ClusterInfo : Type 0 where
  pub certificate_authority_data : String
  pub proxy_url : String
  pub server : String

-- The document of a session credential: `KubeConfig`, with its one cluster, context and user.
pub record KubeConfig : Type 0 where
  pub cluster : ClusterInfo
  pub cluster_name : String
  pub context_user : String
  pub cert_info : CertInfo
  pub user_name : String

-- The loop of checkGroups: the number of reserved groups, or the refusal of a session credential.
unfoldable pub count_reserved : Bool → List String → ℕ → Result ℕ
count_reserved step_up [] reserved = ok reserved
count_reserved step_up (grp ∷ groups) reserved =
    let rest = count_reserved step_up groups (if is_reserved grp then suc reserved else reserved) in
    if is_reserved grp
    then (if step_up
        then rest
        else err
            (errorf "group %q is reserved to authn and cannot be issued by a login" (str grp ∷ [])))
    else rest

abbrev pub enough_reserved : Bool → Result ℕ → Result (Unit {0})
enough_reserved step_up (err e) = err e
enough_reserved step_up (ok reserved) =
    if step_up && nat_eq reserved 0
    then err (errorf "a step-up credential must carry a %s group" (str reserved_group_prefix ∷ []))
    else ok tt

abbrev pub reserved_allowed : Bool → List String → Result (Unit {0}) → Result (Unit {0})
reserved_allowed step_up groups (err e) = err e
reserved_allowed step_up groups (ok _) = enough_reserved step_up (count_reserved step_up groups 0)

-- checkGroups; the warning about dropped groups is left out
unfoldable pub check_groups : Info → Bool → Result (Unit {0})
unfolding count_reserved
check_groups user_info step_up =
    reserved_allowed step_up user_info.groups (validate_groups user_info.groups)

-- The request object of NewCertificateSigningRequest.
pub record SigningRequest : Type 0 where
  pub generate_name : String
  pub user_id : String
  pub request : List ℕ
  pub signer_name : String
  pub usage : String
  pub expiration_seconds : Duration

-- What the API server answers to its creation.
pub record CreatedRequest : Type 0 where
  pub name : String
  pub uid : String

-- crypto/rsa, crypto/x509, client-go's CSR calls and the encoders, over a world.
pub record Signer (W : Type 0) : Type 0 where
  pub new_private_key : Act W String
  -- x509.CreateCertificateRequest with a key, a common name and organizations, PEM-encoded
  pub create_request : String → String → List String → Act W (List ℕ)
  -- int32(dur.Seconds()), which Go leaves to the platform where it does not fit
  pub int32_seconds : Duration → Duration
  pub create : SigningRequest → Act W CreatedRequest
  -- UpdateApproval with the condition CertificateApproved
  pub approve : CreatedRequest → Act W (Unit {0})
  -- csrutil.WaitForCertificate under the five minutes' timeout
  pub wait : String → String → Act W (List ℕ)
  pub delete : String → Act W (Unit {0})
  pub encode_base64 : List ℕ → String
  pub encode_key : String → String

-- The cluster around the generator: its environment, its ConfigMaps and its Secrets.
pub record Environment (W : Type 0) : Type 0 where
  pub formats : Formats
  pub os : Os W
  pub secrets : Secrets W
  pub signer : Signer W
  -- client.New / kubernetes.NewForConfig
  pub new_client : Act W (Unit {0})
  -- the data of a ConfigMap, by namespace and name
  pub config_map : String → String → Act W (Dict String)
  pub join_host_port : String → String → String
  pub base64_of_text : String → String

-- kubeconfigGenerator; the log and the REST config are left out
pub record Generator : Type 0 where
  pub ca_data : String
  pub proxy_url : String
  pub cluster_name : String
  pub kubernetes_url : String
  pub cert_duration : Duration

module _ {W : Type 0} (environment : Environment W) where
  open environment use {formats, os, secrets, signer, new_client, config_map}
  open environment use {join_host_port, base64_of_text}

  -- The generator keeps what it looked up, so it is part of the state.
  abbrev pub Inside : Type 0 → Type 0
  Inside A = Act (Generator × W) A

  abbrev pub beside : {A : Type 0} → Generator → Result A × W → Result A × (Generator × W)
  beside g (r, w) = (r, (g, w))

  abbrev pub inside : {A : Type 0} → Act W A → Inside A
  inside m (g, w) = beside g (m w)

  abbrev ca_crt_of : String → Error → Error
  ca_crt_of ns e =
      if is_not_found e
      then errorf "configmaps '%s' not found (namespace: %s)" (str "kube-root-ca.crt" ∷ str ns ∷ [])
      else e

  abbrev found_ca : String → Option String → Result String
  found_ca ns none = err (
      errorf "ca.crt key not found in configmaps '%s' (namespace: %s)"
        (str "kube-root-ca.crt" ∷ str ns ∷ []))
  found_ca ns (some crt) = ok (base64_of_text crt)

  -- configmaps.CACrt
  unfoldable pub ca_crt : Act W String
  ca_crt = do
    ns ← get_operator_namespace os
    new_client
    entries ← or_fail (config_map ns "kube-root-ca.crt") (ca_crt_of ns)
    lift (found_ca ns (lookup "ca.crt" entries))

  -- NewCertificateSigningRequest
  unfoldable pub new_signing_request : List ℕ → Duration → String → String → SigningRequest
  new_signing_request request duration user_id username = record {
    generate_name = String.◌++◌ username "-";
    user_id = user_id;
    request = request;
    signer_name = "kubernetes.io/kube-apiserver-client";
    usage = "client auth";
    expiration_seconds = signer.int32_seconds duration;
  }

  -- DeleteCertificateSigningRequest
  abbrev pub delete_signing_request : String → Act W (Unit {0})
  delete_signing_request name w = deleted (signer.delete name w)
    where
      deleted : Result (Unit {0}) × W → Result (Unit {0}) × W
      deleted (ok u, v) = (ok u, v)
      deleted (err e, v) = if is_not_found e then (ok tt, v) else (err e, v)

  abbrev pub Issued : Type 0
  Issued = String × String × Certificate

  -- What runs between the creation of the request and its deferred deletion.
  unfoldable pub sign : String → CreatedRequest → Act W Issued
  sign key csr = do
    or_fail (signer.approve csr) (wrapf "approving CertificateSigningRequest: %w" [])
    crt ←
        or_fail (signer.wait csr.name csr.uid)
          (wrapf "waiting for CSR certificate to be generated: %w" [])
    leaf ←
        or_fail (lift (parse_certificate_pem formats.codec crt))
          (wrapf "parsing issued certificate: %w" [])
    return (signer.encode_base64 crt, signer.encode_key key, leaf)

  -- generateClientCertAndKey; its log lines are left out
  unfoldable pub generate_client_cert_and_key :
      Duration → String → String → List String → Act W Issued
  generate_client_cert_and_key duration user_id username groups = do
    key ← or_fail signer.new_private_key (wrapf "generating private key: %w" [])
    req ←
        or_fail (signer.create_request key username groups)
          (wrapf "creating certificate request: %w" [])
    csr ←
        or_fail (signer.create (new_signing_request req duration user_id username))
          (wrapf "creating CSR kubernetes object: %w" [])
    finally (delete_signing_request csr.name) (sign key csr)

  -- The address of the API server: the configured one, or the one that the pod's environment names.
  abbrev service_url : String → String → Result String
  service_url host port =
      if host == "" || port == ""
      then err (
          errorf
            "unable to load in-cluster configuration, KUBERNETES_SERVICE_HOST and KUBERNETES_SERVICE_PORT must be defined"
            [])
      else ok (String.◌++◌ "https://" (join_host_port host port))

  abbrev found_url : Generator → Result String × W → Result (Unit {0}) × (Generator × W)
  found_url g (ok url, w) = (ok tt, (record g { kubernetes_url = url }, w))
  found_url g (err e, w) = (err e, (g, w))

  unfoldable pub resolve_url : Inside (Unit {0})
  resolve_url (g, w) =
      if g.kubernetes_url == ""
      then found_url g (
        service_url (os.getenv "KUBERNETES_SERVICE_HOST" w) (os.getenv "KUBERNETES_SERVICE_PORT" w),
        w,
      )
      else (ok tt, (g, w))

  abbrev found_ca_data : Generator → Result String × W → Result (Unit {0}) × (Generator × W)
  found_ca_data g (ok ca, w) = (ok tt, (record g { ca_data = ca }, w))
  found_ca_data g (err e, w) = (err e, (g, w))

  unfoldable pub resolve_ca : Inside (Unit {0})
  resolve_ca (g, w) = if g.ca_data == "" then found_ca_data g (ca_crt w) else (ok tt, (g, w))

  abbrev pub current : Inside Generator
  current (g, w) = (ok g, (g, w))

  -- generateCertAndClusterInfo: the credential and the cluster's data, with the certificate's expiry
  unfoldable pub generate_cert_and_cluster_info :
      Info → Duration → Inside (CertInfo × ClusterInfo × Time)
  generate_cert_and_cluster_info user duration = do
    resolve_url
    inside new_client
    issued ← inside (generate_client_cert_and_key duration user.id user.name user.groups)
    g ← current
    return (
      record { client_certificate_data = issued.0; client_key_data = issued.1 },
      record { certificate_authority_data = g.ca_data; proxy_url = ""; server = g.kubernetes_url },
      issued.2.not_after,
    )

  -- storeCertAndClusterInfo
  abbrev pub auth_info : String → CertInfo → ClusterInfo → Bool → AuthInfo
  auth_info strategy cert_info cluster_info step_up = record {
    server = cluster_info.server;
    proxy_url = cluster_info.proxy_url;
    ca_data = cluster_info.certificate_authority_data;
    cert_data = cert_info.client_certificate_data;
    key_data = cert_info.client_key_data;
    strategy = strategy;
    step_up = step_up;
  }

  -- issue
  unfoldable pub issue : String → Info → Duration → Bool → Inside (CertInfo × ClusterInfo × Time)
  issue strategy user duration step_up = do
    resolve_ca
    issued ← generate_cert_and_cluster_info user duration
    inside (put formats secrets os user.name (auth_info strategy issued.0 issued.1 step_up))
    return issued

  abbrev pub own_duration : Inside Duration
  own_duration (g, w) = (ok g.cert_duration, (g, w))

  abbrev pub document : Generator → Info → CertInfo → ClusterInfo → KubeConfig
  document g user cert_info cluster_info = record {
    cluster = cluster_info;
    cluster_name = g.cluster_name;
    context_user = user.name;
    cert_info = cert_info;
    user_name = user.name;
  }

  -- kubeconfigGenerator.Generate; the document is rendered as JSON, which cannot fail for it
  unfoldable pub generate : String → Info → Inside (KubeConfig × Time)
  generate strategy user = do
    lift (check_groups user false)
    duration ← own_duration
    issued ← issue strategy user duration false
    g ← current
    return (document g user issued.0 issued.1, issued.2)

  -- kubeconfigGenerator.GenerateStepUp
  unfoldable pub generate_step_up : String → Info → Duration → Inside Time
  generate_step_up strategy user ttl = do
    lift (check_groups user true)
    issued ← issue strategy user ttl true
    return issued.2
