-- ===== src/Kubeconfig/Issue.antt =====
-- What a successful issuance has done (build.go, gen.go).
use authn.Prelude.{ℕ, String, ◌≡◌, refl, ap, Bool, List}
use authn.Go.Time.{Time, Duration}
use authn.Go.Act.{ok, Act}
use authn.Cert.{Certificate, parse_certificate_pem}
use authn.UserInfo.{Info}
use authn.Storage.{put}
use authn.Storage.Writes.{Put, put-Put}
use authn.Kubeconfig.{
  Environment, Generator, CertInfo, ClusterInfo, issue, auth_info, generate_cert_and_cluster_info,
  generate_client_cert_and_key, sign, CreatedRequest, inside, delete_signing_request,
}
use authn.Go.Act.Triple.{
  Triple, Always, bind, next, returns, lifts, or_fails, finishes, done, weaken, calls, frame,
}

module _ {W : Type 0} (environment : Environment W) where
  open environment use {formats, os, secrets, signer}

  -- A credential that was issued and stored, in the worlds before and after its storing.
  pub record Issued (strategy : String) (user : Info) (step_up : Bool) (cert_info : CertInfo)
      (cluster_info : ClusterInfo) (w' : W) : Type 0 where
    pub w : W
    pub stored :
        Put formats secrets os user.name
          (record {
            server = cluster_info.server;
            proxy_url = cluster_info.proxy_url;
            ca_data = cluster_info.certificate_authority_data;
            cert_data = cert_info.client_certificate_data;
            key_data = cert_info.client_key_data;
            strategy = strategy;
            step_up = step_up;
          })
          w
          w'

  -- The pieces of an issued credential: the certificate is the one whose expiry is returned.
  pub record Minted (cert_info : CertInfo) (not_after : Time) : Type 0 where
    pub bytes : List ℕ
    pub leaf : Certificate
    pub parsed : parse_certificate_pem formats.codec bytes ≡ ok leaf
    pub encoded : cert_info.client_certificate_data ≡ signer.encode_base64 bytes
    pub expiry : not_after ≡ leaf.not_after

  abbrev Signed : String × String × Certificate → W → Type 0
  Signed issued w =
      (bytes : List ℕ) × (parse_certificate_pem formats.codec bytes ≡ ok issued.2)
      × (issued.0 ≡ signer.encode_base64 bytes)

  sign-Signed :
      (key : String) (csr : CreatedRequest) → Triple Always (sign environment key csr) Signed
  unfolding sign
  sign-Signed key csr = next done (λ _. bind done (λ bytes.
      bind {Mid = λ leaf w. parse_certificate_pem formats.codec bytes ≡ ok leaf}
        (or_fails _ (lifts (λ w p leaf e. e))) (λ leaf. returns (λ w e. (bytes, e, refl)))))

  generate_client_cert_and_key-Signed :
      (duration : Duration) (user_id username : String) (groups : List String)
      → Triple Always
          (generate_client_cert_and_key environment duration user_id username groups)
          Signed
  unfolding generate_client_cert_and_key
  generate_client_cert_and_key-Signed duration user_id username groups = bind done (λ key.
      bind done (λ req. bind done (λ csr.
        finishes (delete_signing_request environment csr.name) (λ a w s. s)
          (weaken (λ w _. tt) (sign-Signed key csr)))))

  inside-Triple :
      {A : Type 0} {m : Act W A} {Post : A → W → Type 0}
      → Triple Always m Post
      → Triple Always (inside environment m) (λ a s. Post a s.1)
  inside-Triple {m} t = record {
    run = λ s p a s' e. t.run s.1 tt a s'.1 (ap (λ p. (p.0, p.1.1)) e);
  }

  abbrev MintedResult : CertInfo × ClusterInfo × Time → Generator × W → Type 0
  MintedResult issued s = Minted issued.0 issued.2

  generate_cert_and_cluster_info-Minted :
      (user : Info) (duration : Duration)
      → Triple Always (generate_cert_and_cluster_info environment user duration) MintedResult
  unfolding generate_cert_and_cluster_info
  generate_cert_and_cluster_info-Minted user duration = next done (λ _. next done (λ _.
      bind
        (weaken (λ w _. tt)
          (inside-Triple
            (generate_client_cert_and_key-Signed duration user.id user.name user.groups)))
        (λ issued. bind {Mid = λ g s. Signed issued s.1} (calls (λ s p a s' e. p)) (λ g.
          returns (λ s signed. record {
            bytes = signed.0;
            leaf = issued.2;
            parsed = signed.1;
            encoded = signed.2;
            expiry = refl;
          })))))

  abbrev pub IssuedResult :
      String → Info → Bool → CertInfo × ClusterInfo × Time → Generator × W → Type 0
  IssuedResult strategy user step_up issued s =
      Minted issued.0 issued.2 × Issued strategy user step_up issued.0 issued.1 s.1

  put-Issued :
      (strategy : String) (user : Info) (step_up : Bool) (cert_info : CertInfo)
      (cluster_info : ClusterInfo)
      → Triple Always
          (put formats secrets os user.name
            (auth_info environment strategy cert_info cluster_info step_up))
          (λ _ w'. Issued strategy user step_up cert_info cluster_info w')
  put-Issued strategy user step_up cert_info cluster_info =
      calls (λ w p a w' e. record { w = w; stored = put-Put formats secrets os user.name _ w w' e })

  pub issue-Issued :
      (strategy : String) (user : Info) (duration : Duration) (step_up : Bool)
      → Triple Always
          (issue environment strategy user duration step_up)
          (IssuedResult strategy user step_up)
  unfolding issue
  issue-Issued strategy user duration step_up = next done (λ _.
      bind (weaken (λ s _. tt) (generate_cert_and_cluster_info-Minted user duration)) (λ issued.
        next (frame (inside-Triple (put-Issued strategy user step_up issued.0 issued.1)))
          (λ _. returns (λ s p. p))))
