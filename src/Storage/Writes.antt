-- ===== src/Storage/Writes.antt =====
-- What `Put` sends to the API (storage.go).
use Prim.Native.String
use authn.Prelude.{
  String, ◌≡◌, ◌≢◌, refl, sym, ap, ◌∙◌, ◌⊎◌, inl, inr, Bool, true, false, some, List, [], ◌∷◌, ◌==◌,
  Bool-cases,
}
use authn.Go.Text.{join}
use authn.Go.Dict.{Dict, lookup, merge, lookup-insert, lookup-insert_self}
use authn.Go.Error.{Error, is_already_exists}
use authn.Go.Act.{Result, ok, err, ok-injective, err≢ok, after-ok, rewrap-ok, lift-ok}
use authn.Cluster.{Secret, Secrets, Os, get_operator_namespace}
use authn.Cert.{Certificate, parse_certificate_base64}
use authn.Storage.{
  AuthInfo, Formats, strategy_annotation, groups_annotation, group_separator, validate_groups,
  split_groups, identity_annotations, identity, identity_of, secret_of, put, created,
  client_config_secret_name, step_up_secret_name,
}
use authn.Storage.Groups.{split_groups-join_iff}

-- The annotations of a credential whose certificate was read.
pub record Identified (formats : Formats) (strategy cert_data : String) (entries : Dict String)
    : Type 0 where
  pub crt : Certificate
  pub parsed : parse_certificate_base64 formats.codec cert_data ≡ ok crt
  pub valid : validate_groups crt.organization ≡ ok tt
  pub exact :
      entries
      ≡ (strategy_annotation, strategy)
        ∷ (groups_annotation, join group_separator crt.organization)
        ∷ []

module _ (formats : Formats) (strategy cert_data : String) (entries : Dict String) where
  identified :
      (crt : Certificate) (v : Result (Unit {0}))
      → parse_certificate_base64 formats.codec cert_data ≡ ok crt
      → validate_groups crt.organization ≡ v
      → identity_of formats strategy crt.organization v ≡ ok entries
      → Identified formats strategy cert_data entries
  identified crt (err e) p q h = absurd (err≢ok h)
  identified crt (ok u) p q h = record {
    crt = crt;
    parsed = p;
    valid = q;
    exact = sym (ok-injective h);
  }

  parsed_case :
      (r : Result Certificate)
      → parse_certificate_base64 formats.codec cert_data ≡ r
      → identity formats strategy r ≡ ok entries
      → Identified formats strategy cert_data entries
  parsed_case (err e) p h = absurd (err≢ok h)
  parsed_case (ok crt) p h = identified crt (validate_groups crt.organization) p refl h

  -- IdentityAnnotations gives annotations only for a readable certificate with valid groups.
  pub identity_annotations-Identified :
      identity_annotations formats strategy cert_data ≡ ok entries
      → Identified formats strategy cert_data entries
  unfolding identity_annotations
  identity_annotations-Identified h = elim (Bool-cases (strategy == "")) [
    | inl e ↦ absurd (err≢ok (rw e at h))
    | inr e ↦ parsed_case (parse_certificate_base64 formats.codec cert_data) refl (rw e at h)
  ]

-- What a stored Secret says of the certificate that it holds.
pub record Records (sec : Secret) (strategy : String) (groups : List String) : Type 0 where
  pub strategy_recorded : lookup strategy_annotation sec.annotations ≡ some strategy
  pub groups_recorded :
      lookup groups_annotation sec.annotations ≡ some (join group_separator groups)
  pub groups_read_back : groups ≢ "" ∷ [] → split_groups (join group_separator groups) ≡ groups

module _ (formats : Formats) (ns name : String) (nfo : AuthInfo) (entries : Dict String) where
  secret_of-Records :
      (i : Identified formats nfo.strategy nfo.cert_data entries)
      → Records (secret_of formats ns name nfo entries) nfo.strategy i.crt.organization
  unfolding secret_of merge
  secret_of-Records i = record {
    strategy_recorded = rw i.exact (simp lookup-insert);
    groups_recorded = rw i.exact (lookup-insert_self groups_annotation _ _);
    groups_read_back = (split_groups-join_iff i.crt.organization i.valid).1;
  }

-- How a successful `Put` ended: the Secret was created, or it was there already and was replaced.
pub record Stored {W : Type 0} (secrets : Secrets W) (sec : Secret) (w w' : W) : Type 0 where
  pub how :
      (secrets.create sec w ≡ (ok tt, w'))
      ⊎ ((e : Error) × (u : W) × (secrets.create sec w ≡ (err e, u))
          × (is_already_exists e ≡ true)
          × (secrets.update sec u ≡ (ok tt, w')))

module _ {W : Type 0} (formats : Formats) (secrets : Secrets W) (os : Os W) (sec : Secret) where
  created-Stored :
      (w w' : W) (x : Result (Unit {0}) × W)
      → secrets.create sec w ≡ x
      → created formats secrets os sec x ≡ (ok tt, w')
      → Stored secrets sec w w'
  created-Stored w w' (ok u, v) e h = record { how = inl (e ∙ h) }
  created-Stored w w' (err x, v) e h = elim (Bool-cases (is_already_exists x)) [
    | inl there ↦ record { how = inr (x, v, e, there, (rw there at h)) }
    | inr other ↦ absurd (err≢ok (ap (λ p. p.0) (rw other at h)))
  ]

-- The name of a user's credential: a session's, or a step-up's.
pub record Named (make_dns1123_compatible : String → String) (user : String) (step_up : Bool)
    (name : String) : Type 0 where
  pub session : step_up ≡ false → name ≡ String.◌++◌ (make_dns1123_compatible user) "-clientconfig"
  pub of_step_up :
      step_up ≡ true
      → name ≡ String.◌++◌ (String.◌++◌ (make_dns1123_compatible user) "-clientconfig") "-stepup"

-- The content of a credential's Secret.
pub record Contents (nfo : AuthInfo) (entries : Dict String) : Type 0 where
  pub exact :
      entries
      ≡ ("certificate-authority-data", nfo.ca_data)
        ∷ ("client-certificate-data", nfo.cert_data)
        ∷ ("client-key-data", nfo.key_data)
        ∷ ("server-url", nfo.server)
        ∷ ("proxy-url", nfo.proxy_url)
        ∷ []

-- A credential that `Put` stored: the operator's namespace, the certificate that was read from it, and
-- the Secret that was sent, with its name, its content and what it records.
pub record Put {W : Type 0} (formats : Formats) (secrets : Secrets W) (os : Os W) (name : String)
    (nfo : AuthInfo) (w w' : W) : Type 0 where
  pub ns : String
  pub u : W
  pub in_namespace : get_operator_namespace os w ≡ (ok ns, u)
  pub entries : Dict String
  pub identified : Identified formats nfo.strategy nfo.cert_data entries
  pub sec : Secret
  pub stored : Stored secrets sec u w'
  pub named : Named formats.make_dns1123_compatible name nfo.step_up sec.name
  pub placed : sec.namespace ≡ ns
  pub contents : Contents nfo sec.string_data
  pub records : Records sec nfo.strategy identified.crt.organization

secret_of-Named :
    (formats : Formats) (ns name : String) (nfo : AuthInfo) (entries : Dict String)
    → Named formats.make_dns1123_compatible name nfo.step_up
        (secret_of formats ns name nfo entries).name
unfolding secret_of client_config_secret_name step_up_secret_name
secret_of-Named formats ns name nfo entries = record {
  session = λ e. rw e refl;
  of_step_up = λ e. rw e refl;
}

secret_of-Contents :
    (formats : Formats) (ns name : String) (nfo : AuthInfo) (entries : Dict String)
    → Contents nfo (secret_of formats ns name nfo entries).string_data
unfolding secret_of
secret_of-Contents formats ns name nfo entries = record { exact = refl }

secret_of-namespace :
    (formats : Formats) (ns name : String) (nfo : AuthInfo) (entries : Dict String)
    → (secret_of formats ns name nfo entries).namespace ≡ ns
unfolding secret_of
secret_of-namespace formats ns name nfo entries = refl

-- A credential is stored only with a readable certificate, in the operator's namespace, by one create
-- or, where the Secret is there already, one update of the same Secret. That Secret is named after the
-- user, with -clientconfig for a session and -clientconfig-stepup for a step-up; it holds the
-- certificate, its key, the cluster's certificate authority and the two addresses; and its annotations
-- record the strategy and the certificate's groups, which can be read back unless they are the empty
-- name alone.
pub put-Put :
    {W : Type 0} (formats : Formats) (secrets : Secrets W) (os : Os W) (name : String)
    (nfo : AuthInfo) (w w' : W)
    → put formats secrets os name nfo w ≡ (ok tt, w')
    → Put formats secrets os name nfo w w'
unfolding put
put-Put formats secrets os name nfo w w' h =
    let (ns, u, got, rest) = after-ok _ _ h in
    let (entries, v, lifted, sent) = after-ok _ _ rest in
    let (made, same) = lift-ok (identity_annotations formats nfo.strategy nfo.cert_data) u lifted in
    let i = identity_annotations-Identified formats nfo.strategy nfo.cert_data entries made in
    record {
      ns = ns;
      u = u;
      in_namespace = rewrap-ok _ _ got;
      entries = entries;
      identified = i;
      sec = secret_of formats ns name nfo entries;
      stored = created-Stored formats secrets os _ u w' _ refl (rw (← same) at sent);
      named = secret_of-Named formats ns name nfo entries;
      placed = secret_of-namespace formats ns name nfo entries;
      contents = secret_of-Contents formats ns name nfo entries;
      records = secret_of-Records formats ns name nfo entries i;
    }
