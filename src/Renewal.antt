-- ===== src/Renewal.antt =====
-- go/authn/internal/certrenewal: keeping authn's own client certificate valid (renewal.go).
pub mod Laws
pub mod Annotations
pub mod Safety
use authn.Prelude.{
  ℕ, ◌*◌, String, Bool, true, false, not, ◌||◌, Option, none, some, List, [], ◌∷◌, length, nat_eq,
  ◌==◌, if◌then◌else◌,
}
use authn.Prelude.Int.{ℤ, pos, ltb_ℤ}
use authn.Go.Error.{Error, errorf, wrapf, str, is_not_found}
use authn.Go.Time.{Time, Duration, minute, hour, since, add}
use authn.Go.Dict.{Dict, lookup, merge, text_at}
use authn.Go.Act.{Result, ok, err, Act}
use authn.Cluster.{Secret, Secrets, Os, get_operator_namespace}
use authn.Cert.{Certificate, parse_certificate_base64}
use authn.Storage.{
  Formats, client_cert_label, client_config_secret_name, cert_validity_annotations,
  identity_annotations,
}

abbrev pub min_sleep : Duration
min_sleep = pos minute

abbrev pub retry_interval : Duration
retry_interval = pos minute

abbrev pub default_duration : Duration
default_duration = pos (8760 * hour)

-- float64, as far as a threshold is concerned.
pub record Thresholds (F : Type 0) : Type 0 where
  -- threshold <= 0, threshold >= 1
  pub at_most_zero : F → Bool
  pub at_least_one : F → Bool
  pub default_threshold : F
  -- time.Duration(float64(d) * threshold)
  pub scale : F → Duration → Duration

-- Options; `rest_config` says whether there is one
pub record Options (F : Type 0) : Type 0 where
  pub rest_config : Bool
  pub namespace : String
  pub ca_data : String
  pub server_url : String
  pub username : String
  pub groups : List String
  pub duration : Duration
  pub threshold : F

pub record Renewer (F : Type 0) : Type 0 where
  pub namespace : String
  pub secret : String
  pub ca_data : String
  pub server_url : String
  pub username : String
  pub groups : List String
  pub requested : Duration
  pub threshold : F

-- sleepFor
unfoldable pub sleep_for : Duration → Duration
sleep_for d = if ltb_ℤ d min_sleep then min_sleep else d

-- RenewAt, for the scaling of a threshold
unfoldable pub renew_at : (Duration → Duration) → Time → Time → Time
renew_at scale not_before not_after =
    if ltb_ℤ (pos 0) (since not_after not_before)
    then add not_before (scale (since not_after not_before))
    else not_after

-- The cluster, plumbing's signup.Do and the clock.
pub record Cluster (W F : Type 0) : Type 0 where
  pub formats : Formats
  pub os : Os W
  pub secrets : Secrets W
  pub thresholds : Thresholds F
  pub now : W → Time
  -- signup.Do of a renewer: the certificate's data
  pub signup : Renewer F → Act W String

-- The loop that looks for an annotation that differs.
unfoldable pub is_stale : Dict String → Dict String → Bool
is_stale have [] = false
is_stale have ((k, v) ∷ want) = if text_at (lookup k have) == v then is_stale have want else true

module _ {W F : Type 0} (cluster : Cluster W F) where
  open cluster use {formats, os, secrets, thresholds, now, signup}

  abbrev renewer_in : Options F → String → Renewer F
  renewer_in o ns = record {
    namespace = ns;
    secret = client_config_secret_name formats o.username;
    ca_data = o.ca_data;
    server_url = o.server_url;
    username = o.username;
    groups = o.groups;
    requested = if ltb_ℤ (pos 0) o.duration then o.duration else default_duration;
    threshold =
        if thresholds.at_most_zero o.threshold || thresholds.at_least_one o.threshold
        then thresholds.default_threshold
        else o.threshold;
  }

  abbrev in_namespace : Options F → Result String × W → Result (Renewer F) × W
  in_namespace o (ok ns, w) = (ok (renewer_in o ns), w)
  in_namespace o (err e, w) =
      (err (wrapf "unable to resolve the namespace holding the clientconfig secret: %w" [] e), w)

  -- New
  unfoldable pub new_renewer : Options F → Act W (Renewer F)
  new_renewer o w =
      if not o.rest_config
      then (err (errorf "a kubernetes rest config is required" []), w)
      else if o.username == ""
      then (err (errorf "a username is required" []), w)
      else if o.namespace == ""
      then in_namespace o (get_operator_namespace os w)
      else (ok (renewer_in o o.namespace), w)

  -- What is stored: nothing usable, or a certificate with the Secret that holds it.
  abbrev pub Stored : Type 0
  Stored = Option (Certificate × Secret)

  abbrev pub parsed : Secret → Result Certificate → Stored
  parsed sec (ok crt) = some (crt, sec)
  parsed sec (err e) = none

  abbrev pub held : Secret → String → Stored
  held sec text =
      if text == "" then none else parsed sec (parse_certificate_base64 formats.codec text)

  abbrev pub read_back : Result Secret × W → Result Stored × W
  read_back (ok sec, w) = (ok (held sec (text_at (lookup client_cert_label sec.contents))), w)
  read_back (err e, w) = if is_not_found e then (ok none, w) else (err e, w)

  -- current
  unfoldable pub current : Renewer F → Act W Stored
  current r w = read_back (secrets.get r.namespace r.secret w)

  abbrev pub with_identity : Dict String → Result (Dict String) → Dict String
  with_identity want (ok identity) = merge want identity
  with_identity want (err e) = want

  -- The annotations that the stored certificate asks for.
  abbrev pub wanted : String → Option (Dict String) → Dict String
  wanted cert none = []
  wanted cert (some want) = with_identity want (identity_annotations formats "self" cert)

  unfoldable pub want : Secret → Dict String
  want sec =
      wanted (text_at (lookup client_cert_label sec.contents))
        (cert_validity_annotations formats (text_at (lookup client_cert_label sec.contents)))

  abbrev pub annotated : Secret → Secret
  annotated sec = record sec { annotations = merge sec.annotations (want sec) }

  -- syncAnnotations: the outcome of the update is only logged
  unfoldable pub sync_annotations : Secret → W → W
  sync_annotations sec w =
      if is_stale sec.annotations (want sec) then (secrets.update (annotated sec) w).1 else w

  abbrev annotate_read : Result Secret × W → W
  annotate_read (ok sec, w) = sync_annotations sec w
  annotate_read (err e, w) = w

  -- annotate
  unfoldable pub annotate : Renewer F → W → W
  annotate r w = annotate_read (secrets.get r.namespace r.secret w)

  -- What Ensure returns: a wait, with an error or without one.
  abbrev pub Outcome : Type 0
  Outcome = (Duration × Option Error) × W

  abbrev pub until : Time → W → Duration
  until due w = since due (now w)

  abbrev pub due_of : Renewer F → Certificate → Time
  due_of r crt = renew_at (thresholds.scale r.threshold) crt.not_before crt.not_after

  abbrev pub scheduled : Renewer F → W → Result Certificate → Outcome
  scheduled r w (ok crt) = ((sleep_for (until (due_of r crt) w), none), w)
  scheduled r w (err e) = ((sleep_for (thresholds.scale r.threshold r.requested), none), w)

  abbrev pub issued : Renewer F → Result String × W → Outcome
  issued r (ok text, w) = scheduled r (annotate r w) (parse_certificate_base64 formats.codec text)
  issued r (err e, w) = (
    (
      retry_interval,
      some (wrapf "issuing a client certificate for %q: %w" (str r.username ∷ []) e),
    ),
    w,
  )

  -- issue
  unfoldable pub issue : Renewer F → W → Outcome
  issue r w = issued r (signup r w)

  abbrev pub kept_or_issued : Renewer F → Result Stored × W → Outcome
  kept_or_issued r (err e, w) = (
    (
      retry_interval,
      some (wrapf "reading the stored certificate from %q: %w" (str r.secret ∷ []) e),
    ),
    w,
  )
  kept_or_issued r (ok none, w) = issue r w
  kept_or_issued r (ok (some (crt, sec)), w) =
      if ltb_ℤ (pos 0) (until (due_of r crt) w)
      then ((sleep_for (until (due_of r crt) w), none), sync_annotations sec w)
      else issue r w

  -- Renewer.Ensure
  unfoldable pub ensure : Renewer F → W → Outcome
  ensure r w = kept_or_issued r (current r w)
