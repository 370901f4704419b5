-- ===== src/Sweep.antt =====
-- go/authn/internal/stepupsweep: deleting expired step-up credentials (sweep.go).
pub mod Safety
pub mod Counting
use authn.Prelude.{
  ℕ, suc, ◌+◌, ◌*◌, String, Bool, true, false, not, ◌||◌, Option, none, some, List, [], ◌∷◌, ◌==◌,
  slices_contains, if◌then◌else◌,
}
use authn.Prelude.Int.{ℤ, pos, ltb_ℤ}
use authn.Go.Error.{Error, is_conflict, is_not_found}
use authn.Go.Time.{Time, Duration, minute, add, before}
use authn.Go.Dict.{lookup}
use authn.Go.Act.{Result, ok, err}
use authn.Cluster.{Secret, Secrets}
use authn.Cert.{Codec, Certificate, parse_certificate_base64}
use authn.Storage.{client_cert_label, is_step_up_secret_name}

abbrev pub default_grace : Duration
default_grace = pos (5 * minute)

-- Options; the client is the Secrets' interface
pub record Options (W : Type 0) : Type 0 where
  pub secrets : Secrets W
  pub codec : Codec
  pub namespaces : List String
  pub grace : Duration
  pub now : W → Time

-- Result
pub record Counts : Type 0 where
  pub scanned : ℕ
  pub deleted : ℕ
  pub skipped : ℕ

-- What a pass returns: the counts, and the error that ended it.
abbrev pub Outcome : Type 0
Outcome = Counts × Option Error

module _ {W : Type 0} (options : Options W) where
  open options use {secrets, codec, namespaces, now}

  abbrev pub effective_grace : Duration
  effective_grace = if ltb_ℤ (pos 0) options.grace then options.grace else default_grace

  abbrev pub cert_data : Secret → String
  cert_data sec = or_empty (lookup client_cert_label sec.contents)
    where
      or_empty : Option String → String
      or_empty none = ""
      or_empty (some s) = s

  abbrev pub deletion : Counts → Result (Unit {0}) × W → Outcome × W
  deletion res (ok u, w) = ((record res { deleted = suc res.deleted }, none), w)
  deletion res (err e, w) =
      if is_conflict e || is_not_found e
      then ((record res { skipped = suc res.skipped }, none), w)
      else ((res, some e), w)

  abbrev pub read : String → Secret → Counts → W → Result Certificate → Outcome × W
  read ns sec res w (err e) = ((record res { skipped = suc res.skipped }, none), w)
  read ns sec res w (ok crt) =
      if before (now w) (add crt.not_after effective_grace)
      then ((res, none), w)
      else deletion res (secrets.delete ns sec.name sec.uid sec.resource_version w)

  -- The body of the loop over a namespace's Secrets.
  unfoldable pub sweep_one : String → Secret → Counts → W → Outcome × W
  unfolding lookup
  sweep_one ns sec res w =
      if is_step_up_secret_name sec.name
      then read ns sec (record res { scanned = suc res.scanned }) w
          (parse_certificate_base64 codec (cert_data sec))
      else ((res, none), w)

  -- A loop goes on after an iteration without an error, and returns after one with an error.
  unfoldable pub go_on : Outcome × W → (Counts → W → Outcome × W) → Outcome × W
  go_on ((res, none), w) next = next res w
  go_on ((res, some e), w) next = ((res, some e), w)

  unfoldable pub sweep_secrets : String → List Secret → Counts → W → Outcome × W
  sweep_secrets ns [] res w = ((res, none), w)
  sweep_secrets ns (sec ∷ list) res w =
      go_on (sweep_one ns sec res w) (λ res' w'. sweep_secrets ns list res' w')

  abbrev pub listed : String → Counts → Result (List Secret) × W → Outcome × W
  listed ns res (err e, w) = ((res, some e), w)
  listed ns res (ok list, w) = sweep_secrets ns list res w

  unfoldable pub sweep_namespaces : List String → List String → Counts → W → Outcome × W
  sweep_namespaces [] seen res w = ((res, none), w)
  sweep_namespaces (ns ∷ rest) seen res w = elim (ns == "" || slices_contains seen ns) [
    | true ↦ sweep_namespaces rest seen res w
    | false ↦
        go_on (listed ns res (secrets.list ns w))
          (λ res' w'. sweep_namespaces rest (ns ∷ seen) res' w')
  ]

  -- Sweep
  unfoldable pub sweep : W → Outcome × W
  sweep w = sweep_namespaces namespaces [] (record { scanned = 0; deleted = 0; skipped = 0 }) w
