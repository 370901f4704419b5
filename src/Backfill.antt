-- ===== src/Backfill.antt =====
-- go/authn/internal/identitybackfill: annotating the Secrets that were written before identities were
-- recorded (backfill.go).
pub mod Annotations
pub mod Safety
pub mod Settled
pub mod Stamping
pub mod Strategy
use authn.Prelude.{
  ℕ, suc, String, Bool, true, false, ◌&&◌, ◌||◌, Option, none, some, List, [], ◌∷◌, ◌==◌,
  slices_contains, if◌then◌else◌,
}
use authn.Go.Text.{has_suffix}
use authn.Go.Error.{Error, wrapf, str}
use authn.Go.Dict.{Dict, lookup, has, merge, text_at}
use authn.Go.Act.{Result, ok, err, Act, ◌>>=◌, or_fail, lift, return}
use authn.Go.Check
use authn.Cluster.{Secret, Secrets}
use authn.Cert.{parse_certificate_base64}
use authn.Storage.{
  Formats, client_cert_label, strategy_annotation, groups_annotation, identity_annotations,
}
use authn.Backfill.Strategy.{Lookup, strategy_of}

abbrev pub client_config_suffix : String
client_config_suffix = "-clientconfig"

-- Options, with the Secrets' interface and the certificates' formats
pub record Options (W : Type 0) : Type 0 where
  pub secrets : Secrets W
  pub formats : Formats
  pub namespaces : List String
  pub self_username : String
  pub identities : Lookup W

-- Result
pub record Counts : Type 0 where
  pub scanned : ℕ
  pub stamped : ℕ
  pub skipped : ℕ

-- What a run returns: the counts, and the error that ended it.
abbrev pub Outcome : Type 0
Outcome = Counts × Option Error

-- The loop over the wanted annotations, which keeps those that are not there.
unfoldable pub absent_from : Dict String → Dict String → Dict String
absent_from have [] = []
absent_from have ((k, v) ∷ want) =
    let rest = absent_from have want in if has k have then rest else (k, v) ∷ rest

-- The Secret with the missing annotations besides its own.
unfoldable pub stamped_with : Secret → Dict String → Secret
stamped_with sec missing = record sec { annotations = merge sec.annotations missing }

module _ {W : Type 0} (options : Options W) where
  open options use {secrets, formats, namespaces, self_username, identities}

  abbrev pub derived : Secret → Act W (Dict String)
  derived sec = do
    crt ← lift (
        Check.or_err
          (parse_certificate_base64 formats.codec (text_at (lookup client_cert_label sec.contents)))
          (wrapf "reading the stored certificate: %w" []))
    strategy ← strategy_of identities self_username crt.common_name
    want ←
        lift
          (identity_annotations formats strategy (text_at (lookup client_cert_label sec.contents)))
    return (absent_from sec.annotations want)

  -- missingAnnotations; no entries stand for the nil map
  unfoldable pub missing_annotations : Secret → Act W (Dict String)
  missing_annotations sec =
      if has strategy_annotation sec.annotations && has groups_annotation sec.annotations
      then return []
      else derived sec

  abbrev pub updated : Counts → Result (Unit {0}) × W → Counts × W
  updated res (ok u, w) = (record res { stamped = suc res.stamped }, w)
  updated res (err e, w) = (record res { skipped = suc res.skipped }, w)

  abbrev pub stamp : Secret → Counts → Result (Dict String) × W → Counts × W
  stamp sec res (err e, w) = (record res { skipped = suc res.skipped }, w)
  stamp sec res (ok [], w) = (res, w)
  stamp sec res (ok (entry ∷ missing), w) =
      updated res (secrets.update (stamped_with sec (entry ∷ missing)) w)

  -- The body of the loop over a namespace's Secrets.
  unfoldable pub backfill_one : Secret → Counts → W → Counts × W
  backfill_one sec res w =
      if has_suffix sec.name client_config_suffix
      then stamp sec (record res { scanned = suc res.scanned }) (missing_annotations sec w)
      else (res, w)

  unfoldable pub backfill_secrets : List Secret → Counts → W → Counts × W
  backfill_secrets [] res w = (res, w)
  backfill_secrets (sec ∷ list) res w =
      let (res', w') = backfill_one sec res w in backfill_secrets list res' w'

  abbrev pub after_listing :
      Counts → Result (List Secret) × W → (Counts → W → Outcome × W) → Outcome × W
  after_listing res (err e, w) next = ((res, some e), w)
  after_listing res (ok list, w) next = let (res', w') = backfill_secrets list res w in next res' w'

  abbrev pub listing_failure : String → Error → Error
  listing_failure ns e = wrapf "listing secrets in %s: %w" (str ns ∷ []) e

  unfoldable pub backfill_namespaces : List String → List String → Counts → W → Outcome × W
  backfill_namespaces [] seen res w = ((res, none), w)
  backfill_namespaces (ns ∷ rest) seen res w = elim (ns == "" || slices_contains seen ns) [
    | true ↦ backfill_namespaces rest seen res w
    | false ↦
        after_listing res (or_fail (secrets.list ns) (listing_failure ns) w)
          (λ res' w'. backfill_namespaces rest (ns ∷ seen) res' w')
  ]

  -- Run
  unfoldable pub run : W → Outcome × W
  run w = backfill_namespaces namespaces [] (record { scanned = 0; stamped = 0; skipped = 0 }) w
