-- ===== src/Cert.antt =====
-- go/authn/internal/helpers/kube/certinfo.go: reading a stored certificate, and what a signer granted.
-- The decoders of base64, PEM and x509 are the library's.
pub mod Parsing
use authn.Prelude.{
  ℕ, suc, zero, ◌<◌, String, ◌≡◌, Bool, true, false, Option, none, some, List, [], ◌∷◌, ◌==◌,
  if◌then◌else◌, length,
}
use authn.Prelude.Int.{ℤ, pos, ltb_ℤ}
use authn.Go.Text.{trim_space}
use authn.Go.Error.{Error, errorf, wrapf}
use authn.Go.Time.{Time, Duration, since}
use authn.Go.Act.{Result, ok, err}

-- The fields of an x509 certificate that the program reads.
pub record Certificate : Type 0 where
  pub common_name : String
  pub organization : List String
  pub not_before : Time
  pub not_after : Time

pub record PemBlock : Type 0 where
  pub block_type : String
  pub bytes : List ℕ

-- encoding/base64, encoding/pem and crypto/x509.
pub record Codec : Type 0 where
  pub decode_base64 : String → Result (List ℕ)
  -- pem.Decode: the next block and the rest of the input, or nothing
  pub decode_pem : List ℕ → Option (PemBlock × List ℕ)
  pub parse_certificate : List ℕ → Result Certificate

module _ (codec : Codec) where
  open codec use {decode_base64, decode_pem, parse_certificate}

  abbrev no_certificate : Error
  no_certificate = errorf "no CERTIFICATE block in PEM data" []

  -- The loop of ParseCertificatePEM, on as many blocks as the fuel allows; `none` is out of fuel.
  unfoldable pub parse_blocks : ℕ → List ℕ → Option (Result Certificate)
  parse_blocks zero bytes = none
  parse_blocks (suc fuel) bytes = elim (decode_pem bytes) [
    | none ↦ some (err no_certificate)
    | some (block, rest) ↦ elim (block.block_type == "CERTIFICATE") [
      | true ↦ some (parse_certificate block.bytes)
      | false ↦ parse_blocks fuel rest
    ]
  ]

  -- The result of a loop; one that does not end has none, and its stand-in is an error that the
  -- program does not have.
  abbrev pub ended : Option (Result Certificate) → Result Certificate
  ended none = err (errorf "out of fuel" [])
  ended (some r) = r

  -- ParseCertificatePEM: each block takes at least one byte, so the loop ends within the length.
  unfoldable pub parse_certificate_pem : List ℕ → Result Certificate
  unfolding parse_blocks
  parse_certificate_pem bytes = ended (parse_blocks (suc (length bytes)) bytes)

  abbrev decoded : Result (List ℕ) → Result Certificate
  decoded (ok raw) = parse_certificate_pem raw
  decoded (err e) = err (wrapf "decoding base64 certificate: %w" [] e)

  -- ParseCertificateBase64
  unfoldable pub parse_certificate_base64 : String → Result Certificate
  unfolding parse_certificate_pem trim_space
  parse_certificate_base64 input = decoded (decode_base64 (trim_space input))

-- Lifetime
unfoldable pub lifetime : Certificate → Duration
unfolding since
lifetime crt = since crt.not_after crt.not_before

-- MateriallyShorter; `share d` is `time.Duration(float64(d) * shortfallRatio)`
unfoldable pub materially_shorter : (Duration → Duration) → Duration → Duration → Bool
materially_shorter share granted requested =
    if ltb_ℤ (pos 0) requested then ltb_ℤ granted (share requested) else false
