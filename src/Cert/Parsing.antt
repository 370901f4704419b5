-- ===== src/Cert/Parsing.antt =====
-- The loop over PEM blocks ends by itself (certinfo.go).
use authn.Prelude.{ℕ, suc, zero, ◌<◌, ◌≡◌, refl, sym, ap, ◌∙◌, some, List, arith, length}
use authn.Prelude.{◌==◌, Bool-cases, Option-cases, inl, inr}
use authn.Go.Act.{Result}
use authn.Cert.{Certificate, ended, Codec, PemBlock, parse_blocks, parse_certificate_pem}

-- What pem.Decode documents: the rest is shorter than the input.
abbrev pub Shrinks : Codec → Type 0
Shrinks codec =
    (bytes rest : List ℕ) (block : PemBlock)
    → codec.decode_pem bytes ≡ some (block, rest)
    → length rest < length bytes

module _ (codec : Codec) (shrinks : Shrinks codec) where
  more_fuel :
      (f g : ℕ) (bytes : List ℕ)
      → length bytes < f
      → length bytes < g
      → parse_blocks codec f bytes ≡ parse_blocks codec g bytes
  unfolding parse_blocks
  more_fuel zero g bytes h k = elim h [ ]
  more_fuel (suc f) zero bytes h k = elim k [ ]
  more_fuel (suc f) (suc g) bytes h k = elim (Option-cases (codec.decode_pem bytes)) [
    | inl e ↦ rw (e, parse_blocks)
    | inr ((block, rest), e) ↦
        let lt : length rest < length bytes = shrinks bytes rest block e in
        let ih = more_fuel f g rest (omega arith) (omega arith) in
        rw (e, parse_blocks)
          (elim (Bool-cases (block.block_type == "CERTIFICATE")) [
            | inl c ↦ rw (c, parse_blocks)
            | inr c ↦ rw (c, parse_blocks) ih
          ])
  ]

  ends :
      (f : ℕ) (bytes : List ℕ)
      → length bytes < f
      → (r : Result Certificate) × (parse_blocks codec f bytes ≡ some r)
  unfolding parse_blocks
  ends zero bytes h = elim h [ ]
  ends (suc f) bytes h = elim (Option-cases (codec.decode_pem bytes)) [
    | inl e ↦ rw (e, parse_blocks) (_, refl)
    | inr ((block, rest), e) ↦
        let lt : length rest < length bytes = shrinks bytes rest block e in
        rw (e, parse_blocks)
          (elim (Bool-cases (block.block_type == "CERTIFICATE")) [
            | inl c ↦ rw (c, parse_blocks) (_, refl)
            | inr c ↦ rw (c, parse_blocks) (ends f rest (omega arith))
          ])
  ]

  -- The loop over the blocks of an input ends, where each block that the library decodes takes at
  -- least a byte: with any fuel above the length of the input it does not run out of fuel, and its
  -- result is the one of ParseCertificatePEM.
  pub parse_certificate_pem-fuel :
      (f : ℕ) (bytes : List ℕ)
      → length bytes < f
      → parse_blocks codec f bytes ≡ some (parse_certificate_pem codec bytes)
  unfolding parse_certificate_pem
  parse_certificate_pem-fuel f bytes h =
      let (r, e) = ends f bytes h in
      let same = more_fuel f (suc (length bytes)) bytes h (omega arith) in
      e ∙ ap (λ x. some (ended codec x)) (sym e ∙ same)
