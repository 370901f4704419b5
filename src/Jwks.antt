-- ===== src/Jwks.antt =====
-- go/authn/internal/routes/jwks: the keys that verify this service's tokens (jwks.go), and those that
-- a rotation retired (previous.go).
pub mod Laws
use authn.Prelude.{
  String, Bool, true, false, not, ◌||◌, Option, none, some, List, [], ◌∷◌, ◌++◌, ◌==◌,
  if◌then◌else◌,
}
use authn.Go.Text.{split, split_first, trim_space}
use authn.Go.Error.{Error, errorf, wrapf, str}
use authn.Go.Dict.{Dict, lookup, insert, true_at}
use authn.Go.Act.{Result, ok, err}
use authn.Go.Check.{◌>>=◌, ◌>>◌, require, or_err}

-- Key
pub record Key (PublicKey : Type 0) : Type 0 where
  pub kid : String
  pub public : PublicKey

-- jwk
pub record Jwk : Type 0 where
  pub kty : String
  pub use_of : String
  pub alg : String
  pub kid : String
  pub n : String
  pub e : String

-- What the key set uses of RSA keys and of the files that hold them.
pub record Keys (PublicKey : Type 0) : Type 0 where
  -- os.ReadFile, as it answers at startup
  pub read_file : String → Result String
  -- jwtutil.ParseRSAPrivateKeyFromPEM, of which only the public half is kept
  pub public_of_private : String → Result PublicKey
  -- jwtutil.ParseRSAPublicKeyFromPEM
  pub parse_public : String → Result PublicKey
  -- PublicKey.Equal
  pub same_key : PublicKey → PublicKey → Bool
  -- the modulus and the exponent, in base64url
  pub modulus : PublicKey → String
  pub exponent : PublicKey → String

-- strings.Cut at "=", with both parts trimmed; without a "=" the second part is empty.
abbrev cut_trimmed : List String → String × String
cut_trimmed (kid ∷ path ∷ []) = (trim_space kid, trim_space path)
cut_trimmed (kid ∷ rest) = (trim_space kid, "")
cut_trimmed [] = ("", "")

-- The kid and the path of an entry.
unfoldable pub kid_and_path : String → Result (String × String)
kid_and_path entry =
    let (kid, path) = cut_trimmed (split_first b'=' entry) in
    if kid == "" || path == ""
    then err (errorf "previous key %q: want kid=path" (str entry ∷ []))
    else ok (kid, path)

abbrev pub kid_taken : String → String → Error
kid_taken current_kid kid =
    if kid == current_kid
    then errorf "previous key %q: kid is the current signing key's" (str kid ∷ [])
    else errorf "previous key %q: kid listed twice" (str kid ∷ [])

module _ {PublicKey : Type 0} (keys : Keys PublicKey) where
  abbrev public_or : String → Result PublicKey → Result PublicKey
  public_or raw (ok public) = ok public
  public_or raw (err e) =
      or_err (keys.parse_public raw) (wrapf "not a PEM RSA private or public key: %w" [])

  -- publicKeyFromPEM
  unfoldable pub public_key_from_pem : String → Result PublicKey
  public_key_from_pem raw = public_or raw (keys.public_of_private raw)

  -- Key.jwk
  unfoldable pub jwk : Key PublicKey → Jwk
  jwk k = record {
    kty = "RSA";
    use_of = "sig";
    alg = "RS256";
    kid = k.kid;
    n = keys.modulus k.public;
    e = keys.exponent k.public;
  }

  -- The loop of Endpoint.
  unfoldable pub published : List Jwk → List (Key PublicKey) → List Jwk
  published set [] = set
  published set (k ∷ previous) = published (set ++ jwk k ∷ []) previous

  -- Endpoint: the document that it serves, whose rendering as JSON cannot fail
  unfoldable pub endpoint : PublicKey → String → List (Key PublicKey) → List Jwk
  endpoint public kid previous =
      published (jwk (record { kid = kid; public = public }) ∷ []) previous

  module _ (current_kid : String) (current : Option PublicKey) where
    abbrev is_key : Option PublicKey → PublicKey → Bool
    is_key none public = false
    is_key (some k) public = keys.same_key public k

    unfoldable pub is_current : PublicKey → Bool
    is_current public = is_key current public

    -- The key of an entry that is not blank, in the order of the loop's checks.
    unfoldable pub key_of : Dict Bool → String → Result (Key PublicKey)
    key_of seen entry = do
      kp ← kid_and_path entry
      require (not (true_at (lookup kp.0 seen))) (kid_taken current_kid kp.0)
      raw ← or_err (keys.read_file kp.1) (wrapf "previous key %q: %w" (str kp.0 ∷ []))
      public ←
          or_err (public_key_from_pem raw)
            (wrapf "previous key %q (%s): %w" (str kp.0 ∷ str kp.1 ∷ []))
      require (not (is_current public))
          (errorf "previous key %q is the current signing key under another kid" (str kp.0 ∷ []))
      ok (record { kid = kp.0; public = public })

    -- The loop of ParsePreviousKeys.
    unfoldable pub keys_from :
        Dict Bool → List (Key PublicKey) → List String → Result (List (Key PublicKey))
    keys_from seen found [] = ok found
    keys_from seen found (entry ∷ entries) =
        let skipped = keys_from seen found entries in
        let read = key_of seen (trim_space entry) >>= λ k.
        keys_from (insert k.kid true seen) (found ++ k ∷ []) entries in
        if trim_space entry == "" then skipped else read

    -- ParsePreviousKeys
    unfoldable pub parse_previous_keys : String → Result (List (Key PublicKey))
    parse_previous_keys spec = keys_from ((current_kid, true) ∷ []) [] (split b',' spec)
