-- ===== src/Release/Signing.antt =====
-- Signing and verifying release records.
use ocid.Prelude.{
  ℕ, ◌≡◌, true, not, ◌&&◌, some, List, arith, ◌==◌, nat_eq, list_eq, length, ok, Option-cases, inl,
  inr,
}
use ocid.Oci.Name.{validate_name, validate_tag}
use ocid.Release.{
  Crypto, Release, ReleasePayload, signed_payload, sign, verify, release_version, supersedes,
}

-- What the program relies on: a signature of 64 bytes verifies under the key of its secret, and
-- hex is read back.
pub record IsLawful {Key Secret : Type 0} (crypto : Crypto Key Secret) : Type 0 where
  pub verify-sign :
      (s : Secret) (m : List ℕ) → crypto.verify (crypto.public_key s) m (crypto.sign s m) ≡ true
  pub length-sign : (s : Secret) (m : List ℕ) → length (crypto.sign s m) ≡ 64
  pub hex_decode-encode : (b : List ℕ) → crypto.hex_decode (crypto.hex_encode b) ≡ some b

module _ {Key Secret : Type 0} (crypto : Crypto Key Secret) where
  -- A record that `sign` returns verifies, if its name and tag are valid.
  pub verify-sign :
      IsLawful crypto
      → (secret : Secret) (payload : ReleasePayload Key) (now : ℕ) (r : Release Key)
      → sign crypto secret payload now ≡ ok r
      → validate_name payload.name ≡ ok tt
      → validate_tag payload.tag ≡ ok tt
      → verify crypto r ≡ ok tt
  unfolding sign verify
  verify-sign law secret payload now r s n t =
      elim (Option-cases (crypto.encode_payload (signed_payload crypto secret payload now))) [
        | inl q ↦ ground arith
        | inr (bytes, q) ↦
            let same : record {
              payload = signed_payload crypto secret payload now;
              signature = crypto.hex_encode (crypto.sign secret bytes);
            }
                ≡ r =
              ground arith in
            ground (
              arith,
              law.verify-sign secret bytes,
              law.length-sign secret bytes,
              law.hex_decode-encode (crypto.sign secret bytes),
            )
      ]

  -- A record that verifies has this version, a valid name and tag, and a signature of 64 bytes by
  -- its publisher over exactly its payload.
  pub verify_sound :
      (r : Release Key)
      → verify crypto r ≡ ok tt
      → (sig bytes : List ℕ) × (r.payload.version ≡ release_version)
        × (validate_name r.payload.name ≡ ok tt)
        × (validate_tag r.payload.tag ≡ ok tt)
        × (crypto.hex_decode r.signature ≡ some sig)
        × (length sig ≡ 64)
        × (crypto.encode_payload r.payload ≡ some bytes)
        × (crypto.verify r.payload.publisher bytes sig ≡ true)
  unfolding verify
  verify_sound r h = elim (Option-cases (crypto.hex_decode r.signature)) [
    | inl n ↦ ground arith
    | inr (sig, q) ↦ elim (Option-cases (crypto.encode_payload r.payload)) [
      | inl n ↦ ground arith
      | inr (bytes, b) ↦
          (sig, bytes, ground arith, ground arith, ground arith, q, ground arith, b, ground arith)
    ]
  ]

-- Of two releases each supersedes the other exactly when they are of one second and have different
-- manifests.
pub supersedes_both :
    {Key : Type 0} (a b : Release Key)
    → (supersedes a b && supersedes b a) ≡ (
        a.payload.timestamp == b.payload.timestamp
        && not (a.payload.manifest.digest == b.payload.manifest.digest))
unfolding supersedes
supersedes_both a b = ground arith
