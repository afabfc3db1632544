-- ===== src/Release.antt =====
-- Signed release records: crates/ocid-core/src/release.rs. Signatures, their hex form and the JSON
-- encoding of a payload are libraries' work, so they are a parameter, `Crypto`.
pub mod Signing
pub mod Reference
use ocid.Prelude.{
  ℕ, ◌+◌, ◌≡◌, Bool, true, false, not, ◌&&◌, ◌||◌, Option, none, some, List, [], ◌∷◌, ◌++◌,
  if◌then◌else◌, ◌==◌, Eq, nat_eq, list_eq, ltb, length, Error, bad_version, bad_signature_hex,
  bad_signature_length, bad_signature, io, Result, ok, err, ◌>>=◌, ◌>>◌, ensure, or_err,
}
use ocid.Prelude.Map.{Map}
use ocid.Text.{Text}
use ocid.Identity.{Keys}
use ocid.Oci.Name.{validate_name, validate_tag}
use ocid.Oci.Digest.{Digest}

-- `Blake3`: the bytes of the hash.
abbrev pub Hash : Type 0
Hash = List ℕ

pub record BlobRef : Type 0 where
  pub digest : Digest
  pub hash : Hash
  pub size : ℕ
  pub media_type : Option Text

pub record Referrer : Type 0 where
  pub digest : Digest
  pub media_type : Text
  pub size : ℕ
  pub artifact_type : Option Text
  pub annotations : Map Text Text

pub record ReleasePayload (Key : Type 0) : Type 0 where
  pub version : ℕ
  pub publisher : Key
  pub name : Text
  pub tag : Text
  pub manifest : BlobRef
  pub blobs : List BlobRef
  pub timestamp : ℕ
  pub referrers : List Referrer

pub record Release (Key : Type 0) : Type 0 where
  pub payload : ReleasePayload Key
  pub signature : Text

pub record ReleaseSummary (Key : Type 0) : Type 0 where
  pub publisher : Key
  pub name : Text
  pub tag : Text
  pub manifest_digest : Digest
  pub timestamp : ℕ

-- `iroh_base` signatures, `hex`, and `serde_json::to_vec` on a payload.
pub record Crypto (Key Secret : Type 0) : Type 0 where
  pub public_key : Secret → Key
  pub sign : Secret → List ℕ → List ℕ
  pub verify : Key → List ℕ → List ℕ → Bool
  pub hex_encode : List ℕ → Text
  pub hex_decode : Text → Option (List ℕ)
  pub encode_payload : ReleasePayload Key → Option (List ℕ)

abbrev pub release_version : ℕ
release_version = 1

module _ {Key Secret : Type 0} (crypto : Crypto Key Secret) where
  abbrev pub canonical_bytes : ReleasePayload Key → Result (List ℕ)
  canonical_bytes payload = or_err (crypto.encode_payload payload) io

  -- The payload that is signed: `now` is the clock, asked when no timestamp is given.
  unfoldable pub signed_payload : Secret → ReleasePayload Key → ℕ → ReleasePayload Key
  signed_payload secret payload now = record payload {
    version = release_version;
    publisher = crypto.public_key secret;
    timestamp = if payload.timestamp == 0 then now else payload.timestamp;
  }

  -- `Release::sign`
  unfoldable pub sign : Secret → ReleasePayload Key → ℕ → Result (Release Key)
  unfolding signed_payload
  sign secret payload now = do
    let p = signed_payload secret payload now
    bytes ← canonical_bytes p
    ok (record { payload = p; signature = crypto.hex_encode (crypto.sign secret bytes) })

  -- `Release::verify`
  unfoldable pub verify : Release Key → Result (Unit {0})
  verify r = do
    ensure (r.payload.version == release_version) bad_version
    validate_name r.payload.name
    validate_tag r.payload.tag
    sig ← or_err (crypto.hex_decode r.signature) bad_signature_hex
    ensure (length sig == 64) bad_signature_length
    bytes ← canonical_bytes r.payload
    ensure (crypto.verify r.payload.publisher bytes sig) bad_signature

sizes : List BlobRef → ℕ
sizes [] = 0
sizes (b ∷ bs) = b.size + sizes bs

module _ {Key : Type 0} where
  -- `Release::all_blobs`: the manifest and all blobs.
  abbrev pub all_blobs : Release Key → List BlobRef
  all_blobs r = r.payload.manifest ∷ r.payload.blobs

  -- `Release::total_size`
  unfoldable pub total_size : Release Key → ℕ
  unfolding sizes
  total_size r = sizes (all_blobs r)

  -- `Release::supersedes`
  unfoldable pub supersedes : Release Key → Release Key → Bool
  supersedes r other =
      ltb other.payload.timestamp r.payload.timestamp
      || r.payload.timestamp == other.payload.timestamp
        && not (r.payload.manifest.digest == other.payload.manifest.digest)

  -- `ReleaseSummary::from`
  unfoldable pub summary_of : Release Key → ReleaseSummary Key
  summary_of r = record {
    publisher = r.payload.publisher;
    name = r.payload.name;
    tag = r.payload.tag;
    manifest_digest = r.payload.manifest.digest;
    timestamp = r.payload.timestamp;
  }

  -- `Release::reference`: `<hex>/<name>:<tag>`.
  unfoldable pub reference : Keys Key → Release Key → Text
  reference keys r =
      keys.to_text r.payload.publisher ++ b'/' ∷ (r.payload.name ++ b':' ∷ r.payload.tag)
