-- ===== src/Store.antt =====
-- The node's store (crates/ocid/src/store.rs): the index, and the blob store of `iroh_blobs` with its
-- data and its named tags, each a map. What hashes a blob and what downloads it are parameters.
pub mod Fetch
pub mod Sound
pub mod Complete
pub mod Grows
pub mod Succeeds
pub mod Put
pub mod Addressed
pub mod Protects
use ocid.Prelude.{
  retain, not, ◌||◌, any, ℕ, ◌≡◌, Bool, true, false, not, ◌&&◌, Option, none, some, List, [], ◌∷◌,
  ◌++◌, map, if◌then◌else◌, ◌==◌, Eq, nat_eq, list_eq, length, all, filter_map, is_ok, Error,
  digest_mismatch, size_mismatch, io, Result, ok, err, ◌>>=◌, ◌>>◌, ensure, or_err,
}
use ocid.Prelude.Map.{Map, get, insert, remove, has_key}
use ocid.Text.{Text}
use ocid.Oci.Digest.{Digest, parse_digest}
use ocid.Release.{Hash, BlobRef, Release, all_blobs}
use ocid.Index.{Index, put_blob_ref}

-- `pins` are the tags `blob:<sha256>`, each under its digest.
pub record Store (Key : Type 0) : Type 0 where
  pub index : Index Key
  pub pins : Map Digest Hash
  pub blobs : Map Hash (List ℕ)

-- `Digest::sha256`, and the hash by which `iroh_blobs` addresses its data.
pub record Hashes : Type 0 where
  pub sha256 : List ℕ → Digest
  pub blake3 : List ℕ → Hash

module _ {Key : Type 0} where
  unfoldable pub has_hash : Store Key → Hash → Bool
  has_hash st h = has_key h st.blobs

  unfoldable pub record_blob : Store Key → BlobRef → Store Key
  unfolding put_blob_ref
  record_blob st r = record st {
    index = put_blob_ref st.index r;
    pins = insert r.digest r.hash st.pins;
  }

  unfoldable pub unpin_blob : Store Key → Digest → Store Key
  unpin_blob st digest = record st { pins = remove digest st.pins }

  -- A tag whose text is no digest is skipped.
  unfoldable pub list_pins : Store Key → List (Digest × Hash)
  list_pins st =
      filter_map (λ p. elim (parse_digest p.0) [ ok d ↦ some (d, p.1) | err e ↦ none ]) st.pins

  -- The mark and sweep of `iroh_blobs` that `Store::open` turns on: of the data that it means to
  -- delete, what a named tag protects stays.
  unfoldable pub delete_unprotected : (Hash → Bool) → Store Key → Store Key
  delete_unprotected doomed st = record st {
    blobs = retain (λ e. not (doomed e.0) || any (λ p. p.1 == e.0) st.pins) st.blobs;
  }

  unfoldable pub is_complete : Store Key → Release Key → Bool
  unfolding has_hash
  is_complete st release = all (λ b. has_hash st b.hash) (all_blobs release)

abbrev pub expected : Option Digest → Digest → Bool
expected none digest = true
expected (some d) digest = d == digest

module _ {Key : Type 0} (hashes : Hashes) where
  -- `Store::verify_blob`
  unfoldable pub verify_blob : Store Key → BlobRef → Result (Unit {0})
  verify_blob st r = do
    bytes ← or_err (get r.hash st.blobs) io
    ensure (hashes.sha256 bytes == r.digest) digest_mismatch
    ensure (length bytes == r.size) size_mismatch

  -- `Store::put_blob_bytes`
  unfoldable pub put_blob_bytes :
      Store Key → List ℕ → Option Digest → Option Text → Result (Store Key × BlobRef)
  unfolding record_blob
  put_blob_bytes st bytes expect media_type = do
    let digest = hashes.sha256 bytes
    ensure (expected expect digest) digest_mismatch
    let r : BlobRef = record {
      digest = digest;
      hash = hashes.blake3 bytes;
      size = length bytes;
      media_type = media_type;
    }
    ok (record_blob (record st { blobs = insert (hashes.blake3 bytes) bytes st.blobs }) r, r)
