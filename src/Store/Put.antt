-- ===== src/Store/Put.antt =====
-- What taking in data (crates/ocid/src/store.rs) does to the integrity of the store.
use ocid.Prelude.{
  ℕ, ◌≡◌, refl, ◌∙◌, subst, Option, List, ◌==◌, nat_eq, list_eq, arith, length, ok, Bool-cases, inl,
  inr,
}
use ocid.Prelude.Map.{insert, get-insert}
use ocid.Text.{Text}
use ocid.Oci.Digest.{Digest}
use ocid.Release.{Hash, BlobRef}
use ocid.Index.{blob_ref}
use ocid.Store.{Store, Hashes, expected, record_blob, put_blob_bytes}
use ocid.Store.Sound.{IsSound, Holds, record_blob-IsSound}
use ocid.Store.Succeeds.{IsAddressed, record_blob-IsAddressed}

module _ {Key : Type 0} (hashes : Hashes) where
  pub put_blob_bytes-keeps :
      (P : Store Key → Type 0) (st : Store Key) (bytes : List ℕ) (expect : Option Digest)
      (mt : Option Text) (out : Store Key × BlobRef)
      → put_blob_bytes hashes st bytes expect mt ≡ ok out
      → P (
          record_blob
            (record st { blobs = insert (hashes.blake3 bytes) bytes st.blobs })
            (record {
              digest = hashes.sha256 bytes;
              hash = hashes.blake3 bytes;
              size = length bytes;
              media_type = mt;
            }))
      → P out.0
  unfolding put_blob_bytes
  put_blob_bytes-keeps P st bytes expect mt out q h =
      elim (Bool-cases (expected expect (hashes.sha256 bytes))) [
        | inl e ↦ subst P (ground arith) h
        | inr e ↦ absurd (ground arith)
      ]

-- Sound, with all data under its own hash.
abbrev pub IsWhole : {Key : Type 0} → Hashes → (Hash → List ℕ) → Store Key → Type 0
IsWhole hashes content st = IsSound hashes st × IsAddressed content st

module _ {Key : Type 0} (hashes : Hashes) (content : Hash → List ℕ)
    (law : (b : List ℕ) → content (hashes.blake3 b) ≡ b) where
  abbrev with_data : Store Key → List ℕ → Store Key
  with_data st bytes = record st { blobs = insert (hashes.blake3 bytes) bytes st.blobs }

  with_data-IsSound :
      (st : Store Key) (bytes : List ℕ)
      → IsAddressed content st
      → IsSound hashes st
      → IsSound hashes (with_data st bytes)
  unfolding IsSound Holds IsAddressed blob_ref
  with_data-IsSound st bytes a s d b q =
      let old = s d b q in
      let held = old.2 in
      elim (Bool-cases (hashes.blake3 bytes == b.hash)) [
        | inr e ↦ (
          old.0,
          old.1,
          (
            held.0,
            ground (arith, held.1, get-insert (hashes.blake3 bytes) b.hash bytes st.blobs),
            held.2,
            held.3,
          ),
        )
        | inl e ↦
            let same : held.0 ≡ bytes = a b.hash held.0 held.1 ∙ ground (arith, law bytes) in
            (
              old.0,
              old.1,
              (
                held.0,
                ground (arith, same, get-insert (hashes.blake3 bytes) b.hash bytes st.blobs),
                held.2,
                held.3,
              ),
            )
      ]

  with_data-IsAddressed :
      (st : Store Key) (bytes : List ℕ)
      → IsAddressed content st
      → IsAddressed content (with_data st bytes)
  unfolding IsAddressed
  with_data-IsAddressed st bytes a h b q = elim (Bool-cases (hashes.blake3 bytes == h)) [
    | inr e ↦ a h b (ground (arith, get-insert (hashes.blake3 bytes) h bytes st.blobs))
    | inl e ↦ ground (arith, law bytes, get-insert (hashes.blake3 bytes) h bytes st.blobs)
  ]

  pub record_blob-IsWhole :
      (st : Store Key) (b : BlobRef)
      → Holds hashes st.blobs b
      → IsWhole hashes content st
      → IsWhole hashes content (record_blob st b)
  record_blob-IsWhole st b h w =
      (record_blob-IsSound hashes st b w.0 h, record_blob-IsAddressed hashes content st b w.1)

  pub take_in-IsWhole :
      (st : Store Key) (bytes : List ℕ) (mt : Option Text)
      → IsWhole hashes content st
      → IsWhole hashes content (
          record_blob (with_data st bytes) (record {
            digest = hashes.sha256 bytes;
            hash = hashes.blake3 bytes;
            size = length bytes;
            media_type = mt;
          }))
  unfolding Holds
  take_in-IsWhole st bytes mt w =
      record_blob-IsWhole (with_data st bytes) _
        (
          bytes,
          ground (arith, get-insert (hashes.blake3 bytes) (hashes.blake3 bytes) bytes st.blobs),
          refl,
          refl,
        )
        (with_data-IsSound st bytes w.1 w.0, with_data-IsAddressed st bytes w.1)

  pub put_blob_bytes-IsWhole :
      (st : Store Key) (bytes : List ℕ) (expect : Option Digest) (mt : Option Text)
      (out : Store Key × BlobRef)
      → put_blob_bytes hashes st bytes expect mt ≡ ok out
      → IsWhole hashes content st
      → IsWhole hashes content out.0
  put_blob_bytes-IsWhole st bytes expect mt out q w =
      put_blob_bytes-keeps hashes (IsWhole hashes content) st bytes expect mt out q
        (take_in-IsWhole st bytes mt w)
