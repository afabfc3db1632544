-- ===== src/Registry/Pull/Length.antt =====
-- The lengths that the answers with blobs (crates/ocid/src/registry.rs) say.
use ocid.Prelude.{
  ℕ, ◌+◌, ◌-◌, ◌≤◌, ◌≡◌, refl, ◌⊎◌, false, Option, none, some, List, arith, Eq, nat_eq, list_eq,
  length, length-take-drop, Bool-cases, Option-cases, inl, inr,
}
use ocid.Prelude.Map.{get}
use ocid.Text.{Text}
use ocid.Identity.{Keys}
use ocid.Oci.Digest.{Digest, parse_digest}
use ocid.Policy.Rules.{Policy}
use ocid.Release.{BlobRef}
use ocid.Index.{blob_ref}
use ocid.Store.{Store, Hashes, has_hash}
use ocid.Store.Sound.{IsSound, Holds}
use ocid.Node.Commands.{Lookup}
use ocid.Registry.Http.{Response, plain, Reply, reply, refuse, OciError, or_fault, digest_invalid}
use ocid.Registry.Range.{parse_range, parse_range-bounds}
use ocid.Registry.Uploads.{resolve}
use ocid.Registry.Pull.{held_ref, content_range, send_bytes, send_blob, blob_get}

Reply-cases :
    {T : Type 0} (m : Reply T) → ((x : T) × (m ≡ reply x)) ⊎ ((e : OciError) × (m ≡ refuse e))
Reply-cases (reply x) = inl (x, refl)
Reply-cases (refuse e) = inr (e, refl)

-- The answer is that there is no such range, or it has the length that it says.
IsMeasured : Response → Type 0
IsMeasured r = (r.status ≡ 416) ⊎ (r.size ≡ some (length r.body))

module _ {Key : Type 0} (hashes : Hashes) where
  send_bytes-IsMeasured :
      (st : Store Key) (blob : BlobRef) (given r : Response) (start n : ℕ) (bytes : List ℕ)
      → get blob.hash st.blobs ≡ some bytes
      → start + n ≤ length bytes
      → send_bytes st blob false given start n ≡ reply r
      → IsMeasured r
  unfolding send_bytes IsMeasured
  send_bytes-IsMeasured st blob given r start n bytes g l h =
      inr (ground (arith, length-take-drop start n bytes l))

  send_blob-IsMeasured :
      (st : Store Key) (blob : BlobRef) (range : Option Text) (r : Response)
      → Holds hashes st.blobs blob
      → send_blob st blob range false ≡ reply r
      → IsMeasured r
  unfolding send_blob Holds IsMeasured
  send_blob-IsMeasured st blob none r held h =
      send_bytes-IsMeasured st blob (plain 200) r 0 blob.size held.0 held.1 (omega (arith, held.3))
        h
  send_blob-IsMeasured st blob (some spec) r held h =
      elim (Option-cases (parse_range spec blob.size)) [
        | inl n ↦ inl (ground arith)
        | inr ((start, last), q) ↦
            let inside = parse_range-bounds spec blob.size start last q in
            send_bytes-IsMeasured st blob
              (record (plain 206) { range = some (content_range start last blob.size) }) r start
              (last - start + 1) held.0 held.1 (omega (arith, held.3, inside)) (ground arith)
      ]

  held_ref_sound :
      (st : Store Key) (d : Digest) (b : BlobRef)
      → held_ref st d ≡ some b
      → blob_ref st.index d ≡ some b
  unfolding held_ref
  held_ref_sound st d b h = elim (Option-cases (blob_ref st.index d)) [
    | inl n ↦ absurd (ground arith)
    | inr (x, q) ↦ elim (Bool-cases (has_hash st x.hash)) [
      | inl t ↦ ground arith
      | inr f ↦ absurd (ground arith)
    ]
  ]

module _ {Key : Type 0} ⦃eq : Eq Key⦄ (hashes : Hashes) (keys : Keys Key) (lookup : Lookup Key)
    (policy : Policy) (me : Key) where
  -- On a sound store, whatever range a request asks for: an answer with a blob has as many bytes as
  -- its length says, unless it is that there is no such range.
  pub blob_get-length :
      (st : Store Key) (path digest : Text) (range : Option Text) (r : Response)
      → IsSound hashes st
      → blob_get hashes keys lookup policy me st path digest range false ≡ reply r
      → (r.status ≡ 416) ⊎ (r.size ≡ some (length r.body))
  unfolding blob_get IsSound IsMeasured
  blob_get-length st path digest range r s h =
      elim (Reply-cases (resolve hashes keys lookup policy me path)) [
        | inr (e, q) ↦ absurd (ground arith)
        | inl (found, q) ↦ elim (Reply-cases (or_fault (parse_digest digest) 400 digest_invalid)) [
          | inr (e, w) ↦ absurd (ground arith)
          | inl (d, w) ↦ elim (Option-cases (held_ref st d)) [
            | inl n ↦ absurd (ground arith)
            | inr (b, z) ↦
                send_blob-IsMeasured hashes st b range r (s d b (held_ref_sound hashes st d b z)).2
                  (ground arith)
          ]
        ]
      ]
