-- ===== src/Store/Sound.antt =====
-- The store's integrity, and what a fetch does to it.
use ocid.Prelude.{
  ℕ, ◌≡◌, refl, subst, sym, ap, ◌∙◌, Bool, false, not, Option, none, some, List, [], ◌∷◌, arith,
  if◌then◌else◌, ◌==◌, Eq, nat_eq, list_eq, length, retain, Result, ok, err, Bool-cases,
  Option-cases, inl, inr, no_provider, download_failed,
}
use ocid.Prelude.Map.{Map, get, insert, get-insert}
use ocid.Oci.Digest.{Digest}
use ocid.Release.{Hash, BlobRef, Release, Crypto, all_blobs, verify}
use ocid.Index.{Index, blob_ref, put_release}
use ocid.Index.Releases.{put_release_blobs}
use ocid.Store.{Store, Hashes, has_hash, record_blob, verify_blob}
use ocid.Store.Fetch.{
  Download, and_then, no_providers, admit, fetch_blob, fetch_blobs, store_release,
  fetch_release_inner, fetch_release,
}

pub and_then-keeps {ℓ} :
    {S : Type 0} (P : S → Type ℓ) (step : S × Result (Unit {0})) (f : S → S × Result (Unit {0}))
    → P step.0
    → ((st : S) → P st → P (f st).0)
    → P (and_then step f).0
and_then-keeps P (st, ok u) f h k = k st h
and_then-keeps P (st, err e) f h k = h

module _ (hashes : Hashes) where
  -- The data of `b` is held, and has its digest and its size.
  unfoldable pub Holds : Map Hash (List ℕ) → BlobRef → Type 0
  Holds held b =
      (bytes : List ℕ) × (get b.hash held ≡ some bytes)
      × (hashes.sha256 bytes ≡ b.digest)
      × (length bytes ≡ b.size)

module _ {Key : Type 0} (hashes : Hashes) where
  -- Every index entry stands under its own digest, is pinned, and its data is held and matches.
  unfoldable pub IsSound : Store Key → Type 0
  IsSound st =
      (d : Digest) (b : BlobRef)
      → blob_ref st.index d ≡ some b
      → (b.digest ≡ d) × (get d st.pins ≡ some b.hash) × Holds hashes st.blobs b

  verify_blob-Holds :
      (st : Store Key) (b : BlobRef) {u : Unit {0}}
      → verify_blob hashes st b ≡ ok u
      → Holds hashes st.blobs b
  unfolding verify_blob Holds
  verify_blob-Holds st b h = elim (Option-cases (get b.hash st.blobs)) [
    | inl n ↦ absurd (ground arith)
    | inr (bytes, q) ↦ (bytes, q, ground arith, ground arith)
  ]

  pub record_blob-IsSound :
      (st : Store Key) (b : BlobRef)
      → IsSound st
      → Holds hashes st.blobs b
      → IsSound (record_blob st b)
  unfolding IsSound record_blob blob_ref
  record_blob-IsSound st b s h d r q = elim (Bool-cases (b.digest == d)) [
    | inl e ↦
        let same : b ≡ r = ground (arith, get-insert b.digest d b st.index.blobs) in
        (
          ground arith,
          ground (arith, get-insert b.digest d b.hash st.pins),
          subst (λ x. Holds hashes st.blobs x) same h,
        )
    | inr e ↦
        let old = s d r (ground (arith, get-insert b.digest d b st.index.blobs)) in
        (old.0, ground (arith, get-insert b.digest d b.hash st.pins), old.2)
  ]

  admitted-IsSound :
      (st : Store Key) (b : BlobRef) (v : Result (Unit {0}))
      → verify_blob hashes st b ≡ v
      → IsSound st
      → IsSound
          (elim v as (λ v. Store Key × Result (Unit {0})) [
            | ok u ↦ (record_blob st b, ok tt)
            | err e ↦ (st, err e)
          ]).0
  admitted-IsSound st b (ok u) q s = record_blob-IsSound st b s (verify_blob-Holds st b q)
  admitted-IsSound st b (err e) q s = s

  admit-IsSound : (st : Store Key) (b : BlobRef) → IsSound st → IsSound (admit hashes st b).0
  unfolding admit
  admit-IsSound st b s = admitted-IsSound st b (verify_blob hashes st b) refl s

  -- New data under a hash that had none.
  add_data-IsSound :
      (st : Store Key) (h : Hash) (bytes : List ℕ)
      → has_hash st h ≡ false
      → IsSound st
      → IsSound (record st { blobs = insert h bytes st.blobs })
  unfolding IsSound Holds has_hash
  add_data-IsSound st h bytes n s d b q =
      let old = s d b q in
      let held = old.2 in
      (
        old.0,
        old.1,
        (held.0, ground (arith, held.1, get-insert h b.hash bytes st.blobs), held.2, held.3),
      )

  downloaded-IsSound :
      (st : Store Key) (b : BlobRef) (got : Option (List ℕ))
      → has_hash st b.hash ≡ false
      → IsSound st
      → IsSound
          (elim got as (λ v. Store Key × Result (Unit {0})) [
            | none ↦ (st, err download_failed)
            | some bytes ↦ admit hashes (record st { blobs = insert b.hash bytes st.blobs }) b
          ]).0
  downloaded-IsSound st b none n s = s
  downloaded-IsSound st b (some bytes) n s =
      admit-IsSound (record st { blobs = insert b.hash bytes st.blobs }) b
        (add_data-IsSound st b.hash bytes n s)

  fetch_blob-IsSound :
      (download : Download Key) (ps : List Key) (st : Store Key) (b : BlobRef)
      → IsSound st
      → IsSound (fetch_blob hashes download ps st b).0
  unfolding fetch_blob
  fetch_blob-IsSound download ps st b s = elim (Bool-cases (has_hash st b.hash)) [
    | inl h ↦ elim (Option-cases (blob_ref st.index b.digest)) [
      | inl n ↦ rw (h, n) (admit-IsSound st b s)
      | inr (r, q) ↦ rw (h, q) s
    ]
    | inr h ↦
        rw h
          (elim ps
            as (λ ps.
              IsSound
                (if◌then◌else◌ {A = Store Key × Result (Unit {0})} (no_providers ps)
                  (st, err no_provider)
                  (elim (download b.hash ps) as (λ v. Store Key × Result (Unit {0})) [
                    | none ↦ (st, err download_failed)
                    | some bytes ↦
                        admit hashes (record st { blobs = insert b.hash bytes st.blobs }) b
                  ])).0) [
                    | [] ↦ s
                    | p ∷ more ↦ downloaded-IsSound st b (download b.hash (p ∷ more)) h s
                  ])
  ]

  fetch_blobs-IsSound :
      (download : Download Key) (ps : List Key) (st : Store Key) (bs : List BlobRef)
      → IsSound st
      → IsSound (fetch_blobs hashes download ps st bs).0
  unfolding fetch_blobs
  fetch_blobs-IsSound download ps st [] s = s
  fetch_blobs-IsSound download ps st (b ∷ bs) s =
      and_then-keeps IsSound (fetch_blob hashes download ps st b) _
        (fetch_blob-IsSound download ps st b s)
        (λ st' s'. fetch_blobs-IsSound download ps st' bs s')

module _ {Key Secret : Type 0} ⦃eq : Eq Key⦄ (hashes : Hashes) (crypto : Crypto Key Secret) where
  stored-IsSound :
      (st : Store Key) (r : Release Key) (now : ℕ) (o : Result (Index Key × Bool))
      → put_release st.index r now ≡ o
      → IsSound hashes st
      → IsSound hashes
          (elim o as (λ v. Store Key × Result (Unit {0})) [
            | ok out ↦ (record st { index = out.0 }, ok tt)
            | err e ↦ (st, err e)
          ]).0
  unfolding IsSound blob_ref
  stored-IsSound st r now (ok (jx, w)) q s d b h =
      s d b (ap (λ m. get d m) (sym (put_release_blobs st.index jx r now w q)) ∙ h)
  stored-IsSound st r now (err e) q s d b h = s d b h

  pub store_release-IsSound :
      (st : Store Key) (r : Release Key) (now : ℕ)
      → IsSound hashes st
      → IsSound hashes (store_release hashes crypto st r now).0
  unfolding store_release
  store_release-IsSound st r now s = stored-IsSound st r now (put_release st.index r now) refl s

  fetch_release_inner-IsSound :
      (download : Download Key) (me : Key) (st : Store Key) (r : Release Key) (ps : List Key)
      (now : ℕ)
      → IsSound hashes st
      → IsSound hashes (fetch_release_inner hashes crypto download me st r ps now).0
  unfolding fetch_release_inner
  fetch_release_inner-IsSound download me st r ps now s =
      and_then-keeps (IsSound hashes)
        (fetch_blobs hashes download (retain (λ p. not (p == me)) ps) st (all_blobs r)) _
        (fetch_blobs-IsSound hashes download _ st (all_blobs r) s)
        (λ st' s'. store_release-IsSound st' r now s')

  -- Whatever the providers send, a fetch keeps the store sound, also when it fails halfway.
  pub fetch_release-IsSound :
      (download : Download Key) (me : Key) (st : Store Key) (r : Release Key) (ps : List Key)
      (now : ℕ)
      → IsSound hashes st
      → IsSound hashes (fetch_release hashes crypto download me st r ps now).0
  unfolding fetch_release
  fetch_release-IsSound download me st r ps now s =
      and_then-keeps (IsSound hashes) (st, verify crypto r) _ s
        (λ st' s'. fetch_release_inner-IsSound download me st' r ps now s')
