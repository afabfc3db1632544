-- ===== src/Store/Fetch.antt =====
-- Fetching a release: `fetch_release` and `fetch_release_inner` of crates/ocid/src/node.rs. A
-- fetch that fails keeps the blobs that came before, so the store is returned with the result.
-- Counters, events and the lock on concurrent fetches of one reference are not modelled.
use ocid.Prelude.{
  ℕ, Bool, true, false, not, Option, none, some, List, [], ◌∷◌, if◌then◌else◌, ◌==◌, Eq, nat_eq,
  list_eq, retain, no_provider, download_failed, Result, ok, err,
}
use ocid.Prelude.Map.{insert}
use ocid.Release.{Hash, BlobRef, Release, Crypto, all_blobs, verify}
use ocid.Index.{put_release, blob_ref}
use ocid.Store.{Store, Hashes, has_hash, record_blob, verify_blob}

-- The downloader: the bytes that one of the providers sends for a hash.
abbrev pub Download : Type 0 → Type 0
Download Key = Hash → List Key → Option (List ℕ)

abbrev pub no_providers : {Key : Type 0} → List Key → Bool
no_providers [] = true
no_providers (p ∷ ps) = false

-- A call that ends in `?`: what follows runs on the store it left, unless it failed.
abbrev pub and_then :
    {S : Type 0} → S × Result (Unit {0}) → (S → S × Result (Unit {0})) → S × Result (Unit {0})
and_then (st, ok u) f = f st
and_then (st, err e) f = (st, err e)

module _ {Key : Type 0} (hashes : Hashes) where
  -- Index and pin a blob whose data is there, once it is verified.
  unfoldable pub admit : Store Key → BlobRef → Store Key × Result (Unit {0})
  admit st b = elim (verify_blob hashes st b) [
    | ok u ↦ (record_blob st b, ok tt)
    | err e ↦ (st, err e)
  ]

  -- The body of the loop.
  unfoldable pub fetch_blob :
      Download Key → List Key → Store Key → BlobRef → Store Key × Result (Unit {0})
  unfolding admit has_hash
  fetch_blob download providers st b =
      if not (has_hash st b.hash)
      then if no_providers providers
        then (st, err no_provider)
        else elim (download b.hash providers) [
          | none ↦ (st, err download_failed)
          | some bytes ↦ admit (record st { blobs = insert b.hash bytes st.blobs }) b
        ]
      else elim (blob_ref st.index b.digest) [ none ↦ admit st b | some r ↦ (st, ok tt) ]

  unfoldable pub fetch_blobs :
      Download Key → List Key → Store Key → List BlobRef → Store Key × Result (Unit {0})
  unfolding fetch_blob
  fetch_blobs download providers st [] = (st, ok tt)
  fetch_blobs download providers st (b ∷ bs) =
      and_then (fetch_blob download providers st b) (λ st'. fetch_blobs download providers st' bs)

module _ {Key Secret : Type 0} ⦃eq : Eq Key⦄ (hashes : Hashes) (crypto : Crypto Key Secret) where
  -- `self.store.put_release(release)?` at the end of the loop.
  unfoldable pub store_release : Store Key → Release Key → ℕ → Store Key × Result (Unit {0})
  unfolding put_release
  store_release st release now = elim (put_release st.index release now) [
    | ok out ↦ (record st { index = out.0 }, ok tt)
    | err e ↦ (st, err e)
  ]

  -- `fetch_release_inner`, on the node with key `me`
  unfoldable pub fetch_release_inner :
      Download Key → Key → Store Key → Release Key → List Key → ℕ → Store Key × Result (Unit {0})
  unfolding fetch_blobs store_release
  fetch_release_inner download me st release providers now =
      let others = retain (λ p. not (p == me)) providers in
      and_then (fetch_blobs hashes download others st (all_blobs release))
        (λ st'. store_release st' release now)

  -- `Node::fetch_release`
  unfoldable pub fetch_release :
      Download Key → Key → Store Key → Release Key → List Key → ℕ → Store Key × Result (Unit {0})
  unfolding fetch_release_inner
  fetch_release download me st release providers now =
      and_then (st, verify crypto release)
        (λ st'. fetch_release_inner download me st' release providers now)
