-- ===== src/Node/Publish.antt =====
-- Publishing: `publish`, `announce`, `announce_all_local` and `attach_referrer` of
-- crates/ocid/src/node.rs. What gossip does with a message is a parameter: whether it was taken.
pub mod Keeps
use ocid.Prelude.{
  ℕ, ◌+◌, ◌≡◌, Bool, true, false, not, ◌&&◌, ◌||◌, Option, none, some, List, [], ◌∷◌, ◌++◌,
  if◌then◌else◌, ◌==◌, Eq, nat_eq, list_eq, pair_eq, contains, not_ours, not_subscribed,
  download_failed, broadcast_failed, Error, Result, ok, err, ◌>>=◌, ◌>>◌, ensure,
}
use ocid.Identity.{Keys}
use ocid.Oci.Digest.{Digest}
use ocid.Release.{BlobRef, Referrer, Release, ReleaseSummary, Crypto, sign, verify, summary_of}
use ocid.Index.{list_releases}
use ocid.Store.{Store, Hashes}
use ocid.Store.Fetch.{and_then, store_release}
use ocid.Node.Attach.{lacks_referrer, with_referrer}

-- The store, and the announcements that went out, the last one first.
pub record Outbox (Key : Type 0) : Type 0 where
  pub store : Store Key
  pub sent : List (ReleaseSummary Key)

module _ {Key : Type 0} ⦃eq : Eq Key⦄ (topics : List Key) (taken : ReleaseSummary Key → Bool) where
  -- `Node::announce`, for a node that is subscribed to `topics`
  unfoldable pub announce : Outbox Key → Release Key → Outbox Key × Result (Unit {0})
  unfolding summary_of
  announce box rel =
      if not (contains topics rel.payload.publisher)
      then (box, err not_subscribed)
      else if taken (summary_of rel)
      then (record box { sent = summary_of rel ∷ box.sent }, ok tt)
      else (box, err broadcast_failed)

  -- The loop of `announce_all_local`
  unfoldable pub announce_own : Key → List (Release Key) → Outbox Key → Outbox Key × Result ℕ
  unfolding announce
  announce_own me [] box = (box, ok 0)
  announce_own me (r ∷ rs) box =
      let skipped = announce_own me rs box in
      let out = announce box r in
      if r.payload.publisher == me
      then elim out.1 [
        | err e ↦ (out.0, err e)
        | ok u ↦ let rest = announce_own me rs out.0 in (rest.0, rest.1 >>= λ n. ok (1 + n))
      ]
      else skipped

  -- `Node::announce_all_local`
  unfoldable pub announce_all_local : Keys Key → Key → Outbox Key → Outbox Key × Result ℕ
  unfolding announce_own list_releases
  announce_all_local keys me box = announce_own me (list_releases keys box.store.index) box

module _ {Key Secret : Type 0} ⦃eq : Eq Key⦄ (hashes : Hashes) (crypto : Crypto Key Secret)
    (topics : List Key) (taken : ReleaseSummary Key → Bool) where
  -- The guards of `publish`, on the node with key `me`
  unfoldable pub may_publish : Key → Release Key → Result (Unit {0})
  unfolding verify
  may_publish me rel = do verify crypto rel; ensure (rel.payload.publisher == me) not_ours

  -- `put_release`: that an older record is not written goes unnoticed.
  abbrev pub put : Release Key → ℕ → Outbox Key → Outbox Key × Result (Unit {0})
  put rel now box =
      let out = store_release hashes crypto box.store rel now in
      (record box { store = out.0 }, out.1)

  -- `Node::publish`
  unfoldable pub publish : Key → Release Key → ℕ → Outbox Key → Outbox Key × Result (Unit {0})
  unfolding may_publish store_release announce
  publish me rel now box =
      and_then (and_then (box, may_publish me rel) (put rel now))
        (λ box'. announce topics taken box' rel)

module _ {Key Secret : Type 0} ⦃eq : Eq Key⦄ (hashes : Hashes) (crypto : Crypto Key Secret)
    (topics : List Key) (taken : ReleaseSummary Key → Bool) (secret : Secret) where
  abbrev attach_one :
      Referrer → List BlobRef → ℕ → Release Key → Outbox Key → Outbox Key × Result (Unit {0})
  attach_one referrer blobs now rel box =
      elim (sign crypto secret (with_referrer rel referrer blobs now) now) [
        | err e ↦ (box, err e)
        | ok updated ↦ publish hashes crypto topics taken (crypto.public_key secret) updated now box
      ]

  -- The loop of `attach_referrer`, and how many releases it updated
  unfoldable pub attach_all :
      Digest → Referrer → List BlobRef → ℕ → List (Release Key) → Outbox Key → Outbox Key × Result ℕ
  unfolding lacks_referrer sign with_referrer publish
  attach_all subject referrer blobs now [] box = (box, ok 0)
  attach_all subject referrer blobs now (rel ∷ rels) box =
      let skipped = attach_all subject referrer blobs now rels box in
      let out = attach_one referrer blobs now rel box in
      if lacks_referrer (crypto.public_key secret) subject referrer rel
      then elim out.1 [
        | err e ↦ (out.0, err e)
        | ok u ↦
            let rest = attach_all subject referrer blobs now rels out.0 in
            (rest.0, rest.1 >>= λ n. ok (1 + n))
      ]
      else skipped

  -- `Node::attach_referrer`
  unfoldable pub attach_referrer :
      Keys Key → Digest → Referrer → List BlobRef → ℕ → Outbox Key → Outbox Key × Result ℕ
  unfolding attach_all list_releases
  attach_referrer keys subject referrer blobs now box =
      attach_all subject referrer blobs now (list_releases keys box.store.index) box
