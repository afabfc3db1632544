-- ===== src/Node/Publish/Keeps.antt =====
-- What publishing (crates/ocid/src/node.rs) leaves alone in the store, from what storing a release
-- leaves alone.
use ocid.Prelude.{
  ◌==◌, true, ◌≡◌, ℕ, Bool, not, List, [], ◌∷◌, Eq, contains, Result-keeps, Bool-keeps, Result,
}
use ocid.Identity.{Keys}
use ocid.Oci.Digest.{Digest}
use ocid.Release.{BlobRef, Referrer, Release, ReleaseSummary, Crypto, summary_of, sign}
use ocid.Index.{list_releases}
use ocid.Store.{Store, Hashes}
use ocid.Store.Fetch.{store_release}
use ocid.Store.Sound.{and_then-keeps}
use ocid.Node.Attach.{lacks_referrer, with_referrer}
use ocid.Node.Publish.{
  announce_own, announce_all_local, Outbox, announce, may_publish, put, publish, attach_one,
  attach_all, attach_referrer,
}

module _ {Key Secret : Type 0} ⦃eq : Eq Key⦄ (hashes : Hashes) (crypto : Crypto Key Secret)
    (topics : List Key) (taken : ReleaseSummary Key → Bool) (P : Store Key → Type 0)
    (put_keeps : (st : Store Key) (r : Release Key) (now : ℕ)
      → P st
      → P (store_release hashes crypto st r now).0) where
  abbrev Done : Outbox Key × Result (Unit {0}) → Type 0
  Done out = P out.0.store

  abbrev Counted : Outbox Key × Result ℕ → Type 0
  Counted out = P out.0.store

  pub announce-keeps :
      (box : Outbox Key) (r : Release Key) → P box.store → P (announce topics taken box r).0.store
  unfolding announce
  announce-keeps box r h =
      Bool-keeps Done (not (contains topics r.payload.publisher)) _ _ (λ n. h)
        (λ n. Bool-keeps Done (taken (summary_of r)) _ _ (λ t. h) (λ t. h))

  pub publish-keeps :
      (me : Key) (r : Release Key) (now : ℕ) (box : Outbox Key)
      → P box.store
      → P (publish hashes crypto topics taken me r now box).0.store
  unfolding publish
  publish-keeps me r now box h =
      and_then-keeps (λ b. P b.store) _ _
        (and_then-keeps (λ b. P b.store) (box, may_publish hashes crypto topics taken me r)
          (put hashes crypto topics taken r now) h (λ b h'. put_keeps b.store r now h'))
        (λ b h'. announce-keeps b r h')

module _ {Key Secret : Type 0} ⦃eq : Eq Key⦄ (hashes : Hashes) (crypto : Crypto Key Secret)
    (topics : List Key) (taken : ReleaseSummary Key → Bool) (secret : Secret)
    (Q : Outbox Key → Type 0)
    (publish_keeps : (r : Release Key) (now : ℕ) (box : Outbox Key)
      → Q box
      → Q (publish hashes crypto topics taken (crypto.public_key secret) r now box).0) where
  attach_one-keeps :
      (referrer : Referrer) (blobs : List BlobRef) (now : ℕ) (r : Release Key) (box : Outbox Key)
      → Q box
      → Q (attach_one hashes crypto topics taken secret referrer blobs now r box).0
  attach_one-keeps referrer blobs now r box h =
      Result-keeps {B = Outbox Key × Result (Unit {0})} (λ o. Q o.0)
        (sign crypto secret (with_referrer r referrer blobs now) now) _ _ (λ e. h)
        (λ updated q. publish_keeps updated now box h)

  attach_all-keeps :
      (subject : Digest) (referrer : Referrer) (blobs : List BlobRef) (now : ℕ)
      (rs : List (Release Key)) (box : Outbox Key)
      → Q box
      → Q (attach_all hashes crypto topics taken secret subject referrer blobs now rs box).0
  unfolding attach_all
  attach_all-keeps subject referrer blobs now [] box h = h
  attach_all-keeps subject referrer blobs now (r ∷ rs) box h =
      let out = attach_one hashes crypto topics taken secret referrer blobs now r box in
      let left = attach_one-keeps referrer blobs now r box h in
      Bool-keeps {B = Outbox Key × Result ℕ} (λ o. Q o.0)
        (lacks_referrer (crypto.public_key secret) subject referrer r) _ _
        (λ c.
          Result-keeps {B = Outbox Key × Result ℕ} (λ o. Q o.0) out.1 _ _ (λ e. left)
            (λ u q. attach_all-keeps subject referrer blobs now rs out.0 left))
        (λ c. attach_all-keeps subject referrer blobs now rs box h)

  pub attach_referrer-keeps :
      (keys : Keys Key) (subject : Digest) (referrer : Referrer) (blobs : List BlobRef) (now : ℕ)
      (box : Outbox Key)
      → Q box
      → Q (attach_referrer hashes crypto topics taken secret keys subject referrer blobs now box).0
  unfolding attach_referrer
  attach_referrer-keeps keys subject referrer blobs now box h =
      attach_all-keeps subject referrer blobs now (list_releases keys box.store.index) box h

module _ {Key : Type 0} ⦃eq : Eq Key⦄ (topics : List Key) (taken : ReleaseSummary Key → Bool)
    (me : Key) (Q : Outbox Key → Type 0)
    (announce_keeps : (r : Release Key) (box : Outbox Key)
      → (r.payload.publisher == me) ≡ true
      → Q box
      → Q (announce topics taken box r).0) where
  announce_own-keeps :
      (rs : List (Release Key)) (box : Outbox Key)
      → Q box
      → Q (announce_own topics taken me rs box).0
  unfolding announce_own
  announce_own-keeps [] box h = h
  announce_own-keeps (r ∷ rs) box h =
      Bool-keeps {B = Outbox Key × Result ℕ} (λ o. Q o.0) (r.payload.publisher == me) _ _
        (λ c.
          Result-keeps {B = Outbox Key × Result ℕ} (λ o. Q o.0) (announce topics taken box r).1 _ _
            (λ e. announce_keeps r box c h)
            (λ u q.
              announce_own-keeps rs (announce topics taken box r).0 (announce_keeps r box c h)))
        (λ c. announce_own-keeps rs box h)

  pub announce_all_local-keeps :
      (keys : Keys Key) (box : Outbox Key)
      → Q box
      → Q (announce_all_local topics taken keys me box).0
  unfolding announce_all_local
  announce_all_local-keeps keys box h =
      announce_own-keeps (list_releases keys box.store.index) box h
