-- ===== src/Node/Daemon/Sound.antt =====
-- The integrity of the store while a node runs (crates/ocid/src/node.rs).
use ocid.Prelude.{◌≡◌, All, Option-keeps, ℕ, false, List, [], ◌∷◌, Eq, Bool-keeps, Result-keeps}
use ocid.Identity.{Keys}
use ocid.Text.{Text}
use ocid.Release.{Hash, Referrer, Release, Crypto}
use ocid.Store.Fetch.{fetch_release, store_release}
use ocid.Node.Gc.{enforce_window}
use ocid.Node.Replicate.{Network}
use ocid.Policy.Rules.{Policy}
use ocid.Store.{Store, Hashes, put_blob_bytes}
use ocid.Store.Sound.{IsSound, fetch_release-IsSound, store_release-IsSound}
use ocid.Node.Sound.{
  enforce_window-IsSound, gc-IsSound, drop_release-IsSound, sweep_blobs_locked-IsSound,
}
use ocid.Node.Exchange.{Codec}
use ocid.Node.Commands.Keeps.{install_policy-keeps, mutate_policy-keeps}
use ocid.Node.Addressed.{
  enforce_window-IsAddressed, gc-IsAddressed, drop_release-IsAddressed,
  sweep_blobs_locked-IsAddressed,
}
use ocid.Store.Addressed.{IsHonest, store_release-IsAddressed, fetch_release-IsAddressed}
use ocid.Store.Put.{IsWhole, put_blob_bytes-IsWhole}
use ocid.Store.Protects.{delete_unprotected-IsWhole}
use ocid.Store.Succeeds.{IsAddressed}
use ocid.Index.{blob_ref, put_referrer}
use ocid.Oci.Digest.{Digest}
use ocid.Registry.Manifests.Sound.{note_type-IsWhole}
use ocid.Node.Replicate.Keeps.{on_announcement-keeps, sync_with-keeps, get_or_fetch-keeps}
use ocid.Node.Remove.Keeps.{remove_release-keeps}
use ocid.Node.Publish.Keeps.{
  announce-keeps, announce_all_local-keeps, publish-keeps, attach_referrer-keeps,
}
use ocid.Node.Daemon.{
  Daemon, Event, announced, synced, pulled, asked, came_up, went_down, collected, reloaded,
  commanded, removed, published, attached, reannounced, taken_in, retyped, noted, swept, on_topic,
  step, run,
}

-- What peers send while the event is handled has the hash that was asked for.
unfoldable pub IsChecked : {Key : Type 0} → (Hash → List ℕ) → Event Key → Type 0
unfolding IsHonest
IsChecked content (announced scope summary sender net now) = IsHonest content net.download
IsChecked content (synced peer net now) = IsHonest content net.download
IsChecked content (pulled publisher name tag net now) = IsHonest content net.download
IsChecked content _ = Unit

module _ {Key Secret : Type 0} ⦃eq : Eq Key⦄ (hashes : Hashes) (crypto : Crypto Key Secret)
    (keys : Keys Key) (codec : Codec Key) (secret : Secret) (content : Hash → List ℕ)
    (law : (b : List ℕ) → content (hashes.blake3 b) ≡ b) where
  abbrev Whole : Store Key → Type 0
  Whole st = IsWhole hashes content st

  fetched :
      (net : Network Key)
      → IsHonest content net.download
      → (st : Store Key) (r : Release Key) (ps : List Key) (now : ℕ) → Whole st
      → Whole (fetch_release hashes crypto net.download (crypto.public_key secret) st r ps now).0
  fetched net honest st r ps now w = (
    fetch_release-IsSound hashes crypto net.download (crypto.public_key secret) st r ps now w.0,
    fetch_release-IsAddressed hashes crypto content net.download honest (crypto.public_key secret)
        st r ps now w.1,
  )

  pruned :
      (policy : Policy) (st : Store Key) (p : Key) (n : Text)
      → Whole st
      → Whole (enforce_window keys policy (crypto.public_key secret) st p n).0
  pruned policy st p n w = (
    enforce_window-IsSound hashes keys policy (crypto.public_key secret) st p n w.0,
    enforce_window-IsAddressed content keys policy (crypto.public_key secret) st p n w.1,
  )

  put_whole :
      (st : Store Key) (r : Release Key) (now : ℕ)
      → Whole st
      → Whole (store_release hashes crypto st r now).0
  put_whole st r now w = (
    store_release-IsSound hashes crypto st r now w.0,
    store_release-IsAddressed hashes crypto content st r now w.1,
  )

  noted_whole :
      (st : Store Key) (subject : Digest) (referrer : Referrer)
      → Whole st
      → Whole (record st { index = put_referrer st.index subject referrer })
  unfolding IsSound IsAddressed blob_ref put_referrer
  noted_whole st subject referrer w = w

  step-IsWhole :
      (e : Event Key) (d : Daemon Key)
      → IsChecked content e
      → Whole d.disk.store
      → Whole (step hashes crypto keys codec secret e d).disk.store
  unfolding step IsChecked
  step-IsWhole (announced scope summary sender net now) d c w =
      Bool-keeps {B = Daemon Key} (λ x. Whole x.disk.store) (on_topic scope summary) _ _
        (λ t.
          on_announcement-keeps hashes crypto keys codec net (crypto.public_key secret) d.policy
            Whole (fetched net c) (pruned d.policy) summary sender now d.disk.store w)
        (λ t. w)
  step-IsWhole (synced peer net now) d c w =
      sync_with-keeps hashes crypto keys codec net (crypto.public_key secret) d.policy Whole
        (fetched net c) (pruned d.policy) peer now d.disk.store w
  step-IsWhole (pulled publisher name tag net now) d c w =
      get_or_fetch-keeps hashes crypto keys codec net (crypto.public_key secret) d.policy Whole
        (fetched net c) (pruned d.policy) d.peers publisher name tag now d.disk.store w
  step-IsWhole (asked sender request) d c w = w
  step-IsWhole (came_up peer) d c w = w
  step-IsWhole (went_down scope peer) d c w = w
  step-IsWhole (collected request grace now) d c w = (
    gc-IsSound hashes keys d.policy (crypto.public_key secret) grace request now d.disk w.0,
    gc-IsAddressed content keys d.policy (crypto.public_key secret) grace request now d.disk w.1,
  )
  step-IsWhole (reloaded policy subscribe) d c w =
      install_policy-keeps keys subscribe (crypto.public_key secret) Whole pruned policy
        (record { policy = d.policy; topics = d.topics; store = d.disk.store }) w
  step-IsWhole (commanded change subscribe saved) d c w =
      mutate_policy-keeps keys subscribe (crypto.public_key secret) Whole pruned saved change
        (record { policy = d.policy; topics = d.topics; store = d.disk.store }) w
  step-IsWhole (removed publisher name tag) d c w =
      remove_release-keeps keys Whole publisher name
        (λ st t h. (
          drop_release-IsSound hashes st publisher name t h.0,
          drop_release-IsAddressed content st publisher name t h.1,
        ))
        (λ st h. (
          sweep_blobs_locked-IsSound hashes keys false [] st h.0,
          sweep_blobs_locked-IsAddressed content keys false [] st h.1,
        ))
        d.policy (crypto.public_key secret) tag d.disk.store w
  step-IsWhole (published release taken now) d c w =
      publish-keeps hashes crypto d.topics taken Whole put_whole (crypto.public_key secret) release
        now (record { store = d.disk.store; sent = d.sent }) w
  step-IsWhole (attached subject referrer blobs taken now) d c w =
      attach_referrer-keeps hashes crypto d.topics taken secret (λ b. Whole b.store)
        (publish-keeps hashes crypto d.topics taken Whole put_whole (crypto.public_key secret)) keys
        subject referrer blobs now (record { store = d.disk.store; sent = d.sent }) w
  step-IsWhole (reannounced taken) d c w =
      announce_all_local-keeps d.topics taken (crypto.public_key secret) (λ b. Whole b.store)
        (λ new b o k. announce-keeps hashes crypto d.topics taken Whole put_whole b new k) keys
        (record { store = d.disk.store; sent = d.sent }) w
  step-IsWhole (taken_in bytes expect media_type) d c w =
      Result-keeps {B = Store Key} Whole
        (put_blob_bytes hashes d.disk.store bytes expect media_type) _ _ (λ e. w)
        (λ out q.
          put_blob_bytes-IsWhole hashes content law d.disk.store bytes expect media_type out q w)
  step-IsWhole (retyped digest media_type) d c w =
      Option-keeps {B = Store Key} Whole (blob_ref d.disk.store.index digest) _ _ w
        (λ b q. note_type-IsWhole hashes content law d.disk.store digest b media_type q w)
  step-IsWhole (noted subject referrer) d c w = noted_whole d.disk.store subject referrer w
  step-IsWhole (swept doomed) d c w =
      delete_unprotected-IsWhole hashes content doomed d.disk.store w

  -- Whatever sequence of these events a node goes through (announcements, synchronisations, pulls,
  -- requests and changes of peers, collections, changes of the policy, removals, publications,
  -- attachments, new announcements, data that is taken in for uploads and pushes, entries that get
  -- a media type, referrers that are noted, and the deletion of unprotected data), and whatever
  -- fails: if every index
  -- entry stands under its digest, is pinned and is backed by data of that digest and size, and data
  -- is held under its own hash only, then both are so at the end. Different data has different hashes,
  -- and what is downloaded has the hash that was asked for.
  pub run-IsWhole :
      (es : List (Event Key)) (d : Daemon Key)
      → All (IsChecked content) es
      → IsWhole hashes content d.disk.store
      → IsWhole hashes content (run hashes crypto keys codec secret es d).disk.store
  unfolding run
  run-IsWhole [] d c w = w
  run-IsWhole (e ∷ es) d c w =
      run-IsWhole es (step hashes crypto keys codec secret e d) c.1 (step-IsWhole e d c.0 w)
