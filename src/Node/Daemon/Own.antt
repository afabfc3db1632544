-- ===== src/Node/Daemon/Own.antt =====
-- The releases of the node itself while it runs (crates/ocid/src/node.rs).
use ocid.Prelude.{
  Option-keeps, ℕ, ◌≤◌, ◌≡◌, refl, sym, ap, ◌∙◌, Bool, true, false, ◌&&◌, some, List, [], ◌∷◌,
  arith, ◌==◌, ==_refl, Eq, nat_eq, list_eq, pair_eq, Bool-keeps, Result-keeps, Result, All,
}
use ocid.Prelude.Map.{get}
use ocid.Text.{Text}
use ocid.Identity.{Keys}
use ocid.Release.{Release, Crypto}
use ocid.Index.{blob_ref, put_referrer, ReleaseKey, key_of, stored, remove_release}
use ocid.Index.Releases.{stored-remove_release}
use ocid.Policy.Rules.{Policy}
use ocid.Store.{Store, Hashes, record_blob, put_blob_bytes, delete_unprotected}
use ocid.Store.Put.{put_blob_bytes-keeps}
use ocid.Registry.Manifests.{note_type}
use ocid.Store.Fetch.{fetch_release, store_release}
use ocid.Store.Grows.{Keeps, fetch_release-Keeps, store_release-Keeps}
use ocid.Node.Retained.{own_or_pinned}
use ocid.Node.Sweep.{sweep_blobs_locked}
use ocid.Node.Sweep.Same.{sweep_blobs_locked-releases}
use ocid.Node.Gc.{GcReq, Disk, drop_release, enforce_window, gc}
use ocid.Node.Gc.Keeps.{gc-keeps}
use ocid.Node.Gc.Window.{enforce_window-keeps}
use ocid.Node.Exchange.{Codec}
use ocid.Node.Commands.Keeps.{install_policy-keeps, mutate_policy-keeps}
use ocid.Node.Replicate.{Network}
use ocid.Node.Replicate.Keeps.{on_announcement-keeps, sync_with-keeps, get_or_fetch-keeps}
use ocid.Node.Remove.Keeps.{remove_release-keeps}
use ocid.Node.Publish.Keeps.{
  announce-keeps, announce_all_local-keeps, publish-keeps, attach_referrer-keeps,
}
use ocid.Node.Daemon.{
  Daemon, Event, announced, synced, pulled, asked, came_up, went_down, collected, reloaded,
  commanded, removed, published, attached, reannounced, taken_in, retyped, noted, swept, on_topic,
  step, run,
}

module _ {Key : Type 0} ⦃eq : Eq Key⦄ where
  -- The event is not the removal of the image of `r`.
  unfoldable pub Spares : Release Key → Event Key → Type 0
  Spares r (removed publisher name tag) =
      (r.payload.publisher == publisher && r.payload.name == name) ≡ false
  Spares r _ = Unit

  unfoldable pub IsHeld : Release Key → Store Key → Type 0
  unfolding Keeps
  IsHeld r st = Keeps r st.index

module _ {Key Secret : Type 0} ⦃eq : Eq Key⦄ (hashes : Hashes) (crypto : Crypto Key Secret)
    (keys : Keys Key) (codec : Codec Key) (secret : Secret) (r : Release Key)
    (own : r.payload.publisher ≡ crypto.public_key secret) where
  fetched :
      (net : Network Key) (st : Store Key) (new : Release Key) (ps : List Key) (now : ℕ)
      → IsHeld r st
      → IsHeld r
          (fetch_release hashes crypto net.download (crypto.public_key secret) st new ps now).0
  unfolding IsHeld
  fetched net st new ps now h =
      fetch_release-Keeps hashes crypto r new net.download (crypto.public_key secret) st ps now h

  is_own :
      (policy : Policy) (k : ReleaseKey Key)
      → k ≡ key_of r
      → own_or_pinned keys policy (crypto.public_key secret) k.0 k.1.0 k.1.1 ≡ true
  unfolding own_or_pinned key_of
  is_own policy k e = ground (arith, ap (λ x. x.0) e, own, ==_refl (crypto.public_key secret))

  pruned :
      (policy : Policy) (st : Store Key) (p : Key) (n : Text)
      → IsHeld r st
      → IsHeld r (enforce_window keys policy (crypto.public_key secret) st p n).0
  unfolding IsHeld Keeps
  pruned policy st p n (s, q, k, t) = (
    s,
    enforce_window-keeps keys policy (crypto.public_key secret) st p n (key_of r) s q
        (is_own policy (key_of r) refl),
    k,
    t,
  )

  collected_held :
      (policy : Policy) (grace : ℕ) (req : GcReq) (now : ℕ) (disk : Disk Key)
      → IsHeld r disk.store
      → IsHeld r (gc keys policy (crypto.public_key secret) grace req now disk).0.store
  unfolding IsHeld Keeps key_of
  collected_held policy grace req now disk (s, q, k, t) =
      let out = (gc keys policy (crypto.public_key secret) grace req now disk).0.store.index in
      let left : stored out (key_of s) ≡ some s =
        gc-keeps keys policy (crypto.public_key secret) grace req now disk s
          (ap (stored disk.store.index) k ∙ q) (is_own policy (key_of s) k) in
      (s, ap (stored out) (sym k) ∙ left, k, t)

  dropped :
      (p : Key) (n : Text)
      → (r.payload.publisher == p && r.payload.name == n) ≡ false
      → (st : Store Key) (t : Text) → IsHeld r st
      → IsHeld r (drop_release st p n t).0
  unfolding IsHeld Keeps drop_release key_of
  dropped p n o st t (s, q, k, l) =
      Result-keeps {B = Store Key × Result Bool} (λ out. Keeps r out.0.index)
        (remove_release st.index p n t) _ _ (λ e. (s, q, k, l))
        (λ out w. (
          s,
          ground (arith, (stored-remove_release st.index out.0 p n t out.1 w).1 (key_of r)),
          k,
          l,
        ))

  sweeps : (st : Store Key) → IsHeld r st → IsHeld r (sweep_blobs_locked keys false [] st).0
  unfolding IsHeld Keeps stored
  sweeps st (s, q, k, t) =
      (s, ground (arith, ap (get (key_of r)) (sweep_blobs_locked-releases keys false [] st)), k, t)

  put_held :
      (st : Store Key) (new : Release Key) (now : ℕ)
      → IsHeld r st
      → IsHeld r (store_release hashes crypto st new now).0
  unfolding IsHeld
  put_held st new now h = store_release-Keeps hashes crypto r new st now h

  step-IsHeld :
      (e : Event Key) (d : Daemon Key)
      → Spares r e
      → IsHeld r d.disk.store
      → IsHeld r (step hashes crypto keys codec secret e d).disk.store
  unfolding step Spares IsHeld Keeps stored record_blob note_type put_referrer delete_unprotected
  step-IsHeld (announced scope summary sender net now) d o h =
      Bool-keeps {B = Daemon Key} (λ x. IsHeld r x.disk.store) (on_topic scope summary) _ _
        (λ c.
          on_announcement-keeps hashes crypto keys codec net (crypto.public_key secret) d.policy
            (IsHeld r) (fetched net) (pruned d.policy) summary sender now d.disk.store h)
        (λ c. h)
  step-IsHeld (synced peer net now) d o h =
      sync_with-keeps hashes crypto keys codec net (crypto.public_key secret) d.policy (IsHeld r)
        (fetched net) (pruned d.policy) peer now d.disk.store h
  step-IsHeld (pulled publisher name tag net now) d o h =
      get_or_fetch-keeps hashes crypto keys codec net (crypto.public_key secret) d.policy (IsHeld r)
        (fetched net) (pruned d.policy) d.peers publisher name tag now d.disk.store h
  step-IsHeld (asked sender request) d o h = h
  step-IsHeld (came_up peer) d o h = h
  step-IsHeld (went_down scope peer) d o h = h
  step-IsHeld (collected request grace now) d o h =
      collected_held d.policy grace request now d.disk h
  step-IsHeld (reloaded policy subscribe) d o h =
      install_policy-keeps keys subscribe (crypto.public_key secret) (IsHeld r) pruned policy
        (record { policy = d.policy; topics = d.topics; store = d.disk.store }) h
  step-IsHeld (commanded change subscribe saved) d o h =
      mutate_policy-keeps keys subscribe (crypto.public_key secret) (IsHeld r) pruned saved change
        (record { policy = d.policy; topics = d.topics; store = d.disk.store }) h
  step-IsHeld (removed publisher name tag) d o h =
      remove_release-keeps keys (IsHeld r) publisher name (dropped publisher name o) sweeps d.policy
        (crypto.public_key secret) tag d.disk.store h
  step-IsHeld (published release taken now) d o h =
      publish-keeps hashes crypto d.topics taken (IsHeld r) put_held (crypto.public_key secret)
        release now (record { store = d.disk.store; sent = d.sent }) h
  step-IsHeld (attached subject referrer blobs taken now) d o h =
      attach_referrer-keeps hashes crypto d.topics taken secret (λ b. IsHeld r b.store)
        (publish-keeps hashes crypto d.topics taken (IsHeld r) put_held (crypto.public_key secret))
        keys subject referrer blobs now (record { store = d.disk.store; sent = d.sent }) h
  step-IsHeld (reannounced taken) d o h =
      announce_all_local-keeps d.topics taken (crypto.public_key secret) (λ b. IsHeld r b.store)
        (λ new b c k. announce-keeps hashes crypto d.topics taken (IsHeld r) put_held b new k) keys
        (record { store = d.disk.store; sent = d.sent }) h
  step-IsHeld (taken_in bytes expect media_type) d o h =
      Result-keeps {B = Store Key} (IsHeld r)
        (put_blob_bytes hashes d.disk.store bytes expect media_type) _ _ (λ e. h)
        (λ out q.
          put_blob_bytes-keeps hashes (IsHeld r) d.disk.store bytes expect media_type out q h)
  step-IsHeld (retyped digest media_type) d o h =
      Option-keeps {B = Store Key} (IsHeld r) (blob_ref d.disk.store.index digest) _ _ h
        (λ b q. Option-keeps {B = Store Key} (IsHeld r) b.media_type _ _ h (λ t e. h))
  step-IsHeld (noted subject referrer) d o h = h
  step-IsHeld (swept doomed) d o h = h

  run_held :
      (es : List (Event Key)) (d : Daemon Key)
      → All (Spares r) es
      → IsHeld r d.disk.store
      → IsHeld r (run hashes crypto keys codec secret es d).disk.store
  unfolding run
  run_held [] d o h = h
  run_held (e ∷ es) d o h =
      run_held es (step hashes crypto keys codec secret e d) o.1 (step-IsHeld e d o.0 h)

  -- A release of the node itself that is stored: after whatever sequence of events without a removal
  -- of its image, under its key there is a record with that key that is not older, whatever peers
  -- send, policies say and collections ask for.
  pub run-keeps_own :
      (es : List (Event Key)) (d : Daemon Key)
      → All (Spares r) es
      → stored d.disk.store.index (key_of r) ≡ some r
      → (s : Release Key) × (stored
            (run hashes crypto keys codec secret es d).disk.store.index
            (key_of r)
          ≡ some s)
        × (key_of s ≡ key_of r)
        × (r.payload.timestamp ≤ s.payload.timestamp)
  unfolding IsHeld Keeps
  run-keeps_own es d o q = run_held es d o (r, q, refl, omega arith)
