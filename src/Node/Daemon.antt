-- ===== src/Node/Daemon.antt =====
-- The node as a whole: crates/ocid/src/node.rs, with the gossip loop of crates/ocid/src/p2p/gossip.rs
-- and the requests of p2p/sync.rs. What happens to it is a sequence of events, each handled alone:
-- `step` puts the handlers side by side, and `run` lets them follow each other in any order. A request
-- to the registry is the sequence of what it does to the store: data that is taken in, an entry that
-- gets a media type, a referrer that is noted, and then a publication, an attachment or a removal.
pub mod Sound
pub mod Own
pub mod Announces
use ocid.Prelude.{
  ℕ, ◌≡◌, Bool, true, false, not, ◌&&◌, Option, none, some, List, [], ◌∷◌, if◌then◌else◌, ◌==◌, Eq,
  Result, ok, err,
}
use ocid.Prelude.Map.{Map}
use ocid.Text.{Text}
use ocid.Identity.{Keys}
use ocid.Oci.Digest.{Digest}
use ocid.Release.{Hash, BlobRef, Referrer, Release, ReleaseSummary, Crypto}
use ocid.Policy.Rules.{Policy}
use ocid.Policy.Edit.{Change}
use ocid.Index.{blob_ref, put_referrer}
use ocid.Store.{Store, Hashes, put_blob_bytes, delete_unprotected}
use ocid.Registry.Manifests.{note_type}
use ocid.Node.Gc.{GcReq, Disk, gc}
use ocid.Node.Peers.{Peers, neighbor_up, neighbor_down}
use ocid.Node.Exchange.{Codec, Request, handle}
use ocid.Node.Remove.{remove_release}
use ocid.Node.Publish.{Outbox, announce_all_local, publish, attach_referrer}
use ocid.Node.Commands.{Local, install_policy, mutate_policy}
use ocid.Node.Replicate.{Network, on_announcement, sync_with, get_or_fetch}

pub record Daemon (Key : Type 0) : Type 0 where
  pub disk : Disk Key
  pub policy : Policy
  pub topics : List Key
  pub peers : Peers Key
  pub sent : List (ReleaseSummary Key)

-- `Scope` of gossip.rs
pub data Scope (Key : Type 0) : Type 0 where
  swarm : Scope Key
  publisher_topic : (publisher : Key) → Scope Key

-- With each event come the answers of the outside while it is handled, and the time.
pub data Event (Key : Type 0) : Type 0 where
  announced :
      (scope : Scope Key) (summary : ReleaseSummary Key) (sender : Key) (net : Network Key)
      (now : ℕ)
      → Event Key
  synced : (peer : Key) (net : Network Key) (now : ℕ) → Event Key
  pulled : (publisher : Key) (name tag : Text) (net : Network Key) (now : ℕ) → Event Key
  asked : (sender : Key) (request : Request Key) → Event Key
  came_up : (peer : Key) → Event Key
  went_down : (scope : Scope Key) (peer : Key) → Event Key
  collected : (request : GcReq) (grace now : ℕ) → Event Key
  reloaded : (policy : Policy) (subscribe : Key → Bool) → Event Key
  commanded :
      (change : Policy → Change) (subscribe : Key → Bool) (saved : Policy → Bool) → Event Key
  removed : (publisher : Key) (name : Text) (tag : Option Text) → Event Key
  published : (release : Release Key) (taken : ReleaseSummary Key → Bool) (now : ℕ) → Event Key
  attached :
      (subject : Digest) (referrer : Referrer) (blobs : List BlobRef)
      (taken : ReleaseSummary Key → Bool) (now : ℕ)
      → Event Key
  reannounced : (taken : ReleaseSummary Key → Bool) → Event Key
  taken_in : (bytes : List ℕ) (expect : Option Digest) (media_type : Option Text) → Event Key
  retyped : (digest : Digest) (media_type : Text) → Event Key
  noted : (subject : Digest) (referrer : Referrer) → Event Key
  swept : (doomed : Hash → Bool) → Event Key

module _ {Key : Type 0} where
  abbrev pub with_store : Daemon Key → Store Key → Daemon Key
  with_store d st = record d { disk = record d.disk { store = st } }

  abbrev with_local : Daemon Key → Local Key → Daemon Key
  with_local d here = record (with_store d here.store) {
    policy = here.policy;
    topics = here.topics;
  }

  abbrev local_of : Daemon Key → Local Key
  local_of d = record { policy = d.policy; topics = d.topics; store = d.disk.store }

  abbrev outbox_of : Daemon Key → Outbox Key
  outbox_of d = record { store = d.disk.store; sent = d.sent }

  abbrev with_outbox : Daemon Key → Outbox Key → Daemon Key
  with_outbox d box = record (with_store d box.store) { sent = box.sent }

module _ {Key : Type 0} ⦃eq : Eq Key⦄ where
  -- A publisher's topic carries announcements of that publisher only.
  unfoldable pub on_topic : Scope Key → ReleaseSummary Key → Bool
  on_topic swarm summary = true
  on_topic (publisher_topic p) summary = summary.publisher == p

  abbrev pub leaves : Scope Key → Peers Key → Key → Peers Key
  leaves swarm peers id = (neighbor_down peers id).0
  leaves (publisher_topic p) peers id = peers

module _ {Key Secret : Type 0} ⦃eq : Eq Key⦄ (hashes : Hashes) (crypto : Crypto Key Secret)
    (keys : Keys Key) (codec : Codec Key) (secret : Secret) where
  -- The key of the node.
  abbrev me_of : Key
  me_of = crypto.public_key secret

  unfoldable pub step : Event Key → Daemon Key → Daemon Key
  unfolding on_topic on_announcement sync_with get_or_fetch handle neighbor_up neighbor_down gc
      install_policy mutate_policy remove_release publish attach_referrer announce_all_local
      put_blob_bytes blob_ref note_type put_referrer delete_unprotected
  step (announced scope summary sender net now) d =
      if on_topic scope summary
      then with_store d
          (on_announcement hashes crypto keys codec net me_of d.policy summary sender now
            d.disk.store).0
      else d
  step (synced peer net now) d =
      with_store d (sync_with hashes crypto keys codec net me_of d.policy peer now d.disk.store).0
  step (pulled publisher name tag net now) d =
      with_store d
        (get_or_fetch hashes crypto keys codec net me_of d.peers publisher name tag now
          d.disk.store).0
  step (asked sender request) d = record d {
    peers = (handle keys codec me_of d.disk.store d.peers sender request).0;
  }
  step (came_up peer) d = record d { peers = (neighbor_up d.peers peer).0 }
  step (went_down scope peer) d = record d { peers = leaves scope d.peers peer }
  step (collected request grace now) d = record d {
    disk = (gc keys d.policy me_of grace request now d.disk).0;
  }
  step (reloaded policy subscribe) d =
      with_local d (install_policy keys subscribe me_of policy (local_of d))
  step (commanded change subscribe saved) d =
      with_local d (mutate_policy keys subscribe saved me_of change (local_of d)).0
  step (removed publisher name tag) d =
      with_store d (remove_release keys d.policy me_of publisher name tag d.disk.store).0
  step (published release taken now) d =
      with_outbox d (publish hashes crypto d.topics taken me_of release now (outbox_of d)).0
  step (attached subject referrer blobs taken now) d =
      with_outbox d
        (attach_referrer hashes crypto d.topics taken secret keys subject referrer blobs now
          (outbox_of d)).0
  step (reannounced taken) d =
      with_outbox d (announce_all_local d.topics taken keys me_of (outbox_of d)).0
  step (taken_in bytes expect media_type) d =
      with_store d (elim (put_blob_bytes hashes d.disk.store bytes expect media_type) [
        | err e ↦ d.disk.store
        | ok out ↦ out.0
      ])
  step (retyped digest media_type) d = with_store d (elim (blob_ref d.disk.store.index digest) [
    | none ↦ d.disk.store
    | some b ↦ note_type d.disk.store b media_type
  ])
  step (noted subject referrer) d =
      with_store d
        (record d.disk.store { index = put_referrer d.disk.store.index subject referrer })
  step (swept doomed) d = with_store d (delete_unprotected doomed d.disk.store)

  unfoldable pub run : List (Event Key) → Daemon Key → Daemon Key
  unfolding step
  run [] d = d
  run (e ∷ es) d = run es (step e d)
