-- ===== src/Tests/Nodes.antt =====
-- Fetching a release into an empty store, and collecting garbage.
use ocid.Prelude.{
  contains, ◌≤◌, ◌≡◌, refl, Bool, true, false, some, [], ◌∷◌, nat_eq, list_eq, pair_eq, pair_dec,
  list_dec, ℕ_discrete, Result, ok,
}
use ocid.Prelude.Map.{get, insert}
use ocid.Text.{txt}
use ocid.Release.{Hash, Release, verify}
use ocid.Index.{Index, empty, key_of, stored, write_release, is_indexed}
use ocid.Policy.Rules
use ocid.Oci.Name.{validate_name, validate_tag}
use ocid.Store.{Store, Hashes, verify_blob, is_complete}
use ocid.Store.Fetch.{Download, fetch_release}
use ocid.Store.Sound.{IsSound, fetch_release-IsSound}
use ocid.Store.Complete.{fetch_release_ok}
use ocid.Node.Retained.{own_or_pinned}
use ocid.Node.Gc.{GcReport, Disk, gc, enforce_window}
use ocid.Node.Gc.Window.{enforce_window-keeps}
use ocid.Node.Sweep.{sweep_blobs_locked}
use ocid.Node.Sweep.Live.{OnePerKey, sweep_blobs_locked-pins}
use ocid.Node.Gc.Keeps.{gc-keeps, gc-dry}
use ocid.Tests.Data.{bool_eq, bool_dec, keys, crypto, release}

-- Every text of two bytes has the digest of the test blob.
abbrev pub hashes : Hashes
hashes = record { sha256 = λ b. txt "sha256:01"; blake3 = λ b. b }

abbrev download : Download Bool
download h ps = some (7 ∷ 8 ∷ [])

abbrev pub empty_store : Store Bool
empty_store = record { index = empty; pins = []; blobs = [] }

pub empty_store-IsSound : IsSound hashes empty_store
unfolding IsSound ocid.Index.blob_ref get
empty_store-IsSound d b h = absurd (cc)

abbrev fetched : Store Bool × Result (Unit {0})
fetched =
    fetch_release hashes crypto download false empty_store (release true (txt "v1") 5) (true ∷ [])
      100

fetch_release-IsSound_example : IsSound hashes fetched.0
fetch_release-IsSound_example =
    fetch_release-IsSound hashes crypto download false empty_store (release true (txt "v1") 5)
      (true ∷ []) 100 empty_store-IsSound

fetched_ok : fetched.1 ≡ ok tt
unfolding fetch_release verify nat_eq validate_name list_eq validate_tag get bool_eq verify_blob
    insert
fetched_ok = refl

fetch_release_ok_example :
    (verify crypto (release true (txt "v1") 5) ≡ ok tt)
    × (is_complete fetched.0 (release true (txt "v1") 5) ≡ true)
    × (is_indexed fetched.0.index (release true (txt "v1") 5) ≡ true)
    × ((s : Release Bool) × (stored fetched.0.index (key_of (release true (txt "v1") 5)) ≡ some s)
        × (5 ≤ s.payload.timestamp))
fetch_release_ok_example =
    fetch_release_ok hashes crypto download false empty_store (release true (txt "v1") 5)
      (true ∷ []) 100 fetched_ok

-- A node that holds one release of its own.
own : Index Bool
unfolding write_release
own = write_release empty (release true (txt "v1") 5) 100

own-stored : stored own (key_of (release true (txt "v1") 5)) ≡ some (release true (txt "v1") 5)
unfolding own stored key_of insert get pair_eq pair_dec bool_eq bool_dec nat_eq list_eq list_dec
    ℕ_discrete
own-stored = refl

is_own : own_or_pinned keys Rules.default true true (txt "app") (txt "v1") ≡ true
unfolding own_or_pinned bool_eq bool_dec
is_own = refl

abbrev disk : Disk Bool
disk = record { store = record { index = own; pins = []; blobs = [] }; uploads = [] }

gc-keeps_example :
    stored
      (gc keys Rules.default true 60
        (record { dry_run = false; force = true })
        999
        disk).0.store.index
      (key_of (release true (txt "v1") 5))
    ≡ some (release true (txt "v1") 5)
gc-keeps_example =
    gc-keeps keys Rules.default true 60 (record { dry_run = false; force = true }) 999 disk
      (release true (txt "v1") 5) own-stored is_own

gc-dry_example :
    (report : GcReport) × (gc keys Rules.default false 60
        (record { dry_run = true; force = true })
        999
        disk
      ≡ (disk, ok report))
gc-dry_example =
    gc-dry keys Rules.default false 60 (record { dry_run = true; force = true }) 999 disk refl

is_own_key :
    own_or_pinned keys Rules.default true
      (key_of (release true (txt "v1") 5)).0
      (key_of (release true (txt "v1") 5)).1.0
      (key_of (release true (txt "v1") 5)).1.1
    ≡ true
unfolding own_or_pinned key_of bool_eq bool_dec
is_own_key = refl

enforce_window-keeps_example :
    stored
      (enforce_window keys Rules.default true disk.store false (txt "app")).0.index
      (key_of (release true (txt "v1") 5))
    ≡ some (release true (txt "v1") 5)
enforce_window-keeps_example =
    enforce_window-keeps keys Rules.default true disk.store false (txt "app")
      (key_of (release true (txt "v1") 5)) (release true (txt "v1") 5) own-stored is_own_key

-- The same node, with the blob of its release pinned.
abbrev pinned_store : Store Bool
pinned_store = record { index = own; pins = (txt "sha256:01", 1 ∷ []) ∷ []; blobs = [] }

pinned-OnePerKey : OnePerKey pinned_store.pins
unfolding OnePerKey get nat_eq list_eq list_dec ℕ_discrete
pinned-OnePerKey = (refl, tt)

blob_live : contains {A = Hash} ((1 ∷ []) ∷ []) (1 ∷ []) ≡ true
unfolding nat_eq list_eq list_dec ℕ_discrete
blob_live = refl

blob_pinned : get (txt "sha256:01") pinned_store.pins ≡ some (1 ∷ [])
unfolding get nat_eq list_eq list_dec ℕ_discrete
blob_pinned = refl

sweep_blobs_locked-pins_example :
    get (txt "sha256:01") (sweep_blobs_locked keys false [] pinned_store).0.pins ≡ some (1 ∷ [])
sweep_blobs_locked-pins_example =
    sweep_blobs_locked-pins keys false [] pinned_store (key_of (release true (txt "v1") 5))
      (release true (txt "v1") 5) (txt "sha256:01") (1 ∷ []) pinned-OnePerKey own-stored refl
      blob_live blob_pinned
