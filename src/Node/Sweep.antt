-- ===== src/Node/Sweep.antt =====
-- Sweeping orphaned blobs: `sweep_blobs_locked` of crates/ocid/src/node.rs.
pub mod Same
pub mod Live
use ocid.Prelude.{
  ℕ, ◌+◌, ◌≡◌, Bool, true, false, not, ◌&&◌, ◌||◌, Option, none, some, List, [], ◌∷◌, ◌++◌, map,
  if◌then◌else◌, ◌==◌, Eq, nat_eq, list_eq, contains, retain,
}
use ocid.Prelude.Map.{Map}
use ocid.Text.{Text}
use ocid.Identity.{Keys}
use ocid.Oci.Digest.{Digest}
use ocid.Release.{Hash, BlobRef, Release, all_blobs, reference}
use ocid.Index.{blob_ref, remove_blob_ref, list_blob_refs, list_releases}
use ocid.Store.{Store, list_pins, unpin_blob}

abbrev pub size_of : Option BlobRef → ℕ
size_of none = 0
size_of (some b) = b.size

module _ {Key : Type 0} where
  -- The hashes of the releases that are not ignored.
  unfoldable pub live_hashes : Keys Key → List Text → List (Release Key) → List Hash
  unfolding reference
  live_hashes keys ignored [] = []
  live_hashes keys ignored (r ∷ rs) =
      let rest = live_hashes keys ignored rs in
      if contains ignored (reference keys r) then rest else map (λ b. b.hash) (all_blobs r) ++ rest

  -- The body of the loop over the pins, where it changes the store.
  unfoldable pub drop_blob : Bool → Store Key → Digest → Store Key
  unfolding unpin_blob remove_blob_ref
  drop_blob dry_run st digest =
      if dry_run
      then st
      else let st' = unpin_blob st digest in
        record st' { index = (remove_blob_ref st'.index digest).0 }

  unfoldable pub sweep_pins :
      Bool → List Hash → List (Digest × Hash) → Store Key → Store Key × ℕ × ℕ
  unfolding drop_blob blob_ref
  sweep_pins dry_run live [] st = (st, 0, 0)
  sweep_pins dry_run live ((digest, hash) ∷ pins) st = elim (contains live hash) [
    | true ↦ sweep_pins dry_run live pins st
    | false ↦
        let rest = sweep_pins dry_run live pins (drop_blob dry_run st digest) in
        (rest.0, 1 + rest.1, size_of (blob_ref st.index digest) + rest.2)
  ]

  -- The loop over the index entries whose pin is gone.
  unfoldable pub sweep_entries : Bool → List Hash → List Hash → List BlobRef → Store Key → Store Key
  unfolding remove_blob_ref
  sweep_entries dry_run live pinned [] st = st
  sweep_entries dry_run live pinned (b ∷ bs) st = sweep_entries dry_run live pinned bs (
      if not (contains live b.hash) && not (contains pinned b.hash) && not dry_run
      then record st { index = (remove_blob_ref st.index b.digest).0 }
      else st)

  -- `Node::sweep_blobs_locked`
  unfoldable pub sweep_blobs_locked : Keys Key → Bool → List Text → Store Key → Store Key × ℕ × ℕ
  unfolding live_hashes list_releases list_pins sweep_pins sweep_entries list_blob_refs
  sweep_blobs_locked keys dry_run ignored st =
      let live = live_hashes keys ignored (list_releases keys st.index) in
      let swept = sweep_pins dry_run live (list_pins st) st in
      let pinned = map (λ p. p.1) (list_pins swept.0) in
      (sweep_entries dry_run live pinned (list_blob_refs swept.0.index) swept.0, swept.1, swept.2)
