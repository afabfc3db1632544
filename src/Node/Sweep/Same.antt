-- ===== src/Node/Sweep/Same.antt =====
-- What a sweep leaves as it is.
use ocid.Prelude.{◌≡◌, refl, ◌∙◌, Bool, true, false, List, [], ◌∷◌, arith, map, nat_eq, list_eq}
use ocid.Text.{Text}
use ocid.Identity.{Keys}
use ocid.Oci.Digest.{Digest}
use ocid.Release.{Hash, BlobRef}
use ocid.Index.{Index, remove_blob_ref, list_releases, list_blob_refs}
use ocid.Store.{Store, unpin_blob, list_pins}
use ocid.Node.Sweep.{drop_blob, sweep_pins, sweep_entries, sweep_blobs_locked, live_hashes}

module _ {Key : Type 0} where
  remove_blob_ref-releases :
      (ix : Index Key) (d : Digest) → (remove_blob_ref ix d).0.releases ≡ ix.releases
  unfolding remove_blob_ref
  remove_blob_ref-releases ix d = ground arith

  drop_blob-releases :
      (dry : Bool) (st : Store Key) (d : Digest)
      → (drop_blob dry st d).index.releases ≡ st.index.releases
  unfolding drop_blob unpin_blob
  drop_blob-releases true st d = refl
  drop_blob-releases false st d = remove_blob_ref-releases st.index d

  sweep_pins-releases :
      (dry : Bool) (live : List Hash) (pins : List (Digest × Hash)) (st : Store Key)
      → (sweep_pins dry live pins st).0.index.releases ≡ st.index.releases
  unfolding sweep_pins
  sweep_pins-releases dry live [] st = refl
  sweep_pins-releases dry live ((d, h) ∷ pins) st = ground (
    arith,
    sweep_pins-releases dry live pins st,
    sweep_pins-releases dry live pins (drop_blob dry st d),
    drop_blob-releases dry st d,
  )

  sweep_entries-releases :
      (dry : Bool) (live pinned : List Hash) (bs : List BlobRef) (st : Store Key)
      → (sweep_entries dry live pinned bs st).index.releases ≡ st.index.releases
  unfolding sweep_entries
  sweep_entries-releases dry live pinned [] st = refl
  sweep_entries-releases dry live pinned (b ∷ bs) st =
      sweep_entries-releases dry live pinned bs _
      ∙ ground (arith, remove_blob_ref-releases st.index b.digest)

  -- A sweep removes no release record.
  pub sweep_blobs_locked-releases :
      (keys : Keys Key) (dry : Bool) (ignored : List Text) (st : Store Key)
      → (sweep_blobs_locked keys dry ignored st).0.index.releases ≡ st.index.releases
  unfolding sweep_blobs_locked
  sweep_blobs_locked-releases keys dry ignored st =
      let live = live_hashes keys ignored (list_releases keys st.index) in
      let swept = (sweep_pins dry live (list_pins st) st).0 in
      sweep_entries-releases dry live (map (λ p. p.1) (list_pins swept))
        (list_blob_refs swept.index) swept
      ∙ sweep_pins-releases dry live (list_pins st) st

  sweep_pins-dry :
      (live : List Hash) (pins : List (Digest × Hash)) (st : Store Key)
      → (sweep_pins true live pins st).0 ≡ st
  unfolding sweep_pins drop_blob
  sweep_pins-dry live [] st = refl
  sweep_pins-dry live ((d, h) ∷ pins) st = ground (arith, sweep_pins-dry live pins st)

  sweep_entries-dry :
      (live pinned : List Hash) (bs : List BlobRef) (st : Store Key)
      → sweep_entries true live pinned bs st ≡ st
  unfolding sweep_entries
  sweep_entries-dry live pinned [] st = refl
  sweep_entries-dry live pinned (b ∷ bs) st = ground (arith, sweep_entries-dry live pinned bs st)

  -- A dry sweep changes nothing.
  pub sweep_blobs_locked-dry :
      (keys : Keys Key) (ignored : List Text) (st : Store Key)
      → (sweep_blobs_locked keys true ignored st).0 ≡ st
  unfolding sweep_blobs_locked
  sweep_blobs_locked-dry keys ignored st =
      let live = live_hashes keys ignored (list_releases keys st.index) in
      let swept = (sweep_pins true live (list_pins st) st).0 in
      sweep_entries-dry live (map (λ p. p.1) (list_pins swept)) (list_blob_refs swept.index) swept
      ∙ sweep_pins-dry live (list_pins st) st
