-- ===== src/Node/Sound.antt =====
-- What sweeping, pruning, collecting and publishing (crates/ocid/src/node.rs) do to the integrity of
-- the store.
use ocid.Prelude.{
  ℕ, ◌≡◌, refl, sym, ap, ◌∙◌, Bool, true, false, List, arith, ◌==◌, Eq, nat_eq, list_eq, Result, ok,
  Result-cases, Result-keeps, inl, inr, ◌>>◌,
}
use ocid.Prelude.Map.{Map, get, get-remove}
use ocid.Text.{Text}
use ocid.Identity.{Keys}
use ocid.Oci.Name.{validate_name, validate_tag}
use ocid.Oci.Digest.{Digest}
use ocid.Release.{Hash}
use ocid.Index.{Index, blob_ref, remove_blob_ref, remove_release, prune_referrers}
use ocid.Index.Releases.{remove_release_form}
use ocid.Policy.Rules.{Policy}
use ocid.Store.{Store, Hashes, unpin_blob}
use ocid.Store.Sound.{IsSound}
use ocid.Node.Sweep.{drop_blob, sweep_blobs_locked}
use ocid.Node.Gc.Steps.{sweep_blobs_locked-keeps, enforce_window-keeps, gc-keeps}
use ocid.Node.Gc.{GcReq, Disk, drop_release, gc, enforce_window}

module _ {Key : Type 0} (hashes : Hashes) where
  -- The index entry of a digest may go, and then its pin too.
  remove_blob_ref-IsSound :
      (st : Store Key) (d : Digest)
      → IsSound hashes st
      → IsSound hashes (record st { index = (remove_blob_ref st.index d).0 })
  unfolding IsSound remove_blob_ref blob_ref
  remove_blob_ref-IsSound st d s x b q = s x b (ground (arith, get-remove d x st.index.blobs))

  drop_blob-IsSound :
      (dry : Bool) (st : Store Key) (d : Digest)
      → IsSound hashes st
      → IsSound hashes (drop_blob dry st d)
  unfolding IsSound drop_blob unpin_blob remove_blob_ref blob_ref
  drop_blob-IsSound true st d s x b q = s x b q
  drop_blob-IsSound false st d s x b q =
      let there : (d == x) ≡ false = ground (arith, get-remove d x st.index.blobs) in
      let old = s x b (ground (arith, get-remove d x st.index.blobs)) in
      (old.0, ground (arith, old.1, get-remove d x st.pins), old.2)

  prune_referrers-IsSound :
      (st : Store Key)
      → IsSound hashes st
      → IsSound hashes (record st { index = (prune_referrers st.index).0 })
  unfolding IsSound blob_ref prune_referrers
  prune_referrers-IsSound st s d b q = s d b q

drop_blob_data :
    {Key : Type 0} {m : Map Hash (List ℕ)} (dry : Bool) (st : Store Key) (d : Digest)
    → st.blobs ≡ m
    → (drop_blob dry st d).blobs ≡ m
unfolding drop_blob unpin_blob
drop_blob_data true st d h = h
drop_blob_data false st d h = h

drop_release_data :
    {Key : Type 0} ⦃eq : Eq Key⦄ {m : Map Hash (List ℕ)} (st : Store Key) (p : Key) (n t : Text)
    → st.blobs ≡ m
    → (drop_release st p n t).0.blobs ≡ m
unfolding drop_release
drop_release_data {Key} {m} st p n t h =
    Result-keeps {B = Store Key × Result Bool} (λ o. o.0.blobs ≡ m) (remove_release st.index p n t)
      _ _ (λ e. h) (λ out q. h)

module _ {Key : Type 0} ⦃eq : Eq Key⦄ (hashes : Hashes) where
  remove_release-blobs :
      (ix : Index Key) (p : Key) (n t : Text) (out : Index Key × Bool)
      → remove_release ix p n t ≡ ok out
      → out.0.blobs ≡ ix.blobs
  remove_release-blobs ix p n t out q = elim (Result-cases (validate_tag t >> validate_name n)) [
    | inl (u, v) ↦ ground (arith, remove_release_form ix p n t)
    | inr (e, v) ↦ absurd (ground (arith, remove_release_form ix p n t))
  ]

  pub drop_release-IsSound :
      (st : Store Key) (p : Key) (n t : Text)
      → IsSound hashes st
      → IsSound hashes (drop_release st p n t).0
  unfolding drop_release IsSound blob_ref
  drop_release-IsSound st p n t s =
      Result-keeps {B = Store Key × Result Bool} (λ out. IsSound hashes out.0)
        (remove_release st.index p n t) _ _ (λ e. s)
        (λ out q d b h.
          s d b (ap (λ m. get d m) (sym (remove_release-blobs st.index p n t out q)) ∙ h))

module _ {Key : Type 0} ⦃eq : Eq Key⦄ (hashes : Hashes) (keys : Keys Key) where
  pub sweep_blobs_locked-IsSound :
      (dry : Bool) (ignored : List Text) (st : Store Key)
      → IsSound hashes st
      → IsSound hashes (sweep_blobs_locked keys dry ignored st).0
  sweep_blobs_locked-IsSound dry ignored st s =
      sweep_blobs_locked-keeps (IsSound hashes) (drop_blob-IsSound hashes)
        (remove_blob_ref-IsSound hashes) keys dry ignored st s

  pub enforce_window-IsSound :
      (policy : Policy) (me : Key) (st : Store Key) (p : Key) (n : Text)
      → IsSound hashes st
      → IsSound hashes (enforce_window keys policy me st p n).0
  enforce_window-IsSound policy me st p n s =
      enforce_window-keeps keys (IsSound hashes) (drop_blob-IsSound hashes)
        (remove_blob_ref-IsSound hashes) (drop_release-IsSound hashes)
        (prune_referrers-IsSound hashes) policy me st p n s

  pub gc-IsSound :
      (policy : Policy) (me : Key) (grace : ℕ) (req : GcReq) (now : ℕ) (disk : Disk Key)
      → IsSound hashes disk.store
      → IsSound hashes (gc keys policy me grace req now disk).0.store
  gc-IsSound policy me grace req now disk s =
      gc-keeps keys (IsSound hashes) (drop_blob-IsSound hashes) (remove_blob_ref-IsSound hashes)
        (drop_release-IsSound hashes) (prune_referrers-IsSound hashes) policy me grace req now disk
        s

  -- The data that is held.
  pub enforce_window-blobs :
      (policy : Policy) (me : Key) (st : Store Key) (p : Key) (n : Text)
      → (enforce_window keys policy me st p n).0.blobs ≡ st.blobs
  enforce_window-blobs policy me st p n =
      enforce_window-keeps keys (λ x. x.blobs ≡ st.blobs) drop_blob_data (λ x d h. h)
        drop_release_data (λ x h. h) policy me st p n refl
