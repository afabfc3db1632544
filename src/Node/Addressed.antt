-- ===== src/Node/Addressed.antt =====
-- That data stays under its own hash where a node (crates/ocid/src/node.rs) prunes, collects and
-- sweeps, which delete no data themselves.
use ocid.Prelude.{ℕ, Bool, true, false, List, Eq, Result, Result-keeps}
use ocid.Text.{Text}
use ocid.Identity.{Keys}
use ocid.Oci.Digest.{Digest}
use ocid.Release.{Hash}
use ocid.Index.{remove_blob_ref, remove_release, prune_referrers}
use ocid.Policy.Rules.{Policy}
use ocid.Store.{Store, unpin_blob}
use ocid.Store.Succeeds.{IsAddressed}
use ocid.Node.Sweep.{drop_blob, sweep_blobs_locked}
use ocid.Node.Gc.Steps.{sweep_blobs_locked-keeps, enforce_window-keeps, gc-keeps}
use ocid.Node.Gc.{GcReq, Disk, drop_release, gc, enforce_window}

module _ {Key : Type 0} (content : Hash → List ℕ) where
  drop_blob-IsAddressed :
      (dry : Bool) (st : Store Key) (d : Digest)
      → IsAddressed content st
      → IsAddressed content (drop_blob dry st d)
  unfolding IsAddressed drop_blob unpin_blob
  drop_blob-IsAddressed true st d a = a
  drop_blob-IsAddressed false st d a = a

  remove_blob_ref-IsAddressed :
      (st : Store Key) (d : Digest)
      → IsAddressed content st
      → IsAddressed content (record st { index = (remove_blob_ref st.index d).0 })
  unfolding IsAddressed
  remove_blob_ref-IsAddressed st d a = a

  prune_referrers-IsAddressed :
      (st : Store Key)
      → IsAddressed content st
      → IsAddressed content (record st { index = (prune_referrers st.index).0 })
  unfolding IsAddressed
  prune_referrers-IsAddressed st a = a

module _ {Key : Type 0} ⦃eq : Eq Key⦄ (content : Hash → List ℕ) where
  pub drop_release-IsAddressed :
      (st : Store Key) (p : Key) (n t : Text)
      → IsAddressed content st
      → IsAddressed content (drop_release st p n t).0
  unfolding drop_release IsAddressed
  drop_release-IsAddressed st p n t a =
      Result-keeps {B = Store Key × Result Bool} (λ o. IsAddressed content o.0)
        (remove_release st.index p n t) _ _ (λ e. a) (λ out q. a)

  module _ (keys : Keys Key) where
    pub sweep_blobs_locked-IsAddressed :
        (dry : Bool) (ignored : List Text) (st : Store Key)
        → IsAddressed content st
        → IsAddressed content (sweep_blobs_locked keys dry ignored st).0
    sweep_blobs_locked-IsAddressed dry ignored st a =
        sweep_blobs_locked-keeps (IsAddressed content) (drop_blob-IsAddressed content)
          (remove_blob_ref-IsAddressed content) keys dry ignored st a

    pub enforce_window-IsAddressed :
        (policy : Policy) (me : Key) (st : Store Key) (p : Key) (n : Text)
        → IsAddressed content st
        → IsAddressed content (enforce_window keys policy me st p n).0
    enforce_window-IsAddressed policy me st p n a =
        enforce_window-keeps keys (IsAddressed content) (drop_blob-IsAddressed content)
          (remove_blob_ref-IsAddressed content) drop_release-IsAddressed
          (prune_referrers-IsAddressed content) policy me st p n a

    pub gc-IsAddressed :
        (policy : Policy) (me : Key) (grace : ℕ) (req : GcReq) (now : ℕ) (disk : Disk Key)
        → IsAddressed content disk.store
        → IsAddressed content (gc keys policy me grace req now disk).0.store
    gc-IsAddressed policy me grace req now disk a =
        gc-keeps keys (IsAddressed content) (drop_blob-IsAddressed content)
          (remove_blob_ref-IsAddressed content) drop_release-IsAddressed
          (prune_referrers-IsAddressed content) policy me grace req now disk a
