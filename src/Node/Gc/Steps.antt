-- ===== src/Node/Gc/Steps.antt =====
-- What sweeping, pruning to a window and collecting (crates/ocid/src/node.rs) leave alone, from what
-- their steps leave alone.
use ocid.Prelude.{
  ℕ, ◌+◌, ◌≡◌, refl, subst, sym, Bool, true, false, not, ◌&&◌, List, [], ◌∷◌, map, ◌==◌, Eq, nat_eq,
  list_eq, contains, ltb, Result, ok, err, Bool-keeps, choice-keeps, Result-keeps,
}
use ocid.Prelude.Map.{Map}
use ocid.Text.{Text}
use ocid.Identity.{Keys}
use ocid.Oci.Digest.{Digest}
use ocid.Release.{Hash, BlobRef, Release, reference}
use ocid.Index.{blob_ref, remove_blob_ref, list_blob_refs, list_releases, prune_referrers}
use ocid.Policy.Rules.{Policy, window}
use ocid.Policy.Window.{select, is_empty}
use ocid.Store.{Store, list_pins}
use ocid.Node.{known_of, local_releases_of, retained_set}
use ocid.Node.Sweep.{size_of, live_hashes, drop_blob, sweep_pins, sweep_entries, sweep_blobs_locked}
use ocid.Node.Gc.{
  GcReq, GcReport, Disk, drop_release, is_pruned, remember, prune_releases, finish_gc, gc,
  prune_outside, sweep_if_any, enforce_window,
}

module _ {Key : Type 0} (P : Store Key → Type 0)
    (unpinned : (dry : Bool) (st : Store Key) (d : Digest) → P st → P (drop_blob dry st d))
    (unindexed : (st : Store Key) (d : Digest)
      → P st
      → P (record st { index = (remove_blob_ref st.index d).0 })) where
  sweep_pins-keeps :
      (dry : Bool) (live : List Hash) (pins : List (Digest × Hash)) (st : Store Key)
      → P st
      → P (sweep_pins dry live pins st).0
  unfolding sweep_pins
  sweep_pins-keeps dry live [] st s = s
  sweep_pins-keeps dry live ((d, h) ∷ pins) st s =
      elim (contains live h)
        as (λ c.
          P
            (elim c as (λ c. Store Key × ℕ × ℕ) [
              | true ↦ sweep_pins dry live pins st
              | false ↦
                  let rest = sweep_pins dry live pins (drop_blob dry st d) in
                  (rest.0, 1 + rest.1, size_of (blob_ref st.index d) + rest.2)
            ]).0) [
              | true ↦ sweep_pins-keeps dry live pins st s
              | false ↦ sweep_pins-keeps dry live pins (drop_blob dry st d) (unpinned dry st d s)
            ]

  sweep_entries-keeps :
      (dry : Bool) (live pinned : List Hash) (bs : List BlobRef) (st : Store Key)
      → P st
      → P (sweep_entries dry live pinned bs st)
  unfolding sweep_entries
  sweep_entries-keeps dry live pinned [] st s = s
  sweep_entries-keeps dry live pinned (b ∷ bs) st s = sweep_entries-keeps dry live pinned bs _ (
      Bool-keeps P (not (contains live b.hash) && not (contains pinned b.hash) && not dry) _ _
        (λ q. unindexed st b.digest s) (λ q. s))

  pub sweep_blobs_locked-keeps :
      (keys : Keys Key) (dry : Bool) (ignored : List Text) (st : Store Key)
      → P st
      → P (sweep_blobs_locked keys dry ignored st).0
  unfolding sweep_blobs_locked
  sweep_blobs_locked-keeps keys dry ignored st s =
      let live = live_hashes keys ignored (list_releases keys st.index) in
      let swept = (sweep_pins dry live (list_pins st) st).0 in
      sweep_entries-keeps dry live (map (λ p. p.1) (list_pins swept)) (list_blob_refs swept.index)
        swept (sweep_pins-keeps dry live (list_pins st) st s)

module _ {Key : Type 0} ⦃eq : Eq Key⦄ (keys : Keys Key) (P : Store Key → Type 0)
    (unpinned : (dry : Bool) (st : Store Key) (d : Digest) → P st → P (drop_blob dry st d))
    (unindexed : (st : Store Key) (d : Digest)
      → P st
      → P (record st { index = (remove_blob_ref st.index d).0 }))
    (dropped : (st : Store Key) (p : Key) (n t : Text) → P st → P (drop_release st p n t).0)
    (referrers_pruned : (st : Store Key)
      → P st
      → P (record st { index = (prune_referrers st.index).0 })) where
  prune_outside-keeps :
      (selected : List Text) (p : Key) (n : Text) (rs : List (Release Key)) (st : Store Key)
      → P st
      → P (prune_outside keys selected p n rs st).0
  unfolding prune_outside
  prune_outside-keeps selected p n [] st s = s
  prune_outside-keeps selected p n (r ∷ rs) st s =
      let out = drop_release st p n r.payload.tag in
      choice-keeps {B = Store Key × Result ℕ} (λ o. P o.0) (contains selected r.payload.tag) _ _
        (λ c. prune_outside-keeps selected p n rs st s)
        (λ c.
          Result-keeps {B = Store Key × Result ℕ} (λ o. P o.0) out.1 _ _
            (λ e. dropped st p n r.payload.tag s)
            (λ was q. prune_outside-keeps selected p n rs out.0 (dropped st p n r.payload.tag s)))

  pub enforce_window-keeps :
      (policy : Policy) (me : Key) (st : Store Key) (p : Key) (n : Text)
      → P st
      → P (enforce_window keys policy me st p n).0
  unfolding enforce_window sweep_if_any
  enforce_window-keeps policy me st p n s =
      Bool-keeps {B = Store Key × Result (Unit {0})} (λ o. P o.0) (p == me) _ _ (λ c. s)
        (λ c.
          Bool-keeps {B = Store Key × Result (Unit {0})} (λ o. P o.0)
            (is_empty (window keys policy p n)) _ _ (λ d. s)
            (λ d.
              Result-keeps {B = Store Key × Result (Unit {0})} (λ o. P o.0)
                (local_releases_of st.index p n) _ _ (λ e. s)
                (λ held q.
                  let out =
                    prune_outside keys (select (window keys policy p n) (map known_of held)) p n
                      held st in
                  let left =
                    prune_outside-keeps (select (window keys policy p n) (map known_of held)) p n
                      held st s in
                  Result-keeps {B = Store Key × Result (Unit {0})} (λ o. P o.0) out.1 _ _
                    (λ e. left)
                    (λ removed w.
                      Bool-keeps P (ltb 0 removed) _ _
                        (λ c.
                          sweep_blobs_locked-keeps P unpinned unindexed keys false [] out.0 left)
                        (λ c. left)))))

  remember_first :
      (t : Text) (out : Store Key × Result (List Text)) → (remember keys t out).0 ≡ out.0
  remember_first t (st, ok ts) = refl
  remember_first t (st, err e) = refl

  prune_releases-keeps :
      (keep : List Text) (req : GcReq) (now grace : ℕ) (rs : List (Release Key)) (st : Store Key)
      → P st
      → P (prune_releases keys keep req now grace rs st).0
  unfolding prune_releases
  prune_releases-keeps keep req now grace [] st s = s
  prune_releases-keeps keep req now grace (r ∷ rs) st s =
      let out = drop_release st r.payload.publisher r.payload.name r.payload.tag in
      let left = dropped st r.payload.publisher r.payload.name r.payload.tag s in
      let rest = prune_releases-keeps keep req now grace rs st s in
      choice-keeps {B = Store Key × Result (List Text)} (λ o. P o.0)
        (is_pruned keys keep req now grace st r) _ _
        (λ c.
          choice-keeps {B = Store Key × Result (List Text)} (λ o. P o.0) req.dry_run _ _
            (λ d. subst P (sym (remember_first (reference keys r) _)) rest)
            (λ d.
              Result-keeps {B = Store Key × Result (List Text)} (λ o. P o.0) out.1 _ _ (λ e. left)
                (λ b q.
                  subst P (sym (remember_first (reference keys r) _))
                    (prune_releases-keeps keep req now grace rs out.0 left))))
        (λ c. rest)

  finish_gc-keeps :
      (req : GcReq) (now : ℕ) (uploads : Map Text ℕ) (st : Store Key) (refs : List Text)
      → P st
      → P (finish_gc keys req now uploads st refs).0.store
  unfolding finish_gc
  finish_gc-keeps req now uploads st refs s =
      Bool-keeps P req.dry_run _ _
        (λ d. sweep_blobs_locked-keeps P unpinned unindexed keys req.dry_run refs st s)
        (λ d.
          referrers_pruned (sweep_blobs_locked keys req.dry_run refs st).0
            (sweep_blobs_locked-keeps P unpinned unindexed keys req.dry_run refs st s))

  pub gc-keeps :
      (policy : Policy) (me : Key) (grace : ℕ) (req : GcReq) (now : ℕ) (disk : Disk Key)
      → P disk.store
      → P (gc keys policy me grace req now disk).0.store
  unfolding gc
  gc-keeps policy me grace req now disk s =
      let releases = list_releases keys disk.store.index in
      let keep = retained_set keys policy me releases in
      let pruned = prune_releases keys keep req now grace releases disk.store in
      let left = prune_releases-keeps keep req now grace releases disk.store s in
      Result-keeps {B = Disk Key × Result GcReport} (λ o. P o.0.store) pruned.1 _ _ (λ e. left)
        (λ refs q. finish_gc-keeps req now disk.uploads pruned.0 refs left)
