-- ===== src/Node/Gc/Keeps.antt =====
-- What garbage collection keeps.
use ocid.Prelude.{
  ℕ, ◌≡◌, ◌≢◌, refl, ap, true, some, List, [], ◌∷◌, arith, Eq, nat_eq, list_eq, pair_eq, contains,
  Bool-cases, Result-cases, inl, inr, Result, ok, err,
}
use ocid.Prelude.Map.{Map, get}
use ocid.Text.{Text}
use ocid.Identity.{Keys}
use ocid.Release.{Release, reference}
use ocid.Index.{ReleaseKey, key_of, stored, list_releases, remove_release, prune_referrers}
use ocid.Index.Releases.{stored-remove_release}
use ocid.Policy.Rules.{Policy}
use ocid.Store.{Store}
use ocid.Node.{retained_set}
use ocid.Node.Retained.{own_or_pinned, retained_set-own_or_pinned}
use ocid.Node.Sweep.Same.{sweep_blobs_locked-releases, sweep_blobs_locked-dry}
use ocid.Node.Gc.{
  GcReq, GcReport, Disk, drop_release, is_pruned, remember, prune_releases, finish_gc, gc,
  prune_uploads,
}

module _ {Key : Type 0} ⦃eq : Eq Key⦄ (keys : Keys Key) where
  reference-key_of : (r s : Release Key) → key_of r ≡ key_of s → reference keys r ≡ reference keys s
  unfolding reference key_of
  reference-key_of r s h = ground (arith, ap (λ k. k.0) h, ap (λ k. k.1.0) h, ap (λ k. k.1.1) h)

  stored-drop_release :
      (st : Store Key) (r s : Release Key)
      → key_of s ≢ key_of r
      → stored st.index (key_of r) ≡ some r
      → stored (drop_release st s.payload.publisher s.payload.name s.payload.tag).0.index (key_of r)
        ≡ some r
  unfolding drop_release key_of
  stored-drop_release st r s n h =
      elim (Result-cases
        (remove_release st.index s.payload.publisher s.payload.name s.payload.tag)) [
          | inl (out, q) ↦ ground (
            arith,
            (stored-remove_release st.index out.0 s.payload.publisher s.payload.name s.payload.tag
                  out.1 q).1
                (key_of r),
          )
          | inr (e, q) ↦ ground arith
        ]

  remember_store :
      (t : Text) (out : Store Key × Result (List Text)) → (remember keys t out).0 ≡ out.0
  remember_store t (st, ok ts) = refl
  remember_store t (st, err e) = refl

  -- One turn of the loop, by what was decided.
  prune_step-keeps :
      (keep : List Text) (req : GcReq) (now grace : ℕ) (rs : List (Release Key)) (st : Store Key)
      (r s : Release Key)
      → key_of s ≢ key_of r
      → stored st.index (key_of r) ≡ some r
      → ((st' : Store Key)
          → stored st'.index (key_of r) ≡ some r
          → stored (prune_releases keys keep req now grace rs st').0.index (key_of r) ≡ some r)
      → is_pruned keys keep req now grace st s ≡ true
      → stored (prune_releases keys keep req now grace (s ∷ rs) st).0.index (key_of r) ≡ some r
  unfolding prune_releases
  prune_step-keeps keep req now grace rs st r s n h rec p =
      elim (Result-cases (drop_release st s.payload.publisher s.payload.name s.payload.tag).1) [
        | inl (b, q) ↦ ground (
          arith,
          rec st h,
          rec (drop_release st s.payload.publisher s.payload.name s.payload.tag).0
              (stored-drop_release st r s n h),
          remember_store (reference keys s) (prune_releases keys keep req now grace rs st),
          remember_store (reference keys s) (
              prune_releases keys keep req now grace rs
                (drop_release st s.payload.publisher s.payload.name s.payload.tag).0),
        )
        | inr (e, q) ↦ ground (
          arith,
          rec st h,
          stored-drop_release st r s n h,
          remember_store (reference keys s) (prune_releases keys keep req now grace rs st),
        )
      ]

  is_pruned-key_of :
      (keep : List Text) (req : GcReq) (now grace : ℕ) (st : Store Key) (r s : Release Key)
      → contains keep (reference keys r) ≡ true
      → is_pruned keys keep req now grace st s ≡ true
      → key_of s ≢ key_of r
  unfolding is_pruned
  is_pruned-key_of keep req now grace st r s k p e =
      ground (arith, ap (contains keep) (reference-key_of s r e))

  prune_releases-keeps :
      (keep : List Text) (req : GcReq) (now grace : ℕ) (rs : List (Release Key)) (st : Store Key)
      (r : Release Key)
      → contains keep (reference keys r) ≡ true
      → stored st.index (key_of r) ≡ some r
      → stored (prune_releases keys keep req now grace rs st).0.index (key_of r) ≡ some r
  unfolding prune_releases
  prune_releases-keeps keep req now grace [] st r k h = h
  prune_releases-keeps keep req now grace (s ∷ rs) st r k h =
      elim (Bool-cases (is_pruned keys keep req now grace st s)) [
        | inl p ↦
            prune_step-keeps keep req now grace rs st r s
              (is_pruned-key_of keep req now grace st r s k p) h
              (λ st' h'. prune_releases-keeps keep req now grace rs st' r k h') p
        | inr p ↦ ground (arith, prune_releases-keeps keep req now grace rs st r k h)
      ]

  finish_gc-releases :
      (req : GcReq) (now : ℕ) (uploads : Map Text ℕ) (st : Store Key) (refs : List Text)
      → (finish_gc keys req now uploads st refs).0.store.index.releases ≡ st.index.releases
  unfolding finish_gc prune_referrers
  finish_gc-releases req now uploads st refs =
      ground (arith, sweep_blobs_locked-releases keys req.dry_run refs st)

  finish_gc-stored :
      (req : GcReq) (now : ℕ) (uploads : Map Text ℕ) (st : Store Key) (refs : List Text)
      (k : ReleaseKey Key)
      → stored (finish_gc keys req now uploads st refs).0.store.index k ≡ stored st.index k
  unfolding stored
  finish_gc-stored req now uploads st refs k =
      ground (arith, ap (λ m. get k m) (finish_gc-releases req now uploads st refs))

  -- Whatever collection is asked for, forced or not, and also if it fails: a stored release of the
  -- node itself, or with a pinned tag, is stored afterwards as it was.
  pub gc-keeps :
      (policy : Policy) (me : Key) (grace : ℕ) (req : GcReq) (now : ℕ) (disk : Disk Key)
      (r : Release Key)
      → stored disk.store.index (key_of r) ≡ some r
      → own_or_pinned keys policy me r.payload.publisher r.payload.name r.payload.tag ≡ true
      → stored (gc keys policy me grace req now disk).0.store.index (key_of r) ≡ some r
  unfolding gc
  gc-keeps policy me grace req now disk r h a =
      let releases = list_releases keys disk.store.index in
      let keep = retained_set keys policy me releases in
      let pruned = prune_releases keys keep req now grace releases disk.store in
      let left : stored pruned.0.index (key_of r) ≡ some r =
        prune_releases-keeps keep req now grace releases disk.store r
          (retained_set-own_or_pinned keys policy me disk.store.index r h a) h in
      elim (Result-cases pruned.1) [
        | inl (refs, q) ↦
            ground (arith, finish_gc-stored req now disk.uploads pruned.0 refs (key_of r))
        | inr (e, q) ↦ ground arith
      ]

  prune_releases-dry :
      (keep : List Text) (req : GcReq) (now grace : ℕ) (rs : List (Release Key)) (st : Store Key)
      → req.dry_run ≡ true
      → (refs : List Text) × (prune_releases keys keep req now grace rs st ≡ (st, ok refs))
  unfolding prune_releases
  prune_releases-dry keep req now grace [] st d = ([], refl)
  prune_releases-dry keep req now grace (r ∷ rs) st d =
      let rest = prune_releases-dry keep req now grace rs st d in
      elim (Bool-cases (is_pruned keys keep req now grace st r)) [
        | inl p ↦ (reference keys r ∷ rest.0, ground (arith, rest.1))
        | inr p ↦ (rest.0, ground (arith, rest.1))
      ]

  -- A dry collection succeeds and changes nothing on disk.
  pub gc-dry :
      (policy : Policy) (me : Key) (grace : ℕ) (req : GcReq) (now : ℕ) (disk : Disk Key)
      → req.dry_run ≡ true
      → (report : GcReport) × (gc keys policy me grace req now disk ≡ (disk, ok report))
  unfolding gc finish_gc prune_uploads
  gc-dry policy me grace req now disk d =
      let releases = list_releases keys disk.store.index in
      let keep = retained_set keys policy me releases in
      let pruned = prune_releases-dry keep req now grace releases disk.store d in
      let out = finish_gc keys req now disk.uploads disk.store pruned.0 in
      (out.1, ground (arith, pruned.1, sweep_blobs_locked-dry keys pruned.0 disk.store))
