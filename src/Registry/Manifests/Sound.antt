-- ===== src/Registry/Manifests/Sound.antt =====
-- What gathering the blobs of a manifest (`collect_refs` of crates/ocid/src/registry.rs) does to the
-- integrity of the store.
use ocid.Prelude.{
  nat_eq, list_eq, ℕ, zero, suc, ◌≡◌, none, some, List, [], ◌∷◌, Bool-keeps, Option-keeps,
  Result-keeps,
}
use ocid.Prelude.Map.{get}
use ocid.Oci.Digest.{Digest}
use ocid.Oci.Manifest.{
  Descriptor, Manifest, Json, parse_manifest, is_manifest_media_type, referenced,
}
use ocid.Release.{Hash, BlobRef}
use ocid.Index.{blob_ref}
use ocid.Store.{Store, Hashes, has_hash}
use ocid.Store.Sound.{IsSound, Holds}
use ocid.Store.Put.{IsWhole, record_blob-IsWhole}
use ocid.Registry.Http.{reply, refuse}
use ocid.Registry.Manifests.{
  Gathered, Outcome, then_gather, has_ref, note_type, collect_child, collect_found, collect_one,
  collect_each, collect_refs,
}

module _ {Key : Type 0} (hashes : Hashes) (content : Hash → List ℕ)
    (law : (b : List ℕ) → content (hashes.blake3 b) ≡ b) where
  abbrev pub EndsWhole : Outcome Key → Type 0
  EndsWhole none = Unit {0}
  EndsWhole (some (g, answer)) = IsWhole hashes content g.store

  then_gather-EndsWhole :
      (o : Outcome Key) (f : Gathered Key → Outcome Key)
      → EndsWhole o
      → ((g : Gathered Key) → IsWhole hashes content g.store → EndsWhole (f g))
      → EndsWhole (then_gather o f)
  then_gather-EndsWhole none f h k = tt
  then_gather-EndsWhole (some (g, reply u)) f h k = k g h
  then_gather-EndsWhole (some (g, refuse e)) f h k = h

  pub note_type-IsWhole :
      (st : Store Key) (d : Digest) (r : BlobRef) (mt : List ℕ)
      → blob_ref st.index d ≡ some r
      → IsWhole hashes content st
      → IsWhole hashes content (note_type st r mt)
  unfolding note_type IsSound Holds
  note_type-IsWhole st d r mt q w =
      Option-keeps (IsWhole hashes content) r.media_type _ _
        (record_blob-IsWhole hashes content law st (record r { media_type = some mt }) (w.0 d r q).2
          w)
        (λ t e. w)

  module _ (json : Json) where
    module _ (child : Manifest → Gathered Key → Outcome Key)
        (h : (m : Manifest) (g : Gathered Key)
          → IsWhole hashes content g.store
          → EndsWhole (child m g)) where
      collect_child-EndsWhole :
          (d : Descriptor) (r : BlobRef) (g : Gathered Key)
          → IsWhole hashes content g.store
          → EndsWhole (collect_child json child d r g)
      unfolding collect_child
      collect_child-EndsWhole d r g w =
          Option-keeps EndsWhole (get r.hash g.store.blobs) _ _ w (λ bytes q.
            Result-keeps EndsWhole (parse_manifest json bytes (some d.media_type)) _ _ (λ e. w)
              (λ m e. h m _ w))

      collect_found-EndsWhole :
          (d : Descriptor) (r : BlobRef) (g : Gathered Key)
          → blob_ref g.store.index d.digest ≡ some r
          → IsWhole hashes content g.store
          → EndsWhole (collect_found json child d r g)
      unfolding collect_found
      collect_found-EndsWhole d r g q w =
          let noted = note_type-IsWhole g.store d.digest r d.media_type q w in
          Bool-keeps EndsWhole (has_ref g.refs r.digest) _ _ (λ c. noted)
            (λ c.
              Bool-keeps EndsWhole (is_manifest_media_type d.media_type) _ _
                (λ m. collect_child-EndsWhole d _ _ noted) (λ m. noted))

      collect_one-EndsWhole :
          (d : Descriptor) (g : Gathered Key)
          → IsWhole hashes content g.store
          → EndsWhole (collect_one json child d g)
      unfolding collect_one
      collect_one-EndsWhole d g w =
          Option-keeps EndsWhole (blob_ref g.store.index d.digest) _ _ w (λ r q.
            Bool-keeps EndsWhole (has_hash g.store r.hash) _ _
              (λ c. collect_found-EndsWhole d r g q w) (λ c. w))

      collect_each-EndsWhole :
          (ds : List Descriptor) (g : Gathered Key)
          → IsWhole hashes content g.store
          → EndsWhole (collect_each json child ds g)
      unfolding collect_each
      collect_each-EndsWhole [] g w = w
      collect_each-EndsWhole (d ∷ ds) g w =
          then_gather-EndsWhole (collect_one json child d g) _ (collect_one-EndsWhole d g w)
            (λ g' w'. collect_each-EndsWhole ds g' w')

    pub collect_refs-EndsWhole :
        (fuel : ℕ) (m : Manifest) (g : Gathered Key)
        → IsWhole hashes content g.store
        → EndsWhole (collect_refs json fuel m g)
    unfolding collect_refs
    collect_refs-EndsWhole zero m g w = tt
    collect_refs-EndsWhole (suc fuel) m g w =
        collect_each-EndsWhole (collect_refs json fuel)
          (λ m' g' w'. collect_refs-EndsWhole fuel m' g' w') (referenced m) g w
