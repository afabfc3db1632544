-- ===== src/Registry/Manifests.antt =====
-- Pushing a manifest: `collect_refs` and `manifest_put` of crates/ocid/src/registry.rs. The recursion
-- into indexes is on fuel; that there is enough is shown in Manifests/Ends.
pub mod Ends
pub mod Sound
use ocid.Prelude.{
  ℕ, zero, suc, ◌≡◌, Bool, true, false, not, Option, none, some, List, [], ◌∷◌, ◌++◌, if◌then◌else◌,
  ◌==◌, Eq, nat_eq, list_eq, length, any, Result, ok, err, is_ok,
}
use ocid.Prelude.Map.{Map, get, insert}
use ocid.Text.{Text}
use ocid.Oci.Digest.{Digest, parse_digest}
use ocid.Oci.Manifest.{
  Descriptor, Manifest, Json, is_manifest_media_type, parse_manifest, referenced,
}
use ocid.Release.{BlobRef}
use ocid.Index.{blob_ref}
use ocid.Store.{Store, has_hash, record_blob}
use ocid.Registry.Http.{
  Reply, reply, refuse, fault, internal, manifest_blob_unknown, manifest_invalid,
}

-- The store, and the list `out`.
pub record Gathered (Key : Type 0) : Type 0 where
  pub store : Store Key
  pub refs : List BlobRef

-- What a call returns, or nothing if it is out of fuel.
abbrev pub Outcome : Type 0 → Type 0
Outcome Key = Option (Gathered Key × Reply (Unit {0}))

abbrev pub then_gather : {Key : Type 0} → Outcome Key → (Gathered Key → Outcome Key) → Outcome Key
then_gather none f = none
then_gather (some (g, reply u)) f = f g
then_gather (some (g, refuse e)) f = some (g, refuse e)

-- The entry with a media type.
unfoldable pub typed : BlobRef → Text → BlobRef
typed r mt = elim (r.media_type) [ none ↦ record r { media_type = some mt } | some t ↦ r ]

abbrev pub has_ref : List BlobRef → Digest → Bool
has_ref refs digest = any (λ b. b.digest == digest) refs

module _ {Key : Type 0} where
  -- The index with that entry, if it had no media type.
  unfoldable pub note_type : Store Key → BlobRef → Text → Store Key
  unfolding record_blob
  note_type st r mt = elim (r.media_type) [
    | none ↦ record_blob st (record r { media_type = some mt })
    | some t ↦ st
  ]

module _ {Key : Type 0} (json : Json) where
  -- A manifest that is referenced is read, and what it references is gathered by `child`.
  unfoldable pub collect_child :
      (Manifest → Gathered Key → Outcome Key) → Descriptor → BlobRef → Gathered Key → Outcome Key
  unfolding parse_manifest
  collect_child child d r g = elim (get r.hash g.store.blobs) [
    | none ↦ some (g, internal)
    | some bytes ↦ elim (parse_manifest json bytes (some d.media_type)) [
      | err e ↦ some (g, fault 400 manifest_invalid)
      | ok m ↦ child m (record g { refs = g.refs ++ (r ∷ []) })
    ]
  ]

  -- The body of the loop, once the blob is found.
  unfoldable pub collect_found :
      (Manifest → Gathered Key → Outcome Key) → Descriptor → BlobRef → Gathered Key → Outcome Key
  unfolding note_type typed collect_child is_manifest_media_type
  collect_found child d r g =
      let noted = record g { store = note_type g.store r d.media_type } in
      let blob = typed r d.media_type in
      if has_ref g.refs r.digest
      then some (noted, reply tt)
      else if is_manifest_media_type d.media_type
      then collect_child child d blob noted
      else some (record noted { refs = g.refs ++ (blob ∷ []) }, reply tt)

  unfoldable pub collect_one :
      (Manifest → Gathered Key → Outcome Key) → Descriptor → Gathered Key → Outcome Key
  unfolding blob_ref has_hash collect_found
  collect_one child d g = elim (blob_ref g.store.index d.digest) [
    | none ↦ some (g, fault 400 manifest_blob_unknown)
    | some r ↦
        if has_hash g.store r.hash
        then collect_found child d r g
        else some (g, fault 400 manifest_blob_unknown)
  ]

  unfoldable pub collect_each :
      (Manifest → Gathered Key → Outcome Key) → List Descriptor → Gathered Key → Outcome Key
  unfolding collect_one
  collect_each child [] g = some (g, reply tt)
  collect_each child (d ∷ ds) g =
      then_gather (collect_one child d g) (λ g'. collect_each child ds g')

  -- `collect_refs`
  unfoldable pub collect_refs : ℕ → Manifest → Gathered Key → Outcome Key
  unfolding collect_each referenced
  collect_refs zero manifest g = none
  collect_refs (suc fuel) manifest g = collect_each (collect_refs fuel) (referenced manifest) g
