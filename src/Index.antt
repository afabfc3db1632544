-- ===== src/Index.antt =====
-- The index of blobs, referrers and releases: crates/ocid-core/src/index.rs. Each directory of JSON
-- files is a map; a file that cannot be read or written is not modelled.
pub mod Releases
use ocid.Prelude.{
  ℕ, ◌+◌, Bool, true, false, not, ◌&&◌, Option, none, some, List, [], ◌∷◌, ◌++◌, map, if◌then◌else◌,
  ◌==◌, Eq, nat_eq, list_eq, pair_eq, length, all, retain, sort_by, is_some_and, Result, ok, err,
  ◌>>=◌, ◌>>◌,
}
use ocid.Prelude.Map.{Map, get, insert, remove, has_key, values}
use ocid.Text.{Text, len, is_lower_hex}
use ocid.Text.Compare.{less}
use ocid.Identity.{Keys}
use ocid.Oci.Name.{validate_name, validate_tag}
use ocid.Oci.Digest.{Digest, hex}
use ocid.Release.{BlobRef, Referrer, Release, all_blobs, supersedes, reference}

-- `releases/<publisher>/<name>/<tag>.json`
abbrev pub ReleaseKey : Type 0 → Type 0
ReleaseKey Key = Key × (Text × Text)

-- A release comes with the time its file was written.
pub record Index (Key : Type 0) : Type 0 where
  pub blobs : Map Digest BlobRef
  pub referrers : Map Digest (Map Digest Referrer)
  pub releases : Map (ReleaseKey Key) (Release Key × ℕ)

abbrev pub empty : {Key : Type 0} → Index Key
empty = record { blobs = []; referrers = []; releases = [] }

module _ {Key : Type 0} where
  unfoldable pub blob_ref : Index Key → Digest → Option BlobRef
  blob_ref ix digest = get digest ix.blobs

  unfoldable pub put_blob_ref : Index Key → BlobRef → Index Key
  put_blob_ref ix r = record ix { blobs = insert r.digest r ix.blobs }

  unfoldable pub remove_blob_ref : Index Key → Digest → Index Key × Bool
  remove_blob_ref ix digest =
      if has_key digest ix.blobs
      then (record ix { blobs = remove digest ix.blobs }, true)
      else (ix, false)

  unfoldable pub list_blob_refs : Index Key → List BlobRef
  list_blob_refs ix = values ix.blobs

  unfoldable pub is_indexed : Index Key → Release Key → Bool
  is_indexed ix release = all (λ b. has_key b.digest ix.blobs) (all_blobs release)

  unfoldable pub referrers_of : Index Key → Digest → Map Digest Referrer
  referrers_of ix subject = elim (get subject ix.referrers) [ none ↦ [] | some rs ↦ rs ]

  unfoldable pub put_referrer : Index Key → Digest → Referrer → Index Key
  unfolding referrers_of
  put_referrer ix subject r = record ix {
    referrers = insert subject (insert r.digest r (referrers_of ix subject)) ix.referrers;
  }

  unfoldable pub list_referrers : Index Key → Digest → List Referrer
  unfolding referrers_of
  list_referrers ix subject =
      sort_by (λ a b. less a.digest b.digest) (values (referrers_of ix subject))

  -- A referrer stays while the blob of its manifest is indexed.
  unfoldable pub is_live : Index Key → Digest → Bool
  unfolding hex
  is_live ix d = is_some_and (λ h. len h == 64 && all is_lower_hex h) (hex d) && has_key d ix.blobs

  unfoldable pub prune_subject : Index Key → Map Digest Referrer → Map Digest Referrer
  unfolding is_live
  prune_subject ix rs = retain (λ e. is_live ix e.0) rs

  unfoldable pub prune_all :
      Index Key → Map Digest (Map Digest Referrer) → Map Digest (Map Digest Referrer) × ℕ
  unfolding prune_subject
  prune_all ix [] = ([], 0)
  prune_all ix ((subject, rs) ∷ more) =
      let rest = prune_all ix more in
      (
        (subject, prune_subject ix rs) ∷ rest.0,
        length (retain (λ e. not (is_live ix e.0)) rs) + rest.1,
      )

  unfoldable pub prune_referrers : Index Key → Index Key × ℕ
  unfolding prune_all
  prune_referrers ix = let r = prune_all ix ix.referrers in (record ix { referrers = r.0 }, r.1)

  unfoldable pub put_referrers : Index Key → Digest → List Referrer → Index Key
  unfolding put_referrer
  put_referrers ix subject [] = ix
  put_referrers ix subject (r ∷ rs) = put_referrers (put_referrer ix subject r) subject rs

  -- The key of a release's file; no file has an invalid name or tag.
  unfoldable pub release_path : Key → Text → Text → Result (ReleaseKey Key)
  release_path publisher name tag = do
    validate_tag tag
    validate_name name
    ok (publisher, (name, tag))

  unfoldable pub key_of : Release Key → ReleaseKey Key
  key_of r = (r.payload.publisher, (r.payload.name, r.payload.tag))

module _ {Key : Type 0} ⦃e : Eq Key⦄ where
  unfoldable pub stored : Index Key → ReleaseKey Key → Option (Release Key)
  stored ix k = elim (get k ix.releases) [ none ↦ none | some (r, t) ↦ some r ]

  unfoldable pub get_release : Index Key → Key → Text → Text → Result (Option (Release Key))
  unfolding release_path stored
  get_release ix publisher name tag = do k ← release_path publisher name tag; ok (stored ix k)

  -- Whether the record of a release is to be written: it is new, or supersedes what is there.
  unfoldable pub accepts : Release Key → Option (Release Key) → Bool
  accepts r none = true
  accepts r (some existing) = supersedes r existing

  unfoldable pub write_release : Index Key → Release Key → ℕ → Index Key
  unfolding key_of put_referrers
  write_release ix r now =
      put_referrers (record ix { releases = insert (key_of r) (r, now) ix.releases })
        r.payload.manifest.digest r.payload.referrers

  unfoldable pub put_release : Index Key → Release Key → ℕ → Result (Index Key × Bool)
  unfolding get_release accepts write_release
  put_release ix r now = do
    existing ← get_release ix r.payload.publisher r.payload.name r.payload.tag
    ok (if accepts r existing then (write_release ix r now, true) else (ix, false))

  unfoldable pub remove_release : Index Key → Key → Text → Text → Result (Index Key × Bool)
  unfolding release_path
  remove_release ix publisher name tag = do
    k ← release_path publisher name tag
    ok (
        if has_key k ix.releases
        then (record ix { releases = remove k ix.releases }, true)
        else (ix, false))

  unfoldable pub release_mtime : Index Key → Release Key → Option ℕ
  unfolding release_path
  release_mtime ix r = elim (release_path r.payload.publisher r.payload.name r.payload.tag) [
    | err x ↦ none
    | ok k ↦ elim (get k ix.releases) [ none ↦ none | some (s, t) ↦ some t ]
  ]

  abbrev is_of : Key → Text → ReleaseKey Key → Bool
  is_of publisher name k = k.0 == publisher && k.1.0 == name

  unfoldable pub list_tags : Index Key → Key → Text → Result (List Text)
  list_tags ix publisher name = do
    validate_name name
    ok (sort_by less (map (λ en. en.0.1.1) (retain (λ en. is_of publisher name en.0) ix.releases)))

module _ {Key : Type 0} where
  unfoldable pub list_releases : Keys Key → Index Key → List (Release Key)
  unfolding reference
  list_releases keys ix =
      sort_by (λ a b. less (reference keys a) (reference keys b))
        (map (λ s. s.0) (values ix.releases))
