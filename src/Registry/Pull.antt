-- ===== src/Registry/Pull.antt =====
-- The requests that read: `catalog`, `tags_list`, `manifest_get`, `referrers_get` and `blob_get` of
-- crates/ocid/src/registry.rs. The JSON of the lists is not modelled, what they list is.
pub mod Length
use ocid.Prelude.{
  ℕ, ◌+◌, ◌-◌, ◌≡◌, Bool, true, false, not, ◌||◌, Option, none, some, List, [], ◌∷◌, ◌++◌, map,
  if◌then◌else◌, ◌==◌, Eq, nat_eq, list_eq, option_eq, pair_eq, retain, take, drop, Result, ok, err,
}
use ocid.Prelude.Map.{get}
use ocid.Text.{Text, txt}
use ocid.Text.Decimal.{show_nat}
use ocid.Identity.{Keys}
use ocid.Oci.Name.{validate_tag}
use ocid.Oci.Digest.{Digest, parse_digest}
use ocid.Oci.Manifest.{mt_oci_manifest, unwrap_or}
use ocid.Policy.Rules.{Policy}
use ocid.Release.{BlobRef, Referrer, Release, Crypto}
use ocid.Index.{blob_ref, list_tags, list_releases, list_referrers}
use ocid.Store.{Store, Hashes, has_hash}
use ocid.Node.Commands.{Lookup}
use ocid.Node.Peers.{Peers}
use ocid.Node.Exchange.{Codec}
use ocid.Node.Replicate.{Network, get_or_fetch}
use ocid.Registry.Http.{
  name_unknown, tag_invalid, digest_invalid, manifest_unknown, blob_unknown, Response, plain, Reply,
  reply, refuse, fault, internal, or_internal, or_fault, serve_with, continue_with,
}
use ocid.Registry.Range.{parse_range}
use ocid.Registry.Uploads.{resolve}

-- `Vec::dedup`: of equal neighbours one stays.
unfoldable pub dedup : List Text → List Text
unfolding list_eq nat_eq
dedup [] = []
dedup (x ∷ []) = x ∷ []
dedup (x ∷ y ∷ ys) = let rest = dedup (y ∷ ys) in if x == y then rest else x ∷ rest

-- The entry of a digest, if its data is there.
unfoldable pub held_ref : {Key : Type 0} → Store Key → Digest → Option BlobRef
unfolding blob_ref has_hash
held_ref st digest = elim (blob_ref st.index digest) [
  | none ↦ none
  | some b ↦ if has_hash st b.hash then some b else none
]

unfoldable pub content_range : ℕ → ℕ → ℕ → Text
unfolding show_nat
content_range start last size =
    txt "bytes " ++ (show_nat start ++ (txt "-" ++ (show_nat last ++ (txt "/" ++ show_nat size))))

-- The answer with the bytes from `start` on, as many as `count`.
unfoldable pub send_bytes :
    {Key : Type 0} → Store Key → BlobRef → Bool → Response → ℕ → ℕ → Reply Response
send_bytes st blob head response start count = elim (get blob.hash st.blobs) [
  | none ↦ internal
  | some bytes ↦ reply (record response {
    media_type = some (txt "application/octet-stream");
    size = some count;
    digest = some blob.digest;
    body = if head then [] else take count (drop start bytes);
  })
]

-- The header `Range` of the request, if there is one, decides.
unfoldable pub send_blob :
    {Key : Type 0} → Store Key → BlobRef → Option Text → Bool → Reply Response
unfolding parse_range send_bytes content_range show_nat
send_blob st blob none head = send_bytes st blob head (plain 200) 0 blob.size
send_blob st blob (some spec) head = elim (parse_range spec blob.size) [
  | none ↦ reply (record (plain 416) { range = some (txt "bytes */" ++ show_nat blob.size) })
  | some (start, last) ↦
      send_bytes st blob head
        (record (plain 206) { range = some (content_range start last blob.size) }) start
        (last - start + 1)
]

module _ {Key : Type 0} ⦃eq : Eq Key⦄ (hashes : Hashes) (keys : Keys Key) (lookup : Lookup Key)
    (policy : Policy) (me : Key) (st : Store Key) where
  unfoldable pub catalog : List Text
  unfolding dedup list_releases
  catalog = dedup (
      map (λ r. keys.to_text r.payload.publisher ++ b'/' ∷ r.payload.name)
        (list_releases keys st.index))

  abbrev known_tags : List Text → Reply (List Text)
  known_tags [] = fault 404 name_unknown
  known_tags (t ∷ ts) = reply (t ∷ ts)

  unfoldable pub tags_list : Text → Reply (List Text)
  unfolding resolve list_tags
  tags_list path =
      serve_with (resolve hashes keys lookup policy me path)
        (λ found. serve_with (or_internal (list_tags st.index found.0 found.1)) known_tags)

  unfoldable pub referrers_get : Text → Text → Option Text → Reply (List Referrer)
  unfolding resolve parse_digest list_referrers option_eq list_eq nat_eq
  referrers_get path digest filter =
      serve_with (resolve hashes keys lookup policy me path) (λ found.
        serve_with (or_fault (parse_digest digest) 400 digest_invalid) (λ d.
          reply (
            retain (λ r. filter == none || r.artifact_type == filter) (list_referrers st.index d))))

  unfoldable pub blob_get : Text → Text → Option Text → Bool → Reply Response
  unfolding resolve parse_digest held_ref send_blob
  blob_get path digest range head = serve_with (resolve hashes keys lookup policy me path) (λ found.
      serve_with (or_fault (parse_digest digest) 400 digest_invalid) (λ d. elim (held_ref st d) [
        | none ↦ fault 404 blob_unknown
        | some blob ↦ send_blob st blob range head
      ]))

-- The answer of `manifest_get` with the manifest.
unfoldable pub send_manifest : {Key : Type 0} → Store Key → BlobRef → Bool → Reply Response
send_manifest st blob head = elim (get blob.hash st.blobs) [
  | none ↦
      if head
      then reply (record (plain 200) {
        media_type = some (unwrap_or blob.media_type mt_oci_manifest);
        size = some blob.size;
        digest = some blob.digest;
      })
      else internal
  | some bytes ↦ reply (record (plain 200) {
    media_type = some (unwrap_or blob.media_type mt_oci_manifest);
    size = some blob.size;
    digest = some blob.digest;
    body = if head then [] else bytes;
  })
]

module _ {Key Secret : Type 0} ⦃eq : Eq Key⦄ (hashes : Hashes) (crypto : Crypto Key Secret)
    (keys : Keys Key) (codec : Codec Key) (net : Network Key) (lookup : Lookup Key)
    (policy : Policy) (me : Key) (peers : Peers Key) where
  abbrev pub found_manifest : Store Key × Result (Option (Release Key)) → Store Key × Reply BlobRef
  found_manifest (st, err e) = (st, internal)
  found_manifest (st, ok none) = (st, fault 404 manifest_unknown)
  found_manifest (st, ok (some r)) = (st, reply r.payload.manifest)

  -- The manifest of a reference: one that is held, or by a tag that of a release.
  unfoldable pub manifest_ref : Key → Text → Text → ℕ → Store Key → Store Key × Reply BlobRef
  unfolding parse_digest held_ref validate_tag get_or_fetch
  manifest_ref publisher name reference now st = elim (parse_digest reference) [
    | ok d ↦ elim (held_ref st d) [
      | none ↦ (st, fault 404 manifest_unknown)
      | some b ↦ (st, reply b)
    ]
    | err e ↦
        continue_with (st, or_fault (validate_tag reference) 400 tag_invalid)
          (λ u st.
            found_manifest
              (get_or_fetch hashes crypto keys codec net me peers publisher name reference now st))
  ]

  -- `manifest_get`; that the fetch takes too long is not modelled.
  unfoldable pub manifest_get : Text → Text → Bool → ℕ → Store Key → Store Key × Reply Response
  unfolding resolve manifest_ref send_manifest
  manifest_get path reference head now st =
      continue_with (st, resolve hashes keys lookup policy me path)
        (λ found st.
          continue_with (manifest_ref found.0 found.1 reference now st)
            (λ blob st'. (st', send_manifest st' blob head)))
