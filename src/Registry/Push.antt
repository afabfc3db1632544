-- ===== src/Registry/Push.antt =====
-- `manifest_put` and `manifest_delete` of crates/ocid/src/registry.rs.
pub mod Sound
use ocid.Prelude.{
  ℕ, suc, ◌≡◌, Bool, true, false, not, Option, none, some, List, [], ◌∷◌, ◌++◌, if◌then◌else◌, ◌==◌,
  Eq, nat_eq, list_eq, length, Result, ok, err, ◌>>=◌,
}
use ocid.Text.{Text, txt, trim}
use ocid.Text.Search.{split_once}
use ocid.Identity.{Keys}
use ocid.Oci.Name.{validate_tag}
use ocid.Oci.Digest.{Digest, parse_digest}
use ocid.Oci.Manifest.{
  Manifest, Json, Descriptor, parse_manifest, media_type, subject, artifact_type, annotations,
  or_else, unwrap_or,
}
use ocid.Policy.Rules.{Policy}
use ocid.Release.{BlobRef, Referrer, ReleasePayload, ReleaseSummary, Release, Crypto, sign}
use ocid.Index.{put_referrer, list_tags, get_release}
use ocid.Store.{Store, Hashes, put_blob_bytes}
use ocid.Node.Commands.{Lookup}
use ocid.Node.Publish.{Outbox, publish, attach_referrer}
use ocid.Node.Remove.{remove_release}
use ocid.Registry.Http.{
  tag_invalid, digest_invalid, denied, unsupported, manifest_invalid, manifest_unknown, Response,
  plain, Reply, reply, fault, internal, or_internal, or_fault, serve_with, continue_with,
}
use ocid.Registry.Uploads.{resolve}
use ocid.Registry.Manifests.{Gathered, Outcome, collect_refs}

-- The media type of a header: what stands in front of the parameters.
abbrev header_type : Option Text → Option Text
header_type none = none
header_type (some s) = elim (split_once b';' s) [
  | none ↦ some (trim s)
  | some (first, rest) ↦ some (trim first)
]

-- The clocks of a push: of the new files, and of the signatures.
pub record Times : Type 0 where
  pub written : ℕ
  pub signed : ℕ

-- The reference of a push is the digest of what is pushed, or a tag.
unfoldable pub check_reference : Text → Digest → Reply (Unit {0})
unfolding parse_digest validate_tag list_eq nat_eq
check_reference reference digest = elim (parse_digest reference) [
  | ok d ↦ if d == digest then reply tt else fault 400 digest_invalid
  | err e ↦ or_fault (validate_tag reference) 400 tag_invalid
]

unfoldable pub referrer_of : Manifest → BlobRef → Text → Referrer
unfolding artifact_type annotations
referrer_of manifest r mt = record {
  digest = r.digest;
  media_type = mt;
  size = r.size;
  artifact_type = artifact_type manifest;
  annotations = unwrap_or (annotations manifest) [];
}

module _ {Key : Type 0} where
  abbrev pub with_store : Outbox Key → Store Key → Outbox Key
  with_store box st = record box { store = st }

  -- The gathered blobs. Out of fuel is no answer of the program.
  abbrev gathered : Outbox Key → Outcome Key → Outbox Key × Reply (List BlobRef)
  gathered box none = (box, internal)
  gathered box (some (g, answer)) = (with_store box g.store, serve_with answer (λ u. reply g.refs))

  unfoldable pub gather : Json → Manifest → Outbox Key → Outbox Key × Reply (List BlobRef)
  unfolding collect_refs
  gather json manifest box = gathered box (
      collect_refs json (suc (length box.store.index.blobs)) manifest
        (record { store = box.store; refs = [] }))

  abbrev pub state_internal : {T : Type 0} → Outbox Key × Result T → Outbox Key × Reply T
  state_internal (box, result) = (box, or_internal result)

  abbrev put_manifest : Hashes → List ℕ → Text → Outbox Key → Outbox Key × Reply BlobRef
  put_manifest hashes bytes mt box =
      elim (put_blob_bytes hashes box.store bytes (some (hashes.sha256 bytes)) (some mt)) [
        | err e ↦ (box, internal)
        | ok out ↦ (with_store box out.0, reply out.1)
      ]

module _ {Key Secret : Type 0} ⦃eq : Eq Key⦄ (hashes : Hashes) (crypto : Crypto Key Secret)
    (keys : Keys Key) (json : Json) (topics : List Key) (taken : ReleaseSummary Key → Bool)
    (secret : Secret) (times : Times) where
  -- A manifest with a subject: the relation is remembered, and the releases of the subject get it.
  unfoldable pub attach_subject :
      Manifest → BlobRef → Text → List BlobRef → Outbox Key → Outbox Key × Reply (Unit {0})
  unfolding subject referrer_of put_referrer attach_referrer
  attach_subject manifest r mt blobs box = elim (subject manifest) [
    | none ↦ (box, reply tt)
    | some d ↦
        let noted = with_store box (record box.store {
          index = put_referrer box.store.index d.digest (referrer_of manifest r mt);
        }) in
        continue_with
          (state_internal (
            attach_referrer hashes crypto topics taken secret keys d.digest
              (referrer_of manifest r mt) (r ∷ blobs) times.signed noted))
          (λ n box'. (box', reply tt))
  ]

  abbrev pub pushed_payload : Key → Text → Text → BlobRef → List BlobRef → ReleasePayload Key
  pushed_payload me name tag r blobs = record {
    version = 0;
    publisher = me;
    name = name;
    tag = tag;
    manifest = r;
    blobs = blobs;
    timestamp = 0;
    referrers = [];
  }

  -- A push by tag signs and publishes a release.
  unfoldable pub publish_tag :
      Text → Text → BlobRef → List BlobRef → Outbox Key → Outbox Key × Reply (Unit {0})
  unfolding parse_digest sign publish
  publish_tag name reference r blobs box = elim (parse_digest reference) [
    | ok d ↦ (box, reply tt)
    | err e ↦
        let me = crypto.public_key secret in
        elim (sign crypto secret (pushed_payload me name reference r blobs) times.signed) [
          | err x ↦ (box, internal)
          | ok release ↦
              state_internal (publish hashes crypto topics taken me release times.written box)
        ]
  ]

  -- The part of `manifest_put` behind the checks of the request.
  unfoldable pub put_parsed :
      Text → Text → Text → List ℕ → Manifest → Text → Outbox Key → Outbox Key × Reply Response
  unfolding gather check_reference put_blob_bytes attach_subject publish_tag
  put_parsed path image reference bytes manifest mt box =
      continue_with (gather json manifest box) (λ blobs box1.
        continue_with (box1, check_reference reference (hashes.sha256 bytes))
          (λ u box2. continue_with (put_manifest hashes bytes mt box2) (λ r box3.
            continue_with (attach_subject manifest r mt blobs box3) (λ u box4.
              continue_with (publish_tag image reference r blobs box4) (λ u box5. (
                box5,
                reply (record (plain 201) {
                  location = some (txt "/v2/" ++ (path ++ (txt "/manifests/" ++ r.digest)));
                  digest = some r.digest;
                }),
              ))))))

  -- `manifest_put`; `body` is the manifest, if it could be read and was not too long.
  unfoldable pub manifest_put :
      Lookup Key
      → Policy
      → Text
      → Text
      → Option Text
      → Option (List ℕ)
      → Outbox Key
      → Outbox Key × Reply Response
  unfolding resolve parse_manifest media_type put_parsed split_once
  manifest_put lookup policy path reference content_type body box =
      let me = crypto.public_key secret in
      continue_with (box, resolve hashes keys lookup policy me path)
        (λ found box. if not (found.0 == me) then (box, fault 403 denied) else elim body [
          | none ↦ (box, fault 400 unsupported)
          | some bytes ↦ elim (parse_manifest json bytes (header_type content_type)) [
            | err e ↦ (box, fault 400 manifest_invalid)
            | ok manifest ↦
                put_parsed path found.1 reference bytes manifest
                  (unwrap_or (header_type content_type) (media_type manifest)) box
          ]
        ])

-- The tags of `manifest_delete` by digest: those of the image that point at the manifest.
unfoldable pub tags_at :
    {Key : Type 0} ⦃eq : Eq Key⦄ → Store Key → Key → Text → Digest → List Text → Result (List Text)
unfolding get_release list_eq nat_eq
tags_at st publisher image digest [] = ok []
tags_at st publisher image digest (t ∷ ts) = do
  found ← get_release st.index publisher image t
  rest ← tags_at st publisher image digest ts
  ok (elim found [
    | none ↦ rest
    | some r ↦ if r.payload.manifest.digest == digest then t ∷ rest else rest
  ])

abbrev some_tags : List Text → Reply (List Text)
some_tags [] = fault 404 manifest_unknown
some_tags (t ∷ ts) = reply (t ∷ ts)

abbrev stored_tag : {Key : Type 0} → Text → Option (Release Key) → Reply (List Text)
stored_tag t none = fault 404 manifest_unknown
stored_tag t (some r) = reply (t ∷ [])

module _ {Key : Type 0} ⦃eq : Eq Key⦄ (hashes : Hashes) (keys : Keys Key) (lookup : Lookup Key)
    (policy : Policy) (me : Key) where
  -- The tags that a deletion is of.
  unfoldable pub doomed_tags : Store Key → Key → Text → Text → Reply (List Text)
  unfolding parse_digest list_tags tags_at validate_tag get_release
  doomed_tags st publisher image reference = elim (parse_digest reference) [
    | ok digest ↦
        serve_with
          (or_internal (list_tags st.index publisher image >>= tags_at st publisher image digest))
          some_tags
    | err e ↦ serve_with (or_fault (validate_tag reference) 400 tag_invalid) (λ u.
        serve_with (or_internal (get_release st.index publisher image reference))
          (stored_tag reference))
  ]

  -- The loop of `manifest_delete`
  unfoldable pub delete_tags : Key → Text → List Text → Store Key → Store Key × Reply Response
  unfolding remove_release
  delete_tags publisher image [] st = (st, reply (plain 202))
  delete_tags publisher image (t ∷ ts) st =
      let out = remove_release keys policy me publisher image (some t) st in
      continue_with (out.0, or_internal out.1) (λ resp st'. delete_tags publisher image ts st')

  unfoldable pub manifest_delete : Text → Text → Store Key → Store Key × Reply Response
  unfolding resolve doomed_tags delete_tags
  manifest_delete path reference st =
      continue_with (st, resolve hashes keys lookup policy me path)
        (λ found st.
          continue_with (st, doomed_tags st found.0 found.1 reference)
            (λ tags st'. delete_tags found.0 found.1 tags st'))
