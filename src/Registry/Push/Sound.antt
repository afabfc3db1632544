-- ===== src/Registry/Push/Sound.antt =====
-- What a push and a deletion (crates/ocid/src/registry.rs) do to the integrity of the store.
use ocid.Prelude.{
  Bool, ℕ, suc, ◌≡◌, false, not, Option, none, some, List, [], ◌∷◌, ◌==◌, Eq, nat_eq, list_eq,
  length, Result, Bool-keeps, Option-keeps, Result-keeps,
}
use ocid.Text.{Text}
use ocid.Identity.{Keys}
use ocid.Oci.Digest.{parse_digest}
use ocid.Oci.Manifest.{Manifest, Json, parse_manifest, subject}
use ocid.Policy.Rules.{Policy}
use ocid.Release.{Hash, BlobRef, Release, ReleaseSummary, Crypto, sign}
use ocid.Index.{put_release, put_referrer, blob_ref}
use ocid.Store.{Store, Hashes, put_blob_bytes}
use ocid.Store.Fetch.{store_release}
use ocid.Store.Sound.{IsSound, store_release-IsSound}
use ocid.Store.Succeeds.{IsAddressed}
use ocid.Store.Put.{IsWhole, put_blob_bytes-IsWhole}
use ocid.Node.Commands.{Lookup}
use ocid.Node.Sound.{drop_release-IsSound, sweep_blobs_locked-IsSound}
use ocid.Node.Remove.{remove_release}
use ocid.Node.Remove.Keeps.{remove_release-keeps}
use ocid.Node.Publish.{Outbox, publish, attach_referrer}
use ocid.Node.Publish.Keeps.{publish-keeps, attach_referrer-keeps}
use ocid.Registry.Http.{Response, Reply, or_internal}
use ocid.Registry.Uploads.{resolve}
use ocid.Registry.Uploads.Sound.{continue_with-keeps}
use ocid.Registry.Manifests.{Outcome}
use ocid.Registry.Manifests.Sound.{EndsWhole, collect_refs-EndsWhole}
use ocid.Registry.Push.{
  Times, header_type, check_reference, referrer_of, gathered, gather, state_internal, put_manifest,
  attach_subject, pushed_payload, publish_tag, put_parsed, manifest_put, doomed_tags, delete_tags,
  manifest_delete,
}

module _ {Key Secret : Type 0} ⦃eq : Eq Key⦄ (hashes : Hashes) (crypto : Crypto Key Secret)
    (content : Hash → List ℕ) (law : (b : List ℕ) → content (hashes.blake3 b) ≡ b) where
  abbrev Whole : Outbox Key → Type 0
  Whole box = IsWhole hashes content box.store

  store_release-IsWhole :
      (st : Store Key) (r : Release Key) (now : ℕ)
      → IsWhole hashes content st
      → IsWhole hashes content (store_release hashes crypto st r now).0
  unfolding store_release IsAddressed
  store_release-IsWhole st r now w = (
    store_release-IsSound hashes crypto st r now w.0,
    Result-keeps {B = Store Key × Result (Unit {0})} (λ o. IsAddressed content o.0)
        (put_release st.index r now) _ _ (λ e. w.1) (λ out q. w.1),
  )

  gathered-Whole :
      (box : Outbox Key) (o : Outcome Key)
      → EndsWhole hashes content law o
      → Whole box
      → Whole (gathered box o).0
  gathered-Whole box none h w = w
  gathered-Whole box (some (g, answer)) h w = h

  gather-Whole :
      (json : Json) (m : Manifest) (box : Outbox Key) → Whole box → Whole (gather json m box).0
  unfolding gather
  gather-Whole json m box w =
      gathered-Whole box _
        (collect_refs-EndsWhole hashes content law json (suc (length box.store.index.blobs)) m
          (record { store = box.store; refs = [] }) w)
        w

  state_internal-Whole :
      {T : Type 0} (out : Outbox Key × Result T) → Whole out.0 → Whole (state_internal out).0
  state_internal-Whole (box, result) w = w

  put_manifest-Whole :
      (bytes : List ℕ) (mt : Text) (box : Outbox Key)
      → Whole box
      → Whole (put_manifest hashes bytes mt box).0
  put_manifest-Whole bytes mt box w =
      Result-keeps {B = Outbox Key × Reply BlobRef} (λ o. Whole o.0)
        (put_blob_bytes hashes box.store bytes (some (hashes.sha256 bytes)) (some mt)) _ _ (λ e. w)
        (λ out q.
          put_blob_bytes-IsWhole hashes content law box.store bytes (some (hashes.sha256 bytes))
            (some mt) out q w)

  module _ (keys : Keys Key) (json : Json) (topics : List Key) (taken : ReleaseSummary Key → Bool)
      (secret : Secret) (times : Times) where
    attach_subject-Whole :
        (m : Manifest) (r : BlobRef) (mt : Text) (blobs : List BlobRef) (box : Outbox Key)
        → Whole box
        → Whole
            (attach_subject hashes crypto keys json topics taken secret times m r mt blobs box).0
    unfolding attach_subject put_referrer IsSound IsAddressed blob_ref
    attach_subject-Whole m r mt blobs box w =
        Option-keeps {B = Outbox Key × Reply (Unit {0})} (λ o. Whole o.0) (subject m) _ _ w
          (λ d q.
            continue_with-keeps Whole _ _
              (state_internal-Whole
                (attach_referrer hashes crypto topics taken secret keys d.digest
                  (referrer_of m r mt) (r ∷ blobs) times.signed _)
                (attach_referrer-keeps hashes crypto topics taken secret
                  (λ b. IsWhole hashes content b.store)
                  (publish-keeps hashes crypto topics taken (IsWhole hashes content)
                    store_release-IsWhole (crypto.public_key secret))
                  keys d.digest (referrer_of m r mt) (r ∷ blobs) times.signed _ w))
              (λ n b w'. w'))

    publish_tag-Whole :
        (name reference : Text) (r : BlobRef) (blobs : List BlobRef) (box : Outbox Key)
        → Whole box
        → Whole
            (publish_tag hashes crypto keys json topics taken secret times name reference r blobs
              box).0
    unfolding publish_tag
    publish_tag-Whole name reference r blobs box w =
        Result-keeps {B = Outbox Key × Reply (Unit {0})} (λ o. Whole o.0) (parse_digest reference) _
          _
          (λ e.
            Result-keeps {B = Outbox Key × Reply (Unit {0})} (λ o. Whole o.0)
              (sign crypto secret
                (pushed_payload hashes crypto keys json topics taken secret times
                  (crypto.public_key secret) name reference r blobs)
                times.signed)
              _ _ (λ x. w)
              (λ release q.
                state_internal-Whole
                  (publish hashes crypto topics taken (crypto.public_key secret) release
                    times.written box)
                  (publish-keeps hashes crypto topics taken (IsWhole hashes content)
                    store_release-IsWhole (crypto.public_key secret) release times.written box w)))
          (λ d q. w)

    put_parsed-Whole :
        (path image reference : Text) (bytes : List ℕ) (m : Manifest) (mt : Text) (box : Outbox Key)
        → Whole box
        → Whole
            (put_parsed hashes crypto keys json topics taken secret times path image reference bytes
              m mt box).0
    unfolding put_parsed
    put_parsed-Whole path image reference bytes m mt box w =
        continue_with-keeps Whole (gather json m box) _ (gather-Whole json m box w) (λ blobs b1 w1.
          continue_with-keeps Whole (b1, check_reference reference (hashes.sha256 bytes)) _ w1
            (λ u b2 w2.
              continue_with-keeps Whole (put_manifest hashes bytes mt b2) _
                (put_manifest-Whole bytes mt b2 w2)
                (λ r b3 w3.
                  continue_with-keeps Whole
                    (attach_subject hashes crypto keys json topics taken secret times m r mt blobs
                      b3)
                    _ (attach_subject-Whole m r mt blobs b3 w3)
                    (λ u b4 w4.
                      continue_with-keeps Whole
                        (publish_tag hashes crypto keys json topics taken secret times image
                          reference r blobs b4)
                        _ (publish_tag-Whole image reference r blobs b4 w4) (λ u b5 w5. w5)))))

    pub manifest_put-IsWhole :
        (lookup : Lookup Key) (policy : Policy) (path reference : Text) (content_type : Option Text)
        (body : Option (List ℕ)) (box : Outbox Key)
        → IsWhole hashes content box.store
        → IsWhole hashes content
            (manifest_put hashes crypto keys json topics taken secret times lookup policy path
              reference content_type body box).0.store
    unfolding manifest_put
    manifest_put-IsWhole lookup policy path reference content_type body box w =
        continue_with-keeps Whole
          (box, resolve hashes keys lookup policy (crypto.public_key secret) path) _ w
          (λ found b w'.
            Bool-keeps {B = Outbox Key × Reply Response} (λ o. Whole o.0)
              (not (found.0 == crypto.public_key secret)) _ _ (λ c. w')
              (λ c.
                Option-keeps {B = Outbox Key × Reply Response} (λ o. Whole o.0) body _ _ w'
                  (λ bytes q.
                    Result-keeps {B = Outbox Key × Reply Response} (λ o. Whole o.0)
                      (parse_manifest json bytes (header_type content_type)) _ _ (λ e. w')
                      (λ m e. put_parsed-Whole path found.1 reference bytes m _ b w'))))

module _ {Key : Type 0} ⦃eq : Eq Key⦄ (hashes : Hashes) (keys : Keys Key) (lookup : Lookup Key)
    (policy : Policy) (me : Key) where
  delete_tags-IsSound :
      (p : Key) (n : Text) (ts : List Text) (st : Store Key)
      → IsSound hashes st
      → IsSound hashes (delete_tags hashes keys lookup policy me p n ts st).0
  unfolding delete_tags
  delete_tags-IsSound p n [] st s = s
  delete_tags-IsSound p n (t ∷ ts) st s =
      continue_with-keeps (IsSound hashes)
        (
          (remove_release keys policy me p n (some t) st).0,
          or_internal (remove_release keys policy me p n (some t) st).1,
        )
        _
        (remove_release-keeps keys (IsSound hashes) p n
          (λ st t h. drop_release-IsSound hashes st p n t h)
          (λ st h. sweep_blobs_locked-IsSound hashes keys false [] st h) policy me (some t) st s)
        (λ resp st' s'. delete_tags-IsSound p n ts st' s')

  pub manifest_delete-IsSound :
      (path reference : Text) (st : Store Key)
      → IsSound hashes st
      → IsSound hashes (manifest_delete hashes keys lookup policy me path reference st).0
  unfolding manifest_delete
  manifest_delete-IsSound path reference st s =
      continue_with-keeps (IsSound hashes) (st, resolve hashes keys lookup policy me path) _ s
        (λ found st1 s1.
          continue_with-keeps (IsSound hashes)
            (st1, doomed_tags hashes keys lookup policy me st1 found.0 found.1 reference) _ s1
            (λ tags st2 s2. delete_tags-IsSound found.0 found.1 tags st2 s2))
