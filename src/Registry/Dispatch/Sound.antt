-- ===== src/Registry/Dispatch/Sound.antt =====
-- What a request to the registry (`v2_dispatch` of crates/ocid/src/registry.rs) does to the integrity
-- of the store.
use ocid.Prelude.{
  ℕ, ◌≡◌, Bool, true, false, Option, none, some, List, Eq, Result, ok, err, Option-keeps,
  Result-keeps,
}
use ocid.Text.{Text}
use ocid.Identity.{Keys}
use ocid.Oci.Digest.{parse_digest}
use ocid.Oci.Name.{validate_tag}
use ocid.Policy.Rules.{Policy}
use ocid.Release.{Hash, BlobRef, Release, Crypto}
use ocid.Store.{Store, Hashes}
use ocid.Store.Sound.{IsSound, fetch_release-IsSound}
use ocid.Store.Succeeds.{IsAddressed}
use ocid.Store.Put.{IsWhole}
use ocid.Node.Commands.{Lookup}
use ocid.Node.Sound.{enforce_window-IsSound}
use ocid.Node.Peers.{Peers}
use ocid.Node.Exchange.{Codec}
use ocid.Node.Replicate.{Network, get_or_fetch}
use ocid.Node.Replicate.Keeps.{get_or_fetch-keeps}
use ocid.Registry.Http.{tag_invalid, Reply, or_fault}
use ocid.Registry.Route.{Route, route}
use ocid.Registry.Uploads.{resolve}
use ocid.Registry.Uploads.Sound.{
  continue_with-keeps, upload_patch-keeps, upload_cancel-keeps, upload_put-IsWhole,
  upload_start-IsWhole,
}
use ocid.Registry.Push.Sound.{manifest_put-IsWhole, manifest_delete-IsSound}
use ocid.Registry.Pull.{held_ref, found_manifest, manifest_ref, manifest_get}
use ocid.Registry.Dispatch
use ocid.Registry.Dispatch.{
  Method, get, head, put, post, patch, delete, Request, Answer, World, Server, on_manifest,
  on_upload, on_blob, on_list, on_route, v2_dispatch,
}

module _ {Key Secret : Type 0} ⦃eq : Eq Key⦄ (hashes : Hashes) (crypto : Crypto Key Secret)
    (keys : Keys Key) (codec : Codec Key) (net : Network Key) (lookup : Lookup Key)
    (policy : Policy) (me : Key) (peers : Peers Key) where
  found_manifest-IsSound :
      (out : Store Key × Result (Option (Release Key)))
      → IsSound hashes out.0
      → IsSound hashes (found_manifest hashes crypto keys codec net lookup policy me peers out).0
  found_manifest-IsSound (st, err e) s = s
  found_manifest-IsSound (st, ok none) s = s
  found_manifest-IsSound (st, ok (some r)) s = s

  manifest_ref-IsSound :
      (p : Key) (name reference : Text) (now : ℕ) (st : Store Key)
      → IsSound hashes st
      → IsSound hashes
          (manifest_ref hashes crypto keys codec net lookup policy me peers p name reference now
            st).0
  unfolding manifest_ref
  manifest_ref-IsSound p name reference now st s =
      Result-keeps {B = Store Key × Reply BlobRef} (λ o. IsSound hashes o.0)
        (parse_digest reference) _ _
        (λ e.
          continue_with-keeps (IsSound hashes)
            (st, or_fault (validate_tag reference) 400 tag_invalid) _ s
            (λ u st' s'.
              found_manifest-IsSound
                (get_or_fetch hashes crypto keys codec net me peers p name reference now st')
                (get_or_fetch-keeps hashes crypto keys codec net me policy (IsSound hashes)
                  (λ st r ps now h.
                    fetch_release-IsSound hashes crypto net.download me st r ps now h)
                  (λ st p n h. enforce_window-IsSound hashes keys policy me st p n h) peers p name
                  reference now st' s')))
        (λ d q.
          Option-keeps {B = Store Key × Reply BlobRef} (λ o. IsSound hashes o.0) (held_ref st d) _ _
            s (λ b e. s))

  manifest_get-IsSound :
      (path reference : Text) (is_head : Bool) (now : ℕ) (st : Store Key)
      → IsSound hashes st
      → IsSound hashes
          (manifest_get hashes crypto keys codec net lookup policy me peers path reference is_head
            now st).0
  unfolding manifest_get
  manifest_get-IsSound path reference is_head now st s =
      continue_with-keeps (IsSound hashes) (st, resolve hashes keys lookup policy me path) _ s
        (λ found st1 s1.
          continue_with-keeps (IsSound hashes)
            (manifest_ref hashes crypto keys codec net lookup policy me peers found.0 found.1
              reference now st1)
            _ (manifest_ref-IsSound found.0 found.1 reference now st1 s1) (λ blob st2 s2. s2))

module _ {Key Secret : Type 0} ⦃eq : Eq Key⦄ (w : World Key Secret) (content : Hash → List ℕ)
    (law : (b : List ℕ) → content (w.hashes.blake3 b) ≡ b) where
  abbrev Kept : Server Key × Reply Answer → Type 0
  Kept out = IsSound w.hashes out.0.app.store

  on_manifest-IsSound :
      (m : Method) (name reference : Text) (req : Request) (s : Server Key)
      → IsWhole w.hashes content s.app.store
      → Kept (on_manifest w m name reference req s)
  unfolding on_manifest
  on_manifest-IsSound get name reference req s h =
      manifest_get-IsSound w.hashes w.crypto w.keys w.codec w.net w.lookup w.policy
        (w.crypto.public_key w.secret) w.peers name reference false w.times.written s.app.store h.0
  on_manifest-IsSound head name reference req s h =
      manifest_get-IsSound w.hashes w.crypto w.keys w.codec w.net w.lookup w.policy
        (w.crypto.public_key w.secret) w.peers name reference true w.times.written s.app.store h.0
  on_manifest-IsSound put name reference req s h =
      (manifest_put-IsWhole w.hashes w.crypto content law w.keys w.json w.topics w.taken w.secret
        w.times w.lookup w.policy name reference req.content_type req.manifest_body
        (record { store = s.app.store; sent = s.sent }) h).0
  on_manifest-IsSound delete name reference req s h =
      manifest_delete-IsSound w.hashes w.keys w.lookup w.policy (w.crypto.public_key w.secret) name
        reference s.app.store h.0
  on_manifest-IsSound post name reference req s h = h.0
  on_manifest-IsSound patch name reference req s h = h.0
  on_manifest-IsSound Dispatch.other name reference req s h = h.0

  on_upload-IsSound :
      (m : Method) (name id : Text) (req : Request) (s : Server Key)
      → IsWhole w.hashes content s.app.store
      → Kept (on_upload w m name id req s)
  unfolding on_upload
  on_upload-IsSound patch name id req s h =
      upload_patch-keeps (IsSound w.hashes) s.app name id req.body h.0
  on_upload-IsSound put name id req s h =
      (upload_put-IsWhole w.hashes content law s.app name id req.digest_query req.body h).0
  on_upload-IsSound get name id req s h = h.0
  on_upload-IsSound delete name id req s h = upload_cancel-keeps (IsSound w.hashes) s.app id h.0
  on_upload-IsSound head name id req s h = h.0
  on_upload-IsSound post name id req s h = h.0
  on_upload-IsSound Dispatch.other name id req s h = h.0

  on_blob-IsSound :
      (m : Method) (name digest : Text) (req : Request) (s : Server Key)
      → IsSound w.hashes s.app.store
      → Kept (on_blob w m name digest req s)
  unfolding on_blob
  on_blob-IsSound get name digest req s h = h
  on_blob-IsSound head name digest req s h = h
  on_blob-IsSound put name digest req s h = h
  on_blob-IsSound post name digest req s h = h
  on_blob-IsSound patch name digest req s h = h
  on_blob-IsSound delete name digest req s h = h
  on_blob-IsSound Dispatch.other name digest req s h = h

  on_list-IsSound :
      (m : Method) (r : Route) (req : Request) (s : Server Key)
      → IsWhole w.hashes content s.app.store
      → Kept (on_list w m r req s)
  unfolding on_list
  on_list-IsSound get Route.catalog req s h = h.0
  on_list-IsSound get (Route.tags name) req s h = h.0
  on_list-IsSound get (Route.manifest name reference) req s h = h.0
  on_list-IsSound get (Route.upload_start name) req s h = h.0
  on_list-IsSound get (Route.upload name id) req s h = h.0
  on_list-IsSound get (Route.blob name digest) req s h = h.0
  on_list-IsSound get (Route.referrers name digest) req s h = h.0
  on_list-IsSound post Route.catalog req s h = h.0
  on_list-IsSound post (Route.tags name) req s h = h.0
  on_list-IsSound post (Route.manifest name reference) req s h = h.0
  on_list-IsSound post (Route.upload_start name) req s h =
      (upload_start-IsWhole w.hashes content law w.keys w.lookup w.policy
        (w.crypto.public_key w.secret) w.fresh_id s.app name req.digest_query req.body h).0
  on_list-IsSound post (Route.upload name id) req s h = h.0
  on_list-IsSound post (Route.blob name digest) req s h = h.0
  on_list-IsSound post (Route.referrers name digest) req s h = h.0
  on_list-IsSound head r req s h = h.0
  on_list-IsSound put r req s h = h.0
  on_list-IsSound patch r req s h = h.0
  on_list-IsSound delete r req s h = h.0
  on_list-IsSound Dispatch.other r req s h = h.0

  on_route-IsSound :
      (r : Route) (req : Request) (s : Server Key)
      → IsWhole w.hashes content s.app.store
      → Kept (on_route w r req s)
  unfolding on_route
  on_route-IsSound Route.catalog req s h = on_list-IsSound req.method Route.catalog req s h
  on_route-IsSound (Route.tags name) req s h = on_list-IsSound req.method (Route.tags name) req s h
  on_route-IsSound (Route.manifest name reference) req s h =
      on_manifest-IsSound req.method name reference req s h
  on_route-IsSound (Route.upload_start name) req s h =
      on_list-IsSound req.method (Route.upload_start name) req s h
  on_route-IsSound (Route.upload name id) req s h = on_upload-IsSound req.method name id req s h
  on_route-IsSound (Route.blob name digest) req s h =
      on_blob-IsSound req.method name digest req s h.0
  on_route-IsSound (Route.referrers name digest) req s h =
      on_list-IsSound req.method (Route.referrers name digest) req s h

  -- Whatever request a registry gets, and also where it fails halfway: if every index entry stands
  -- under its digest, is pinned and is backed by data of that digest and size, then it does so
  -- afterwards, provided that different data has different BLAKE3 hashes and that before the request
  -- data was held under its own hash only.
  pub v2_dispatch-IsSound :
      (req : Request) (s : Server Key)
      → IsSound w.hashes s.app.store
      → IsAddressed content s.app.store
      → IsSound w.hashes (v2_dispatch w req s).0.app.store
  unfolding v2_dispatch
  v2_dispatch-IsSound req s h a =
      Option-keeps Kept (route req.path) _ _ h (λ r q. on_route-IsSound r req s (h, a))
