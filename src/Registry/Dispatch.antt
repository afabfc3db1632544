-- ===== src/Registry/Dispatch.antt =====
-- Which request does what: `v2_dispatch` of crates/ocid/src/registry.rs.
pub mod Sound
use ocid.Prelude.{ℕ, Bool, true, false, Option, none, some, List, Eq}
use ocid.Text.{Text}
use ocid.Identity.{Keys}
use ocid.Oci.Manifest.{Json}
use ocid.Policy.Rules.{Policy}
use ocid.Release.{Referrer, ReleaseSummary, Crypto}
use ocid.Store.{Store, Hashes}
use ocid.Node.Commands.{Lookup}
use ocid.Node.Peers.{Peers}
use ocid.Node.Exchange.{Codec}
use ocid.Node.Publish.{Outbox}
use ocid.Node.Replicate.{Network}
use ocid.Registry.Http.{name_unknown, unsupported, Response, Reply, reply, fault, serve_with}
use ocid.Registry.Route.{Route, route}
use ocid.Registry.Uploads.{
  App, Body, upload_start, upload_patch, upload_put, upload_status, upload_cancel,
}
use ocid.Registry.Push.{Times, manifest_put, manifest_delete}
use ocid.Registry.Pull.{catalog, tags_list, referrers_get, blob_get, manifest_get}

pub data Method : Type 0 where
  get head put post patch delete other : Method

pub record Request : Type 0 where
  pub method : Method
  pub path : Text
  pub digest_query : Option Text
  pub artifact_query : Option Text
  pub range : Option Text
  pub content_type : Option Text
  pub body : Body
  pub manifest_body : Option (List ℕ)

pub data Answer : Type 0 where
  names : (listed : List Text) → Answer
  referrers : (listed : List Referrer) → Answer
  response : (value : Response) → Answer

-- What a request works with besides the state: the node's key, policy and peers, the libraries, the
-- outside, the clocks and the name of a new upload.
pub record World (Key Secret : Type 0) : Type 0 where
  pub hashes : Hashes
  pub crypto : Crypto Key Secret
  pub keys : Keys Key
  pub json : Json
  pub codec : Codec Key
  pub net : Network Key
  pub lookup : Lookup Key
  pub policy : Policy
  pub secret : Secret
  pub peers : Peers Key
  pub topics : List Key
  pub taken : ReleaseSummary Key → Bool
  pub times : Times
  pub fresh_id : Text

pub record Server (Key : Type 0) : Type 0 where
  pub app : App Key
  pub sent : List (ReleaseSummary Key)

module _ {Key : Type 0} where
  abbrev outbox_of : Server Key → Outbox Key
  outbox_of s = record { store = s.app.store; sent = s.sent }

  abbrev in_outbox : Server Key → Outbox Key × Reply Response → Server Key × Reply Answer
  in_outbox s (box, r) = (
    record s { app = record s.app { store = box.store }; sent = box.sent },
    serve_with r (λ x. reply (response x)),
  )

  abbrev in_app : Server Key → App Key × Reply Response → Server Key × Reply Answer
  in_app s (app, r) = (record s { app = app }, serve_with r (λ x. reply (response x)))

  abbrev in_store : Server Key → Store Key × Reply Response → Server Key × Reply Answer
  in_store s (st, r) =
      (record s { app = record s.app { store = st } }, serve_with r (λ x. reply (response x)))

module _ {Key Secret : Type 0} ⦃eq : Eq Key⦄ (w : World Key Secret) where
  abbrev me_of : Key
  me_of = w.crypto.public_key w.secret

  unfoldable pub on_manifest :
      Method → Text → Text → Request → Server Key → Server Key × Reply Answer
  unfolding manifest_get manifest_put manifest_delete
  on_manifest get name reference req s = in_store s (
      manifest_get w.hashes w.crypto w.keys w.codec w.net w.lookup w.policy me_of w.peers name
        reference false w.times.written s.app.store)
  on_manifest head name reference req s = in_store s (
      manifest_get w.hashes w.crypto w.keys w.codec w.net w.lookup w.policy me_of w.peers name
        reference true w.times.written s.app.store)
  on_manifest put name reference req s = in_outbox s (
      manifest_put w.hashes w.crypto w.keys w.json w.topics w.taken w.secret w.times w.lookup
        w.policy name reference req.content_type req.manifest_body (outbox_of s))
  on_manifest delete name reference req s =
      in_store s
        (manifest_delete w.hashes w.keys w.lookup w.policy me_of name reference s.app.store)
  on_manifest _ name reference req s = (s, fault 405 unsupported)

  unfoldable pub on_upload : Method → Text → Text → Request → Server Key → Server Key × Reply Answer
  unfolding upload_patch upload_put upload_status upload_cancel
  on_upload patch name id req s = in_app s (upload_patch s.app name id req.body)
  on_upload put name id req s =
      in_app s (upload_put w.hashes s.app name id req.digest_query req.body)
  on_upload get name id req s = in_app s (s.app, upload_status s.app name id)
  on_upload delete name id req s = in_app s (upload_cancel s.app id)
  on_upload _ name id req s = (s, fault 405 unsupported)

  unfoldable pub on_blob : Method → Text → Text → Request → Server Key → Server Key × Reply Answer
  unfolding blob_get
  on_blob get name digest req s = in_app s (
    s.app,
    blob_get w.hashes w.keys w.lookup w.policy me_of s.app.store name digest req.range false,
  )
  on_blob head name digest req s = in_app s (
    s.app,
    blob_get w.hashes w.keys w.lookup w.policy me_of s.app.store name digest req.range true,
  )
  on_blob _ name digest req s = (s, fault 405 unsupported)

  -- The routes that answer one method only.
  unfoldable pub on_list : Method → Route → Request → Server Key → Server Key × Reply Answer
  unfolding catalog tags_list referrers_get
  on_list get Route.catalog req s =
      (s, reply (names (catalog w.hashes w.keys w.lookup w.policy me_of s.app.store)))
  on_list get (Route.tags name) req s = (
    s,
    serve_with (tags_list w.hashes w.keys w.lookup w.policy me_of s.app.store name)
        (λ ts. reply (names ts)),
  )
  on_list get (Route.referrers name digest) req s = (
    s,
    serve_with
        (referrers_get w.hashes w.keys w.lookup w.policy me_of s.app.store name digest
          req.artifact_query)
        (λ rs. reply (referrers rs)),
  )
  on_list post (Route.upload_start name) req s = in_app s (
      upload_start w.hashes w.keys w.lookup w.policy me_of w.fresh_id s.app name req.digest_query
        req.body)
  on_list _ _ req s = (s, fault 404 name_unknown)

  unfoldable pub on_route : Route → Request → Server Key → Server Key × Reply Answer
  unfolding on_manifest on_upload on_blob on_list
  on_route (Route.manifest name reference) req s = on_manifest req.method name reference req s
  on_route (Route.upload name id) req s = on_upload req.method name id req s
  on_route (Route.blob name digest) req s = on_blob req.method name digest req s
  on_route r req s = on_list req.method r req s

  -- `v2_dispatch`
  unfoldable pub v2_dispatch : Request → Server Key → Server Key × Reply Answer
  unfolding route on_route
  v2_dispatch req s = elim (route req.path) [
    | none ↦ (s, fault 404 name_unknown)
    | some r ↦ on_route r req s
  ]
