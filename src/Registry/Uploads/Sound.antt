-- ===== src/Registry/Uploads/Sound.antt =====
-- What uploads (crates/ocid/src/registry.rs) do to the integrity of the store.
use ocid.Prelude.{
  ℕ, ◌≡◌, not, Option, none, some, List, ◌==◌, Eq, nat_eq, list_eq, arith, ok, Bool-cases,
  Bool-keeps, Option-keeps, inl, inr, Result-keeps, subst,
}
use ocid.Prelude.Map.{get}
use ocid.Text.{Text}
use ocid.Identity.{Keys}
use ocid.Oci.Digest.{Digest}
use ocid.Policy.Rules.{Policy}
use ocid.Release.{Hash, BlobRef}
use ocid.Store.{Store, Hashes, expected}
use ocid.Store.Put.{IsWhole, take_in-IsWhole}
use ocid.Node.Commands.{Lookup}
use ocid.Registry.Http.{Response, Reply, reply, refuse, continue_with}
use ocid.Registry.Uploads.{
  App, Body, wanted_digest, write_chunks, append_body, upload_patch, upload_cancel, put_blob_file,
  finish_upload, upload_put, resolve, upload_start,
}

pub continue_with-keeps :
    {S T U : Type 0} (P : S → Type 0) (out : S × Reply T) (f : T → S → S × Reply U)
    → P out.0
    → ((t : T) (st : S) → P st → P (f t st).0)
    → P (continue_with out f).0
continue_with-keeps P (st, reply t) f h k = k t st h
continue_with-keeps P (st, refuse e) f h k = h

module _ {Key : Type 0} where
  append_body-keeps :
      (P : Store Key → Type 0) (app : App Key) (id : Text) (body : Body)
      → P app.store
      → P (append_body app id body).0.store
  unfolding append_body
  append_body-keeps P app id body h =
      Option-keeps {B = App Key × Reply ℕ} (λ o. P o.0.store) (get id app.uploads) _ _ h
        (λ size q.
          Option-keeps {B = App Key × Reply ℕ} (λ o. P o.0.store) (get id app.files) _ _ h
            (λ file e.
              Bool-keeps {B = App Key × Reply ℕ} (λ o. P o.0.store) (write_chunks file body).1 _ _
                (λ c. h) (λ c. h)))

  pub upload_patch-keeps :
      (P : Store Key → Type 0) (app : App Key) (name id : Text) (body : Body)
      → P app.store
      → P (upload_patch app name id body).0.store
  unfolding upload_patch
  upload_patch-keeps P app name id body h =
      continue_with-keeps (λ a. P a.store) (append_body app id body) _
        (append_body-keeps P app id body h) (λ size a k. k)

  pub upload_cancel-keeps :
      (P : Store Key → Type 0) (app : App Key) (id : Text)
      → P app.store
      → P (upload_cancel app id).0.store
  unfolding upload_cancel
  upload_cancel-keeps P app id h =
      Option-keeps {B = App Key × Reply Response} (λ o. P o.0.store) (get id app.uploads) _ _ h
        (λ size q. h)

module _ {Key : Type 0} (hashes : Hashes) (content : Hash → List ℕ)
    (law : (b : List ℕ) → content (hashes.blake3 b) ≡ b) where
  put_blob_file-IsWhole :
      (st : Store Key) (file : Option (List ℕ)) (expect : Option Digest) (mt : Option Text)
      (out : Store Key × BlobRef)
      → put_blob_file hashes st file expect mt ≡ ok out
      → IsWhole hashes content st
      → IsWhole hashes content out.0
  unfolding put_blob_file
  put_blob_file-IsWhole st none expect mt out q w = absurd (cc)
  put_blob_file-IsWhole st (some bytes) expect mt out q w =
      elim (Bool-cases (expected expect (hashes.sha256 bytes))) [
        | inl e ↦
            subst (IsWhole hashes content) (ground arith)
              (take_in-IsWhole hashes content law st bytes mt w)
        | inr e ↦ absurd (ground arith)
      ]

  finish_upload-IsWhole :
      (app : App Key) (name id : Text) (d : Digest)
      → IsWhole hashes content app.store
      → IsWhole hashes content (finish_upload hashes app name id d).0.store
  unfolding finish_upload
  finish_upload-IsWhole app name id d w =
      Result-keeps {B = App Key × Reply Response} (λ o. IsWhole hashes content o.0.store)
        (put_blob_file hashes app.store (get id app.files) (some d) none) _ _ (λ e. w)
        (λ out q. put_blob_file-IsWhole app.store (get id app.files) (some d) none out q w)

  pub upload_put-IsWhole :
      (app : App Key) (name id : Text) (query : Option Text) (body : Body)
      → IsWhole hashes content app.store
      → IsWhole hashes content (upload_put hashes app name id query body).0.store
  unfolding upload_put
  upload_put-IsWhole app name id query body w =
      continue_with-keeps (λ a. IsWhole hashes content a.store) (app, wanted_digest query) _ w
        (λ d a w'.
          continue_with-keeps (λ a. IsWhole hashes content a.store) (append_body a id body) _
            (append_body-keeps (IsWhole hashes content) a id body w')
            (λ size b w''.
              Option-keeps {B = App Key × Reply Response} (λ o. IsWhole hashes content o.0.store)
                (get id b.uploads) _ _ w'' (λ n q. finish_upload-IsWhole b name id d w'')))

  pub upload_start-IsWhole :
      ⦃eq : Eq Key⦄ (keys : Keys Key) (lookup : Lookup Key) (policy : Policy) (me : Key) (id : Text)
      (app : App Key) (name : Text) (query : Option Text) (body : Body)
      → IsWhole hashes content app.store
      → IsWhole hashes content
          (upload_start hashes keys lookup policy me id app name query body).0.store
  unfolding upload_start
  upload_start-IsWhole keys lookup policy me id app name query body w =
      continue_with-keeps (λ a. IsWhole hashes content a.store)
        (app, resolve hashes keys lookup policy me name) _ w
        (λ found a w'.
          Bool-keeps {B = App Key × Reply Response} (λ o. IsWhole hashes content o.0.store)
            (not (found.0 == me)) _ _ (λ c. w')
            (λ c.
              Option-keeps {B = App Key × Reply Response} (λ o. IsWhole hashes content o.0.store)
                query _ _ w' (λ d q. upload_put-IsWhole _ name id (some d) body w')))
