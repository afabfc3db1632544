-- ===== src/Registry/Uploads.antt =====
-- Blob uploads: `upload_start`, `append_body`, `upload_patch`, `upload_put`, `upload_status` and
-- `upload_cancel` of crates/ocid/src/registry.rs, and `put_blob_file` of crates/ocid/src/store.rs.
pub mod Session
pub mod Sound
use ocid.Prelude.{
  ℕ, ◌+◌, ◌-◌, ◌≡◌, Bool, true, false, not, Option, none, some, List, [], ◌∷◌, ◌++◌, if◌then◌else◌,
  ◌==◌, Eq, nat_eq, list_eq, length, Error, io, digest_mismatch, Result, ok, err, ◌>>=◌, ◌>>◌,
  ensure, or_err,
}
use ocid.Prelude.Map.{Map, get, insert, remove}
use ocid.Text.{Text, txt}
use ocid.Text.Decimal.{show_nat}
use ocid.Identity.{Keys}
use ocid.Oci.Digest.{Digest, parse_digest}
use ocid.Oci.Reference.{resolve_repo}
use ocid.Policy.Rules.{Policy}
use ocid.Release.{BlobRef}
use ocid.Store.{Store, Hashes, expected, record_blob}
use ocid.Node.Commands.{Lookup, rewrite_dns_publisher}
use ocid.Registry.Http.{
  Code, name_invalid, digest_invalid, blob_upload_unknown, denied, unsupported, Response, plain,
  Reply, reply, fault, internal, or_fault, serve_with, continue_with,
}

-- `App`: the uploads with their sizes, and the files that they are written to, by their ids.
pub record App (Key : Type 0) : Type 0 where
  pub store : Store Key
  pub uploads : Map Text ℕ
  pub files : Map Text (List ℕ)

-- The chunks of a request's body; `none` where reading it fails.
abbrev pub Body : Type 0
Body = List (Option (List ℕ))

-- The loop over the chunks: the file, and whether the whole body was read.
unfoldable pub write_chunks : List ℕ → Body → List ℕ × Bool
write_chunks file [] = (file, true)
write_chunks file (none ∷ chunks) = (file, false)
write_chunks file (some chunk ∷ chunks) = write_chunks (file ++ chunk) chunks

unfoldable pub upload_location : Text → Text → Text
upload_location name id = txt "/v2/" ++ (name ++ (txt "/blobs/uploads/" ++ id))

-- `0-{}` with the position of the last byte, and 0 where there is none
unfoldable pub range_text : ℕ → Text
unfolding show_nat
range_text size = txt "0-" ++ show_nat (size - 1)

module _ {Key : Type 0} where
  unfoldable pub append_body : App Key → Text → Body → App Key × Reply ℕ
  unfolding write_chunks
  append_body app id body = elim (get id app.uploads) [
    | none ↦ (app, fault 404 blob_upload_unknown)
    | some size ↦ elim (get id app.files) [
      | none ↦ (app, internal)
      | some file ↦
          let out = write_chunks file body in
          let written = record app { files = insert id out.0 app.files } in
          if out.1
          then (
            record written { uploads = insert id (length out.0) app.uploads },
            reply (length out.0),
          )
          else (written, fault 400 unsupported)
    ]
  ]

  unfoldable pub upload_patch : App Key → Text → Text → Body → App Key × Reply Response
  unfolding append_body upload_location range_text
  upload_patch app name id body = continue_with (append_body app id body) (λ size app'. (
    app',
    reply (record (plain 202) {
      location = some (upload_location name id);
      range = some (range_text size);
      size = some 0;
    }),
  ))

  unfoldable pub upload_status : App Key → Text → Text → Reply Response
  unfolding upload_location range_text
  upload_status app name id = elim (get id app.uploads) [
    | none ↦ fault 404 blob_upload_unknown
    | some size ↦ reply (record (plain 204) {
      location = some (upload_location name id);
      range = some (range_text size);
    })
  ]

  unfoldable pub upload_cancel : App Key → Text → App Key × Reply Response
  upload_cancel app id = elim (get id app.uploads) [
    | none ↦ (app, reply (plain 204))
    | some size ↦ (
      record app { uploads = remove id app.uploads; files = remove id app.files },
      reply (plain 204),
    )
  ]

unfoldable pub wanted_digest : Option Text → Reply Digest
unfolding parse_digest
wanted_digest none = fault 400 digest_invalid
wanted_digest (some text) = or_fault (parse_digest text) 400 digest_invalid

abbrev pub created : Text → Digest → Response
created name digest = record (plain 201) {
  location = some (txt "/v2/" ++ (name ++ (txt "/blobs/" ++ digest)));
  digest = some digest;
  size = some 0;
}

module _ {Key : Type 0} (hashes : Hashes) where
  -- `Store::put_blob_file`: a file that was taken in is removed.
  unfoldable pub put_blob_file :
      Store Key → Option (List ℕ) → Option Digest → Option Text → Result (Store Key × BlobRef)
  unfolding record_blob
  put_blob_file st file expect media_type = do
    bytes ← or_err file io
    let digest = hashes.sha256 bytes
    ensure (expected expect digest) digest_mismatch
    let r : BlobRef = record {
      digest = digest;
      hash = hashes.blake3 bytes;
      size = length bytes;
      media_type = media_type;
    }
    ok (record_blob (record st { blobs = insert (hashes.blake3 bytes) bytes st.blobs }) r, r)

  -- The end of `upload_put`: the upload is over, whether its digest is right or not.
  unfoldable pub finish_upload : App Key → Text → Text → Digest → App Key × Reply Response
  unfolding put_blob_file
  finish_upload app name id digest =
      let over = record app { uploads = remove id app.uploads; files = remove id app.files } in
      elim (put_blob_file app.store (get id app.files) (some digest) none) [
        | err e ↦ (over, fault 400 digest_invalid)
        | ok out ↦ (record over { store = out.0 }, reply (created name out.1.digest))
      ]

  unfoldable pub upload_put : App Key → Text → Text → Option Text → Body → App Key × Reply Response
  unfolding wanted_digest append_body finish_upload
  upload_put app name id query body =
      continue_with (app, wanted_digest query)
        (λ digest app. continue_with (append_body app id body) (λ size app'.
          elim (get id app'.uploads) [
            | none ↦ (app', fault 404 blob_upload_unknown)
            | some n ↦ finish_upload app' name id digest
          ]))

module _ {Key : Type 0} ⦃eq : Eq Key⦄ (hashes : Hashes) (keys : Keys Key) where
  -- `resolve`, for the node with key `me`
  unfoldable pub resolve : Lookup Key → Policy → Key → Text → Reply (Key × Text)
  unfolding rewrite_dns_publisher resolve_repo
  resolve lookup policy me name =
      serve_with (or_fault (rewrite_dns_publisher keys lookup name) 400 name_invalid)
        (λ text. or_fault (resolve_repo keys policy me text) 400 name_invalid)

  -- `upload_start`; `id` is the new name (a UUID)
  unfoldable pub upload_start :
      Lookup Key
      → Policy
      → Key
      → Text
      → App Key
      → Text
      → Option Text
      → Body
      → App Key × Reply Response
  unfolding resolve upload_put upload_location
  upload_start lookup policy me id app name query body =
      continue_with (app, resolve lookup policy me name)
        (λ found app.
          let started = record app {
            uploads = insert id 0 app.uploads;
            files = insert id [] app.files;
          } in
          if not (found.0 == me) then (app, fault 403 denied) else elim query [
            | some digest ↦ upload_put hashes started name id (some digest) body
            | none ↦ (
              started,
              reply (record (plain 202) {
                location = some (upload_location name id);
                range = some (txt "0-0");
                size = some 0;
              }),
            )
          ])
