-- ===== src/Registry/Uploads/Session.antt =====
-- An upload from its start to its end (crates/ocid/src/registry.rs).
use ocid.Prelude.{
  ℕ, ◌≡◌, refl, subst, sym, ap, ◌∙◌, true, Option, none, some, List, [], ◌∷◌, ◌++◌, arith, nat_eq,
  list_eq, length, append_assoc, append-nil, Result, ok, err, Option-cases, Result-cases, inl, inr,
}
use ocid.Prelude.Map.{get, insert, get-insert, get-remove}
use ocid.Text.{Text}
use ocid.Oci.Digest.{Digest, parse_digest}
use ocid.Release.{BlobRef}
use ocid.Store.{Store, Hashes, put_blob_bytes}
use ocid.Registry.Http.{digest_invalid, Response, Reply, reply, refuse, fault, continue_with}
use ocid.Registry.Uploads.{
  App, Body, write_chunks, append_body, upload_patch, put_blob_file, wanted_digest, created,
  finish_upload, upload_put,
}

-- The bytes of a body, if all of it can be read.
unfoldable pub arrived : Body → Option (List ℕ)
arrived [] = some []
arrived (none ∷ chunks) = none
arrived (some chunk ∷ chunks) = elim (arrived chunks) [
  | none ↦ none
  | some rest ↦ some (chunk ++ rest)
]

-- The bytes of the bodies, one after the other.
unfoldable pub all_arrived : List Body → Option (List ℕ)
unfolding arrived
all_arrived [] = some []
all_arrived (body ∷ bodies) = elim (arrived body) [
  | none ↦ none
  | some bytes ↦ elim (all_arrived bodies) [ none ↦ none | some rest ↦ some (bytes ++ rest) ]
]

write_chunks-arrived :
    (file : List ℕ) (body : Body) (bytes : List ℕ)
    → arrived body ≡ some bytes
    → write_chunks file body ≡ (file ++ bytes, true)
unfolding arrived write_chunks
write_chunks-arrived file [] bytes h = ground (arith, append-nil file)
write_chunks-arrived file (none ∷ chunks) bytes h = absurd (cc)
write_chunks-arrived file (some chunk ∷ chunks) bytes h = elim (Option-cases (arrived chunks)) [
  | inl n ↦ absurd (ground arith)
  | inr (rest, q) ↦
      let e : chunk ++ rest ≡ bytes = ground arith in
      write_chunks-arrived (file ++ chunk) chunks rest q
      ∙ ap (λ f. (f, true)) (append_assoc file chunk rest ∙ ap (λ x. file ++ x) e)
]

module _ {Key : Type 0} where
  -- The app after a body was appended to the file.
  abbrev appended : App Key → Text → List ℕ → App Key
  appended app id file = record app {
    uploads = insert id (length file) app.uploads;
    files = insert id file app.files;
  }

  append_body-arrived :
      (app : App Key) (id : Text) (n : ℕ) (file : List ℕ) (body : Body) (bytes : List ℕ)
      → get id app.uploads ≡ some n
      → get id app.files ≡ some file
      → arrived body ≡ some bytes
      → append_body app id body ≡ (appended app id (file ++ bytes), reply (length (file ++ bytes)))
  unfolding append_body
  append_body-arrived app id n file body bytes u f a =
      ground (arith, write_chunks-arrived file body bytes a)

  -- The uploads of one client, one after the other.
  unfoldable pub patch_all : App Key → Text → Text → List Body → App Key
  unfolding upload_patch
  patch_all app name id [] = app
  patch_all app name id (body ∷ bodies) = patch_all (upload_patch app name id body).0 name id bodies

  -- The upload of `id` has the file, and the store is the one it was.
  Holds : App Key → Text → List ℕ → Store Key → Type 0
  Holds app id file st =
      ((n : ℕ) × (get id app.uploads ≡ some n)) × (get id app.files ≡ some file) × (app.store ≡ st)

  after_reply :
      (out : App Key × Reply ℕ) (g : ℕ → Response)
      → (continue_with out (λ size app. (app, reply (g size)))).0 ≡ out.0
  after_reply (app, reply size) g = refl
  after_reply (app, refuse error) g = refl

  upload_patch_app :
      (app : App Key) (name id : Text) (body : Body)
      → (upload_patch app name id body).0 ≡ (append_body app id body).0
  unfolding upload_patch
  upload_patch_app app name id body = after_reply (append_body app id body) _

  upload_patch-Holds :
      (app : App Key) (name id : Text) (file : List ℕ) (st : Store Key) (body : Body)
      (bytes : List ℕ)
      → arrived body ≡ some bytes
      → Holds app id file st
      → Holds (upload_patch app name id body).0 id (file ++ bytes) st
  unfolding Holds
  upload_patch-Holds app name id file st body bytes a (u, f, s) =
      let e : (upload_patch app name id body).0 ≡ appended app id (file ++ bytes) =
        upload_patch_app app name id body
        ∙ ap (λ o. o.0) (append_body-arrived app id u.0 file body bytes u.1 f a) in
      (
        (
          length (file ++ bytes),
          ap (λ x. get id x.uploads) e
              ∙ ground (arith, get-insert id id (length (file ++ bytes)) app.uploads),
        ),
        ap (λ x. get id x.files) e ∙ ground (arith, get-insert id id (file ++ bytes) app.files),
        ap (λ x. x.store) e ∙ s,
      )

  patch_all-Holds :
      (app : App Key) (name id : Text) (file : List ℕ) (st : Store Key) (bodies : List Body)
      (bytes : List ℕ)
      → all_arrived bodies ≡ some bytes
      → Holds app id file st
      → Holds (patch_all app name id bodies) id (file ++ bytes) st
  unfolding patch_all all_arrived
  patch_all-Holds app name id file st [] bytes a h =
      subst (λ f. Holds app id f st) (sym (append-nil file) ∙ ap (λ x. file ++ x) (ground arith)) h
  patch_all-Holds app name id file st (body ∷ bodies) bytes a h =
      elim (Option-cases (arrived body)) [
        | inl n ↦ absurd (ground arith)
        | inr (first, q) ↦ elim (Option-cases (all_arrived bodies)) [
          | inl n ↦ absurd (ground arith)
          | inr (rest, w) ↦
              let e : first ++ rest ≡ bytes = ground arith in
              subst
                (λ f. Holds (patch_all (upload_patch app name id body).0 name id bodies) id f st)
                (append_assoc file first rest ∙ ap (λ x. file ++ x) e)
                (patch_all-Holds (upload_patch app name id body).0 name id (file ++ first) st bodies
                  rest w (upload_patch-Holds app name id file st body first q h))
        ]
      ]

module _ {Key : Type 0} (hashes : Hashes) where
  put_blob_file_lem :
      (st : Store Key) (bytes : List ℕ) (expect : Option Digest) (media_type : Option Text)
      → put_blob_file hashes st (some bytes) expect media_type
        ≡ put_blob_bytes hashes st bytes expect media_type
  unfolding put_blob_file put_blob_bytes
  put_blob_file_lem st bytes expect media_type = refl

  upload_put_form :
      (app : App Key) (name id text : Text) (n : ℕ) (file : List ℕ) (last : Body) (rest : List ℕ)
      (d : Digest)
      → get id app.uploads ≡ some n
      → get id app.files ≡ some file
      → arrived last ≡ some rest
      → parse_digest text ≡ ok d
      → upload_put hashes app name id (some text) last
        ≡ finish_upload hashes (appended app id (file ++ rest)) name id d
  unfolding upload_put wanted_digest
  upload_put_form app name id text n file last rest d u f l p = ground (
    arith,
    append_body-arrived app id n file last rest u f l,
    get-insert id id (length (file ++ rest)) app.uploads,
  )

  -- The store and the answer at the end of an upload, when putting its bytes into `st` came to `put`.
  abbrev pub settled : Store Key → Text → Result (Store Key × BlobRef) → Store Key × Reply Response
  settled st name (ok (st', b)) = (st', reply (created name b.digest))
  settled st name (err e) = (st, fault 400 digest_invalid)

  Completed :
      Store Key → Text → Text → Result (Store Key × BlobRef) → App Key × Reply Response → Type 0
  Completed st name id put out =
      ((out.0.store, out.1) ≡ settled st name put)
      × (get id out.0.uploads ≡ none)
      × (get id out.0.files ≡ none)

  finish_upload-Completed :
      (app : App Key) (name id : Text) (bytes : List ℕ) (d : Digest)
      → get id app.files ≡ some bytes
      → Completed app.store name id
          (put_blob_bytes hashes app.store bytes (some d) none)
          (finish_upload hashes app name id d)
  unfolding Completed finish_upload
  finish_upload-Completed app name id bytes d f =
      let same = put_blob_file_lem app.store bytes (some d) none in
      let gone = get-remove id id app.uploads in
      let erased = get-remove id id app.files in
      elim (Result-cases (put_blob_bytes hashes app.store bytes (some d) none)) [
        | inl (out, q) ↦ (
          ground (arith, same, f),
          ground (arith, same, f, gone),
          ground (arith, same, f, erased),
        )
        | inr (e, q) ↦ (
          ground (arith, same, f),
          ground (arith, same, f, gone),
          ground (arith, same, f, erased),
        )
      ]

  -- However a blob is cut into bodies and chunks: if all of them can be read, an upload that has the
  -- file `file` and is completed with the digest `d` does to the store what putting all bytes at
  -- once under that digest does, refuses the request if that fails, and is over in both cases.
  pub upload_session :
      (app : App Key) (name id text : Text) (n : ℕ) (file : List ℕ) (bodies : List Body)
      (last : Body) (bytes rest : List ℕ) (d : Digest)
      → get id app.uploads ≡ some n
      → get id app.files ≡ some file
      → all_arrived bodies ≡ some bytes
      → arrived last ≡ some rest
      → parse_digest text ≡ ok d
      → ((
        (upload_put hashes (patch_all app name id bodies) name id (some text) last).0.store,
        (upload_put hashes (patch_all app name id bodies) name id (some text) last).1,
      )
          ≡ settled app.store name
              (put_blob_bytes hashes app.store ((file ++ bytes) ++ rest) (some d) none))
        × (get id
              (upload_put hashes (patch_all app name id bodies) name id (some text) last).0.uploads
            ≡ none)
        × (get id
              (upload_put hashes (patch_all app name id bodies) name id (some text) last).0.files
            ≡ none)
  unfolding Holds Completed
  upload_session app name id text n file bodies last bytes rest d u f a l p =
      let h = patch_all-Holds app name id file app.store bodies bytes a ((n, u), f, refl) in
      let app' = patch_all app name id bodies in
      let all_bytes : List ℕ = (file ++ bytes) ++ rest in
      let form =
        upload_put_form app' name id text h.0.0 (file ++ bytes) last rest d h.0.1 h.1 l p in
      let here = appended app' id all_bytes in
      let there : get id here.files ≡ some all_bytes =
        ground (arith, get-insert id id all_bytes app'.files) in
      let over = finish_upload-Completed here name id all_bytes d there in
      subst
        (λ st.
          Completed st name id (put_blob_bytes hashes st all_bytes (some d) none)
            (upload_put hashes app' name id (some text) last))
        h.2
        (subst
          (λ o.
            Completed app'.store name id (put_blob_bytes hashes app'.store all_bytes (some d) none)
              o)
          (sym form) over)
