-- ===== src/Registry/Http.antt =====
-- Responses and errors: `OciError` of crates/ocid/src/registry.rs. The message of an error is not
-- modelled, nor are the headers ETag, OCI-Subject, OCI-Filters-Applied and Docker-Upload-UUID, and
-- those that are the same on every response.
use ocid.Prelude.{ℕ, Option, none, List, [], ok, err, Result}
use ocid.Text.{Text}

pub data Code : Type 0 where
  name_invalid name_unknown tag_invalid digest_invalid : Code
  manifest_unknown manifest_invalid manifest_blob_unknown : Code
  blob_unknown blob_upload_unknown denied unsupported unknown : Code

pub record OciError : Type 0 where
  pub status : ℕ
  pub code : Code

-- The status, and the headers and the body as far as a request sets them.
pub record Response : Type 0 where
  pub status : ℕ
  pub location : Option Text
  pub range : Option Text
  pub digest : Option Text
  pub media_type : Option Text
  pub size : Option ℕ
  pub body : List ℕ

abbrev pub plain : ℕ → Response
plain status = record {
  status = status;
  location = none;
  range = none;
  digest = none;
  media_type = none;
  size = none;
  body = [];
}

-- `std::result::Result<T, OciError>`
pub data Reply (T : Type 0) : Type 0 where
  reply : (value : T) → Reply T
  refuse : (error : OciError) → Reply T

abbrev pub fault : {T : Type 0} → ℕ → Code → Reply T
fault status code = refuse (record { status = status; code = code })

-- `OciError::internal`
abbrev pub internal : {T : Type 0} → Reply T
internal = fault 500 unknown

-- `?` on an `anyhow::Result`
abbrev pub or_internal : {T : Type 0} → Result T → Reply T
or_internal (ok value) = reply value
or_internal (err e) = internal

-- `map_err` to an error of a request
abbrev pub or_fault : {T : Type 0} → Result T → ℕ → Code → Reply T
or_fault (ok value) status code = reply value
or_fault (err e) status code = fault status code

-- What goes on with the value, unless the request was refused.
abbrev pub serve_with : {T U : Type 0} → Reply T → (T → Reply U) → Reply U
serve_with (reply value) f = f value
serve_with (refuse error) f = refuse error

-- The same with a state that stays where a call left it.
abbrev pub continue_with : {S T U : Type 0} → S × Reply T → (T → S → S × Reply U) → S × Reply U
continue_with (st, reply value) f = f value st
continue_with (st, refuse error) f = (st, refuse error)
