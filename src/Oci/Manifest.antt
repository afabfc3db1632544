-- ===== src/Oci/Manifest.antt =====
-- Manifests: `Descriptor`, `ImageManifest`, `ImageIndex` and `Manifest` of
-- crates/ocid-core/src/oci.rs. Reading JSON is a library's work, so it is a parameter, `Json`.
use ocid.Prelude.{
  ℕ, Bool, ◌&&◌, ◌||◌, Option, none, some, List, [], ◌∷◌, if◌then◌else◌, ◌==◌, nat_eq, list_eq,
  not_json, bad_manifest, Result, ok, ◌>>=◌, ◌>>◌, ensure, or_err,
}
use ocid.Prelude.Map.{Map}
use ocid.Text.{Text, txt, is_empty}
use ocid.Oci.Digest.{Digest}

abbrev pub mt_oci_manifest : Text
mt_oci_manifest = txt "application/vnd.oci.image.manifest.v1+json"

abbrev pub mt_oci_index : Text
mt_oci_index = txt "application/vnd.oci.image.index.v1+json"

abbrev pub mt_docker_manifest : Text
mt_docker_manifest = txt "application/vnd.docker.distribution.manifest.v2+json"

abbrev pub mt_docker_list : Text
mt_docker_list = txt "application/vnd.docker.distribution.manifest.list.v2+json"

unfoldable pub is_manifest_media_type : Text → Bool
is_manifest_media_type mt =
    mt == mt_oci_manifest || mt == mt_oci_index || mt == mt_docker_manifest || mt == mt_docker_list

pub record Descriptor : Type 0 where
  pub media_type : Text
  pub digest : Digest
  pub size : ℕ
  pub artifact_type : Option Text
  pub annotations : Option (Map Text Text)

pub record ImageManifest : Type 0 where
  pub media_type : Option Text
  pub artifact_type : Option Text
  pub config : Descriptor
  pub layers : List Descriptor
  pub subject : Option Descriptor
  pub annotations : Option (Map Text Text)

pub record ImageIndex : Type 0 where
  pub media_type : Option Text
  pub artifact_type : Option Text
  pub manifests : List Descriptor
  pub subject : Option Descriptor
  pub annotations : Option (Map Text Text)

pub data Manifest : Type 0 where
  image : (manifest : ImageManifest) → Manifest
  index : (manifest : ImageIndex) → Manifest

-- `serde_json`: whether the bytes are JSON, the text of `mediaType`, whether there is a field
-- `manifests`, and the two readings.
pub record Json : Type 0 where
  pub is_json : List ℕ → Bool
  pub media_type_of : List ℕ → Option Text
  pub has_manifests : List ℕ → Bool
  pub read_image : List ℕ → Option ImageManifest
  pub read_index : List ℕ → Option ImageIndex

abbrev pub or_else : {A : Type 0} → Option A → Option A → Option A
or_else (some a) other = some a
or_else none other = other

abbrev pub unwrap_or : {A : Type 0} → Option A → A → A
unwrap_or (some a) other = a
unwrap_or none other = other

-- `Manifest::parse`
unfoldable pub parse_manifest : Json → List ℕ → Option Text → Result Manifest
unfolding list_eq nat_eq
parse_manifest json bytes content_type = do
  ensure (json.is_json bytes) not_json
  let mt = unwrap_or (or_else (json.media_type_of bytes) content_type) []
  if (mt == mt_oci_index || mt == mt_docker_list) || (is_empty mt && json.has_manifests bytes)
      then (or_err (json.read_index bytes) bad_manifest >>= λ m. ok (index m))
      else (or_err (json.read_image bytes) bad_manifest >>= λ m. ok (image m))

-- `Manifest::media_type`
unfoldable pub media_type : Manifest → Text
media_type (image m) = unwrap_or m.media_type mt_oci_manifest
media_type (index m) = unwrap_or m.media_type mt_oci_index

-- `Manifest::subject`
unfoldable pub subject : Manifest → Option Descriptor
subject (image m) = m.subject
subject (index m) = m.subject

-- `Manifest::artifact_type`
unfoldable pub artifact_type : Manifest → Option Text
artifact_type (image m) = or_else m.artifact_type (some m.config.media_type)
artifact_type (index m) = m.artifact_type

-- `Manifest::annotations`
unfoldable pub annotations : Manifest → Option (Map Text Text)
annotations (image m) = m.annotations
annotations (index m) = m.annotations

-- `Manifest::referenced`
unfoldable pub referenced : Manifest → List Descriptor
referenced (image m) = m.config ∷ m.layers
referenced (index m) = m.manifests
