-- ===== src/Registry/Route.antt =====
-- Paths under `/v2/`: `route` of crates/ocid/src/registry.rs.
use ocid.Prelude.{Option, none, some, if◌then◌else◌, ◌==◌, nat_eq, list_eq}
use ocid.Text.{Text, txt, trim_end_by, strip_prefix, is_empty}
use ocid.Text.Search.{strip_suffix, rsplit_pattern}

pub data Route : Type 0 where
  catalog : Route
  tags : (name : Text) → Route
  manifest : (name : Text) → (reference : Text) → Route
  upload_start : (name : Text) → Route
  upload : (name : Text) → (id : Text) → Route
  blob : (name : Text) → (digest : Text) → Route
  referrers : (name : Text) → (digest : Text) → Route

-- What stands behind `/blobs/uploads`.
unfoldable pub upload_route : Text → Text → Route
unfolding strip_prefix
upload_route name rest = elim (strip_prefix (txt "/") rest) [
  | none ↦ upload_start name
  | some id ↦ if is_empty id then upload_start name else upload name id
]

unfoldable pub object_route : Text → Option Route
unfolding rsplit_pattern
object_route path = elim (rsplit_pattern (txt "/manifests/") path) [
  | some (name, reference) ↦ some (manifest name reference)
  | none ↦ elim (rsplit_pattern (txt "/referrers/") path) [
    | some (name, digest) ↦ some (referrers name digest)
    | none ↦ elim (rsplit_pattern (txt "/blobs/") path) [
      | some (name, digest) ↦ some (blob name digest)
      | none ↦ none
    ]
  ]
]

unfoldable pub route_trimmed : Text → Option Route
unfolding strip_suffix rsplit_pattern upload_route object_route list_eq nat_eq
route_trimmed path =
    if path == txt "_catalog" then some catalog else elim (strip_suffix (txt "/tags/list") path) [
      | some name ↦ some (tags name)
      | none ↦ elim (rsplit_pattern (txt "/blobs/uploads") path) [
        | some (name, rest) ↦ some (upload_route name rest)
        | none ↦ object_route path
      ]
    ]

unfoldable pub route : Text → Option Route
unfolding route_trimmed trim_end_by nat_eq
route path = route_trimmed (trim_end_by (λ c. c == b'/') path)
