-- ===== src/Oci/Reference.antt =====
-- Image references: `strip_registry_location`, `ImageRef` and `resolve_repo` of
-- crates/ocid-core/src/oci.rs.
pub mod Parts
pub mod RoundTrip
use ocid.Prelude.{
  ℕ, ◌≡◌, Bool, true, false, not, ◌&&◌, ◌||◌, Option, none, some, List, [], ◌∷◌, ◌++◌,
  if◌then◌else◌, ◌==◌, nat_eq, list_eq, all, any, no_publisher, missing_name, empty_repo, Result,
  ok, err, ◌>>=◌, ◌>>◌, or_err, leb,
}
use ocid.Text.{Text, txt, trim, trim_end_by, trim_by, is_empty, is_digit, strip_prefix, starts_with}
use ocid.Text.Search.{split_once, has_char}
use ocid.Identity.{Keys, is_hex_publisher, parse_publisher}
use ocid.Oci.Name.{validate_name, split_tag}
use ocid.Policy.Rules.{
  Policy, AliasTarget, to_publisher, to_image, parse_publisher_arg, resolve_alias,
}

pub record ImageRef (Key : Type 0) : Type 0 where
  pub publisher : Key
  pub name : Text
  pub tag : Option Text

-- A port, `localhost`, or an address in dotted digits.
unfoldable pub is_location : Text → Bool
unfolding list_eq nat_eq
is_location first =
    has_char b':' first
    || first == txt "localhost"
    || (all (λ c. is_digit c || c == b'.') first && has_char b'.' first)

abbrev strip_scheme : Text → Text
strip_scheme s = elim (strip_prefix (txt "https://") s) [
  | some rest ↦ rest
  | none ↦ elim (strip_prefix (txt "http://") s) [ some rest ↦ rest | none ↦ s ]
]

unfoldable pub strip_location : Text → Text
unfolding split_once is_location
strip_location s = elim (split_once b'/' s) [
  | none ↦ s
  | some (first, rest) ↦ if is_empty rest then s else if is_location first then rest else s
]

-- `strip_registry_location`
unfoldable pub strip_registry_location : Text → Text
unfolding strip_prefix strip_location trim_by
strip_registry_location s = strip_location (strip_scheme (trim s))

module _ {Key : Type 0} (keys : Keys Key) where
  -- `ImageRef::parse_explicit`
  unfoldable pub parse_explicit : Text → Result (ImageRef Key)
  unfolding trim_end_by trim_by split_once parse_publisher split_tag
  parse_explicit s = do
    parts ← or_err (split_once b'/' (trim_end_by (λ c. c == b'/') (trim s))) no_publisher
    publisher ← parse_publisher keys parts.0
    image ← split_tag parts.1
    ok (record { publisher = publisher; name = image.0; tag = image.1 })

  -- The alias rules of `resolve_repo`, and then the node's own namespace.
  unfoldable pub resolve_alias_repo : Policy → Key → Text → Text → Option Text → Result (Key × Text)
  unfolding resolve_alias validate_name
  resolve_alias_repo policy me repo first rest = elim (resolve_alias keys policy repo) [
    | some (to_image publisher name) ↦ ok (publisher, name)
    | _ ↦ elim (resolve_alias keys policy first) [
      | some (to_publisher p) ↦ do name ← or_err rest missing_name; validate_name name; ok (p, name)
      | _ ↦ (do validate_name repo; ok (me, repo))
    ]
  ]

  -- The rule for an explicit publisher in front, where `parse_publisher_arg` knows it.
  unfoldable pub resolve_named : Policy → Key → Text → Text → Option Text → Result (Key × Text)
  unfolding resolve_alias_repo parse_publisher_arg validate_name
  resolve_named policy me repo first none = resolve_alias_repo policy me repo first none
  resolve_named policy me repo first (some rest) = elim (parse_publisher_arg keys policy first) [
    | ok p ↦ (do validate_name rest; ok (p, rest))
    | err e ↦ resolve_alias_repo policy me repo first (some rest)
  ]

  unfoldable pub resolve_parts : Policy → Key → Text → Text → Option Text → Result (Key × Text)
  unfolding resolve_named is_hex_publisher validate_name parse_publisher
  resolve_parts policy me repo first rest =
      if is_hex_publisher first
      then (do
        name ← or_err rest missing_name
        validate_name name
        publisher ← parse_publisher keys first
        ok (publisher, name))
      else resolve_named policy me repo first rest

  -- `resolve_repo`, for the node with key `me`
  unfoldable pub resolve_repo : Policy → Key → Text → Result (Key × Text)
  unfolding trim_by split_once resolve_parts
  resolve_repo policy me text =
      let repo = trim_by (λ c. c == b'/') text in
      if is_empty repo then err empty_repo else elim (split_once b'/' repo) [
        | some (first, rest) ↦ resolve_parts policy me repo first (some rest)
        | none ↦ resolve_parts policy me repo repo none
      ]

  abbrev parse_here : Policy → Key → Text → Result (ImageRef Key)
  parse_here policy me s = do
    image ← split_tag s
    found ← resolve_repo policy me image.0
    ok (record { publisher = found.0; name = found.1; tag = image.1 })

  -- `ImageRef::parse`
  unfoldable pub parse : Policy → Key → Text → Result (ImageRef Key)
  unfolding parse_explicit strip_registry_location split_tag resolve_repo trim_by strip_prefix
  parse policy me text =
      let s = trim text in
      if starts_with s (txt "did:key:")
      then parse_explicit s
      else parse_here policy me (strip_registry_location s)

  -- `Display for ImageRef`
  unfoldable pub show : ImageRef Key → Text
  show r = elim r.tag [
    | none ↦ keys.to_text r.publisher ++ b'/' ∷ r.name
    | some t ↦ keys.to_text r.publisher ++ b'/' ∷ (r.name ++ b':' ∷ t)
  ]

-- `ImageRef::tag_or_latest`
unfoldable pub tag_or_latest : {Key : Type 0} → ImageRef Key → Text
tag_or_latest r = elim r.tag [ none ↦ txt "latest" | some t ↦ t ]
