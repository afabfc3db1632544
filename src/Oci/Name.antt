-- ===== src/Oci/Name.antt =====
-- Repository names and tags: `validate_name`, `validate_tag`, `split_tag` of
-- crates/ocid-core/src/oci.rs.
use ocid.Prelude.{
  ℕ, Bool, false, not, ◌&&◌, ◌||◌, Option, none, some, [], ◌∷◌, ◌++◌, leb, ◌==◌, nat_eq, list_eq,
  all, invalid_name, invalid_tag, Result, ok, ◌>>◌, ensure,
}
use ocid.Text.{Text, txt, len, is_empty, is_alnum, is_lower, is_digit}
use ocid.Text.Search.{rsplit_once, split}

-- `b'a'..=b'z' | b'0'..=b'9' | b'.' | b'_' | b'-'`
abbrev pub is_name_char : ℕ → Bool
is_name_char c = is_lower c || is_digit c || (leb 45 c && leb c 46) || (leb 95 c && leb c 95)

abbrev pub is_tag_char : ℕ → Bool
is_tag_char c = is_alnum c || (leb 45 c && leb c 46) || (leb 95 c && leb c 95)

abbrev first_is : (ℕ → Bool) → Text → Bool
first_is p [] = false
first_is p (c ∷ s) = p c

unfoldable pub is_component : Text → Bool
is_component comp =
    not (is_empty comp)
    && all is_name_char comp
    && first_is is_alnum comp
    && not (comp == txt ".")
    && not (comp == txt "..")

unfoldable pub validate_name : Text → Result (Unit {0})
unfolding is_component split
validate_name name = do
  ensure (not (is_empty name) && leb (len name) 255) invalid_name
  ensure (all is_component (split b'/' name)) invalid_name

abbrev is_tag_first : ℕ → Bool
is_tag_first c = is_alnum c || (leb 95 c && leb c 95)

unfoldable pub validate_tag : Text → Result (Unit {0})
validate_tag tag =
    ensure
      (not (is_empty tag) && leb (len tag) 128 && all is_tag_char tag && first_is is_tag_first tag)
      invalid_tag

-- The text before the last ':' behind the last '/', and the text behind that ':'.
unfoldable pub tag_position : Text → Text × Option Text
unfolding rsplit_once
tag_position s = elim (rsplit_once b'/' s) [
  | none ↦ elim (rsplit_once b':' s) [ none ↦ (s, none) | some (n, t) ↦ (n, some t) ]
  | some (dir, base) ↦ elim (rsplit_once b':' base) [
    | none ↦ (s, none)
    | some (n, t) ↦ (dir ++ b'/' ∷ n, some t)
  ]
]

abbrev pub validate_opt_tag : Option Text → Result (Unit {0})
validate_opt_tag none = ok tt
validate_opt_tag (some t) = validate_tag t

unfoldable pub split_tag : Text → Result (Text × Option Text)
unfolding tag_position validate_name validate_tag
split_tag s = do let r = tag_position s; validate_name r.0; validate_opt_tag r.1; ok r
