-- ===== src/Oci/Reference/RoundTrip.antt =====
-- Printed references are read back: `Display` and `parse_explicit` of crates/ocid-core/src/oci.rs.
use ocid.Prelude.{
  ℕ, ◌≡◌, refl, subst, sym, ap, ◌∙◌, Bool, true, false, Option, none, some, List, [], ◌∷◌, ◌++◌,
  arith, ◌==◌, nat_eq, list_eq, all, any, any-append, ok, Bool-cases, Option-cases, inl, inr,
}
use ocid.Text.{Text, is_empty, is_lower_hex, is_whitespace, trim, trim_end_by}
use ocid.Text.Search.{
  split, push_first, has_char, rsplit_once, split_once-append, rsplit_once-none, rsplit_once_sound,
  trim_by-eq_self, trim_end_by-eq_self,
}
use ocid.Identity.{Keys, IsLawful, is_hex_publisher}
use ocid.Identity.RoundTrip.{parse_publisher-to_text}
use ocid.Oci.Name.{
  is_tag_char, is_component, validate_name, validate_tag, validate_opt_tag, split_tag,
}
use ocid.Oci.Reference.{ImageRef, parse_explicit, show}
use ocid.Oci.Reference.Parts.{
  name_or_slash, name_chars, tag_chars, and_right, visible, name_visible, tag_visible, no_blank,
  name_colon, tag_colon, tag_slash, hex_slash, image_text, tag_position-image,
}

abbrev tail : List Text → List Text
tail [] = []
tail (t ∷ ts) = ts

tail-push_first : (x : ℕ) (ts : List Text) → tail (push_first x ts) ≡ tail ts
tail-push_first x [] = refl
tail-push_first x (t ∷ ts) = refl

all-tail : (q : Text → Bool) (ts : List Text) → all q ts ≡ true → all q (tail ts) ≡ true
all-tail q [] h = refl
all-tail q (t ∷ ts) h = and_right (q t) (all q ts) h

-- The parts behind a separator are among the later parts of the whole.
all-split-tail :
    (q : Text → Bool) (c : ℕ) (a b : Text)
    → all q (tail (split c (a ++ c ∷ b))) ≡ true
    → all q (split c b) ≡ true
unfolding split
all-split-tail q c [] b h = ground arith
all-split-tail q c (x ∷ a) b h = elim (Bool-cases (x == c)) [
  | inl e ↦ all-split-tail q c a b (all-tail q (split c (a ++ c ∷ b)) (ground arith))
  | inr e ↦ all-split-tail q c a b (ground (arith, tail-push_first x (split c (a ++ c ∷ b))))
]

split-eq-one : (c : ℕ) (s : Text) → has_char c s ≡ false → split c s ≡ s ∷ []
unfolding split
split-eq-one c [] h = refl
split-eq-one c (x ∷ s) h = ground (arith, split-eq-one c s)

trim_end_by-append :
    (p : ℕ → Bool) (a b : Text)
    → trim_end_by p b ≡ b
    → is_empty b ≡ false
    → trim_end_by p (a ++ b) ≡ a ++ b
unfolding trim_end_by
trim_end_by-append p [] b h n = h
trim_end_by-append p (c ∷ []) [] h n = absurd (cc)
trim_end_by-append p (c ∷ []) (d ∷ b) h n = ground (arith, h)
trim_end_by-append p (c ∷ d ∷ a) b h n = ground (arith, trim_end_by-append p (d ∷ a) b h n)

abbrev is_slash : ℕ → Bool
is_slash c = c == b'/'

-- The text ends, and not with a slash.
Ended : Text → Type 0
Ended s = (trim_end_by is_slash s ≡ s) × (is_empty s ≡ false)

part-Ended : (s : Text) → has_char b'/' s ≡ false → is_empty s ≡ false → Ended s
unfolding Ended
part-Ended s h n = (trim_end_by-eq_self is_slash s h, n)

append-Ended : (a b : Text) → Ended b → Ended (a ++ b)
unfolding Ended
append-Ended [] b e = e
append-Ended (c ∷ a) b e = (trim_end_by-append is_slash (c ∷ a) b e.0 e.1, refl)

component_filled : (s : Text) → is_component s ≡ true → is_empty s ≡ false
unfolding is_component
component_filled s h = ground arith

name-Ended : (n : Text) → validate_name n ≡ ok tt → Ended n
unfolding validate_name
name-Ended n v =
    let parts : all is_component (split b'/' n) ≡ true = ground arith in
    elim (Option-cases (rsplit_once b'/' n)) [
      | inl q ↦
          let free = rsplit_once-none b'/' n q in
          part-Ended n free (component_filled n (ground (arith, split-eq-one b'/' n free)))
      | inr ((dir, base), q) ↦
          let sound = rsplit_once_sound b'/' n q in
          let last : all is_component (split b'/' base) ≡ true =
            all-split-tail is_component b'/' dir base (
              all-tail is_component (split b'/' (dir ++ b'/' ∷ base))
                (ap (λ x. all is_component (split b'/' x)) (sym sound.0) ∙ parts)) in
          let filled : is_empty base ≡ false =
            component_filled base (ground (arith, split-eq-one b'/' base sound.1)) in
          subst Ended (sym sound.0) (
            append-Ended dir (b'/' ∷ base)
              (append-Ended (b'/' ∷ []) base (part-Ended base sound.1 filled)))
    ]

tag_filled : (t : Text) → validate_tag t ≡ ok tt → is_empty t ≡ false
unfolding validate_tag
tag_filled t h = ground arith

image-Ended :
    (n : Text) (tag : Option Text)
    → validate_name n ≡ ok tt
    → validate_opt_tag tag ≡ ok tt
    → Ended (image_text n tag)
image-Ended n none v w = name-Ended n v
image-Ended n (some t) v w =
    append-Ended n (b':' ∷ t)
      (append-Ended (b':' ∷ []) t (part-Ended t (tag_slash t (tag_chars t w)) (tag_filled t w)))

image_blank :
    (n : Text) (tag : Option Text)
    → validate_name n ≡ ok tt
    → validate_opt_tag tag ≡ ok tt
    → any is_whitespace (image_text n tag) ≡ false
image_blank n none v w = no_blank name_or_slash n name_visible (name_chars n v)
image_blank n (some t) v w = ground (
  arith,
  any-append is_whitespace n (b':' ∷ t),
  no_blank name_or_slash n name_visible (name_chars n v),
  no_blank is_tag_char t tag_visible (tag_chars t w),
)

split_tag-image :
    (n : Text) (tag : Option Text)
    → validate_name n ≡ ok tt
    → validate_opt_tag tag ≡ ok tt
    → split_tag (image_text n tag) ≡ ok (n, tag)
unfolding split_tag
split_tag-image n none v w =
    ground (arith, tag_position-image n none (name_colon n (name_chars n v)) (λ t e. absurd (cc)))
split_tag-image n (some t) v w =
    let free : (u : Text)
        → some t ≡ some u
        → (has_char b':' u ≡ false) × (has_char b'/' u ≡ false) =
      λ u e.
        let same : t ≡ u = ground arith in
        subst (λ x. (has_char b':' x ≡ false) × (has_char b'/' x ≡ false)) same
          (tag_colon t (tag_chars t w), tag_slash t (tag_chars t w)) in
    ground (arith, tag_position-image n (some t) (name_colon n (name_chars n v)) free)

hex_visible : (c : ℕ) → is_lower_hex c ≡ true → visible c ≡ true
unfolding visible
hex_visible c h = ground arith

module _ {Key : Type 0} (keys : Keys Key) (law : IsLawful keys) where
  show_form :
      (r : ImageRef Key) → show keys r ≡ keys.to_text r.publisher ++ b'/' ∷ image_text r.name r.tag
  unfolding show
  show_form r = elim (Option-cases r.tag) [ inl q ↦ ground arith | inr (t, q) ↦ ground arith ]

  hex_digits : (k : Key) → all is_lower_hex (keys.to_text k) ≡ true
  unfolding is_hex_publisher
  hex_digits k = ground (arith, law.to_text_hex k)

  -- A reference with a valid name and, if it has one, a valid tag is printed to a text from which it
  -- is read back: the publisher, the name with its slashes, and the tag or that there is none.
  pub parse_explicit-show :
      (r : ImageRef Key)
      → validate_name r.name ≡ ok tt
      → validate_opt_tag r.tag ≡ ok tt
      → parse_explicit keys (show keys r) ≡ ok r
  unfolding parse_explicit Ended
  parse_explicit-show r v w =
      let hex = keys.to_text r.publisher in
      let image = image_text r.name r.tag in
      let whole : Text = hex ++ b'/' ∷ image in
      let digits = hex_digits r.publisher in
      let bare : trim whole ≡ whole = trim_by-eq_self is_whitespace whole (
        ground (
          arith,
          any-append is_whitespace hex (b'/' ∷ image),
          no_blank is_lower_hex hex hex_visible digits,
          image_blank r.name r.tag v w,
        )) in
      let ended =
        append-Ended hex (b'/' ∷ image)
          (append-Ended (b'/' ∷ []) image (image-Ended r.name r.tag v w)) in
      ap (parse_explicit keys) (show_form r)
      ∙ ground (
        arith,
        bare,
        ended.0,
        split_once-append b'/' hex image (hex_slash hex digits),
        parse_publisher-to_text keys law r.publisher,
        split_tag-image r.name r.tag v w,
      )
