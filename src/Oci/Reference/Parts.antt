-- ===== src/Oci/Reference/Parts.antt =====
-- The characters of names and tags, and how `split_tag` of crates/ocid-core/src/oci.rs takes them
-- apart.
use ocid.Prelude.{
  ℕ, ◌≡◌, refl, ap, ◌∙◌, Bool, true, false, ◌&&◌, ◌||◌, Option, none, some, List, [], ◌∷◌, ◌++◌,
  arith, ◌==◌, nat_eq, list_eq, all, any, any-append, append_assoc, leb, ok, Bool-cases,
  Option-cases, inl, inr,
}
use ocid.Text.{Text, is_lower_hex, is_whitespace}
use ocid.Text.Search.{
  split, push_first, has_char, rsplit_once, rsplit_once-append, rsplit_once-none, rsplit_once_sound,
  rsplit_once-eq-none,
}
use ocid.Oci.Name.{
  is_name_char, is_tag_char, is_component, validate_name, validate_tag, tag_position,
}

-- What holds of every character of every part holds of the whole, but for the separators.
parts_all :
    (p : ℕ → Bool) (q : Text → Bool) (ts : List Text)
    → ((t : Text) → q t ≡ true → all p t ≡ true)
    → all q ts ≡ true
    → all (all p) ts ≡ true
parts_all p q [] f h = refl
parts_all p q (t ∷ ts) f h = ground (arith, f t, parts_all p q ts f)

all-push_first :
    (p : ℕ → Bool) (x : ℕ) (ts : List Text)
    → all (all p) (push_first x ts) ≡ true
    → (p x ≡ true) × (all (all p) ts ≡ true)
all-push_first p x [] h = (ground arith, refl)
all-push_first p x (t ∷ ts) h = (ground arith, ground arith)

all_parts :
    (p : ℕ → Bool) (c : ℕ) (s : Text)
    → all (all p) (split c s) ≡ true
    → all (λ x. p x || x == c) s ≡ true
unfolding split
all_parts p c [] h = refl
all_parts p c (x ∷ s) h = elim (Bool-cases (x == c)) [
  | inl e ↦ ground (arith, all_parts p c s)
  | inr e ↦
      let parts = all-push_first p x (split c s) (ground arith) in
      ground (arith, all_parts p c s parts.1, parts.0)
]

abbrev pub name_or_slash : ℕ → Bool
name_or_slash c = is_name_char c || c == b'/'

component_chars : (t : Text) → is_component t ≡ true → all is_name_char t ≡ true
unfolding is_component
component_chars t h = ground arith

pub name_chars : (n : Text) → validate_name n ≡ ok tt → all name_or_slash n ≡ true
unfolding validate_name
name_chars n h =
    all_parts is_name_char b'/' n
      (parts_all is_name_char is_component (split b'/' n) component_chars (ground arith))

pub tag_chars : (t : Text) → validate_tag t ≡ ok tt → all is_tag_char t ≡ true
unfolding validate_tag
tag_chars t h = ground arith

and_left : (a b : Bool) → (a && b) ≡ true → a ≡ true
and_left a b h = ground arith

pub and_right : (a b : Bool) → (a && b) ≡ true → b ≡ true
and_right a b h = ground arith

-- Characters of names and tags are no blanks and no colons, those of tags no slashes.
unfoldable pub visible : ℕ → Bool
visible c = leb 45 c && leb c 122

visible_blank : (c : ℕ) → visible c ≡ true → is_whitespace c ≡ false
unfolding visible
visible_blank c h = ground arith

pub name_visible : (c : ℕ) → name_or_slash c ≡ true → visible c ≡ true
unfolding visible
name_visible c h = ground arith

pub tag_visible : (c : ℕ) → is_tag_char c ≡ true → visible c ≡ true
unfolding visible
tag_visible c h = ground arith

pub no_blank :
    (p : ℕ → Bool) (s : Text)
    → ((c : ℕ) → p c ≡ true → visible c ≡ true)
    → all p s ≡ true
    → any is_whitespace s ≡ false
no_blank p [] f h = refl
no_blank p (c ∷ s) f h =
    let here : is_whitespace c ≡ false = visible_blank c (f c (and_left (p c) (all p s) h)) in
    rw here (no_blank p s f (and_right (p c) (all p s) h))

pub name_colon : (s : Text) → all name_or_slash s ≡ true → has_char b':' s ≡ false
name_colon [] h = refl
name_colon (c ∷ s) h = ground (arith, name_colon s)

pub tag_colon : (s : Text) → all is_tag_char s ≡ true → has_char b':' s ≡ false
tag_colon [] h = refl
tag_colon (c ∷ s) h = ground (arith, tag_colon s)

pub tag_slash : (s : Text) → all is_tag_char s ≡ true → has_char b'/' s ≡ false
tag_slash [] h = refl
tag_slash (c ∷ s) h = ground (arith, tag_slash s)

pub hex_slash : (s : Text) → all is_lower_hex s ≡ true → has_char b'/' s ≡ false
hex_slash [] h = refl
hex_slash (c ∷ s) h = ground (arith, hex_slash s)

hex_blank : (s : Text) → all is_lower_hex s ≡ true → any is_whitespace s ≡ false
hex_blank [] h = refl
hex_blank (c ∷ s) h = ground (arith, hex_blank s)

-- `<name>[:<tag>]`
abbrev pub image_text : Text → Option Text → Text
image_text n none = n
image_text n (some t) = n ++ b':' ∷ t

has_char-append : (c : ℕ) (a b : Text) → has_char c (a ++ b) ≡ (has_char c a || has_char c b)
has_char-append c a b = any-append (λ x. x == c) a b

-- A name and a tag that were put together are taken apart.
pub tag_position-image :
    (n : Text) (tag : Option Text)
    → has_char b':' n ≡ false
    → ((t : Text) → tag ≡ some t → (has_char b':' t ≡ false) × (has_char b'/' t ≡ false))
    → tag_position (image_text n tag) ≡ (n, tag)
unfolding tag_position
tag_position-image n none c h = elim (Option-cases (rsplit_once b'/' n)) [
  | inl q ↦ ground (arith, rsplit_once-eq-none b':' n c)
  | inr ((dir, base), q) ↦
      let sound = rsplit_once_sound b'/' n q in
      let free : has_char b':' base ≡ false =
        ground (arith, has_char-append b':' dir (b'/' ∷ base), ap (has_char b':') sound.0) in
      ground (arith, rsplit_once-eq-none b':' base free)
]
tag_position-image n (some t) c h = elim (Option-cases (rsplit_once b'/' n)) [
  | inl q ↦
      let slash : has_char b'/' (n ++ b':' ∷ t) ≡ false =
        ground
          (arith, has_char-append b'/' n (b':' ∷ t), rsplit_once-none b'/' n q, (h t refl).1) in
      ground (
        arith,
        rsplit_once-eq-none b'/' (n ++ b':' ∷ t) slash,
        rsplit_once-append b':' n t (h t refl).0,
      )
  | inr ((dir, base), q) ↦
      let sound = rsplit_once_sound b'/' n q in
      let whole : n ++ b':' ∷ t ≡ dir ++ b'/' ∷ (base ++ b':' ∷ t) =
        ap (λ x. x ++ b':' ∷ t) sound.0 ∙ append_assoc dir (b'/' ∷ base) (b':' ∷ t) in
      let slash : has_char b'/' (base ++ b':' ∷ t) ≡ false =
        ground (arith, has_char-append b'/' base (b':' ∷ t), sound.1, (h t refl).1) in
      let parts : rsplit_once b'/' (n ++ b':' ∷ t) ≡ some (dir, base ++ b':' ∷ t) =
        ap (rsplit_once b'/') whole ∙ rsplit_once-append b'/' dir (base ++ b':' ∷ t) slash in
      ground (arith, parts, rsplit_once-append b':' base t (h t refl).0, sound.0)
]
