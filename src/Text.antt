-- ===== src/Text.antt =====
-- Rust's `str`, as far as the program uses it: a text is the list of its code points. `len` counts
-- the bytes of its UTF-8 form, and the order of texts is that of their code points, which is the
-- order of those bytes.
pub mod Search
pub mod Decimal
pub mod Compare
use Prim.Native.Char.{code}
use Prim.Native.String.{String}
use ocid.Prelude.{
  ℕ, zero, suc, ◌+◌, Bool, true, false, ◌&&◌, ◌||◌, Option, none, some, List, [], ◌∷◌, ltb, leb,
  if◌then◌else◌, ◌==◌, nat_eq, list_eq,
}

abbrev pub Text : Type 0
Text = List ℕ

-- A literal.
abbrev pub txt : String → Text
txt String.[] = []
txt (String.◌∷◌ c s) = code c ∷ txt s

abbrev pub utf8_len : ℕ → ℕ
utf8_len c = if ltb c 0x80 then 1 else if ltb c 0x800 then 2 else if ltb c 0x10000 then 3 else 4

-- `str::len`
abbrev pub len : Text → ℕ
len [] = 0
len (c ∷ s) = utf8_len c + len s

abbrev pub is_empty : Text → Bool
is_empty [] = true
is_empty (c ∷ s) = false

abbrev pub is_digit : ℕ → Bool
is_digit c = leb 48 c && leb c 57

abbrev pub is_lower : ℕ → Bool
is_lower c = leb 97 c && leb c 122

abbrev pub is_upper : ℕ → Bool
is_upper c = leb 65 c && leb c 90

-- `u8::is_ascii_alphanumeric`
abbrev pub is_alnum : ℕ → Bool
is_alnum c = is_lower c || is_upper c || is_digit c

-- `b'0'..=b'9' | b'a'..=b'f'`
abbrev pub is_lower_hex : ℕ → Bool
is_lower_hex c = is_digit c || (leb 97 c && leb c 102)

-- `u8::is_ascii_hexdigit`
abbrev pub is_hex_digit : ℕ → Bool
is_hex_digit c = is_digit c || (leb 97 c && leb c 102) || (leb 65 c && leb c 70)

-- `char::is_whitespace` (Unicode's White_Space).
abbrev pub is_whitespace : ℕ → Bool
is_whitespace c =
    (leb 9 c && leb c 13)
    || leb 32 c && leb c 32
    || leb 0x85 c && leb c 0x85
    || leb 0xa0 c && leb c 0xa0
    || leb 0x1680 c && leb c 0x1680
    || leb 0x2000 c && leb c 0x200a
    || leb 0x2028 c && leb c 0x2029
    || leb 0x202f c && leb c 0x202f
    || leb 0x205f c && leb c 0x205f
    || leb 0x3000 c && leb c 0x3000

-- `trim_start_matches`, `trim_end_matches`, `trim_matches`
unfoldable pub trim_start_by : (ℕ → Bool) → Text → Text
trim_start_by p [] = []
trim_start_by p (c ∷ s) = let rest = trim_start_by p s in if p c then rest else c ∷ s

abbrev pub push_unless : Bool → ℕ → Text → Text
push_unless drop c [] = if drop then [] else c ∷ []
push_unless drop c (d ∷ s) = c ∷ d ∷ s

unfoldable pub trim_end_by : (ℕ → Bool) → Text → Text
trim_end_by p [] = []
trim_end_by p (c ∷ s) = push_unless (p c) c (trim_end_by p s)

unfoldable pub trim_by : (ℕ → Bool) → Text → Text
unfolding trim_start_by trim_end_by
trim_by p s = trim_end_by p (trim_start_by p s)

-- `str::trim`
abbrev pub trim : Text → Text
trim s = trim_by is_whitespace s

-- `str::strip_prefix`
unfoldable pub strip_prefix : Text → Text → Option Text
unfolding nat_eq
strip_prefix [] s = some s
strip_prefix (p ∷ ps) [] = none
strip_prefix (p ∷ ps) (c ∷ s) = if p == c then strip_prefix ps s else none

abbrev pub starts_with : Text → Text → Bool
starts_with s p = elim (strip_prefix p s) [ none ↦ false | some rest ↦ true ]
