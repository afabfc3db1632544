-- ===== src/Registry/Range.antt =====
-- Byte ranges: `parse_range` of crates/ocid/src/registry.rs.
use ocid.Prelude.{
  ℕ, ◌-◌, min, ◌≤◌, ◌<◌, ◌≡◌, ◌&&◌, ◌||◌, Option, none, some, arith, if◌then◌else◌, ◌==◌, nat_eq,
  leb, ltb, Option-cases, Bool-cases, inl, inr,
}
use ocid.Text.{Text, txt, trim, strip_prefix, is_empty}
use ocid.Text.Search.{split_once, has_char}
use ocid.Text.Decimal.{parse_nat}

abbrev u64_limit : ℕ
u64_limit = 18446744073709551616

-- The last `n` bytes.
unfoldable pub suffix_range : ℕ → ℕ → Option (ℕ × ℕ)
unfolding nat_eq
suffix_range n size = if n == 0 then none else some (size - n, size - 1)

unfoldable pub bounds : Text → Text → ℕ → Option (ℕ × ℕ)
unfolding parse_nat suffix_range
bounds a b size =
    if is_empty a
    then elim (parse_nat u64_limit b) [ none ↦ none | some n ↦ suffix_range n size ]
    else if is_empty b
    then elim (parse_nat u64_limit a) [ none ↦ none | some s ↦ some (s, size - 1) ]
    else elim (parse_nat u64_limit a) [
      | none ↦ none
      | some s ↦ elim (parse_nat u64_limit b) [ none ↦ none | some e ↦ some (s, min e (size - 1)) ]
    ]

-- `(start <= end && start < size).then_some(..)`
unfoldable pub within : Option (ℕ × ℕ) → ℕ → Option (ℕ × ℕ)
within none size = none
within (some (start, last)) size =
    if leb start last && ltb start size then some (start, last) else none

unfoldable pub range_of : Text → ℕ → Option (ℕ × ℕ)
unfolding split_once bounds within nat_eq
range_of spec size = if has_char b',' spec || size == 0 then none else elim (split_once b'-' spec) [
  | none ↦ none
  | some (a, b) ↦ within (bounds (trim a) (trim b) size) size
]

unfoldable pub parse_range : Text → ℕ → Option (ℕ × ℕ)
unfolding strip_prefix range_of
parse_range spec size = elim (strip_prefix (txt "bytes=") spec) [
  | none ↦ none
  | some rest ↦ range_of (trim rest) size
]

bounds-lt :
    (a b : Text) (size start last : ℕ)
    → 0 < size
    → bounds a b size ≡ some (start, last)
    → last < size
unfolding bounds suffix_range
bounds-lt a b size start last p h = elim (Option-cases (parse_nat u64_limit a)) [
  | inl na ↦ elim (Option-cases (parse_nat u64_limit b)) [
    | inl nb ↦ absurd (ground arith)
    | inr (n, q) ↦ ground arith
  ]
  | inr (m, r) ↦ elim (Option-cases (parse_nat u64_limit b)) [
    | inl nb ↦ ground arith
    | inr (n, q) ↦ ground arith
  ]
]

within_sound :
    (o : Option (ℕ × ℕ)) (size start last : ℕ)
    → within o size ≡ some (start, last)
    → (o ≡ some (start, last)) × (start ≤ last) × (start < size)
unfolding within
within_sound none size start last h = cc
within_sound (some (s, l)) size start last h = elim (Bool-cases (leb s l && ltb s size)) [
  | inl c ↦ (ground arith, ground arith, ground arith)
  | inr c ↦ absurd (ground arith)
]

range_of_sound :
    (spec : Text) (size start last : ℕ)
    → range_of spec size ≡ some (start, last)
    → (start ≤ last) × (last < size)
unfolding range_of
range_of_sound spec size start last h = elim (Bool-cases (has_char b',' spec || size == 0)) [
  | inl c ↦ absurd (ground arith)
  | inr c ↦ elim (Option-cases (split_once b'-' spec)) [
    | inl n ↦ absurd (ground arith)
    | inr ((a, b), q) ↦
        let w = within_sound (bounds (trim a) (trim b) size) size start last (ground arith) in
        (w.1, bounds-lt (trim a) (trim b) size start last (ground arith) w.0)
  ]
]

-- A range that is accepted, whatever text asked for it, is not empty and lies inside the blob: the
-- bytes from `start` to `last` are there.
pub parse_range-bounds :
    (spec : Text) (size start last : ℕ)
    → parse_range spec size ≡ some (start, last)
    → (start ≤ last) × (last < size)
unfolding parse_range
parse_range-bounds spec size start last h = elim (Option-cases (strip_prefix (txt "bytes=") spec)) [
  | inl n ↦ absurd (ground arith)
  | inr (rest, q) ↦ range_of_sound (trim rest) size start last (ground arith)
]
