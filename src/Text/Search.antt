-- ===== src/Text/Search.antt =====
-- Splitting a text at a character or a pattern, and how that undoes a concatenation.
use ocid.Prelude.{
  ℕ, ◌≡◌, refl, Bool, false, Option, none, some, List, [], ◌∷◌, ◌++◌, arith, if◌then◌else◌, ◌==◌,
  nat_eq, list_eq, any, Option-cases, inl, inr,
}
use ocid.Text.{Text, strip_prefix, trim_start_by, trim_end_by, trim_by}

-- `str::split_once(char)`
unfoldable pub split_once : ℕ → Text → Option (Text × Text)
unfolding nat_eq
split_once c [] = none
split_once c (x ∷ s) =
    let rest = split_once c s in
    if x == c then some ([], s) else elim rest [ none ↦ none | some (a, b) ↦ some (x ∷ a, b) ]

-- The last occurrence of a character, as `rfind` and two slices give it: before it, and after it.
unfoldable pub rsplit_once : ℕ → Text → Option (Text × Text)
unfolding nat_eq
rsplit_once c [] = none
rsplit_once c (x ∷ s) = elim (rsplit_once c s) [
  | some (a, b) ↦ some (x ∷ a, b)
  | none ↦ if x == c then some ([], s) else none
]

-- The last occurrence of a pattern that is not empty.
unfoldable pub rsplit_pattern : Text → Text → Option (Text × Text)
unfolding strip_prefix
rsplit_pattern p [] = none
rsplit_pattern p (x ∷ s) = elim (rsplit_pattern p s) [
  | some (a, b) ↦ some (x ∷ a, b)
  | none ↦ elim (strip_prefix p (x ∷ s)) [ none ↦ none | some b ↦ some ([], b) ]
]

-- `str::strip_suffix`
unfoldable pub strip_suffix : Text → Text → Option Text
unfolding list_eq nat_eq
strip_suffix p [] = if [] == p then some [] else none
strip_suffix p (x ∷ s) =
    let rest = strip_suffix p s in
    if (x ∷ s) == p then some [] else elim rest [ none ↦ none | some a ↦ some (x ∷ a) ]

-- `str::split(char)`: at least one part.
abbrev pub push_first : ℕ → List Text → List Text
push_first c [] = (c ∷ []) ∷ []
push_first c (p ∷ ps) = (c ∷ p) ∷ ps

unfoldable pub split : ℕ → Text → List Text
unfolding nat_eq
split c [] = [] ∷ []
split c (x ∷ s) = let rest = split c s in if x == c then [] ∷ rest else push_first x rest

abbrev pub has_char : ℕ → Text → Bool
has_char c s = any (λ x. x == c) s

pub split_once-append :
    (c : ℕ) (a b : Text) → has_char c a ≡ false → split_once c (a ++ c ∷ b) ≡ some (a, b)
unfolding split_once
split_once-append c [] b h = ground arith
split_once-append c (x ∷ a) b h = ground (arith, split_once-append c a b)

pub rsplit_once-eq-none : (c : ℕ) (s : Text) → has_char c s ≡ false → rsplit_once c s ≡ none
unfolding rsplit_once
rsplit_once-eq-none c [] h = refl
rsplit_once-eq-none c (x ∷ s) h = ground (arith, rsplit_once-eq-none c s)

pub rsplit_once-append :
    (c : ℕ) (a b : Text) → has_char c b ≡ false → rsplit_once c (a ++ c ∷ b) ≡ some (a, b)
unfolding rsplit_once
rsplit_once-append c [] b h = rw (rsplit_once-eq-none c b h) (ground arith)
rsplit_once-append c (x ∷ a) b h = rw (rsplit_once-append c a b h)

pub rsplit_once-none : (c : ℕ) (s : Text) → rsplit_once c s ≡ none → has_char c s ≡ false
unfolding rsplit_once
rsplit_once-none c [] h = refl
rsplit_once-none c (x ∷ s) h = ground (arith, rsplit_once-none c s)

-- What is split is put together again.
pub rsplit_once_sound :
    (c : ℕ) (s : Text) {a b : Text}
    → rsplit_once c s ≡ some (a, b)
    → (s ≡ a ++ c ∷ b) × (has_char c b ≡ false)
unfolding rsplit_once
rsplit_once_sound c [] h = cc
rsplit_once_sound c (x ∷ s) h = elim (Option-cases (rsplit_once c s)) [
  | inl e ↦ ground (arith, rsplit_once-none c s)
  | inr ((a', b'), e) ↦ ground (arith, rsplit_once_sound c s e)
]

trim_start_by-eq_self : (p : ℕ → Bool) (s : Text) → any p s ≡ false → trim_start_by p s ≡ s
unfolding trim_start_by
trim_start_by-eq_self p [] h = refl
trim_start_by-eq_self p (c ∷ s) h = ground arith

pub trim_end_by-eq_self : (p : ℕ → Bool) (s : Text) → any p s ≡ false → trim_end_by p s ≡ s
unfolding trim_end_by
trim_end_by-eq_self p [] h = refl
trim_end_by-eq_self p (c ∷ []) h = ground arith
trim_end_by-eq_self p (c ∷ d ∷ s) h = ground (arith, trim_end_by-eq_self p (d ∷ s))

pub trim_by-eq_self : (p : ℕ → Bool) (s : Text) → any p s ≡ false → trim_by p s ≡ s
unfolding trim_by
trim_by-eq_self p s h = rw (trim_start_by-eq_self p s h) (trim_end_by-eq_self p s h)

pub strip_prefix-append : (p s : Text) → strip_prefix p (p ++ s) ≡ some s
unfolding strip_prefix
strip_prefix-append [] s = refl
strip_prefix-append (c ∷ p) s = ground (arith, strip_prefix-append p s)

pub strip_prefix_sound : (p s : Text) {r : Text} → strip_prefix p s ≡ some r → s ≡ p ++ r
unfolding strip_prefix
strip_prefix_sound [] s h = ground arith
strip_prefix_sound (c ∷ p) [] h = cc
strip_prefix_sound (c ∷ p) (x ∷ s) {r} h = ground (arith, strip_prefix_sound p s {r = r})
