-- ===== src/Policy/Mode/Text.antt =====
-- The text of a mode: `Display` and `FromStr`.
use ocid.Prelude.{
  ℕ, ◌^◌, ◌<◌, ◌≡◌, refl, ◌∙◌, true, false, not, ◌||◌, Option, none, some, [], ◌∷◌, ◌++◌, arith,
  if◌then◌else◌, ◌==◌, nat_eq, list_eq, all, any, bad_mode, mode_number, mode_zero, Result, ok,
  ◌>>=◌, ◌>>◌, ensure, or_err,
}
use ocid.Text.{Text, txt, trim, strip_prefix, is_whitespace, is_digit}
use ocid.Text.Search.{trim_by-eq_self}
use ocid.Text.Decimal.{show_nat, parse_nat, parse_nat-show_nat, all_digits-show_nat}
use ocid.Policy.Mode.{Mode, full, latest, last, window}

abbrev pub u32_mod : ℕ
u32_mod = 2 ^ 32

unfoldable pub show_mode : Mode → Text
show_mode full = txt "full"
show_mode latest = txt "latest"
show_mode (last n) = txt "last:" ++ show_nat n

abbrev strip_last : Text → Option Text
strip_last s = elim (strip_prefix (txt "last:") s) [
  | some n ↦ some n
  | none ↦ strip_prefix (txt "last=") s
]

parse_last : Text → Result Mode
unfolding nat_eq strip_prefix
parse_last s = do
  digits ← or_err (strip_last s) bad_mode
  n ← or_err (parse_nat u32_mod digits) mode_number
  ensure (not (n == 0)) mode_zero
  ok (if n == 1 then latest else last n)

unfoldable pub parse_mode : Text → Result Mode
unfolding parse_last
parse_mode text =
    let s = trim text in
    if s == txt "full" || s == txt "all"
    then ok full
    else if s == txt "latest"
    then ok latest
    else parse_last s

-- The values a `last` may hold for its text to be read back: 0 is refused, and numbers have 32 bits.
abbrev pub Writable : Mode → Type 0
Writable full = Unit
Writable latest = Unit
Writable (last n) = (0 < n) × (n < u32_mod)

any-append_digits : (n : ℕ) → any is_whitespace (show_nat n) ≡ false
any-append_digits n = digits_space (show_nat n) (all_digits-show_nat n)
  where
    digits_space : (s : Text) → all is_digit s ≡ true → any is_whitespace s ≡ false
    digits_space [] h = refl
    digits_space (c ∷ s) h = ground (arith, digits_space s)

text_of_last : (n : ℕ) → trim (show_mode (last n)) ≡ txt "last:" ++ show_nat n
unfolding show_mode
text_of_last n = trim_by-eq_self is_whitespace _ (any-append_digits n)

parse_mode-last : (n : ℕ) → parse_mode (show_mode (last n)) ≡ parse_last (txt "last:" ++ show_nat n)
unfolding parse_mode
parse_mode-last n = rw text_of_last (ground arith)

parse_last-show :
    (n : ℕ)
    → 0 < n
    → n < u32_mod
    → parse_last (txt "last:" ++ show_nat n) ≡ ok (if n == 1 then latest else last n)
unfolding parse_last
parse_last-show n p b = rw (parse_nat-show_nat u32_mod n b) (ground arith)

-- A mode whose number, if it has one, is not 0 and fits 32 bits is written as a text from which a mode
-- with the same window is read back.
pub parse_mode-show_mode :
    (m : Mode)
    → Writable m
    → (m' : Mode) × (parse_mode (show_mode m) ≡ ok m') × (window m' ≡ window m)
unfolding parse_mode show_mode window ocid.Text.trim_by list_eq nat_eq
parse_mode-show_mode full w = (full, refl, refl)
parse_mode-show_mode latest w = (latest, refl, refl)
parse_mode-show_mode (last n) w =
    (if n == 1 then latest else last n, parse_mode-last n ∙ parse_last-show n w.0 w.1, ground arith)
