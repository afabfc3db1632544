-- ===== src/Text/Decimal.antt =====
-- Decimal numbers: `to_string` and `parse` of Rust's unsigned integers.
use ocid.Prelude.{
  ℕ, zero, suc, ◌+◌, ◌-◌, ◌*◌, ◌/◌, ◌%◌, ◌<◌, ◌≡◌, refl, Bool, true, false, ◌&&◌, Option, none,
  some, [], ◌∷◌, arith, ltb, leb, all, if◌then◌else◌,
}
use ocid.Text.{Text, is_digit}

digits_onto : ℕ → ℕ → Text → Text
digits_onto zero n acc = acc
digits_onto (suc f) n acc =
    let rest = digits_onto f (n / 10) ((48 + n % 10) ∷ acc) in
    if ltb n 10 then (48 + n) ∷ acc else rest

-- The decimal form; a number has at most as many digits as its value plus one.
unfoldable pub show_nat : ℕ → Text
unfolding digits_onto
show_nat n = digits_onto (suc n) n []

digits_value : ℕ → Text → Option ℕ
digits_value acc [] = some acc
digits_value acc (c ∷ s) = if is_digit c then digits_value (acc * 10 + (c - 48)) s else none

below_limit : ℕ → Option ℕ → Option ℕ
below_limit limit none = none
below_limit limit (some n) = if ltb n limit then some n else none

-- `parse::<uN>()` for `limit = 2 ^ N`: an optional `+`, one digit or more, and no overflow.
unfoldable pub parse_nat : ℕ → Text → Option ℕ
unfolding digits_value below_limit
parse_nat limit [] = none
parse_nat limit (c ∷ []) = below_limit limit (digits_value 0 (c ∷ []))
parse_nat limit (c ∷ d ∷ s) =
    below_limit limit
      (if leb 43 c && leb c 43 then digits_value 0 (d ∷ s) else digits_value 0 (c ∷ d ∷ s))

digits_value-digits_onto :
    (f n : ℕ) (acc : Text) → n < f → digits_value 0 (digits_onto f n acc) ≡ digits_value n acc
unfolding digits_onto digits_value
digits_value-digits_onto zero n acc h = absurd (omega arith)
digits_value-digits_onto (suc f) n acc h =
    ground (arith, digits_value-digits_onto f (n / 10) ((48 + n % 10) ∷ acc))

digits_value-show_nat : (n : ℕ) → digits_value 0 (show_nat n) ≡ some n
unfolding show_nat digits_value
digits_value-show_nat n = digits_value-digits_onto (suc n) n [] (omega arith)

abbrev starts_digit : Text → Bool
starts_digit [] = false
starts_digit (c ∷ s) = is_digit c

starts_digit-digits_onto :
    (f n : ℕ) (acc : Text) → starts_digit acc ≡ true → starts_digit (digits_onto f n acc) ≡ true
unfolding digits_onto
starts_digit-digits_onto zero n acc h = h
starts_digit-digits_onto (suc f) n acc h =
    ground (arith, starts_digit-digits_onto f (n / 10) ((48 + n % 10) ∷ acc))

starts_digit-show_nat : (n : ℕ) → starts_digit (show_nat n) ≡ true
unfolding show_nat
starts_digit-show_nat n = ground (arith, starts_digit-digits_onto n (n / 10) ((48 + n % 10) ∷ []))

parse_nat-starts_digit :
    (limit : ℕ) (s : Text)
    → starts_digit s ≡ true
    → parse_nat limit s ≡ below_limit limit (digits_value 0 s)
unfolding parse_nat
parse_nat-starts_digit limit [] h = cc
parse_nat-starts_digit limit (c ∷ []) h = refl
parse_nat-starts_digit limit (c ∷ d ∷ s) h = ground arith

-- A number that fits its type is read back from its decimal form.
pub parse_nat-show_nat : (limit n : ℕ) → n < limit → parse_nat limit (show_nat n) ≡ some n
unfolding below_limit
parse_nat-show_nat limit n h =
    rw (parse_nat-starts_digit limit (show_nat n) (starts_digit-show_nat n))
      (rw (digits_value-show_nat n) (ground arith))

all_digits-digits_onto :
    (f n : ℕ) (acc : Text) → all is_digit acc ≡ true → all is_digit (digits_onto f n acc) ≡ true
unfolding digits_onto
all_digits-digits_onto zero n acc h = h
all_digits-digits_onto (suc f) n acc h =
    ground (arith, all_digits-digits_onto f (n / 10) ((48 + n % 10) ∷ acc))

pub all_digits-show_nat : (n : ℕ) → all is_digit (show_nat n) ≡ true
unfolding show_nat
all_digits-show_nat n = all_digits-digits_onto (suc n) n [] refl
