-- ===== src/Dns/Zone.antt =====
-- `validate_zone` and `is_domain_name` of crates/ocid-core/src/dns.rs.
use ocid.Prelude.{
  ℕ, Bool, false, not, ◌&&◌, ◌||◌, [], ◌∷◌, leb, all, bad_zone, Result, ◌>>◌, ensure, is_ok,
}
use ocid.Text.{Text, len, is_empty, is_alnum, is_digit}
use ocid.Text.Search.{split, has_char}

abbrev starts_with_dash : Text → Bool
starts_with_dash [] = false
starts_with_dash (c ∷ s) = leb 45 c && leb c 45

abbrev ends_with_dash : Text → Bool
ends_with_dash [] = false
ends_with_dash (c ∷ []) = leb 45 c && leb c 45
ends_with_dash (c ∷ d ∷ s) = ends_with_dash (d ∷ s)

abbrev is_label_char : ℕ → Bool
is_label_char c = is_alnum c || (leb 45 c && leb c 45)

unfoldable pub is_label : Text → Bool
is_label label =
    not (is_empty label)
    && leb (len label) 63
    && all is_label_char label
    && not (starts_with_dash label)
    && not (ends_with_dash label)
    && not (all is_digit label)

unfoldable pub validate_zone : Text → Result (Unit {0})
unfolding is_label split
validate_zone zone = do
  ensure (leb (len zone) 253 && has_char b'.' zone) bad_zone
  ensure (all is_label (split b'.' zone)) bad_zone

unfoldable pub is_domain_name : Text → Bool
unfolding validate_zone
is_domain_name s = is_ok (validate_zone s)
