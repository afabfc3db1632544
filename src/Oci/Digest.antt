-- ===== src/Oci/Digest.antt =====
-- Content digests: `Digest` of crates/ocid-core/src/oci.rs.
use ocid.Prelude.{
  ◌≡◌, true, ◌&&◌, Option, none, some, ◌∷◌, ◌++◌, arith, ◌==◌, nat_eq, all, unsupported_digest,
  malformed_digest, Result, ok, ◌>>=◌, ◌>>◌, ensure, or_err, Option-cases, inl, inr,
}
use ocid.Text.{Text, txt, len, is_lower_hex, strip_prefix}
use ocid.Text.Search.{strip_prefix_sound}

-- A newtype of a text: `sha256:` and the hex form.
abbrev pub Digest : Type 0
Digest = Text

abbrev prefix : Text
prefix = txt "sha256:"

unfoldable pub parse_digest : Text → Result Digest
unfolding strip_prefix nat_eq
parse_digest s = do
  hex ← or_err (strip_prefix prefix s) unsupported_digest
  ensure (len hex == 64 && all is_lower_hex hex) malformed_digest
  ok s

-- `Digest::hex`: the slice from byte 7, which panics on a shorter text.
unfoldable pub hex : Digest → Option Text
hex (a ∷ b ∷ c ∷ d ∷ e ∷ f ∷ g ∷ h) = some h
hex _ = none

-- What is accepted is kept as it is; `hex` does not panic on it, and returns 64 lower-case hex
-- digits that follow the prefix.
pub hex-parse_digest :
    (s d : Text)
    → parse_digest s ≡ ok d
    → (h : Text) × (hex d ≡ some h)
      × (d ≡ s)
      × (s ≡ prefix ++ h)
      × (len h ≡ 64)
      × (all is_lower_hex h ≡ true)
unfolding parse_digest hex
hex-parse_digest s d e = elim (Option-cases (strip_prefix prefix s)) [
  | inl n ↦ ground arith
  | inr (h, p) ↦
      let q : s ≡ prefix ++ h = strip_prefix_sound prefix s p in
      (h, ground (arith, q), ground arith, q, ground arith, ground arith)
]
