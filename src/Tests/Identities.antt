-- ===== src/Tests/Identities.antt =====
-- Keys that satisfy every law, and the theorems that ask for them.
use ocid.Prelude.{
  ℕ, ◌+◌, ◌-◌, ◌≡◌, refl, Bool, true, false, Option, none, some, List, [], ◌∷◌, arith,
  if◌then◌else◌, ◌==◌, nat_eq, list_eq, ℕ_discrete, any, ok,
}
use ocid.Text.{Text, txt, is_whitespace}
use ocid.Identity.{Keys, IsLawful, is_hex_publisher, parse_publisher, did_key}
use ocid.Identity.RoundTrip.{parse_publisher-did_key}
use ocid.Oci.Name.{validate_tag}
use ocid.Release.{reference}
use ocid.Release.Reference.{reference_inj}
use ocid.Tests.Data.{key_a, key_b, of_digits, zeros, release}

-- Shifts every byte past the white space of Unicode.
pub shift : List ℕ → Text
shift [] = []
shift (x ∷ s) = (20000 + x) ∷ shift s

pub unshift : Text → List ℕ
unshift [] = []
unshift (c ∷ s) = (c - 20000) ∷ unshift s

unshift-shift : (b : List ℕ) → some (unshift (shift b)) ≡ some b
unfolding shift unshift
unshift-shift [] = refl
unshift-shift (x ∷ s) = ground (arith, unshift-shift s)

shift-NoWhitespace : (b : List ℕ) → any is_whitespace (shift b) ≡ false
unfolding shift
shift-NoWhitespace [] = refl
shift-NoWhitespace (x ∷ s) = ground (arith, shift-NoWhitespace s)

abbrev of_first : List ℕ → Option Bool
of_first [] = none
of_first (b ∷ bs) = if b == 0 then some false else some true

abbrev pub lawful_keys : Keys Bool
lawful_keys = record {
  of_text = of_digits;
  to_text = λ k. if k then key_a else key_b;
  of_bytes = of_first;
  as_bytes = λ k. (if k then 1 else 0) ∷ zeros 31;
  bs58_decode = λ t. some (unshift t);
  bs58_encode = shift;
}

of_text_law : (k : Bool) → lawful_keys.of_text (lawful_keys.to_text k) ≡ some k
unfolding nat_eq ℕ_discrete
of_text_law true = refl
of_text_law false = refl

to_text_law : (k : Bool) → is_hex_publisher (lawful_keys.to_text k) ≡ true
unfolding is_hex_publisher nat_eq ℕ_discrete
to_text_law true = refl
to_text_law false = refl

of_bytes_law : (k : Bool) → lawful_keys.of_bytes (lawful_keys.as_bytes k) ≡ some k
unfolding nat_eq ℕ_discrete
of_bytes_law true = refl
of_bytes_law false = refl

pub lawful_keys-IsLawful : IsLawful lawful_keys
lawful_keys-IsLawful = record {
  of_text-to_text = of_text_law;
  to_text_hex = to_text_law;
  of_bytes-as_bytes = of_bytes_law;
  length-as_bytes = λ k. refl;
  bs58_decode-encode = unshift-shift;
  bs58_encode_space = shift-NoWhitespace;
}

parse_publisher-did_key_example : parse_publisher lawful_keys (did_key lawful_keys true) ≡ ok true
parse_publisher-did_key_example = parse_publisher-did_key lawful_keys lawful_keys-IsLawful true

valid_tag : validate_tag (txt "v1") ≡ ok tt
unfolding validate_tag
valid_tag = refl

same_reference :
    reference lawful_keys (release true (txt "v1") 5)
    ≡ reference lawful_keys (release true (txt "v1") 6)
unfolding reference
same_reference = refl

reference_inj_example : (true ≡ true) × (txt "app" ≡ txt "app") × (txt "v1" ≡ txt "v1")
reference_inj_example =
    reference_inj lawful_keys lawful_keys-IsLawful (release true (txt "v1") 5)
      (release true (txt "v1") 6) valid_tag valid_tag same_reference
