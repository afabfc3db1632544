-- ===== src/Tests/Data.antt =====
-- Two publishers with keys of 64 hex digits, signatures that name the signer and a checksum, and
-- releases of one image.
use ocid.Prelude.{
  ℕ, zero, suc, ◌+◌, ◌*◌, refl, Bool, true, false, Option, none, some, List, [], ◌∷◌, ◌++◌,
  if◌then◌else◌, ◌==◌, ==_refl, Eq, nat_eq, list_eq, length,
}
use ocid.Text.{Text, txt}
use ocid.Identity.{Keys}
use ocid.Release.{BlobRef, Crypto, Release, ReleasePayload}
use ocid.Release.Signing.{IsLawful}

unfoldable pub bool_dec : Discrete Bool
bool_dec true true = yes refl
bool_dec true false = no (λ p. cc)
bool_dec false true = no (λ p. cc)
bool_dec false false = yes refl

instance unfoldable pub bool_eq : Eq Bool
unfolding bool_dec
bool_eq = record { dec = bool_dec }

abbrev pub key_a : Text
key_a = txt "aaaaaaaaaaaaaaaaaaaaaaaaaaaaaaaaaaaaaaaaaaaaaaaaaaaaaaaaaaaaaaaa"

abbrev pub key_b : Text
key_b = txt "bbbbbbbbbbbbbbbbbbbbbbbbbbbbbbbbbbbbbbbbbbbbbbbbbbbbbbbbbbbbbbbb"

-- A key is found by its first digit.
abbrev pub of_digits : Text → Option Bool
of_digits [] = none
of_digits (c ∷ s) = if c == 97 then some true else if c == 98 then some false else none

abbrev pub keys : Keys Bool
keys = record {
  of_text = of_digits;
  to_text = λ k. if k then key_a else key_b;
  of_bytes = λ b. if length b == 32 then some true else none;
  as_bytes = λ k. [];
  bs58_decode = λ t. some t;
  bs58_encode = λ b. b;
}

abbrev checksum : List ℕ → ℕ
checksum [] = 0
checksum (b ∷ bs) = b + 2 * checksum bs

abbrev pub zeros : ℕ → List ℕ
zeros zero = []
zeros (suc n) = 0 ∷ zeros n

abbrev sign_with : Bool → List ℕ → List ℕ
sign_with k m = (if k then 1 else 0) ∷ checksum m ∷ zeros 62

abbrev pub crypto : Crypto Bool Bool
crypto = record {
  public_key = λ s. s;
  sign = sign_with;
  verify = λ k m s. s == sign_with k m;
  hex_encode = λ b. b;
  hex_decode = λ t. some t;
  encode_payload = λ p. some (p.timestamp ∷ p.tag ++ p.name);
}

pub crypto-IsLawful : IsLawful crypto
crypto-IsLawful = record {
  verify-sign = λ s m. ==_refl (sign_with s m);
  length-sign = λ s m. refl;
  hex_decode-encode = λ b. refl;
}

abbrev pub blob : BlobRef
blob = record { digest = txt "sha256:01"; hash = 1 ∷ []; size = 2; media_type = none }

abbrev pub payload : Bool → Text → ℕ → ReleasePayload Bool
payload publisher tag timestamp = record {
  version = 1;
  publisher = publisher;
  name = txt "app";
  tag = tag;
  manifest = blob;
  blobs = [];
  timestamp = timestamp;
  referrers = [];
}

abbrev pub release : Bool → Text → ℕ → Release Bool
release publisher tag timestamp = record {
  payload = payload publisher tag timestamp;
  signature = sign_with publisher (timestamp ∷ tag ++ txt "app");
}
