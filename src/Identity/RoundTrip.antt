-- ===== src/Identity/RoundTrip.antt =====
-- Printing publisher identities and reading them back.
use ocid.Prelude.{◌≡◌, refl, true, false, none, [], ◌∷◌, arith, nat_eq, all, any, ok}
use ocid.Text.{Text, txt, is_lower_hex, is_whitespace, strip_prefix}
use ocid.Text.Search.{trim_by-eq_self, strip_prefix-append}
use ocid.Identity.{
  Keys, IsLawful, is_hex_publisher, key_of_multicodec, parse_did, parse_publisher, did_key,
}

hex_NoWhitespace : (s : Text) → all is_lower_hex s ≡ true → any is_whitespace s ≡ false
hex_NoWhitespace [] h = refl
hex_NoWhitespace (c ∷ s) h = ground (arith, hex_NoWhitespace s)

hex_not_did : (s : Text) → all is_lower_hex s ≡ true → strip_prefix (txt "did:key:") s ≡ none
unfolding strip_prefix
hex_not_did [] h = refl
hex_not_did (c ∷ []) h = ground arith
hex_not_did (c ∷ d ∷ s) h = ground arith

module _ {Key : Type 0} (keys : Keys Key) (law : IsLawful keys) where
  -- A printed key is read back.
  pub parse_publisher-to_text : (k : Key) → parse_publisher keys (keys.to_text k) ≡ ok k
  unfolding parse_publisher is_hex_publisher
  parse_publisher-to_text k =
      let digits : all is_lower_hex (keys.to_text k) ≡ true = ground (arith, law.to_text_hex k) in
      ground (
        arith,
        trim_by-eq_self is_whitespace (keys.to_text k) (hex_NoWhitespace (keys.to_text k) digits),
        hex_not_did (keys.to_text k) digits,
        law.of_text-to_text k,
      )

  key_of_multicodec-as_bytes :
      (k : Key) → key_of_multicodec keys (0xed ∷ 0x01 ∷ keys.as_bytes k) ≡ ok k
  unfolding key_of_multicodec
  key_of_multicodec-as_bytes k = ground (arith, law.length-as_bytes k, law.of_bytes-as_bytes k)

  parse_did-encode :
      (k : Key) → parse_did keys (b'z' ∷ keys.bs58_encode (0xed ∷ 0x01 ∷ keys.as_bytes k)) ≡ ok k
  unfolding parse_did
  parse_did-encode k = ground (
    arith,
    strip_prefix-append (txt "z") (keys.bs58_encode (0xed ∷ 0x01 ∷ keys.as_bytes k)),
    law.bs58_decode-encode (0xed ∷ 0x01 ∷ keys.as_bytes k),
    key_of_multicodec-as_bytes k,
  )

  -- A printed `did:key` is read back.
  pub parse_publisher-did_key : (k : Key) → parse_publisher keys (did_key keys k) ≡ ok k
  unfolding parse_publisher did_key
  parse_publisher-did_key k =
      let e = keys.bs58_encode (0xed ∷ 0x01 ∷ keys.as_bytes k) in
      ground (
        arith,
        trim_by-eq_self is_whitespace (did_key keys k)
            (ground (arith, law.bs58_encode_space (0xed ∷ 0x01 ∷ keys.as_bytes k))),
        strip_prefix-append (txt "did:key:") (b'z' ∷ e),
        parse_did-encode k,
      )
