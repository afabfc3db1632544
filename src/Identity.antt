-- ===== src/Identity.antt =====
-- Publisher identities (crates/ocid-core/src/identity.rs). The key type and its texts belong to
-- `iroh_base` and `bs58`, so they are a parameter, `Keys`, with the laws `IsLawful`.
pub mod RoundTrip
use ocid.Prelude.{
  ℕ, ◌≡◌, Bool, true, false, ◌&&◌, Option, none, some, List, ◌∷◌, ◌++◌, if◌then◌else◌, ◌==◌, nat_eq,
  length, all, any, not_a_did, bad_did, not_a_key, Result, err, ◌>>=◌, or_err,
}
use ocid.Text.{Text, txt, len, trim, is_lower_hex, is_whitespace, strip_prefix}

-- `iroh_base::PublicKey` (`FromStr`, `Display`, `from_bytes`, `as_bytes`) and base58.
pub record Keys (Key : Type 0) : Type 0 where
  pub of_text : Text → Option Key
  pub to_text : Key → Text
  pub of_bytes : List ℕ → Option Key
  pub as_bytes : Key → List ℕ
  pub bs58_decode : Text → Option (List ℕ)
  pub bs58_encode : List ℕ → Text

-- `is_hex_publisher`
unfoldable pub is_hex_publisher : Text → Bool
unfolding nat_eq
is_hex_publisher s = len s == 64 && all is_lower_hex s

abbrev NoWhitespace : Text → Type 0
NoWhitespace s = any is_whitespace s ≡ false

-- What the program relies on: a key is 32 bytes, its text is 64 lower-case hex digits, and both
-- are read back; base58 has no whitespace and is read back.
pub record IsLawful {Key : Type 0} (keys : Keys Key) : Type 0 where
  pub of_text-to_text : (k : Key) → keys.of_text (keys.to_text k) ≡ some k
  pub to_text_hex : (k : Key) → is_hex_publisher (keys.to_text k) ≡ true
  pub of_bytes-as_bytes : (k : Key) → keys.of_bytes (keys.as_bytes k) ≡ some k
  pub length-as_bytes : (k : Key) → length (keys.as_bytes k) ≡ 32
  pub bs58_decode-encode : (b : List ℕ) → keys.bs58_decode (keys.bs58_encode b) ≡ some b
  pub bs58_encode_space : (b : List ℕ) → NoWhitespace (keys.bs58_encode b)

module _ {Key : Type 0} (keys : Keys Key) where
  -- The multicodec prefix of an ed25519 key, and the key's 32 bytes.
  unfoldable pub key_of_multicodec : List ℕ → Result Key
  unfolding nat_eq
  key_of_multicodec (a ∷ b ∷ key) =
      if length key == 32 && a == 0xed && b == 0x01
      then or_err (keys.of_bytes key) not_a_key
      else err bad_did
  key_of_multicodec _ = err bad_did

  unfoldable pub parse_did : Text → Result Key
  unfolding key_of_multicodec strip_prefix
  parse_did rest = do
    b58 ← or_err (strip_prefix (txt "z") rest) not_a_did
    bytes ← or_err (keys.bs58_decode b58) bad_did
    key_of_multicodec bytes

  unfoldable pub parse_publisher : Text → Result Key
  unfolding parse_did strip_prefix
  parse_publisher text =
      let s = trim text in
      elim (strip_prefix (txt "did:key:") s) [
        | some rest ↦ parse_did rest
        | none ↦ or_err (keys.of_text s) not_a_key
      ]

  unfoldable pub did_key : Key → Text
  did_key k = txt "did:key:z" ++ keys.bs58_encode (0xed ∷ 0x01 ∷ keys.as_bytes k)
