-- ===== src/Dns/Record.antt =====
-- Signed TXT records: `DnsRecord` of crates/ocid-core/src/dns.rs. Keys, signatures and the URL
-- parser are libraries' work.
use ocid.Prelude.{
  ℕ, ◌+◌, Bool, false, not, ◌||◌, Option, none, some, List, [], ◌∷◌, ◌++◌, if◌then◌else◌, ◌==◌,
  nat_eq, list_eq, leb, ltb, any, bad_relay, relay_too_long, bad_signature, Result, ok, ◌>>=◌, ◌>>◌,
  ensure,
}
use ocid.Text.{Text, txt, len, is_whitespace, is_empty}
use ocid.Text.Search.{split}
use ocid.Text.Decimal.{show_nat}
use ocid.Identity.{Keys}
use ocid.Dns.Zone.{validate_zone}

abbrev pub Signature : Type 0
Signature = List ℕ

pub record DnsRecord (Key : Type 0) : Type 0 where
  pub key : Key
  pub ts : ℕ
  pub relay : Option Text
  pub seed : Option Key
  pub sig : Signature

-- Signing over text, `hex`, and the scheme of a text that is a URL.
pub record DnsCrypto (Key Secret : Type 0) : Type 0 where
  pub public_key : Secret → Key
  pub sign : Secret → Text → Signature
  pub verify : Key → Text → Signature → Bool
  pub hex_encode : List ℕ → Text
  pub url_scheme : Text → Option Text

abbrev version : Text
version = txt "ocid1"

abbrev pub txt_string_max : ℕ
txt_string_max = 255

module _ {Key : Type 0} (keys : Keys Key) where
  abbrev opt_key : Option Key → Text
  opt_key none = []
  opt_key (some k) = b' ' ∷ keys.to_text k

  unfoldable pub canonical_payload : Text → Key → ℕ → Option Text → Option Key → Text
  unfolding show_nat
  canonical_payload zone key ts relay seed =
      version
      ++ b' '
        ∷ (zone
            ++ b' '
              ∷ (keys.to_text key
                  ++ b' '
                    ∷ (show_nat ts
                        ++ (elim relay [ none ↦ [] | some r ↦ b' ' ∷ r ] ++ opt_key seed))))

module _ {Key Secret : Type 0} (keys : Keys Key) (crypto : DnsCrypto Key Secret) where
  abbrev is_web : Option Text → Bool
  is_web none = false
  is_web (some scheme) = scheme == txt "http" || scheme == txt "https"

  unfoldable pub validate_relay : Text → Result Text
  validate_relay relay = do
    ensure (not (any is_whitespace relay)) bad_relay
    ensure (is_web (crypto.url_scheme relay)) bad_relay
    ensure (leb (len relay + 6) txt_string_max) relay_too_long
    ok relay

  abbrev validate_opt : Option Text → Result (Option Text)
  validate_opt none = ok none
  validate_opt (some r) = validate_relay r >>= λ x. ok (some x)

  -- `DnsRecord::sign_full`
  unfoldable pub sign_full : Text → Secret → ℕ → Option Text → Option Key → Result (DnsRecord Key)
  unfolding validate_zone validate_relay canonical_payload
  sign_full zone secret ts relay seed = do
    validate_zone zone
    checked ← validate_opt relay
    let key = crypto.public_key secret
    ok (record {
      key = key;
      ts = ts;
      relay = checked;
      seed = seed;
      sig = crypto.sign secret (canonical_payload keys zone key ts checked seed);
    })

  -- `DnsRecord::verify_sig`
  unfoldable pub verify_sig : DnsRecord Key → Text → Result (Unit {0})
  unfolding validate_zone canonical_payload
  verify_sig r zone = do
    validate_zone zone
    ensure (crypto.verify r.key (canonical_payload keys zone r.key r.ts r.relay r.seed) r.sig)
        bad_signature

  -- `DnsRecord::to_txt`
  unfoldable pub to_txt : DnsRecord Key → Text
  unfolding show_nat
  to_txt r =
      txt "v="
      ++ version
      ++ txt " k="
      ++ keys.to_text r.key
      ++ txt " ts="
      ++ show_nat r.ts
      ++ (elim r.relay [ none ↦ [] | some x ↦ txt " relay=" ++ x ])
      ++ (elim r.seed [ none ↦ [] | some k ↦ txt " seed=" ++ keys.to_text k ])
      ++ txt " sig="
      ++ crypto.hex_encode r.sig

-- The loop of `txt_strings`: `cur` is the chunk that is being filled.
unfoldable pub chunk_tokens : Text → List Text → List Text
chunk_tokens cur [] = if is_empty cur then [] else cur ∷ []
chunk_tokens cur (tok ∷ toks) =
    let fresh = chunk_tokens tok toks in
    let more = chunk_tokens (cur ++ b' ' ∷ tok) toks in
    if is_empty cur
    then fresh
    else if ltb txt_string_max (len cur + 1 + len tok + 1)
    then cur ∷ fresh
    else more

-- Every chunk but the last gets a trailing space.
unfoldable pub pad_chunks : List Text → List Text
pad_chunks [] = []
pad_chunks (c ∷ []) = c ∷ []
pad_chunks (c ∷ d ∷ cs) = (c ++ b' ' ∷ []) ∷ pad_chunks (d ∷ cs)

-- `DnsRecord::txt_strings`, of the text of the record
unfoldable pub txt_strings : Text → List Text
unfolding chunk_tokens pad_chunks split
txt_strings s =
    if leb (len s) txt_string_max then s ∷ [] else pad_chunks (chunk_tokens [] (split b' ' s))
