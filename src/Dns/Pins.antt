-- ===== src/Dns/Pins.antt =====
-- The pinned keys: `DnsPins` and `validate_record` of crates/ocid-core/src/dns.rs.
use ocid.Prelude.{
  ℕ, ◌-◌, Bool, none, some, if◌then◌else◌, ◌==◌, nat_eq, list_eq, leb, stale_record, pin_mismatch,
  Result, ok, err, ◌>>◌, ensure,
}
use ocid.Prelude.Map.{Map, get, insert, remove, has_key}
use ocid.Text.{Text}
use ocid.Identity.{Keys}
use ocid.Dns.Record.{DnsRecord, DnsCrypto, verify_sig}

pub record PinEntry : Type 0 where
  pub key : Text
  pub pinned_at : ℕ

abbrev pub DnsPins : Type 0
DnsPins = Map Text PinEntry

-- `DnsPins::pin`
unfoldable pub pin : DnsPins → Text → Text → ℕ → DnsPins
pin pins zone key_hex now = elim (get zone pins) [
  | none ↦ insert zone (record { key = key_hex; pinned_at = now }) pins
  | some p ↦
      if p.key == key_hex
      then pins
      else insert zone (record { key = key_hex; pinned_at = now }) pins
]

-- `DnsPins::unpin`
unfoldable pub unpin : DnsPins → Text → DnsPins × Bool
unpin pins zone = (remove zone pins, has_key zone pins)

pub data DnsValidated (Key : Type 0) : Type 0 where
  pinned new : Key → DnsValidated Key

module _ {Key Secret : Type 0} (keys : Keys Key) (crypto : DnsCrypto Key Secret) where
  -- Pin agreement.
  unfoldable pub agreement : Text → DnsRecord Key → DnsPins → Result (DnsValidated Key)
  agreement zone r pins = elim (get zone pins) [
    | none ↦ ok (new r.key)
    | some p ↦ if p.key == keys.to_text r.key then ok (pinned r.key) else err pin_mismatch
  ]

  unfoldable pub validate_record :
      Text → DnsRecord Key → DnsPins → ℕ → ℕ → Result (DnsValidated Key)
  unfolding verify_sig agreement
  validate_record zone r pins max_age_secs now = do
    verify_sig keys crypto r zone
    ensure (leb (now - r.ts) max_age_secs) stale_record
    agreement zone r pins
