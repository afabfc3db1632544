-- ===== src/Tests/Zones.antt =====
-- Resolving a zone for the first time.
use ocid.Prelude.{Bool, true, none, some, [], ◌∷◌, Result, ok}
use ocid.Prelude.Map.{get}
use ocid.Text.{Text, txt}
use ocid.Dns.Record.{DnsRecord, DnsCrypto}
use ocid.Dns.Service.{DnsService, resolve_zone}
use ocid.Dns.Service.Sticky.{CacheAgrees, Sticks, resolve_zone-Sticks}
use ocid.Tests.Data.{keys}

abbrev dns_crypto : DnsCrypto Bool Bool
dns_crypto = record {
  public_key = λ s. s;
  sign = λ s t. t;
  verify = λ k t s. true;
  hex_encode = λ b. b;
  url_scheme = λ t. none;
}

abbrev record_of : Text → Result (DnsRecord Bool)
record_of t = ok (record { key = true; ts = 10; relay = none; seed = none; sig = t })

abbrev service : DnsService Bool
service = record { enabled = true; max_age_secs = 100; pins = []; cache = [] }

service-CacheAgrees : CacheAgrees keys dns_crypto record_of service
unfolding CacheAgrees get
service-CacheAgrees zone p relay seed expires h = cc

resolve_zone-Sticks_example : Sticks keys dns_crypto record_of service (txt "example.com") (
    resolve_zone keys dns_crypto record_of service
      (txt "example.com")
      (record { instant = 1; unix = 20 })
      true
      (some ((300, some (txt "v=ocid1")) ∷ [])))
resolve_zone-Sticks_example =
    resolve_zone-Sticks keys dns_crypto record_of service (txt "example.com")
      (record { instant = 1; unix = 20 }) true (some ((300, some (txt "v=ocid1")) ∷ []))
      service-CacheAgrees
