-- ===== src/Dns/Service.antt =====
-- Resolving zones: `DnsService` of crates/ocid/src/dns_resolver.rs. The answer to the query, the
-- clocks (in seconds) and whether the pin file could be written are arguments.
pub mod Sticky
use ocid.Prelude.{
  ℕ, ◌+◌, min, ◌≡◌, Bool, true, false, not, Option, none, some, List, [], ◌∷◌, if◌then◌else◌, ltb,
  nat_eq, list_eq, Error, io, Result, ok, err, to_option,
}
use ocid.Prelude.Map.{Map, get, insert, remove}
use ocid.Text.{Text}
use ocid.Identity.{Keys}
use ocid.Dns.Record.{DnsRecord, DnsCrypto}
use ocid.Dns.Pins.{DnsPins, DnsValidated, new, pinned, pin, unpin, validate_record}

pub data Cached (Key : Type 0) : Type 0 where
  positive :
      (publisher : Key) → (relay : Option Text) → (seed : Option Key) → (expires : ℕ) → Cached Key
  negative : (expires : ℕ) → Cached Key

pub data ZoneOutcome (Key : Type 0) : Type 0 where
  disabled no_record : ZoneOutcome Key
  resolved :
      (publisher : Key)
      → (newly_pinned : Bool) → (relay : Option Text) → (seed : Option Key) → ZoneOutcome Key

pub record DnsService (Key : Type 0) : Type 0 where
  pub enabled : Bool
  pub max_age_secs : ℕ
  pub pins : DnsPins
  pub cache : Map Text (Cached Key)

-- A record of an answer: its time to live, and the text that its strings make if it is a TXT record.
abbrev pub Answer : Type 0
Answer = ℕ × Option Text

-- `Instant::now`, and the seconds of the epoch.
pub record Clock : Type 0 where
  pub instant : ℕ
  pub unix : ℕ

abbrev positive_ttl_cap : ℕ
positive_ttl_cap = 60

abbrev negative_ttl : ℕ
negative_ttl = 30

module _ {Key : Type 0} where
  -- An entry that has not expired answers at once.
  unfoldable pub cached : DnsService Key → Text → ℕ → Option (ZoneOutcome Key)
  cached s zone now = elim (get zone s.cache) [
    | none ↦ none
    | some c ↦ elim c [
      | positive p relay seed expires ↦
          if ltb now expires then some (resolved p false relay seed) else none
      | negative expires ↦ if ltb now expires then some no_record else none
    ]
  ]

  unfoldable pub cache_negative : DnsService Key → Text → ℕ → DnsService Key
  cache_negative s zone now = record s {
    cache = insert zone (negative (now + negative_ttl)) s.cache;
  }

  unfoldable pub cache_positive :
      DnsService Key → Text → ℕ → Key → DnsRecord Key → ℕ → DnsService Key
  cache_positive s zone now p r ttl = record s {
    cache = insert zone (positive p r.relay r.seed (now + min ttl positive_ttl_cap)) s.cache;
  }

  -- The loop over the answers: the first text that parses, and the least time to live so far.
  unfoldable pub first_record :
      (Text → Result (DnsRecord Key)) → List Answer → ℕ → Option (DnsRecord Key × ℕ)
  first_record parse [] ttl = none
  first_record parse ((t, none) ∷ rs) ttl = first_record parse rs (min ttl t)
  first_record parse ((t, some s) ∷ rs) ttl =
      let rest = first_record parse rs (min ttl t) in
      elim (parse s) [ ok r ↦ some (r, min ttl t) | err e ↦ rest ]

module _ {Key : Type 0} (keys : Keys Key) where
  -- What is done with the record that was found, by how it was validated.
  unfoldable pub settle_with :
      DnsService Key
      → Text
      → Clock
      → Bool
      → DnsRecord Key
      → ℕ
      → Result (DnsValidated Key)
      → DnsService Key × Result (ZoneOutcome Key)
  unfolding pin cache_positive
  settle_with s zone clock saved r ttl (err e) = (s, err e)
  settle_with s zone clock saved r ttl (ok (new p)) =
      let s' = record s { pins = pin s.pins zone (keys.to_text p) clock.unix } in
      if saved
      then (cache_positive s' zone clock.instant p r ttl, ok (resolved p true r.relay r.seed))
      else (s', err io)
  settle_with s zone clock saved r ttl (ok (pinned p)) =
      (cache_positive s zone clock.instant p r ttl, ok (resolved p false r.relay r.seed))

module _ {Key Secret : Type 0} (keys : Keys Key) (crypto : DnsCrypto Key Secret)
    (parse : Text → Result (DnsRecord Key)) where
  unfoldable pub settle :
      DnsService Key
      → Text
      → Clock
      → Bool
      → DnsRecord Key
      → ℕ
      → DnsService Key × Result (ZoneOutcome Key)
  unfolding validate_record settle_with
  settle s zone clock saved r ttl =
      settle_with keys s zone clock saved r ttl
        (validate_record keys crypto zone r s.pins s.max_age_secs clock.unix)

  -- The part after the cache: no answer, or none that parses, is remembered too.
  unfoldable pub query :
      DnsService Key
      → Text
      → Clock
      → Bool
      → Option (List Answer)
      → DnsService Key × Result (ZoneOutcome Key)
  unfolding first_record settle cache_negative
  query s zone clock saved answer = elim answer [
    | none ↦ (cache_negative s zone clock.instant, ok no_record)
    | some rs ↦ elim (first_record parse rs 4294967295) [
      | none ↦ (cache_negative s zone clock.instant, ok no_record)
      | some (r, ttl) ↦ settle s zone clock saved r ttl
    ]
  ]

  -- `DnsService::resolve_zone`
  unfoldable pub resolve_zone :
      DnsService Key
      → Text
      → Clock
      → Bool
      → Option (List Answer)
      → DnsService Key × Result (ZoneOutcome Key)
  unfolding cached query
  resolve_zone s zone clock saved answer =
      if not s.enabled then (s, ok disabled) else elim (cached s zone clock.instant) [
        | some hit ↦ (s, ok hit)
        | none ↦ query s zone clock saved answer
      ]

-- `DnsService::unpin`: the cache keeps its entry if the file cannot be written.
unfoldable pub unpin_zone :
    {Key : Type 0} → DnsService Key → Text → Bool → DnsService Key × Result Bool
unfolding unpin
unpin_zone s zone saved =
    let out = unpin s.pins zone in
    if saved
    then (record s { pins = out.0; cache = remove zone s.cache }, ok out.1)
    else (record s { pins = out.0 }, err io)
