-- ===== src/Dns/Service/Sticky.antt =====
-- Pins and cache over a resolution.
use ocid.Prelude.{
  ℕ, ◌+◌, min, ◌-◌, leb, ◌≡◌, refl, Bool, true, false, Option, none, some, List, arith,
  if◌then◌else◌, ◌==◌, nat_eq, list_eq, Bool-cases, Option-cases, Result-cases, inl, inr, Result,
  ok, err, subst,
}
use ocid.Prelude.Map.{get, get-insert}
use ocid.Text.{Text}
use ocid.Identity.{Keys}
use ocid.Dns.Record.{DnsRecord, DnsCrypto, verify_sig}
use ocid.Dns.Pins.{DnsPins, DnsValidated, new, pinned, PinEntry, pin, validate_record, agreement}
use ocid.Dns.Service.{
  DnsService, Cached, positive, negative, ZoneOutcome, disabled, no_record, resolved, Answer, Clock,
  cached, cache_negative, cache_positive, first_record, settle, settle_with, query, resolve_zone,
}

module _ {Key Secret : Type 0} (keys : Keys Key) (crypto : DnsCrypto Key Secret)
    (parse : Text → Result (DnsRecord Key)) where
  -- Of what was pinned, nothing changes.
  unfoldable pub Extends : DnsPins → DnsPins → Type 0
  Extends before after =
      (zone : Text) (e : PinEntry) → get zone before ≡ some e → get zone after ≡ some e

  -- What is accepted was signed for the zone by its key, was fresh, and agrees with the pin.
  validate_record-ok :
      (zone : Text) (r : DnsRecord Key) (pins : DnsPins) (age now : ℕ) (v : DnsValidated Key)
      → validate_record keys crypto zone r pins age now ≡ ok v
      → (verify_sig keys crypto r zone ≡ ok tt)
        × (leb (now - r.ts) age ≡ true)
        × (agreement keys crypto zone r pins ≡ ok v)
  unfolding validate_record
  validate_record-ok zone r pins age now v h = elim (Result-cases (verify_sig keys crypto r zone)) [
    | inl (u, q) ↦ elim (Bool-cases (leb (now - r.ts) age)) [
      | inl f ↦ (ground arith, f, ground arith)
      | inr f ↦ absurd (ground arith)
    ]
    | inr (e, q) ↦ absurd (ground arith)
  ]

  agreement-new :
      (zone : Text) (r : DnsRecord Key) (pins : DnsPins) (p : Key)
      → agreement keys crypto zone r pins ≡ ok (new p)
      → (get zone pins ≡ none) × (p ≡ r.key)
  unfolding agreement
  agreement-new zone r pins p h = elim (Option-cases (get zone pins)) [
    | inl n ↦ (n, ground arith)
    | inr (e, q) ↦ absurd (ground arith)
  ]

  agreement-pinned :
      (zone : Text) (r : DnsRecord Key) (pins : DnsPins) (p : Key)
      → agreement keys crypto zone r pins ≡ ok (pinned p)
      → (e : PinEntry) × (get zone pins ≡ some e) × (e.key ≡ keys.to_text p) × (p ≡ r.key)
  unfolding agreement
  agreement-pinned zone r pins p h = elim (Option-cases (get zone pins)) [
    | inl n ↦ absurd (ground arith)
    | inr (e, q) ↦ (e, q, ground arith, ground arith)
  ]

  get-pin :
      (pins : DnsPins) (zone z : Text) (key : Text) (now : ℕ)
      → get zone pins ≡ none
      → get z (pin pins zone key now)
        ≡ (if zone == z then some (record { key = key; pinned_at = now }) else get z pins)
  unfolding pin
  get-pin pins zone z key now h =
      ground (arith, get-insert zone z (record { key = key; pinned_at = now }) pins)

  Extends-refl : (pins : DnsPins) → Extends pins pins
  unfolding Extends
  Extends-refl pins zone e h = h

  Extends-pin :
      (pins : DnsPins) (zone key : Text) (now : ℕ)
      → get zone pins ≡ none
      → Extends pins (pin pins zone key now)
  unfolding Extends
  Extends-pin pins zone key now h z e g = ground (arith, get-pin pins zone z key now h)

  -- The outcome names a publisher only if its key is the one that is pinned.
  unfoldable pub OutcomeAgrees : DnsPins → Text → Result (ZoneOutcome Key) → Type 0
  OutcomeAgrees pins zone (ok (resolved p isnew relay seed)) =
      (e : PinEntry) × (get zone pins ≡ some e) × (e.key ≡ keys.to_text p)
  OutcomeAgrees pins zone (ok disabled) = Unit
  OutcomeAgrees pins zone (ok no_record) = Unit
  OutcomeAgrees pins zone (err e) = Unit

  -- Every publisher in the cache is the pinned one of its zone.
  unfoldable pub CacheAgrees : DnsService Key → Type 0
  CacheAgrees s =
      (zone : Text) (p : Key) (relay : Option Text) (seed : Option Key) (expires : ℕ)
      → get zone s.cache ≡ some (positive p relay seed expires)
      → (e : PinEntry) × (get zone s.pins ≡ some e) × (e.key ≡ keys.to_text p)

  -- What a resolution does to a service and answers about a zone.
  unfoldable pub Sticks : DnsService Key → Text → DnsService Key × Result (ZoneOutcome Key) → Type 0
  Sticks s zone out =
      Extends s.pins out.0.pins × CacheAgrees out.0 × OutcomeAgrees out.0.pins zone out.1

  CacheAgrees-pins :
      (s : DnsService Key) (pins : DnsPins)
      → CacheAgrees s
      → Extends s.pins pins
      → CacheAgrees (record s { pins = pins })
  unfolding CacheAgrees Extends
  CacheAgrees-pins s pins c x zone p relay seed expires h =
      let old = c zone p relay seed expires h in (old.0, x zone old.0 old.1, old.2)

  CacheAgrees-cache_positive :
      (s : DnsService Key) (zone : Text) (now : ℕ) (p : Key) (r : DnsRecord Key) (ttl : ℕ)
      (e : PinEntry)
      → CacheAgrees s
      → get zone s.pins ≡ some e
      → e.key ≡ keys.to_text p
      → CacheAgrees (cache_positive s zone now p r ttl)
  unfolding CacheAgrees cache_positive
  CacheAgrees-cache_positive s zone now p r ttl e c g k z q relay seed expires h =
      elim (Bool-cases (zone == z)) [
        | inl y ↦ (
          e,
          ground arith,
          ground (arith, get-insert zone z (positive p r.relay r.seed (now + min ttl 60)) s.cache),
        )
        | inr y ↦ c z q relay seed expires (
            ground
              (arith, get-insert zone z (positive p r.relay r.seed (now + min ttl 60)) s.cache))
      ]

  CacheAgrees-cache_negative :
      (s : DnsService Key) (zone : Text) (now : ℕ)
      → CacheAgrees s
      → CacheAgrees (cache_negative s zone now)
  unfolding CacheAgrees cache_negative
  CacheAgrees-cache_negative s zone now c z q relay seed expires h =
      c z q relay seed expires (ground (arith, get-insert zone z (negative (now + 30)) s.cache))

  settled-new :
      (s : DnsService Key) (zone : Text) (clock : Clock) (saved : Bool) (r : DnsRecord Key)
      (ttl : ℕ) (p : Key)
      → get zone s.pins ≡ none
      → CacheAgrees s
      → Sticks s zone (settle_with keys s zone clock saved r ttl (ok (new p)))
  unfolding settle_with Sticks OutcomeAgrees cache_positive
  settled-new s zone clock true r ttl p n c =
      let e : PinEntry = record { key = keys.to_text p; pinned_at = clock.unix } in
      let pins = pin s.pins zone (keys.to_text p) clock.unix in
      let x = Extends-pin s.pins zone (keys.to_text p) clock.unix n in
      let g : get zone pins ≡ some e =
        ground (arith, get-pin s.pins zone zone (keys.to_text p) clock.unix n) in
      (
        x,
        CacheAgrees-cache_positive (record s { pins = pins }) zone clock.instant p r ttl e
            (CacheAgrees-pins s pins c x) g refl,
        (e, g, refl),
      )
  settled-new s zone clock false r ttl p n c =
      let pins = pin s.pins zone (keys.to_text p) clock.unix in
      let x = Extends-pin s.pins zone (keys.to_text p) clock.unix n in
      (x, CacheAgrees-pins s pins c x, tt)

  settled :
      (s : DnsService Key) (zone : Text) (clock : Clock) (saved : Bool) (r : DnsRecord Key)
      (ttl : ℕ) (v : Result (DnsValidated Key))
      → validate_record keys crypto zone r s.pins s.max_age_secs clock.unix ≡ v
      → CacheAgrees s
      → Sticks s zone (settle_with keys s zone clock saved r ttl v)
  unfolding settle_with Sticks OutcomeAgrees cache_positive
  settled s zone clock saved r ttl (ok (new p)) q c =
      let a = validate_record-ok zone r s.pins s.max_age_secs clock.unix (new p) q in
      settled-new s zone clock saved r ttl p (agreement-new zone r s.pins p a.2).0 c
  settled s zone clock saved r ttl (ok (pinned p)) q c =
      let a = validate_record-ok zone r s.pins s.max_age_secs clock.unix (pinned p) q in
      let g = agreement-pinned zone r s.pins p a.2 in
      (
        Extends-refl s.pins,
        CacheAgrees-cache_positive s zone clock.instant p r ttl g.0 c g.1 g.2,
        (g.0, g.1, g.2),
      )
  settled s zone clock saved r ttl (err e) q c = (Extends-refl s.pins, c, tt)

  negative-Sticks :
      (s : DnsService Key) (zone : Text) (now : ℕ)
      → CacheAgrees s
      → Sticks s zone (cache_negative s zone now, ok no_record)
  unfolding Sticks OutcomeAgrees cache_negative
  negative-Sticks s zone now c = (Extends-refl s.pins, CacheAgrees-cache_negative s zone now c, tt)

  found-Sticks :
      (s : DnsService Key) (zone : Text) (clock : Clock) (saved : Bool)
      (found : Option (DnsRecord Key × ℕ))
      → CacheAgrees s
      → Sticks s zone (elim found as (λ f. DnsService Key × Result (ZoneOutcome Key)) [
        | none ↦ (cache_negative s zone clock.instant, ok no_record)
        | some (r, ttl) ↦ settle keys crypto parse s zone clock saved r ttl
      ])
  unfolding settle
  found-Sticks s zone clock saved none c = negative-Sticks s zone clock.instant c
  found-Sticks s zone clock saved (some (r, ttl)) c =
      settled s zone clock saved r ttl
        (validate_record keys crypto zone r s.pins s.max_age_secs clock.unix) refl c

  query-Sticks :
      (s : DnsService Key) (zone : Text) (clock : Clock) (saved : Bool)
      (answer : Option (List Answer))
      → CacheAgrees s
      → Sticks s zone (query keys crypto parse s zone clock saved answer)
  unfolding query
  query-Sticks s zone clock saved none c = negative-Sticks s zone clock.instant c
  query-Sticks s zone clock saved (some rs) c =
      found-Sticks s zone clock saved (first_record parse rs 4294967295) c

  hit_entry :
      (s : DnsService Key) (zone : Text) (now : ℕ) (entry : Cached Key)
      → get zone s.cache ≡ some entry
      → (p : Key) (isnew : Bool) (relay : Option Text) (seed : Option Key) → CacheAgrees s
      → cached s zone now ≡ some (resolved p isnew relay seed)
      → (e : PinEntry) × (get zone s.pins ≡ some e) × (e.key ≡ keys.to_text p)
  unfolding cached CacheAgrees
  hit_entry s zone now (positive q rl sd expires) g p isnew relay seed c h =
      let old = c zone q rl sd expires g in (old.0, old.1, ground (arith, old.2))
  hit_entry s zone now (negative expires) g p isnew relay seed c h = absurd (ground arith)

  unchanged-Sticks :
      (s : DnsService Key) (zone : Text) (o : Result (ZoneOutcome Key))
      → CacheAgrees s
      → OutcomeAgrees s.pins zone o
      → Sticks s zone (s, o)
  unfolding Sticks
  unchanged-Sticks s zone o c a = (Extends-refl s.pins, c, a)

  hit-Sticks :
      (s : DnsService Key) (zone : Text) (now : ℕ) (o : ZoneOutcome Key)
      → CacheAgrees s
      → cached s zone now ≡ some o
      → OutcomeAgrees s.pins zone (ok o)
  unfolding cached CacheAgrees OutcomeAgrees
  hit-Sticks s zone now disabled c h = tt
  hit-Sticks s zone now no_record c h = tt
  hit-Sticks s zone now (resolved p isnew relay seed) c h = elim (Option-cases (get zone s.cache)) [
    | inl n ↦ absurd (ground arith)
    | inr (hit, g) ↦ hit_entry s zone now hit g p isnew relay seed c h
  ]

  -- A resolution changes no pin that is there, whatever the answer; the cache goes on naming only
  -- pinned publishers; and a publisher that is returned is the one that is pinned afterwards.
  pub resolve_zone-Sticks :
      (s : DnsService Key) (zone : Text) (clock : Clock) (saved : Bool)
      (answer : Option (List Answer))
      → CacheAgrees s
      → Sticks s zone (resolve_zone keys crypto parse s zone clock saved answer)
  unfolding resolve_zone OutcomeAgrees
  resolve_zone-Sticks s zone clock saved answer c = elim (Bool-cases s.enabled) [
    | inr off ↦
        subst (λ out. Sticks s zone out) (ground arith) (unchanged-Sticks s zone (ok disabled) c tt)
    | inl on ↦ elim (Option-cases (cached s zone clock.instant)) [
      | inl miss ↦
          subst (λ out. Sticks s zone out) (ground arith) (query-Sticks s zone clock saved answer c)
      | inr (o, hit) ↦
          subst (λ out. Sticks s zone out) (ground arith)
            (unchanged-Sticks s zone (ok o) c (hit-Sticks s zone clock.instant o c hit))
    ]
  ]
