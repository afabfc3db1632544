-- ===== src/Node/Sweep/Live.antt =====
-- Pins over a sweep.
use ocid.Prelude.{
  ◌≡◌, refl, sym, ap, ◌∙◌, Bool, true, false, not, ◌&&◌, some, List, [], ◌∷◌, arith, map, ◌==◌, Eq,
  nat_eq, list_eq, contains, any, any-append, All, ==_sound, Bool-cases, Result-cases, inl, inr, ok,
}
use ocid.Prelude.Map.{Map, get, get-remove}
use ocid.Text.{Text}
use ocid.Identity.{Keys}
use ocid.Oci.Digest.{Digest, parse_digest, hex-parse_digest}
use ocid.Release.{Hash, BlobRef, Release, all_blobs, reference}
use ocid.Index.{Index, ReleaseKey, stored, list_releases, list_blob_refs}
use ocid.Store.{Store, list_pins, unpin_blob}
use ocid.Node.Retained.{any-stored}
use ocid.Node.Sweep.{live_hashes, drop_blob, sweep_pins, sweep_entries, sweep_blobs_locked}

some_inj : {A : Type 0} {a b : A} → some a ≡ some b → a ≡ b
some_inj h = cc

-- Each entry is the one that a lookup of its key finds: there is one to a key.
unfoldable pub OnePerKey : {V : Type 0} → Map Digest V → Type 0
OnePerKey m = All (λ e. get e.0 m ≡ some e.1) m

-- A listed pin of `d` is for `h`.
Agrees : Digest → Hash → Digest × Hash → Type 0
Agrees d h p = p.0 ≡ d → p.1 ≡ h

parse_digest-eq : (s d : Text) → parse_digest s ≡ ok d → d ≡ s
parse_digest-eq s d e = (hex-parse_digest s d e).2

listed-Agrees :
    (d : Digest) (h : Hash) (pins : Map Digest Hash) (k : Digest) (v : Hash) (x : Digest)
    → get d pins ≡ some h
    → get k pins ≡ some v
    → parse_digest k ≡ ok x
    → Agrees d h (x, v)
unfolding Agrees
listed-Agrees d h pins k v x g e q y =
    let same : k ≡ d = sym (parse_digest-eq k x q) ∙ y in
    some_inj (sym e ∙ ap (λ z. get z pins) same ∙ g)

module _ {Key : Type 0} where
  contains-live_hashes :
      (keys : Keys Key) (ignored : List Text) (rels : List (Release Key)) (h : Hash)
      → contains (live_hashes keys ignored rels) h
        ≡ any
            (λ r.
              not (contains ignored (reference keys r))
              && contains (map (λ b. b.hash) (all_blobs r)) h)
            rels
  unfolding live_hashes
  contains-live_hashes keys ignored [] h = refl
  contains-live_hashes keys ignored (r ∷ rs) h = ground (
    arith,
    contains-live_hashes keys ignored rs h,
    any-append (λ x. x == h) (map (λ b. b.hash) (all_blobs r)) (live_hashes keys ignored rs),
  )

  list_pins-Agrees :
      (d : Digest) (h : Hash) (st : Store Key) (m : Map Digest Hash)
      → get d st.pins ≡ some h
      → All (λ e. get e.0 st.pins ≡ some e.1) m
      → All (Agrees d h) (list_pins (record st { pins = m }))
  unfolding list_pins parse_digest
  list_pins-Agrees d h st [] g a = tt
  list_pins-Agrees d h st ((k, v) ∷ m) g a = elim (Result-cases (parse_digest k)) [
    | inl (x, q) ↦ rw q (listed-Agrees d h st.pins k v x g a.0 q, list_pins-Agrees d h st m g a.1)
    | inr (e, q) ↦ rw q (list_pins-Agrees d h st m g a.1)
  ]

  drop_blob-pins :
      (dry : Bool) (st : Store Key) (d x : Digest)
      → (x == d) ≡ false
      → get d (drop_blob dry st x).pins ≡ get d st.pins
  unfolding drop_blob unpin_blob
  drop_blob-pins true st d x n = refl
  drop_blob-pins false st d x n = ground (arith, get-remove x d st.pins)

  sweep_pins-keeps :
      (dry : Bool) (live : List Hash) (d : Digest) (h : Hash) (ps : List (Digest × Hash))
      (st : Store Key)
      → contains live h ≡ true
      → All (Agrees d h) ps
      → get d (sweep_pins dry live ps st).0.pins ≡ get d st.pins
  unfolding sweep_pins Agrees
  sweep_pins-keeps dry live d h [] st l a = refl
  sweep_pins-keeps dry live d h ((x, g) ∷ ps) st l a = elim (Bool-cases (contains live g)) [
    | inl c ↦ ground (arith, sweep_pins-keeps dry live d h ps st l a.1)
    | inr c ↦
        let other : (x == d) ≡ false = elim (Bool-cases (x == d)) [
          | inl e ↦ absurd (ground (arith, a.0 (==_sound e)))
          | inr e ↦ e
        ] in
        ground (
          arith,
          sweep_pins-keeps dry live d h ps (drop_blob dry st x) l a.1,
          drop_blob-pins dry st d x other,
        )
  ]

  sweep_entries-pins :
      (dry : Bool) (live pinned : List Hash) (bs : List BlobRef) (st : Store Key)
      → (sweep_entries dry live pinned bs st).pins ≡ st.pins
  unfolding sweep_entries
  sweep_entries-pins dry live pinned [] st = refl
  sweep_entries-pins dry live pinned (b ∷ bs) st =
      sweep_entries-pins dry live pinned bs _ ∙ ground arith

  live_hashes-stored :
      ⦃eq : Eq Key⦄ (keys : Keys Key) (ignored : List Text) (ix : Index Key) (k : ReleaseKey Key)
      (r : Release Key) (h : Hash)
      → stored ix k ≡ some r
      → contains ignored (reference keys r) ≡ false
      → contains (map (λ b. b.hash) (all_blobs r)) h ≡ true
      → contains (live_hashes keys ignored (list_releases keys ix)) h ≡ true
  live_hashes-stored keys ignored ix k r h s i c =
      contains-live_hashes keys ignored (list_releases keys ix) h
      ∙ any-stored keys ix
          (λ r.
            not (contains ignored (reference keys r))
            && contains (map (λ b. b.hash) (all_blobs r)) h)
          k r s (ground arith)

  -- Where each digest has one pin: the pin of a digest, if it is for the hash of a blob of a stored
  -- release that is not ignored, is there after the sweep, dry or not.
  pub sweep_blobs_locked-pins :
      ⦃eq : Eq Key⦄ (keys : Keys Key) (dry : Bool) (ignored : List Text) (st : Store Key)
      (k : ReleaseKey Key) (r : Release Key) (d : Digest) (h : Hash)
      → OnePerKey st.pins
      → stored st.index k ≡ some r
      → contains ignored (reference keys r) ≡ false
      → contains (map (λ b. b.hash) (all_blobs r)) h ≡ true
      → get d st.pins ≡ some h
      → get d (sweep_blobs_locked keys dry ignored st).0.pins ≡ some h
  unfolding sweep_blobs_locked OnePerKey
  sweep_blobs_locked-pins keys dry ignored st k r d h one s i c g =
      let live = live_hashes keys ignored (list_releases keys st.index) in
      let swept = (sweep_pins dry live (list_pins st) st).0 in
      ap (λ m. get d m)
        (sweep_entries-pins dry live (map (λ p. p.1) (list_pins swept)) (list_blob_refs swept.index)
          swept)
      ∙ sweep_pins-keeps dry live d h (list_pins st) st
          (live_hashes-stored keys ignored st.index k r h s i c)
          (list_pins-Agrees d h st st.pins g one)
      ∙ g
