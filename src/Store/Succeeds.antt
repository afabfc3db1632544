-- ===== src/Store/Succeeds.antt =====
-- When a fetch (crates/ocid/src/node.rs) succeeds.
use ocid.Prelude.{
  ℕ, ◌≡◌, refl, subst, sym, ap, ◌∙◌, false, not, some, List, [], ◌∷◌, arith, ◌==◌, Eq, nat_eq,
  list_eq, length, All, retain, Result, ok, err, Bool-cases, Option-cases, inl, inr,
}
use ocid.Prelude.Map.{get, insert, get-insert}
use ocid.Release.{Hash, BlobRef, Release, Crypto, all_blobs, verify}
use ocid.Release.Signing.{verify_sound}
use ocid.Index.{blob_ref}
use ocid.Index.Releases.{put_release_form}
use ocid.Store.{Store, Hashes, has_hash, record_blob, verify_blob}
use ocid.Store.Fetch.{
  Download, and_then, no_providers, admit, fetch_blob, fetch_blobs, store_release,
  fetch_release_inner, fetch_release,
}

pub and_then_next :
    {S : Type 0} (out : S × Result (Unit {0})) (f : S → S × Result (Unit {0}))
    → out.1 ≡ ok tt
    → and_then out f ≡ f out.0
and_then_next (st, ok u) f h = refl
and_then_next (st, err e) f h = absurd (cc)

module _ (hashes : Hashes) (content : Hash → List ℕ) where
  -- The data with the hash of the blob has the blob's digest and size.
  abbrev pub Matches : BlobRef → Type 0
  Matches b = (hashes.sha256 (content b.hash) ≡ b.digest) × (length (content b.hash) ≡ b.size)

module _ {Key : Type 0} (content : Hash → List ℕ) where
  -- Data is held under its own hash only: `content` is the data that has the hash.
  unfoldable pub IsAddressed : Store Key → Type 0
  IsAddressed st = (h : Hash) (bytes : List ℕ) → get h st.blobs ≡ some bytes → bytes ≡ content h

module _ {Key : Type 0} (hashes : Hashes) (content : Hash → List ℕ) where
  admit_succeeds :
      (st : Store Key) (b : BlobRef) (bytes : List ℕ)
      → Matches hashes content b
      → get b.hash st.blobs ≡ some bytes
      → bytes ≡ content b.hash
      → admit hashes st b ≡ (record_blob st b, ok tt)
  unfolding admit verify_blob
  admit_succeeds st b bytes m g e =
      let same : hashes.sha256 bytes ≡ b.digest = ap hashes.sha256 e ∙ m.0 in
      let long : length bytes ≡ b.size = ap length e ∙ m.1 in ground (arith, same, long, g)

  pub add_content-IsAddressed :
      (st : Store Key) (h : Hash)
      → IsAddressed content st
      → IsAddressed content (record st { blobs = insert h (content h) st.blobs })
  unfolding IsAddressed
  add_content-IsAddressed st h a x bytes q = elim (Bool-cases (h == x)) [
    | inl e ↦ ground (arith, get-insert h x (content h) st.blobs)
    | inr e ↦ a x bytes (ground (arith, get-insert h x (content h) st.blobs))
  ]

  pub record_blob-IsAddressed :
      (st : Store Key) (b : BlobRef)
      → IsAddressed content st
      → IsAddressed content (record_blob st b)
  unfolding IsAddressed record_blob
  record_blob-IsAddressed st b a x bytes q = a x bytes q

  -- What a step that was fine left.
  Fine : Store Key × Result (Unit {0}) → Type 0
  Fine out = (out.1 ≡ ok tt) × IsAddressed content out.0

  admit-Fine :
      (st : Store Key) (b : BlobRef) (bytes : List ℕ)
      → Matches hashes content b
      → IsAddressed content st
      → get b.hash st.blobs ≡ some bytes
      → Fine (admit hashes st b)
  unfolding Fine IsAddressed
  admit-Fine st b bytes m a g =
      let e = admit_succeeds st b bytes m g (a b.hash bytes g) in
      (
        ap (λ o. o.1) e,
        subst (λ o. IsAddressed content o.0) (sym e) (record_blob-IsAddressed st b a),
      )

  fetch_blob-Fine :
      (download : Download Key) (ps : List Key) (st : Store Key) (b : BlobRef)
      → no_providers ps ≡ false
      → Matches hashes content b
      → download b.hash ps ≡ some (content b.hash)
      → IsAddressed content st
      → Fine (fetch_blob hashes download ps st b)
  unfolding fetch_blob has_hash Fine
  fetch_blob-Fine download ps st b p m d a = elim (Option-cases (get b.hash st.blobs)) [
    | inr (bytes, g) ↦ elim (Option-cases (blob_ref st.index b.digest)) [
      | inl n ↦
          let e : fetch_blob hashes download ps st b ≡ admit hashes st b = ground arith in
          subst Fine (sym e) (admit-Fine st b bytes m a g)
      | inr (r, q) ↦
          let e : fetch_blob hashes download ps st b ≡ (st, ok tt) = ground arith in
          subst Fine (sym e) (refl, a)
    ]
    | inl g ↦
        let st' : Store Key = record st { blobs = insert b.hash (content b.hash) st.blobs } in
        let e : fetch_blob hashes download ps st b ≡ admit hashes st' b = ground arith in
        subst Fine (sym e) (
          admit-Fine st' b (content b.hash) m (add_content-IsAddressed st b.hash a)
            (ground (arith, get-insert b.hash b.hash (content b.hash) st.blobs)))
  ]

  fetch_blobs-Fine :
      (download : Download Key) (ps : List Key) (st : Store Key) (bs : List BlobRef)
      → no_providers ps ≡ false
      → All (Matches hashes content) bs
      → All (λ b. download b.hash ps ≡ some (content b.hash)) bs
      → IsAddressed content st
      → Fine (fetch_blobs hashes download ps st bs)
  unfolding fetch_blobs Fine
  fetch_blobs-Fine download ps st [] p m d a = (refl, a)
  fetch_blobs-Fine download ps st (b ∷ bs) p m d a =
      let here = fetch_blob-Fine download ps st b p m.0 d.0 a in
      let next =
        fetch_blobs-Fine download ps (fetch_blob hashes download ps st b).0 bs p m.1 d.1 here.1 in
      let e =
        and_then_next (fetch_blob hashes download ps st b)
          (λ st'. fetch_blobs hashes download ps st' bs) here.0 in
      subst Fine (sym e) next

module _ {Key Secret : Type 0} ⦃eq : Eq Key⦄ (hashes : Hashes) (crypto : Crypto Key Secret)
    (content : Hash → List ℕ) where
  store_release_succeeds :
      (st : Store Key) (r : Release Key) (now : ℕ)
      → verify crypto r ≡ ok tt
      → (store_release hashes crypto st r now).1 ≡ ok tt
  unfolding store_release
  store_release_succeeds st r now v =
      let sound = verify_sound crypto r v in ground (arith, put_release_form st.index r now)

  -- A fetch of a release that is verified succeeds if there is a provider besides the node itself,
  -- and the providers send for every blob the data that has its hash, and that data has the digest
  -- and the size that the release says, as all data that is held already has its hash.
  pub fetch_release_succeeds :
      (download : Download Key) (me : Key) (st : Store Key) (r : Release Key) (ps : List Key)
      (now : ℕ)
      → verify crypto r ≡ ok tt
      → no_providers (retain (λ p. not (p == me)) ps) ≡ false
      → All (Matches hashes content) (all_blobs r)
      → All
          (λ b. download b.hash (retain (λ p. not (p == me)) ps) ≡ some (content b.hash))
          (all_blobs r)
      → IsAddressed content st
      → (fetch_release hashes crypto download me st r ps now).1 ≡ ok tt
  unfolding fetch_release fetch_release_inner Fine
  fetch_release_succeeds download me st r ps now v p m d a =
      let others = retain (λ p. not (p == me)) ps in
      let got = fetch_blobs hashes download others st (all_blobs r) in
      let fine = fetch_blobs-Fine hashes content download others st (all_blobs r) p m d a in
      let put = store_release_succeeds got.0 r now v in
      let e = and_then_next got (λ st'. store_release hashes crypto st' r now) fine.0 in
      ground (arith, v, e, put)
