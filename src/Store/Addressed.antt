-- ===== src/Store/Addressed.antt =====
-- That data stays under its own hash in a fetch (`fetch_release` of crates/ocid/src/node.rs).
use ocid.Prelude.{
  ℕ, ◌≡◌, subst, sym, not, some, List, [], ◌∷◌, Eq, ◌==◌, nat_eq, list_eq, retain, Result,
  Bool-keeps, Option-keeps, Result-keeps,
}
use ocid.Prelude.Map.{insert}
use ocid.Release.{Hash, BlobRef, Release, Crypto, all_blobs, verify}
use ocid.Index.{blob_ref, put_release}
use ocid.Store.{Store, Hashes, has_hash, verify_blob}
use ocid.Store.Fetch.{
  Download, no_providers, admit, fetch_blob, fetch_blobs, store_release, fetch_release_inner,
  fetch_release,
}
use ocid.Store.Sound.{and_then-keeps}
use ocid.Store.Succeeds.{IsAddressed, add_content-IsAddressed, record_blob-IsAddressed}

-- Every provider's stream is checked against the hash that was asked for.
unfoldable pub IsHonest : {Key : Type 0} → (Hash → List ℕ) → Download Key → Type 0
IsHonest {Key} content download =
    (h : Hash) (ps : List Key) (bytes : List ℕ) → download h ps ≡ some bytes → bytes ≡ content h

module _ {Key Secret : Type 0} ⦃eq : Eq Key⦄ (hashes : Hashes) (crypto : Crypto Key Secret)
    (content : Hash → List ℕ) where
  abbrev At : Store Key × Result (Unit {0}) → Type 0
  At out = IsAddressed content out.0

  admit-IsAddressed :
      (st : Store Key) (b : BlobRef)
      → IsAddressed content st
      → IsAddressed content (admit hashes st b).0
  unfolding admit
  admit-IsAddressed st b a =
      Result-keeps At (verify_blob hashes st b) _ _ (λ e. a)
        (λ u q. record_blob-IsAddressed hashes content st b a)

  pub store_release-IsAddressed :
      (st : Store Key) (r : Release Key) (now : ℕ)
      → IsAddressed content st
      → IsAddressed content (store_release hashes crypto st r now).0
  unfolding store_release IsAddressed
  store_release-IsAddressed st r now a =
      Result-keeps At (put_release st.index r now) _ _ (λ e. a) (λ out q. a)

  module _ (download : Download Key) (honest : IsHonest content download) where
    downloaded-IsAddressed :
        (ps : List Key) (st : Store Key) (h : Hash) (bytes : List ℕ)
        → download h ps ≡ some bytes
        → IsAddressed content st
        → IsAddressed content (record st { blobs = insert h bytes st.blobs })
    unfolding IsHonest
    downloaded-IsAddressed ps st h bytes q a =
        subst (λ b. IsAddressed content (record st { blobs = insert h b st.blobs }))
          (sym (honest h ps bytes q)) (add_content-IsAddressed hashes content st h a)

    fetch_blob-IsAddressed :
        (ps : List Key) (st : Store Key) (b : BlobRef)
        → IsAddressed content st
        → IsAddressed content (fetch_blob hashes download ps st b).0
    unfolding fetch_blob
    fetch_blob-IsAddressed ps st b a =
        Bool-keeps At (not (has_hash st b.hash)) _ _
          (λ c.
            Bool-keeps At (no_providers ps) _ _ (λ n. a)
              (λ n.
                Option-keeps At (download b.hash ps) _ _ a (λ bytes q.
                  admit-IsAddressed _ b (downloaded-IsAddressed ps st b.hash bytes q a))))
          (λ c.
            Option-keeps At (blob_ref st.index b.digest) _ _ (admit-IsAddressed st b a) (λ r q. a))

    fetch_blobs-IsAddressed :
        (ps : List Key) (bs : List BlobRef) (st : Store Key)
        → IsAddressed content st
        → IsAddressed content (fetch_blobs hashes download ps st bs).0
    unfolding fetch_blobs
    fetch_blobs-IsAddressed ps [] st a = a
    fetch_blobs-IsAddressed ps (b ∷ bs) st a =
        and_then-keeps (IsAddressed content) (fetch_blob hashes download ps st b) _
          (fetch_blob-IsAddressed ps st b a) (λ st' a'. fetch_blobs-IsAddressed ps bs st' a')

    pub fetch_release-IsAddressed :
        (me : Key) (st : Store Key) (r : Release Key) (ps : List Key) (now : ℕ)
        → IsAddressed content st
        → IsAddressed content (fetch_release hashes crypto download me st r ps now).0
    unfolding fetch_release fetch_release_inner
    fetch_release-IsAddressed me st r ps now a =
        and_then-keeps (IsAddressed content) (st, verify crypto r) _ a
          (λ st1 a1.
            and_then-keeps (IsAddressed content)
              (fetch_blobs hashes download (retain (λ p. not (p == me)) ps) st1 (all_blobs r)) _
              (fetch_blobs-IsAddressed (retain (λ p. not (p == me)) ps) (all_blobs r) st1 a1)
              (λ st2 a2. store_release-IsAddressed st2 r now a2))
