-- ===== src/Store/Grows.antt =====
-- Records that stay: what fetching and storing a release do to the records that are there.
use ocid.Prelude.{
  ℕ, ◌≤◌, ◌≡◌, refl, ap, ◌∙◌, Bool, not, some, List, [], ◌∷◌, arith, ◌==◌, ==_sound, Eq, nat_eq,
  list_eq, pair_eq, retain, Result, ok, Bool-cases, Option-keeps, Result-keeps, Bool-keeps, inl,
  inr,
}
use ocid.Prelude.Map.{get, insert}
use ocid.Release.{BlobRef, Release, Crypto, all_blobs, verify, supersedes}
use ocid.Index.{Index, put_blob_ref, blob_ref, put_release, stored, key_of, accepts}
use ocid.Index.Releases.{stored-put_release}
use ocid.Store.{Store, Hashes, record_blob, verify_blob, has_hash}
use ocid.Store.Fetch.{
  Download, no_providers, admit, fetch_blob, fetch_blobs, store_release, fetch_release_inner,
  fetch_release,
}
use ocid.Store.Sound.{and_then-keeps}

module _ {Key : Type 0} ⦃eq : Eq Key⦄ where
  -- Under the key of `r` there is a record with that key, and it is not older than `r`.
  unfoldable pub Keeps : Release Key → Index Key → Type 0
  Keeps r ix =
      (s : Release Key) × (stored ix (key_of r) ≡ some s)
      × (key_of s ≡ key_of r)
      × (r.payload.timestamp ≤ s.payload.timestamp)

  put_release-Keeps :
      (r new : Release Key) (ix : Index Key) (now : ℕ) (out : Index Key × Bool)
      → put_release ix new now ≡ ok out
      → Keeps r ix
      → Keeps r out.0
  unfolding Keeps accepts supersedes
  put_release-Keeps r new ix now out h (s, q, k, t) =
      let p = stored-put_release ix out.0 new now out.1 h in
      elim (Bool-cases (key_of new == key_of r)) [
        | inr e ↦ (s, ground (arith, p.1 (key_of r)), k, t)
        | inl e ↦ elim (Bool-cases out.1) [
          | inr w ↦ (s, ground (arith, p.1 (key_of r)), k, t)
          | inl w ↦
              let same : key_of new ≡ key_of r = ==_sound e in
              (new, ground (arith, p.1 (key_of r)), same, ground (arith, p.0, ap (stored ix) same))
        ]
      ]

module _ {Key : Type 0} (hashes : Hashes) where
  admit-releases :
      (st : Store Key) (b : BlobRef) → (admit hashes st b).0.index.releases ≡ st.index.releases
  unfolding admit record_blob put_blob_ref
  admit-releases st b =
      Result-keeps {B = Store Key × Result (Unit {0})} (λ o. o.0.index.releases ≡ st.index.releases)
        (verify_blob hashes st b) _ _ (λ e. refl) (λ u q. refl)

  fetch_blob-releases :
      (download : Download Key) (ps : List Key) (st : Store Key) (b : BlobRef)
      → (fetch_blob hashes download ps st b).0.index.releases ≡ st.index.releases
  unfolding fetch_blob
  fetch_blob-releases download ps st b =
      Bool-keeps {B = Store Key × Result (Unit {0})} (λ o. o.0.index.releases ≡ st.index.releases)
        (not (has_hash st b.hash)) _ _
        (λ n.
          Bool-keeps {B = Store Key × Result (Unit {0})}
            (λ o. o.0.index.releases ≡ st.index.releases) (no_providers ps) _ _ (λ z. refl)
            (λ z.
              Option-keeps {B = Store Key × Result (Unit {0})}
                (λ o. o.0.index.releases ≡ st.index.releases) (download b.hash ps) _ _ refl
                (λ bytes q. admit-releases (record st { blobs = insert b.hash bytes st.blobs }) b)))
        (λ n.
          Option-keeps {B = Store Key × Result (Unit {0})}
            (λ o. o.0.index.releases ≡ st.index.releases) (blob_ref st.index b.digest) _ _
            (admit-releases st b) (λ r q. refl))

  fetch_blobs-releases :
      (download : Download Key) (ps : List Key) (st st' : Store Key) (bs : List BlobRef)
      → st'.index.releases ≡ st.index.releases
      → (fetch_blobs hashes download ps st' bs).0.index.releases ≡ st.index.releases
  unfolding fetch_blobs
  fetch_blobs-releases download ps st st' [] h = h
  fetch_blobs-releases download ps st st' (b ∷ bs) h =
      and_then-keeps (λ x. x.index.releases ≡ st.index.releases)
        (fetch_blob hashes download ps st' b) _ (fetch_blob-releases download ps st' b ∙ h)
        (λ x h'. fetch_blobs-releases download ps st x bs h')

module _ {Key Secret : Type 0} ⦃eq : Eq Key⦄ (hashes : Hashes) (crypto : Crypto Key Secret) where
  pub store_release-Keeps :
      (r new : Release Key) (st : Store Key) (now : ℕ)
      → Keeps r st.index
      → Keeps r (store_release hashes crypto st new now).0.index
  unfolding store_release
  store_release-Keeps r new st now k =
      Result-keeps {B = Store Key × Result (Unit {0})} (λ o. Keeps r o.0.index)
        (put_release st.index new now) _ _ (λ e. k)
        (λ out q. put_release-Keeps r new st.index now out q k)

  same-Keeps :
      (r : Release Key) (ix jx : Index Key) → jx.releases ≡ ix.releases → Keeps r ix → Keeps r jx
  unfolding Keeps stored
  same-Keeps r ix jx e (s, q, k, t) = (s, ground (arith, ap (get (key_of r)) e, q), k, t)

  -- A fetch of whatever release takes no record away and puts no older one in its place.
  pub fetch_release-Keeps :
      (r new : Release Key) (download : Download Key) (me : Key) (st : Store Key) (ps : List Key)
      (now : ℕ)
      → Keeps r st.index
      → Keeps r (fetch_release hashes crypto download me st new ps now).0.index
  unfolding fetch_release fetch_release_inner
  fetch_release-Keeps r new download me st ps now k =
      and_then-keeps (λ x. Keeps r x.index) (st, verify crypto new) _ k
        (λ st' k'.
          and_then-keeps (λ x. Keeps r x.index)
            (fetch_blobs hashes download (retain (λ p. not (p == me)) ps) st' (all_blobs new)) _
            (same-Keeps r st'.index _
              (fetch_blobs-releases hashes download (retain (λ p. not (p == me)) ps) st' st'
                (all_blobs new) refl)
              k')
            (λ x k''. store_release-Keeps r new x now k''))
