-- ===== src/Store/Complete.antt =====
-- What the store holds after a fetch that succeeds.
use ocid.Prelude.{
  ℕ, ◌≤◌, ◌≡◌, refl, subst, sym, ap, ◌∙◌, Bool, true, not, ◌&&◌, some, List, [], ◌∷◌, arith, ◌==◌,
  Eq, nat_eq, list_eq, all, retain, Result, ok, err, Bool-cases, Option-cases, Result-cases, inl,
  inr,
}
use ocid.Prelude.Map.{insert, has_key, get-insert}
use ocid.Release.{Hash, BlobRef, Release, Crypto, all_blobs, verify, supersedes}
use ocid.Index.{Index, blob_ref, put_blob_ref, put_release, is_indexed, stored, key_of, accepts}
use ocid.Index.Releases.{put_release_blobs, stored-put_release}
use ocid.Store.{Store, Hashes, has_hash, record_blob, verify_blob, is_complete}
use ocid.Store.Fetch.{
  Download, and_then, admit, fetch_blob, fetch_blobs, store_release, fetch_release_inner,
  fetch_release,
}
use ocid.Store.Sound.{and_then-keeps}

-- What comes after a step that was fine.
and_then_ok :
    {S : Type 0} (step : S × Result (Unit {0})) (f : S → S × Result (Unit {0})) {u : Unit {0}}
    → (and_then step f).1 ≡ ok u
    → (step.1 ≡ ok tt) × (and_then step f ≡ f step.0)
and_then_ok (st, ok u) f h = (refl, refl)
and_then_ok (st, err e) f h = cc

module _ {Key : Type 0} (hashes : Hashes) where
  -- The data of the blob is there, and so is its index entry.
  unfoldable held : BlobRef → Store Key → Bool
  held b st = has_hash st b.hash && has_key b.digest st.index.blobs

  held-admit :
      (x b : BlobRef) (st : Store Key) → held x st ≡ true → held x (admit hashes st b).0 ≡ true
  unfolding held admit record_blob put_blob_ref has_hash
  held-admit x b st h = elim (Result-cases (verify_blob hashes st b)) [
    | inl (u, v) ↦ ground (arith, get-insert b.digest x.digest b st.index.blobs)
    | inr (e, v) ↦ ground arith
  ]

  add_held :
      (x : BlobRef) (k : Hash) (bytes : List ℕ) (st : Store Key)
      → held x st ≡ true
      → held x (record st { blobs = insert k bytes st.blobs }) ≡ true
  unfolding held has_hash
  add_held x k bytes st h = ground (arith, get-insert k x.hash bytes st.blobs)

  held-fetch_blob :
      (download : Download Key) (ps : List Key) (x b : BlobRef) (st : Store Key)
      → held x st ≡ true
      → held x (fetch_blob hashes download ps st b).0 ≡ true
  unfolding fetch_blob
  held-fetch_blob download ps x b st h = elim (Option-cases (download b.hash ps)) [
    | inl n ↦ ground (arith, held-admit x b st)
    | inr (bytes, q) ↦ ground (
      arith,
      held-admit x b st,
      add_held x b.hash bytes st,
      held-admit x b (record st { blobs = insert b.hash bytes st.blobs }),
    )
  ]

  admit_ok :
      (b : BlobRef) (st : Store Key)
      → has_hash st b.hash ≡ true
      → (admit hashes st b).1 ≡ ok tt
      → held b (admit hashes st b).0 ≡ true
  unfolding held admit record_blob put_blob_ref has_hash
  admit_ok b st g h = elim (Result-cases (verify_blob hashes st b)) [
    | inl (u, v) ↦ ground (arith, get-insert b.digest b.digest b st.index.blobs)
    | inr (e, v) ↦ ground arith
  ]

  has_hash-insert :
      (st : Store Key) (k : Hash) (bytes : List ℕ)
      → has_hash (record st { blobs = insert k bytes st.blobs }) k ≡ true
  unfolding has_hash
  has_hash-insert st k bytes = ground (arith, get-insert k k bytes st.blobs)

  fetch_blob_ok :
      (download : Download Key) (ps : List Key) (b : BlobRef) (st : Store Key)
      → (fetch_blob hashes download ps st b).1 ≡ ok tt
      → held b (fetch_blob hashes download ps st b).0 ≡ true
  unfolding fetch_blob held blob_ref
  fetch_blob_ok download ps b st h = elim (Bool-cases (has_hash st b.hash)) [
    | inl p ↦ ground (arith, admit_ok b st)
    | inr p ↦ elim (Option-cases (download b.hash ps)) [
      | inl n ↦ absurd (ground arith)
      | inr (bytes, q) ↦ ground (
        arith,
        admit_ok b (record st { blobs = insert b.hash bytes st.blobs }),
        has_hash-insert st b.hash bytes,
      )
    ]
  ]

  held-fetch_blobs :
      (download : Download Key) (ps : List Key) (x : BlobRef) (bs : List BlobRef) (st : Store Key)
      → held x st ≡ true
      → held x (fetch_blobs hashes download ps st bs).0 ≡ true
  unfolding fetch_blobs
  held-fetch_blobs download ps x [] st h = h
  held-fetch_blobs download ps x (b ∷ bs) st h =
      and_then-keeps (λ st. held x st ≡ true) (fetch_blob hashes download ps st b) _
        (held-fetch_blob download ps x b st h) (λ st' h'. held-fetch_blobs download ps x bs st' h')

  fetch_blobs_ok :
      (download : Download Key) (ps : List Key) (bs : List BlobRef) (st : Store Key)
      → (fetch_blobs hashes download ps st bs).1 ≡ ok tt
      → all (λ b. held b (fetch_blobs hashes download ps st bs).0) bs ≡ true
  unfolding fetch_blobs
  fetch_blobs_ok download ps [] st h = refl
  fetch_blobs_ok download ps (b ∷ bs) st h =
      let step = fetch_blob hashes download ps st b in
      let next = and_then_ok step (λ st'. fetch_blobs hashes download ps st' bs) h in
      let here = held-fetch_blobs download ps b bs step.0 (fetch_blob_ok download ps b st next.0) in
      let rest = fetch_blobs_ok download ps bs step.0 (ap (λ x. x.1) (sym next.1) ∙ h) in
      subst (λ out. all (λ x. held x out.0) (b ∷ bs) ≡ true) (sym next.1) (ground arith)

  all-held :
      (st : Store Key) (bs : List BlobRef)
      → all (λ b. held b st) bs ≡ true
      → (all (λ b. has_hash st b.hash) bs ≡ true)
        × (all (λ b. has_key b.digest st.index.blobs) bs ≡ true)
  unfolding held
  all-held st [] h = (refl, refl)
  all-held st (b ∷ bs) h = ground (arith, all-held st bs)

module _ {Key Secret : Type 0} ⦃eq : Eq Key⦄ (hashes : Hashes) (crypto : Crypto Key Secret) where
  -- What a release that was put stands behind.
  AtLeast : Release Key → Store Key → Type 0
  AtLeast r st =
      (s : Release Key) × (stored st.index (key_of r) ≡ some s)
      × (r.payload.timestamp ≤ s.payload.timestamp)

  put_AtLeast :
      (st : Store Key) (r : Release Key) (now : ℕ) {out : Index Key × Bool}
      → put_release st.index r now ≡ ok out
      → AtLeast r (record st { index = out.0 })
  unfolding AtLeast accepts supersedes
  put_AtLeast st r now {out} h =
      let p = stored-put_release st.index out.0 r now out.1 h in
      let after = p.1 (key_of r) in
      elim (Option-cases (stored st.index (key_of r))) [
        | inl n ↦ (r, ground arith, omega arith)
        | inr (s, q) ↦ elim (Bool-cases out.1) [
          | inl w ↦ (r, ground arith, omega arith)
          | inr w ↦ (s, ground arith, ground arith)
        ]
      ]

  -- The end of a fetch.
  Kept : Release Key → Store Key → Store Key × Result (Unit {0}) → Type 0
  Kept r st out = AtLeast r out.0 × (out.0.blobs ≡ st.blobs) × (out.0.index.blobs ≡ st.index.blobs)

  put_Kept :
      (st : Store Key) (r : Release Key) (now : ℕ) (o : Result (Index Key × Bool))
      → put_release st.index r now ≡ o
      → (elim o as (λ v. Store Key × Result (Unit {0})) [
        | ok out ↦ (record st { index = out.0 }, ok tt)
        | err e ↦ (st, err e)
      ]).1
        ≡ ok tt
      → Kept r st (elim o as (λ v. Store Key × Result (Unit {0})) [
        | ok out ↦ (record st { index = out.0 }, ok tt)
        | err e ↦ (st, err e)
      ])
  unfolding Kept
  put_Kept st r now (ok (jx, w)) q h =
      (put_AtLeast st r now q, refl, put_release_blobs st.index jx r now w q)
  put_Kept st r now (err e) q h = absurd (cc)

  store_release_ok :
      (st : Store Key) (r : Release Key) (now : ℕ)
      → (store_release hashes crypto st r now).1 ≡ ok tt
      → Kept r st (store_release hashes crypto st r now)
  unfolding store_release
  store_release_ok st r now h = put_Kept st r now (put_release st.index r now) refl h

  -- A fetch that succeeds was of a verified release; all its data is there, every blob of it is
  -- indexed, and under its key stands that release or one that is at least as new.
  pub fetch_release_ok :
      (download : Download Key) (me : Key) (st : Store Key) (r : Release Key) (ps : List Key)
      (now : ℕ)
      → (fetch_release hashes crypto download me st r ps now).1 ≡ ok tt
      → (verify crypto r ≡ ok tt)
        × (is_complete (fetch_release hashes crypto download me st r ps now).0 r ≡ true)
        × (is_indexed (fetch_release hashes crypto download me st r ps now).0.index r ≡ true)
        × ((s : Release Key) × (stored
                (fetch_release hashes crypto download me st r ps now).0.index
                (key_of r)
              ≡ some s)
            × (r.payload.timestamp ≤ s.payload.timestamp))
  unfolding fetch_release fetch_release_inner is_complete is_indexed has_hash AtLeast Kept
  fetch_release_ok download me st r ps now h =
      let checked = and_then_ok (st, verify crypto r) _ h in
      let got = fetch_blobs hashes download (retain (λ p. not (p == me)) ps) st (all_blobs r) in
      let inner : (and_then got (λ st'. store_release hashes crypto st' r now)).1 ≡ ok tt =
        ap (λ x. x.1) (sym checked.1) ∙ h in
      let fetched = and_then_ok got (λ st'. store_release hashes crypto st' r now) inner in
      let put = store_release_ok got.0 r now (ap (λ x. x.1) (sym fetched.1) ∙ inner) in
      let held_all =
        all-held hashes got.0 (all_blobs r)
          (fetch_blobs_ok hashes download _ (all_blobs r) st fetched.0) in
      let end : fetch_release hashes crypto download me st r ps now
          ≡ store_release hashes crypto got.0 r now =
        checked.1 ∙ fetched.1 in
      (
        checked.0,
        subst (λ m. all (λ b. has_key b.hash m) (all_blobs r) ≡ true)
            (sym (ap (λ o. o.0.blobs) end ∙ put.1)) held_all.0,
        subst (λ m. all (λ b. has_key b.digest m) (all_blobs r) ≡ true)
            (sym (ap (λ o. o.0.index.blobs) end ∙ put.2)) held_all.1,
        subst (λ o. AtLeast r o.0) (sym end) put.0,
      )
