-- ===== src/Registry/Manifests/Ends.antt =====
-- That gathering the blobs of a manifest (crates/ocid/src/registry.rs) comes to an end, whatever the
-- indexes refer to, themselves included.
use ocid.Prelude.{
  ℕ, zero, suc, ◌≤◌, ◌<◌, ◌≡◌, refl, subst, sym, ap, ◌∙◌, Bool, true, false, not, ◌&&◌, none, some,
  List, [], ◌∷◌, ◌++◌, arith, ◌==◌, ==_refl, Eq, nat_eq, list_eq, length, any-append, count,
  Option-keeps, Result-keeps, Bool-keeps, Bool-cases, Option-cases, inl, inr,
}
use ocid.Prelude.Map.{Map, get, insert, get-insert}
use ocid.Text.{Text}
use ocid.Oci.Digest.{Digest}
use ocid.Oci.Manifest.{
  Descriptor, Manifest, Json, is_manifest_media_type, parse_manifest, referenced,
}
use ocid.Release.{BlobRef}
use ocid.Index.{blob_ref, put_blob_ref}
use ocid.Store.{Store, has_hash, record_blob}
use ocid.Registry.Http.{
  Reply, reply, refuse, fault, internal, manifest_blob_unknown, manifest_invalid,
}
use ocid.Registry.Manifests.{
  Gathered, Outcome, then_gather, typed, note_type, has_ref, collect_child, collect_found,
  collect_one, collect_each, collect_refs,
}

count_same :
    {K V : Type 0} ⦃e : Eq K⦄ (q : V → Bool) (k : K) (old new : V) (m : Map K V)
    → get k m ≡ some old
    → q new ≡ q old
    → count (λ en. q en.1) (insert k new m) ≡ count (λ en. q en.1) m
unfolding get insert
count_same q k old new [] g h = absurd (cc)
count_same q k old new ((j, w) ∷ m) g h = ground (arith, count_same q k old new m)

count-le-length : (q : Digest × BlobRef → Bool) (m : Map Digest BlobRef) → count q m ≤ length m
count-le-length q [] = omega arith
count-le-length q (e ∷ m) = ground (arith, count-le-length q m)

-- The entries that are not gathered yet.
abbrev fresh : List BlobRef → BlobRef → Bool
fresh refs b = not (has_ref refs b.digest)

fresh-append :
    (refs : List BlobRef) (r b : BlobRef)
    → fresh (refs ++ (r ∷ [])) b ≡ (fresh refs b && not (r.digest == b.digest))
fresh-append refs r b = ground (arith, any-append (λ x. x.digest == b.digest) refs (r ∷ []))

count_fewer :
    (refs : List BlobRef) (r : BlobRef) (m : Map Digest BlobRef)
    → count (λ en. fresh (refs ++ (r ∷ [])) en.1) m ≤ count (λ en. fresh refs en.1) m
count_fewer refs r [] = omega arith
count_fewer refs r ((d, b) ∷ m) = ground (arith, count_fewer refs r m, fresh-append refs r b)

count_less :
    (refs : List BlobRef) (r b : BlobRef) (d : Digest) (m : Map Digest BlobRef)
    → get d m ≡ some b
    → has_ref refs b.digest ≡ false
    → (r.digest == b.digest) ≡ true
    → count (λ en. fresh (refs ++ (r ∷ [])) en.1) m < count (λ en. fresh refs en.1) m
unfolding get
count_less refs r b d [] g h e = absurd (cc)
count_less refs r b d ((j, w) ∷ m) g h e = elim (Bool-cases (j == d)) [
  | inl c ↦ ground (arith, count_fewer refs r m, fresh-append refs r b)
  | inr c ↦ ground (arith, count_less refs r b d m, fresh-append refs r w)
]

typed_digest : (r : BlobRef) (mt : Text) → (typed r mt).digest ≡ r.digest
unfolding typed
typed_digest r mt = elim (Option-cases r.media_type) [
  | inr (t, e) ↦ ground arith
  | inl e ↦ ground arith
]

module _ {Key : Type 0} where
  -- Every entry stands under its own digest.
  unfoldable pub IsKeyed : Store Key → Type 0
  IsKeyed st = (d : Digest) (b : BlobRef) → blob_ref st.index d ≡ some b → b.digest ≡ d

  left : Gathered Key → ℕ
  left g = count (λ en. fresh g.refs en.1) g.store.index.blobs

  -- The call returns, with no more left than before.
  Ends : Gathered Key → Outcome Key → Type 0
  Ends g o =
      (out : Gathered Key × Reply (Unit {0})) × (o ≡ some out)
      × IsKeyed out.0.store
      × (left out.0 ≤ left g)

  note_type-IsKeyed :
      (st : Store Key) (r : BlobRef) (mt : Text) → IsKeyed st → IsKeyed (note_type st r mt)
  unfolding IsKeyed note_type record_blob put_blob_ref blob_ref
  note_type-IsKeyed st r mt k d b q = elim (Option-cases r.media_type) [
    | inr (t, e) ↦ k d b (ground arith)
    | inl e ↦ elim (Bool-cases (r.digest == d)) [
      | inl c ↦
          ground (arith, get-insert r.digest d (record r { media_type = some mt }) st.index.blobs)
      | inr c ↦
          k d b (
            ground
              (arith, get-insert r.digest d (record r { media_type = some mt }) st.index.blobs))
    ]
  ]

  noted_left :
      (g : Gathered Key) (r : BlobRef) (d : Digest) (mt : Text) (refs : List BlobRef)
      → IsKeyed g.store
      → blob_ref g.store.index d ≡ some r
      → left (record g { store = note_type g.store r mt; refs = refs })
        ≡ left (record g { refs = refs })
  unfolding left note_type record_blob put_blob_ref IsKeyed blob_ref
  noted_left g r d mt refs k q =
      let own : get r.digest g.store.index.blobs ≡ some r =
        ap (λ x. get x g.store.index.blobs) (k d r q) ∙ q in
      elim (Option-cases r.media_type) [
        | inr (t, e) ↦ ground arith
        | inl e ↦ ground (
          arith,
          count_same (fresh refs) r.digest r (record r { media_type = some mt }) g.store.index.blobs
              own refl,
        )
      ]

  pushed_left :
      (g : Gathered Key) (r : BlobRef) (d : Digest) (mt : Text)
      → IsKeyed g.store
      → blob_ref g.store.index d ≡ some r
      → has_ref g.refs r.digest ≡ false
      → left (record g { store = note_type g.store r mt; refs = g.refs ++ (typed r mt ∷ []) })
        < left g
  unfolding left blob_ref
  pushed_left g r d mt k q h =
      subst (λ n. n < left g) (sym (noted_left g r d mt (g.refs ++ (typed r mt ∷ [])) k q))
        (count_less g.refs (typed r mt) r d g.store.index.blobs q h
          (ap (λ x. x == r.digest) (typed_digest r mt) ∙ ==_refl r.digest))

  noted_Ends :
      (g : Gathered Key) (r : BlobRef) (d : Digest) (mt : Text) (u : Reply (Unit {0}))
      → IsKeyed g.store
      → blob_ref g.store.index d ≡ some r
      → Ends g (some (record g { store = note_type g.store r mt }, u))
  unfolding Ends
  noted_Ends g r d mt u k q = (
    (record g { store = note_type g.store r mt }, u),
    refl,
    note_type-IsKeyed g.store r mt k,
    omega (arith, noted_left g r d mt g.refs k q),
  )

  then_gather-Ends :
      (g : Gathered Key) (o : Outcome Key) (f : Gathered Key → Outcome Key)
      → Ends g o
      → ((g' : Gathered Key) → IsKeyed g'.store → left g' ≤ left g → Ends g' (f g'))
      → Ends g (then_gather o f)
  unfolding Ends
  then_gather-Ends g none f e k = absurd (cc)
  then_gather-Ends g (some (g', refuse x)) f e k = e
  then_gather-Ends g (some (g', reply u)) f (out, q, d, l) k =
      let same : out.0 ≡ g' = ground arith in
      let le : left g' ≤ left g = omega (arith, l, ap left same) in
      let rest = k g' (subst (λ x. IsKeyed x.store) same d) le in
      (rest.0, rest.1, rest.2, omega (arith, rest.3, le))

module _ {Key : Type 0} (json : Json) (child : Manifest → Gathered Key → Outcome Key) (bound : ℕ)
    (child_ends : (m : Manifest) (g : Gathered Key)
      → IsKeyed g.store
      → left g < bound
      → Ends g (child m g)) where
  refused_Ends : (g : Gathered Key) (u : Reply (Unit {0})) → IsKeyed g.store → Ends g (some (g, u))
  unfolding Ends
  refused_Ends g u k = ((g, u), refl, k, omega arith)

  weaken-Ends : (g g' : Gathered Key) (o : Outcome Key) → left g' ≤ left g → Ends g' o → Ends g o
  unfolding Ends
  weaken-Ends g g' o l (out, q, k, m) = (out, q, k, omega arith)

  collect_child-Ends :
      (d : Descriptor) (r : BlobRef) (g : Gathered Key)
      → IsKeyed g.store
      → left (record g { refs = g.refs ++ (r ∷ []) }) < bound
      → left (record g { refs = g.refs ++ (r ∷ []) }) ≤ left g
      → Ends g (collect_child json child d r g)
  unfolding collect_child
  collect_child-Ends d r g k lt le =
      Option-keeps (Ends g) (get r.hash g.store.blobs) _ _ (refused_Ends g internal k) (λ bytes q.
        Result-keeps (Ends g) (parse_manifest json bytes (some d.media_type)) _ _
          (λ e. refused_Ends g (fault 400 manifest_invalid) k)
          (λ m w.
            weaken-Ends g (record g { refs = g.refs ++ (r ∷ []) }) _ le
              (child_ends m (record g { refs = g.refs ++ (r ∷ []) }) k lt)))

  collect_found-Ends :
      (d : Descriptor) (r : BlobRef) (g : Gathered Key)
      → IsKeyed g.store
      → left g ≤ bound
      → blob_ref g.store.index d.digest ≡ some r
      → Ends g (collect_found json child d r g)
  unfolding collect_found
  collect_found-Ends d r g k l q =
      let noted : Gathered Key = record g { store = note_type g.store r d.media_type } in
      let noted_keyed = note_type-IsKeyed g.store r d.media_type k in
      let same = noted_left g r d.digest d.media_type g.refs k q in
      Bool-keeps (Ends g) (has_ref g.refs r.digest) _ _
        (λ h. noted_Ends g r d.digest d.media_type (reply tt) k q)
        (λ h.
          let less = pushed_left g r d.digest d.media_type k q h in
          let pushed : Gathered Key = record noted {
            refs = g.refs ++ (typed r d.media_type ∷ []);
          } in
          Bool-keeps (Ends g) (is_manifest_media_type d.media_type) _ _
            (λ t. weaken-Ends g noted _ (omega (arith, same)) (
              collect_child-Ends d (typed r d.media_type) noted noted_keyed (omega (arith, less, l))
                (omega (arith, less, same))))
            (λ t.
              weaken-Ends g pushed _ (omega (arith, less))
                (refused_Ends pushed (reply tt) noted_keyed)))

  collect_one-Ends :
      (d : Descriptor) (g : Gathered Key)
      → IsKeyed g.store
      → left g ≤ bound
      → Ends g (collect_one json child d g)
  unfolding collect_one
  collect_one-Ends d g k l =
      Option-keeps (Ends g) (blob_ref g.store.index d.digest) _ _
        (refused_Ends g (fault 400 manifest_blob_unknown) k)
        (λ r q.
          Bool-keeps (Ends g) (has_hash g.store r.hash) _ _ (λ h. collect_found-Ends d r g k l q)
            (λ h. refused_Ends g (fault 400 manifest_blob_unknown) k))

  collect_each-Ends :
      (ds : List Descriptor) (g : Gathered Key)
      → IsKeyed g.store
      → left g ≤ bound
      → Ends g (collect_each json child ds g)
  unfolding collect_each
  collect_each-Ends [] g k l = refused_Ends g (reply tt) k
  collect_each-Ends (d ∷ ds) g k l =
      then_gather-Ends g (collect_one json child d g) (λ g'. collect_each json child ds g')
        (collect_one-Ends d g k l) (λ g' k' l'. collect_each-Ends ds g' k' (omega (arith, l, l')))

module _ {Key : Type 0} (json : Json) where
  collect_refs-Ends :
      (fuel : ℕ) (m : Manifest) (g : Gathered Key)
      → IsKeyed g.store
      → left g < fuel
      → Ends g (collect_refs json fuel m g)
  unfolding collect_refs
  collect_refs-Ends zero m g k l = absurd (omega arith)
  collect_refs-Ends (suc fuel) m g k l =
      collect_each-Ends json (collect_refs json fuel) fuel
        (λ m' g' k' l'. collect_refs-Ends fuel m' g' k' l') (referenced m) g k (omega arith)

  -- Where every index entry stands under its own digest, one more round of fuel than there are
  -- entries is enough for every manifest, also one whose indexes refer to each other in a circle.
  pub collect_refs_ends :
      (m : Manifest) (st : Store Key)
      → IsKeyed st
      → (out : Gathered Key × Reply (Unit {0})) × (collect_refs json
            (suc (length st.index.blobs))
            m
            (record { store = st; refs = [] })
          ≡ some out)
  unfolding Ends left
  collect_refs_ends m st k =
      let start : Gathered Key = record { store = st; refs = [] } in
      let e =
        collect_refs-Ends (suc (length st.index.blobs)) m start k
          (omega (arith, count-le-length (λ en. fresh [] en.1) st.index.blobs)) in
      (e.0, e.1)
