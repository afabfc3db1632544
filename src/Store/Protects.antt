-- ===== src/Store/Protects.antt =====
-- What the mark and sweep of the data (`Store::open` of crates/ocid/src/store.rs) leaves alone.
use ocid.Prelude.{
  ◌≡◌, ap, Bool, true, not, ◌||◌, none, some, List, [], ◌∷◌, arith, ◌==◌, ==_sound, ==_refl, Eq,
  nat_eq, list_eq, any, retain, if◌then◌else◌, Bool-cases, inl, inr, ℕ,
}
use ocid.Prelude.Map.{Map, get}
use ocid.Release.{Hash}
use ocid.Index.{blob_ref}
use ocid.Store.{Store, Hashes, delete_unprotected}
use ocid.Store.Sound.{IsSound, Holds}
use ocid.Store.Succeeds.{IsAddressed}
use ocid.Store.Put.{IsWhole}

get-retain :
    {K V : Type 0} ⦃e : Eq K⦄ (f : K → Bool) (k : K) (m : Map K V)
    → get k (retain (λ x. f x.0) m) ≡ (if f k then get k m else none)
unfolding get
get-retain f k [] = ground arith
get-retain f k ((j, v) ∷ m) = elim (Bool-cases (j == k)) [
  | inl q ↦ ground (arith, get-retain f k m, ap f (==_sound {a = j} {b = k} q))
  | inr q ↦ ground (arith, get-retain f k m)
]

any-get :
    {K : Type 0} ⦃e : Eq K⦄ (k : K) (h : Hash) (m : Map K Hash)
    → get k m ≡ some h
    → any (λ p. p.1 == h) m ≡ true
unfolding get
any-get k h [] q = absurd (cc)
any-get k h ((j, v) ∷ m) q = elim (Bool-cases (j == k)) [
  | inl e ↦ ground (arith, ==_refl h)
  | inr e ↦ ground (arith, any-get k h m)
]

module _ {Key : Type 0} (hashes : Hashes) (content : Hash → List ℕ) where
  pub delete_unprotected-IsWhole :
      (doomed : Hash → Bool) (st : Store Key)
      → IsWhole hashes content st
      → IsWhole hashes content (delete_unprotected doomed st)
  unfolding delete_unprotected IsSound Holds IsAddressed blob_ref
  delete_unprotected-IsWhole doomed st (s, a) =
      let f : Hash → Bool = λ h. not (doomed h) || any (λ p. p.1 == h) st.pins in
      (
        λ d b q.
            let old = s d b q in
            let held = old.2 in
            (
              old.0,
              old.1,
              (
                held.0,
                ground
                    (arith, get-retain f b.hash st.blobs, any-get d b.hash st.pins old.1, held.1),
                held.2,
                held.3,
              ),
            ),
        λ h bytes q. elim (Bool-cases (f h)) [
          | inl e ↦ a h bytes (ground (arith, get-retain f h st.blobs))
          | inr e ↦ absurd (ground (arith, get-retain f h st.blobs))
        ],
      )
