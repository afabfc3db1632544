-- ===== src/Index/Releases.antt =====
-- What the stored releases are after a put or a removal.
use ocid.Prelude.{
  ℕ, ◌≤◌, ◌≡◌, ◌↔◌, Error, is_some_and, Result-cases, refl, ◌∙◌, ap, Bool, true, false, ◌&&◌, none,
  some, List, [], ◌∷◌, arith, if◌then◌else◌, ◌==◌, Eq, nat_eq, list_eq, pair_eq, Result, ok, err,
  ◌>>=◌, ◌>>◌, Bool-cases, inl, inr,
}
use ocid.Prelude.Map.{insert, remove, has_key, get-insert, get-remove}
use ocid.Text.{Text}
use ocid.Oci.Name.{validate_name, validate_tag}
use ocid.Oci.Digest.{Digest}
use ocid.Release.{Referrer, Release, supersedes}
use ocid.Index.{
  Index, ReleaseKey, key_of, stored, get_release, put_release, remove_release, write_release,
  put_referrers, put_referrer, accepts, release_path,
}

put_referrers-releases :
    {Key : Type 0} (ix : Index Key) (d : Digest) (rs : List Referrer)
    → (put_referrers ix d rs).releases ≡ ix.releases
unfolding put_referrers
put_referrers-releases ix d [] = refl
put_referrers-releases ix d (r ∷ rs) = put_referrers-releases (put_referrer ix d r) d rs

put_referrers-blobs :
    {Key : Type 0} (ix : Index Key) (d : Digest) (rs : List Referrer)
    → (put_referrers ix d rs).blobs ≡ ix.blobs
unfolding put_referrers
put_referrers-blobs ix d [] = refl
put_referrers-blobs ix d (r ∷ rs) = put_referrers-blobs (put_referrer ix d r) d rs

-- A path's guards stand in front of what is done with it.
path_bind {ℓ κ} :
    {A : Type ℓ} {B : Type κ} (m n : Result (Unit {0})) (k : A) (f : A → Result B)
    → ((m >>= λ u. n >>= λ w. ok k) >>= f) ≡ ((m >> n) >>= λ u. f k)
path_bind (ok u) (ok w) k f = refl
path_bind (ok u) (err x) k f = refl
path_bind (err x) n k f = refl

bind_ok {ℓ κ} :
    {A : Type ℓ} {B : Type κ} (m : Result (Unit {0})) (a : A) (f : A → Result B)
    → ((m >>= λ u. ok a) >>= f) ≡ (m >>= λ u. f a)
bind_ok (ok u) a f = refl
bind_ok (err x) a f = refl

module _ {Key : Type 0} ⦃e : Eq Key⦄ where
  stored-write_release :
      (ix : Index Key) (r : Release Key) (now : ℕ) (k : ReleaseKey Key)
      → stored (write_release ix r now) k ≡ (if key_of r == k then some r else stored ix k)
  unfolding stored write_release
  stored-write_release ix r now k = ground (
    arith,
    put_referrers-releases (record ix { releases = insert (key_of r) (r, now) ix.releases })
        r.payload.manifest.digest r.payload.referrers,
    get-insert (key_of r) k (r, now) ix.releases,
  )

  pub put_release_form :
      (ix : Index Key) (r : Release Key) (now : ℕ)
      → put_release ix r now ≡ (
          (validate_tag r.payload.tag >> validate_name r.payload.name) >>= λ u. ok (
            if accepts r (stored ix (key_of r))
            then (write_release ix r now, true)
            else (ix, false)))
  unfolding put_release get_release release_path key_of
  put_release_form ix r now =
      ap (λ m. m >>= λ o. ok (if accepts r o then (write_release ix r now, true) else (ix, false)))
        (path_bind (validate_tag r.payload.tag) (validate_name r.payload.name)
          (r.payload.publisher, (r.payload.name, r.payload.tag)) (λ k. ok (stored ix k)))
      ∙ bind_ok (validate_tag r.payload.tag >> validate_name r.payload.name) (stored ix (key_of r))
          _

  pub get_release_form :
      (ix : Index Key) (p : Key) (n t : Text)
      → get_release ix p n t
        ≡ ((validate_tag t >> validate_name n) >>= λ u. ok (stored ix (p, (n, t))))
  unfolding get_release release_path
  get_release_form ix p n t =
      path_bind (validate_tag t) (validate_name n) (p, (n, t)) (λ k. ok (stored ix k))

  pub remove_release_form :
      (ix : Index Key) (p : Key) (n t : Text)
      → remove_release ix p n t ≡ (
          (validate_tag t >> validate_name n) >>= λ u. ok (
            if has_key (p, (n, t)) ix.releases
            then (record ix { releases = remove (p, (n, t)) ix.releases }, true)
            else (ix, false)))
  unfolding remove_release release_path
  remove_release_form ix p n t =
      path_bind (validate_tag t) (validate_name n) (p, (n, t))
        (λ k. ok (
          if has_key k ix.releases
          then (record ix { releases = remove k ix.releases }, true)
          else (ix, false)))

  -- What a put returns, whenever it does not fail: under the release's own key stands the release if
  -- it was accepted and else what stood there; under every other key nothing changes; and the flag
  -- tells whether it was accepted.
  pub stored-put_release :
      (ix jx : Index Key) (r : Release Key) (now : ℕ) (written : Bool)
      → put_release ix r now ≡ ok (jx, written)
      → (written ≡ accepts r (stored ix (key_of r)))
        × ((k : ReleaseKey Key)
            → stored jx k ≡ (if written && key_of r == k then some r else stored ix k))
  stored-put_release ix jx r now written h =
      elim (Result-cases (validate_tag r.payload.tag >> validate_name r.payload.name)) [
        | inl (u, v) ↦ (
          ground (arith, put_release_form ix r now),
          λ k. ground (arith, put_release_form ix r now, stored-write_release ix r now k),
        )
        | inr (x, v) ↦ ground (arith, put_release_form ix r now)
      ]

  -- A put fails exactly if the tag or the name is not valid, and then with that error.
  pub put_release_fails :
      (ix : Index Key) (r : Release Key) (now : ℕ) (x : Error)
      → (put_release ix r now ≡ err x)
        ↔ ((validate_tag r.payload.tag >> validate_name r.payload.name) ≡ err x)
  put_release_fails ix r now x =
      elim (Result-cases (validate_tag r.payload.tag >> validate_name r.payload.name)) [
        | inl (u, v) ↦ (
          λ h. ground (arith, put_release_form ix r now),
          λ h. ground (arith, put_release_form ix r now),
        )
        | inr (y, v) ↦ (
          λ h. ground (arith, put_release_form ix r now),
          λ h. ground (arith, put_release_form ix r now),
        )
      ]

  -- A put never takes a record away, nor puts an older one in its place.
  pub put_release_mono :
      (ix jx : Index Key) (r s : Release Key) (now : ℕ) (written : Bool) (k : ReleaseKey Key)
      → put_release ix r now ≡ ok (jx, written)
      → stored ix k ≡ some s
      → (s' : Release Key) × (stored jx k ≡ some s') × (s.payload.timestamp ≤ s'.payload.timestamp)
  unfolding accepts supersedes
  put_release_mono ix jx r s now written k h g =
      let p = stored-put_release ix jx r now written h in
      elim (Bool-cases (written && key_of r == k)) [
        | inl w ↦ (r, ground (arith, p.1 k), ground (arith, p.0))
        | inr w ↦ (s, ground (arith, p.1 k), omega arith)
      ]

  -- A second put of one release writes nothing.
  pub put_release_twice :
      (ix jx : Index Key) (r : Release Key) (now later : ℕ) (written : Bool)
      → put_release ix r now ≡ ok (jx, written)
      → put_release jx r later ≡ ok (jx, false)
  unfolding accepts supersedes
  put_release_twice ix jx r now later written h =
      elim (Result-cases (validate_tag r.payload.tag >> validate_name r.payload.name)) [
        | inl (u, v) ↦ ground (
          arith,
          stored-put_release ix jx r now written h,
          (stored-put_release ix jx r now written h).1 (key_of r),
          put_release_form jx r later,
          put_release_form ix r now,
        )
        | inr (x, v) ↦ ground (arith, put_release_form ix r now)
      ]

  -- A removal that does not fail leaves nothing under its key and all other records as they were,
  -- and tells whether there was one.
  pub stored-remove_release :
      (ix jx : Index Key) (p : Key) (n t : Text) (removed : Bool)
      → remove_release ix p n t ≡ ok (jx, removed)
      → (removed ≡ is_some_and (λ r. true) (stored ix (p, (n, t))))
        × ((k : ReleaseKey Key) → stored jx k ≡ (if (p, (n, t)) == k then none else stored ix k))
  unfolding stored
  stored-remove_release ix jx p n t removed h =
      elim (Result-cases (validate_tag t >> validate_name n)) [
        | inl (u, v) ↦ (
          ground (arith, remove_release_form ix p n t),
          λ k. ground (arith, remove_release_form ix p n t, get-remove (p, (n, t)) k ix.releases),
        )
        | inr (x, v) ↦ ground (arith, remove_release_form ix p n t)
      ]

  -- A put leaves the blobs as they are.
  pub put_release_blobs :
      (ix jx : Index Key) (r : Release Key) (now : ℕ) (written : Bool)
      → put_release ix r now ≡ ok (jx, written)
      → jx.blobs ≡ ix.blobs
  unfolding write_release
  put_release_blobs ix jx r now written h =
      elim (Result-cases (validate_tag r.payload.tag >> validate_name r.payload.name)) [
        | inl (u, v) ↦ ground (
          arith,
          put_release_form ix r now,
          put_referrers-blobs (record ix { releases = insert (key_of r) (r, now) ix.releases })
              r.payload.manifest.digest r.payload.referrers,
        )
        | inr (x, v) ↦ ground (arith, put_release_form ix r now)
      ]
