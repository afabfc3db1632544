-- ===== src/Node/Attach.antt =====
-- The release that `attach_referrer` of crates/ocid/src/node.rs signs anew.
use ocid.Prelude.{
  ◌%◌, ◌^◌, ◌<◌, ℕ, ◌+◌, max, ◌≡◌, ap, ◌∙◌, Bool, true, not, ◌&&◌, ◌||◌, List, [], ◌∷◌, ◌++◌, arith,
  if◌then◌else◌, ◌==◌, ==_refl, ==_sound, Bool-cases, Eq, nat_eq, list_eq, any, any-append, ok,
  Option-cases, inl, inr,
}
use ocid.Oci.Digest.{Digest}
use ocid.Release.{
  BlobRef, Referrer, Release, ReleasePayload, Crypto, sign, signed_payload, supersedes,
}

-- The blobs that are new to the list, at its end.
unfoldable pub add_blobs : List BlobRef → List BlobRef → List BlobRef
add_blobs have [] = have
add_blobs have (b ∷ bs) =
    let kept = add_blobs have bs in
    let more = add_blobs (have ++ (b ∷ [])) bs in
    if any (λ x. x.digest == b.digest) have then kept else more

module _ {Key : Type 0} where
  -- The payload with the referrer, the blobs and a later time. The time is a `u64`, whose sum wraps
  -- around in a release build.
  unfoldable pub with_referrer : Release Key → Referrer → List BlobRef → ℕ → ReleasePayload Key
  unfolding add_blobs
  with_referrer rel referrer blobs now = record rel.payload {
    referrers = rel.payload.referrers ++ (referrer ∷ []);
    blobs = add_blobs rel.payload.blobs blobs;
    timestamp = max now ((rel.payload.timestamp + 1) % 2 ^ 64);
  }

module _ {Key : Type 0} ⦃eq : Eq Key⦄ where
  -- The guards of the loop: a release of ours, of the subject, that lacks the referrer.
  unfoldable pub lacks_referrer : Key → Digest → Referrer → Release Key → Bool
  lacks_referrer me subject referrer rel =
      rel.payload.publisher == me
      && rel.payload.manifest.digest == subject
      && not (any (λ r. r.digest == referrer.digest) rel.payload.referrers)

any-add_blobs :
    (d : Digest) (have bs : List BlobRef)
    → any (λ x. x.digest == d) (add_blobs have bs)
      ≡ (any (λ x. x.digest == d) have || any (λ x. x.digest == d) bs)
unfolding add_blobs
any-add_blobs d have [] = ground arith
any-add_blobs d have (b ∷ bs) = elim (Bool-cases (b.digest == d)) [
  | inl e ↦ ground (
    arith,
    any-add_blobs d have bs,
    any-append (λ x. x.digest == d) have (b ∷ []),
    any-add_blobs d (have ++ (b ∷ [])) bs,
    ap (λ y. any (λ x. x.digest == y) have) (==_sound {a = b.digest} {b = d} e),
  )
  | inr e ↦ ground (
    arith,
    any-add_blobs d have bs,
    any-append (λ x. x.digest == d) have (b ∷ []),
    any-add_blobs d (have ++ (b ∷ [])) bs,
  )
]

module _ {Key Secret : Type 0} (crypto : Crypto Key Secret) where
  sign-payload :
      (secret : Secret) (p : ReleasePayload Key) (now : ℕ) (r : Release Key)
      → sign crypto secret p now ≡ ok r
      → r.payload ≡ signed_payload crypto secret p now
  unfolding sign
  sign-payload secret p now r h =
      elim (Option-cases (crypto.encode_payload (signed_payload crypto secret p now))) [
        | inl n ↦ absurd (ground arith)
        | inr (bytes, q) ↦ ground arith
      ]

  -- What is signed anew from a release whose time is not the last of 64 bits, whatever the clocks
  -- say, supersedes the release it was made from, lists the
  -- referrer, and has the blobs that were there or were given and no others, by digest.
  pub attached :
      (secret : Secret) (rel updated : Release Key) (referrer : Referrer) (blobs : List BlobRef)
      (now later : ℕ) (d : Digest)
      → rel.payload.timestamp + 1 < 2 ^ 64
      → sign crypto secret (with_referrer rel referrer blobs now) later ≡ ok updated
      → (supersedes updated rel ≡ true)
        × (any (λ r. r.digest == referrer.digest) updated.payload.referrers ≡ true)
        × (any (λ b. b.digest == d) updated.payload.blobs
            ≡ (any (λ b. b.digest == d) rel.payload.blobs || any (λ b. b.digest == d) blobs))
  unfolding with_referrer signed_payload supersedes
  attached secret rel updated referrer blobs now later d bound h =
      let p = sign-payload secret (with_referrer rel referrer blobs now) later updated h in
      let timed : updated.payload.timestamp ≡ (
          if max now ((rel.payload.timestamp + 1) % 2 ^ 64) == 0
          then later
          else max now ((rel.payload.timestamp + 1) % 2 ^ 64)) =
        ap (λ x. x.timestamp) p in
      let unwrapped : (rel.payload.timestamp + 1) % 2 ^ 64 ≡ rel.payload.timestamp + 1 =
        omega (arith, bound) in
      (
        ground (arith, timed, unwrapped),
        ap (λ x. any (λ r. r.digest == referrer.digest) x.referrers) p
            ∙ any-append (λ r. r.digest == referrer.digest) rel.payload.referrers (referrer ∷ [])
            ∙ ground (arith, ==_refl referrer.digest),
        ap (λ x. any (λ b. b.digest == d) x.blobs) p ∙ any-add_blobs d rel.payload.blobs blobs,
      )
