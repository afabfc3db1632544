-- ===== src/Tests/Releases.antt =====
-- Signing, verifying and storing releases.
use ocid.Prelude.{
  arith, any, [], ◌∷◌, none, ◌||◌, ◌++◌, ℕ, ◌≤◌, ◌≡◌, refl, Bool, true, not, ◌&&◌, none, some, List,
  ◌++◌, if◌then◌else◌, ◌==◌, nat_eq, list_eq, pair_eq, ℕ_discrete, list_dec, pair_dec, length, ok,
  is_some_and,
}
use ocid.Prelude.Map.{get, insert, remove}
use ocid.Text.{Text, txt}
use ocid.Text.Search.{split}
use ocid.Oci.Name.{validate_name, validate_tag, is_component}
use ocid.Node.Attach.{with_referrer, attached}
use ocid.Release.{Referrer, BlobRef, Release, sign, verify, supersedes, release_version}
use ocid.Release.Signing.{verify-sign, verify_sound, supersedes_both}
use ocid.Index.{Index, empty, key_of, stored, put_release, remove_release, accepts, write_release}
use ocid.Index.Releases.{stored-put_release, put_release_mono, stored-remove_release}
use ocid.Tests.Data.{bool_eq, bool_dec, crypto, crypto-IsLawful, payload, release}

app_valid : validate_name (txt "app") ≡ ok tt
unfolding validate_name is_component split nat_eq list_eq list_dec ℕ_discrete
app_valid = refl

v1_valid : validate_tag (txt "v1") ≡ ok tt
unfolding validate_tag
v1_valid = refl

signed : sign crypto true (payload true (txt "v1") 5) 9 ≡ ok (release true (txt "v1") 5)
unfolding sign nat_eq ℕ_discrete
signed = refl

verify-sign_example : verify crypto (release true (txt "v1") 5) ≡ ok tt
verify-sign_example =
    verify-sign crypto crypto-IsLawful true (payload true (txt "v1") 5) 9
      (release true (txt "v1") 5) signed app_valid v1_valid

verified : verify crypto (release true (txt "v1") 5) ≡ ok tt
verified =
    verify-sign crypto crypto-IsLawful true (payload true (txt "v1") 5) 9
      (release true (txt "v1") 5) signed app_valid v1_valid

verify_sound_example :
    (sig bytes : List ℕ) × ((release true (txt "v1") 5).payload.version ≡ release_version)
    × (validate_name (txt "app") ≡ ok tt)
    × (validate_tag (txt "v1") ≡ ok tt)
    × (crypto.hex_decode (release true (txt "v1") 5).signature ≡ some sig)
    × (length sig ≡ 64)
    × (crypto.encode_payload (payload true (txt "v1") 5) ≡ some bytes)
    × (crypto.verify true bytes sig ≡ true)
verify_sound_example = verify_sound crypto (release true (txt "v1") 5) verified

supersedes_both_example :
    (supersedes (release true (txt "v1") 5) (release true (txt "v1") 6)
      && supersedes (release true (txt "v1") 6) (release true (txt "v1") 5))
    ≡ (◌==◌ {A = ℕ} 5 6 && not (◌==◌ {A = Text} (txt "sha256:01") (txt "sha256:01")))
supersedes_both_example = supersedes_both (release true (txt "v1") 5) (release true (txt "v1") 6)

-- An index with one release of time 5, written at 100.
one : Index Bool
unfolding write_release
one = write_release empty (release true (txt "v1") 5) 100

two : Index Bool
unfolding write_release
two = write_release one (release true (txt "v1") 6) 101

put_newer : put_release one (release true (txt "v1") 6) 101 ≡ ok (two, true)
unfolding one two put_release validate_name is_component split validate_tag supersedes get pair_eq
    pair_dec bool_eq bool_dec nat_eq list_eq list_dec ℕ_discrete insert
put_newer = refl

one-stored : stored one (key_of (release true (txt "v1") 6)) ≡ some (release true (txt "v1") 5)
unfolding one stored key_of insert get pair_eq pair_dec bool_eq bool_dec nat_eq list_eq list_dec
    ℕ_discrete
one-stored = refl

stored-put_release_example :
    (true ≡ accepts (release true (txt "v1") 6) (stored one (key_of (release true (txt "v1") 6))))
    × ((k : Bool × (Text × Text))
        → stored two k ≡ (
            if true && key_of (release true (txt "v1") 6) == k
            then some (release true (txt "v1") 6)
            else stored one k))
stored-put_release_example =
    stored-put_release one two (release true (txt "v1") 6) 101 true put_newer

put_release_mono_example :
    (s' : Release Bool) × (stored two (key_of (release true (txt "v1") 6)) ≡ some s')
    × (5 ≤ s'.payload.timestamp)
put_release_mono_example =
    put_release_mono one two (release true (txt "v1") 6) (release true (txt "v1") 5) 101 true
      (key_of (release true (txt "v1") 6)) put_newer one-stored

none_left : Index Bool
unfolding two remove
none_left = record two { releases = remove (true, (txt "app", txt "v1")) two.releases }

removed_two : remove_release two true (txt "app") (txt "v1") ≡ ok (none_left, true)
unfolding two none_left remove_release write_release validate_name is_component split validate_tag
    get pair_eq pair_dec bool_eq bool_dec nat_eq list_eq list_dec ℕ_discrete insert one
removed_two = refl

stored-remove_release_example :
    (true ≡ is_some_and (λ r. true) (stored two (true, (txt "app", txt "v1"))))
    × ((k : Bool × (Text × Text))
        → stored none_left k ≡ (if (true, (txt "app", txt "v1")) == k then none else stored two k))
stored-remove_release_example =
    stored-remove_release two none_left true (txt "app") (txt "v1") true removed_two

abbrev sbom : Referrer
sbom = record {
  digest = txt "sha256:02";
  media_type = txt "application/json";
  size = 3;
  artifact_type = none;
  annotations = [];
}

abbrev with_sbom : Release Bool
with_sbom = record {
  payload = record (payload true (txt "v1") 9) { referrers = sbom ∷ [] };
  signature = crypto.sign true (9 ∷ txt "v1" ++ txt "app");
}

sbom_signed :
    sign crypto true (with_referrer (release true (txt "v1") 5) sbom [] 9) 20 ≡ ok with_sbom
unfolding sign with_referrer nat_eq ℕ_discrete
sbom_signed = refl

attached_example :
    (supersedes with_sbom (release true (txt "v1") 5) ≡ true)
    × (any (λ r. r.digest == sbom.digest) with_sbom.payload.referrers ≡ true)
    × (any (λ b. b.digest == txt "sha256:01") with_sbom.payload.blobs ≡ (
        any (λ b. b.digest == txt "sha256:01") (release true (txt "v1") 5).payload.blobs
        || any {A = BlobRef} (λ b. b.digest == txt "sha256:01") []))
attached_example =
    attached crypto true (release true (txt "v1") 5) with_sbom sbom [] 9 20 (txt "sha256:01")
      (omega arith) sbom_signed
