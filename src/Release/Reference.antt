-- ===== src/Release/Reference.antt =====
-- The texts by which `gc` compares releases.
use ocid.Prelude.{ℕ, ◌≡◌, refl, Bool, true, false, [], ◌∷◌, ◌++◌, arith, nat_eq, list_eq, all, ok}
use ocid.Text.{Text, is_lower_hex}
use ocid.Text.Search.{has_char, split_once-append, rsplit_once-append}
use ocid.Identity.{Keys, IsLawful, is_hex_publisher}
use ocid.Oci.Name.{validate_tag, is_tag_char}
use ocid.Release.{Release, reference}

not_in : (p : ℕ → Bool) (c : ℕ) (s : Text) → p c ≡ false → all p s ≡ true → has_char c s ≡ false
not_in p c [] h a = refl
not_in p c (x ∷ s) h a = ground (arith, not_in p c s)

tag_without :
    (c : ℕ) (t : Text) → is_tag_char c ≡ false → validate_tag t ≡ ok tt → has_char c t ≡ false
unfolding validate_tag
tag_without c t h v = not_in is_tag_char c t h (ground arith)

module _ {Key : Type 0} (keys : Keys Key) (law : IsLawful keys) where
  key_without : (c : ℕ) (k : Key) → is_lower_hex c ≡ false → has_char c (keys.to_text k) ≡ false
  unfolding is_hex_publisher
  key_without c k h = not_in is_lower_hex c (keys.to_text k) h (ground (arith, law.to_text_hex k))

  to_text_inj : (a b : Key) → keys.to_text a ≡ keys.to_text b → a ≡ b
  to_text_inj a b h = ground (arith, law.of_text-to_text a, law.of_text-to_text b)

  -- Two releases with valid tags have one reference exactly if they are of one publisher, name and
  -- tag.
  pub reference_inj :
      (r s : Release Key)
      → validate_tag r.payload.tag ≡ ok tt
      → validate_tag s.payload.tag ≡ ok tt
      → reference keys r ≡ reference keys s
      → (r.payload.publisher ≡ s.payload.publisher)
        × (r.payload.name ≡ s.payload.name)
        × (r.payload.tag ≡ s.payload.tag)
  unfolding reference
  reference_inj r s v w h = ground (
    arith,
    to_text_inj r.payload.publisher s.payload.publisher,
    split_once-append b'/' (keys.to_text r.payload.publisher)
        (r.payload.name ++ b':' ∷ r.payload.tag) (key_without b'/' r.payload.publisher refl),
    split_once-append b'/' (keys.to_text s.payload.publisher)
        (s.payload.name ++ b':' ∷ s.payload.tag) (key_without b'/' s.payload.publisher refl),
    rsplit_once-append b':' r.payload.name r.payload.tag (tag_without b':' r.payload.tag refl v),
    rsplit_once-append b':' s.payload.name s.payload.tag (tag_without b':' s.payload.tag refl w),
  )
