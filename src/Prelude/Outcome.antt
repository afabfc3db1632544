-- ===== src/Prelude/Outcome.antt =====
-- Results with an error value (`anyhow::Result`), and their `do` blocks. Each `bail!` and `context`
-- of the program is a constructor of `Error`; its message text is not modelled.
use mathlib.Core.Path.{◌≡◌, refl}
use mathlib.Core.Logic.{◌⊎◌, inl, inr}
use mathlib.Core.Bool.{Bool, true, false}
use mathlib.Core.Option.{Option, none, some}
use ocid.Prelude.Tests.{if◌then◌else◌}

pub data Error : Type 0 where
  invalid_name invalid_tag : Error
  unsupported_digest malformed_digest : Error
  not_a_did bad_did not_a_key : Error
  no_publisher missing_name empty_repo : Error
  bad_mode mode_number mode_zero : Error
  unmapped_domain bad_mapping unknown_publisher : Error
  pin_needs_tag bad_alias bad_alias_target : Error
  bad_version bad_signature_hex bad_signature_length bad_signature : Error
  bad_zone bad_relay relay_too_long bad_field unknown_field bad_record : Error
  stale_record pin_mismatch no_record dns_disabled : Error
  not_ours not_subscribed no_provider download_failed digest_mismatch size_mismatch : Error
  own_image all_with_tag tag_needed : Error
  unexpected broadcast_failed not_a_publisher not_json bad_manifest : Error
  io : Error

-- What a call returns: its value, or why it failed.
pub data Result {ℓ} (T : Type ℓ) : Type ℓ where
  ok : (value : T) → Result T
  err : (reason : Error) → Result T

-- The operator `?`, with and without a value.
infixl 5 ◌>>=◌
abbrev pub ◌>>=◌ {ℓ κ} : {T : Type ℓ} {U : Type κ} → Result T → (T → Result U) → Result U
err reason >>= next = err reason
ok value >>= next = next value

-- `if !test { bail!(reason) }`
abbrev pub ensure : Bool → Error → Result (Unit {0})
ensure false reason = err reason
ensure true reason = ok tt

infixl 5 ◌>>◌
abbrev pub ◌>>◌ {ℓ} : {U : Type ℓ} → Result (Unit {0}) → Result U → Result U
first >> next = first >>= λ u. next

-- `Option::context`
abbrev pub or_err {ℓ} : {A : Type ℓ} → Option A → Error → Result A
or_err (some a) e = ok a
or_err none e = err e

-- `Result::ok`
abbrev pub to_option {ℓ} : {A : Type ℓ} → Result A → Option A
to_option (ok a) = some a
to_option (err e) = none

-- `Result::is_ok`
abbrev pub is_ok {ℓ} : {A : Type ℓ} → Result A → Bool
is_ok (ok a) = true
is_ok (err e) = false

pub Result-cases {ℓ} :
    {A : Type ℓ} (m : Result A) → ((a : A) × (m ≡ ok a)) ⊎ ((x : Error) × (m ≡ err x))
Result-cases (ok a) = inl (a, refl)
Result-cases (err x) = inr (x, refl)

-- What holds after every case holds after the choice between them.
module _ {ℓ κ μ} {A : Type ℓ} {B : Type κ} (P : B → Type μ) where
  pub Option-keeps :
      (o : Option A) (f : B) (g : A → B)
      → P f
      → ((a : A) → o ≡ some a → P (g a))
      → P (elim o as (λ o. B) [ none ↦ f | some a ↦ g a ])
  Option-keeps none f g h k = h
  Option-keeps (some a) f g h k = k a refl

  pub Result-keeps :
      (m : Result A) (f : Error → B) (g : A → B)
      → ((e : Error) → P (f e))
      → ((a : A) → m ≡ ok a → P (g a))
      → P (elim m as (λ m. B) [ err e ↦ f e | ok a ↦ g a ])
  Result-keeps (err e) f g h k = h e
  Result-keeps (ok a) f g h k = k a refl

pub Bool-keeps {κ μ} :
    {B : Type κ} (P : B → Type μ) (b : Bool) (x y : B)
    → (b ≡ true → P x)
    → (b ≡ false → P y)
    → P (if◌then◌else◌ b x y)
Bool-keeps P true x y h k = h refl
Bool-keeps P false x y h k = k refl

pub choice-keeps {κ μ} :
    {B : Type κ} (P : B → Type μ) (b : Bool) (x y : B)
    → (b ≡ true → P x)
    → (b ≡ false → P y)
    → P (elim b as (λ b. B) [ true ↦ x | false ↦ y ])
choice-keeps P true x y h k = h refl
choice-keeps P false x y h k = k refl
