-- ===== src/Prelude/Order.antt =====
-- Sorting. `sort_by` is Rust's stable sort, given by `before y x`: `y` must stand in front of `x`.
use Prim.Native.Nat.{ℕ, zero, suc}
use mathlib.Core.Path.{◌≡◌, refl, ap, ◌∙◌, sym}
use mathlib.Core.Logic.{◌⊎◌, inl, inr}
use mathlib.Core.Bool.{Bool, true, false, ◌&&◌, ◌||◌}
use mathlib.Core.List.{List, [], ◌∷◌}
use native.Mathlib.Omega.{arith}
use ocid.Prelude.Tests.{ltb, if◌then◌else◌, Bool-cases}
use ocid.Prelude.Lists.{any, any_congr, any_none, count, take, All, All-map, All-of_forall}

module _ {ℓ} {A : Type ℓ} (before : A → A → Bool) where
  unfoldable pub insert_sorted : A → List A → List A
  insert_sorted x [] = x ∷ []
  insert_sorted x (y ∷ ys) = if before y x then y ∷ insert_sorted x ys else x ∷ y ∷ ys

  unfoldable pub sort_by : List A → List A
  unfolding insert_sorted
  sort_by [] = []
  sort_by (x ∷ xs) = insert_sorted x (sort_by xs)

  -- How many items stand in front of `x`.
  abbrev pub rank : A → List A → ℕ
  rank x = count (λ y. before y x)

  -- Every item stands in front of all later ones.
  abbrev pub IsStrict : List A → Type 0
  IsStrict [] = Unit
  IsStrict (x ∷ xs) = All (λ y. before x y ≡ true) xs × IsStrict xs

  -- Of any two items, one stands in front of the other.
  abbrev pub IsTotal : List A → Type 0
  IsTotal [] = Unit
  IsTotal (x ∷ xs) = All (λ y. (before x y ≡ true) ⊎ (before y x ≡ true)) xs × IsTotal xs

  any-insert_sorted :
      (p : A → Bool) (x : A) (l : List A) → any p (insert_sorted x l) ≡ (p x || any p l)
  unfolding insert_sorted
  any-insert_sorted p x [] = refl
  any-insert_sorted p x (y ∷ ys) = ground (arith, any-insert_sorted p x ys)

  pub any-sort_by : (p : A → Bool) (l : List A) → any p (sort_by l) ≡ any p l
  unfolding sort_by
  any-sort_by p [] = refl
  any-sort_by p (x ∷ xs) =
      any-insert_sorted p x (sort_by xs) ∙ ap (λ b. p x || b) (any-sort_by p xs)

  count-insert_sorted :
      (p : A → Bool) (x : A) (l : List A) → count p (insert_sorted x l) ≡ count p (x ∷ l)
  unfolding insert_sorted
  count-insert_sorted p x [] = refl
  count-insert_sorted p x (y ∷ ys) = ground (arith, count-insert_sorted p x ys)

  pub count-sort_by : (p : A → Bool) (l : List A) → count p (sort_by l) ≡ count p l
  unfolding sort_by
  count-sort_by p [] = refl
  count-sort_by p (x ∷ xs) =
      count-insert_sorted p x (sort_by xs) ∙ ap (λ n. if p x then suc n else n) (count-sort_by p xs)

  pub All-insert_sorted {κ} :
      (P : A → Type κ) (x : A) (l : List A) → P x → All P l → All P (insert_sorted x l)
  unfolding insert_sorted
  All-insert_sorted P x [] h k = (h, k)
  All-insert_sorted P x (y ∷ ys) h k = elim (Bool-cases (before y x)) [
    | inl e ↦ rw e (k.0, All-insert_sorted P x ys h k.1)
    | inr e ↦ rw e (h, k)
  ]

  pub All-sort_by {κ} : (P : A → Type κ) (l : List A) → All P l → All P (sort_by l)
  unfolding sort_by
  All-sort_by P [] h = tt
  All-sort_by P (x ∷ xs) h = All-insert_sorted P x (sort_by xs) h.0 (All-sort_by P xs h.1)

  module _ (trans : (x y z : A) → before x y ≡ true → before y z ≡ true → before x z ≡ true)
      (asymm : (x y : A) → before x y ≡ true → before y x ≡ false) where
    insert_sorted-IsStrict :
        (x : A) (l : List A)
        → All (λ y. (before x y ≡ true) ⊎ (before y x ≡ true)) l
        → IsStrict l
        → IsStrict (insert_sorted x l)
    unfolding insert_sorted
    insert_sorted-IsStrict x [] t s = (tt, tt)
    insert_sorted-IsStrict x (y ∷ ys) t s = elim (Bool-cases (before y x)) [
      | inl e ↦ rw e (
        All-insert_sorted (λ z. before y z ≡ true) x ys e s.0,
        insert_sorted-IsStrict x ys t.1 s.1,
      )
      | inr e ↦
          let front : before x y ≡ true = ground arith in
          rw e ((front, All-map (λ z h. trans x y z front h) ys s.0), s)
    ]

    pub sort_by-IsStrict : (l : List A) → IsTotal l → IsStrict (sort_by l)
    unfolding sort_by
    sort_by-IsStrict [] t = tt
    sort_by-IsStrict (x ∷ xs) t =
        insert_sorted-IsStrict x (sort_by xs) (All-sort_by _ xs t.0) (sort_by-IsStrict xs t.1)

    asymm_self : (x : A) → before x x ≡ false
    asymm_self x = ground (arith, asymm x x)

    rank-eq-zero : (x : A) (l : List A) → All (λ y. before x y ≡ true) l → rank x l ≡ 0
    rank-eq-zero x [] h = refl
    rank-eq-zero x (y ∷ ys) h = rw (asymm x y h.0) (rank-eq-zero x ys h.1)

    -- The first `n` of a strictly sorted list are the items of rank below `n`.
    pub any-take :
        (p : A → Bool) (n : ℕ) (l : List A)
        → IsStrict l
        → any p (take n l) ≡ any (λ x. p x && ltb (rank x l) n) l
    any-take p zero l s = sym (any_none _ l (All-of_forall (λ x. ground arith) l))
    any-take p (suc n) [] s = refl
    any-take p (suc n) (x ∷ xs) s = ground (
      arith,
      rank-eq-zero x xs s.0,
      asymm_self x,
      any-take p n xs s.1,
      any_congr (λ y. p y && ltb (rank y xs) n) (λ y. p y && ltb (rank y (x ∷ xs)) (suc n)) xs
          (All-map (λ y h. ground arith) xs s.0),
    )
