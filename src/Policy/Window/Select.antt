-- ===== src/Policy/Window/Select.antt =====
-- What `select` keeps, by counting how many releases are newer.
use ocid.Prelude.{
  ℕ, max, ◌≤◌, ==_sound, Option-cases, ◌≡◌, ◌≢◌, refl, sym, ◌∙◌, ap, ◌⊎◌, inl, inr, Bool, true,
  false, ◌&&◌, ◌||◌, List, [], ◌∷◌, arith, if◌then◌else◌, ◌==◌, nat_eq, list_eq, ltb, contains, any,
  any_congr, any-append, any-map, All, All-map, All-of_forall, take, sort_by, insert_sorted,
  All-insert_sorted, All-sort_by, ==_ne, retain, All-retain, any-retain, any_mono, count-retain-le,
  any-sort_by, count-sort_by, rank, IsTotal, sort_by-IsStrict, any-take, Bool-cases,
}
use ocid.Text.{Text}
use ocid.Text.Compare.{less_asymm, less_trans, less_total}
use ocid.Policy.Mode.{Mode, window}
use ocid.Policy.Window.{Window, absorb, Known, newer, dedup, dedup_from, tags_of, select}

newer_asymm : (x y : Known) → newer x y ≡ true → newer y x ≡ false
unfolding newer
newer_asymm (t, ts) (u, us) h = ground (arith, less_asymm u t)

newer_trans : (x y z : Known) → newer x y ≡ true → newer y z ≡ true → newer x z ≡ true
unfolding newer
newer_trans (t, ts) (u, us) (v, vs) h k = ground (arith, less_trans v u t)

newer_total : (x y : Known) → x.0 ≢ y.0 → (newer x y ≡ true) ⊎ (newer y x ≡ true)
unfolding newer
newer_total (t, ts) (u, us) h = ground (arith, less_total t u)

-- No tag is listed twice.
abbrev pub DistinctTags : List Known → Type 0
DistinctTags [] = Unit
DistinctTags (x ∷ xs) = All (λ y. x.0 ≢ y.0) xs × DistinctTags xs

DistinctTags-IsTotal : (l : List Known) → DistinctTags l → IsTotal newer l
DistinctTags-IsTotal [] d = tt
DistinctTags-IsTotal (x ∷ xs) d =
    (All-map (λ y h. newer_total x y h) xs d.0, DistinctTags-IsTotal xs d.1)

DistinctTags-insert_sorted :
    (x : Known) (l : List Known)
    → All (λ y. x.0 ≢ y.0) l
    → DistinctTags l
    → DistinctTags (insert_sorted newer x l)
unfolding insert_sorted
DistinctTags-insert_sorted x [] h d = (tt, tt)
DistinctTags-insert_sorted x (y ∷ ys) h d = elim (Bool-cases (newer y x)) [
  | inl e ↦ rw e (
    All-insert_sorted newer (λ z. y.0 ≢ z.0) x ys (λ p. h.0 (sym p)) d.0,
    DistinctTags-insert_sorted x ys h.1 d.1,
  )
  | inr e ↦ rw e (h, d)
]

DistinctTags-sort_by : (l : List Known) → DistinctTags l → DistinctTags (sort_by newer l)
unfolding sort_by
DistinctTags-sort_by [] d = tt
DistinctTags-sort_by (x ∷ xs) d =
    DistinctTags-insert_sorted x (sort_by newer xs) (All-sort_by newer _ xs d.0)
      (DistinctTags-sort_by xs d.1)

dedup_from-eq-cons :
    (x : Known) (l : List Known) → All (λ y. x.0 ≢ y.0) l → DistinctTags l → dedup_from x l ≡ x ∷ l
unfolding dedup_from
dedup_from-eq-cons x [] h d = refl
dedup_from-eq-cons x (y ∷ ys) h d =
    rw (==_ne {a = y.0} {b = x.0} (λ p. h.0 (sym p)))
      (ap (λ r. x ∷ r) (dedup_from-eq-cons y ys d.0 d.1))

dedup-eq_self : (l : List Known) → DistinctTags l → dedup l ≡ l
unfolding dedup
dedup-eq_self [] d = refl
dedup-eq_self (x ∷ xs) d = dedup_from-eq-cons x xs d.0 d.1

sorted_known : (l : List Known) → DistinctTags l → dedup (sort_by newer l) ≡ sort_by newer l
sorted_known l d = dedup-eq_self (sort_by newer l) (DistinctTags-sort_by l d)

-- The tags of the `n` first in the order of the sort, by counting.
abbrev pub among_first : ℕ → List Known → Text → Bool
among_first n known t = any (λ k. k.0 == t && ltb (rank newer k known) n) known

contains-take :
    (n : ℕ) (l : List Known) (t : Text)
    → DistinctTags l
    → contains (tags_of (take n (sort_by newer l))) t ≡ among_first n l t
contains-take n l t d =
    any-map _ _ (take n (sort_by newer l))
    ∙ any-take newer newer_trans newer_asymm (λ k. k.0 == t) n (sort_by newer l)
        (sort_by-IsStrict newer newer_trans newer_asymm l (DistinctTags-IsTotal l d))
    ∙ any_congr _ _ (sort_by newer l) (
        All-of_forall
          (λ k. ap (λ r. (k.0 == t) && ltb r n) (count-sort_by newer (λ y. newer y k) l))
          (sort_by newer l))
    ∙ any-sort_by newer _ l

among_first_zero :
    (l m : List Known) (t : Text) → any (λ k. k.0 == t && ltb (rank newer k m) 0) l ≡ false
among_first_zero [] m t = refl
among_first_zero (k ∷ l) m t = ground (arith, among_first_zero l m t)

none_newest : (n : ℕ) (l : List Known) (t : Text) → ltb 0 n ≡ false → among_first n l t ≡ false
none_newest n l t h = rw (let z : n ≡ 0 = ground arith in z) (among_first_zero l l t)

contains-sort_by :
    (l : List Known) (t : Text) → contains (tags_of (sort_by newer l)) t ≡ contains (tags_of l) t
contains-sort_by l t = any-map _ _ (sort_by newer l) ∙ any-sort_by newer _ l ∙ sym (any-map _ _ l)

-- A selected tag, in the order of the sort.
pub select_first :
    (w : Window) (known : List Known) (t : Text)
    → DistinctTags known
    → contains (select w known) t ≡ (
        contains w.tags t
        || (if w.full then contains (tags_of known) t else among_first w.last known t))
unfolding select
select_first w known t d = rw (sorted_known known d) (elim (Bool-cases w.full) [
  | inl f ↦
      rw f (any-append _ w.tags _ ∙ ap (λ b. contains w.tags t || b) (contains-sort_by known t))
  | inr nf ↦ rw nf (elim (Bool-cases (ltb 0 w.last)) [
    | inl pos ↦
        rw pos (
          any-append _ w.tags _ ∙ ap (λ b. contains w.tags t || b) (contains-take w.last known t d))
    | inr z ↦ rw z (ground (arith, none_newest w.last known t))
  ])
])

DistinctTags-retain :
    (p : Known → Bool) (l : List Known) → DistinctTags l → DistinctTags (retain p l)
DistinctTags-retain p [] d = tt
DistinctTags-retain p (x ∷ xs) d = elim (Bool-cases (p x)) [
  | inl e ↦ rw e (All-retain _ p xs d.0, DistinctTags-retain p xs d.1)
  | inr e ↦ rw e (DistinctTags-retain p xs d.1)
]

-- The releases whose tags are selected.
abbrev pub kept : Window → List Known → List Known
kept w known = retain (λ k. contains (select w known) k.0) known

contains_of_eq :
    (s : List Text) (a t : Text) → (a == t) ≡ true → contains s t ≡ true → contains s a ≡ true
contains_of_eq s a t e h = rw (==_sound {a = a} {b = t} e) h

any-kept :
    (q : Known → Bool) (s : List Text) (l : List Known) (t : Text)
    → contains s t ≡ true
    → any (λ k. k.0 == t && q k) l ≡ true
    → any (λ k. k.0 == t && q k) (retain (λ k. contains s k.0) l) ≡ true
any-kept q s l t h e =
    rw (any-retain (λ k. k.0 == t && q k) (λ k. contains s k.0) l)
      (any_mono _ _ l (All-of_forall (λ k a. ground (arith, contains_of_eq s k.0 t)) l) e)

among_first-kept :
    (n : ℕ) (s : List Text) (l : List Known) (t : Text)
    → contains s t ≡ true
    → among_first n l t ≡ true
    → among_first n (retain (λ k. contains s k.0) l) t ≡ true
among_first-kept n s l t h e =
    any_mono _ _ (retain (λ k. contains s k.0) l)
      (All-of_forall
        (λ k a. ground (arith, count-retain-le (λ y. newer y k) (λ k'. contains s k'.0) l))
        (retain (λ k. contains s k.0) l))
      (any-kept (λ k. ltb (rank newer k l) n) s l t h e)

known-kept :
    (s : List Text) (l : List Known) (t : Text)
    → contains s t ≡ true
    → contains (tags_of l) t ≡ true
    → contains (tags_of (retain (λ k. contains s k.0) l)) t ≡ true
known-kept s l t h e =
    any-map (λ k. k.0) (λ x. x == t) (retain (λ k. contains s k.0) l)
    ∙ any-retain (λ k. k.0 == t) (λ k. contains s k.0) l
    ∙ any_mono _ _ l (All-of_forall (λ k a. ground (arith, contains_of_eq s k.0 t)) l)
        (sym (any-map (λ k. k.0) (λ x. x == t) l) ∙ e)

-- Of known releases with different tags, what a window selects it selects again when only the
-- selected releases are known.
pub select-kept :
    (w : Window) (known : List Known) (t : Text)
    → DistinctTags known
    → contains (select w known) t ≡ true
    → contains (select w (kept w known)) t ≡ true
select-kept w known t d h = rw (select_first w (kept w known) t (DistinctTags-retain _ known d)) (
    let e : (contains w.tags t
          || (if w.full then contains (tags_of known) t else among_first w.last known t))
        ≡ true =
      sym (select_first w known t d) ∙ h in
    ground (
      arith,
      known-kept (select w known) known t h,
      among_first-kept w.last (select w known) known t h,
    ))

among_first_mono :
    (m n : ℕ) (l : List Known) (t : Text)
    → m ≤ n
    → among_first m l t ≡ true
    → among_first n l t ≡ true
among_first_mono m n l t le e = any_mono _ _ l (All-of_forall (λ k a. ground arith) l) e

known-among_newest :
    (n : ℕ) (l : List Known) (t : Text) → among_first n l t ≡ true → contains (tags_of l) t ≡ true
known-among_newest n l t e =
    any-map (λ k. k.0) (λ x. x == t) l ∙ any_mono _ _ l (All-of_forall (λ k a. ground arith) l) e

-- One more rule for the image never drops a release from its window.
pub select-absorb :
    (w : Window) (m : Mode) (known : List Known) (t : Text)
    → DistinctTags known
    → contains (select w known) t ≡ true
    → contains (select (absorb w m) known) t ≡ true
unfolding absorb
select-absorb w m known t d h = rw (select_first (absorb w m) known t d) (
    let e : (contains w.tags t
          || (if w.full then contains (tags_of known) t else among_first w.last known t))
        ≡ true =
      sym (select_first w known t d) ∙ h in
    elim (Option-cases (window m)) [
      | inl f ↦ ground (arith, known-among_newest w.last known t)
      | inr (n, f) ↦ ground (arith, among_first_mono w.last (max w.last n) known t)
    ])
