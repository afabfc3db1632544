-- ===== src/Text/Compare.antt =====
-- The lexicographic order of texts (`Ord for str`).
use ocid.Prelude.{
  ◌≡◌, refl, ◌⊎◌, inl, inr, Bool, true, false, [], ◌∷◌, arith, ltb, if◌then◌else◌, nat_eq,
}
use ocid.Text.{Text}

unfoldable pub less : Text → Text → Bool
less s [] = false
less [] (d ∷ t) = true
less (c ∷ s) (d ∷ t) = if ltb c d then true else if ltb d c then false else less s t

pub less_asymm : (s t : Text) → less s t ≡ true → less t s ≡ false
unfolding less
less_asymm [] [] h = refl
less_asymm [] (d ∷ t) h = refl
less_asymm (c ∷ s) [] h = cc
less_asymm (c ∷ s) (d ∷ t) h = ground (arith, less_asymm s t)

pub less_trans : (s t u : Text) → less s t ≡ true → less t u ≡ true → less s u ≡ true
unfolding less
less_trans s t [] h k = absurd (elim (t) [ [] ↦ cc | d ∷ t' ↦ cc ])
less_trans s [] (e ∷ u) h k = absurd (cc)
less_trans [] (d ∷ t) (e ∷ u) h k = refl
less_trans (c ∷ s) (d ∷ t) (e ∷ u) h k = ground (arith, less_trans s t u)

pub less_total : (s t : Text) → (less s t ≡ true) ⊎ (s ≡ t) ⊎ (less t s ≡ true)
unfolding less
less_total [] [] = inr (inl refl)
less_total [] (d ∷ t) = inl refl
less_total (c ∷ s) [] = inr (inr refl)
less_total (c ∷ s) (d ∷ t) = ground (arith, less_total s t)
