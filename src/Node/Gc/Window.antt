-- ===== src/Node/Gc/Window.antt =====
-- What pruning to a window keeps.
use ocid.Prelude.{
  ℕ, ◌≡◌, ◌≢◌, sym, ap, ◌∙◌, true, false, some, List, [], ◌∷◌, arith, map, ◌==◌, Eq, nat_eq,
  list_eq, pair_eq, contains, Bool-cases, Result-cases, inl, inr,
}
use ocid.Prelude.Map.{get}
use ocid.Text.{Text}
use ocid.Identity.{Keys}
use ocid.Release.{Release}
use ocid.Index.{ReleaseKey, stored, remove_release}
use ocid.Index.Releases.{stored-remove_release}
use ocid.Policy.Window.{Known, select, is_empty}
use ocid.Policy.Rules.{Policy, window, is_pinned}
use ocid.Policy.Rules.Laws.{select-is_pinned}
use ocid.Store.{Store}
use ocid.Node.{known_of, local_releases_of}
use ocid.Node.Retained.{own_or_pinned}
use ocid.Node.Sweep.Same.{sweep_blobs_locked-releases}
use ocid.Node.Gc.{drop_release, prune_outside, sweep_if_any, enforce_window}

module _ {Key : Type 0} ⦃eq : Eq Key⦄ (keys : Keys Key) where
  drop_other :
      (st : Store Key) (p : Key) (n t : Text) (k : ReleaseKey Key) (r : Release Key)
      → (p, (n, t)) ≢ k
      → stored st.index k ≡ some r
      → stored (drop_release st p n t).0.index k ≡ some r
  unfolding drop_release
  drop_other st p n t k r d h = elim (Result-cases (remove_release st.index p n t)) [
    | inl (out, q) ↦ ground (arith, (stored-remove_release st.index out.0 p n t out.1 q).1 k)
    | inr (e, q) ↦ ground arith
  ]

  -- The tag of the key is selected if the key is of the image.
  Selected : List Text → Key → Text → ReleaseKey Key → Type 0
  Selected selected p n k = p ≡ k.0 → n ≡ k.1.0 → contains selected k.1.1 ≡ true

  unselected_key :
      (selected : List Text) (p : Key) (n t : Text) (k : ReleaseKey Key)
      → Selected selected p n k
      → contains selected t ≡ false
      → (p, (n, t)) ≢ k
  unfolding Selected
  unselected_key selected p n t k s c e =
      let same : contains selected k.1.1 ≡ true = s (ap (λ x. x.0) e) (ap (λ x. x.1.0) e) in
      ground (arith, ap (λ x. contains selected x.1.1) e)

  prune_outside-keeps :
      (selected : List Text) (p : Key) (n : Text) (rs : List (Release Key)) (st : Store Key)
      (k : ReleaseKey Key) (r : Release Key)
      → Selected selected p n k
      → stored st.index k ≡ some r
      → stored (prune_outside keys selected p n rs st).0.index k ≡ some r
  unfolding prune_outside
  prune_outside-keeps selected p n [] st k r s h = h
  prune_outside-keeps selected p n (x ∷ rs) st k r s h =
      elim (Bool-cases (contains selected x.payload.tag)) [
        | inl c ↦ ground (arith, prune_outside-keeps selected p n rs st k r s h)
        | inr c ↦
            let left =
              drop_other st p n x.payload.tag k r (unselected_key selected p n x.payload.tag k s c)
                h in
            elim (Result-cases (drop_release st p n x.payload.tag).1) [
              | inl (b, q) ↦ ground (
                arith,
                prune_outside-keeps selected p n rs (drop_release st p n x.payload.tag).0 k r s
                    left,
              )
              | inr (e, q) ↦ ground (arith, left)
            ]
      ]

  Selected-own_or_pinned :
      (policy : Policy) (me p : Key) (n : Text) (k : ReleaseKey Key) (known : List Known)
      → (p == me) ≡ false
      → own_or_pinned keys policy me k.0 k.1.0 k.1.1 ≡ true
      → Selected (select (window keys policy p n) known) p n k
  unfolding Selected own_or_pinned
  Selected-own_or_pinned policy me p n k known o a e f =
      let other : (k.0 == me) ≡ false = ap (λ x. x == me) (sym e) ∙ o in
      let pinned : is_pinned keys policy k.0 k.1.0 k.1.1 ≡ true = ground arith in
      ap (λ x. contains (select (window keys policy x n) known) k.1.1) e
      ∙ ap (λ x. contains (select (window keys policy k.0 x) known) k.1.1) f
      ∙ select-is_pinned keys policy k.0 k.1.0 k.1.1 known pinned

  sweep_if_any-stored :
      (removed : ℕ) (st : Store Key) (k : ReleaseKey Key)
      → stored (sweep_if_any keys removed st).index k ≡ stored st.index k
  unfolding sweep_if_any stored
  sweep_if_any-stored removed st k =
      ground (arith, ap (λ m. get k m) (sweep_blobs_locked-releases keys false [] st))

  -- Pruning any image to its window, also if it fails, leaves as it was every stored release of the
  -- node itself and every one whose tag is pinned.
  pub enforce_window-keeps :
      (policy : Policy) (me : Key) (st : Store Key) (p : Key) (n : Text) (k : ReleaseKey Key)
      (r : Release Key)
      → stored st.index k ≡ some r
      → own_or_pinned keys policy me k.0 k.1.0 k.1.1 ≡ true
      → stored (enforce_window keys policy me st p n).0.index k ≡ some r
  unfolding enforce_window own_or_pinned
  enforce_window-keeps policy me st p n k r h a = elim (Bool-cases (p == me)) [
    | inl own ↦ ground arith
    | inr other ↦ elim (Bool-cases (is_empty (window keys policy p n))) [
      | inl e ↦ ground arith
      | inr e ↦ elim (Result-cases (local_releases_of st.index p n)) [
        | inr (x, q) ↦ ground arith
        | inl (held, q) ↦
            let selected = select (window keys policy p n) (map known_of held) in
            let out = prune_outside keys selected p n held st in
            let left : stored out.0.index k ≡ some r =
              prune_outside-keeps selected p n held st k r
                (Selected-own_or_pinned policy me p n k (map known_of held) other a) h in
            elim (Result-cases out.1) [
              | inl (removed, w) ↦ ground (arith, left, sweep_if_any-stored removed out.0 k)
              | inr (x, w) ↦ ground (arith, left)
            ]
      ]
    ]
  ]
