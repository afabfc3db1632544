-- ===== src/Node/Retained.antt =====
-- The set of releases that garbage collection keeps.
use ocid.Prelude.{
  ◌≡◌, refl, ap, ◌∙◌, Bool, true, false, ◌&&◌, ◌||◌, some, List, [], ◌∷◌, ◌++◌, map, arith, ◌==◌,
  ==_refl, Eq, nat_eq, list_eq, pair_eq, contains, retain, any, any-append, any-map, any-retain,
  any_mono, All-of_forall, any-sort_by, Option-cases, Bool-cases, inl, inr,
}
use ocid.Prelude.Map.{Map, get, insert, values, get-insert}
use ocid.Text.{Text}
use ocid.Identity.{Keys}
use ocid.Release.{Release, reference}
use ocid.Index.{Index, ReleaseKey, key_of, stored, list_releases}
use ocid.Policy.Window.{Window, select, is_empty, no_tags}
use ocid.Policy.Rules.{Policy, is_pinned, window}
use ocid.Policy.Rules.Laws.{select-is_pinned, window-is_pinned}
use ocid.Node.{repo_of, releases_at, group, kept_of, keep_all, retained_set, known_of}

-- A map's entry is found by a search through the entries.
any-get :
    {K V : Type 0} ⦃e : Eq K⦄ (p : K × V → Bool) (m : Map K V) (k : K) (v : V)
    → get k m ≡ some v
    → p (k, v) ≡ true
    → any p m ≡ true
unfolding get
any-get p [] k v h q = cc
any-get p ((j, w) ∷ m) k v h q = ground (arith, any-get p m k v)

no_tags-contains : (ts : List Text) (t : Text) → contains ts t ≡ true → no_tags ts ≡ false
no_tags-contains [] t h = cc
no_tags-contains (u ∷ ts) t h = refl

is_empty-contains : (w : Window) (t : Text) → contains w.tags t ≡ true → is_empty w ≡ false
unfolding is_empty
is_empty-contains w t h = ground (arith, no_tags-contains w.tags t h)

module _ {Key : Type 0} ⦃eq : Eq Key⦄ where
  any-releases_at :
      (p : Release Key → Bool) (k j : Key × Text) (r : Release Key)
      (m : Map (Key × Text) (List (Release Key)))
      → any p (releases_at k (insert j (releases_at j m ++ (r ∷ [])) m))
        ≡ (any p (releases_at k m) || (j == k && p r))
  any-releases_at p k j r m = ground (
    arith,
    get-insert j k (releases_at j m ++ (r ∷ [])) m,
    any-append p (releases_at j m) (r ∷ []),
  )

  -- Every release is in the group of its image.
  any-group :
      (p : Release Key → Bool) (k : Key × Text) (rs : List (Release Key))
      (m : Map (Key × Text) (List (Release Key)))
      → any p (releases_at k (group rs m))
        ≡ (any p (releases_at k m) || any (λ r. repo_of r == k && p r) rs)
  unfolding group
  any-group p k [] m = ground arith
  any-group p k (r ∷ rs) m =
      any-group p k rs _ ∙ ground (arith, any-releases_at p k (repo_of r) r m)

module _ {Key : Type 0} ⦃eq : Eq Key⦄ (keys : Keys Key) where
  any-keep_all :
      (policy : Policy) (me : Key) (t : Text) (m : Map (Key × Text) (List (Release Key)))
      → contains (keep_all keys policy me m) t
        ≡ any (λ en. contains (kept_of keys policy me en) t) m
  unfolding keep_all
  any-keep_all policy me t [] = refl
  any-keep_all policy me t (en ∷ m) =
      any-append _ (kept_of keys policy me en) _
      ∙ ap (λ b. contains (kept_of keys policy me en) t || b) (any-keep_all policy me t m)

  -- What makes a group keep a reference: it is the node's own, or the tag is pinned.
  unfoldable pub own_or_pinned : Policy → Key → Key → Text → Text → Bool
  own_or_pinned policy me p n t = p == me || is_pinned keys policy p n t

  -- A release whose key is the given one.
  abbrev has_tag_text : Text → Text → Release Key → Bool
  has_tag_text t x r = r.payload.tag == t && reference keys r == x

  contains-kept_of :
      (policy : Policy) (me p : Key) (n t x : Text) (rels : List (Release Key))
      → own_or_pinned policy me p n t ≡ true
      → any (has_tag_text t x) rels ≡ true
      → contains (kept_of keys policy me ((p, n), rels)) x ≡ true
  unfolding kept_of own_or_pinned
  contains-kept_of policy me p n t x rels h a = elim (Bool-cases (p == me)) [
    | inl own ↦ rw own (
        any-map (reference keys) (λ y. y == x) rels
        ∙ any_mono (has_tag_text t x) _ rels (All-of_forall (λ r q. ground arith) rels) a)
    | inr other ↦
        let pinned : is_pinned keys policy p n t ≡ true = ground arith in
        let nonempty : is_empty (window keys policy p n) ≡ false =
          is_empty-contains (window keys policy p n) t
            (window-is_pinned keys policy p n t pinned) in
        let sel = select-is_pinned keys policy p n t (map known_of rels) pinned in
        rw (other, nonempty)
          (any-map (reference keys) (λ y. y == x) (retain _ rels)
            ∙ any-retain _ _ rels
            ∙ any_mono (has_tag_text t x)
                (λ r.
                  contains (select (window keys policy p n) (map known_of rels)) r.payload.tag
                  && reference keys r == x)
                rels (All-of_forall (λ r q. ground (arith, sel)) rels) a)
  ]

  -- A search through the stored releases, as the loops over them see it.
  any-list_releases :
      (ix : Index Key) (p : Release Key → Bool)
      → any p (list_releases keys ix) ≡ any (λ en. p en.1.0) ix.releases
  unfolding list_releases
  any-list_releases ix p =
      any-sort_by _ p _ ∙ any-map _ p (values ix.releases) ∙ any-map _ _ ix.releases

  pub any-stored :
      (ix : Index Key) (p : Release Key → Bool) (k : ReleaseKey Key) (r : Release Key)
      → stored ix k ≡ some r
      → p r ≡ true
      → any p (list_releases keys ix) ≡ true
  unfolding stored
  any-stored ix p k r h q = any-list_releases ix p ∙ elim (Option-cases (get k ix.releases)) [
    | inl n ↦ absurd (ground arith)
    | inr (en, g) ↦ any-get (λ e. p e.1.0) ix.releases k en g (ground arith)
  ]

  pub retained_set-own_or_pinned :
      (policy : Policy) (me : Key) (ix : Index Key) (r : Release Key)
      → stored ix (key_of r) ≡ some r
      → own_or_pinned policy me r.payload.publisher r.payload.name r.payload.tag ≡ true
      → contains (retained_set keys policy me (list_releases keys ix)) (reference keys r) ≡ true
  unfolding retained_set get
  retained_set-own_or_pinned policy me ix r h a =
      let rels = list_releases keys ix in
      let k : Key × Text = repo_of r in
      let x = reference keys r in
      let listed : any (λ s. repo_of s == k && has_tag_text r.payload.tag x s) rels ≡ true =
        any-stored ix _ (key_of r) r h
          (ground (arith, ==_refl k, ==_refl x, ==_refl r.payload.tag)) in
      let there : any (has_tag_text r.payload.tag x) (releases_at k (group rels [])) ≡ true =
        any-group (has_tag_text r.payload.tag x) k rels [] ∙ listed in
      any-keep_all policy me x (group rels []) ∙ elim (Option-cases (get k (group rels []))) [
        | inl n ↦ absurd (ground arith)
        | inr (g, q) ↦ any-get _ (group rels []) k g q (
            contains-kept_of policy me r.payload.publisher r.payload.name r.payload.tag x g a
              (ground arith))
      ]
