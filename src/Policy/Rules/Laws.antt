-- ===== src/Policy/Rules/Laws.antt =====
-- What the window of an image keeps, from the rules for it.
use ocid.Prelude.{
  ◌≡◌, refl, ◌∙◌, Bool, true, false, not, ◌&&◌, ◌||◌, Option, none, some, List, [], ◌∷◌, arith,
  ◌==◌, Eq, nat_eq, list_eq, option_eq, any, any-append, any_congr, All-of_forall, contains, ltb,
  Option-cases, inl, inr, Bool-cases,
}
use ocid.Text.{Text}
use ocid.Identity.{Keys}
use ocid.Policy.Mode.{Mode, full, latest, last}
use ocid.Policy.Window.{Window, Known, select, absorb, insert_tag, is_empty}
use ocid.Policy.Window
use ocid.Policy.Rules.{
  Policy, SeedRule, follow_mode, is_pinned, absorb_rules, absorb_pins, absorb_follow, window,
  covers, pins, seed_rules,
}

is_empty-absorb : (w : Window) (m : Mode) → is_empty (absorb w m) ≡ false
unfolding is_empty absorb ocid.Policy.Mode.window
is_empty-absorb w full = refl
is_empty-absorb w latest = ground arith
is_empty-absorb w (last n) = ground arith

is_empty-insert_tag : (w : Window) (t : Text) → is_empty (insert_tag w t) ≡ false
unfolding is_empty insert_tag
is_empty-insert_tag w t = ground arith

abbrev pub is_tagged : {Key : Type 0} → SeedRule Key → Bool
is_tagged r = elim r.tag [ none ↦ false | some t ↦ true ]

module _ {Key : Type 0} ⦃e : Eq Key⦄ (publisher : Key) (name : Text) where
  -- The rule is for this image.
  abbrev pub for_image : SeedRule Key → Bool
  for_image r = r.publisher == publisher && r.name == name

  contains-absorb_pins :
      (rs : List (SeedRule Key)) (w : Window) (t : Text)
      → contains (absorb_pins publisher name rs w).tags t
        ≡ (any (λ r. for_image r && r.tag == some t) rs || contains w.tags t)
  unfolding absorb_pins insert_tag
  contains-absorb_pins [] w t = refl
  contains-absorb_pins (r ∷ rs) w t = contains-absorb_pins rs _ t ∙ ground arith

  is_empty-absorb_rules :
      (rs : List (SeedRule Key)) (w : Window)
      → is_empty (absorb_rules publisher name rs w) ≡ (is_empty w && not (any for_image rs))
  unfolding absorb_rules
  is_empty-absorb_rules [] w = ground arith
  is_empty-absorb_rules (r ∷ rs) w = is_empty-absorb_rules rs _ ∙ elim (Option-cases r.tag) [
    | inl n ↦ ground (arith, is_empty-absorb w r.mode)
    | inr (t, n) ↦ ground (arith, is_empty-insert_tag w t)
  ]

  is_empty-absorb_pins :
      (rs : List (SeedRule Key)) (w : Window)
      → is_empty (absorb_pins publisher name rs w)
        ≡ (is_empty w && not (any (λ r. for_image r && is_tagged r) rs))
  unfolding absorb_pins
  is_empty-absorb_pins [] w = ground arith
  is_empty-absorb_pins (r ∷ rs) w = is_empty-absorb_pins rs _ ∙ elim (Option-cases r.tag) [
    | inl n ↦ ground arith
    | inr (t, n) ↦ ground (arith, is_empty-insert_tag w t)
  ]

abbrev pub has_value : Option Mode → Bool
has_value none = false
has_value (some m) = true

select_tags :
    (w : Window) (known : List Known) (t : Text)
    → contains w.tags t ≡ true
    → contains (select w known) t ≡ true
unfolding select
select_tags w known t h = elim (Bool-cases w.full) [
  | inl f ↦ rw (f, any-append) (rw h)
  | inr nf ↦
      rw nf (elim (Bool-cases (ltb 0 w.last)) [
        | inl pos ↦ rw (pos, any-append) (rw h)
        | inr z ↦ rw z h
      ])
]

module _ {Key : Type 0} ⦃e : Eq Key⦄ (keys : Keys Key) (p : Policy) (publisher : Key)
    (name : Text) where
  is_empty-absorb_follow :
      (o : Option Mode) → is_empty (absorb_follow o Window.default) ≡ not (has_value o)
  unfolding is_empty nat_eq
  is_empty-absorb_follow none = refl
  is_empty-absorb_follow (some m) = is_empty-absorb Window.default m

  -- An image is covered exactly when its publisher is followed, or a seed rule or a pin is for it.
  pub covers-rules : covers keys p publisher name ≡ (
      has_value (follow_mode keys p publisher)
      || any (for_image publisher name) (seed_rules keys p)
      || any (λ r. for_image publisher name r && is_tagged r) (pins keys p))
  unfolding covers window
  covers-rules =
      rw (is_empty-absorb_pins publisher name)
        (rw (is_empty-absorb_rules publisher name) (rw is_empty-absorb_follow (ground arith)))

  -- A pinned tag is among the tags that the window of its image names.
  pub window-is_pinned :
      (t : Text)
      → is_pinned keys p publisher name t ≡ true
      → contains (window keys p publisher name).tags t ≡ true
  unfolding window is_pinned
  window-is_pinned t h = rw (contains-absorb_pins publisher name) (
      rw
        (any_congr (λ r. for_image publisher name r && r.tag == some t)
          (λ r. r.publisher == publisher && r.name == name && r.tag == some t) (pins keys p)
          (All-of_forall (λ r. ground arith) (pins keys p)))
        (rw h))

  -- A pinned tag is selected, whatever releases are known.
  pub select-is_pinned :
      (t : Text) (known : List Known)
      → is_pinned keys p publisher name t ≡ true
      → contains (select (window keys p publisher name) known) t ≡ true
  select-is_pinned t known h =
      select_tags (window keys p publisher name) known t (window-is_pinned t h)
