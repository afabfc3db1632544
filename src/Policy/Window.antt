-- ===== src/Policy/Window.antt =====
-- `Window`: the retention that all rules for one image add up to.
pub mod Select
pub mod Newest
use ocid.Prelude.{
  ℕ, max, ◌≡◌, Bool, true, false, not, ◌&&◌, Option, none, some, List, [], ◌∷◌, ◌++◌, map,
  if◌then◌else◌, ◌==◌, nat_eq, list_eq, contains, take, sort_by, ltb, ◌||◌,
}
use ocid.Text.{Text}
use ocid.Text.Compare.{less}
use ocid.Policy.Mode.{Mode, window}

-- `tags` is a `BTreeSet`: only membership in it is used.
pub record Window : Type 0 where
  pub full : Bool
  pub last : ℕ
  pub tags : List Text

abbrev pub default : Window
default = record { full = false; last = 0; tags = [] }

abbrev pub no_tags : List Text → Bool
no_tags [] = true
no_tags (t ∷ ts) = false

-- `Window::is_empty`
unfoldable pub is_empty : Window → Bool
unfolding nat_eq
is_empty w = not w.full && w.last == 0 && no_tags w.tags

-- `Window::absorb`
unfoldable pub absorb : Window → Mode → Window
absorb w mode = elim (window mode) [
  | none ↦ record w { full = true }
  | some n ↦ record w { last = max w.last n }
]

-- `w.tags.insert(t)`
unfoldable pub insert_tag : Window → Text → Window
insert_tag w t = record w { tags = t ∷ w.tags }

-- A known release of the image: its tag and timestamp.
abbrev pub Known : Type 0
Known = Text × ℕ

-- The comparator of the sort: newest first, and of one second the greater tag first.
unfoldable pub newer : Known → Known → Bool
unfolding nat_eq
newer (t, ts) (u, us) = if ltb us ts then true else if ts == us then less u t else false

-- `Vec::dedup_by` on the tags: of neighbours with one tag the first stays.
unfoldable pub dedup_from : Known → List Known → List Known
dedup_from x [] = x ∷ []
dedup_from x (y ∷ ys) = if y.0 == x.0 then dedup_from x ys else x ∷ dedup_from y ys

unfoldable pub dedup : List Known → List Known
unfolding dedup_from
dedup [] = []
dedup (x ∷ xs) = dedup_from x xs

abbrev pub tags_of : List Known → List Text
tags_of known = map (λ k. k.0) known

-- `Window::select`
unfoldable pub select : Window → List Known → List Text
unfolding newer sort_by dedup
select w known =
    let sorted = dedup (sort_by newer known) in
    if w.full
    then w.tags ++ tags_of sorted
    else if ltb 0 w.last
    then w.tags ++ tags_of (take w.last sorted)
    else w.tags
