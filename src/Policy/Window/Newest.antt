-- ===== src/Policy/Window/Newest.antt =====
-- Which tags a window selects, said of the timestamps alone.
use ocid.Prelude.{
  ℕ, ◌≡◌, ap, ◌∙◌, fun_ext, Bool, ◌&&◌, ◌||◌, List, arith, if◌then◌else◌, ◌==◌, nat_eq, list_eq,
  ltb, contains, any, count,
}
use ocid.Text.{Text}
use ocid.Text.Compare.{less}
use ocid.Policy.Window.{Window, Known, newer, tags_of, select}
use ocid.Policy.Window.Select.{DistinctTags, among_first, select_first}

-- `y` was published later than `k`; of one second, the greater tag counts as later.
abbrev pub is_later : Known → Known → Bool
is_later y k = ltb k.1 y.1 || k.1 == y.1 && less k.0 y.0

newer-is_later : (y k : Known) → newer y k ≡ is_later y k
unfolding newer
newer-is_later (t, ts) (u, us) = ground arith

-- A known tag with fewer than `n` later ones.
abbrev pub among_newest : ℕ → List Known → Text → Bool
among_newest n known t = any (λ k. k.0 == t && ltb (count (λ y. is_later y k) known) n) known

among_first-newest :
    (n : ℕ) (known : List Known) (t : Text) → among_first n known t ≡ among_newest n known t
among_first-newest n known t =
    ap (λ f. any (λ k. k.0 == t && ltb (count (λ y. f y k) known) n) known)
      (fun_ext (λ y. fun_ext (λ k. newer-is_later y k)))

-- Of known releases with different tags, a tag is selected exactly when a rule names it, or the window is
-- full and it is known, or the window is not full and fewer than `last` known releases are later,
-- where of releases of one second the greater tag counts as later.
pub select_newest :
    (w : Window) (known : List Known) (t : Text)
    → DistinctTags known
    → contains (select w known) t ≡ (
        contains w.tags t
        || (if w.full then contains (tags_of known) t else among_newest w.last known t))
select_newest w known t d =
    select_first w known t d
    ∙ ap (λ b. contains w.tags t || (if w.full then contains (tags_of known) t else b))
        (among_first-newest w.last known t)
