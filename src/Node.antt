-- ===== src/Node.antt =====
-- What a node wants and what it keeps: crates/ocid/src/node.rs. Counters, events, logs and the locks
-- are not modelled; each call runs alone, and what it leaves on an error is returned with the error.
pub mod Peers
pub mod Exchange
pub mod Replicate
pub mod Remove
pub mod Publish
pub mod Sound
pub mod Addressed
pub mod Commands
pub mod Daemon
pub mod Attach
pub mod Sweep
pub mod Gc
pub mod Retained
use mathlib.Core.Option
use ocid.Prelude.{
  ℕ, ◌≡◌, Bool, true, false, not, ◌&&◌, ◌||◌, Option, none, some, List, [], ◌∷◌, ◌++◌, map,
  if◌then◌else◌, ◌==◌, Eq, nat_eq, list_eq, pair_eq, contains, retain, filter_map, ltb, Result, ok,
  err, ◌>>=◌,
}
use ocid.Prelude.Map.{Map, get, insert}
use ocid.Text.{Text}
use ocid.Identity.{Keys}
use ocid.Release.{Release, ReleaseSummary, reference}
use ocid.Index.{Index, list_tags, get_release}
use ocid.Policy.Window.{Window, Known, is_empty, select}
use ocid.Policy.Rules.{Policy, window}

-- The map that the pairs are collected into: of two with one tag the later stays.
unfoldable pub held_tags : List Known → Map Text ℕ → Map Text ℕ
held_tags [] m = m
held_tags ((t, ts) ∷ ks) m = held_tags ks (insert t ts m)

module _ {Key : Type 0} where
  -- `(r.payload.tag.as_str(), r.payload.timestamp)`
  abbrev pub known_of : Release Key → Known
  known_of r = (r.payload.tag, r.payload.timestamp)

  abbrev pub known_summary : ReleaseSummary Key → Known
  known_summary s = (s.tag, s.timestamp)

  abbrev pub repo_of : Release Key → Key × Text
  repo_of r = (r.payload.publisher, r.payload.name)

module _ {Key : Type 0} ⦃eq : Eq Key⦄ where
  -- The loop of `local_releases_of`
  unfoldable pub collect : Index Key → Key → Text → List Text → Result (List (Release Key))
  unfolding get_release
  collect ix publisher name [] = ok []
  collect ix publisher name (t ∷ ts) = do
    found ← get_release ix publisher name t
    rest ← collect ix publisher name ts
    ok (elim found [ none ↦ rest | some r ↦ r ∷ rest ])

  -- `Node::local_releases_of`
  unfoldable pub local_releases_of : Index Key → Key → Text → Result (List (Release Key))
  unfolding list_tags collect
  local_releases_of ix publisher name = do
    tags ← list_tags ix publisher name
    collect ix publisher name tags

  -- The releases of each image.
  abbrev pub releases_at : Key × Text → Map (Key × Text) (List (Release Key)) → List (Release Key)
  releases_at k m = elim (get k m) [ none ↦ [] | some rs ↦ rs ]

  unfoldable pub group :
      List (Release Key)
      → Map (Key × Text) (List (Release Key))
      → Map (Key × Text) (List (Release Key))
  group [] m = m
  group (r ∷ rs) m = group rs (insert (repo_of r) (releases_at (repo_of r) m ++ (r ∷ [])) m)

  -- Newer than the record of the tag that is held, if one is held.
  abbrev pub newer_than : Map Text ℕ → ReleaseSummary Key → Bool
  newer_than held s = elim (get s.tag held) [ none ↦ true | some ts ↦ ltb ts s.timestamp ]

module _ {Key : Type 0} ⦃eq : Eq Key⦄ (keys : Keys Key) where
  -- `Node::select_wanted`
  unfoldable pub select_wanted :
      Index Key
      → Policy
      → Key
      → Text
      → List (ReleaseSummary Key)
      → Result (List (ReleaseSummary Key))
  unfolding local_releases_of window is_empty select held_tags
  select_wanted ix policy publisher name remote =
      let w = window keys policy publisher name in
      if is_empty w then ok [] else do
        releases ← local_releases_of ix publisher name
        let held = held_tags (map known_of releases) []
        let selected = select w (held ++ map known_summary remote)
        ok (retain (newer_than held) (retain (λ s. contains selected s.tag) remote))

  -- The references that the loop over the images adds to `keep`.
  unfoldable pub kept_of : Policy → Key → (Key × Text) × List (Release Key) → List Text
  unfolding window is_empty select reference
  kept_of policy me ((publisher, name), rels) =
      if publisher == me
      then map (reference keys) rels
      else let w = window keys policy publisher name in
        if is_empty w
        then []
        else map (reference keys)
            (retain (λ r. contains (select w (map known_of rels)) r.payload.tag) rels)

  unfoldable pub keep_all : Policy → Key → Map (Key × Text) (List (Release Key)) → List Text
  unfolding kept_of
  keep_all policy me [] = []
  keep_all policy me (en ∷ more) = kept_of policy me en ++ keep_all policy me more

  -- `Node::retained_set`
  unfoldable pub retained_set : Policy → Key → List (Release Key) → List Text
  unfolding group keep_all
  retained_set policy me releases = keep_all policy me (group releases [])
