-- ===== src/Node/Remove.antt =====
-- `remove_release` and `enforce_all_windows` of crates/ocid/src/node.rs.
pub mod Keeps
use ocid.Prelude.{
  ℕ, ◌≡◌, Bool, true, false, not, ◌&&◌, ◌||◌, Option, none, some, List, [], ◌∷◌, ◌++◌,
  if◌then◌else◌, ◌==◌, Eq, nat_eq, list_eq, pair_eq, contains, sort_by, Result, ok, err, ◌>>=◌,
}
use ocid.Text.{Text}
use ocid.Text.Compare.{less}
use ocid.Identity.{Keys}
use ocid.Release.{Release}
use ocid.Index.{list_tags, list_releases}
use ocid.Policy.Rules.{Policy, covers}
use ocid.Store.{Store}
use ocid.Store.Fetch.{and_then}
use ocid.Node.{repo_of}
use ocid.Node.Sweep.{sweep_blobs_locked}
use ocid.Node.Gc.{drop_release, enforce_window}

pub record RmResp : Type 0 where
  pub removed : List Text
  pub still_wanted : Bool

-- The order of `BTreeMap<(PublisherId, String), _>`.
unfoldable pub repo_before : {Key : Type 0} → Keys Key → Key × Text → Key × Text → Bool
repo_before keys a b =
    less (keys.as_bytes a.0) (keys.as_bytes b.0)
    || (keys.as_bytes a.0 == keys.as_bytes b.0) && less a.1 b.1

abbrev tags_of : Option Text → Result (List Text) → Result (List Text)
tags_of none listed = listed
tags_of (some t) listed = ok (t ∷ [])

module _ {Key : Type 0} ⦃eq : Eq Key⦄ where
  -- The images of the stored releases, each once.
  unfoldable pub repos_of : List (Release Key) → List (Key × Text)
  repos_of [] = []
  repos_of (r ∷ rs) =
      let rest = repos_of rs in if contains rest (repo_of r) then rest else repo_of r ∷ rest

module _ {Key : Type 0} ⦃eq : Eq Key⦄ (keys : Keys Key) where
  -- The loop of `remove_release`: the references it removed.
  unfoldable pub remove_tags : Key → Text → List Text → Store Key → Store Key × Result (List Text)
  unfolding drop_release
  remove_tags publisher name [] st = (st, ok [])
  remove_tags publisher name (t ∷ ts) st =
      let out = drop_release st publisher name t in
      elim out.1 [
        | err e ↦ (out.0, err e)
        | ok was ↦
            let rest = remove_tags publisher name ts out.0 in
            (
              rest.0,
              rest.1 >>= λ rs.
                  ok (
                    if was then (keys.to_text publisher ++ b'/' ∷ (name ++ b':' ∷ t)) ∷ rs else rs),
            )
      ]

  abbrev sweep_after : List Text → Store Key → Store Key
  sweep_after [] st = st
  sweep_after (r ∷ rs) st = (sweep_blobs_locked keys false [] st).0

  -- `Node::remove_release`
  unfoldable pub remove_release :
      Policy → Key → Key → Text → Option Text → Store Key → Store Key × Result RmResp
  unfolding list_tags remove_tags covers sweep_blobs_locked
  remove_release policy me publisher name tag st =
      elim (tags_of tag (list_tags st.index publisher name)) [
        | err e ↦ (st, err e)
        | ok tags ↦
            let out = remove_tags publisher name tags st in
            elim out.1 [
              | err e ↦ (out.0, err e)
              | ok removed ↦ (
                sweep_after removed out.0,
                ok (record {
                  removed = removed;
                  still_wanted = not (publisher == me) && covers keys policy publisher name;
                }),
              )
            ]
      ]

  -- The loop of `enforce_all_windows`
  unfoldable pub enforce_windows :
      Policy → Key → List (Key × Text) → Store Key → Store Key × Result (Unit {0})
  unfolding enforce_window
  enforce_windows policy me [] st = (st, ok tt)
  enforce_windows policy me ((publisher, name) ∷ more) st =
      and_then (enforce_window keys policy me st publisher name)
        (λ st'. enforce_windows policy me more st')

  -- `Node::enforce_all_windows`
  unfoldable pub enforce_all_windows : Policy → Key → Store Key → Store Key × Result (Unit {0})
  unfolding enforce_windows list_releases repos_of sort_by repo_before
  enforce_all_windows policy me st =
      enforce_windows policy me
        (sort_by (repo_before keys) (repos_of (list_releases keys st.index))) st
