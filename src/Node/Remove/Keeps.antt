-- ===== src/Node/Remove/Keeps.antt =====
-- What `remove_release` and `enforce_all_windows` of crates/ocid/src/node.rs leave alone, from what
-- their steps leave alone.
use ocid.Prelude.{false, List, [], ◌∷◌, Option, Eq, Result-keeps, Result, sort_by}
use ocid.Text.{Text}
use ocid.Identity.{Keys}
use ocid.Index.{list_tags, list_releases}
use ocid.Policy.Rules.{Policy}
use ocid.Store.{Store}
use ocid.Store.Sound.{and_then-keeps}
use ocid.Node.Sweep.{sweep_blobs_locked}
use ocid.Node.Gc.{drop_release, enforce_window}
use ocid.Node.Remove.{
  RmResp, repo_before, repos_of, tags_of, remove_tags, sweep_after, remove_release, enforce_windows,
  enforce_all_windows,
}

module _ {Key : Type 0} ⦃eq : Eq Key⦄ (keys : Keys Key) (P : Store Key → Type 0) where
  module _ (policy : Policy) (me : Key)
      (pruned : (st : Store Key) (p : Key) (n : Text)
        → P st
        → P (enforce_window keys policy me st p n).0) where
    enforce_windows-keeps :
        (repos : List (Key × Text)) (st : Store Key)
        → P st
        → P (enforce_windows keys policy me repos st).0
    unfolding enforce_windows
    enforce_windows-keeps [] st h = h
    enforce_windows-keeps ((p, n) ∷ more) st h =
        and_then-keeps P (enforce_window keys policy me st p n) _ (pruned st p n h)
          (λ st' h'. enforce_windows-keeps more st' h')

    pub enforce_all_windows-keeps :
        (st : Store Key) → P st → P (enforce_all_windows keys policy me st).0
    unfolding enforce_all_windows
    enforce_all_windows-keeps st h =
        enforce_windows-keeps (sort_by (repo_before keys) (repos_of (list_releases keys st.index)))
          st h

  module _ (p : Key) (n : Text)
      (dropped : (st : Store Key) (t : Text) → P st → P (drop_release st p n t).0)
      (swept : (st : Store Key) → P st → P (sweep_blobs_locked keys false [] st).0) where
    remove_tags-keeps : (ts : List Text) (st : Store Key) → P st → P (remove_tags keys p n ts st).0
    unfolding remove_tags
    remove_tags-keeps [] st h = h
    remove_tags-keeps (t ∷ ts) st h =
        Result-keeps {B = Store Key × Result (List Text)} (λ o. P o.0) (drop_release st p n t).1 _ _
          (λ e. dropped st t h)
          (λ was q. remove_tags-keeps ts (drop_release st p n t).0 (dropped st t h))

    sweep_after-keeps :
        (removed : List Text) (st : Store Key) → P st → P (sweep_after keys removed st)
    sweep_after-keeps [] st h = h
    sweep_after-keeps (r ∷ rs) st h = swept st h

    pub remove_release-keeps :
        (policy : Policy) (me : Key) (tag : Option Text) (st : Store Key)
        → P st
        → P (remove_release keys policy me p n tag st).0
    unfolding remove_release
    remove_release-keeps policy me tag st h =
        Result-keeps {B = Store Key × Result RmResp} (λ o. P o.0)
          (tags_of tag (list_tags st.index p n)) _ _ (λ e. h)
          (λ tags q.
            Result-keeps {B = Store Key × Result RmResp} (λ o. P o.0)
              (remove_tags keys p n tags st).1 _ _ (λ e. remove_tags-keeps tags st h)
              (λ removed w.
                sweep_after-keeps removed (remove_tags keys p n tags st).0
                  (remove_tags-keeps tags st h)))
