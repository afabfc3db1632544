-- ===== src/Node/Gc.antt =====
-- Removing releases: `enforce_window`, `remove_release` and `gc` of crates/ocid/src/node.rs.
pub mod Keeps
pub mod Steps
pub mod Window
use ocid.Prelude.{
  ℕ, ◌+◌, ◌-◌, ◌≡◌, Bool, true, false, not, ◌&&◌, ◌||◌, Option, none, some, List, [], ◌∷◌, ◌++◌,
  map, if◌then◌else◌, ◌==◌, Eq, nat_eq, list_eq, contains, retain, length, ltb, leb, Result, ok,
  err, ◌>>=◌, Error,
}
use ocid.Prelude.Map.{Map}
use ocid.Text.{Text}
use ocid.Identity.{Keys}
use ocid.Release.{Release, reference}
use ocid.Index.{release_mtime, remove_release, list_releases, prune_referrers}
use ocid.Policy.Window.{is_empty, select}
use ocid.Policy.Rules.{Policy, window}
use ocid.Store.{Store}
use ocid.Node.{known_of, local_releases_of, retained_set}
use ocid.Node.Sweep.{sweep_blobs_locked}

pub record GcReq : Type 0 where
  pub dry_run : Bool
  pub force : Bool

pub record GcReport : Type 0 where
  pub dry_run : Bool
  pub releases_removed : List Text
  pub blobs_removed : ℕ
  pub bytes_freed : ℕ
  pub uploads_removed : ℕ

-- The upload files of the node, each with the time it was last written.
pub record Disk (Key : Type 0) : Type 0 where
  pub store : Store Key
  pub uploads : Map Text ℕ

-- One day, in the units of the clock (seconds).
abbrev upload_age : ℕ
upload_age = 86400

unfoldable pub prune_uploads : Bool → ℕ → Map Text ℕ → Map Text ℕ × ℕ
prune_uploads dry_run now uploads =
    let is_old : Text × ℕ → Bool = λ u. leb u.1 now && ltb upload_age (now - u.1) in
    (
      if dry_run then uploads else retain (λ u. not (is_old u)) uploads,
      length (retain is_old uploads),
    )

module _ {Key : Type 0} ⦃eq : Eq Key⦄ where
  -- `self.store.remove_release(..)?`, and whether there was a record
  unfoldable pub drop_release : Store Key → Key → Text → Text → Store Key × Result Bool
  drop_release st publisher name tag = elim (remove_release st.index publisher name tag) [
    | ok out ↦ (record st { index = out.0 }, ok out.1)
    | err e ↦ (st, err e)
  ]

  -- Written less than the grace period ago; a time in the future counts as old.
  unfoldable pub is_young : ℕ → ℕ → Store Key → Release Key → Bool
  unfolding release_mtime
  is_young now grace st r = elim (release_mtime st.index r) [
    | none ↦ false
    | some t ↦ leb t now && ltb (now - t) grace
  ]

module _ {Key : Type 0} ⦃eq : Eq Key⦄ (keys : Keys Key) where
  -- The guards of the loop of `gc`.
  unfoldable pub is_pruned : List Text → GcReq → ℕ → ℕ → Store Key → Release Key → Bool
  unfolding reference is_young
  is_pruned keep req now grace st r =
      not (contains keep (reference keys r)) && (req.force || not (is_young now grace st r))

  abbrev pub remember : Text → Store Key × Result (List Text) → Store Key × Result (List Text)
  remember t (st, ok ts) = (st, ok (t ∷ ts))
  remember t (st, err e) = (st, err e)

  -- The loop of `gc`: the references it removes, in a dry run those it would remove.
  unfoldable pub prune_releases :
      List Text → GcReq → ℕ → ℕ → List (Release Key) → Store Key → Store Key × Result (List Text)
  unfolding is_pruned drop_release reference
  prune_releases keep req now grace [] st = (st, ok [])
  prune_releases keep req now grace (r ∷ rs) st = elim (is_pruned keep req now grace st r) [
    | false ↦ prune_releases keep req now grace rs st
    | true ↦ elim (req.dry_run) [
      | true ↦ remember (reference keys r) (prune_releases keep req now grace rs st)
      | false ↦
          let out = drop_release st r.payload.publisher r.payload.name r.payload.tag in
          elim out.1 [
            | ok b ↦ remember (reference keys r) (prune_releases keep req now grace rs out.0)
            | err e ↦ (out.0, err e)
          ]
    ]
  ]

  -- What `gc` does after the loop.
  unfoldable pub finish_gc : GcReq → ℕ → Map Text ℕ → Store Key → List Text → Disk Key × GcReport
  unfolding sweep_blobs_locked prune_uploads prune_referrers
  finish_gc req now uploads st pruned =
      let swept = sweep_blobs_locked keys req.dry_run pruned st in
      let left = prune_uploads req.dry_run now uploads in
      (
        record {
          store =
              if req.dry_run
              then swept.0
              else record swept.0 { index = (prune_referrers swept.0.index).0 };
          uploads = left.0;
        },
        record {
          dry_run = req.dry_run;
          releases_removed = pruned;
          blobs_removed = swept.1;
          bytes_freed = swept.2;
          uploads_removed = left.1;
        },
      )

  -- `Node::gc`
  unfoldable pub gc : Policy → Key → ℕ → GcReq → ℕ → Disk Key → Disk Key × Result GcReport
  unfolding list_releases retained_set prune_releases finish_gc
  gc policy me grace req now disk =
      let releases = list_releases keys disk.store.index in
      let keep = retained_set keys policy me releases in
      let pruned = prune_releases keep req now grace releases disk.store in
      elim pruned.1 [
        | err e ↦ (record disk { store = pruned.0 }, err e)
        | ok refs ↦ let out = finish_gc req now disk.uploads pruned.0 refs in (out.0, ok out.1)
      ]

  -- The loop of `enforce_window`, and how many records it removed.
  unfoldable pub prune_outside :
      List Text → Key → Text → List (Release Key) → Store Key → Store Key × Result ℕ
  unfolding drop_release
  prune_outside selected publisher name [] st = (st, ok 0)
  prune_outside selected publisher name (r ∷ rs) st = elim (contains selected r.payload.tag) [
    | true ↦ prune_outside selected publisher name rs st
    | false ↦
        let out = drop_release st publisher name r.payload.tag in
        elim out.1 [
          | err e ↦ (out.0, err e)
          | ok was ↦
              let rest = prune_outside selected publisher name rs out.0 in
              (rest.0, rest.1 >>= λ n. ok (if was then 1 + n else n))
        ]
  ]

  -- The end of `enforce_window`
  unfoldable pub sweep_if_any : ℕ → Store Key → Store Key
  unfolding sweep_blobs_locked
  sweep_if_any removed st = if ltb 0 removed then (sweep_blobs_locked keys false [] st).0 else st

  -- `Node::enforce_window`
  unfoldable pub enforce_window :
      Policy → Key → Store Key → Key → Text → Store Key × Result (Unit {0})
  unfolding window is_empty select local_releases_of prune_outside sweep_if_any
  enforce_window policy me st publisher name =
      if publisher == me
      then (st, ok tt)
      else let w = window keys policy publisher name in
        if is_empty w then (st, ok tt) else elim (local_releases_of st.index publisher name) [
          | err e ↦ (st, err e)
          | ok held ↦
              let out = prune_outside (select w (map known_of held)) publisher name held st in
              elim out.1 [
                | err e ↦ (out.0, err e)
                | ok removed ↦ (sweep_if_any removed out.0, ok tt)
              ]
        ]
