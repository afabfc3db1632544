-- ===== src/Node/Replicate.antt =====
-- Replication: `on_announcement`, `sync_with` and `get_or_fetch` of
-- crates/ocid/src/node.rs. The connections to the peers are a parameter, `Network`: an answer that is
-- late is one that failed. Our `Hello` changes nothing on this side.
pub mod Keeps
pub mod Delivers
pub mod Answers
use ocid.Prelude.{
  ℕ, ◌≡◌, Bool, true, false, not, ◌&&◌, ◌||◌, Option, none, some, List, [], ◌∷◌, ◌++◌, map,
  if◌then◌else◌, ◌==◌, Eq, nat_eq, list_eq, pair_eq, contains, retain, sort_by, no_provider,
  unexpected, Result, ok, err, ◌>>=◌,
}
use ocid.Prelude.Map.{Map, get, insert}
use ocid.Text.{Text}
use ocid.Text.Compare.{less}
use ocid.Identity.{Keys}
use ocid.Release.{Release, ReleaseSummary, Crypto}
use ocid.Index.{ReleaseKey, get_release, list_tags, list_releases}
use ocid.Policy.Rules.{Policy, covers}
use ocid.Store.{Store, Hashes, is_complete}
use ocid.Store.Fetch.{Download, and_then, fetch_release}
use ocid.Node.{select_wanted, repo_of}
use ocid.Node.Sweep.{sweep_blobs_locked}
use ocid.Node.Gc.{drop_release, enforce_window}
use ocid.Node.Remove.{repo_before}
use ocid.Node.Peers.{Peers, candidate_peers}
use ocid.Node.Exchange.{
  Request, inventory, get_release_of, Response, inventory_is, Codec, into_release,
}

-- `Endpoint::connect`, `sync::request` and the downloader.
pub record Network (Key : Type 0) : Type 0 where
  pub connect : Key → Result (Unit {0})
  pub ask : Key → Request Key → Result (Response Key)
  pub download : Download Key

abbrev pub flatten {ℓ} : {A : Type ℓ} → Result (Option A) → Option A
flatten (ok found) = found
flatten (err e) = none

module _ {Key : Type 0} where
  -- `sync::request(..).await.and_then(Response::into_release)`
  unfoldable pub request_release :
      Codec Key → Network Key → Key → Key → Text → Text → Result (Option (Release Key))
  unfolding into_release
  request_release codec net peer publisher name tag =
      net.ask peer (get_release_of publisher name tag) >>= into_release codec

  abbrev pub inventory_of : Response Key → Result (List (ReleaseSummary Key))
  inventory_of (inventory_is releases) = ok releases
  inventory_of _ = err unexpected

module _ {Key : Type 0} ⦃eq : Eq Key⦄ where
  abbrev pub summaries_at :
      Key × Text → Map (Key × Text) (List (ReleaseSummary Key)) → List (ReleaseSummary Key)
  summaries_at k m = elim (get k m) [ none ↦ [] | some ss ↦ ss ]

  -- The summaries of each image, our own left out.
  unfoldable pub group_inventory :
      Key
      → List (ReleaseSummary Key)
      → Map (Key × Text) (List (ReleaseSummary Key))
      → Map (Key × Text) (List (ReleaseSummary Key))
  group_inventory me [] m = m
  group_inventory me (s ∷ ss) m = group_inventory me ss (
      if s.publisher == me
      then m
      else insert (s.publisher, s.name) (summaries_at (s.publisher, s.name) m ++ (s ∷ [])) m)

  -- The publisher too, if it is not the peer that was asked first.
  abbrev pub providers_of : Key → Key → List Key
  providers_of peer publisher = if publisher == peer then peer ∷ [] else peer ∷ publisher ∷ []

module _ {Key Secret : Type 0} ⦃eq : Eq Key⦄ (hashes : Hashes) (crypto : Crypto Key Secret)
    (keys : Keys Key) (codec : Codec Key) (net : Network Key) (me : Key) where
  -- The loop of `on_announcement` over the providers that are left.
  unfoldable pub fetch_announced :
      Policy
      → ReleaseSummary Key
      → List Key
      → ℕ
      → List Key
      → Store Key
      → Store Key × Result (Unit {0})
  unfolding request_release fetch_release enforce_window
  fetch_announced policy s providers now [] st = (st, err no_provider)
  fetch_announced policy s providers now (p ∷ ps) st =
      elim (flatten (request_release codec net p s.publisher s.name s.tag)) [
        | none ↦ fetch_announced policy s providers now ps st
        | some rel ↦
            and_then (fetch_release hashes crypto net.download me st rel providers now)
              (λ st'. enforce_window keys policy me st' s.publisher s.name)
      ]

  abbrev fetch_if_wanted :
      Policy
      → ReleaseSummary Key
      → Key
      → ℕ
      → List (ReleaseSummary Key)
      → Store Key
      → Store Key × Result (Unit {0})
  fetch_if_wanted policy s sender now [] st = (st, ok tt)
  fetch_if_wanted policy s sender now (w ∷ ws) st =
      fetch_announced policy s (providers_of sender s.publisher) now
        (providers_of sender s.publisher) st

  -- `Node::on_announcement`
  unfoldable pub on_announcement :
      Policy → ReleaseSummary Key → Key → ℕ → Store Key → Store Key × Result (Unit {0})
  unfolding select_wanted fetch_announced
  on_announcement policy s sender now st =
      elim (select_wanted keys st.index policy s.publisher s.name (s ∷ [])) [
        | err e ↦ (st, err e)
        | ok wanted ↦ fetch_if_wanted policy s sender now wanted st
      ]

  -- The loop of `sync_with` over the releases of one image; a fetch that fails is passed over.
  unfoldable pub fetch_wanted :
      Key → ℕ → List (ReleaseSummary Key) → Store Key → Store Key × Result (Unit {0})
  unfolding request_release fetch_release
  fetch_wanted peer now [] st = (st, ok tt)
  fetch_wanted peer now (s ∷ ss) st =
      elim (request_release codec net peer s.publisher s.name s.tag) [
        | err e ↦ (st, err e)
        | ok none ↦ fetch_wanted peer now ss st
        | ok (some rel) ↦
            fetch_wanted peer now ss
              (fetch_release hashes crypto net.download me st rel (peer ∷ []) now).0
      ]

  abbrev sync_repo :
      Policy
      → Key
      → ℕ
      → Key
      → Text
      → List (ReleaseSummary Key)
      → Store Key
      → Store Key × Result (Unit {0})
  sync_repo policy peer now publisher name [] st = (st, ok tt)
  sync_repo policy peer now publisher name (s ∷ ss) st =
      and_then (fetch_wanted peer now (s ∷ ss) st)
        (λ st'. enforce_window keys policy me st' publisher name)

  -- The loop of `sync_with` over the images.
  unfoldable pub sync_repos :
      Policy
      → Key
      → ℕ
      → List ((Key × Text) × List (ReleaseSummary Key))
      → Store Key
      → Store Key × Result (Unit {0})
  unfolding select_wanted fetch_wanted enforce_window
  sync_repos policy peer now [] st = (st, ok tt)
  sync_repos policy peer now (((publisher, name), remote) ∷ more) st =
      elim (select_wanted keys st.index policy publisher name remote) [
        | err e ↦ (st, err e)
        | ok wanted ↦
            and_then (sync_repo policy peer now publisher name wanted st)
              (λ st'. sync_repos policy peer now more st')
      ]

  -- `Node::sync_with`
  unfoldable pub sync_with : Policy → Key → ℕ → Store Key → Store Key × Result (Unit {0})
  unfolding sync_repos group_inventory sort_by repo_before
  sync_with policy peer now st =
      elim (net.connect peer >>= λ u. net.ask peer inventory >>= inventory_of) [
        | err e ↦ (st, err e)
        | ok listed ↦
            sync_repos policy peer now
              (sort_by (λ a b. repo_before keys a.0 b.0) (group_inventory me listed [])) st
      ]

  abbrev with_release :
      Release Key → Store Key × Result (Unit {0}) → Store Key × Result (Option (Release Key))
  with_release rel (st, ok u) = (st, ok (some rel))
  with_release rel (st, err e) = (st, err e)

  -- The loop of `get_or_fetch` over the peers.
  unfoldable pub ask_peers :
      Key → Text → Text → ℕ → List Key → Store Key → Store Key × Result (Option (Release Key))
  unfolding request_release fetch_release
  ask_peers publisher name tag now [] st = (st, ok none)
  ask_peers publisher name tag now (p ∷ ps) st =
      elim (flatten (request_release codec net p publisher name tag)) [
        | none ↦ ask_peers publisher name tag now ps st
        | some rel ↦
            with_release rel
              (fetch_release hashes crypto net.download me st rel (providers_of p publisher) now)
      ]

  abbrev is_held : Store Key → Option (Release Key) → Bool
  is_held st none = false
  is_held st (some r) = is_complete st r

  -- `Node::get_or_fetch`
  unfoldable pub get_or_fetch :
      Peers Key → Key → Text → Text → ℕ → Store Key → Store Key × Result (Option (Release Key))
  unfolding get_release is_complete ask_peers candidate_peers
  get_or_fetch peers publisher name tag now st = elim (get_release st.index publisher name tag) [
    | err e ↦ (st, err e)
    | ok found ↦
        if is_held st found
        then (st, ok found)
        else if publisher == me
        then (st, ok none)
        else ask_peers publisher name tag now (candidate_peers me peers publisher) st
  ]
