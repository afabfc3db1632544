-- ===== src/Node/Replicate/Keeps.antt =====
-- What each call of crates/ocid/src/node.rs that replicates leaves alone, from what a fetch and the
-- pruning of a window leave alone.
use ocid.Prelude.{
  ℕ, Option, List, [], ◌∷◌, ◌==◌, Eq, Option-keeps, Result-keeps, Bool-keeps, Result, ok, err,
  ◌>>=◌,
}
use ocid.Text.{Text}
use ocid.Identity.{Keys}
use ocid.Release.{Release, ReleaseSummary, Crypto}
use ocid.Index.{get_release}
use ocid.Policy.Rules.{Policy}
use ocid.Store.{Store, Hashes}
use ocid.Store.Fetch.{fetch_release}
use ocid.Store.Sound.{and_then-keeps}
use ocid.Node.{select_wanted}
use ocid.Node.Gc.{enforce_window}
use ocid.Node.Peers.{Peers, candidate_peers}
use ocid.Node.Exchange.{Codec, inventory}
use ocid.Node.Replicate.{
  Network, flatten, request_release, inventory_of, providers_of, fetch_announced, fetch_if_wanted,
  on_announcement, fetch_wanted, sync_repo, sync_repos, sync_with, with_release, ask_peers, is_held,
  get_or_fetch,
}

module _ {Key Secret : Type 0} ⦃eq : Eq Key⦄ (hashes : Hashes) (crypto : Crypto Key Secret)
    (keys : Keys Key) (codec : Codec Key) (net : Network Key) (me : Key) (policy : Policy)
    (P : Store Key → Type 0)
    (fetched : (st : Store Key) (r : Release Key) (ps : List Key) (now : ℕ)
      → P st
      → P (fetch_release hashes crypto net.download me st r ps now).0)
    (pruned : (st : Store Key) (p : Key) (n : Text)
      → P st
      → P (enforce_window keys policy me st p n).0) where
  abbrev At : Store Key × Result (Unit {0}) → Type 0
  At out = P out.0

  abbrev AtRelease : Store Key × Result (Option (Release Key)) → Type 0
  AtRelease out = P out.0

  fetch_announced-keeps :
      (s : ReleaseSummary Key) (providers : List Key) (now : ℕ) (ps : List Key) (st : Store Key)
      → P st
      → P (fetch_announced hashes crypto keys codec net me policy s providers now ps st).0
  unfolding fetch_announced
  fetch_announced-keeps s providers now [] st h = h
  fetch_announced-keeps s providers now (p ∷ ps) st h =
      Option-keeps At (flatten (request_release codec net p s.publisher s.name s.tag)) _ _
        (fetch_announced-keeps s providers now ps st h)
        (λ rel q.
          and_then-keeps P (fetch_release hashes crypto net.download me st rel providers now) _
            (fetched st rel providers now h) (λ st' h'. pruned st' s.publisher s.name h'))

  fetch_if_wanted-keeps :
      (s : ReleaseSummary Key) (sender : Key) (now : ℕ) (wanted : List (ReleaseSummary Key))
      (st : Store Key)
      → P st
      → P (fetch_if_wanted hashes crypto keys codec net me policy s sender now wanted st).0
  fetch_if_wanted-keeps s sender now [] st h = h
  fetch_if_wanted-keeps s sender now (w ∷ ws) st h =
      fetch_announced-keeps s (providers_of sender s.publisher) now
        (providers_of sender s.publisher) st h

  pub on_announcement-keeps :
      (s : ReleaseSummary Key) (sender : Key) (now : ℕ) (st : Store Key)
      → P st
      → P (on_announcement hashes crypto keys codec net me policy s sender now st).0
  unfolding on_announcement
  on_announcement-keeps s sender now st h =
      Result-keeps At (select_wanted keys st.index policy s.publisher s.name (s ∷ [])) _ _ (λ e. h)
        (λ wanted q. fetch_if_wanted-keeps s sender now wanted st h)

  fetch_wanted-keeps :
      (peer : Key) (now : ℕ) (ss : List (ReleaseSummary Key)) (st : Store Key)
      → P st
      → P (fetch_wanted hashes crypto keys codec net me peer now ss st).0
  unfolding fetch_wanted
  fetch_wanted-keeps peer now [] st h = h
  fetch_wanted-keeps peer now (s ∷ ss) st h =
      Result-keeps At (request_release codec net peer s.publisher s.name s.tag) _ _ (λ e. h)
        (λ found q. Option-keeps At found _ _ (fetch_wanted-keeps peer now ss st h) (λ rel e.
          fetch_wanted-keeps peer now ss
            (fetch_release hashes crypto net.download me st rel (peer ∷ []) now).0
            (fetched st rel (peer ∷ []) now h)))

  sync_repo-keeps :
      (peer : Key) (now : ℕ) (p : Key) (n : Text) (ss : List (ReleaseSummary Key)) (st : Store Key)
      → P st
      → P (sync_repo hashes crypto keys codec net me policy peer now p n ss st).0
  sync_repo-keeps peer now p n [] st h = h
  sync_repo-keeps peer now p n (s ∷ ss) st h =
      and_then-keeps P (fetch_wanted hashes crypto keys codec net me peer now (s ∷ ss) st) _
        (fetch_wanted-keeps peer now (s ∷ ss) st h) (λ st' h'. pruned st' p n h')

  sync_repos-keeps :
      (peer : Key) (now : ℕ) (repos : List ((Key × Text) × List (ReleaseSummary Key)))
      (st : Store Key)
      → P st
      → P (sync_repos hashes crypto keys codec net me policy peer now repos st).0
  unfolding sync_repos
  sync_repos-keeps peer now [] st h = h
  sync_repos-keeps peer now (((p, n), remote) ∷ more) st h =
      Result-keeps At (select_wanted keys st.index policy p n remote) _ _ (λ e. h)
        (λ wanted q.
          and_then-keeps P (sync_repo hashes crypto keys codec net me policy peer now p n wanted st)
            _ (sync_repo-keeps peer now p n wanted st h)
            (λ st' h'. sync_repos-keeps peer now more st' h'))

  pub sync_with-keeps :
      (peer : Key) (now : ℕ) (st : Store Key)
      → P st
      → P (sync_with hashes crypto keys codec net me policy peer now st).0
  unfolding sync_with
  sync_with-keeps peer now st h =
      Result-keeps At (net.connect peer >>= λ u. net.ask peer inventory >>= inventory_of) _ _
        (λ e. h) (λ listed q. sync_repos-keeps peer now _ st h)

  with_release-keeps :
      (rel : Release Key) (out : Store Key × Result (Unit {0}))
      → P out.0
      → P (with_release hashes crypto keys codec net me rel out).0
  with_release-keeps rel (st, ok u) h = h
  with_release-keeps rel (st, err e) h = h

  ask_peers-keeps :
      (p : Key) (n t : Text) (now : ℕ) (ps : List Key) (st : Store Key)
      → P st
      → P (ask_peers hashes crypto keys codec net me p n t now ps st).0
  unfolding ask_peers
  ask_peers-keeps p n t now [] st h = h
  ask_peers-keeps p n t now (x ∷ xs) st h =
      Option-keeps AtRelease (flatten (request_release codec net x p n t)) _ _
        (ask_peers-keeps p n t now xs st h)
        (λ rel q. with_release-keeps rel _ (fetched st rel (providers_of x p) now h))

  pub get_or_fetch-keeps :
      (peers : Peers Key) (p : Key) (n t : Text) (now : ℕ) (st : Store Key)
      → P st
      → P (get_or_fetch hashes crypto keys codec net me peers p n t now st).0
  unfolding get_or_fetch
  get_or_fetch-keeps peers p n t now st h =
      Result-keeps AtRelease (get_release st.index p n t) _ _ (λ e. h)
        (λ found q.
          Bool-keeps AtRelease (is_held hashes crypto keys codec net me st found) _ _ (λ b. h)
            (λ b.
              Bool-keeps AtRelease (p == me) _ _ (λ o. h)
                (λ o. ask_peers-keeps p n t now (candidate_peers me peers p) st h)))
