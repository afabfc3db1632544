-- ===== src/Tests/Daemons.antt =====
-- A node that publishes, and one that a peer's pinned release arrives at.
use ocid.Prelude.{
  ap, arith, ◌==◌, ◌⊎◌, Result, Option, ℕ, ◌≤◌, ◌≡◌, refl, Bool, true, false, none, some, List, [],
  ◌∷◌, ◌++◌, nat_eq, list_eq, option_eq, pair_eq, pair_dec, list_dec, option_dec, ℕ_discrete, All,
  ok,
}
use ocid.Prelude.Map.{get, insert}
use ocid.Text.{txt, trim_by}
use ocid.Text.Search.{split_once}
use ocid.Identity.{parse_publisher}
use ocid.Oci.Name.{split_tag, validate_name, validate_tag, is_component}
use ocid.Text.Search
use ocid.Release.{Hash, Release, summary_of, verify}
use ocid.Index.{Index, empty, key_of, stored, write_release, get_release}
use ocid.Policy.Rules
use ocid.Policy.Window
use ocid.Policy.Rules.{
  Policy, is_pinned, pins, parse_seed_rule, resolve_alias, parse_publisher_arg, publishers,
}
use ocid.Store.{is_complete}
use ocid.Store.Fetch.{fetch_release}
use ocid.Store.Succeeds.{IsAddressed, fetch_release_succeeds}
use ocid.Node.{select_wanted}
use ocid.Node.Retained.{own_or_pinned}
use ocid.Node.Peers.{Peers, candidate_peers}
use ocid.Node.Exchange.{Codec, release_is}
use ocid.Node.Replicate.{
  flatten, ask_peers, Network, on_announcement, request_release, get_or_fetch, providers_of,
}
use ocid.Node.Replicate.Delivers.{on_announcement_delivers}
use ocid.Node.Daemon.{
  Daemon, Event, synced, collected, removed, published, taken_in, swept, reannounced, run,
}
use ocid.Node.Daemon.Sound.{run-IsWhole, IsChecked}
use ocid.Store.{Store}
use ocid.Store.Addressed.{IsHonest}
use ocid.Store.Put.{IsWhole}
use ocid.Node.Replicate.Answers.{get_or_fetch_sound, Fetched}
use ocid.Node.Daemon.Own.{run-keeps_own, Spares}
use ocid.Tests.Data.{bool_eq, bool_dec, keys, key_b, crypto, release}
use ocid.Tests.Nodes.{hashes, empty_store, empty_store-IsSound}

-- The release that the peer `false` has.
abbrev theirs : Release Bool
theirs = release false (txt "v1") 5

-- All that is encoded is that release.
abbrev codec : Codec Bool
codec = record { encode = λ r. some []; decode = λ b. some theirs }

abbrev net : Network Bool
net = record {
  connect = λ p. ok tt;
  ask = λ p req. ok (release_is (some []));
  download = λ h ps. some (7 ∷ 8 ∷ []);
}

abbrev peers : Peers Bool
peers = record { known = (record { id = false; addrs = [] }) ∷ []; neighbors = [] }

abbrev daemon : Daemon Bool
daemon = record {
  disk = record { store = empty_store; uploads = [] };
  policy = Rules.default;
  topics = true ∷ [];
  peers = peers;
  sent = [];
}

-- A network whose data has its hash.
abbrev hashing_net : Network Bool
hashing_net = record net { download = λ h ps. some h }

abbrev all_events : List (Event Bool)
all_events =
    published (release true (txt "v1") 5) (λ s. true) 100
    ∷ taken_in (3 ∷ 4 ∷ []) none none
    ∷ synced false hashing_net 101
    ∷ collected (record { dry_run = false; force = true }) 60 102
    ∷ swept (λ h. true)
    ∷ []

hashing_net-IsHonest : IsHonest {Key = Bool} (λ h. h) hashing_net.download
unfolding IsHonest
hashing_net-IsHonest h ps bytes q = ground arith

all_events-IsChecked : All (IsChecked (λ h. h)) all_events
unfolding IsChecked
all_events-IsChecked = (tt, (tt, (hashing_net-IsHonest, (tt, (tt, tt)))))

nothing-IsAddressed : IsAddressed (λ h. h) empty_store
unfolding IsAddressed get
nothing-IsAddressed h bytes q = absurd (cc)

run-IsWhole_example :
    IsWhole hashes (λ h. h) (run hashes crypto keys codec true all_events daemon).disk.store
run-IsWhole_example =
    run-IsWhole hashes crypto keys codec true (λ h. h) (λ b. refl) all_events daemon
      all_events-IsChecked (empty_store-IsSound, nothing-IsAddressed)

-- A node with a release of its own.
own_index : Index Bool
unfolding write_release
own_index = write_release empty (release true (txt "v1") 5) 100

own_stored :
    stored own_index (key_of (release true (txt "v1") 5)) ≡ some (release true (txt "v1") 5)
unfolding own_index stored key_of insert get pair_eq pair_dec bool_eq bool_dec nat_eq list_eq
    list_dec ℕ_discrete
own_stored = refl

abbrev owner : Daemon Bool
owner = record daemon {
  disk = record { store = record empty_store { index = own_index }; uploads = [] };
}

abbrev later_events : List (Event Bool)
later_events =
    synced false net 101
    ∷ collected (record { dry_run = false; force = true }) 60 102
    ∷ removed true (txt "web") none
    ∷ []

later-Spares : All (Spares (release true (txt "v1") 5)) later_events
unfolding Spares nat_eq list_eq list_dec ℕ_discrete bool_eq bool_dec
later-Spares = (tt, (tt, (refl, tt)))

run-keeps_own_example :
    (s : Release Bool) × (stored
        (run hashes crypto keys codec true later_events owner).disk.store.index
        (key_of (release true (txt "v1") 5))
      ≡ some s)
    × (key_of s ≡ key_of (release true (txt "v1") 5))
    × (5 ≤ s.payload.timestamp)
run-keeps_own_example =
    run-keeps_own hashes crypto keys codec true (release true (txt "v1") 5) refl later_events owner
      later-Spares own_stored

-- The data with a hash.
abbrev content : Hash → List ℕ
content h = 7 ∷ 8 ∷ []

empty_store-IsAddressed : IsAddressed content empty_store
unfolding IsAddressed get
empty_store-IsAddressed h bytes q = absurd (cc)

theirs_verified : verify crypto theirs ≡ ok tt
unfolding verify validate_name is_component Search.split validate_tag nat_eq list_eq list_dec
    ℕ_discrete bool_eq bool_dec
theirs_verified = refl

fetch_release_succeeds_example :
    (fetch_release hashes crypto net.download true empty_store theirs (false ∷ []) 100).1 ≡ ok tt
unfolding bool_eq
fetch_release_succeeds_example =
    fetch_release_succeeds hashes crypto content net.download true empty_store theirs (false ∷ [])
      100 theirs_verified refl ((refl, refl), tt) (refl, tt) empty_store-IsAddressed

abbrev pin_policy : Policy
pin_policy = record Rules.default { pin = (key_b ++ txt "/app:v1") ∷ [] }

theirs_pinned : own_or_pinned keys pin_policy true false (txt "app") (txt "v1") ≡ true
unfolding own_or_pinned is_pinned pins parse_seed_rule nat_eq list_eq list_dec ℕ_discrete split_once
    parse_publisher trim_by split_tag bool_eq bool_dec option_eq option_dec
theirs_pinned = refl

theirs_wanted :
    select_wanted keys empty pin_policy false (txt "app") (summary_of theirs ∷ [])
    ≡ ok (summary_of theirs ∷ [])
unfolding select_wanted pins parse_seed_rule nat_eq list_eq list_dec ℕ_discrete split_once
    parse_publisher trim_by split_tag bool_eq bool_dec option_eq option_dec Rules.absorb_pins
    Window.insert_tag Rules.absorb_rules Rules.seed_rules Rules.follow_mode Rules.follows summary_of
    get
theirs_wanted = refl

theirs_answered : request_release codec net false false (txt "app") (txt "v1") ≡ ok (some theirs)
unfolding request_release
theirs_answered = refl

on_announcement_delivers_example :
    (is_complete
        (on_announcement hashes crypto keys codec net true pin_policy
          (summary_of theirs)
          false
          100
          empty_store).0
        theirs
      ≡ true)
    × ((s : Release Bool) × (stored
            (on_announcement hashes crypto keys codec net true pin_policy
              (summary_of theirs)
              false
              100
              empty_store).0.index
            (key_of theirs)
          ≡ some s)
        × (5 ≤ s.payload.timestamp))
unfolding bool_eq
on_announcement_delivers_example =
    on_announcement_delivers hashes crypto keys codec net true content pin_policy empty_store theirs
      false 100 (summary_of theirs) [] theirs_pinned theirs_wanted refl theirs_answered
      theirs_verified ((refl, refl), tt) (refl, tt) empty_store-IsAddressed

nothing_held : get_release empty false (txt "web") (txt "v9") ≡ ok none
unfolding get_release validate_name is_component Search.split validate_tag nat_eq list_eq list_dec
    ℕ_discrete get
nothing_held = refl

one_candidate : candidate_peers true peers false ≡ false ∷ []
unfolding candidate_peers bool_eq bool_dec
one_candidate = refl

web_answered : request_release codec net false false (txt "web") (txt "v9") ≡ ok (some theirs)
unfolding request_release
web_answered = refl

theirs_fetched :
    (fetch_release hashes crypto net.download true empty_store theirs
      (providers_of false false)
      100).1
    ≡ ok tt
unfolding bool_eq
theirs_fetched =
    fetch_release_succeeds hashes crypto content net.download true empty_store theirs (false ∷ [])
      100 theirs_verified refl ((refl, refl), tt) (refl, tt) empty_store-IsAddressed

-- Asked for `web:v9`, the peer answers with `app:v1`.
abbrev pulled_web : Store Bool × Result (Option (Release Bool))
pulled_web =
    get_or_fetch hashes crypto keys codec net true peers false (txt "web") (txt "v9") 100
      empty_store

web_pulled : pulled_web.1 ≡ ok (some theirs)
unfolding get_or_fetch ask_peers bool_eq
web_pulled = ground (arith, nothing_held, one_candidate, ap flatten web_answered, theirs_fetched)

get_or_fetch_sound_example :
    (is_complete pulled_web.0 theirs ≡ true)
    × ((stored empty_store.index (false, (txt "web", txt "v9")) ≡ some theirs)
        ⊎ (((◌==◌ {A = Bool} false true) ≡ false)
            × Fetched hashes crypto keys codec net true theirs pulled_web.0))
get_or_fetch_sound_example =
    get_or_fetch_sound hashes crypto keys codec net true peers false (txt "web") (txt "v9") 100
      empty_store theirs web_pulled

-- A release of another key, and then one of the node's own.
abbrev pushes : List (Event Bool)
pushes =
    published theirs (λ s. true) 100
    ∷ published (release true (txt "v1") 5) (λ s. true) 101
    ∷ reannounced (λ s. true)
    ∷ []
