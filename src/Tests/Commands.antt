-- ===== src/Tests/Commands.antt =====
-- What a node answers and what its commands do.
use ocid.Prelude.{
  ◌++◌, ◌↔◌, ◌≡◌, refl, Bool, true, false, not, ◌&&◌, ◌||◌, some, [], ◌∷◌, ◌==◌, nat_eq, list_eq,
  list_dec, option_eq, option_dec, pair_eq, pair_dec, ℕ_discrete, contains, unknown_publisher,
  not_a_key, ok, err, ◌>>◌,
}
use ocid.Prelude.Map.{get, insert}
use ocid.Text.{txt, trim_by, strip_prefix}
use ocid.Text.Search
use ocid.Text.Search.{split_once}
use ocid.Identity.{parse_publisher}
use ocid.Dns.Zone.{is_domain_name}
use ocid.Dns.Service
use ocid.Index.{Index, empty, key_of, stored, write_release}
use ocid.Oci.Name.{validate_name, validate_tag, is_component}
use ocid.Policy.Mode.{full}
use ocid.Policy.Rules
use ocid.Policy.Rules.{Policy, resolve_alias, to_publisher, publishers}
use ocid.Store.{Store, is_complete, has_hash}
use ocid.Node.Peers.{Peers, candidate_peers, candidate_peers_lem, ids_of, IsDistinct}
use ocid.Node.Exchange.{get_release_of, handle, into_release, handle-get_release}
use ocid.Node.Commands.{
  Lookup, Local, pin_req, execute, sync_topics, follow, resolve_publisher_rule,
}
use ocid.Node.Commands.Laws.{sync_topics_lem, execute-Atomic, Atomic, follow_alias}
use ocid.Tests.Data.{bool_eq, bool_dec, keys, key_b}
use ocid.Tests.Nodes.{empty_store}
use ocid.Tests.Codecs.{theirs, one_codec, one_codec-IsFaithful}

abbrev peers : Peers Bool
peers = record { known = (record { id = false; addrs = [] }) ∷ []; neighbors = true ∷ [] }

candidate_peers_lem_example :
    ((x : Bool)
      → contains (candidate_peers true peers false) x ≡ (
          (contains peers.neighbors x || contains (ids_of peers.known) x || ◌==◌ {A = Bool} false x)
          && not (x == true)))
    × (IsDistinct peers.neighbors → IsDistinct (candidate_peers true peers false))
candidate_peers_lem_example = candidate_peers_lem true false peers

-- A peer that has its release with the data.
their_index : Index Bool
unfolding write_release
their_index = write_release empty theirs 100

abbrev their_store : Store Bool
their_store = record { index = their_index; pins = []; blobs = (1 ∷ [], 7 ∷ 8 ∷ []) ∷ [] }

their_stored : stored their_index (false, (txt "app", txt "v1")) ≡ some theirs
unfolding their_index stored key_of insert get pair_eq pair_dec bool_eq bool_dec nat_eq list_eq
    list_dec ℕ_discrete
their_stored = refl

app_v1_valid : (validate_tag (txt "v1") >> validate_name (txt "app")) ≡ ok tt
unfolding validate_name validate_tag is_component Search.split nat_eq list_eq list_dec ℕ_discrete
app_v1_valid = refl

their_complete : is_complete their_store theirs ≡ true
unfolding is_complete has_hash get nat_eq list_eq list_dec ℕ_discrete
their_complete = refl

their_written : one_codec.encode theirs ≡ some []
unfolding nat_eq list_eq list_dec ℕ_discrete option_eq option_dec pair_eq pair_dec bool_eq bool_dec
their_written = refl

handle-get_release_example :
    (into_release one_codec
        (handle keys one_codec false their_store peers true
          (get_release_of false (txt "app") (txt "v1"))).1
      ≡ ok (some theirs))
    ↔ ((stored their_store.index (false, (txt "app", txt "v1")) ≡ some theirs)
        × (is_complete their_store theirs ≡ true))
handle-get_release_example =
    handle-get_release keys one_codec false their_store peers true false (txt "app") (txt "v1")
      theirs [] one_codec-IsFaithful app_v1_valid their_written

their_answer :
    into_release one_codec
      (handle keys one_codec false their_store peers true
        (get_release_of false (txt "app") (txt "v1"))).1
    ≡ ok (some theirs)
their_answer =
    (handle-get_release keys one_codec false their_store peers true false (txt "app") (txt "v1")
        theirs [] one_codec-IsFaithful app_v1_valid their_written).1
      (their_stored, their_complete)

-- A node that calls the publisher `bob`.
abbrev policy : Policy
policy = record Rules.default { alias = (txt "bob", key_b) ∷ [] }

abbrev here : Local Bool
here = record { policy = policy; topics = true ∷ []; store = empty_store }

abbrev takes : Bool → Bool
takes k = true

abbrev lookup : Lookup Bool
lookup zone = ok Service.no_record

sync_topics_lem_example : contains (sync_topics keys takes true policy (false ∷ [])) true ≡ (
    (◌==◌ {A = Bool} true true || contains (publishers keys policy) true)
    && (contains {A = Bool} (false ∷ []) true || takes true))
sync_topics_lem_example = sync_topics_lem keys takes true policy (false ∷ []) true

-- No rule is written.
abbrev full_disk : Policy → Bool
full_disk p = false

execute-Atomic_example :
    Atomic keys takes full_disk true here
      (execute keys takes full_disk true lookup (pin_req (key_b ++ txt "/app:v1")) here)
execute-Atomic_example =
    execute-Atomic keys takes full_disk true lookup (pin_req (key_b ++ txt "/app:v1")) here

-- The text `cob` is no key, as its first character is no `a` or `b`.
abbrev cob_policy : Policy
cob_policy = record Rules.default { alias = (txt "cob", key_b) ∷ [] }

abbrev cob_here : Local Bool
cob_here = record here { policy = cob_policy }

cob_no_key : parse_publisher keys (txt "cob") ≡ err not_a_key
unfolding parse_publisher trim_by strip_prefix nat_eq ℕ_discrete
cob_no_key = refl

cob_no_domain : is_domain_name (txt "cob") ≡ false
unfolding is_domain_name
cob_no_domain = refl

cob_resolved : resolve_alias keys cob_policy (txt "cob") ≡ some (to_publisher false)
unfolding resolve_alias parse_publisher trim_by strip_prefix get nat_eq list_eq list_dec ℕ_discrete
    Rules.parse_alias_target
cob_resolved = refl

follow_alias_example :
    (resolve_publisher_rule keys lookup cob_policy (txt "cob") ≡ ok false)
    × (follow keys takes full_disk true lookup (txt "cob") full cob_here
        ≡ (cob_here, err unknown_publisher))
follow_alias_example =
    follow_alias keys takes full_disk true lookup (txt "cob") full cob_here false not_a_key
      cob_no_key cob_no_domain cob_resolved
