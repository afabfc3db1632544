-- ===== src/Node/Commands.antt =====
-- The commands that change the policy (`seed`, `unseed`, `follow`, `unfollow`, `pin`, `unpin`), the
-- names they resolve, and `sync_topics`: crates/ocid/src/node.rs. `lookup` is what the DNS service
-- answers for a zone, `subscribe` whether gossip takes a subscription, `saved`
-- whether policy.toml can be written.
pub mod Laws
pub mod Keeps
use ocid.Prelude.{
  io, ℕ, ◌≡◌, Bool, true, false, not, ◌&&◌, ◌||◌, Option, none, some, List, [], ◌∷◌, ◌++◌,
  if◌then◌else◌, ◌==◌, Eq, nat_eq, list_eq, contains, retain, own_image, pin_needs_tag, no_record,
  dns_disabled, not_a_publisher, Error, Result, ok, err, ◌>>=◌, ◌>>◌, ensure, to_option,
  is_some_and,
}
use ocid.Text.{Text, is_empty}
use ocid.Text.Search.{split_once}
use ocid.Identity.{Keys, parse_publisher}
use ocid.Dns.Zone.{is_domain_name}
use ocid.Dns.Service
use ocid.Dns.Service.{ZoneOutcome, resolved}
use ocid.Oci.Name.{split_tag}
use ocid.Oci.Reference.{ImageRef, parse, strip_registry_location}
use ocid.Policy.Mode.{Mode}
use ocid.Policy.Rules.{Policy, AliasTarget, to_publisher, resolve_alias, publishers}
use ocid.Policy.Edit.{
  Change, set_dns_mapping, add_seed, remove_seed, add_follow, remove_follow, add_pin, remove_pin,
}
use ocid.Store.{Store}
use ocid.Node.Remove.{enforce_all_windows}

-- The zone in front of a rule, if there is one: `domain_slot`.
unfoldable pub domain_slot : Text → Option Text
unfolding split_once is_domain_name
domain_slot rule = elim (split_once b'/' rule) [
  | none ↦ none
  | some (first, rest) ↦ if is_domain_name first then some first else none
]

abbrev pub Lookup : Type 0 → Type 0
Lookup Key = Text → Result (ZoneOutcome Key)

module _ {Key : Type 0} where
  -- `Node::resolve_zone_publisher`
  abbrev pub zone_key : Result (ZoneOutcome Key) → Result Key
  zone_key (ok (resolved p n r s)) = ok p
  zone_key (ok Service.no_record) = err no_record
  zone_key (ok Service.disabled) = err dns_disabled
  zone_key (err e) = err e

  -- `set_dns_mapping`, where a rule names a zone.
  abbrev pub set_dns : Keys Key → Policy → Option Text → Key → Policy
  set_dns keys policy none publisher = policy
  set_dns keys policy (some zone) publisher = set_dns_mapping keys policy zone publisher

module _ {Key : Type 0} (keys : Keys Key) where
  -- `Node::rewrite_dns_publisher`: a zone that has a record is replaced by its key.
  abbrev pub rewritten : Text → Text → Result (ZoneOutcome Key) → Result Text
  rewritten reference rest (ok (resolved p n r s)) = ok (keys.to_text p ++ b'/' ∷ rest)
  rewritten reference rest (ok Service.no_record) = ok reference
  rewritten reference rest (ok Service.disabled) = ok reference
  rewritten reference rest (err e) = err e

  unfoldable pub rewrite_dns_publisher : Lookup Key → Text → Result Text
  unfolding split_once is_domain_name
  rewrite_dns_publisher lookup reference = elim (split_once b'/' reference) [
    | none ↦ ok reference
    | some (first, rest) ↦
        if not (is_empty rest) && is_domain_name first
        then rewritten reference rest (lookup first)
        else ok reference
  ]

  -- `Node::resolve_image_ref`
  unfoldable pub resolve_image_ref : Lookup Key → Policy → Key → Text → Result (ImageRef Key)
  unfolding strip_registry_location rewrite_dns_publisher parse
  resolve_image_ref lookup policy me reference = do
    text ← rewrite_dns_publisher lookup (strip_registry_location reference)
    parse keys policy me text

  -- `Node::resolve_rule`: the rule is kept as it is written.
  unfoldable pub resolve_rule : Lookup Key → Policy → Key → Text → Result (ImageRef Key)
  unfolding split_once is_domain_name split_tag parse
  resolve_rule lookup policy me reference = elim (split_once b'/' reference) [
    | none ↦ parse keys policy me reference
    | some (zone, rest) ↦
        if is_domain_name zone
        then (do
          publisher ← zone_key (lookup zone)
          image ← split_tag rest
          ok (record { publisher = publisher; name = image.0; tag = image.1 }))
        else parse keys policy me reference
  ]

  -- `Node::resolve_publisher_rule`
  unfoldable pub resolve_publisher_rule : Lookup Key → Policy → Text → Result Key
  unfolding parse_publisher resolve_alias is_domain_name
  resolve_publisher_rule lookup policy arg = elim (parse_publisher keys arg) [
    | ok p ↦ ok p
    | err e ↦ elim (resolve_alias keys policy arg) [
      | some (to_publisher p) ↦ ok p
      | _ ↦ if is_domain_name arg then zone_key (lookup arg) else err not_a_publisher
    ]
  ]

-- The control requests that change the policy.
pub data Command : Type 0 where
  seed_req : (rule : Text) (mode : Mode) → Command
  unseed_req : (rule : Text) → Command
  follow_req : (rule : Text) (mode : Mode) → Command
  unfollow_req : (rule : Text) → Command
  pin_req : (rule : Text) → Command
  unpin_req : (rule : Text) → Command

-- What a command changes.
pub record Local (Key : Type 0) : Type 0 where
  pub policy : Policy
  pub topics : List Key
  pub store : Store Key

module _ {Key : Type 0} ⦃eq : Eq Key⦄ where
  -- The loop of `sync_topics` over the wanted topics; one that cannot be joined is left out.
  unfoldable pub join_wanted : (Key → Bool) → List Key → List Key → List Key
  join_wanted subscribe [] topics = topics
  join_wanted subscribe (p ∷ ps) topics =
      join_wanted subscribe ps
        (if contains topics p || not (subscribe p) then topics else topics ++ (p ∷ []))

module _ {Key : Type 0} ⦃eq : Eq Key⦄ (keys : Keys Key) (subscribe : Key → Bool) (me : Key) where
  -- `Node::sync_topics`
  unfoldable pub sync_topics : Policy → List Key → List Key
  unfolding publishers join_wanted
  sync_topics policy topics =
      let wanted = me ∷ publishers keys policy in
      join_wanted subscribe wanted (retain (λ p. contains wanted p) topics)

  -- The end of `mutate_policy` and of `reload_policy`; a failure to prune is only logged.
  unfoldable pub install_policy : Policy → Local Key → Local Key
  unfolding sync_topics enforce_all_windows
  install_policy policy here = record {
    policy = policy;
    topics = sync_topics policy here.topics;
    store = (enforce_all_windows keys policy me here.store).0;
  }

-- `saved` says whether policy.toml could be written with that policy.
module _ {Key : Type 0} ⦃eq : Eq Key⦄ (keys : Keys Key) (subscribe : Key → Bool)
    (saved : Policy → Bool) (me : Key) where
  -- `Node::mutate_policy`: the policy is written before anything else changes.
  unfoldable pub mutate_policy : (Policy → Change) → Local Key → Local Key × Result Bool
  unfolding install_policy
  mutate_policy f here = elim (f here.policy) [
    | err e ↦ (here, err e)
    | ok out ↦
        if saved out.0
        then (install_policy keys subscribe me out.0 here, ok out.1)
        else (here, err io)
  ]

  -- A command: what it resolves first, and then its change.
  abbrev pub with_resolved :
      {A : Type 0} → Local Key → Result A → (A → Policy → Change) → Local Key × Result Bool
  with_resolved here (err e) f = (here, err e)
  with_resolved here (ok a) f = mutate_policy (f a) here

  -- What the rules of `seed` and `pin` stand for, with the checks of it.
  abbrev pub seed_target : Lookup Key → Policy → Text → Result (ImageRef Key)
  seed_target lookup policy reference = do
    r ← resolve_rule keys lookup policy me reference
    ensure (not (r.publisher == me)) own_image
    ok r

  abbrev pub pin_target : Lookup Key → Policy → Text → Result (ImageRef Key)
  pin_target lookup policy reference = do
    r ← resolve_rule keys lookup policy me reference
    ensure (is_some_and (λ t. true) r.tag) pin_needs_tag
    ok r

  abbrev pub follow_change : Text → Mode → Key → Policy → Change
  follow_change publisher mode key p =
      add_follow keys
        (set_dns keys p (if is_domain_name publisher then some publisher else none) key) publisher
        mode

  unfoldable pub seed : Lookup Key → Text → Mode → Local Key → Local Key × Result Bool
  unfolding resolve_rule mutate_policy domain_slot add_seed
  seed lookup reference mode here =
      with_resolved here (seed_target lookup here.policy reference)
        (λ r p. add_seed keys (set_dns keys p (domain_slot reference) r.publisher) reference mode)

  unfoldable pub unseed : Lookup Key → Text → Local Key → Local Key × Result Bool
  unfolding resolve_rule mutate_policy remove_seed
  unseed lookup reference here =
      with_resolved here (resolve_rule keys lookup here.policy me reference)
        (λ r p. remove_seed keys p reference)

  unfoldable pub follow : Lookup Key → Text → Mode → Local Key → Local Key × Result Bool
  unfolding resolve_publisher_rule mutate_policy is_domain_name add_follow
  follow lookup publisher mode here =
      with_resolved here (resolve_publisher_rule keys lookup here.policy publisher)
        (follow_change publisher mode)

  unfoldable pub unfollow : Lookup Key → Text → Local Key → Local Key × Result Bool
  unfolding resolve_publisher_rule mutate_policy remove_follow
  unfollow lookup publisher here =
      with_resolved here (resolve_publisher_rule keys lookup here.policy publisher)
        (λ key p. remove_follow keys p publisher)

  unfoldable pub pin : Lookup Key → Text → Local Key → Local Key × Result Bool
  unfolding resolve_rule mutate_policy domain_slot add_pin
  pin lookup reference here =
      with_resolved here (pin_target lookup here.policy reference)
        (λ r p. add_pin keys (set_dns keys p (domain_slot reference) r.publisher) reference)

  unfoldable pub unpin : Lookup Key → Text → Local Key → Local Key × Result Bool
  unfolding resolve_rule mutate_policy remove_pin
  unpin lookup reference here =
      with_resolved here (resolve_rule keys lookup here.policy me reference)
        (λ r p. remove_pin keys p reference)

  -- The handlers `ctl_seed` to `ctl_unpin` of crates/ocid/src/registry.rs
  unfoldable pub execute : Lookup Key → Command → Local Key → Local Key × Result Bool
  unfolding seed unseed follow unfollow pin unpin
  execute lookup (seed_req rule mode) here = seed lookup rule mode here
  execute lookup (unseed_req rule) here = unseed lookup rule here
  execute lookup (follow_req rule mode) here = follow lookup rule mode here
  execute lookup (unfollow_req rule) here = unfollow lookup rule here
  execute lookup (pin_req rule) here = pin lookup rule here
  execute lookup (unpin_req rule) here = unpin lookup rule here
