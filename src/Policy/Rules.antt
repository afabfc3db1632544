-- ===== src/Policy/Rules.antt =====
-- `Policy` of crates/ocid-core/src/config.rs: what the rules of the file say, read back into keys.
pub mod Laws
use mathlib.Core.Option
use ocid.Prelude.{
  ℕ, ◌≡◌, Bool, true, false, not, ◌&&◌, ◌||◌, Option, none, some, List, [], ◌∷◌, ◌++◌, map,
  if◌then◌else◌, ◌==◌, Eq, nat_eq, list_eq, option_eq, any, find, filter_map, Error, no_publisher,
  unmapped_domain, bad_mapping, unknown_publisher, bad_alias_target, Result, ok, err, ◌>>=◌, ◌>>◌,
  or_err, to_option,
}
use ocid.Prelude.Map.{Map, get}
use ocid.Text.{Text}
use ocid.Text.Search.{split_once}
use ocid.Identity.{Keys, parse_publisher}
use ocid.Oci.Name.{split_tag, validate_name}
use ocid.Dns.Zone.{is_domain_name}
use ocid.Policy.Mode.{Mode, full}
use ocid.Policy.Window.{Window, absorb, insert_tag, is_empty}
use ocid.Policy.Window

pub record SeedEntry : Type 0 where
  pub reference : Text
  pub mode : Mode

pub record FollowEntry : Type 0 where
  pub publisher : Text
  pub mode : Mode

pub record Policy : Type 0 where
  pub seed : List SeedEntry
  pub follow : List FollowEntry
  pub pin : List Text
  pub alias : Map Text Text
  pub dns : Map Text Text

abbrev pub default : Policy
default = record { seed = []; follow = []; pin = []; alias = []; dns = [] }

pub record SeedRule (Key : Type 0) : Type 0 where
  pub publisher : Key
  pub name : Text
  pub tag : Option Text
  pub mode : Mode

pub data AliasTarget (Key : Type 0) : Type 0 where
  to_publisher : Key → AliasTarget Key
  to_image : Key → Text → AliasTarget Key

module _ {Key : Type 0} (keys : Keys Key) where
  abbrev mapped_key : Text → Result Key
  mapped_key key = elim (parse_publisher keys key) [ ok k ↦ ok k | err e ↦ err bad_mapping ]

  -- `Policy::parse_publisher_arg`
  unfoldable pub parse_publisher_arg : Policy → Text → Result Key
  parse_publisher_arg p s = elim (parse_publisher keys s) [
    | ok k ↦ ok k
    | err e ↦
        if is_domain_name s
        then (do key ← or_err (get s p.dns) unmapped_domain; mapped_key key)
        else err unknown_publisher
  ]

  -- `Policy::parse_seed_rule`
  unfoldable pub parse_seed_rule : Policy → Text → Mode → Result (SeedRule Key)
  unfolding parse_publisher_arg
  parse_seed_rule p s mode = do
    parts ← or_err (split_once b'/' s) no_publisher
    publisher ← parse_publisher_arg p parts.0
    image ← split_tag parts.1
    ok (record { publisher = publisher; name = image.0; tag = image.1; mode = mode })

  -- `Policy::seed_rules`: an entry that does not parse is ignored.
  unfoldable pub seed_rules : Policy → List (SeedRule Key)
  seed_rules p = filter_map (λ e. to_option (parse_seed_rule p e.reference e.mode)) p.seed

  unfoldable pub follow_of : Policy → FollowEntry → Option (Key × Mode)
  follow_of p e = Option.map (λ k. (k, e.mode)) (to_option (parse_publisher_arg p e.publisher))

  -- `Policy::follows`
  unfoldable pub follows : Policy → List (Key × Mode)
  unfolding follow_of
  follows p = filter_map (follow_of p) p.follow

  abbrev pub tagged : Result (SeedRule Key) → Option (SeedRule Key)
  tagged (ok r) = elim r.tag [ none ↦ none | some t ↦ some r ]
  tagged (err e) = none

  -- `Policy::pins`: a pin with no tag is ignored.
  unfoldable pub pins : Policy → List (SeedRule Key)
  pins p = filter_map (λ s. tagged (parse_seed_rule p s full)) p.pin

  -- `Policy::publishers`, as a list; only membership in the set is used.
  unfoldable pub publishers : Policy → List Key
  unfolding follows seed_rules pins
  publishers p =
      map (λ f. f.0) (follows p)
      ++ (map (λ r. r.publisher) (seed_rules p) ++ map (λ r. r.publisher) (pins p))

  -- `parse_alias_target`
  unfoldable pub parse_alias_target : Text → Result (AliasTarget Key)
  parse_alias_target target = elim (parse_publisher keys target) [
    | ok p ↦ ok (to_publisher p)
    | err e ↦ do
      parts ← or_err (split_once b'/' target) bad_alias_target
      publisher ← parse_publisher keys parts.0
      validate_name parts.1
      ok (to_image publisher parts.1)
  ]

  -- `Policy::resolve_alias`
  unfoldable pub resolve_alias : Policy → Text → Option (AliasTarget Key)
  resolve_alias p alias = elim (get alias p.alias) [
    | none ↦ none
    | some target ↦ to_option (parse_alias_target target)
  ]

abbrev pub absorb_follow : Option Mode → Window → Window
absorb_follow none w = w
absorb_follow (some mode) w = absorb w mode

module _ {Key : Type 0} ⦃e : Eq Key⦄ where
  -- The two loops of `Policy::window`.
  unfoldable pub absorb_rules : Key → Text → List (SeedRule Key) → Window → Window
  absorb_rules publisher name [] w = w
  absorb_rules publisher name (r ∷ rs) w = absorb_rules publisher name rs (
      if r.publisher == publisher && r.name == name
      then elim r.tag [ some t ↦ insert_tag w t | none ↦ absorb w r.mode ]
      else w)

  unfoldable pub absorb_pins : Key → Text → List (SeedRule Key) → Window → Window
  absorb_pins publisher name [] w = w
  absorb_pins publisher name (r ∷ rs) w = absorb_pins publisher name rs (
      if r.publisher == publisher && r.name == name
      then elim r.tag [ some t ↦ insert_tag w t | none ↦ w ]
      else w)

module _ {Key : Type 0} ⦃e : Eq Key⦄ (keys : Keys Key) where
  -- `Policy::follow_mode`: the first follow of the publisher decides.
  unfoldable pub follow_mode : Policy → Key → Option Mode
  follow_mode p publisher = Option.map (λ f. f.1) (find (λ f. f.0 == publisher) (follows keys p))

  -- `Policy::is_pinned`
  unfoldable pub is_pinned : Policy → Key → Text → Text → Bool
  is_pinned p publisher name tag =
      any (λ r. r.publisher == publisher && r.name == name && r.tag == some tag) (pins keys p)

  -- `Policy::window`
  unfoldable pub window : Policy → Key → Text → Window
  window p publisher name = absorb_pins publisher name (pins keys p) (
      absorb_rules publisher name (seed_rules keys p)
        (absorb_follow (follow_mode p publisher) Window.default))

  -- `Policy::covers`
  unfoldable pub covers : Policy → Key → Text → Bool
  covers p publisher name = not (is_empty (window p publisher name))
