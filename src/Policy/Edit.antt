-- ===== src/Policy/Edit.antt =====
-- The changes of a policy (`add_*`, `remove_*`, `set_*` of crates/ocid-core/src/config.rs). Each
-- returns the new policy and whether it changed; on an error the caller's policy stays as it was.
pub mod Follow
pub mod Seed
use ocid.Prelude.{
  ℕ, ◌≡◌, Bool, true, false, not, ◌&&◌, ◌||◌, Option, none, some, List, [], ◌∷◌, ◌++◌,
  if◌then◌else◌, ◌==◌, Eq, nat_eq, list_eq, option_eq, all, contains, retain, length, Error,
  pin_needs_tag, bad_alias, Result, ok, err, ◌>>=◌, ◌>>◌, ensure, or_err, to_option, leb,
}
use ocid.Prelude.Map.{get, insert, remove, has_key}
use ocid.Text.{Text, txt, len, is_empty, is_hex_digit}
use ocid.Identity.{Keys, parse_publisher}
use ocid.Oci.Name.{is_name_char}
use ocid.Dns.Zone.{is_domain_name}
use ocid.Policy.Mode.{Mode, full, mode_eq}
use ocid.Policy.Rules.{
  Policy, SeedEntry, FollowEntry, SeedRule, AliasTarget, to_publisher, to_image,
  parse_publisher_arg, parse_seed_rule, parse_alias_target,
}

abbrev pub Change : Type 0
Change = Result (Policy × Bool)

-- The entries with the mode of the first match set, and whether it was another mode before.
module _ {A : Type 0} (matches : A → Bool) (mode_of : A → Mode) (with_mode : A → A) where
  unfoldable pub update_first : Mode → List A → Option (List A × Bool)
  update_first mode [] = none
  update_first mode (e ∷ es) =
      let rest = update_first mode es in
      if matches e
      then (if mode_of e == mode then some (e ∷ es, false) else some (with_mode e ∷ es, true))
      else elim rest [ none ↦ none | some (r, b) ↦ some (e ∷ r, b) ]

-- `Policy::set_dns_mapping`
unfoldable pub set_dns_mapping : {Key : Type 0} → Keys Key → Policy → Text → Key → Policy
set_dns_mapping keys p zone publisher = record p {
  dns = insert zone (keys.to_text publisher) p.dns;
}

-- `Policy::remove_alias`
unfoldable pub remove_alias : Policy → Text → Policy × Bool
remove_alias p alias = (record p { alias = remove alias p.alias }, has_key alias p.alias)

-- `validate_alias`
unfoldable pub validate_alias : Text → Result (Unit {0})
validate_alias alias =
    ensure
      (not (
        is_empty alias
        || (len alias == 64 && all is_hex_digit alias)
        || not (all is_name_char alias)))
      bad_alias

module _ {Key : Type 0} (keys : Keys Key) where
  unfoldable pub alias_text : AliasTarget Key → Text
  alias_text (to_publisher p) = keys.to_text p
  alias_text (to_image p name) = keys.to_text p ++ b'/' ∷ name

  -- `Policy::set_alias`
  unfoldable pub set_alias : Policy → Text → Text → Result Policy
  unfolding validate_alias alias_text
  set_alias p alias target = do
    validate_alias alias
    t ← parse_alias_target keys target
    ok (record p { alias = insert alias (alias_text t) p.alias })

  -- `Policy::add_seed`: the rule is stored as it is written.
  unfoldable pub add_seed : Policy → Text → Mode → Change
  unfolding update_first
  add_seed p rule mode = do
    _ ← parse_seed_rule keys p rule mode
    elim (update_first (λ (e : SeedEntry). e.reference == rule) (λ e. e.mode)
        (λ e. record e { mode = mode }) mode p.seed) [
          | some (entries, changed) ↦ ok (record p { seed = entries }, changed)
          | none ↦
              ok (
                record p { seed = p.seed ++ (record { reference = rule; mode = mode } ∷ []) },
                true,
              )
        ]

  -- `seed_rule_to_string`
  unfoldable pub seed_rule_to_string : SeedRule Key → Text
  seed_rule_to_string r = elim r.tag [
    | none ↦ keys.to_text r.publisher ++ b'/' ∷ r.name
    | some t ↦ keys.to_text r.publisher ++ b'/' ∷ (r.name ++ b':' ∷ t)
  ]

  -- `Policy::add_pin`
  unfoldable pub add_pin : Policy → Text → Change
  add_pin p reference = do
    parsed ← parse_seed_rule keys p reference full
    ensure (elim parsed.tag [ none ↦ false | some t ↦ true ]) pin_needs_tag
    if contains p.pin reference
        then ok (p, false)
        else ok (record p { pin = p.pin ++ (reference ∷ []) }, true)

  -- `Policy::remove_pin`: the written form and the form with the key both go.
  unfoldable pub remove_pin : Policy → Text → Change
  unfolding seed_rule_to_string
  remove_pin p reference = do
    parsed ← parse_seed_rule keys p reference full
    let canonical = seed_rule_to_string parsed
    let pins = retain (λ s. not (s == reference) && not (s == canonical)) p.pin
    ok (record p { pin = pins }, not (length pins == length p.pin))

module _ {Key : Type 0} ⦃e : Eq Key⦄ where
  -- The rule stands for the same image and, if `parsed` has a tag, the same tag.
  unfoldable pub same_target : SeedRule Key → SeedRule Key → Bool
  same_target parsed r =
      r.publisher == parsed.publisher
      && r.name == parsed.name
      && (parsed.tag == none || r.tag == parsed.tag)

module _ {Key : Type 0} ⦃e : Eq Key⦄ (keys : Keys Key) where
  -- The test of `Policy::remove_seed`: an entry that does not parse stays.
  unfoldable pub keeps_seed : Policy → SeedRule Key → SeedEntry → Bool
  unfolding same_target
  keeps_seed p parsed s = elim (parse_seed_rule keys p s.reference s.mode) [
    | ok r ↦ not (same_target parsed r)
    | err x ↦ true
  ]

  -- `Policy::remove_seed`
  unfoldable pub remove_seed : Policy → Text → Change
  unfolding keeps_seed
  remove_seed p rule = do
    parsed ← parse_seed_rule keys p rule full
    let entries = retain (keeps_seed p parsed) p.seed
    ok (record p { seed = entries }, not (length entries == length p.seed))

  -- `Policy::add_follow`: entries are compared by the key that they stand for.
  unfoldable pub follows_key : Policy → Key → FollowEntry → Bool
  follows_key p key f = to_option (parse_publisher_arg keys p f.publisher) == some key

  unfoldable pub add_follow : Policy → Text → Mode → Change
  unfolding update_first follows_key
  add_follow p publisher mode = do
    key ← parse_publisher_arg keys p publisher
    elim (update_first (follows_key p key) (λ f. f.mode) (λ f. record f { mode = mode }) mode
        p.follow) [
          | some (entries, changed) ↦ ok (record p { follow = entries }, changed)
          | none ↦ ok (
            record p { follow = p.follow ++ (record { publisher = publisher; mode = mode } ∷ []) },
            true,
          )
        ]

  -- The key of an entry as `Policy::remove_follow` computes it.
  unfoldable pub entry_key : Policy → Text → Option Key
  entry_key p s = elim (parse_publisher keys s) [
    | ok k ↦ some k
    | err x ↦
        if is_domain_name s
        then elim (get s p.dns) [ none ↦ none | some key ↦ to_option (parse_publisher keys key) ]
        else none
  ]

  -- `Policy::remove_follow`
  unfoldable pub remove_follow : Policy → Text → Change
  unfolding entry_key
  remove_follow p publisher = do
    key ← parse_publisher_arg keys p publisher
    let entries = retain (λ (f : FollowEntry). not (entry_key p f.publisher == some key)) p.follow
    ok (record p { follow = entries }, not (length entries == length p.follow))
