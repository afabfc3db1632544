-- ===== src/Tests/Policies.antt =====
-- Rules and windows.
use ocid.Prelude.{
  ◌≡◌, ◌≢◌, refl, Bool, true, false, not, ◌&&◌, ◌||◌, none, some, List, [], ◌∷◌, ◌++◌, arith,
  if◌then◌else◌, ◌==◌, nat_eq, list_eq, option_eq, ℕ_discrete, list_dec, option_dec, any, retain,
  contains, ok,
}
use ocid.Text.{Text, txt, trim_by}
use ocid.Text.Search.{split_once}
use ocid.Identity.{parse_publisher}
use ocid.Oci.Name.{split_tag}
use ocid.Policy.Mode.{Mode, full, latest, last, mode_eq}
use ocid.Policy.Mode.Text.{show_mode, parse_mode, parse_mode-show_mode}
use ocid.Policy.Window.{Window, Known, select, tags_of}
use ocid.Policy.Window.Select.{select-kept, kept}
use ocid.Policy.Window.Newest.{select_newest, among_newest}
use ocid.Policy.Rules.{
  Policy, SeedRule, default, parse_seed_rule, parse_publisher_arg, seed_rules, pins, follow_mode,
  is_pinned, covers,
}
use ocid.Policy.Rules.Laws.{covers-rules, has_value, for_image, is_tagged}
use ocid.Policy.Edit.{remove_seed, add_pin, add_follow, remove_follow, same_target}
use ocid.Policy.Edit.Follow.{follow_mode-add_follow, follow_mode-remove_follow}
use ocid.Policy.Edit.Seed.{seed_rules-remove_seed, is_pinned-add_pin}
use ocid.Tests.Data.{bool_eq, bool_dec, keys, key_a}

parse_mode-show_mode_example :
    (m' : Mode) × (parse_mode (show_mode (last 7)) ≡ ok m')
    × (ocid.Policy.Mode.window m' ≡ ocid.Policy.Mode.window (last 7))
parse_mode-show_mode_example = parse_mode-show_mode (last 7) (omega arith, omega arith)

abbrev last_one : Window
last_one = record { full = false; last = 1; tags = [] }

abbrev a_then_b : List Known
a_then_b = (txt "a", 1) ∷ (txt "b", 2) ∷ []

a_not_b : txt "a" ≢ txt "b"
a_not_b p = ground arith

select_newest_example : contains (select last_one a_then_b) (txt "b") ≡ (
    contains last_one.tags (txt "b")
    || (if last_one.full
        then contains (tags_of a_then_b) (txt "b")
        else among_newest last_one.last a_then_b (txt "b")))
select_newest_example = select_newest last_one a_then_b (txt "b") ((a_not_b, tt), (tt, tt))

b_selected : contains (select last_one a_then_b) (txt "b") ≡ true
unfolding select nat_eq list_eq list_dec ℕ_discrete
b_selected = refl

select-kept_example : contains (select last_one (kept last_one a_then_b)) (txt "b") ≡ true
select-kept_example = select-kept last_one a_then_b (txt "b") ((a_not_b, tt), (tt, tt)) b_selected

abbrev rule : Text
rule = key_a ++ txt "/app:v1"

-- A policy with one pin and one seed rule, both of the same tag.
abbrev policy : Policy
policy = record default {
  seed = (record { reference = rule; mode = latest }) ∷ [];
  pin = rule ∷ [];
}

abbrev parsed : Mode → SeedRule Bool
parsed mode = record { publisher = true; name = txt "app"; tag = some (txt "v1"); mode = mode }

rule-parsed : parse_seed_rule keys policy rule full ≡ ok (parsed full)
unfolding parse_seed_rule nat_eq list_eq list_dec ℕ_discrete split_once parse_publisher trim_by
    split_tag
rule-parsed = refl

rule-parsed_latest : parse_seed_rule keys policy rule latest ≡ ok (parsed latest)
unfolding parse_seed_rule nat_eq list_eq list_dec ℕ_discrete split_once parse_publisher trim_by
    split_tag
rule-parsed_latest = refl

covers-rules_example : covers keys policy true (txt "app") ≡ (
    has_value (follow_mode keys policy true)
    || any (for_image true (txt "app")) (seed_rules keys policy)
    || any (λ r. for_image true (txt "app") r && is_tagged r) (pins keys policy))
covers-rules_example = covers-rules keys policy true (txt "app")

key_parsed : parse_publisher_arg keys policy key_a ≡ ok true
unfolding parse_publisher_arg nat_eq list_eq list_dec ℕ_discrete parse_publisher trim_by
key_parsed = refl

abbrev following : Policy
following = record policy { follow = (record { publisher = key_a; mode = last 3 }) ∷ [] }

followed : add_follow keys policy key_a (last 3) ≡ ok (following, true)
unfolding add_follow parse_publisher_arg nat_eq list_eq list_dec ℕ_discrete parse_publisher trim_by
    bool_eq bool_dec option_eq option_dec
followed = refl

follow_mode-add_follow_example :
    (follow_mode keys following true
      ≡ (if ◌==◌ {A = Bool} true true then some (last 3) else follow_mode keys policy true))
    × (true ≡ not (follow_mode keys policy true == some (last 3)))
follow_mode-add_follow_example =
    follow_mode-add_follow keys policy key_a (last 3) following true true true key_parsed followed

key_parsed_following : parse_publisher_arg keys following key_a ≡ ok true
unfolding parse_publisher_arg nat_eq list_eq list_dec ℕ_discrete parse_publisher trim_by
key_parsed_following = refl

unfollowed : remove_follow keys following key_a ≡ ok (policy, true)
unfolding remove_follow parse_publisher_arg nat_eq list_eq list_dec ℕ_discrete parse_publisher
    trim_by bool_eq bool_dec option_eq option_dec
unfollowed = refl

follow_mode-remove_follow_example :
    follow_mode keys policy true
    ≡ (if ◌==◌ {A = Bool} true true then none else follow_mode keys following true)
follow_mode-remove_follow_example =
    follow_mode-remove_follow keys following key_a policy true true true key_parsed_following
      unfollowed

abbrev unseeded : Policy
unseeded = record policy { seed = [] }

seed_removed : remove_seed keys policy rule ≡ ok (unseeded, true)
unfolding remove_seed parse_seed_rule nat_eq list_eq list_dec ℕ_discrete split_once parse_publisher
    trim_by split_tag bool_eq bool_dec option_eq option_dec
seed_removed = refl

seed_rules-remove_seed_example :
    seed_rules keys unseeded
    ≡ retain (λ r. not (same_target (parsed full) r)) (seed_rules keys policy)
seed_rules-remove_seed_example =
    seed_rules-remove_seed keys policy rule (parsed full) unseeded true rule-parsed seed_removed

pin_there : add_pin keys policy rule ≡ ok (policy, false)
unfolding add_pin parse_seed_rule nat_eq list_eq list_dec ℕ_discrete split_once parse_publisher
    trim_by split_tag
pin_there = refl

is_pinned-add_pin_example : is_pinned keys policy true (txt "app") (txt "v1") ≡ true
is_pinned-add_pin_example =
    is_pinned-add_pin keys policy rule (txt "v1") (parsed full) policy false rule-parsed refl
      pin_there
