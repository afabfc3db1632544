-- ===== src/Policy/Edit/Follow.antt =====
-- What `add_follow` and `remove_follow` do to the mode in which each publisher is followed.
use mathlib.Core.Option
use ocid.Prelude.{
  ◌≡◌, refl, ◌∙◌, Bool, true, not, Option, none, some, List, [], ◌∷◌, ◌++◌, arith, if◌then◌else◌,
  ◌==◌, Eq, nat_eq, list_eq, option_eq, find, filter_map, retain, ok, to_option, Option-cases, inl,
  inr,
}
use ocid.Text.{Text}
use ocid.Identity.{Keys}
use ocid.Policy.Mode.{Mode, mode_eq}
use ocid.Policy.Rules.{Policy, FollowEntry, follow_of, follows, follow_mode, parse_publisher_arg}
use ocid.Policy.Edit.{update_first, follows_key, add_follow, entry_key, remove_follow}

module _ {Key : Type 0} ⦃e : Eq Key⦄ (keys : Keys Key) (p : Policy) where
  -- The mode of the first entry for the key.
  first_mode : Key → List FollowEntry → Option Mode
  first_mode key fs =
      Option.map (λ f. f.1) (find (λ f. f.0 == key) (filter_map (follow_of keys p) fs))

  -- Only the `dns` table of a policy is read when an entry is read.
  follow_mode_with :
      (fs : List FollowEntry) (key : Key)
      → follow_mode keys (record p { follow = fs }) key ≡ first_mode key fs
  unfolding follow_mode follows follow_of parse_publisher_arg first_mode
  follow_mode_with fs key = refl

  first_mode-cons :
      (f : FollowEntry) (fs : List FollowEntry) (key : Key)
      → first_mode key (f ∷ fs)
        ≡ (if follows_key keys p key f then some f.mode else first_mode key fs)
  unfolding follow_of follows_key first_mode
  first_mode-cons f fs key = ground arith

  -- Another mode in an entry changes nothing of its key.
  follows_key_mode :
      (f : FollowEntry) (mode : Mode) (key : Key)
      → follows_key keys p key (record f { mode = mode }) ≡ follows_key keys p key f
  unfolding follows_key
  follows_key_mode f mode key = refl

  -- An entry stands for one key.
  follows_key_unique :
      (f : FollowEntry) (key k : Key)
      → follows_key keys p key f ≡ true
      → follows_key keys p k f ≡ (key == k)
  unfolding follows_key
  follows_key_unique f key k h = ground arith

  last_entry :
      (key k : Key) (mode : Mode) (publisher : Text)
      → parse_publisher_arg keys p publisher ≡ ok key
      → follows_key keys p k (record { publisher = publisher; mode = mode }) ≡ (key == k)
  unfolding follows_key
  last_entry key k mode publisher h = rw h (ground arith)

  first_mode-nil : (k : Key) → first_mode k [] ≡ none
  unfolding first_mode
  first_mode-nil k = refl

  abbrev set_first : Key → Mode → List FollowEntry → Option (List FollowEntry × Bool)
  set_first key mode =
      update_first (follows_key keys p key) (λ f. f.mode) (λ f. record f { mode = mode }) mode

  first_mode-update_first :
      (key k : Key) (mode : Mode) (fs gs : List FollowEntry) (b : Bool)
      → set_first key mode fs ≡ some (gs, b)
      → first_mode k gs ≡ (if key == k then some mode else first_mode k fs)
  unfolding update_first
  first_mode-update_first key k mode [] gs b h = cc
  first_mode-update_first key k mode (f ∷ fs) gs b h = elim (Option-cases (set_first key mode fs)) [
    | inl n ↦ ground (
      arith,
      follows_key_unique f key k,
      follows_key_mode f mode k,
      first_mode-cons f fs k,
      first_mode-cons (record f { mode = mode }) fs k,
    )
    | inr ((r, c), q) ↦ ground (
      arith,
      follows_key_unique f key k,
      follows_key_mode f mode k,
      first_mode-cons f fs k,
      first_mode-cons f r k,
      first_mode-cons (record f { mode = mode }) fs k,
      first_mode-update_first key k mode fs r c q,
    )
  ]

  first_mode-none :
      (key k : Key) (mode : Mode) (fs : List FollowEntry) (publisher : Text)
      → parse_publisher_arg keys p publisher ≡ ok key
      → set_first key mode fs ≡ none
      → first_mode k (fs ++ (record { publisher = publisher; mode = mode } ∷ []))
        ≡ (if key == k then some mode else first_mode k fs)
  unfolding update_first
  first_mode-none key k mode [] publisher h n =
      first_mode-cons _ [] k ∙ ground (arith, last_entry key k mode publisher h, first_mode-nil k)
  first_mode-none key k mode (f ∷ fs) publisher h n = elim (Option-cases (set_first key mode fs)) [
    | inl q ↦ ground (
      arith,
      first_mode-cons f fs k,
      first_mode-cons f (fs ++ (record { publisher = publisher; mode = mode } ∷ [])) k,
      first_mode-none key k mode fs publisher h q,
    )
    | inr ((r, c), q) ↦ ground arith
  ]

  set_first-none :
      (key : Key) (mode : Mode) (fs : List FollowEntry)
      → set_first key mode fs ≡ none
      → first_mode key fs ≡ none
  unfolding update_first
  set_first-none key mode [] n = first_mode-nil key
  set_first-none key mode (f ∷ fs) n = elim (Option-cases (set_first key mode fs)) [
    | inl q ↦ ground (arith, first_mode-cons f fs key, set_first-none key mode fs q)
    | inr ((r, c), q) ↦ ground arith
  ]

  changed-update_first :
      (key : Key) (mode : Mode) (fs gs : List FollowEntry) (b : Bool)
      → set_first key mode fs ≡ some (gs, b)
      → b ≡ not (first_mode key fs == some mode)
  unfolding update_first
  changed-update_first key mode [] gs b h = cc
  changed-update_first key mode (f ∷ fs) gs b h = elim (Option-cases (set_first key mode fs)) [
    | inl n ↦ ground (arith, first_mode-cons f fs key)
    | inr ((r, c), q) ↦
        ground (arith, first_mode-cons f fs key, changed-update_first key mode fs r c q)
  ]

  -- After `add_follow` the key is followed in the new mode, every other key as before, and the
  -- result says whether the key's mode is another than before.
  pub follow_mode-add_follow :
      (publisher : Text) (mode : Mode) (p' : Policy) (changed : Bool) (key k : Key)
      → parse_publisher_arg keys p publisher ≡ ok key
      → add_follow keys p publisher mode ≡ ok (p', changed)
      → (follow_mode keys p' k ≡ (if key == k then some mode else follow_mode keys p k))
        × (changed ≡ not (follow_mode keys p key == some mode))
  unfolding add_follow
  follow_mode-add_follow publisher mode p' changed key k h a =
      elim (Option-cases (set_first key mode p.follow)) [
        | inl n ↦ ground (
          arith,
          follow_mode_with p.follow k,
          follow_mode_with p.follow key,
          follow_mode_with (p.follow ++ (record { publisher = publisher; mode = mode } ∷ [])) k,
          first_mode-none key k mode p.follow publisher h n,
          set_first-none key mode p.follow n,
        )
        | inr ((r, c), q) ↦ ground (
          arith,
          follow_mode_with p.follow k,
          follow_mode_with p.follow key,
          follow_mode_with r k,
          first_mode-update_first key k mode p.follow r c q,
          changed-update_first key mode p.follow r c q,
        )
      ]

  -- `remove_follow` reads the key of an entry as all other code does.
  entry_key_lem : (s : Text) → entry_key keys p s ≡ to_option (parse_publisher_arg keys p s)
  unfolding entry_key parse_publisher_arg
  entry_key_lem s = ground arith

  follows_key_lem :
      (f : FollowEntry) (key : Key)
      → follows_key keys p key f ≡ (to_option (parse_publisher_arg keys p f.publisher) == some key)
  unfolding follows_key
  follows_key_lem f key = refl

  first_mode-retain :
      (key k : Key) (fs : List FollowEntry)
      → first_mode k (retain (λ f. not (entry_key keys p f.publisher == some key)) fs)
        ≡ (if key == k then none else first_mode k fs)
  first_mode-retain key k [] = ground (arith, first_mode-nil k)
  first_mode-retain key k (f ∷ fs) = ground (
    arith,
    entry_key_lem f.publisher,
    first_mode-cons f fs k,
    first_mode-cons f (retain (λ g. not (entry_key keys p g.publisher == some key)) fs) k,
    first_mode-retain key k fs,
    follows_key_lem f k,
  )

  -- After `remove_follow` the key is not followed, and every other key is followed as before.
  pub follow_mode-remove_follow :
      (publisher : Text) (p' : Policy) (changed : Bool) (key k : Key)
      → parse_publisher_arg keys p publisher ≡ ok key
      → remove_follow keys p publisher ≡ ok (p', changed)
      → follow_mode keys p' k ≡ (if key == k then none else follow_mode keys p k)
  unfolding remove_follow
  follow_mode-remove_follow publisher p' changed key k h a = ground (
    arith,
    follow_mode_with p.follow k,
    follow_mode_with (retain (λ f. not (entry_key keys p f.publisher == some key)) p.follow) k,
    first_mode-retain key k p.follow,
  )
