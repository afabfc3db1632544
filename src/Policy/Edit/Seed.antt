-- ===== src/Policy/Edit/Seed.antt =====
-- What `add_seed`, `remove_seed` and `add_pin` do to the rules that the policy is evaluated by.
use ocid.Prelude.{
  ◌≡◌, refl, ◌∙◌, Bool, true, not, ◌&&◌, some, List, [], ◌∷◌, ◌++◌, arith, ◌==◌, Eq, nat_eq,
  list_eq, option_eq, any, any-append, any-filter_map, any_mono, is_some_and, All-of_forall,
  contains, filter_map, retain, ok, to_option, Option-cases, inl, inr, ==_sound,
}
use ocid.Text.{Text}
use ocid.Identity.{Keys}
use ocid.Policy.Mode.{Mode, full, mode_eq}
use ocid.Policy.Rules.{
  Policy, SeedEntry, SeedRule, seed_rules, parse_seed_rule, pins, is_pinned, tagged,
}
use ocid.Policy.Edit.{update_first, add_seed, same_target, keeps_seed, remove_seed, add_pin}

module _ {Key : Type 0} ⦃e : Eq Key⦄ (keys : Keys Key) (p : Policy) where
  rules_of : List SeedEntry → List (SeedRule Key)
  rules_of = filter_map (λ s. to_option (parse_seed_rule keys p s.reference s.mode))

  seed_rules_with : (es : List SeedEntry) → seed_rules keys (record p { seed = es }) ≡ rules_of es
  unfolding seed_rules parse_seed_rule rules_of
  seed_rules_with es = refl

  rules_of-retain :
      (parsed : SeedRule Key) (es : List SeedEntry)
      → rules_of (retain (keeps_seed keys p parsed) es)
        ≡ retain (λ r. not (same_target parsed r)) (rules_of es)
  unfolding rules_of keeps_seed
  rules_of-retain parsed [] = refl
  rules_of-retain parsed (s ∷ es) = ground (arith, rules_of-retain parsed es)

  -- `remove_seed` takes out exactly the rules for the named image and, if it has one, tag.
  pub seed_rules-remove_seed :
      (rule : Text) (parsed : SeedRule Key) (p' : Policy) (changed : Bool)
      → parse_seed_rule keys p rule full ≡ ok parsed
      → remove_seed keys p rule ≡ ok (p', changed)
      → seed_rules keys p' ≡ retain (λ r. not (same_target parsed r)) (seed_rules keys p)
  unfolding remove_seed
  seed_rules-remove_seed rule parsed p' changed h a = ground (
    arith,
    seed_rules_with p.seed,
    seed_rules_with (retain (keeps_seed keys p parsed) p.seed),
    rules_of-retain parsed p.seed,
  )

  -- The rule with the mode of its entry.
  abbrev pub same_rule : SeedRule Key → SeedRule Key → Bool
  same_rule r s =
      r.publisher == s.publisher && r.name == s.name && r.tag == s.tag && r.mode == s.mode

  any-update_first :
      (rule : Text) (mode : Mode) (es gs : List SeedEntry) (b : Bool)
      → update_first
          (λ (s : SeedEntry). s.reference == rule)
          (λ s. s.mode)
          (λ s. record s { mode = mode })
          mode
          es
        ≡ some (gs, b)
      → any (λ (s : SeedEntry). s.reference == rule && s.mode == mode) gs ≡ true
  unfolding update_first
  any-update_first rule mode [] gs b h = cc
  any-update_first rule mode (s ∷ es) gs b h =
      elim (Option-cases (
        update_first (λ (r : SeedEntry). r.reference == rule) (λ r. r.mode)
          (λ r. record r { mode = mode }) mode es)) [
            | inl n ↦ ground arith
            | inr ((r, c), q) ↦ ground (arith, any-update_first rule mode es r c q)
          ]

  entry_rule :
      (rule : Text) (mode : Mode) (parsed : SeedRule Key) (s : SeedEntry)
      → parse_seed_rule keys p rule mode ≡ ok parsed
      → (s.reference == rule && s.mode == mode) ≡ true
      → is_some_and
          (λ r. same_rule r parsed)
          (to_option (parse_seed_rule keys p s.reference s.mode))
        ≡ true
  entry_rule rule mode parsed s h b =
      let same_reference : s.reference ≡ rule = ground arith in
      let same_mode : s.mode ≡ mode = ground arith in
      rw (same_reference, same_mode, h) (ground arith)

  any-rules_of :
      (rule : Text) (mode : Mode) (parsed : SeedRule Key) (es : List SeedEntry)
      → parse_seed_rule keys p rule mode ≡ ok parsed
      → any (λ (s : SeedEntry). s.reference == rule && s.mode == mode) es ≡ true
      → any (λ r. same_rule r parsed) (rules_of es) ≡ true
  unfolding rules_of
  any-rules_of rule mode parsed es h a =
      any-filter_map _ _ es
      ∙ any_mono _ _ es (All-of_forall (λ s b. entry_rule rule mode parsed s h b) es) a

  -- After `add_seed` the rule is one of those that the policy is evaluated by, with the mode given.
  pub seed_rules-add_seed :
      (rule : Text) (mode : Mode) (parsed : SeedRule Key) (p' : Policy) (changed : Bool)
      → parse_seed_rule keys p rule mode ≡ ok parsed
      → add_seed keys p rule mode ≡ ok (p', changed)
      → any (λ r. same_rule r parsed) (seed_rules keys p') ≡ true
  unfolding add_seed
  seed_rules-add_seed rule mode parsed p' changed h a =
      elim (Option-cases (
        update_first (λ (r : SeedEntry). r.reference == rule) (λ r. r.mode)
          (λ r. record r { mode = mode }) mode p.seed)) [
            | inl n ↦ ground (
              arith,
              seed_rules_with (p.seed ++ (record { reference = rule; mode = mode } ∷ [])),
              any-rules_of rule mode parsed
                  (p.seed ++ (record { reference = rule; mode = mode } ∷ [])) h,
              any-append (λ (s : SeedEntry). s.reference == rule && s.mode == mode) p.seed
                  (record { reference = rule; mode = mode } ∷ []),
            )
            | inr ((r, c), q) ↦ ground (
              arith,
              seed_rules_with r,
              any-rules_of rule mode parsed r h,
              any-update_first rule mode p.seed r c q,
            )
          ]

  is_pinned_with :
      (ps : List Text) (publisher : Key) (name t : Text)
      → is_pinned keys (record p { pin = ps }) publisher name t
        ≡ any
            (λ s.
              is_some_and
                (λ r. r.publisher == publisher && r.name == name && r.tag == some t)
                (tagged keys (parse_seed_rule keys p s full)))
            ps
  unfolding is_pinned pins parse_seed_rule
  is_pinned_with ps publisher name t = any-filter_map _ _ ps

  -- A release that `add_pin` accepts is pinned afterwards.
  pub is_pinned-add_pin :
      (reference t : Text) (parsed : SeedRule Key) (p' : Policy) (changed : Bool)
      → parse_seed_rule keys p reference full ≡ ok parsed
      → parsed.tag ≡ some t
      → add_pin keys p reference ≡ ok (p', changed)
      → is_pinned keys p' parsed.publisher parsed.name t ≡ true
  unfolding add_pin
  is_pinned-add_pin reference t parsed p' changed h tg a =
      let pinned : (ps : List Text)
          → contains ps reference ≡ true
          → is_pinned keys (record p { pin = ps }) parsed.publisher parsed.name t ≡ true =
        λ ps c.
          is_pinned_with ps parsed.publisher parsed.name t
          ∙ any_mono _ _ ps
              (All-of_forall (λ s b. rw (==_sound {a = s} {b = reference} b) (rw h (ground arith)))
                ps)
              c in
      ground (
        arith,
        pinned p.pin,
        pinned (p.pin ++ (reference ∷ [])),
        any-append (λ s. s == reference) p.pin (reference ∷ []),
      )
