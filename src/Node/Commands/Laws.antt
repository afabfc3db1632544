-- ===== src/Node/Commands/Laws.antt =====
-- What the commands of crates/ocid/src/node.rs leave when they fail, and the topics a policy leads to.
use ocid.Prelude.{
  true, io, ◌⊎◌, refl, Bool-cases, ◌≡◌, refl, ap, ◌∙◌, Bool, false, ◌&&◌, ◌||◌, some, List, [], ◌∷◌,
  ◌++◌, arith, ◌==◌, ==_sound, Eq, any-append, contains, retain, Bool-cases, Result-cases, inl, inr,
  Error, unknown_publisher, Result, ok, err,
}
use ocid.Text.{Text}
use ocid.Identity.{Keys, parse_publisher}
use ocid.Dns.Zone.{is_domain_name}
use ocid.Policy.Mode.{Mode}
use ocid.Policy.Rules.{Policy, publishers, resolve_alias, parse_publisher_arg, to_publisher}
use ocid.Policy.Edit.{Change, add_seed, remove_seed, add_follow, remove_follow, add_pin, remove_pin}
use ocid.Node.Commands.{
  Command, seed_req, unseed_req, follow_req, unfollow_req, pin_req, unpin_req, execute, Lookup,
  Local, join_wanted, sync_topics, mutate_policy, install_policy, with_resolved,
  resolve_publisher_rule, resolve_rule, set_dns, domain_slot, seed_target, pin_target,
  follow_change, seed, unseed, follow, unfollow, pin, unpin,
}

module _ {Key : Type 0} ⦃eq : Eq Key⦄ where
  contains-append_one :
      (ids : List Key) (p x : Key) → contains (ids ++ (p ∷ [])) x ≡ (contains ids x || p == x)
  contains-append_one ids p x = ground (arith, any-append (λ y. y == x) ids (p ∷ []))

  contains-join_wanted :
      (subscribe : Key → Bool) (wanted topics : List Key) (x : Key)
      → contains (join_wanted subscribe wanted topics) x
        ≡ (contains topics x || (contains wanted x && subscribe x))
  unfolding join_wanted
  contains-join_wanted subscribe [] topics x = ground arith
  contains-join_wanted subscribe (p ∷ ps) topics x = elim (Bool-cases (p == x)) [
    | inl e ↦
        let same : p ≡ x = ==_sound e in
        ground (
          arith,
          contains-join_wanted subscribe ps topics x,
          contains-join_wanted subscribe ps (topics ++ (p ∷ [])) x,
          contains-append_one topics p x,
          ap (contains topics) same,
          ap subscribe same,
        )
    | inr e ↦ ground (
      arith,
      contains-join_wanted subscribe ps topics x,
      contains-join_wanted subscribe ps (topics ++ (p ∷ [])) x,
      contains-append_one topics p x,
    )
  ]

  contains-retain :
      (q : Key → Bool) (ids : List Key) (x : Key)
      → contains (retain q ids) x ≡ (contains ids x && q x)
  contains-retain q [] x = refl
  contains-retain q (y ∷ ys) x = elim (Bool-cases (y == x)) [
    | inl e ↦ ground (arith, contains-retain q ys x, ap q (==_sound {a = y} {b = x} e))
    | inr e ↦ ground (arith, contains-retain q ys x)
  ]

module _ {Key : Type 0} ⦃eq : Eq Key⦄ (keys : Keys Key) (subscribe : Key → Bool) (me : Key) where
  -- After every change of policy a node is on the topic of a publisher exactly if it is its own or
  -- one that a rule of the new policy names, and the node was on it or can subscribe to it now.
  pub sync_topics_lem :
      (policy : Policy) (topics : List Key) (x : Key)
      → contains (sync_topics keys subscribe me policy topics) x
        ≡ ((me == x || contains (publishers keys policy) x) && (contains topics x || subscribe x))
  unfolding sync_topics
  sync_topics_lem policy topics x =
      let wanted = me ∷ publishers keys policy in
      contains-join_wanted subscribe wanted (retain (λ p. contains wanted p) topics) x
      ∙ ground (arith, contains-retain (λ p. contains wanted p) topics x)

module _ {Key : Type 0} ⦃eq : Eq Key⦄ (keys : Keys Key) (subscribe : Key → Bool)
    (saved : Policy → Bool) (me : Key) where
  -- Nothing changed and the answer is an error, or a policy was written and put in place.
  abbrev pub Atomic : Local Key → Local Key × Result Bool → Type 0
  Atomic here out =
      ((e : Error) × (out ≡ (here, err e)))
      ⊎ ((p : Policy) × (changed : Bool) × (saved p ≡ true)
          × (out ≡ (install_policy keys subscribe me p here, ok changed)))

  mutate_policy-Atomic :
      (f : Policy → Change) (here : Local Key)
      → Atomic here (mutate_policy keys subscribe saved me f here)
  unfolding mutate_policy
  mutate_policy-Atomic f here = elim (Result-cases (f here.policy)) [
    | inr (x, q) ↦ inl (x, ground arith)
    | inl ((p, changed), q) ↦ elim (Bool-cases (saved p)) [
      | inl w ↦ inr (p, changed, w, ground arith)
      | inr w ↦ inl (io, ground arith)
    ]
  ]

  with_resolved-Atomic :
      {A : Type 0} (here : Local Key) (m : Result A) (f : A → Policy → Change)
      → Atomic here (with_resolved keys subscribe saved me here m f)
  with_resolved-Atomic here (err x) f = inl (x, refl)
  with_resolved-Atomic here (ok a) f = mutate_policy-Atomic (f a) here

  -- A control request that changes the policy, whichever it is: either it fails, be it while the
  -- names are resolved, in the change or while the policy is written, and then the policy, the topics
  -- and the store are what they were; or a policy that could be written is in place, with the topics
  -- and the windows brought in line with it.
  pub execute-Atomic :
      (lookup : Lookup Key) (c : Command) (here : Local Key)
      → Atomic here (execute keys subscribe saved me lookup c here)
  unfolding execute seed unseed follow unfollow pin unpin
  execute-Atomic lookup (seed_req rule mode) here =
      with_resolved-Atomic here (seed_target keys subscribe saved me lookup here.policy rule)
        (λ r p. add_seed keys (set_dns keys p (domain_slot rule) r.publisher) rule mode)
  execute-Atomic lookup (unseed_req rule) here =
      with_resolved-Atomic here (resolve_rule keys lookup here.policy me rule)
        (λ r p. remove_seed keys p rule)
  execute-Atomic lookup (follow_req rule mode) here =
      with_resolved-Atomic here (resolve_publisher_rule keys lookup here.policy rule)
        (follow_change keys subscribe saved me rule mode)
  execute-Atomic lookup (unfollow_req rule) here =
      with_resolved-Atomic here (resolve_publisher_rule keys lookup here.policy rule)
        (λ k p. remove_follow keys p rule)
  execute-Atomic lookup (pin_req rule) here =
      with_resolved-Atomic here (pin_target keys subscribe saved me lookup here.policy rule)
        (λ r p. add_pin keys (set_dns keys p (domain_slot rule) r.publisher) rule)
  execute-Atomic lookup (unpin_req rule) here =
      with_resolved-Atomic here (resolve_rule keys lookup here.policy me rule)
        (λ r p. remove_pin keys p rule)

  -- To follow by an alias of a publisher that is neither a publisher id nor shaped like a domain:
  -- the alias is resolved to its key, and the request fails all the same and changes nothing, since
  -- the rule is stored as it is written and an alias is no publisher there.
  pub follow_alias :
      (lookup : Lookup Key) (arg : Text) (mode : Mode) (here : Local Key) (p : Key) (e : Error)
      → parse_publisher keys arg ≡ err e
      → is_domain_name arg ≡ false
      → resolve_alias keys here.policy arg ≡ some (to_publisher p)
      → (resolve_publisher_rule keys lookup here.policy arg ≡ ok p)
        × (follow keys subscribe saved me lookup arg mode here ≡ (here, err unknown_publisher))
  unfolding follow resolve_publisher_rule mutate_policy add_follow parse_publisher_arg
  follow_alias lookup arg mode here p e q d a = (ground arith, ground arith)
