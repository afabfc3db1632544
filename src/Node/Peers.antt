-- ===== src/Node/Peers.antt =====
-- The peers a node knows: `Peers` of crates/ocid-core/src/config.rs, and `remember_peer`,
-- `neighbor_up`, `neighbor_down`, `candidate_peers` and `gossip_bootstrap` of
-- crates/ocid/src/node.rs. `peers.json` is what the record says; a failed write of it is only logged.
use ocid.Prelude.{
  ◌≡◌, refl, ap, ◌∙◌, Bool, true, false, not, ◌&&◌, ◌||◌, List, [], ◌∷◌, ◌++◌, map, arith,
  if◌then◌else◌, ◌==◌, ==_refl, ==_sound, ==_ne, Eq, contains, retain, any-append, Bool-cases, inl,
  inr,
}
use ocid.Text.{Text}

-- `EndpointAddr`: the transport addresses as texts.
pub record Addr (Key : Type 0) : Type 0 where
  pub id : Key
  pub addrs : List Text

-- A set of endpoint ids is a list that is searched.
pub record Peers (Key : Type 0) : Type 0 where
  pub known : List (Addr Key)
  pub neighbors : List Key

module _ {Key : Type 0} ⦃eq : Eq Key⦄ where
  -- `Peers::upsert`, and whether the address was new
  unfoldable pub upsert : List (Addr Key) → Addr Key → List (Addr Key) × Bool
  upsert [] addr = (addr ∷ [], true)
  upsert (p ∷ ps) addr =
      let rest = upsert ps addr in
      if p.id == addr.id
      then (record p { addrs = p.addrs ++ addr.addrs } ∷ ps, false)
      else (p ∷ rest.0, rest.1)

  -- `Node::remember_peer`, on the node with key `me`
  unfoldable pub remember_peer : Key → Peers Key → Addr Key → Peers Key
  unfolding upsert
  remember_peer me ps addr =
      if addr.id == me then ps else record ps { known = (upsert ps.known addr).0 }

  -- `BTreeSet::insert`, `extend`
  unfoldable pub add_id : List Key → Key → List Key
  add_id ids id = if contains ids id then ids else ids ++ (id ∷ [])

  unfoldable pub add_ids : List Key → List Key → List Key
  unfolding add_id
  add_ids ids [] = ids
  add_ids ids (p ∷ ps) = add_ids (add_id ids p) ps

  -- `Node::neighbor_up`, and whether the neighbor is new
  unfoldable pub neighbor_up : Peers Key → Key → Peers Key × Bool
  unfolding add_id
  neighbor_up ps id =
      (record ps { neighbors = add_id ps.neighbors id }, not (contains ps.neighbors id))

  -- `Node::neighbor_down`, and whether it was one
  unfoldable pub neighbor_down : Peers Key → Key → Peers Key × Bool
  neighbor_down ps id =
      (record ps { neighbors = retain (λ n. not (n == id)) ps.neighbors }, contains ps.neighbors id)

  abbrev pub ids_of : List (Addr Key) → List Key
  ids_of ps = map (λ p. p.id) ps

  -- `Node::candidate_peers`
  unfoldable pub candidate_peers : Key → Peers Key → Key → List Key
  unfolding add_ids add_id
  candidate_peers me ps publisher =
      retain (λ id. not (id == me)) (add_id (add_ids ps.neighbors (ids_of ps.known)) publisher)

  -- `Node::gossip_bootstrap`
  unfoldable pub gossip_bootstrap : Key → Peers Key → List Key
  unfolding add_ids
  gossip_bootstrap me ps = retain (λ id. not (id == me)) (add_ids ps.neighbors (ids_of ps.known))

  -- No id twice.
  unfoldable pub IsDistinct : List Key → Type 0
  IsDistinct [] = Unit
  IsDistinct (x ∷ xs) = (contains xs x ≡ false) × IsDistinct xs

  contains-add_id :
      (ids : List Key) (p x : Key) → contains (add_id ids p) x ≡ (contains ids x || p == x)
  unfolding add_id
  contains-add_id ids p x = elim (Bool-cases (p == x)) [
    | inl e ↦ ground (
      arith,
      any-append (λ y. y == x) ids (p ∷ []),
      ap (contains ids) (==_sound {a = p} {b = x} e),
    )
    | inr e ↦ ground (arith, any-append (λ y. y == x) ids (p ∷ []))
  ]

  contains-add_ids :
      (ids ps : List Key) (x : Key)
      → contains (add_ids ids ps) x ≡ (contains ids x || contains ps x)
  unfolding add_ids
  contains-add_ids ids [] x = ground arith
  contains-add_ids ids (p ∷ ps) x =
      ground (arith, contains-add_ids (add_id ids p) ps x, contains-add_id ids p x)

  append-IsDistinct :
      (ids : List Key) (p : Key)
      → contains ids p ≡ false
      → IsDistinct ids
      → IsDistinct (ids ++ (p ∷ []))
  unfolding IsDistinct
  append-IsDistinct [] p n d = (refl, tt)
  append-IsDistinct (x ∷ xs) p n d = (
    ground (
      arith,
      any-append (λ y. y == x) xs (p ∷ []),
      ==_ne {a = p} {b = x} (λ e. ground (arith, ==_refl x, ap (λ y. y == p) e)),
    ),
    append-IsDistinct xs p (ground arith) d.1,
  )

  add_id-IsDistinct : (ids : List Key) (p : Key) → IsDistinct ids → IsDistinct (add_id ids p)
  unfolding add_id
  add_id-IsDistinct ids p d = elim (Bool-cases (contains ids p)) [
    | inl c ↦ rw c d
    | inr c ↦ rw c (append-IsDistinct ids p c d)
  ]

  add_ids-IsDistinct : (ids ps : List Key) → IsDistinct ids → IsDistinct (add_ids ids ps)
  unfolding add_ids
  add_ids-IsDistinct ids [] d = d
  add_ids-IsDistinct ids (p ∷ ps) d =
      add_ids-IsDistinct (add_id ids p) ps (add_id-IsDistinct ids p d)

  contains-retain_none :
      (q : Key → Bool) (x : Key) (ids : List Key)
      → contains ids x ≡ false
      → contains (retain q ids) x ≡ false
  contains-retain_none q x [] h = refl
  contains-retain_none q x (y ∷ ys) h = ground (arith, contains-retain_none q x ys)

  contains-retain_other :
      (me x : Key) (ids : List Key)
      → contains (retain (λ id. not (id == me)) ids) x ≡ (contains ids x && not (x == me))
  contains-retain_other me x [] = refl
  contains-retain_other me x (y ∷ ys) = elim (Bool-cases (y == x)) [
    | inl e ↦
        ground
          (arith, contains-retain_other me x ys, ap (λ z. z == me) (==_sound {a = y} {b = x} e))
    | inr e ↦ ground (arith, contains-retain_other me x ys)
  ]

  retain-IsDistinct : (q : Key → Bool) (ids : List Key) → IsDistinct ids → IsDistinct (retain q ids)
  unfolding IsDistinct
  retain-IsDistinct q [] d = tt
  retain-IsDistinct q (x ∷ xs) d = elim (Bool-cases (q x)) [
    | inl e ↦ rw e (contains-retain_none q x xs d.0, retain-IsDistinct q xs d.1)
    | inr e ↦ rw e (retain-IsDistinct q xs d.1)
  ]

  -- A peer is asked exactly if it is a neighbor, a remembered peer or the publisher, and not the
  -- node itself; where no neighbor is listed twice, none is asked twice.
  pub candidate_peers_lem :
      (me publisher : Key) (ps : Peers Key)
      → ((x : Key)
          → contains (candidate_peers me ps publisher) x ≡ (
              (contains ps.neighbors x || contains (ids_of ps.known) x || publisher == x)
              && not (x == me)))
        × (IsDistinct ps.neighbors → IsDistinct (candidate_peers me ps publisher))
  unfolding candidate_peers
  candidate_peers_lem me publisher ps =
      let all_ids = add_ids ps.neighbors (ids_of ps.known) in
      (
        λ x.
            contains-retain_other me x (add_id all_ids publisher)
            ∙ ground (
              arith,
              contains-add_id all_ids publisher x,
              contains-add_ids ps.neighbors (ids_of ps.known) x,
            ),
        λ d. retain-IsDistinct _ (add_id all_ids publisher) (
            add_id-IsDistinct all_ids publisher
              (add_ids-IsDistinct ps.neighbors (ids_of ps.known) d)),
      )
