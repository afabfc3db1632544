-- ===== src/Node/Replicate/Delivers.antt =====
-- That an announced release arrives (`on_announcement` of crates/ocid/src/node.rs).
use ocid.Prelude.{
  ℕ, ◌≤◌, ◌≡◌, subst, sym, ap, ◌∙◌, true, false, not, some, List, [], ◌∷◌, arith, ◌==◌, Eq, nat_eq,
  list_eq, pair_eq, all, All, retain, ok, Bool-cases, inl, inr,
}
use ocid.Identity.{Keys}
use ocid.Prelude.Map.{has_key}
use ocid.Release.{Hash, Release, ReleaseSummary, Crypto, all_blobs, verify, summary_of}
use ocid.Index.{stored, key_of}
use ocid.Policy.Rules.{Policy}
use ocid.Store.{Store, Hashes, has_hash, is_complete}
use ocid.Store.Fetch.{no_providers, and_then, fetch_release}
use ocid.Store.Complete.{fetch_release_ok}
use ocid.Store.Succeeds.{Matches, IsAddressed, fetch_release_succeeds, and_then_next}
use ocid.Node.{select_wanted}
use ocid.Node.Retained.{own_or_pinned}
use ocid.Node.Sound.{enforce_window-blobs}
use ocid.Node.Gc.{enforce_window}
use ocid.Node.Gc.Window.{enforce_window-keeps}
use ocid.Node.Exchange.{Codec}
use ocid.Node.Replicate.{
  Network, flatten, request_release, providers_of, fetch_announced, on_announcement,
}

module _ {Key Secret : Type 0} ⦃eq : Eq Key⦄ (hashes : Hashes) (crypto : Crypto Key Secret)
    (keys : Keys Key) (codec : Codec Key) (net : Network Key) (me : Key) where
  -- The peer that sent the announcement is asked first, and what it answers is fetched.
  announced_step :
      (policy : Policy) (st : Store Key) (s : ReleaseSummary Key) (sender : Key) (now : ℕ)
      (rel : Release Key) (w : ReleaseSummary Key) (ws : List (ReleaseSummary Key))
      → select_wanted keys st.index policy s.publisher s.name (s ∷ []) ≡ ok (w ∷ ws)
      → request_release codec net sender s.publisher s.name s.tag ≡ ok (some rel)
      → on_announcement hashes crypto keys codec net me policy s sender now st
        ≡ and_then
            (fetch_release hashes crypto net.download me st rel
              (providers_of sender s.publisher)
              now)
            (λ st'. enforce_window keys policy me st' s.publisher s.name)
  unfolding on_announcement fetch_announced
  announced_step policy st s sender now rel w ws q a = elim (Bool-cases (s.publisher == sender)) [
    | inl e ↦ ground (arith, ap flatten a)
    | inr e ↦ ground (arith, ap flatten a)
  ]

  has_provider :
      (sender publisher : Key)
      → (sender == me) ≡ false
      → no_providers (retain (λ p. not (p == me)) (providers_of sender publisher)) ≡ false
  has_provider sender publisher n = elim (Bool-cases (publisher == sender)) [
    | inl e ↦ ground arith
    | inr e ↦ ground arith
  ]

  -- A release of the node itself or with a pinned tag, announced by a peer, arrives. If the node
  -- wants it, the peer answers with it, it is verified, the data with the hash of each blob has the
  -- blob's digest and size, the providers send that data, and what the node holds has its hash, then
  -- afterwards the node holds all data of the release, and under its key a record that is at least
  -- as new.
  pub on_announcement_delivers :
      (content : Hash → List ℕ) (policy : Policy) (st : Store Key) (r : Release Key) (sender : Key)
      (now : ℕ) (w : ReleaseSummary Key) (ws : List (ReleaseSummary Key))
      → own_or_pinned keys policy me r.payload.publisher r.payload.name r.payload.tag ≡ true
      → select_wanted keys st.index policy r.payload.publisher r.payload.name (summary_of r ∷ [])
        ≡ ok (w ∷ ws)
      → (sender == me) ≡ false
      → request_release codec net sender r.payload.publisher r.payload.name r.payload.tag
        ≡ ok (some r)
      → verify crypto r ≡ ok tt
      → All (Matches hashes content) (all_blobs r)
      → All
          (λ b.
            net.download b.hash
              (retain (λ p. not (p == me)) (providers_of sender r.payload.publisher))
            ≡ some (content b.hash))
          (all_blobs r)
      → IsAddressed content st
      → (is_complete
            (on_announcement hashes crypto keys codec net me policy (summary_of r) sender now st).0
            r
          ≡ true)
        × ((s : Release Key) × (stored
                (on_announcement hashes crypto keys codec net me policy
                  (summary_of r)
                  sender
                  now
                  st).0.index
                (key_of r)
              ≡ some s)
            × (r.payload.timestamp ≤ s.payload.timestamp))
  unfolding summary_of is_complete has_hash key_of
  on_announcement_delivers content policy st r sender now w ws pinned wanted other answer v m d a =
      let providers = providers_of sender r.payload.publisher in
      let got = fetch_release hashes crypto net.download me st r providers now in
      let fine : got.1 ≡ ok tt =
        fetch_release_succeeds hashes crypto content net.download me st r providers now v
          (has_provider sender r.payload.publisher other) m d a in
      let held = fetch_release_ok hashes crypto net.download me st r providers now fine in
      let out = enforce_window keys policy me got.0 r.payload.publisher r.payload.name in
      let e : on_announcement hashes crypto keys codec net me policy (summary_of r) sender now st
          ≡ out =
        announced_step policy st (summary_of r) sender now r w ws wanted answer
        ∙ and_then_next got _ fine in
      (
        subst (λ o. all (λ b. has_key b.hash o.0.blobs) (all_blobs r) ≡ true) (sym e)
            (subst (λ m. all (λ b. has_key b.hash m) (all_blobs r) ≡ true)
              (sym (
                enforce_window-blobs hashes keys policy me got.0 r.payload.publisher
                  r.payload.name))
              held.1),
        (
          held.3.0,
          subst (λ o. stored o.0.index (key_of r) ≡ some held.3.0) (sym e)
              (enforce_window-keeps keys policy me got.0 r.payload.publisher r.payload.name
                (key_of r) held.3.0 held.3.1 pinned),
          held.3.2,
        ),
      )
