-- ===== src/Node/Replicate/Answers.antt =====
-- What a pull (`get_or_fetch` of crates/ocid/src/node.rs) returns.
use ocid.Prelude.{
  ℕ, ◌≤◌, ◌≡◌, refl, subst, sym, ap, ◌∙◌, ◌⊎◌, true, false, some, List, [], ◌∷◌, arith, ◌==◌, Eq,
  nat_eq, list_eq, pair_eq, Result, ok, err, Bool-cases, Option-cases, Result-cases, inl, inr, ◌>>◌,
}
use ocid.Text.{Text}
use ocid.Identity.{Keys}
use ocid.Release.{Release, Crypto, verify}
use ocid.Index.{stored, key_of, is_indexed}
use ocid.Index.Releases.{get_release_form}
use ocid.Oci.Name.{validate_name, validate_tag}
use ocid.Store.{Store, Hashes, is_complete}
use ocid.Store.Fetch.{fetch_release}
use ocid.Store.Complete.{fetch_release_ok}
use ocid.Node.Peers.{Peers, candidate_peers}
use ocid.Node.Exchange.{Codec}
use ocid.Node.Replicate.{
  Network, flatten, request_release, providers_of, with_release, ask_peers, is_held, get_or_fetch,
}

module _ {Key Secret : Type 0} ⦃eq : Eq Key⦄ (hashes : Hashes) (crypto : Crypto Key Secret)
    (keys : Keys Key) (codec : Codec Key) (net : Network Key) (me : Key) where
  -- `r` is verified and in the store, with all its blobs, or a later release of its key is.
  abbrev pub Fetched : Release Key → Store Key → Type 0
  Fetched r st =
      (verify crypto r ≡ ok tt)
      × (is_complete st r ≡ true)
      × (is_indexed st.index r ≡ true)
      × ((s : Release Key) × (stored st.index (key_of r) ≡ some s)
          × (r.payload.timestamp ≤ s.payload.timestamp))

  with_release_sound :
      (rel r : Release Key) (out : Store Key × Result (Unit {0}))
      → (with_release hashes crypto keys codec net me rel out).1 ≡ ok (some r)
      → (rel ≡ r)
        × (out.1 ≡ ok tt)
        × ((with_release hashes crypto keys codec net me rel out).0 ≡ out.0)
  with_release_sound rel r (st, ok u) h = (ground arith, refl, refl)
  with_release_sound rel r (st, err e) h = absurd (cc)

  ask_peers_sound :
      (p : Key) (n t : Text) (now : ℕ) (ps : List Key) (st : Store Key) (r : Release Key)
      → (ask_peers hashes crypto keys codec net me p n t now ps st).1 ≡ ok (some r)
      → Fetched r (ask_peers hashes crypto keys codec net me p n t now ps st).0
  unfolding ask_peers
  ask_peers_sound p n t now [] st r h = absurd (cc)
  ask_peers_sound p n t now (x ∷ xs) st r h =
      let here = ask_peers hashes crypto keys codec net me p n t now (x ∷ xs) st in
      elim (Option-cases (flatten (request_release codec net x p n t))) [
        | inl q ↦
            let e : here ≡ ask_peers hashes crypto keys codec net me p n t now xs st =
              ground arith in
            subst (λ o. Fetched r o.0) (sym e)
              (ask_peers_sound p n t now xs st r (ap (λ o. o.1) (sym e) ∙ h))
        | inr (rel, q) ↦
            let got = fetch_release hashes crypto net.download me st rel (providers_of x p) now in
            let e : here ≡ with_release hashes crypto keys codec net me rel got = ground arith in
            let back = with_release_sound rel r got (ap (λ o. o.1) (sym e) ∙ h) in
            subst (Fetched r) (sym (ap (λ o. o.0) e ∙ back.2)) (
              subst (λ x. Fetched x got.0) back.0
                (fetch_release_ok hashes crypto net.download me st rel (providers_of x p) now
                  back.1))
      ]

  -- Whatever release a pull returns, all its data is held, and either it is the record that was
  -- stored under the publisher, name and tag asked for, or the publisher is another than the node
  -- itself and the release was verified, its blobs are indexed, and it or a release at least as new
  -- is stored under its own publisher, name and tag (which need not be those asked for).
  pub get_or_fetch_sound :
      (peers : Peers Key) (p : Key) (n t : Text) (now : ℕ) (st : Store Key) (r : Release Key)
      → (get_or_fetch hashes crypto keys codec net me peers p n t now st).1 ≡ ok (some r)
      → (is_complete (get_or_fetch hashes crypto keys codec net me peers p n t now st).0 r ≡ true)
        × ((stored st.index (p, (n, t)) ≡ some r)
            ⊎ (((p == me) ≡ false)
                × Fetched r (get_or_fetch hashes crypto keys codec net me peers p n t now st).0))
  unfolding get_or_fetch
  get_or_fetch_sound peers p n t now st r h =
      let here = get_or_fetch hashes crypto keys codec net me peers p n t now st in
      elim (Result-cases (validate_tag t >> validate_name n)) [
        | inr (e, v) ↦ absurd (ground (arith, get_release_form st.index p n t))
        | inl (u, v) ↦
            let found = stored st.index (p, (n, t)) in
            elim (Bool-cases (is_held hashes crypto keys codec net me st found)) [
              | inl w ↦
                  let e : here ≡ (st, ok found) = ground (arith, get_release_form st.index p n t) in
                  let same : found ≡ some r = ground (arith, ap (λ o. o.1) e) in
                  (
                    ap (λ o. is_complete o.0 r) e
                        ∙ ap (is_held hashes crypto keys codec net me st) (sym same)
                        ∙ w,
                    inl same,
                  )
              | inr w ↦ elim (Bool-cases (p == me)) [
                | inl o ↦ absurd (ground (arith, get_release_form st.index p n t))
                | inr o ↦
                    let asked =
                      ask_peers hashes crypto keys codec net me p n t now
                        (candidate_peers me peers p) st in
                    let e : here ≡ asked = ground (arith, get_release_form st.index p n t) in
                    let got =
                      subst (λ x. Fetched r x.0) (sym e)
                        (ask_peers_sound p n t now (candidate_peers me peers p) st r
                          (ap (λ x. x.1) (sym e) ∙ h)) in
                    (got.1, inr (o, got))
              ]
            ]
      ]
