-- ===== src/Node/Exchange.antt =====
-- The sync protocol: crates/ocid/src/p2p/sync.rs. The JSON form of a release is a library's work, so
-- it is a parameter, `Codec`; the framing of messages is not modelled.
use ocid.Prelude.{
  ◌↔◌, ℕ, ◌≡◌, refl, ◌∙◌, Bool, true, ◌&&◌, Option, none, some, List, map, arith, if◌then◌else◌,
  ◌==◌, Eq, any, any-map, any-retain, retain, Error, bad_record, io, unexpected, Result, ok, err,
  ◌>>=◌, ◌>>◌, or_err, Option-cases, Result-cases, inl, inr, Bool-cases,
}
use ocid.Text.{Text}
use ocid.Identity.{Keys}
use ocid.Release.{Release, ReleaseSummary, summary_of}
use ocid.Index.{get_release, list_tags, list_releases, stored}
use ocid.Index.Releases.{get_release_form}
use ocid.Oci.Name.{validate_name, validate_tag}
use ocid.Store.{Store, is_complete}
use ocid.Node.Peers.{Addr, Peers, remember_peer}

pub data Request (Key : Type 0) : Type 0 where
  inventory : Request Key
  get_release_of : (publisher : Key) (name tag : Text) → Request Key
  list_tags_of : (publisher : Key) (name : Text) → Request Key
  hello : (addr : Addr Key) → Request Key

pub data Response (Key : Type 0) : Type 0 where
  inventory_is : (releases : List (ReleaseSummary Key)) → Response Key
  release_is : (bytes : Option (List ℕ)) → Response Key
  tags_are : (tags : List Text) → Response Key
  done : Response Key
  failed : (reason : Error) → Response Key

-- `serde_json::to_vec` and `serde_json::from_slice` on a release.
pub record Codec (Key : Type 0) : Type 0 where
  pub encode : Release Key → Option (List ℕ)
  pub decode : List ℕ → Option (Release Key)

-- What the program relies on: what is written is read back.
pub record IsFaithful {Key : Type 0} (codec : Codec Key) : Type 0 where
  pub decode-encode :
      (r : Release Key) (bytes : List ℕ) → codec.encode r ≡ some bytes → codec.decode bytes ≡ some r

module _ {Key : Type 0} (codec : Codec Key) where
  -- `Response::into_release`
  unfoldable pub into_release : Response Key → Result (Option (Release Key))
  into_release (release_is none) = ok none
  into_release (release_is (some bytes)) = do
    r ← or_err (codec.decode bytes) bad_record
    ok (some r)
  into_release _ = err unexpected

  -- Only a release whose data can be served is handed out.
  unfoldable pub serve : Store Key → Option (Release Key) → Result (Option (List ℕ))
  unfolding is_complete
  serve st none = ok none
  serve st (some r) =
      if is_complete st r
      then (or_err (codec.encode r) io >>= λ bytes. ok (some bytes))
      else ok none

module _ {Key : Type 0} ⦃eq : Eq Key⦄ (keys : Keys Key) (codec : Codec Key) where
  -- `SyncProtocol::handle_inner` on the node with key `me`: the answer, and the peers it leaves.
  unfoldable pub handle_inner :
      Key → Store Key → Peers Key → Key → Request Key → Peers Key × Result (Response Key)
  unfolding is_complete summary_of list_releases get_release serve list_tags remember_peer
  handle_inner me st peers sender inventory = (
    peers,
    ok (inventory_is (map summary_of (retain (is_complete st) (list_releases keys st.index)))),
  )
  handle_inner me st peers sender (get_release_of publisher name tag) = (
    peers,
    get_release st.index publisher name tag >>= λ found.
        serve codec st found >>= λ bytes. ok (release_is bytes),
  )
  handle_inner me st peers sender (list_tags_of publisher name) =
      (peers, list_tags st.index publisher name >>= λ tags. ok (tags_are tags))
  handle_inner me st peers sender (hello addr) =
      (if addr.id == sender then remember_peer me peers addr else peers, ok done)

  abbrev response_of : Result (Response Key) → Response Key
  response_of (ok r) = r
  response_of (err e) = failed e

  -- `SyncProtocol::handle`
  unfoldable pub handle : Key → Store Key → Peers Key → Key → Request Key → Peers Key × Response Key
  unfolding handle_inner
  handle me st peers sender req =
      let out = handle_inner me st peers sender req in (out.0, response_of out.1)

module _ {Key : Type 0} ⦃eq : Eq Key⦄ (keys : Keys Key) (codec : Codec Key) where
  serve_sound :
      (st : Store Key) (found : Option (Release Key)) (bytes : List ℕ)
      → serve codec st found ≡ ok (some bytes)
      → (r : Release Key) × (found ≡ some r)
        × (is_complete st r ≡ true)
        × (codec.encode r ≡ some bytes)
  unfolding serve
  serve_sound st none bytes h = absurd (cc)
  serve_sound st (some r) bytes h = elim (Bool-cases (is_complete st r)) [
    | inl c ↦ elim (Option-cases (codec.encode r)) [
      | inl n ↦ absurd (ground arith)
      | inr (out, q) ↦ (r, refl, c, ground arith)
    ]
    | inr c ↦ absurd (ground arith)
  ]

  serve_ok :
      (st : Store Key) (r : Release Key) (bytes : List ℕ)
      → is_complete st r ≡ true
      → codec.encode r ≡ some bytes
      → serve codec st (some r) ≡ ok (some bytes)
  unfolding serve
  serve_ok st r bytes c q = ground arith

  -- A peer that asks for a release that can be encoded, by a valid name and tag, is given it exactly
  -- if it is the one that is stored there and all its data is held.
  pub handle-get_release :
      (me : Key) (st : Store Key) (peers : Peers Key) (sender p : Key) (n t : Text)
      (r : Release Key) (bytes : List ℕ)
      → IsFaithful codec
      → (validate_tag t >> validate_name n) ≡ ok tt
      → codec.encode r ≡ some bytes
      → (into_release codec (handle keys codec me st peers sender (get_release_of p n t)).1
          ≡ ok (some r))
        ↔ ((stored st.index (p, (n, t)) ≡ some r) × (is_complete st r ≡ true))
  unfolding handle handle_inner into_release
  handle-get_release me st peers sender p n t r bytes law v q = (
    λ h. elim (Result-cases (serve codec st (stored st.index (p, (n, t))))) [
      | inr (e, w) ↦ absurd (ground (arith, get_release_form st.index p n t))
      | inl (out, w) ↦ elim (Option-cases out) [
        | inl z ↦ absurd (ground (arith, get_release_form st.index p n t))
        | inr (sent, z) ↦
            let found = serve_sound st (stored st.index (p, (n, t))) sent (ground arith) in
            let same : found.0 ≡ r =
              ground
                (arith, get_release_form st.index p n t, law.decode-encode found.0 sent found.3) in
            (ground (arith, found.1), ground (arith, found.2))
      ]
    ],
    λ (s, c). ground (
      arith,
      get_release_form st.index p n t,
      serve_ok st r bytes c q,
      law.decode-encode r bytes q,
    ),
  )

  -- The inventory lists a summary exactly if it is that of a stored release with all its data there.
  pub handle-inventory :
      (me : Key) (st : Store Key) (peers : Peers Key) (sender : Key) (p : ReleaseSummary Key → Bool)
      → (listed : List (ReleaseSummary Key)) × ((handle keys codec me st peers sender inventory).1
          ≡ inventory_is listed)
        × (any p listed
            ≡ any (λ r. is_complete st r && p (summary_of r)) (list_releases keys st.index))
  unfolding handle handle_inner
  handle-inventory me st peers sender p =
      let held = retain (is_complete st) (list_releases keys st.index) in
      (
        map summary_of held,
        refl,
        any-map summary_of p held
            ∙ any-retain (λ r. p (summary_of r)) (is_complete st) (list_releases keys st.index),
      )
