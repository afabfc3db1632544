-- ===== src/Node/Daemon/Announces.antt =====
-- What a node announces while it runs (`announce` of crates/ocid/src/node.rs).
use ocid.Prelude.{◌≡◌, Bool, false, not, List, ◌==◌, Eq, any}
use ocid.Release.{Release, ReleaseSummary, Crypto}
use ocid.Store.{Hashes}
use ocid.Node.Publish.{Outbox}
use ocid.Node.Daemon.{Daemon}

-- The announcements are all of releases of the publisher `me`.
unfoldable pub IsOwn : {Key : Type 0} ⦃eq : Eq Key⦄ → Key → List (ReleaseSummary Key) → Type 0
IsOwn me sent = any (λ s. not (s.publisher == me)) sent ≡ false

module _ {Key Secret : Type 0} ⦃eq : Eq Key⦄ (hashes : Hashes) (crypto : Crypto Key Secret)
    (topics : List Key) (taken : ReleaseSummary Key → Bool) (me : Key) where
  abbrev Ours : Outbox Key → Type 0
  Ours box = IsOwn me box.sent
