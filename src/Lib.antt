-- ===== src/Lib.antt =====
-- ocid is a peer-to-peer registry of container images. A publisher signs releases (an image name, a tag
-- and the blobs of its manifest); a node keeps releases of its own, replicates those that its policy
-- asks for, serves them over the registry protocol, and resolves domain names to publishers.
--
-- Files and the code they model:
--   Prelude and Text: lists, options, results, association lists, sorting, and texts as lists of code
--   points with the searches of Rust's `str`.
--   Identity: crates/ocid-core/src/identity.rs. The key type is a parameter, `Keys`.
--   Oci: crates/ocid-core/src/oci.rs. Name and Digest are the checked texts, Reference the forms of an
--   image reference and `resolve_repo`, Manifest the reading of manifests.
--   Policy: crates/ocid-core/src/config.rs. Mode and Window are the retention of one image, Rules reads
--   a policy back into keys, Edit holds the changes (`add_seed`, `remove_follow`, ...), which return the
--   new policy and whether it changed.
--   Release: crates/ocid-core/src/release.rs. Signatures, hex and the JSON encoding of a payload are the
--   parameter `Crypto`.
--   Index: crates/ocid-core/src/index.rs. Each directory of JSON files is a map; the clock is an
--   argument. Unreadable files are not modelled, nor is a name that is a directory of one release and
--   the file of another.
--   Store: crates/ocid/src/store.rs, and `fetch_release` of crates/ocid/src/node.rs in Store/Fetch. The
--   data and the named tags of `iroh_blobs` are maps; hashing and downloading are parameters.
--   Node: crates/ocid/src/node.rs: what a node wants (`select_wanted`), what it keeps (`retained_set`),
--   sweeping of blobs, garbage collection and pruning to a window. Peers (with `Peers` of config.rs),
--   Exchange (the handler of crates/ocid/src/p2p/sync.rs), Replicate (announcements, synchronisation
--   and pulls), Remove, Publish and Attach, Commands (the commands that change the policy, and the
--   topics), and Daemon: all of them as the events of one node, in any order, with those of the
--   gossip loop of crates/ocid/src/p2p/gossip.rs, what a registry request does to the store, and the
--   deletion of data that no named tag protects.
--   Dns: crates/ocid-core/src/dns.rs and crates/ocid/src/dns_resolver.rs: zones, signed records, pinned
--   keys, and the service that resolves a zone. The answer of the resolver, the parser of its texts, the
--   clocks and whether the pin file could be written are arguments.
--   Registry: crates/ocid/src/registry.rs: paths (Route) and byte ranges (Range), responses (Http),
--   uploads (with `put_blob_file` of store.rs), Manifests (`collect_refs`), Push, Pull, and which
--   request does what (Dispatch). A failed call of the node is an answer with status 500.
--   Tests: the theorems at concrete data.
--
-- A call that can fail returns `Result`, a request `Reply`; where the code keeps changes that came
-- before a failure, the state is returned together with the result. What the outside does is a
-- parameter: `Network` (connecting, asking and downloading from peers), `Codec` and `Json` (the forms of
-- releases and manifests), `Lookup` (what the resolver of Dns says of a zone), the clocks, and whether
-- a policy can be written.
--
-- Every loop is structural recursion over the list that the code walks, except `collect_refs`, which
-- recurses into manifests of the store. Its fuel is one more than the number of entries of the index,
-- since a manifest that it enters twice is left out, as Registry/Manifests/Ends shows. Numbers are
-- unbounded: parsing a number checks the limit of its type, the time that `attach_referrer` adds 1 to
-- wraps around at 64 bits, and the sums of sizes are not checked against 64 bits. Counters, events,
-- logs and locks are left out, and each call runs alone.
--
-- Not modelled: startup, timers, mDNS, relays and the framing of messages, the control requests that
-- only report, the configuration file, the command-line tool, the terminal UI and the desktop
-- extension.
pub mod Prelude
pub mod Text
pub mod Identity
pub mod Oci
pub mod Dns
pub mod Policy
pub mod Release
pub mod Index
pub mod Store
pub mod Node
pub mod Registry
pub mod Tests
