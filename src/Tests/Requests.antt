-- ===== src/Tests/Requests.antt =====
-- Requests to the registry of a node.
use ocid.Prelude.{
  io, err, ℕ, ◌≡◌, refl, subst, ◌⊎◌, Bool, true, false, none, some, List, [], ◌∷◌, arith, ◌==◌,
  ==_sound, nat_eq, list_eq, list_dec, ℕ_discrete, length, Bool-cases, inl, inr, ok,
}
use ocid.Prelude.Map.{get}
use ocid.Text.{txt, strip_prefix}
use ocid.Text.Search
use ocid.Text.Search.{split_once}
use ocid.Dns.Service
use ocid.Oci.Name.{validate_name, is_component, validate_tag, validate_opt_tag}
use ocid.Oci.Digest.{Digest, parse_digest}
use ocid.Oci.Manifest
use ocid.Oci.Manifest.{Descriptor, ImageIndex, Manifest, Json}
use ocid.Oci.Reference.{ImageRef, parse_explicit, show}
use ocid.Oci.Reference.RoundTrip.{parse_explicit-show}
use ocid.Policy.Rules
use ocid.Release.{BlobRef}
use ocid.Index.{empty, blob_ref}
use ocid.Store.{Store, Hashes, put_blob_bytes}
use ocid.Store.Sound.{IsSound, Holds}
use ocid.Node.Commands.{Lookup}
use ocid.Registry.Http.{Response, plain, Reply, reply}
use ocid.Registry.Uploads.{App, Body, upload_put}
use ocid.Registry.Uploads.Session.{arrived, all_arrived, patch_all, settled, upload_session}
use ocid.Registry.Manifests.{Gathered, collect_refs}
use ocid.Registry.Manifests.Ends.{IsKeyed, collect_refs_ends}
use ocid.Registry.Pull.{blob_get}
use ocid.Registry.Pull.Length.{blob_get-length}
use ocid.Registry.Dispatch
use ocid.Registry.Dispatch.{World, Request, Server, v2_dispatch}
use ocid.Registry.Dispatch.Sound.{v2_dispatch-IsSound}
use ocid.Store.Succeeds.{IsAddressed}
use ocid.Node.Replicate.{Network}
use ocid.Tests.Codecs.{one_codec}
use ocid.Tests.Data.{bool_eq, keys, crypto}
use ocid.Tests.Identities.{lawful_keys, lawful_keys-IsLawful}
use ocid.Tests.Nodes.{empty_store}

abbrev digest_of_all : Digest
digest_of_all = txt "sha256:cccccccccccccccccccccccccccccccccccccccccccccccccccccccccccccccc"

abbrev hashes : Hashes
hashes = record { sha256 = λ b. digest_of_all; blake3 = λ b. b }

digest_parsed : parse_digest digest_of_all ≡ ok digest_of_all
unfolding parse_digest strip_prefix nat_eq ℕ_discrete
digest_parsed = refl

-- An upload `u` with one byte.
abbrev app : App Bool
app = record { store = empty_store; uploads = (txt "u", 1) ∷ []; files = (txt "u", 5 ∷ []) ∷ [] }

abbrev bodies : List Body
bodies = (some (6 ∷ []) ∷ some (7 ∷ []) ∷ []) ∷ [] ∷ []

abbrev last_body : Body
last_body = some (8 ∷ 9 ∷ []) ∷ []

u_there : get (txt "u") app.uploads ≡ some 1
unfolding get nat_eq list_eq list_dec ℕ_discrete
u_there = refl

u_file : get (txt "u") app.files ≡ some (5 ∷ [])
unfolding get nat_eq list_eq list_dec ℕ_discrete
u_file = refl

bodies_arrived : all_arrived bodies ≡ some (6 ∷ 7 ∷ [])
unfolding all_arrived
bodies_arrived = refl

last_arrived : arrived last_body ≡ some (8 ∷ 9 ∷ [])
unfolding arrived
last_arrived = refl

abbrev uploaded : App Bool × Reply Response
uploaded =
    upload_put hashes (patch_all app (txt "app") (txt "u") bodies) (txt "app") (txt "u")
      (some digest_of_all) last_body

upload_session_example :
    ((uploaded.0.store, uploaded.1)
      ≡ settled hashes app.store
          (txt "app")
          (put_blob_bytes hashes app.store (5 ∷ 6 ∷ 7 ∷ 8 ∷ 9 ∷ []) (some digest_of_all) none))
    × (get (txt "u") uploaded.0.uploads ≡ none)
    × (get (txt "u") uploaded.0.files ≡ none)
upload_session_example =
    upload_session hashes app (txt "app") (txt "u") digest_of_all 1 (5 ∷ []) bodies last_body
      (6 ∷ 7 ∷ []) (8 ∷ 9 ∷ []) digest_of_all u_there u_file bodies_arrived last_arrived
      digest_parsed

-- An index that refers to itself.
abbrev self_ref : Descriptor
self_ref = record {
  media_type = Manifest.mt_oci_index;
  digest = digest_of_all;
  size = 2;
  artifact_type = none;
  annotations = none;
}

abbrev circle : ImageIndex
circle = record {
  media_type = none;
  artifact_type = none;
  manifests = self_ref ∷ self_ref ∷ [];
  subject = none;
  annotations = none;
}

abbrev json : Json
json = record {
  is_json = λ b. true;
  media_type_of = λ b. some Manifest.mt_oci_index;
  has_manifests = λ b. true;
  read_image = λ b. none;
  read_index = λ b. some circle;
}

abbrev held_blob : BlobRef
held_blob = record { digest = digest_of_all; hash = 7 ∷ 8 ∷ []; size = 2; media_type = none }

abbrev one_blob : Store Bool
one_blob = record {
  index = record empty { blobs = (digest_of_all, held_blob) ∷ [] };
  pins = (digest_of_all, 7 ∷ 8 ∷ []) ∷ [];
  blobs = (7 ∷ 8 ∷ [], 7 ∷ 8 ∷ []) ∷ [];
}

one_blob-IsKeyed : IsKeyed one_blob
unfolding IsKeyed blob_ref get
one_blob-IsKeyed d b q = elim (Bool-cases (digest_of_all == d)) [
  | inl e ↦ ground (arith, ==_sound {a = digest_of_all} {b = d} e)
  | inr e ↦ absurd (ground arith)
]

collect_refs_ends_example :
    (out : Gathered Bool × Reply (Unit {0})) × (collect_refs json 2
        (Manifest.index circle)
        (record { store = one_blob; refs = [] })
      ≡ some out)
collect_refs_ends_example = collect_refs_ends json (Manifest.index circle) one_blob one_blob-IsKeyed

held_hash : get (7 ∷ 8 ∷ []) one_blob.blobs ≡ some (7 ∷ 8 ∷ [])
unfolding get nat_eq list_eq list_dec ℕ_discrete
held_hash = refl

one_blob-IsSound : IsSound hashes one_blob
unfolding IsSound Holds blob_ref get
one_blob-IsSound d b q = elim (Bool-cases (digest_of_all == d)) [
  | inl e ↦
      let same : held_blob ≡ b = ground arith in
      subst
        (λ x.
          (x.digest ≡ d)
          × (get d one_blob.pins ≡ some x.hash)
          × ((bytes : List ℕ) × (get x.hash one_blob.blobs ≡ some bytes)
              × (hashes.sha256 bytes ≡ x.digest)
              × (length bytes ≡ x.size)))
        same
        (==_sound {a = digest_of_all} {b = d} e, ground arith, (7 ∷ 8 ∷ [], held_hash, refl, refl))
  | inr e ↦ absurd (ground arith)
]

abbrev lookup : Lookup Bool
lookup zone = ok Service.no_record

-- No peer can be reached.
abbrev silent : Network Bool
silent = record { connect = λ p. err io; ask = λ p req. err io; download = λ h ps. none }

abbrev second_byte : Response
second_byte = record (plain 206) {
  range = some (txt "bytes 1-1/2");
  digest = some digest_of_all;
  media_type = some (txt "application/octet-stream");
  size = some 1;
  body = 8 ∷ [];
}

second_byte_sent :
    blob_get hashes keys lookup Rules.default true one_blob
      (txt "app")
      digest_of_all
      (some (txt "bytes=1-"))
      false
    ≡ reply second_byte
unfolding blob_get nat_eq list_eq list_dec ℕ_discrete get
second_byte_sent = refl

blob_get-length_example :
    (second_byte.status ≡ 416) ⊎ (second_byte.size ≡ some (length second_byte.body))
blob_get-length_example =
    blob_get-length hashes keys lookup Rules.default true one_blob (txt "app") digest_of_all
      (some (txt "bytes=1-")) second_byte one_blob-IsSound second_byte_sent

abbrev team_app : ImageRef Bool
team_app = record { publisher = true; name = txt "team/app"; tag = some (txt "v1") }

team_app_valid : validate_name (txt "team/app") ≡ ok tt
unfolding validate_name is_component Search.split nat_eq list_eq list_dec ℕ_discrete
team_app_valid = refl

v1_opt_valid : validate_opt_tag (some (txt "v1")) ≡ ok tt
unfolding validate_tag
v1_opt_valid = refl

parse_explicit-show_example : parse_explicit lawful_keys (show lawful_keys team_app) ≡ ok team_app
parse_explicit-show_example =
    parse_explicit-show lawful_keys lawful_keys-IsLawful team_app team_app_valid v1_opt_valid

abbrev world : World Bool Bool
world = record {
  hashes = hashes;
  crypto = crypto;
  keys = keys;
  json = json;
  codec = one_codec;
  net = silent;
  lookup = lookup;
  policy = Rules.default;
  secret = true;
  peers = record { known = []; neighbors = [] };
  topics = true ∷ [];
  taken = λ s. true;
  times = record { written = 9; signed = 9 };
  fresh_id = txt "u";
}

-- A push of a manifest with the tag `v1`.
abbrev push : Request
push = record {
  method = Dispatch.put;
  path = txt "app/manifests/v1";
  digest_query = none;
  artifact_query = none;
  range = none;
  content_type = none;
  body = [];
  manifest_body = some (7 ∷ 8 ∷ []);
}

abbrev server : Server Bool
server = record { app = record { store = one_blob; uploads = []; files = [] }; sent = [] }

one_blob-IsAddressed : IsAddressed (λ h. h) one_blob
unfolding IsAddressed get
one_blob-IsAddressed h bytes q = elim (Bool-cases ((7 ∷ 8 ∷ []) == h)) [
  | inl e ↦ ground (arith, ==_sound {a = 7 ∷ 8 ∷ []} {b = h} e)
  | inr e ↦ absurd (ground arith)
]

v2_dispatch-IsSound_example : IsSound hashes (v2_dispatch world push server).0.app.store
v2_dispatch-IsSound_example =
    v2_dispatch-IsSound world (λ h. h) (λ b. refl) push server one_blob-IsSound one_blob-IsAddressed
