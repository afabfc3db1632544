-- ===== src/Tests/Codecs.antt =====
-- A codec that writes one release, for the theorems that ask for a faithful one.
use ocid.Prelude.{
  ℕ, ◌≡◌, sym, ap, Bool, false, Option, none, some, List, [], ◌∷◌, arith, if◌then◌else◌, ◌==◌,
  ==_sound, nat_eq, list_eq, option_eq, pair_eq, Bool-cases, inl, inr,
}
use ocid.Text.{Text, txt}
use ocid.Release.{Hash, BlobRef, Referrer, Release}
use ocid.Node.Exchange.{Codec, IsFaithful}
use ocid.Tests.Data.{bool_eq, release}

abbrev pub theirs : Release Bool
theirs = release false (txt "v1") 5

-- All fields of a release but its lists.
abbrev Fields : Type 0
Fields = Bool × (ℕ × (Text × (Text × (ℕ × (Text × (Text × (Hash × (ℕ × Option Text))))))))

abbrev fields_of : Release Bool → Fields
fields_of r = (
  r.payload.publisher,
  (
    r.payload.version,
    (
      r.payload.name,
      (
        r.payload.tag,
        (
          r.payload.timestamp,
          (
            r.signature,
            (
              r.payload.manifest.digest,
              (r.payload.manifest.hash, (r.payload.manifest.size, r.payload.manifest.media_type)),
            ),
          ),
        ),
      ),
    ),
  ),
)

abbrev build : List BlobRef → List Referrer → Fields → Release Bool
build blobs referrers (p, (v, (n, (t, (ts, (s, (d, (h, (z, m))))))))) = record {
  payload = record {
    version = v;
    publisher = p;
    name = n;
    tag = t;
    manifest = record { digest = d; hash = h; size = z; media_type = m };
    blobs = blobs;
    timestamp = ts;
    referrers = referrers;
  };
  signature = s;
}

abbrev write : List BlobRef → List Referrer → Fields → Option (List ℕ)
write [] [] fields = if fields == fields_of theirs then some [] else none
write (b ∷ bs) referrers fields = none
write [] (r ∷ rs) fields = none

abbrev pub one_codec : Codec Bool
one_codec = record {
  encode = λ r. write r.payload.blobs r.payload.referrers (fields_of r);
  decode = λ b. some theirs;
}

written :
    (blobs : List BlobRef) (referrers : List Referrer) (fields : Fields) (bytes : List ℕ)
    → write blobs referrers fields ≡ some bytes
    → theirs ≡ build blobs referrers fields
written [] [] fields bytes h = elim (Bool-cases (fields == fields_of theirs)) [
  | inl e ↦ ap (build [] []) (sym (==_sound {a = fields} {b = fields_of theirs} e))
  | inr e ↦ absurd (ground arith)
]
written (b ∷ bs) referrers fields bytes h = absurd (cc)
written [] (r ∷ rs) fields bytes h = absurd (cc)

pub one_codec-IsFaithful : IsFaithful one_codec
one_codec-IsFaithful = record {
  decode-encode =
      λ r bytes h. ap some (written r.payload.blobs r.payload.referrers (fields_of r) bytes h);
}
