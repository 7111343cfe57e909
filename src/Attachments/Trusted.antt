-- ===== src/Attachments/Trusted.antt =====
-- What `read_record` of host/service/src/attachment.rs has seen of a record that it trusts.
use text.Mathlib.Text.{◌==◌ as ◌=ˢ◌}
use scufris.Base.{
  ℕ, String, some, List, length, ◌==◌, ◌≡◌, inl, inr, refl, arith, eq_iff, Option-cases, Bool-cases,
  if◌then◌else◌,
}
use scufris.Base.Files.{Node, absent, irregular, unreadable, file}
use scufris.Base.Result.{Result, ok, err, ◌>>=◌}
use scufris.Control.Message.{validate_attachment_descriptor, Checked}
use scufris.Attachments.{Record, Host, Folder, node_at, record_name}
use scufris.Attachments.Reads.{
  read_record, read_metadata, valid_descriptor, object_matches, decoded,
}

-- A record that is trusted, with its two files.
pub record Trusted (host : Host) (objects : Folder) (name : String) (node : Node) (r : Record)
    : Type 0 where
  pub content : List ℕ
  pub stored : node_at r.descriptor.id objects ≡ file content
  pub sized : length content ≡ r.descriptor.size
  pub encoded : List ℕ
  pub written : node ≡ file encoded
  pub decodes : host.from_slice encoded ≡ some r
  pub valid : validate_attachment_descriptor r.descriptor ≡ ok tt
  pub named : record_name r.descriptor.id ≡ name

read_metadata-eq-ok :
    (host : Host) (node : Node) (r : Record)
    → read_metadata host node ≡ ok r
    → (encoded : List ℕ) × (node ≡ file encoded) × (host.from_slice encoded ≡ some r)
unfolding read_metadata decoded
read_metadata-eq-ok host (file encoded) r h = elim (Option-cases (host.from_slice encoded)) [
  | inl none_ ↦ absurd (ground arith)
  | inr (q, e) ↦ (encoded, refl, ground arith)
]
read_metadata-eq-ok host absent r h = cc
read_metadata-eq-ok host irregular r h = cc
read_metadata-eq-ok host unreadable r h = cc

object_matches-eq-ok :
    (q r : Record) (node : Node)
    → object_matches q node ≡ ok r
    → (content : List ℕ) × (node ≡ file content) × (length content ≡ r.descriptor.size) × (q ≡ r)
unfolding object_matches
object_matches-eq-ok q r (file content) h =
    elim (Bool-cases (length content == q.descriptor.size)) [
      | inl fits ↦ (content, refl, ground arith, ground arith)
      | inr short ↦ absurd (ground arith)
    ]
object_matches-eq-ok q r absent h = cc
object_matches-eq-ok q r irregular h = cc
object_matches-eq-ok q r unreadable h = cc

named-Trusted :
    (host : Host) (objects : Folder) (name : String) (node : Node) (q r : Record)
    → (encoded : List ℕ) × (node ≡ file encoded) × (host.from_slice encoded ≡ some q)
    → validate_attachment_descriptor q.descriptor ≡ ok tt
    → ◌>>=◌ {B = Record}
        (if record_name q.descriptor.id =ˢ name then ok q else err "misnamed record")
        (λ p. object_matches p (node_at p.descriptor.id objects))
      ≡ ok r
    → Trusted host objects name node r
named-Trusted host objects name node q r (encoded, w, d) valid h =
    elim (Bool-cases (record_name q.descriptor.id =ˢ name)) [
      | inl same ↦
          let m : object_matches q (node_at q.descriptor.id objects) ≡ ok r = rw same at h in
          let (content, stored, sized, is_r) =
            object_matches-eq-ok q r (node_at q.descriptor.id objects) m in
          rw (← is_r) (record {
            content = content;
            stored = stored;
            sized = rw is_r sized;
            encoded = encoded;
            written = w;
            decodes = d;
            valid = valid;
            named = ground (arith, eq_iff (record_name q.descriptor.id) name);
          })
      | inr other ↦ absurd (ground arith)
    ]

checked-Trusted :
    (host : Host) (objects : Folder) (name : String) (node : Node) (q r : Record) (c : Checked)
    → (encoded : List ℕ) × (node ≡ file encoded) × (host.from_slice encoded ≡ some q)
    → validate_attachment_descriptor q.descriptor ≡ c
    → ◌>>=◌ {B = Record} (valid_descriptor q c) (λ p.
      ◌>>=◌ {B = Record}
        (if record_name p.descriptor.id =ˢ name then ok p else err "misnamed record")
        (λ p. object_matches p (node_at p.descriptor.id objects)))
      ≡ ok r
    → Trusted host objects name node r
unfolding valid_descriptor
checked-Trusted host objects name node q r (ok u) m e h =
    named-Trusted host objects name node q r m e h
checked-Trusted host objects name node q r (err x) m e h = cc

pub read_record-Trusted :
    (host : Host) (objects : Folder) (name : String) (node : Node) (r : Record)
    → read_record host objects name node ≡ ok r
    → Trusted host objects name node r
unfolding read_record
read_record-Trusted host objects name node r h = first (read_metadata host node) refl h
  where
    first :
        (o : Result String Record)
        → read_metadata host node ≡ o
        → ◌>>=◌ {B = Record} o (λ q.
          ◌>>=◌ {B = Record}
            (valid_descriptor q (validate_attachment_descriptor q.descriptor))
            (λ p.
              ◌>>=◌ {B = Record}
                (if record_name p.descriptor.id =ˢ name then ok p else err "misnamed record")
                (λ p. object_matches p (node_at p.descriptor.id objects))))
          ≡ ok r
        → Trusted host objects name node r
    first (err x) e h = cc
    first (ok q) e h =
        checked-Trusted host objects name node q r (validate_attachment_descriptor q.descriptor)
          (read_metadata-eq-ok host node q e) refl h
