-- ===== src/Attachments/Outcomes.antt =====
-- The steps of a put in host/service/src/attachment.rs, and how each of them can come out.
use scufris.Base.{
  ℕ, ◌+◌, String, Option, none, some, List, [], ◌∷◌, length, take, ◌≡◌, ◌⊎◌, inl, inr, refl, arith,
  Option-cases, Bool-cases,
}
use scufris.Base.Result.{ok, err, ◌>>=◌}
use scufris.Control.Message.{
  AttachmentDescriptor, validate_attachment_descriptor, Checked, max_attachment_bytes,
}
use scufris.Attachments.{
  Record, Store, Host, StoreError, io, json, place, record_name, find_record, full, expire_all,
  expire, expired_ids, write_record, expire_one,
}
use scufris.Attachments.Puts.{
  Putting, Asked, checked_descriptor, prepare, bounded, write_bounded, with_room,
}
use scufris.Attachments.Backed.{expire_one-find}

-- Documented behaviour of `serde_json`: a record that was written reads back as itself.
abbrev pub ReadsBack : (List ℕ → Option Record) → Host → Type 0
ReadsBack from_slice host =
    (r : Record) (encoded : List ℕ) → host.to_vec r ≡ some encoded → from_slice encoded ≡ some r

-- An identifier is not in the index: `Fresh o s` where `o` is what the random source gave.
abbrev pub Fresh : Option String → Store → Type 0
Fresh none s = Unit
Fresh (some id) s = find_record id s.index.records ≡ none

expire_one_missing :
    (host : Host) (id b : String) (s : Store)
    → find_record b s.index.records ≡ none
    → find_record b (expire_one host id s).index.records ≡ none
expire_one_missing host id b s e = rw (expire_one-find host id b s, e) (ground arith)

pub expire_all_missing :
    (host : Host) (ids : List String) (b : String) (s : Store)
    → find_record b s.index.records ≡ none
    → find_record b (expire_all host ids s).index.records ≡ none
unfolding expire_all
expire_all_missing host [] b s e = e
expire_all_missing host (id ∷ ids) b s e =
    expire_all_missing host ids b (expire_one host id s) (expire_one_missing host id b s e)

pub with_room_missing :
    (host : Host) (size now : ℕ) (b : String) (s : Store)
    → find_record b s.index.records ≡ none
    → find_record b (with_room host size now s).index.records ≡ none
unfolding with_room expire
with_room_missing host size now b s e = elim (Bool-cases (full size s.index)) [
  | inl is_full ↦ rw is_full (expire_all_missing host (expired_ids now s.index.records) b s e)
  | inr has_room ↦ rw has_room e
]

pub checked_descriptor-eq-ok :
    (now t : ℕ) (q d : AttachmentDescriptor) (c : Checked)
    → ◌>>=◌ {B = ℕ × AttachmentDescriptor} (checked_descriptor q c) (λ d. ok (now, d)) ≡ ok (t, d)
    → (c ≡ ok tt) × (q ≡ d)
unfolding checked_descriptor
checked_descriptor-eq-ok now t q d (ok u) h = (refl, ground arith)
checked_descriptor-eq-ok now t q d (err e) h = cc

bounded-length :
    (host : Host) (m : Putting) (copied : List ℕ) (expected : ℕ) (written : List ℕ)
    → bounded host m copied expected ≡ ok written
    → (length written ≡ expected) × (written ≡ copied)
unfolding bounded
bounded-length host m copied expected written h = ground arith

pub write_bounded-length :
    (host : Host) (m : Putting) (content : List ℕ) (expected : ℕ) (written : List ℕ)
    → write_bounded host m content expected ≡ ok written
    → (length written ≡ expected) × (written ≡ take (max_attachment_bytes + 1) content)
unfolding write_bounded
write_bounded-length host m content expected written h =
    bounded-length host m (take (max_attachment_bytes + 1) content) expected written h

-- What `prepare` hands on is under the identifier that was drawn, and was checked.
pub prepared :
    (now : Option ℕ) (id : Option String) (asked : Asked) (s : Store)
    → Fresh id s
    → (t : ℕ) (d : AttachmentDescriptor) → prepare now id asked ≡ ok (t, d)
    → (find_record d.id s.index.records ≡ none) × (validate_attachment_descriptor d ≡ ok tt)
unfolding prepare
prepared none id asked s fresh t d e = cc
prepared (some now) none asked s fresh t d e = cc
prepared (some now) (some id) asked s fresh t d e =
    let q : AttachmentDescriptor = record {
      id = id;
      name = asked.name;
      media_type = asked.media_type;
      size = asked.size;
    } in
    let (valid, same) = checked_descriptor-eq-ok now t q d (validate_attachment_descriptor q) e in
    (rw (← same) fresh, rw (← same) valid)

pub write_record-cases :
    (host : Host) (r : Record) (s : Store)
    → ((e : StoreError) × ((e ≡ json host.json_reason) ⊎ (e ≡ io host.io_reason))
        × (write_record host r s ≡ (err e, s)))
      ⊎ ((encoded : List ℕ) × (host.to_vec r ≡ some encoded)
          × (write_record host r s ≡ (
            ok tt,
            record s { metadata = place (record_name r.descriptor.id) encoded s.metadata },
          )))
unfolding write_record
write_record-cases host r s = elim (Option-cases (host.to_vec r)) [
  | inl none_ ↦ inl (json host.json_reason, inl refl, rw none_ refl)
  | inr (encoded, e) ↦ elim (Bool-cases (host.writes r.descriptor.id)) [
    | inl goes ↦ inr (encoded, e, rw (e, goes) refl)
    | inr fails ↦ inl (io host.io_reason, inr refl, rw (e, fails) refl)
  ]
]
