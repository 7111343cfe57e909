-- ===== src/Attachments/Refused.antt =====
-- The want of space in host/service/src/attachment.rs: expiry, and the answer of a put.
use text.Mathlib.Text.{◌==◌ as ◌=ˢ◌}
use scufris.Base.{
  ℕ, ◌+◌, String, true, false, not, ◌||◌, Option, none, some, List, [], ◌∷◌, length, take, ltb,
  ◌==◌, ◌≡◌, ◌⊎◌, inl, inr, refl, arith, eq_iff, Bool-cases,
}
use scufris.Base.Result.{ok, err, ◌>>=◌}
use scufris.Briefings.{contains}
use scufris.Control.Message.{
  AttachmentDescriptor, validate_attachment_descriptor, max_attachment_bytes, Checked,
}
use scufris.Attachments.{
  Record, Store, Host, invalid, io, quota, Answer, find_record, full, place, write_record,
  is_expired, expire_one, expire_all, expire, expired_ids,
}
use scufris.Attachments.Puts.{
  Putting, Asked, prepare, write_bounded, bounded, with_room, new_record, rename_object, finish,
  admit, put_prepared, put_reader, put, checked_descriptor,
}
use scufris.Attachments.Backed.{expire_one-find}
use scufris.Attachments.Outcomes.{write_record-cases, expire_all_missing}
use scufris.Attachments.Returned.{expire_all-AddsNothing}

expired_ids-contains :
    (now : ℕ) (b : String) (rs : List Record) (r : Record)
    → find_record b rs ≡ some r
    → is_expired now r ≡ true
    → contains b (expired_ids now rs) ≡ true
unfolding find_record expired_ids contains
expired_ids-contains now b [] r e old = cc
expired_ids-contains now b (q ∷ rs) r e old =
    ground (arith, expired_ids-contains now b rs r, eq_iff q.descriptor.id b)

expire_all-contains :
    (host : Host) (ids : List String) (b : String) (s : Store)
    → contains b ids ≡ true
    → find_record b (expire_all host ids s).index.records ≡ none
unfolding expire_all contains
expire_all-contains host [] b s c = cc
expire_all-contains host (id ∷ ids) b s c = elim (Bool-cases (id =ˢ b)) [
  | inl here ↦
      expire_all_missing host ids b (expire_one host id s)
        (ground (arith, expire_one-find host id b s))
  | inr there ↦ expire_all-contains host ids b (expire_one host id s) (ground arith)
]

-- Expiry leaves no record that is past its retention.
expire-unexpired :
    (host : Host) (now : ℕ) (s : Store) (b : String) (r : Record)
    → find_record b (expire host now s).index.records ≡ some r
    → is_expired now r ≡ false
unfolding expire
expire-unexpired host now s b r e =
    let ids = expired_ids now s.index.records in
    let held = expire_all-AddsNothing host ids s b r e in
    elim (Bool-cases (is_expired now r)) [
      | inl old ↦
          let gone =
            expire_all-contains host ids b s
              (expired_ids-contains now b s.index.records r held old) in
          absurd (ground arith)
      | inr young ↦ young
    ]

-- Where the answer is that the quota is used up: it is, by records that are within their retention.
abbrev pub IsSpace : Option ℕ → ℕ → Answer AttachmentDescriptor → Type 0
IsSpace now size (err quota, t) =
    (n : ℕ) × (now ≡ some n)
    × (full size t.index ≡ true)
    × ((b : String) (r : Record) → find_record b t.index.records ≡ some r → is_expired n r ≡ false)
IsSpace now size _ = Unit

with_room-unexpired :
    (host : Host) (size now : ℕ) (s : Store)
    → full size (with_room host size now s).index ≡ true
    → (b : String) (r : Record) → find_record b (with_room host size now s).index.records ≡ some r
    → is_expired now r ≡ false
unfolding with_room
with_room-unexpired host size now s h b r e = elim (Bool-cases (full size s.index)) [
  | inl is_full ↦ expire-unexpired host now s b r (ground arith)
  | inr room ↦ absurd (ground arith)
]

finish-IsSpace :
    (now : Option ℕ) (size : ℕ) (host : Host) (r : Record) (s : Store)
    → IsSpace now size (finish host r (write_record host r s))
unfolding finish
finish-IsSpace now size host r s = elim (write_record-cases host r s) [
  | inl (e, inl is_json, failed) ↦ rw (failed, is_json) tt
  | inl (e, inr is_io, failed) ↦ rw (failed, is_io) tt
  | inr (encoded, e, stored) ↦ rw stored tt
]

bounded-cases :
    (host : Host) (m : Putting) (copied : List ℕ) (size : ℕ)
    → (bounded host m copied size ≡ err (io host.io_reason))
      ⊎ (bounded host m copied size ≡ err (invalid "attachment bytes"))
      ⊎ (bounded host m copied size ≡ ok copied)
unfolding bounded
bounded-cases host m copied size = elim (Bool-cases (not m.creates || not m.copies)) [
  | inl fails ↦ inl (rw fails refl)
  | inr written ↦
      elim (Bool-cases (
        not (length copied == size)
        || length copied == 0
        || ltb max_attachment_bytes (length copied))) [
          | inl other ↦ inr (inl (rw (written, other) refl))
          | inr whole ↦ inr (inr (rw (written, whole) refl))
        ]
]

rename_object-IsSpace :
    (now : Option ℕ) (size : ℕ) (host : Host) (m : Putting) (r : Record) (copied : List ℕ)
    (s : Store)
    → IsSpace now size (rename_object host m r (bounded host m copied r.descriptor.size) s)
unfolding rename_object
rename_object-IsSpace now size host m r copied s =
    elim (bounded-cases host m copied r.descriptor.size) [
      | inl fails ↦ rw fails tt
      | inr (inl other) ↦ rw other tt
      | inr (inr whole) ↦ elim (Bool-cases m.renames) [
        | inl moves ↦
            rw (whole, moves)
              (finish-IsSpace now size host r
                (record s { objects = place r.descriptor.id copied s.objects }))
        | inr stays ↦ rw (whole, stays) tt
      ]
    ]

admit-IsSpace :
    (host : Host) (m : Putting) (content : List ℕ) (now : ℕ) (d : AttachmentDescriptor) (s : Store)
    → IsSpace (some now) d.size (admit host m content now d (with_room host d.size now s))
unfolding admit write_bounded
admit-IsSpace host m content now d s =
    let t = with_room host d.size now s in
    elim (Bool-cases (full d.size t.index)) [
      | inl is_full ↦ rw is_full (now, refl, is_full, with_room-unexpired host d.size now s is_full)
      | inr room ↦ rw room (
          rename_object-IsSpace (some now) d.size host m (new_record now d)
            (take (max_attachment_bytes + 1) content) t)
    ]

put_prepared-IsSpace :
    (host : Host) (m : Putting) (content : List ℕ) (asked : Asked) (now : Option ℕ)
    (id : Option String) (s : Store)
    → IsSpace now asked.size (put_prepared host m content (prepare now id asked) s)
unfolding put_prepared prepare
put_prepared-IsSpace host m content asked none id s = tt
put_prepared-IsSpace host m content asked (some now) none s = tt
put_prepared-IsSpace host m content asked (some now) (some id) s =
    let d : AttachmentDescriptor = record {
      id = id;
      name = asked.name;
      media_type = asked.media_type;
      size = asked.size;
    } in
    checked (validate_attachment_descriptor d)
  where
    checked :
        (c : Checked)
        → IsSpace (some now) asked.size (
            put_prepared host m content
              (◌>>=◌ {B = ℕ × AttachmentDescriptor}
                (checked_descriptor
                  (record {
                    id = id;
                    name = asked.name;
                    media_type = asked.media_type;
                    size = asked.size;
                  })
                  c)
                (λ d. ok (now, d)))
              s)
    checked (err e) = unfold checked_descriptor in tt
    checked (ok u) =
        unfold checked_descriptor in
        admit-IsSpace host m content now
          (record { id = id; name = asked.name; media_type = asked.media_type; size = asked.size })
          s

-- A put is refused for want of space only where the quota is used up by records that are all within
-- their retention, those past it having been removed.
pub put-IsSpace :
    (host : Host) (m : Putting) (name media_type : String) (bytes : List ℕ) (s : Store)
    → IsSpace m.now (length bytes) (put host m name media_type bytes s)
unfolding put put_reader
put-IsSpace host m name media_type bytes s = elim (Bool-cases (length bytes == 0)) [
  | inl empty ↦ rw empty tt
  | inr some_bytes ↦ elim (Bool-cases (ltb max_attachment_bytes (length bytes))) [
    | inl large ↦ rw (some_bytes, large) tt
    | inr fits ↦
        let asked : Asked = record { name = name; media_type = media_type; size = length bytes } in
        rw (some_bytes, fits) (put_prepared-IsSpace host m bytes asked m.now m.new_id s)
  ]
]
