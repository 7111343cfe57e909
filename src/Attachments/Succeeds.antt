-- ===== src/Attachments/Succeeds.antt =====
-- A put of host/service/src/attachment.rs where nothing fails.
use scufris.Base.{
  ==_iff, ℕ, ◌+◌, ◌≤◌, ◌<◌, true, false, some, List, length, take, ltb, ◌==◌, ◌≡◌, refl, arith,
}
use scufris.Base.Result.{ok}
use scufris.Control.Message.{
  AttachmentDescriptor, validate_attachment_descriptor, max_attachment_bytes,
}
use scufris.Attachments.{Store, Host, full, write_record}
use scufris.Attachments.Puts.{
  Putting, prepare, write_bounded, bounded, with_room, new_record, rename_object, finish, admit,
  put_prepared, put_reader, put, checked_descriptor,
}
use scufris.Attachments.Returned.{uncut}

-- What a put meets where nothing fails.
abbrev pub Works : Host → Putting → ℕ → AttachmentDescriptor → Type 0
Works host m now d =
    (m.now ≡ some now)
    × (m.new_id ≡ some d.id)
    × (m.creates ≡ true)
    × (m.copies ≡ true)
    × (m.renames ≡ true)
    × (host.writes d.id ≡ true)
    × ((encoded : List ℕ) × (host.to_vec (new_record now d) ≡ some encoded))

nonzero : (n : ℕ) → 0 < n → (n == 0) ≡ false
nonzero n h = ground arith

within : (m n : ℕ) → n ≤ m → ltb m n ≡ false
within m n h = ground arith

rename_object-Succeeds :
    (host : Host) (m : Putting) (now : ℕ) (d : AttachmentDescriptor) (copied : List ℕ) (s : Store)
    → Works host m now d
    → length copied ≡ d.size
    → 0 < d.size
    → d.size ≤ max_attachment_bytes
    → (rename_object host m (new_record now d) (bounded host m copied d.size) s).0 ≡ ok d
unfolding bounded rename_object finish write_record
rename_object-Succeeds host m now d copied s (n, i, c, p, v, w, (encoded, e)) sized some_bytes
      small =
    rw
      (
        c,
        p,
        sized,
        (==_iff d.size d.size).1 refl,
        nonzero d.size some_bytes,
        within max_attachment_bytes d.size small,
        v,
        e,
        w,
      )
      refl

admit-Succeeds :
    (host : Host) (m : Putting) (now : ℕ) (d : AttachmentDescriptor) (bytes : List ℕ) (s : Store)
    → Works host m now d
    → length bytes ≡ d.size
    → 0 < d.size
    → d.size ≤ max_attachment_bytes
    → full d.size s.index ≡ false
    → (admit host m bytes now d s).0 ≡ ok d
unfolding admit write_bounded
admit-Succeeds host m now d bytes s works sized some_bytes small room =
    let whole : take (max_attachment_bytes + 1) bytes ≡ bytes =
      uncut (max_attachment_bytes + 1) bytes (omega (arith, sized, small)) in
    rw (room, whole) (rename_object-Succeeds host m now d bytes s works sized some_bytes small)

-- A put of some bytes, within the bound of 16 MiB and under a descriptor that is valid, succeeds
-- where nothing fails and the quota has room for it once the expired records are removed.
pub put-Succeeds :
    (host : Host) (m : Putting) (now : ℕ) (d : AttachmentDescriptor) (bytes : List ℕ) (s : Store)
    → Works host m now d
    → validate_attachment_descriptor d ≡ ok tt
    → length bytes ≡ d.size
    → 0 < d.size
    → d.size ≤ max_attachment_bytes
    → full d.size (with_room host d.size now s).index ≡ false
    → (put host m d.name d.media_type bytes s).0 ≡ ok d
unfolding put put_reader prepare checked_descriptor put_prepared
put-Succeeds host m now d bytes s works valid sized some_bytes small room =
    rw
      (
        sized,
        nonzero d.size some_bytes,
        within max_attachment_bytes d.size small,
        works.0,
        works.1,
        valid,
      )
      (admit-Succeeds host m now d bytes (with_room host d.size now s) works sized some_bytes small
        room)
