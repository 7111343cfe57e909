-- ===== src/Attachments/Puts.antt =====
-- host/service/src/attachment.rs: the operations that put bytes into the store, `put`, `import` and
-- `put_reader`.
use scufris.Base.{
  ℕ, ◌+◌, String, Bool, false, not, ◌&&◌, ◌||◌, Option, none, some, List, length, take, ltb, ◌==◌,
  if◌then◌else◌,
}
use scufris.Base.Result.{Result, ok, err, ◌>>=◌}
use scufris.Control.Message.{
  AttachmentDescriptor, validate_attachment_descriptor, max_attachment_bytes, Checked,
}
use scufris.Attachments.{
  Record, Index, StoreError, invalid, too_large, quota, clock, random, io, Store, Host, Answer,
  full, expire, place, unlink, insert_record, write_record,
}

-- What one call of `put_reader` meets: the clock, the random source, whether the object's file can
-- be created and written, and whether it is renamed into place.
pub record Putting : Type 0 where
  pub now : Option ℕ
  pub new_id : Option String
  pub creates : Bool
  pub copies : Bool
  pub renames : Bool

-- What a caller asks for.
pub record Asked : Type 0 where
  pub name : String
  pub media_type : String
  pub size : ℕ

unfoldable pub checked_descriptor :
    AttachmentDescriptor → Checked → Result StoreError AttachmentDescriptor
checked_descriptor d (ok u) = ok d
checked_descriptor d (err e) = err (invalid "attachment descriptor")

-- The clock, the identifier and the check of the descriptor, in this order.
unfoldable pub prepare :
    Option ℕ → Option String → Asked → Result StoreError (ℕ × AttachmentDescriptor)
unfolding checked_descriptor validate_attachment_descriptor
prepare none id asked = err clock
prepare (some now) none asked = err random
prepare (some now) (some id) asked =
    let d : AttachmentDescriptor = record {
      id = id;
      name = asked.name;
      media_type = asked.media_type;
      size = asked.size;
    } in
    checked_descriptor d (validate_attachment_descriptor d) >>= λ d. ok (now, d)

-- What the copying into the new file comes to.
unfoldable pub bounded : Host → Putting → List ℕ → ℕ → Result StoreError (List ℕ)
bounded host m copied expected =
    if not m.creates || not m.copies
    then err (io host.io_reason)
    else if not (length copied == expected)
        || length copied == 0
        || ltb max_attachment_bytes (length copied)
    then err (invalid "attachment bytes")
    else ok copied

-- `write_bounded`, with what it leaves in the file: the reader is cut one byte above the bound.
unfoldable pub write_bounded : Host → Putting → List ℕ → ℕ → Result StoreError (List ℕ)
unfolding bounded
write_bounded host m content expected =
    bounded host m (take (max_attachment_bytes + 1) content) expected

-- Expiry runs only where the quota would refuse.
unfoldable pub with_room : Host → ℕ → ℕ → Store → Store
unfolding full expire
with_room host size now s = if full size s.index then expire host now s else s

-- `index.bytes += size` and the insertion.
unfoldable pub indexed : Record → Index → Index
unfolding insert_record
indexed r index = record {
  records = insert_record r index.records;
  bytes = index.bytes + r.descriptor.size;
}

unfoldable pub finish : Host → Record → Answer (Unit {0}) → Answer AttachmentDescriptor
unfolding unlink indexed
finish host r (ok u, s) = (ok r.descriptor, record s { index = indexed r s.index })
finish host r (err e, s) =
    let id = r.descriptor.id in
    (err e, record s { objects = if host.keeps_object id then s.objects else unlink id s.objects })

unfoldable pub rename_object :
    Host → Putting → Record → Result StoreError (List ℕ) → Store → Answer AttachmentDescriptor
unfolding place finish write_record
rename_object host m r (err e) s = (err e, s)
rename_object host m r (ok written) s =
    if m.renames
    then finish host r
        (write_record host r (record s { objects = place r.descriptor.id written s.objects }))
    else (err (io host.io_reason), s)

-- The new record, unreferenced, under the descriptor that was checked.
abbrev pub new_record : ℕ → AttachmentDescriptor → Record
new_record now d = record { descriptor = d; created_at = now; referenced = false }

unfoldable pub admit :
    Host → Putting → List ℕ → ℕ → AttachmentDescriptor → Store → Answer AttachmentDescriptor
unfolding full write_bounded rename_object
admit host m content now d s =
    if full d.size s.index
    then (err quota, s)
    else rename_object host m (new_record now d) (write_bounded host m content d.size) s

unfoldable pub put_prepared :
    Host
    → Putting
    → List ℕ
    → Result StoreError (ℕ × AttachmentDescriptor)
    → Store
    → Answer AttachmentDescriptor
unfolding with_room admit
put_prepared host m content (err e) s = (err e, s)
put_prepared host m content (ok (now, d)) s =
    admit host m content now d (with_room host d.size now s)

unfoldable pub put_reader : Host → Putting → Asked → List ℕ → Store → Answer AttachmentDescriptor
unfolding prepare put_prepared
put_reader host m asked content s = put_prepared host m content (prepare m.now m.new_id asked) s

unfoldable pub put : Host → Putting → String → String → List ℕ → Store → Answer AttachmentDescriptor
unfolding put_reader
put host m name media_type bytes s =
    if length bytes == 0
    then (err (invalid "attachment bytes"), s)
    else if ltb max_attachment_bytes (length bytes)
    then (err too_large, s)
    else put_reader host m (record { name = name; media_type = media_type; size = length bytes })
        bytes s

-- What `symlink_metadata` says of a path, or `File::metadata` of a file that is open.
pub record FileMeta : Type 0 where
  pub is_regular : Bool
  pub len : ℕ
  pub dev : ℕ
  pub ino : ℕ

-- A path that is to be imported, and what the file system says of it: `symlink_metadata`, a name
-- that is text, the metadata after it was opened, and what reading it gives.
pub record Source : Type 0 where
  pub is_absolute : Bool
  pub stat : Option FileMeta
  pub file_name : Option String
  pub opened : Option FileMeta
  pub content : List ℕ

same_file : FileMeta → FileMeta → Bool
same_file seen now =
    now.is_regular && now.dev == seen.dev && now.ino == seen.ino && now.len == seen.len

-- The checks of `import`, in their order: the name of the file and its length.
found : Host → Source → FileMeta → Result StoreError (String × ℕ)
unfolding same_file
found host source seen =
    if not seen.is_regular
    then err (invalid "attachment path")
    else if seen.len == 0
    then err (invalid "attachment bytes")
    else if ltb max_attachment_bytes seen.len
    then err too_large
    else elim source.file_name [
      | none ↦ err (invalid "attachment name")
      | some name ↦ elim source.opened [
        | none ↦ err (io host.io_reason)
        | some now ↦
            if same_file seen now then ok (name, now.len) else err (invalid "attachment path")
      ]
    ]

unfoldable pub importable : Host → Source → Result StoreError (String × ℕ)
unfolding found
importable host source =
    if source.is_absolute
    then elim source.stat [ none ↦ err (io host.io_reason) | some seen ↦ found host source seen ]
    else err (invalid "attachment path")

unfoldable pub import_found :
    Host
    → Putting
    → String
    → List ℕ
    → Result StoreError (String × ℕ)
    → Store
    → Answer AttachmentDescriptor
unfolding put_reader
import_found host m media_type content (err e) s = (err e, s)
import_found host m media_type content (ok (name, size)) s =
    put_reader host m (record { name = name; media_type = media_type; size = size }) content s

unfoldable pub import_path : Host → Putting → Source → String → Store → Answer AttachmentDescriptor
unfolding importable import_found
import_path host m source media_type s =
    import_found host m media_type source.content (importable host source) s
