-- ===== src/Attachments/Reads.antt =====
-- host/service/src/attachment.rs: what is read out of the store, and what a start reads back,
-- `resolve`, `stat`, `read`, `read_record` and `load`. A link that leads
-- to a file does not stand in the directories.
use text.Mathlib.Text.{◌==◌ as ◌=ˢ◌}
use scufris.Base.{
  ℕ, String, Bool, true, false, ◌&&◌, ◌||◌, Option, none, some, List, [], ◌∷◌, map, length, ◌==◌,
  if◌then◌else◌,
}
use scufris.Base.Files.{Node, absent, irregular, unreadable, file}
use scufris.Base.Result.{Result, ok, err, ◌>>=◌}
use scufris.Control.Message.{AttachmentDescriptor, validate_attachment_descriptor, Checked}
use scufris.Briefings.{contains}
use scufris.Attachments.{
  Record, Index, StoreError, not_found, corrupt, clock, io, Folder, Store, Host, Answer, node_at,
  unlink, record_name, find_record, insert_record, full, is_expired, discard, write_record,
}
use scufris.Attachments.Puts.{indexed}

-- The first loop of `resolve`.
unfoldable pub find_all : List String → List Record → Option (List Record)
unfolding find_record
find_all [] records = some []
find_all (id ∷ ids) records = elim (find_record id records) [
  | none ↦ none
  | some r ↦ elim (find_all ids records) [ none ↦ none | some rs ↦ some (r ∷ rs) ]
]

unfoldable pub index_reference : Record → Answer (Unit {0}) → Answer (Unit {0})
unfolding insert_record
index_reference r (err e, s) = (err e, s)
index_reference r (ok u, s) =
    (ok tt, record s { index = record s.index { records = insert_record r s.index.records } })

-- One round of the second loop: the record is stored as referenced, then indexed so.
unfoldable pub refer : Host → Record → Store → Answer (Unit {0})
unfolding write_record index_reference
refer host r s =
    let r' = record r { referenced = true } in
    if r.referenced then (ok tt, s) else index_reference r' (write_record host r' s)

-- `?` after a round.
abbrev pub then_refer : Answer (Unit {0}) → (Store → Answer (Unit {0})) → Answer (Unit {0})
then_refer (err e, s) next = (err e, s)
then_refer (ok u, s) next = next s

unfoldable pub refer_all : Host → List Record → Store → Answer (Unit {0})
unfolding refer
refer_all host [] s = (ok tt, s)
refer_all host (r ∷ rs) s = then_refer (refer host r s) (refer_all host rs)

abbrev pub descriptors : List Record → List AttachmentDescriptor
descriptors = map (λ r. r.descriptor)

unfoldable pub resolved : List Record → Answer (Unit {0}) → Answer (List AttachmentDescriptor)
resolved rs (err e, s) = (err e, s)
resolved rs (ok u, s) = (ok (descriptors rs), s)

unfoldable pub resolve_found :
    Host → Bool → Option (List Record) → Store → Answer (List AttachmentDescriptor)
unfolding resolved refer_all
resolve_found host referenced none s = (err not_found, s)
resolve_found host true (some rs) s = resolved rs (refer_all host rs s)
resolve_found host false (some rs) s = (ok (descriptors rs), s)

unfoldable pub resolve : Host → List String → Bool → Store → Answer (List AttachmentDescriptor)
unfolding find_all resolve_found
resolve host ids referenced s = resolve_found host referenced (find_all ids s.index.records) s

described_found : Option Record → Result StoreError AttachmentDescriptor
described_found none = err not_found
described_found (some r) = ok r.descriptor

-- The part of `stat` and `read` that is under the lock.
unfoldable pub described : String → Index → Result StoreError AttachmentDescriptor
unfolding described_found find_record
described id index = described_found (find_record id index.records)

-- The rest of `stat`, of the object as it stands on disk.
stat_node : Host → AttachmentDescriptor → Node → Result StoreError AttachmentDescriptor
stat_node host d absent = err (io host.io_reason)
stat_node host d unreadable = err (io host.io_reason)
stat_node host d irregular = err corrupt
stat_node host d (file content) = if length content == d.size then ok d else err corrupt

unfoldable pub stat : Host → String → Index → Folder → Result StoreError AttachmentDescriptor
unfolding described stat_node node_at
stat host id index objects = do d ← described id index; stat_node host d (node_at id objects)

-- The rest of `read`. What is irregular here is no file, nor a link to one.
read_node : Host → AttachmentDescriptor → Node → Result StoreError (AttachmentDescriptor × List ℕ)
read_node host d (file content) = if length content == d.size then ok (d, content) else err corrupt
read_node host d _ = err (io host.io_reason)

unfoldable pub read :
    Host → String → Index → Folder → Result StoreError (AttachmentDescriptor × List ℕ)
unfolding described read_node node_at
read host id index objects = do d ← described id index; read_node host d (node_at id objects)

unfoldable pub decoded : Option Record → Result String Record
decoded none = err "unreadable metadata"
decoded (some r) = ok r

unfoldable pub read_metadata : Host → Node → Result String Record
unfolding decoded
read_metadata host (file encoded) = decoded (host.from_slice encoded)
read_metadata host unreadable = err "unreadable record"
read_metadata host _ = err "not a regular file"

unfoldable pub valid_descriptor : Record → Checked → Result String Record
valid_descriptor r (ok u) = ok r
valid_descriptor r (err e) = err "invalid descriptor"

unfoldable pub object_matches : Record → Node → Result String Record
object_matches r absent = err "missing object"
object_matches r unreadable = err "missing object"
object_matches r irregular = err "object does not match its record"
object_matches r (file content) =
    if length content == r.descriptor.size then ok r else err "object does not match its record"

-- `read_record`: the record of one metadata entry, or why it cannot be trusted.
unfoldable pub read_record : Host → Folder → String → Node → Result String Record
unfolding read_metadata valid_descriptor object_matches node_at validate_attachment_descriptor
read_record host objects name node = do
  r ← read_metadata host node
  r ← valid_descriptor r (validate_attachment_descriptor r.descriptor)
  r ← if record_name r.descriptor.id =ˢ name then ok r else err "misnamed record"
  object_matches r (node_at r.descriptor.id objects)

-- `starts_with('.')`.
unfoldable pub is_hidden : String → Bool
is_hidden String.[] = false
is_hidden (String.◌∷◌ c s) = String.◌∷◌ c String.[] =ˢ "."

-- The index so far, with the identifiers of the records that did not fit.
abbrev pub Loading : Type 0
Loading = Store × List String

abbrev pub drop_entry : Host → String → Store → Store
drop_entry host name s = record s {
  metadata = if host.keeps_record name then s.metadata else unlink name s.metadata;
}

unfoldable pub load_trusted : Host → ℕ → Record → Loading → Loading
unfolding is_expired discard full indexed
load_trusted host current r (s, unindexed) =
    if is_expired current r
    then (discard host r.descriptor.id s, unindexed)
    else if full r.descriptor.size s.index
    then (s, r.descriptor.id ∷ unindexed)
    else (record s { index = indexed r s.index }, unindexed)

unfoldable pub load_read : Host → ℕ → String → Result String Record → Loading → Loading
unfolding load_trusted unlink
load_read host current name (ok r) x = load_trusted host current r x
load_read host current name (err reason) (s, unindexed) = (drop_entry host name s, unindexed)

-- One round of the loop over the metadata, for an entry that is not hidden.
unfoldable pub load_shown : Host → ℕ → String → Node → Loading → Loading
unfolding read_record load_read
load_shown host current name node (s, unindexed) =
    load_read host current name (read_record host s.objects name node) (s, unindexed)

unfoldable pub load_entry : Host → ℕ → String → Node → Loading → Loading
unfolding is_hidden load_shown unlink
load_entry host current name node (s, unindexed) =
    if is_hidden name
    then (drop_entry host name s, unindexed)
    else load_shown host current name node (s, unindexed)

unfoldable pub load_entries : Host → ℕ → Folder → Loading → Loading
load_entries host current [] x = x
load_entries host current ((name, node) ∷ rest) x =
    load_entries host current rest (load_entry host current name node x)

unfoldable pub is_indexed : String → Option Record → Bool
is_indexed name none = false
is_indexed name (some r) = true

-- The objects with neither a record in the index nor one that did not fit are removed.
unfoldable pub sweep : Host → Index → List String → Folder → Folder → Folder
unfolding is_indexed find_record contains unlink
sweep host index unindexed [] objects = objects
sweep host index unindexed ((name, node) ∷ rest) objects = sweep host index unindexed rest (
    if is_indexed name (find_record name index.records)
      || contains name unindexed
      || host.keeps_object name
    then objects
    else unlink name objects)

unfoldable pub swept : Host → Loading → Store
unfolding sweep
swept host (s, unindexed) = record s { objects = sweep host s.index unindexed s.objects s.objects }

-- `load`, into an empty index, where the clock answers and the directories can be listed.
unfoldable pub loaded : Host → ℕ → Folder → Folder → Store
unfolding load_entries swept
loaded host current metadata objects = swept host (
    load_entries host current metadata (
      record { index = record { records = []; bytes = 0 }; objects = objects; metadata = metadata },
      [],
    ))

-- `AttachmentStore::open`, where the three directories are made private or are not.
unfoldable pub open_store :
    Host → Bool → Option ℕ → Bool → Folder → Folder → Result StoreError Store
unfolding loaded
open_store host makes none lists metadata objects =
    if makes then err clock else err (io host.io_reason)
open_store host makes (some current) lists metadata objects =
    if makes && lists then ok (loaded host current metadata objects) else err (io host.io_reason)
