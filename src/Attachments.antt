-- ===== src/Attachments.antt =====
-- host/service/src/attachment.rs: the attachment store. The index is a list that holds an
-- identifier once, in place of a hash map, so that an order of iteration is the list's. A directory
-- is a list of names and of what stands at each. `serde_json`, and which calls the file system lets
-- through, are the parameter `Host`.
pub mod Puts
pub mod Reads
pub mod Ranges
pub mod Api
pub mod Folders
pub mod Indexed
pub mod Backed
pub mod Outcomes
pub mod Stored
pub mod Referred
pub mod Resolved
pub mod Trusted
pub mod Returned
pub mod Refused
pub mod Succeeds
pub mod Downloads
pub mod Lives
pub mod Listed
pub mod Starts
pub mod Served
mod Tests
use text.Mathlib.Text.{◌==◌ as ◌=ˢ◌}
use scufris.Base.{
  ℕ, ◌+◌, ◌-◌, ◌*◌, String, Bool, true, false, ◌||◌, Option, none, some, List, [], ◌∷◌, length, ltb,
  leb, if◌then◌else◌,
}
use scufris.Base.Text.{◌⋅◌}
use scufris.Base.Files.{Node, absent, file}
use scufris.Base.Result.{Result, ok, err}
use scufris.Control.Message.{AttachmentDescriptor}

abbrev pub max_objects : ℕ
max_objects = 512

abbrev pub max_total_bytes : ℕ
max_total_bytes = 256 * 1024 * 1024

abbrev pub unreferenced_retention : ℕ
unreferenced_retention = 24 * 60 * 60

abbrev pub referenced_retention : ℕ
referenced_retention = 30 * 24 * 60 * 60

pub record Record : Type 0 where
  pub descriptor : AttachmentDescriptor
  pub created_at : ℕ
  pub referenced : Bool

pub record Index : Type 0 where
  pub records : List Record
  pub bytes : ℕ

pub data StoreError : Type 0 where
  invalid : String → StoreError
  not_found too_large incomplete quota corrupt clock random : StoreError
  io : String → StoreError
  json : String → StoreError

-- A directory: its names, each once, and what stands there.
abbrev pub Folder : Type 0
Folder = List (String × Node)

unfoldable pub node_at : String → Folder → Node
node_at name [] = absent
node_at name ((other, node) ∷ rest) = if other =ˢ name then node else node_at name rest

-- `fs::remove_file`, where the file system lets it through.
unfoldable pub unlink : String → Folder → Folder
unlink name [] = []
unlink name ((other, node) ∷ rest) =
    if other =ˢ name then unlink name rest else (other, node) ∷ unlink name rest

-- A file is renamed into place, over what stood there.
unfoldable pub place : String → List ℕ → Folder → Folder
unfolding unlink
place name content folder = (name, file content) ∷ unlink name folder

-- `AttachmentStore`, without the paths of its directories.
pub record Store : Type 0 where
  pub index : Index
  pub objects : Folder
  pub metadata : Folder

-- What a call meets: the JSON library, which metadata writes go through, which removals of an object
-- or of a metadata file do not, and the texts of errors.
pub record Host : Type 0 where
  pub to_vec : Record → Option (List ℕ)
  pub from_slice : List ℕ → Option Record
  pub writes : String → Bool
  pub keeps_object : String → Bool
  pub keeps_record : String → Bool
  pub io_reason : String
  pub json_reason : String

-- `format!("{}.json", id)`.
abbrev pub record_name : String → String
record_name id = id ⋅ ".json"

-- `HashMap::get`, under the identifier of the descriptor.
unfoldable pub find_record : String → List Record → Option Record
find_record id [] = none
find_record id (r ∷ rest) = if r.descriptor.id =ˢ id then some r else find_record id rest

unfoldable pub remove_record : String → List Record → List Record
remove_record id [] = []
remove_record id (r ∷ rest) =
    if r.descriptor.id =ˢ id then remove_record id rest else r ∷ remove_record id rest

-- `HashMap::insert`.
unfoldable pub insert_record : Record → List Record → List Record
unfolding remove_record
insert_record r records = r ∷ remove_record r.descriptor.id records

-- The quota refuses `size` more bytes. The sum that does not fit a `u64` is above the quota too.
unfoldable pub full : ℕ → Index → Bool
full size index = leb max_objects (length index.records) || ltb max_total_bytes (index.bytes + size)

abbrev pub retention : Record → ℕ
retention r = if r.referenced then referenced_retention else unreferenced_retention

-- A record is past its retention; a creation in the future is not.
unfoldable pub is_expired : ℕ → Record → Bool
is_expired current r = ltb (retention r) (current - r.created_at)

unfoldable pub expired_ids : ℕ → List Record → List String
unfolding is_expired
expired_ids current [] = []
expired_ids current (r ∷ rest) =
    if is_expired current r
    then r.descriptor.id ∷ expired_ids current rest
    else expired_ids current rest

-- `discard`: metadata first. A removal that fails is passed over.
unfoldable pub discard : Host → String → Store → Store
unfolding unlink
discard host id s = record s {
  metadata =
      if host.keeps_record (record_name id) then s.metadata else unlink (record_name id) s.metadata;
  objects = if host.keeps_object id then s.objects else unlink id s.objects;
}

pub unindex : String → Option Record → Index → Index
unfolding remove_record
unindex id none index = index
unindex id (some r) index = record {
  records = remove_record id index.records;
  bytes = index.bytes - r.descriptor.size;
}

abbrev discard_found : Host → String → Option Record → Store → Store
discard_found host id none s = s
discard_found host id (some r) s = discard host id s

-- One round of the loop of `expire`.
unfoldable pub expire_one : Host → String → Store → Store
unfolding unindex find_record discard
expire_one host id s =
    let found = find_record id s.index.records in
    discard_found host id found (record s { index = unindex id found s.index })

unfoldable pub expire_all : Host → List String → Store → Store
expire_all host [] s = s
expire_all host (id ∷ ids) s = expire_all host ids (expire_one host id s)

unfoldable pub expire : Host → ℕ → Store → Store
unfolding expired_ids expire_all
expire host current s = expire_all host (expired_ids current s.index.records) s

-- What an operation answers, and the store it leaves.
abbrev pub Answer : Type 0 → Type 0
Answer A = Result StoreError A × Store

write_encoded : Host → String → Option (List ℕ) → Store → Answer (Unit {0})
unfolding place
write_encoded host id none s = (err (json host.json_reason), s)
write_encoded host id (some encoded) s =
    if host.writes id
    then (ok tt, record s { metadata = place (record_name id) encoded s.metadata })
    else (err (io host.io_reason), s)

-- `write_record`: beside its place and renamed, so that a failure leaves what was there.
unfoldable pub write_record : Host → Record → Store → Answer (Unit {0})
unfolding write_encoded
write_record host r s = write_encoded host r.descriptor.id (host.to_vec r) s
