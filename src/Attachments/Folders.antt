-- ===== src/Attachments/Folders.antt =====
-- Laws of directories and of the index of host/service/src/attachment.rs, in the form of a test.
use text.Mathlib.Text.{◌==◌ as ◌=ˢ◌}
use text.Mathlib.TextLemmas.{append_cancel_right}
use scufris.Base.{
  ℕ, ◌+◌, ◌≤◌, String, none, some, List, [], ◌∷◌, length, ◌≡◌, refl, arith, eq_iff, if◌then◌else◌,
}
use scufris.Base.Files.{absent, file}
use scufris.Attachments.{
  Record, Folder, node_at, unlink, place, record_name, find_record, remove_record, insert_record,
}

pub record_name-injective : (a b : String) → record_name a ≡ record_name b → a ≡ b
record_name-injective a b = append_cancel_right a b ".json"

pub node_at-unlink :
    (a b : String) (folder : Folder)
    → node_at b (unlink a folder) ≡ (if a =ˢ b then absent else node_at b folder)
unfolding node_at unlink
node_at-unlink a b [] = ground arith
node_at-unlink a b ((other, node) ∷ rest) =
    ground (arith, eq_iff a b, eq_iff other a, eq_iff other b, node_at-unlink a b rest)

pub node_at-place :
    (a b : String) (content : List ℕ) (folder : Folder)
    → node_at b (place a content folder) ≡ (if a =ˢ b then file content else node_at b folder)
unfolding node_at place
node_at-place a b content folder = ground (arith, node_at-unlink a b folder)

pub find-remove :
    (a b : String) (rs : List Record)
    → find_record b (remove_record a rs) ≡ (if a =ˢ b then none else find_record b rs)
unfolding find_record remove_record
find-remove a b [] = ground arith
find-remove a b (r ∷ rs) =
    ground
      (arith, eq_iff a b, eq_iff r.descriptor.id a, eq_iff r.descriptor.id b, find-remove a b rs)

pub find-insert :
    (b : String) (r : Record) (rs : List Record)
    → find_record b (insert_record r rs)
      ≡ (if r.descriptor.id =ˢ b then some r else find_record b rs)
unfolding find_record insert_record
find-insert b r rs = ground (arith, find-remove r.descriptor.id b rs)

-- A record is found under its own identifier.
pub find-id :
    (a : String) (rs : List Record) (r : Record) → find_record a rs ≡ some r → r.descriptor.id ≡ a
unfolding find_record
find-id a [] q h = cc
find-id a (r ∷ rs) q h = ground (arith, eq_iff r.descriptor.id a, find-id a rs q)

-- The bytes that the records promise.
unfoldable pub total : List Record → ℕ
total [] = 0
total (r ∷ rs) = r.descriptor.size + total rs

-- No identifier stands twice.
abbrev pub Distinct : List Record → Type 0
Distinct [] = Unit
Distinct (r ∷ rs) = (find_record r.descriptor.id rs ≡ none) × Distinct rs

pub remove_missing :
    (a : String) (rs : List Record) → find_record a rs ≡ none → remove_record a rs ≡ rs
unfolding find_record remove_record
remove_missing a [] h = refl
remove_missing a (r ∷ rs) h = ground (arith, remove_missing a rs)

pub remove-Distinct : (a : String) (rs : List Record) → Distinct rs → Distinct (remove_record a rs)
unfolding remove_record
remove-Distinct a [] h = tt
remove-Distinct a (r ∷ rs) h = ground (
  arith,
  find-remove a r.descriptor.id rs,
  eq_iff a r.descriptor.id,
  eq_iff r.descriptor.id a,
  remove-Distinct a rs,
)

pub total-remove :
    (a : String) (rs : List Record) (r : Record)
    → Distinct rs
    → find_record a rs ≡ some r
    → total (remove_record a rs) + r.descriptor.size ≡ total rs
unfolding find_record remove_record total
total-remove a [] q d h = cc
total-remove a (r ∷ rs) q d h =
    ground (arith, eq_iff r.descriptor.id a, remove_missing a rs, total-remove a rs q)

pub length-remove : (a : String) (rs : List Record) → length (remove_record a rs) ≤ length rs
unfolding remove_record
length-remove a [] = omega arith
length-remove a (r ∷ rs) = ground (arith, length-remove a rs)

-- Where a record is found, its removal makes room for one.
pub length-remove-lt :
    (a : String) (rs : List Record) (r : Record)
    → find_record a rs ≡ some r
    → length (remove_record a rs) + 1 ≤ length rs
unfolding find_record remove_record
length-remove-lt a [] q h = cc
length-remove-lt a (r ∷ rs) q h = ground (arith, length-remove a rs, length-remove-lt a rs q)
