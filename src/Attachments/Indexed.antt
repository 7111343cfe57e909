-- ===== src/Attachments/Indexed.antt =====
-- The invariant of the index of host/service/src/attachment.rs: its identifiers, its bytes, and the
-- quota.
use scufris.Base.{◌≤◌, String, false, Option, none, some, [], length, ◌≡◌, refl, arith}
use scufris.Attachments.{
  Record, Index, Store, Host, max_objects, max_total_bytes, find_record, insert_record, full,
  unindex, discard, expire_one,
}
use scufris.Attachments.Puts.{indexed}
use scufris.Attachments.Folders.{
  total, Distinct, remove_missing, remove-Distinct, total-remove, length-remove,
}

pub record IsIndex (index : Index) : Type 0 where
  pub distinct : Distinct index.records
  pub counted : index.bytes ≡ total index.records
  pub few : length index.records ≤ max_objects
  pub small : index.bytes ≤ max_total_bytes

pub empty-IsIndex : IsIndex (record { records = []; bytes = 0 })
unfolding total
empty-IsIndex = record { distinct = tt; counted = refl; few = omega arith; small = omega arith }

pub indexed-IsIndex :
    (r : Record) (index : Index)
    → IsIndex index
    → find_record r.descriptor.id index.records ≡ none
    → full r.descriptor.size index ≡ false
    → IsIndex (indexed r index)
unfolding indexed full insert_record total
indexed-IsIndex r index v fresh room =
    rw (remove_missing r.descriptor.id index.records fresh) (record {
      distinct = (fresh, v.distinct);
      counted = omega (arith, v.counted);
      few = ground arith;
      small = ground arith;
    })

unindex-IsIndex :
    (id : String) (o : Option Record) (index : Index)
    → IsIndex index
    → find_record id index.records ≡ o
    → IsIndex (unindex id o index)
unfolding unindex
unindex-IsIndex id none index v e = v
unindex-IsIndex id (some r) index v e =
    let sum = total-remove id index.records r v.distinct e in
    record {
      distinct = remove-Distinct id index.records v.distinct;
      counted = omega (arith, sum, v.counted);
      few = omega (arith, length-remove id index.records, v.few);
      small = omega (arith, v.small);
    }

pub expire_one-index :
    (host : Host) (id : String) (s : Store)
    → (expire_one host id s).index ≡ unindex id (find_record id s.index.records) s.index
unfolding expire_one discard
expire_one-index host id s = ground arith

pub expire_one-IsIndex :
    (host : Host) (id : String) (s : Store) → IsIndex s.index → IsIndex (expire_one host id s).index
expire_one-IsIndex host id s v =
    rw (expire_one-index host id s)
      (unindex-IsIndex id (find_record id s.index.records) s.index v refl)
