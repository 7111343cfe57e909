-- ===== src/Attachments/Referred.antt =====
-- `resolve` of host/service/src/attachment.rs, and the store that it leaves.
use text.Mathlib.Text.{◌==◌ as ◌=ˢ◌}
use text.Mathlib.TextPositions.{eq_refl}
use scufris.Base.{
  ℕ, String, Bool, true, false, Option, none, some, List, [], ◌∷◌, ◌≡◌, ◌≢◌, ◌⊎◌, inl, inr, refl,
  arith, eq_iff, Option-cases, Bool-cases, ap, All,
}
use scufris.Base.Result.{ok, err}
use scufris.Control.Message.{AttachmentDescriptor}
use scufris.Attachments.{
  Record, Index, Store, Host, Folder, StoreError, not_found, Answer, place, record_name,
  find_record, insert_record,
}
use scufris.Attachments.Reads.{
  find_all, refer, refer_all, then_refer, resolve, index_reference, resolve_found, resolved,
}
use scufris.Attachments.Folders.{
  node_at-place, find-insert, find-remove, find-id, remove-Distinct, total-remove, total,
  length-remove-lt,
}
use scufris.Attachments.Indexed.{IsIndex}
use scufris.Attachments.Backed.{Backs, IsWhole, Backs-frame, other-name}
use scufris.Attachments.Outcomes.{ReadsBack, write_record-cases}

-- A record with the same descriptor is in the index.
abbrev pub Known : Store → Record → Type 0
Known s r =
    (q : Record) × (find_record r.descriptor.id s.index.records ≡ some q)
    × (q.descriptor ≡ r.descriptor)

abbrev pub marked : Record → Record
marked r = record r { referenced = true }

abbrev pub reindexed : Record → Index → Index
reindexed r index = record index { records = insert_record r index.records }

reindexed-IsIndex :
    (r q : Record) (index : Index)
    → find_record r.descriptor.id index.records ≡ some q
    → q.descriptor ≡ r.descriptor
    → IsIndex index
    → IsIndex (reindexed r index)
unfolding insert_record total
reindexed-IsIndex r q index e same v =
    let id = r.descriptor.id in
    let size : q.descriptor.size ≡ r.descriptor.size =
      ap (λ (d : AttachmentDescriptor). d.size) same in
    record {
      distinct = (
        ground (arith, find-remove id id index.records, eq_refl id),
        remove-Distinct id index.records v.distinct,
      );
      counted = omega (arith, total-remove id index.records q v.distinct e, v.counted, size);
      few = omega (arith, length-remove-lt id index.records q e, v.few);
      small = v.small;
    }

pub refer-cases :
    (host : Host) (r : Record) (s : Store)
    → ((e : StoreError) × (e ≢ not_found) × (refer host r s ≡ (err e, s)))
      ⊎ ((r.referenced ≡ true) × (refer host r s ≡ (ok tt, s)))
      ⊎ ((encoded : List ℕ) × (host.to_vec (marked r) ≡ some encoded)
          × (refer host r s ≡ (
            ok tt,
            record s {
              index = reindexed (marked r) s.index;
              metadata = place (record_name r.descriptor.id) encoded s.metadata;
            },
          )))
unfolding refer index_reference
refer-cases host r s = elim (Bool-cases r.referenced) [
  | inl already ↦ inr (inl (already, rw already refl))
  | inr new ↦ elim (write_record-cases host (marked r) s) [
    | inl (e, which, failed) ↦
        inl (e, (λ q. elim which [ inl a ↦ cc | inr b ↦ cc ]), rw (new, failed) refl)
    | inr (encoded, f, stored) ↦ inr (inr (encoded, f, rw (new, stored) refl))
  ]
]

reindexed-Known :
    (r p : Record) (s : Store) (metadata : Folder)
    → Known s p
    → Known s r
    → Known (record s { index = reindexed (marked r) s.index; metadata = metadata }) p
reindexed-Known r p s metadata (q, e, same) (q', e', same') =
    elim (Bool-cases (r.descriptor.id =ˢ p.descriptor.id)) [
      | inl here ↦ (
        marked r,
        ground (arith, find-insert p.descriptor.id (marked r) s.index.records),
        sh here,
      )
      | inr there ↦
          (q, ground (arith, find-insert p.descriptor.id (marked r) s.index.records), same)
    ]
  where
    sh : (r.descriptor.id =ˢ p.descriptor.id) ≡ true → r.descriptor ≡ p.descriptor
    sh here = ground (arith, eq_iff r.descriptor.id p.descriptor.id)

module _ (from_slice : List ℕ → Option Record) where
  reindexed-IsWhole :
      (r : Record) (encoded : List ℕ) (s : Store)
      → Known s r
      → from_slice encoded ≡ some (marked r)
      → IsWhole from_slice s
      → IsWhole from_slice (record s {
        index = reindexed (marked r) s.index;
        metadata = place (record_name r.descriptor.id) encoded s.metadata;
      })
  reindexed-IsWhole r encoded s (q, e, same) decodes v =
      let t : Store = record s {
        index = reindexed (marked r) s.index;
        metadata = place (record_name r.descriptor.id) encoded s.metadata;
      } in
      let id = r.descriptor.id in
      let b' : Backs from_slice s q = v.backed id q e in
      record {
        sound = reindexed-IsIndex (marked r) q s.index e same v.sound;
        backed = λ b p h. elim (Bool-cases (id =ˢ b)) [
          | inl here ↦
              let is_r : marked r ≡ p = ground (arith, find-insert b (marked r) s.index.records) in
              rw (← is_r) (record {
                content = b'.content;
                stored = rw (← same) b'.stored;
                sized = rw (← same) b'.sized;
                encoded = encoded;
                written = ground (
                  arith,
                  node_at-place (record_name id) (record_name id) encoded s.metadata,
                  eq_refl (record_name id),
                );
                decodes = decodes;
                valid = rw (← same) b'.valid;
              })
          | inr there ↦
              let held : find_record b s.index.records ≡ some p =
                ground (arith, find-insert b (marked r) s.index.records) in
              let name = find-id b s.index.records p held in
              let apart : (id =ˢ p.descriptor.id) ≡ false = rw name there in
              Backs-frame from_slice s t p refl
                (ground (
                  arith,
                  other-name id p.descriptor.id,
                  node_at-place (record_name id) (record_name p.descriptor.id) encoded s.metadata,
                ))
                (v.backed b p held)
        ];
      }

  refer-IsWhole :
      (host : Host) (r : Record) (s : Store)
      → ReadsBack from_slice host
      → Known s r
      → IsWhole from_slice s
      → IsWhole from_slice (refer host r s).1
  refer-IsWhole host r s back known v = elim (refer-cases host r s) [
    | inl (e, other, failed) ↦ rw failed v
    | inr (inl (already, same)) ↦ rw same v
    | inr (inr (encoded, f, stored)) ↦
        rw stored (reindexed-IsWhole r encoded s known (back (marked r) encoded f) v)
  ]

refer-Known :
    (host : Host) (r p : Record) (s : Store) → Known s r → Known s p → Known (refer host r s).1 p
refer-Known host r p s known h = elim (refer-cases host r s) [
  | inl (e, other, failed) ↦ rw failed h
  | inr (inl (already, same)) ↦ rw same h
  | inr (inr (encoded, f, stored)) ↦
      rw stored
        (reindexed-Known r p s (place (record_name r.descriptor.id) encoded s.metadata) h known)
]

refer-All :
    (host : Host) (r : Record) (rs : List Record) (s : Store)
    → Known s r
    → All (Known s) rs
    → All (Known (refer host r s).1) rs
refer-All host r [] s known h = tt
refer-All host r (p ∷ ps) s known (hp, hs) =
    (refer-Known host r p s known hp, refer-All host r ps s known hs)

pub find_all-cons :
    (id : String) (ids : List String) (records rs : List Record)
    → find_all (id ∷ ids) records ≡ some rs
    → (r : Record) × (tail : List Record) × (find_record id records ≡ some r)
      × (find_all ids records ≡ some tail)
      × (r ∷ tail ≡ rs)
unfolding find_all
find_all-cons id ids records rs h = elim (Option-cases (find_record id records)) [
  | inl missing ↦ absurd (ground arith)
  | inr (r, e) ↦ elim (Option-cases (find_all ids records)) [
    | inl missing ↦ absurd (ground arith)
    | inr (tail, f) ↦ (r, tail, e, f, ground arith)
  ]
]

find_all-Known :
    (ids : List String) (s : Store) (rs : List Record)
    → find_all ids s.index.records ≡ some rs
    → All (Known s) rs
unfolding find_all
find_all-Known [] s rs e = let same : [] ≡ rs = ground arith in rw (← same) tt
find_all-Known (id ∷ ids) s rs e =
    let (r, tail, f, g, same) = find_all-cons id ids s.index.records rs e in
    let name = find-id id s.index.records r f in
    rw (← same) ((r, rw name f, refl), find_all-Known ids s tail g)

pub then_refer-keeps :
    (P : Store → Type 0) (a : Answer (Unit {0})) (next : Store → Answer (Unit {0}))
    → P a.1
    → P (next a.1).1
    → P (then_refer a next).1
then_refer-keeps P (err e, s) next h k = h
then_refer-keeps P (ok u, s) next h k = k

module _ (from_slice : List ℕ → Option Record) where
  refer_all-IsWhole :
      (host : Host) (rs : List Record) (s : Store)
      → ReadsBack from_slice host
      → All (Known s) rs
      → IsWhole from_slice s
      → IsWhole from_slice (refer_all host rs s).1
  unfolding refer_all
  refer_all-IsWhole host [] s back known v = v
  refer_all-IsWhole host (r ∷ rs) s back (known, more) v =
      let a = refer host r s in
      let v' = refer-IsWhole from_slice host r s back known v in
      then_refer-keeps (IsWhole from_slice) a (refer_all host rs) v'
        (refer_all-IsWhole host rs a.1 back (refer-All host r rs s known more) v')

  resolve_found-IsWhole :
      (host : Host) (referenced : Bool) (o : Option (List Record)) (s : Store)
      → ReadsBack from_slice host
      → ((rs : List Record) → o ≡ some rs → All (Known s) rs)
      → IsWhole from_slice s
      → IsWhole from_slice (resolve_found host referenced o s).1
  unfolding resolve_found
  resolve_found-IsWhole host referenced none s back known v = v
  resolve_found-IsWhole host false (some rs) s back known v = v
  resolve_found-IsWhole host true (some rs) s back known v =
      resolved-IsWhole rs (refer_all host rs s) (refer_all-IsWhole host rs s back (known rs refl) v)
    where
      resolved-IsWhole :
          (rs : List Record) (a : Answer (Unit {0}))
          → IsWhole from_slice a.1
          → IsWhole from_slice (resolved rs a).1
      resolved-IsWhole rs (err e, s') v' = v'
      resolved-IsWhole rs (ok u, s') v' = v'

  pub resolve-IsWhole :
      (host : Host) (ids : List String) (referenced : Bool) (s : Store)
      → ReadsBack from_slice host
      → IsWhole from_slice s
      → IsWhole from_slice (resolve host ids referenced s).1
  unfolding resolve
  resolve-IsWhole host ids referenced s back v =
      resolve_found-IsWhole host referenced (find_all ids s.index.records) s back
        (find_all-Known ids s) v
