-- ===== src/Attachments/Backed.antt =====
-- The directories of host/service/src/attachment.rs behind its index: the bytes and the metadata of a
-- record.
use text.Mathlib.Text.{◌==◌ as ◌=ˢ◌}
use scufris.Base.{
  ℕ, String, false, Option, none, some, List, [], ◌∷◌, length, ◌≡◌, inl, inr, refl, sym, arith,
  eq_iff, Option-cases, if◌then◌else◌, ◌∙◌,
}
use scufris.Base.Files.{file}
use scufris.Base.Result.{ok}
use scufris.Control.Message.{validate_attachment_descriptor}
use scufris.Attachments.{
  Record, Store, Host, node_at, record_name, find_record, discard, unindex, expired_ids, expire_one,
  expire_all, expire,
}
use scufris.Attachments.Folders.{record_name-injective, node_at-unlink, find-remove, find-id}
use scufris.Attachments.Indexed.{IsIndex, expire_one-index, expire_one-IsIndex}

-- The bytes of a record are on disk, and its metadata there decodes to it.
pub record Backs (from_slice : List ℕ → Option Record) (s : Store) (r : Record) : Type 0 where
  pub content : List ℕ
  pub stored : node_at r.descriptor.id s.objects ≡ file content
  pub sized : length content ≡ r.descriptor.size
  pub encoded : List ℕ
  pub written : node_at (record_name r.descriptor.id) s.metadata ≡ file encoded
  pub decodes : from_slice encoded ≡ some r
  pub valid : validate_attachment_descriptor r.descriptor ≡ ok tt

module _ (from_slice : List ℕ → Option Record) where
  pub record IsWhole (s : Store) : Type 0 where
    pub sound : IsIndex s.index
    pub backed :
        (b : String) (r : Record) → find_record b s.index.records ≡ some r → Backs from_slice s r

  pub Backs-frame :
      (s t : Store) (r : Record)
      → node_at r.descriptor.id t.objects ≡ node_at r.descriptor.id s.objects
      → node_at (record_name r.descriptor.id) t.metadata
        ≡ node_at (record_name r.descriptor.id) s.metadata
      → Backs from_slice s r
      → Backs from_slice t r
  Backs-frame s t r o m b = record {
    content = b.content;
    stored = o ∙ b.stored;
    sized = b.sized;
    encoded = b.encoded;
    written = m ∙ b.written;
    decodes = b.decodes;
    valid = b.valid;
  }

pub expire_one-find :
    (host : Host) (id b : String) (s : Store)
    → find_record b (expire_one host id s).index.records
      ≡ (if id =ˢ b then none else find_record b s.index.records)
unfolding unindex
expire_one-find host id b s = elim (Option-cases (find_record id s.index.records)) [
  | inl missing ↦ rw (expire_one-index host id s, missing) (ground (arith, eq_iff id b))
  | inr (r, e) ↦ rw (expire_one-index host id s, e) (find-remove id b s.index.records)
]

pub other-name : (a b : String) → (a =ˢ b) ≡ false → (record_name a =ˢ record_name b) ≡ false
other-name a b h =
    ground (arith, eq_iff a b, eq_iff (record_name a) (record_name b), record_name-injective a b)

pub discard-objects :
    (host : Host) (id b : String) (s : Store)
    → (id =ˢ b) ≡ false
    → node_at b (discard host id s).objects ≡ node_at b s.objects
unfolding discard
discard-objects host id b s h = ground (arith, node_at-unlink id b s.objects)

pub discard-metadata :
    (host : Host) (id b : String) (s : Store)
    → (id =ˢ b) ≡ false
    → node_at (record_name b) (discard host id s).metadata ≡ node_at (record_name b) s.metadata
unfolding discard
discard-metadata host id b s h =
    ground (arith, node_at-unlink (record_name id) (record_name b) s.metadata, other-name id b)

expire_one-objects :
    (host : Host) (id b : String) (s : Store)
    → (id =ˢ b) ≡ false
    → node_at b (expire_one host id s).objects ≡ node_at b s.objects
unfolding expire_one
expire_one-objects host id b s h = elim (Option-cases (find_record id s.index.records)) [
  | inl missing ↦ rw missing refl
  | inr (r, e) ↦
      rw e (discard-objects host id b (record s { index = unindex id (some r) s.index }) h)
]

expire_one-metadata :
    (host : Host) (id b : String) (s : Store)
    → (id =ˢ b) ≡ false
    → node_at (record_name b) (expire_one host id s).metadata ≡ node_at (record_name b) s.metadata
unfolding expire_one
expire_one-metadata host id b s h = elim (Option-cases (find_record id s.index.records)) [
  | inl missing ↦ rw missing refl
  | inr (r, e) ↦
      rw e (discard-metadata host id b (record s { index = unindex id (some r) s.index }) h)
]

module _ (from_slice : List ℕ → Option Record) where
  expire_one-IsWhole :
      (host : Host) (id : String) (s : Store)
      → IsWhole from_slice s
      → IsWhole from_slice (expire_one host id s)
  expire_one-IsWhole host id s v = record {
    sound = expire_one-IsIndex host id s v.sound;
    backed = λ b r e.
        let kept = sym (expire_one-find host id b s) ∙ e in
        let apart : (id =ˢ b) ≡ false = ground (arith, kept) in
        let held : find_record b s.index.records ≡ some r = ground (arith, kept) in
        let name = find-id b s.index.records r held in
        let apart' : (id =ˢ r.descriptor.id) ≡ false = rw name apart in
        Backs-frame from_slice s (expire_one host id s) r
          (expire_one-objects host id r.descriptor.id s apart')
          (expire_one-metadata host id r.descriptor.id s apart') (v.backed b r held);
  }

  expire_all-IsWhole :
      (host : Host) (ids : List String) (s : Store)
      → IsWhole from_slice s
      → IsWhole from_slice (expire_all host ids s)
  unfolding expire_all
  expire_all-IsWhole host [] s v = v
  expire_all-IsWhole host (id ∷ ids) s v =
      expire_all-IsWhole host ids (expire_one host id s) (expire_one-IsWhole host id s v)

  pub expire-IsWhole :
      (host : Host) (current : ℕ) (s : Store)
      → IsWhole from_slice s
      → IsWhole from_slice (expire host current s)
  unfolding expire
  expire-IsWhole host current s v =
      expire_all-IsWhole host (expired_ids current s.index.records) s v
