-- ===== src/Attachments/Stored.antt =====
-- The store that the puts of host/service/src/attachment.rs leave, whatever they meet.
use text.Mathlib.Text.{◌==◌ as ◌=ˢ◌}
use text.Mathlib.TextPositions.{eq_refl}
use scufris.Base.{
  ℕ, String, false, Option, none, some, List, length, ltb, ◌==◌, ◌≡◌, inl, inr, refl, arith, eq_iff,
  Bool-cases, if◌then◌else◌,
}
use scufris.Base.Result.{Result, ok, err}
use scufris.Control.Message.{
  AttachmentDescriptor, validate_attachment_descriptor, max_attachment_bytes,
}
use scufris.Attachments.{
  Record, Store, Host, Folder, StoreError, node_at, unlink, place, record_name, find_record, full,
  write_record,
}
use scufris.Attachments.Puts.{
  Putting, Asked, Source, prepare, write_bounded, with_room, indexed, new_record, rename_object,
  admit, finish, put_prepared, put_reader, put, import_path, import_found, importable,
}
use scufris.Attachments.Folders.{node_at-unlink, node_at-place, find-insert, find-id}
use scufris.Attachments.Indexed.{indexed-IsIndex}
use scufris.Attachments.Backed.{IsWhole, Backs-frame, other-name, expire-IsWhole}
use scufris.Attachments.Outcomes.{
  ReadsBack, Fresh, with_room_missing, write_bounded-length, prepared, write_record-cases,
}

module _ (from_slice : List ℕ → Option Record) where
  with_room-IsWhole :
      (host : Host) (size now : ℕ) (s : Store)
      → IsWhole from_slice s
      → IsWhole from_slice (with_room host size now s)
  unfolding with_room
  with_room-IsWhole host size now s v = elim (Bool-cases (full size s.index)) [
    | inl is_full ↦ rw is_full (expire-IsWhole from_slice host now s v)
    | inr has_room ↦ rw has_room v
  ]

  -- Files under an identifier that is not in the index make no difference.
  outside-IsWhole :
      (id : String) (objects : Folder) (s : Store)
      → find_record id s.index.records ≡ none
      → ((b : String) → (id =ˢ b) ≡ false → node_at b objects ≡ node_at b s.objects)
      → IsWhole from_slice s
      → IsWhole from_slice (record s { objects = objects })
  outside-IsWhole id objects s fresh same v = record {
    sound = v.sound;
    backed = λ b r e.
        let name = find-id b s.index.records r e in
        let apart : (id =ˢ r.descriptor.id) ≡ false = ground (arith, eq_iff id r.descriptor.id) in
        Backs-frame from_slice s (record s { objects = objects }) r (same r.descriptor.id apart)
          refl (v.backed b r e);
  }

  stored-IsWhole :
      (r : Record) (content encoded : List ℕ) (s : Store)
      → find_record r.descriptor.id s.index.records ≡ none
      → full r.descriptor.size s.index ≡ false
      → validate_attachment_descriptor r.descriptor ≡ ok tt
      → length content ≡ r.descriptor.size
      → from_slice encoded ≡ some r
      → IsWhole from_slice s
      → IsWhole from_slice (record {
        index = indexed r s.index;
        objects = place r.descriptor.id content s.objects;
        metadata = place (record_name r.descriptor.id) encoded s.metadata;
      })
  unfolding indexed
  stored-IsWhole r content encoded s fresh room valid sized decodes v =
      let t : Store = record {
        index = indexed r s.index;
        objects = place r.descriptor.id content s.objects;
        metadata = place (record_name r.descriptor.id) encoded s.metadata;
      } in
      let id = r.descriptor.id in
      record {
        sound = indexed-IsIndex r s.index v.sound fresh room;
        backed = λ b q e. elim (Bool-cases (id =ˢ b)) [
          | inl here ↦
              let same : r ≡ q = ground (arith, find-insert b r s.index.records) in
              rw (← same) (record {
                content = content;
                stored = ground (arith, node_at-place id id content s.objects, eq_refl id);
                sized = sized;
                encoded = encoded;
                written = ground (
                  arith,
                  node_at-place (record_name id) (record_name id) encoded s.metadata,
                  eq_refl (record_name id),
                );
                decodes = decodes;
                valid = valid;
              })
          | inr there ↦
              let held : find_record b s.index.records ≡ some q =
                ground (arith, find-insert b r s.index.records) in
              let name = find-id b s.index.records q held in
              let apart : (id =ˢ q.descriptor.id) ≡ false = rw name there in
              Backs-frame from_slice s t q
                (ground (arith, node_at-place id q.descriptor.id content s.objects))
                (ground (
                  arith,
                  other-name id q.descriptor.id,
                  node_at-place (record_name id) (record_name q.descriptor.id) encoded s.metadata,
                ))
                (v.backed b q held)
        ];
      }

  finish-IsWhole :
      (host : Host) (r : Record) (content : List ℕ) (s : Store)
      → ReadsBack from_slice host
      → find_record r.descriptor.id s.index.records ≡ none
      → full r.descriptor.size s.index ≡ false
      → validate_attachment_descriptor r.descriptor ≡ ok tt
      → length content ≡ r.descriptor.size
      → IsWhole from_slice s
      → IsWhole from_slice
          (finish host r (
            write_record host r (record s { objects = place r.descriptor.id content s.objects }))).1
  unfolding finish
  finish-IsWhole host r content s back fresh room valid sized v =
      let id = r.descriptor.id in
      let t : Store = record s { objects = place id content s.objects } in
      elim (write_record-cases host r t) [
        | inl (e, other, failed) ↦ rw failed (
            outside-IsWhole id (if host.keeps_object id then t.objects else unlink id t.objects) s
              fresh
              (λ b apart.
                ground (arith, node_at-unlink id b t.objects, node_at-place id b content s.objects))
              v)
        | inr (encoded, e, stored) ↦
            rw stored
              (stored-IsWhole r content encoded s fresh room valid sized (back r encoded e) v)
      ]

  rename_object-IsWhole :
      (host : Host) (m : Putting) (r : Record) (o : Result StoreError (List ℕ)) (s : Store)
      → ReadsBack from_slice host
      → find_record r.descriptor.id s.index.records ≡ none
      → full r.descriptor.size s.index ≡ false
      → validate_attachment_descriptor r.descriptor ≡ ok tt
      → ((written : List ℕ) → o ≡ ok written → length written ≡ r.descriptor.size)
      → IsWhole from_slice s
      → IsWhole from_slice (rename_object host m r o s).1
  unfolding rename_object
  rename_object-IsWhole host m r (err e) s back fresh room valid sized v = v
  rename_object-IsWhole host m r (ok written) s back fresh room valid sized v =
      elim (Bool-cases m.renames) [
        | inl moves ↦
            rw moves (finish-IsWhole host r written s back fresh room valid (sized written refl) v)
        | inr stays ↦ rw stays v
      ]

  admit-IsWhole :
      (host : Host) (m : Putting) (content : List ℕ) (now : ℕ) (d : AttachmentDescriptor)
      (s : Store)
      → ReadsBack from_slice host
      → find_record d.id s.index.records ≡ none
      → validate_attachment_descriptor d ≡ ok tt
      → IsWhole from_slice s
      → IsWhole from_slice (admit host m content now d s).1
  unfolding admit
  admit-IsWhole host m content now d s back fresh valid v =
      elim (Bool-cases (full d.size s.index)) [
        | inl is_full ↦ rw is_full v
        | inr room ↦ rw room (
            rename_object-IsWhole host m (new_record now d) (write_bounded host m content d.size) s
              back fresh room valid
              (λ written e. (write_bounded-length host m content d.size written e).0) v)
      ]

  put_prepared-IsWhole :
      (host : Host) (m : Putting) (content : List ℕ)
      (p : Result StoreError (ℕ × AttachmentDescriptor)) (s : Store)
      → ReadsBack from_slice host
      → ((now : ℕ) (d : AttachmentDescriptor)
          → p ≡ ok (now, d)
          → (find_record d.id s.index.records ≡ none) × (validate_attachment_descriptor d ≡ ok tt))
      → IsWhole from_slice s
      → IsWhole from_slice (put_prepared host m content p s).1
  unfolding put_prepared
  put_prepared-IsWhole host m content (err e) s back good v = v
  put_prepared-IsWhole host m content (ok (now, d)) s back good v =
      let (fresh, valid) = good now d refl in
      admit-IsWhole host m content now d (with_room host d.size now s) back
        (with_room_missing host d.size now d.id s fresh) valid
        (with_room-IsWhole host d.size now s v)

  pub put_reader-IsWhole :
      (host : Host) (m : Putting) (asked : Asked) (content : List ℕ) (s : Store)
      → ReadsBack from_slice host
      → Fresh m.new_id s
      → IsWhole from_slice s
      → IsWhole from_slice (put_reader host m asked content s).1
  unfolding put_reader
  put_reader-IsWhole host m asked content s back fresh v =
      put_prepared-IsWhole host m content (prepare m.now m.new_id asked) s back
        (prepared m.now m.new_id asked s fresh) v

  pub put-IsWhole :
      (host : Host) (m : Putting) (name media_type : String) (bytes : List ℕ) (s : Store)
      → ReadsBack from_slice host
      → Fresh m.new_id s
      → IsWhole from_slice s
      → IsWhole from_slice (put host m name media_type bytes s).1
  unfolding put
  put-IsWhole host m name media_type bytes s back fresh v = elim (Bool-cases (length bytes == 0)) [
    | inl empty ↦ rw empty v
    | inr some_bytes ↦ elim (Bool-cases (ltb max_attachment_bytes (length bytes))) [
      | inl large ↦ rw (some_bytes, large) v
      | inr fits ↦
          rw (some_bytes, fits)
            (put_reader-IsWhole host m
              (record { name = name; media_type = media_type; size = length bytes }) bytes s back
              fresh v)
    ]
  ]

  import_found-IsWhole :
      (host : Host) (m : Putting) (media_type : String) (content : List ℕ)
      (o : Result StoreError (String × ℕ)) (s : Store)
      → ReadsBack from_slice host
      → Fresh m.new_id s
      → IsWhole from_slice s
      → IsWhole from_slice (import_found host m media_type content o s).1
  unfolding import_found
  import_found-IsWhole host m media_type content (err e) s back fresh v = v
  import_found-IsWhole host m media_type content (ok (name, size)) s back fresh v =
      put_reader-IsWhole host m (record { name = name; media_type = media_type; size = size })
        content s back fresh v

  pub import_path-IsWhole :
      (host : Host) (m : Putting) (source : Source) (media_type : String) (s : Store)
      → ReadsBack from_slice host
      → Fresh m.new_id s
      → IsWhole from_slice s
      → IsWhole from_slice (import_path host m source media_type s).1
  unfolding import_path
  import_path-IsWhole host m source media_type s back fresh v =
      import_found-IsWhole host m media_type source.content (importable host source) s back fresh v
