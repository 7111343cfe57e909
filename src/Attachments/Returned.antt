-- ===== src/Attachments/Returned.antt =====
-- A put of host/service/src/attachment.rs, and the reading of what it stored.
use text.Mathlib.Text.{◌==◌ as ◌=ˢ◌}
use text.Mathlib.TextPositions.{eq_refl}
use scufris.Base.{
  ℕ, ◌+◌, ◌≤◌, String, true, some, List, [], ◌∷◌, sym, length, take, drop, length-drop,
  take-append-drop, append-nil, ◌∙◌, ◌++◌, ltb, ◌==◌, ◌≡◌, ◌⊎◌, inl, inr, refl, arith, eq_iff,
  Bool-cases, ap,
}
use scufris.Base.Files.{file}
use scufris.Base.Result.{Result, ok, err}
use scufris.Control.Message.{AttachmentDescriptor, max_attachment_bytes}
use scufris.Attachments.{
  Record, Store, Host, StoreError, Answer, node_at, find_record, full, place, write_record,
  expire_one, expire_all, expire, expired_ids,
}
use scufris.Attachments.Puts.{
  Putting, Asked, prepare, write_bounded, with_room, indexed, new_record, rename_object, finish,
  admit, put_prepared, put_reader, put,
}
use scufris.Attachments.Reads.{read, described}
use scufris.Attachments.Folders.{find-insert, node_at-place}
use scufris.Attachments.Backed.{expire_one-find}
use scufris.Attachments.Outcomes.{write_bounded-length, write_record-cases}

-- Nothing is in the index that was not there before.
abbrev pub AddsNothing : Store → Store → Type 0
AddsNothing s t =
    (b : String) (r : Record)
    → find_record b t.index.records ≡ some r
    → find_record b s.index.records ≡ some r

-- After a put that succeeds the content is read back under the descriptor that it answers, and no
-- other record is new; after one that does not, none is.
abbrev pub IsPut : Host → List ℕ → Store → Answer AttachmentDescriptor → Type 0
IsPut host content s (err e, t) = AddsNothing s t
IsPut host content s (ok d, t) =
    (read host d.id t.index t.objects ≡ ok (d, content))
    × ((b : String) (r : Record)
        → find_record b t.index.records ≡ some r
        → (b ≡ d.id) ⊎ (find_record b s.index.records ≡ some r))

nil_of_length : (bytes : List ℕ) → length bytes ≡ 0 → bytes ≡ []
nil_of_length [] e = refl
nil_of_length (b ∷ bytes) e = absurd (omega arith)

-- A reader that is cut above its bytes gives them all.
pub uncut : (bound : ℕ) (bytes : List ℕ) → length bytes ≤ bound → take bound bytes ≡ bytes
uncut bound bytes small =
    let rest = nil_of_length (drop bound bytes) (omega (arith, length-drop bound bytes)) in
    sym (append-nil (take bound bytes))
    ∙ ap (λ (tail : List ℕ). take bound bytes ++ tail) (sym rest)
    ∙ take-append-drop bound bytes

pub expire_all-AddsNothing :
    (host : Host) (ids : List String) (s : Store) → AddsNothing s (expire_all host ids s)
unfolding expire_all
expire_all-AddsNothing host [] s b r e = e
expire_all-AddsNothing host (id ∷ ids) s b r e =
    let held = expire_all-AddsNothing host ids (expire_one host id s) b r e in
    ground (arith, expire_one-find host id b s)

with_room-AddsNothing :
    (host : Host) (size now : ℕ) (s : Store) → AddsNothing s (with_room host size now s)
unfolding with_room expire
with_room-AddsNothing host size now s b r e = elim (Bool-cases (full size s.index)) [
  | inl is_full ↦ expire_all-AddsNothing host (expired_ids now s.index.records) s b r (ground arith)
  | inr has_room ↦ ground arith
]

IsPut-AddsNothing :
    (host : Host) (content : List ℕ) (s t : Store) (a : Answer AttachmentDescriptor)
    → AddsNothing s t
    → IsPut host content t a
    → IsPut host content s a
IsPut-AddsNothing host content s t (err e, u) h p = λ b r e. h b r (p b r e)
IsPut-AddsNothing host content s t (ok d, u) h (back, p) =
    (back, λ b r e. elim (p b r e) [ inl same ↦ inl same | inr held ↦ inr (h b r held) ])

finish-IsPut :
    (host : Host) (r : Record) (content : List ℕ) (s : Store)
    → length content ≡ r.descriptor.size
    → IsPut host content s (
        finish host r
          (write_record host r (record s { objects = place r.descriptor.id content s.objects })))
unfolding finish indexed read described
finish-IsPut host r content s sized =
    let id = r.descriptor.id in
    let t : Store = record s { objects = place id content s.objects } in
    elim (write_record-cases host r t) [
      | inl (e, other, failed) ↦ rw failed (λ b q e. e)
      | inr (encoded, e, stored) ↦
          let found : find_record id (indexed r s.index).records ≡ some r =
            ground (arith, find-insert id r s.index.records, eq_refl id) in
          let at : node_at id t.objects ≡ file content =
            ground (arith, node_at-place id id content s.objects, eq_refl id) in
          let fits : (length content == r.descriptor.size) ≡ true = ground arith in
          rw stored (
            rw (found, at, fits) refl,
            λ b q e. elim (Bool-cases (id =ˢ b)) [
              | inl here ↦ inl (ground (arith, eq_iff id b))
              | inr there ↦ inr (ground (arith, find-insert b r s.index.records))
            ],
          )
    ]

rename_object-IsPut :
    (host : Host) (m : Putting) (r : Record) (content : List ℕ) (o : Result StoreError (List ℕ))
    (s : Store)
    → ((written : List ℕ)
        → o ≡ ok written
        → (length written ≡ r.descriptor.size) × (written ≡ content))
    → IsPut host content s (rename_object host m r o s)
unfolding rename_object
rename_object-IsPut host m r content (err e) s w = λ b q e. e
rename_object-IsPut host m r content (ok written) s w = elim (Bool-cases m.renames) [
  | inl moves ↦
      let (sized, same) = w written refl in
      rw moves (rw (← same) (finish-IsPut host r written s sized))
  | inr stays ↦ rw stays (λ b q e. e)
]

put_prepared-IsPut :
    (host : Host) (m : Putting) (content : List ℕ)
    (p : Result StoreError (ℕ × AttachmentDescriptor)) (s : Store)
    → IsPut host (take (max_attachment_bytes + 1) content) s (put_prepared host m content p s)
unfolding put_prepared admit
put_prepared-IsPut host m content (err e) s = λ b q e. e
put_prepared-IsPut host m content (ok (now, d)) s =
    let t = with_room host d.size now s in
    IsPut-AddsNothing host (take (max_attachment_bytes + 1) content) s t
      (admit host m content now d t) (with_room-AddsNothing host d.size now s)
      (elim (Bool-cases (full d.size t.index)) [
        | inl is_full ↦ rw is_full (λ b q e. e)
        | inr room ↦ rw room (
            rename_object-IsPut host m (new_record now d) (take (max_attachment_bytes + 1) content)
              (write_bounded host m content d.size) t (write_bounded-length host m content d.size))
      ])

-- A put that succeeds has its bytes read back whole under the descriptor that it answers, and adds
-- no other attachment; a put that fails, for whatever reason, adds none.
pub put-IsPut :
    (host : Host) (m : Putting) (name media_type : String) (bytes : List ℕ) (s : Store)
    → IsPut host bytes s (put host m name media_type bytes s)
unfolding put put_reader
put-IsPut host m name media_type bytes s = elim (Bool-cases (length bytes == 0)) [
  | inl empty ↦ rw empty (λ b q e. e)
  | inr some_bytes ↦ elim (Bool-cases (ltb max_attachment_bytes (length bytes))) [
    | inl large ↦ rw (some_bytes, large) (λ b q e. e)
    | inr fits ↦
        let whole : take (max_attachment_bytes + 1) bytes ≡ bytes =
          uncut (max_attachment_bytes + 1) bytes (ground arith) in
        let asked : Asked = record { name = name; media_type = media_type; size = length bytes } in
        rw (some_bytes, fits)
          (rw whole at (put_prepared-IsPut host m bytes (prepare m.now m.new_id asked) s))
  ]
]
