-- ===== src/Attachments/Served.antt =====
-- The reading of attachments after a life of the store of host/service/src/attachment.rs.
use text.Mathlib.Text.{◌==◌ as ◌=ˢ◌}
use text.Mathlib.TextPositions.{eq_refl}
use scufris.Base.{==_iff, ℕ, String, true, some, List, length, ◌≡◌, refl, sym, ◌∙◌, ap}
use scufris.Base.Files.{file}
use scufris.Base.Result.{ok}
use scufris.Attachments.{Record, Store, Host, Folder, node_at, record_name, find_record}
use scufris.Attachments.Reads.{stat, read, read_record, described, loaded}
use scufris.Attachments.Backed.{IsWhole}
use scufris.Attachments.Folders.{find-id}
use scufris.Attachments.Indexed.{IsIndex}
use scufris.Attachments.Lives.{Call, run, Documented, run-IsWhole}
use scufris.Attachments.Listed.{IsListing}
use scufris.Attachments.Starts.{loaded-IsWhole}

-- A record in the index is answered with as many bytes as it promises, and the next start trusts it.
abbrev pub Serves : Host → Store → String → Record → Type 0
Serves host s id r =
    (content : List ℕ) × (read host id s.index s.objects ≡ ok (r.descriptor, content))
    × (length content ≡ r.descriptor.size)
    × (stat host id s.index s.objects ≡ ok r.descriptor)
    × (read_record host s.objects (record_name id) (node_at (record_name id) s.metadata) ≡ ok r)

pub IsWhole-Serves :
    (host : Host) (s : Store) (id : String) (r : Record)
    → IsWhole host.from_slice s
    → find_record id s.index.records ≡ some r
    → Serves host s id r
unfolding read stat described read_record
IsWhole-Serves host s id r v e =
    let b = v.backed id r e in
    let name = find-id id s.index.records r e in
    let at : node_at id s.objects ≡ file b.content =
      sym (ap (λ (i : String). node_at i s.objects) name) ∙ b.stored in
    let meta : node_at (record_name id) s.metadata ≡ file b.encoded =
      sym (ap (λ (i : String). node_at (record_name i) s.metadata) name) ∙ b.written in
    let same : (record_name r.descriptor.id =ˢ record_name id) ≡ true =
      ap (λ (i : String). record_name r.descriptor.id =ˢ record_name i) (sym name)
      ∙ eq_refl (record_name r.descriptor.id) in
    let fits = (==_iff (length b.content) r.descriptor.size).1 b.sized in
    (
      b.content,
      rw (e, at, fits) refl,
      b.sized,
      rw (e, at, fits) refl,
      rw (meta, b.decodes, b.valid, same, b.stored, fits) refl,
    )

module _ (host : Host) (current : ℕ) (metadata objects : Folder) (cs : List (Host × Call)) where
  abbrev lived : Store
  lived = run cs (loaded host current metadata objects)

  -- From a start on any directories, through any puts, imports and resolutions, whatever they meet:
  -- the records of the index have different identifiers and are at most 512, and its bytes are the
  -- sum of theirs, at most 256 MiB; if a directory lists each name once, an identifier that is in
  -- use is not drawn, and the JSON library reads back what it wrote.
  pub run-IsIndex :
      IsListing metadata
      → Documented host.from_slice cs (loaded host current metadata objects)
      → IsIndex lived.index
  run-IsIndex listing g =
      (run-IsWhole host.from_slice cs (loaded host current metadata objects) g
        (loaded-IsWhole host current metadata objects listing)).sound

  -- From a start on any directories, through any puts, imports and resolutions, whatever they meet,
  -- an attachment in the index is read and described with as many bytes as its descriptor has, and
  -- the next start trusts its record; if a directory lists each name once, an identifier that is in
  -- use is not drawn, and the JSON library reads back what it wrote.
  pub run-Serves :
      (id : String) (r : Record)
      → IsListing metadata
      → Documented host.from_slice cs (loaded host current metadata objects)
      → find_record id lived.index.records ≡ some r
      → Serves host lived id r
  run-Serves id r listing g e =
      IsWhole-Serves host lived id r
        (run-IsWhole host.from_slice cs (loaded host current metadata objects) g
          (loaded-IsWhole host current metadata objects listing))
        e
