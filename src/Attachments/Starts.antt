-- ===== src/Attachments/Starts.antt =====
-- A start of the store of host/service/src/attachment.rs, from any directories.
use scufris.Base.{
  ℕ, String, false, ◌||◌, some, List, [], ◌∷◌, ◌≡◌, inl, inr, refl, arith, eq_iff, Bool-cases,
  if◌then◌else◌, ◌∙◌, ap,
}
use scufris.Base.Files.{Node}
use scufris.Base.Result.{Result, ok, err}
use scufris.Briefings.{contains}
use scufris.Attachments.{
  Record, Index, Store, Host, Folder, node_at, unlink, record_name, find_record, full, is_expired,
}
use scufris.Attachments.Reads.{
  read_record, load_trusted, load_read, is_hidden, load_shown, load_entry, load_entries, sweep,
  swept, loaded, Loading, is_indexed,
}
use scufris.Attachments.Folders.{node_at-unlink, find-id}
use scufris.Attachments.Indexed.{empty-IsIndex}
use scufris.Attachments.Backed.{IsWhole, Backs-frame}
use scufris.Attachments.Trusted.{Trusted, read_record-Trusted}
use scufris.Attachments.Listed.{
  has_name, IsListing, IsLoading, listed-Ahead, drop_entry-Loads, discard-Loads, indexed-Loads,
  passed-Loads, unread-missing,
}

module _ (host : Host) (current : ℕ) where
  abbrev Loads : Folder → Store → Type 0
  Loads = IsLoading host.from_slice

  load_trusted-Loads :
      (r : Record) (node : Node) (rest : Folder) (s : Store) (unindexed : List String)
      → Trusted host s.objects (record_name r.descriptor.id) node r
      → has_name (record_name r.descriptor.id) rest ≡ false
      → Loads ((record_name r.descriptor.id, node) ∷ rest) s
      → Loads rest (load_trusted host current r (s, unindexed)).0
  unfolding load_trusted
  load_trusted-Loads r node rest s unindexed trusted once l =
      let fresh = unread-missing host r.descriptor.id node rest s l in
      elim (Bool-cases (is_expired current r)) [
        | inl old ↦ rw old (discard-Loads host r node rest s once fresh l)
        | inr young ↦ elim (Bool-cases (full r.descriptor.size s.index)) [
          | inl is_full ↦
              rw (young, is_full) (passed-Loads host (record_name r.descriptor.id) node rest s l)
          | inr room ↦ rw (young, room) (indexed-Loads host r node rest s trusted once fresh room l)
        ]
      ]

  load_read-Loads :
      (name : String) (node : Node) (rest : Folder) (s : Store) (unindexed : List String)
      (o : Result String Record)
      → read_record host s.objects name node ≡ o
      → has_name name rest ≡ false
      → Loads ((name, node) ∷ rest) s
      → Loads rest (load_read host current name o (s, unindexed)).0
  unfolding load_read
  load_read-Loads name node rest s unindexed (err reason) e once l =
      drop_entry-Loads host name node rest s once l
  load_read-Loads name node rest s unindexed (ok r) e once l =
      let trusted = read_record-Trusted host s.objects name node r e in
      load_trusted-Loads r node rest s unindexed (rw trusted.named trusted) (rw trusted.named once)
        (rw trusted.named l)

  load_entry-Loads :
      (name : String) (node : Node) (rest : Folder) (x : Loading)
      → has_name name rest ≡ false
      → Loads ((name, node) ∷ rest) x.0
      → Loads rest (load_entry host current name node x).0
  unfolding load_entry load_shown
  load_entry-Loads name node rest (s, unindexed) once l = elim (Bool-cases (is_hidden name)) [
    | inl hidden ↦ rw hidden (drop_entry-Loads host name node rest s once l)
    | inr shown ↦ rw shown (
        load_read-Loads name node rest s unindexed (read_record host s.objects name node) refl once
          l)
  ]

  load_entries-Loads :
      (entries : Folder) (x : Loading)
      → IsListing entries
      → Loads entries x.0
      → Loads [] (load_entries host current entries x).0
  unfolding load_entries
  load_entries-Loads [] x listing l = l
  load_entries-Loads ((name, node) ∷ rest) x (once, listing) l =
      load_entries-Loads rest (load_entry host current name node x) listing
        (load_entry-Loads name node rest x once l)

-- The sweep keeps the object of every record in the index.
sweep-keeps :
    (host : Host) (index : Index) (unindexed : List String) (entries objects : Folder) (b : String)
    (r : Record)
    → find_record b index.records ≡ some r
    → node_at b (sweep host index unindexed entries objects) ≡ node_at b objects
unfolding sweep is_indexed
sweep-keeps host index unindexed [] objects b r e = refl
sweep-keeps host index unindexed ((name, node) ∷ rest) objects b r e =
    let objects' =
      if is_indexed name (find_record name index.records)
        || contains name unindexed
        || host.keeps_object name
      then objects
      else unlink name objects in
    let same : node_at b objects' ≡ node_at b objects =
      ground (arith, node_at-unlink name b objects, eq_iff name b) in
    sweep-keeps host index unindexed rest objects' b r e ∙ same

start-Loads :
    (host : Host) (metadata objects : Folder)
    → IsListing metadata
    → IsLoading host.from_slice metadata (record {
      index = record { records = []; bytes = 0 };
      objects = objects;
      metadata = metadata;
    })
start-Loads host metadata objects listing = record {
  whole = record { sound = empty-IsIndex; backed = λ b r e. absurd (nothing b r e) };
  ahead = listed-Ahead metadata listing;
  unread = λ b r e. absurd (nothing b r e);
}
  where
    nothing : (b : String) (r : Record) → find_record b [] ≡ some r → ⊥
    nothing b r e = unfold find_record in cc

swept-IsWhole :
    (host : Host) (x : Loading)
    → IsWhole host.from_slice x.0
    → IsWhole host.from_slice (swept host x)
unfolding swept
swept-IsWhole host (s, unindexed) v = record {
  sound = v.sound;
  backed = λ b r e.
      let name = find-id b s.index.records r e in
      let held : find_record r.descriptor.id s.index.records ≡ some r =
        ap (λ (i : String). find_record i s.index.records) name ∙ e in
      Backs-frame host.from_slice s (swept host (s, unindexed)) r
        (sweep-keeps host s.index unindexed s.objects s.objects r.descriptor.id r held) refl
        (v.backed b r e);
}

-- Whatever stands in the directories, if a directory lists each name once: what a start indexes is
-- within the quota, and has its bytes and its metadata on disk.
pub loaded-IsWhole :
    (host : Host) (current : ℕ) (metadata objects : Folder)
    → IsListing metadata
    → IsWhole host.from_slice (loaded host current metadata objects)
unfolding loaded
loaded-IsWhole host current metadata objects listing =
    let empty : Store = record {
      index = record { records = []; bytes = 0 };
      objects = objects;
      metadata = metadata;
    } in
    swept-IsWhole host (load_entries host current metadata (empty, []))
      (load_entries-Loads host current metadata (empty, []) listing
        (start-Loads host metadata objects listing)).whole
