-- ===== src/Attachments/Listed.antt =====
-- One entry of the directories, in a start of the store of host/service/src/attachment.rs.
use text.Mathlib.Text.{◌==◌ as ◌=ˢ◌}
use text.Mathlib.TextPositions.{eq_refl}
use scufris.Base.{
  ℕ, String, Bool, true, false, ◌||◌, Option, none, some, List, [], ◌∷◌, ◌≡◌, ◌⊎◌, inl, inr, refl,
  arith, eq_iff, Option-cases, Bool-cases, ◌∙◌, All,
}
use scufris.Base.Files.{Node}
use scufris.Attachments.{
  Record, Store, Host, Folder, node_at, unlink, record_name, find_record, full, discard,
}
use scufris.Attachments.Puts.{indexed}
use scufris.Attachments.Reads.{drop_entry}
use scufris.Attachments.Folders.{node_at-unlink, find-insert, find-id}
use scufris.Attachments.Indexed.{indexed-IsIndex}
use scufris.Attachments.Backed.{IsWhole, Backs-frame, discard-objects, discard-metadata}
use scufris.Attachments.Trusted.{Trusted}

unfoldable pub has_name : String → Folder → Bool
has_name name [] = false
has_name name ((other, node) ∷ rest) = other =ˢ name || has_name name rest

-- A directory lists each of its names once.
abbrev pub IsListing : Folder → Type 0
IsListing [] = Unit
IsListing ((name, node) ∷ rest) = (has_name name rest ≡ false) × IsListing rest

-- The entries that are still to be read stand on disk as they were listed.
abbrev pub Ahead : Folder → Folder → Type 0
Ahead metadata = All (λ (e : String × Node). node_at e.0 metadata ≡ e.1)

module _ (from_slice : List ℕ → Option Record) where
  pub record IsLoading (rest : Folder) (s : Store) : Type 0 where
    pub whole : IsWhole from_slice s
    pub ahead : Ahead s.metadata rest
    pub unread :
        (b : String) (r : Record)
        → find_record b s.index.records ≡ some r
        → has_name (record_name b) rest ≡ false

unlink-Ahead :
    (name : String) (metadata rest : Folder)
    → has_name name rest ≡ false
    → Ahead metadata rest
    → Ahead (unlink name metadata) rest
unfolding has_name
unlink-Ahead name metadata [] n a = tt
unlink-Ahead name metadata ((other, node) ∷ rest) n (a, as_listed) = (
  ground (arith, node_at-unlink name other metadata, eq_iff name other, eq_iff other name),
  unlink-Ahead name metadata rest (ground arith) as_listed,
)

cons-Ahead :
    (name : String) (node : Node) (metadata rest : Folder)
    → has_name name rest ≡ false
    → Ahead metadata rest
    → Ahead ((name, node) ∷ metadata) rest
unfolding has_name node_at
cons-Ahead name node metadata [] n a = tt
cons-Ahead name node metadata ((other, listed) ∷ rest) n (a, as_listed) = (
  ground (arith, eq_iff name other, eq_iff other name),
  cons-Ahead name node metadata rest (ground arith) as_listed,
)

pub listed-Ahead : (metadata : Folder) → IsListing metadata → Ahead metadata metadata
unfolding node_at
listed-Ahead [] l = tt
listed-Ahead ((name, node) ∷ rest) (once, l) =
    (ground (arith, eq_refl name), cons-Ahead name node rest rest once (listed-Ahead rest l))

module _ (host : Host) where
  abbrev pub Loads : Folder → Store → Type 0
  Loads = IsLoading host.from_slice

  -- The metadata of this entry may go, where no record in the index is of it.
  pub drop_entry-Loads :
      (name : String) (node : Node) (rest : Folder) (s : Store)
      → has_name name rest ≡ false
      → Loads ((name, node) ∷ rest) s
      → Loads rest (drop_entry host name s)
  unfolding has_name
  drop_entry-Loads name node rest s once l = record {
    whole = record {
      sound = l.whole.sound;
      backed = λ b r e.
          let apart = l.unread b r e in
          let same = find-id b s.index.records r e in
          let other : (name =ˢ record_name r.descriptor.id) ≡ false = rw same (ground arith) in
          Backs-frame host.from_slice s (drop_entry host name s) r refl
            (ground (arith, node_at-unlink name (record_name r.descriptor.id) s.metadata))
            (l.whole.backed b r e);
    };
    ahead = kept (Bool-cases (host.keeps_record name));
    unread = λ b r e. ground (arith, l.unread b r e);
  }
    where
      kept :
          (host.keeps_record name ≡ true) ⊎ (host.keeps_record name ≡ false)
          → Ahead (drop_entry host name s).metadata rest
      kept (inl stays) = rw stays l.ahead.1
      kept (inr goes) = rw goes (unlink-Ahead name s.metadata rest once l.ahead.1)

  pub discard-Loads :
      (r : Record) (node : Node) (rest : Folder) (s : Store)
      → has_name (record_name r.descriptor.id) rest ≡ false
      → find_record r.descriptor.id s.index.records ≡ none
      → Loads ((record_name r.descriptor.id, node) ∷ rest) s
      → Loads rest (discard host r.descriptor.id s)
  unfolding has_name discard
  discard-Loads r node rest s once fresh l =
      let id = r.descriptor.id in
      let t = discard host id s in
      record {
        whole = record {
          sound = l.whole.sound;
          backed = λ b q e.
              let same = find-id b s.index.records q e in
              let apart : (id =ˢ q.descriptor.id) ≡ false =
                ground (arith, eq_iff id q.descriptor.id) in
              Backs-frame host.from_slice s t q (discard-objects host id q.descriptor.id s apart)
                (discard-metadata host id q.descriptor.id s apart) (l.whole.backed b q e);
        };
        ahead = (drop_entry-Loads (record_name id) node rest s once l).ahead;
        unread = λ b q e. ground (arith, l.unread b q e);
      }

  pub indexed-Loads :
      (r : Record) (node : Node) (rest : Folder) (s : Store)
      → Trusted host s.objects (record_name r.descriptor.id) node r
      → has_name (record_name r.descriptor.id) rest ≡ false
      → find_record r.descriptor.id s.index.records ≡ none
      → full r.descriptor.size s.index ≡ false
      → Loads ((record_name r.descriptor.id, node) ∷ rest) s
      → Loads rest (record s { index = indexed r s.index })
  unfolding has_name indexed
  indexed-Loads r node rest s trusted once fresh room l =
      let id = r.descriptor.id in
      let t : Store = record s { index = indexed r s.index } in
      record {
        whole = record {
          sound = indexed-IsIndex r s.index l.whole.sound fresh room;
          backed = λ b q e. elim (Bool-cases (id =ˢ b)) [
            | inl here ↦
                let same : r ≡ q = ground (arith, find-insert b r s.index.records) in
                rw (← same) (record {
                  content = trusted.content;
                  stored = trusted.stored;
                  sized = trusted.sized;
                  encoded = trusted.encoded;
                  written = l.ahead.0 ∙ trusted.written;
                  decodes = trusted.decodes;
                  valid = trusted.valid;
                })
            | inr there ↦
                let held : find_record b s.index.records ≡ some q =
                  ground (arith, find-insert b r s.index.records) in
                Backs-frame host.from_slice s t q refl refl (l.whole.backed b q held)
          ];
        };
        ahead = l.ahead.1;
        unread =
            λ b q e. ground (arith, find-insert b r s.index.records, l.unread b q, eq_iff id b);
      }

  pub passed-Loads :
      (name : String) (node : Node) (rest : Folder) (s : Store)
      → Loads ((name, node) ∷ rest) s
      → Loads rest s
  unfolding has_name
  passed-Loads name node rest s l = record {
    whole = l.whole;
    ahead = l.ahead.1;
    unread = λ b q e. ground (arith, l.unread b q e);
  }

  -- No record in the index is of an entry that is still to be read.
  pub unread-missing :
      (id : String) (node : Node) (rest : Folder) (s : Store)
      → Loads ((record_name id, node) ∷ rest) s
      → find_record id s.index.records ≡ none
  unfolding has_name
  unread-missing id node rest s l = elim (Option-cases (find_record id s.index.records)) [
    | inl missing ↦ missing
    | inr (r, e) ↦ absurd (ground (arith, l.unread id r e, eq_refl (record_name id)))
  ]
