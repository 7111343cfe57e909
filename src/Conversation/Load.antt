-- ===== src/Conversation/Load.antt =====
-- host/service/src/conversation.rs: reading a snapshot back, and opening the replay at a start of
-- the service.
use mathlib.Core.List.{List, [], ◌∷◌}
use scufris.Base.{
  ℕ, zero, suc, Bool, true, false, not, Option, none, some, ◌++◌, length, ltb, ◌==◌, if◌then◌else◌,
}
use scufris.Base.Result.{Result, ok, err, ◌>>=◌}
use scufris.Control.Message.{validate_conversation_message}
use scufris.Conversation.{
  StoredEntry, ConversationHistory, conversation_entries, set_next_sequence, pop_front,
}
use scufris.Base.Files.{Node, absent, irregular, unreadable, file, Fault}
use scufris.Conversation.Store.{Json, format_version, max_file_bytes, Disk, persist}

pub data LoadError : Type 0 where
  io malformed too_large : LoadError
  incompatible : ℕ → LoadError

module _ {Value : Type 0} where
  abbrev pub empty_history : ConversationHistory Value
  empty_history = record { entries = []; next_sequence = 1 }

module _ {Value : Type 0} (json : Json Value) where
  open json use {Tree, from_slice, version_of, from_value, encoded_size, value_eq}

  -- The loop of `read_snapshot` over what was decoded: the entries kept, by sequence, and whether
  -- one was dropped as a repetition.
  unfoldable pub find_sequence : ℕ → List (StoredEntry Value) → Option (StoredEntry Value)
  find_sequence sequence [] = none
  find_sequence sequence (entry ∷ rest) =
      if entry.sequence == sequence then some entry else find_sequence sequence rest

  abbrev Loaded : Type 0
  Loaded = List (StoredEntry Value) × Bool

  unfoldable pub deduplicate :
      List (StoredEntry Value) → Bool → List (StoredEntry Value) → Result LoadError Loaded
  deduplicate kept normalized [] = ok (kept, normalized)
  deduplicate kept normalized (entry ∷ rest) =
      elim (validate_conversation_message encoded_size entry.message) [
        | err e ↦ err malformed
        | ok _ ↦ elim (find_sequence entry.sequence kept) [
          | none ↦ deduplicate (kept ++ entry ∷ []) normalized rest
          | some first ↦ elim (value_eq first entry) [
            | yes same ↦ deduplicate kept true rest
            | no other ↦ err malformed
          ]
        ]
      ]

  -- `while entries.len() > CONVERSATION_ENTRIES { entries.pop_front(); normalized = true; }`,
  -- with as many rounds as there are entries.
  unfoldable pub trim_front : ℕ → Loaded → Loaded
  trim_front zero (entries, normalized) = (entries, normalized)
  trim_front (suc rounds) (entries, normalized) =
      let next = trim_front rounds (pop_front entries, true) in
      if ltb conversation_entries (length entries) then next else (entries, normalized)

  abbrev or_malformed {ℓ} : {A : Type ℓ} → Option A → Result LoadError A
  or_malformed none = err malformed
  or_malformed (some a) = ok a

  unfoldable pub decode : List ℕ → Result LoadError Loaded
  unfolding deduplicate find_sequence trim_front
  decode bytes = do
    value ← or_malformed (from_slice bytes)
    version ← or_malformed (version_of value)
    if not (version == format_version) then err (incompatible version) else (do
      state ← or_malformed (from_value value)
      (entries, normalized) ← deduplicate [] false state.entries
      ok (trim_front (length entries) (entries, normalized)))

  unfoldable pub read_snapshot : Node → Result LoadError (Option Loaded)
  unfolding decode
  read_snapshot absent = ok none
  read_snapshot unreadable = err LoadError.io
  read_snapshot irregular = err malformed
  read_snapshot (file bytes) =
      if ltb max_file_bytes (length bytes)
      then err LoadError.too_large
      else (do loaded ← decode bytes; ok (some loaded))

  -- `reject`: the snapshot is moved aside, under a name for its kind of error, unless the file
  -- system refuses; a refusal after an older rejected one was removed is not modelled.
  reject : Bool → LoadError → Disk → Disk
  reject false e disk = disk
  reject true (incompatible v) disk = record disk {
    snapshot = absent;
    incompatible = disk.snapshot;
  }
  reject true e disk = record disk { snapshot = absent; corrupt = disk.snapshot }

  opened_from :
      Fault → Bool → Result LoadError (Option Loaded) → Disk → ConversationHistory Value × Disk
  unfolding reject persist set_next_sequence
  opened_from fault moves (err e) disk = (empty_history, reject moves e disk)
  opened_from fault moves (ok none) disk = (empty_history, disk)
  opened_from fault moves (ok (some (entries, normalized))) disk =
      let h = set_next_sequence (record { entries = entries; next_sequence = 1 }) in
      (h, if normalized then (persist json fault h disk).1 else disk)

  -- `ConversationHistory::open`. `prepared` is whether the directory could be prepared, `fault`
  -- what a write of a normalised snapshot meets, and `moves` whether a rejected one can be renamed.
  unfoldable pub open_history : Bool → Fault → Bool → Disk → ConversationHistory Value × Disk
  unfolding opened_from read_snapshot
  open_history prepared fault moves disk =
      if prepared
      then opened_from fault moves (read_snapshot disk.snapshot) disk
      else (empty_history, disk)
