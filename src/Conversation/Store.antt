-- ===== src/Conversation/Store.antt =====
-- host/service/src/conversation.rs: the snapshot on disk, and the operations that write it. The
-- encoding of `serde_json` is a parameter; what the file system does to a call is an argument.
use scufris.Base.{
  ℕ, ◌*◌, String, Bool, true, false, Option, none, some, List, [], ◌∷◌, ◌++◌, length, ltb,
  if◌then◌else◌,
}
use scufris.Base.Result.{Result, ok, err}
use scufris.Control.Message.{ConversationMessage}
use scufris.Base.Files.{Node, file, Fault, before_rename, after_rename, nowhere}
use scufris.Conversation.{
  StoredEntry, ConversationHistory, push, contains_delivery, Found, opened, take_in_entries,
}

abbrev pub format_version : ℕ
format_version = 1

abbrev pub max_file_bytes : ℕ
max_file_bytes = 16 * 1024 * 1024

pub record StoredConversation (Value : Type 0) : Type 0 where
  pub version : ℕ
  pub entries : List (StoredEntry Value)

-- `serde_json`, as this file uses it: `to_vec` of the state, `from_slice` into a JSON value, the
-- numeric field `version` of that, and `from_value` into the state.
pub record Json (Value : Type 0) : Type 1 where
  pub Tree : Type 0
  pub to_vec : StoredConversation Value → Option (List ℕ)
  pub from_slice : List ℕ → Option Tree
  pub version_of : Tree → Option ℕ
  pub from_value : Tree → Option (StoredConversation Value)
  pub encoded_size : Value → ℕ
  pub value_eq : Discrete (StoredEntry Value)

pub data PersistError : Type 0 where
  io json too_large : PersistError

pub record Disk : Type 0 where
  pub snapshot : Node
  pub incompatible : Node
  pub corrupt : Node

module _ {Value : Type 0} (json : Json Value) where
  open json use {Tree, to_vec, from_slice, version_of, from_value, encoded_size, value_eq}

  abbrev pub Written : Type 0
  Written = Result PersistError (Unit {0}) × Disk

  write_snapshot : Fault → List ℕ → Disk → Written
  write_snapshot before_rename encoded disk = (err PersistError.io, disk)
  write_snapshot after_rename encoded disk =
      (err PersistError.io, record disk { snapshot = file encoded })
  write_snapshot nowhere encoded disk = (ok tt, record disk { snapshot = file encoded })

  unfoldable pub write_bounded : Fault → Option (List ℕ) → Disk → Written
  unfolding write_snapshot
  write_bounded fault none disk = (err PersistError.json, disk)
  write_bounded fault (some encoded) disk =
      if ltb max_file_bytes (length (encoded ++ b'\n' ∷ []))
      then (err PersistError.too_large, disk)
      else write_snapshot fault (encoded ++ b'\n' ∷ []) disk

  unfoldable pub persist : Fault → ConversationHistory Value → Disk → Written
  unfolding write_bounded
  persist fault h disk =
      write_bounded fault (to_vec (record { version = format_version; entries = h.entries })) disk

  abbrev pub Stored : Type 0 → Type 0
  Stored A = Result PersistError A × ConversationHistory Value × Disk

  abbrev answer {ℓ κ} : {A : Type ℓ} {B : Type κ} → B → Result A (Unit {0}) → Result A B
  answer b (ok _) = ok b
  answer b (err e) = err e

  unfoldable pub record_message :
      Fault → ConversationHistory Value → ConversationMessage Value → Disk → Stored ℕ
  unfolding push persist
  record_message fault h message disk =
      let (h', sequence) = push h message none in
      let (r, disk') = persist fault h' disk in (answer sequence r, h', disk')

  -- The caller's history when the snapshot was stored, and the one before it when it was not.
  abbrev pub keep_if_stored :
      ConversationHistory Value → ConversationHistory Value → Written → Stored Bool
  keep_if_stored old new (ok _, disk) = (ok true, new, disk)
  keep_if_stored old new (err e, disk) = (err e, old, disk)

  unfoldable pub record_delivery :
      Fault → ConversationHistory Value → String → ConversationMessage Value → Disk → Stored Bool
  unfolding push persist
  record_delivery fault h delivery_id message disk =
      if contains_delivery h delivery_id
      then (ok false, h, disk)
      else (let h' = (push h message (some delivery_id)).0 in
          keep_if_stored h h' (persist fault h' disk))

  unfoldable pub take_found :
      Fault → ConversationHistory Value → List (StoredEntry Value) → Found → Disk → Stored Bool
  unfolding persist
  take_found fault h entries opened disk =
      let h' = record h { entries = entries } in
      let (r, disk') = persist fault h' disk in (answer true r, h', disk')
  take_found fault h entries found disk = (ok false, h, disk)

  unfoldable pub take_offer : Fault → ConversationHistory Value → String → Disk → Stored Bool
  unfolding take_found
  take_offer fault h id disk =
      let (entries, found) = take_in_entries id h.entries in take_found fault h entries found disk
