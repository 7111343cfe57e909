-- ===== src/PendingStore.antt =====
-- surfaces/desktop/src/pending.rs: the file that keeps an accepted transcript, and the calls of it
-- in surfaces/desktop/src/app.rs. The encoding of `serde_json` is a parameter, and so is what the
-- file system says when it refuses a call.
pub mod Load
pub mod Runs
mod Tests
use scufris.Base.{
  ℕ, String, Bool, true, false, not, ◌&&◌, ◌||◌, Option, none, some, List, length, ltb, ◌==◌,
  if◌then◌else◌, ◌*◌,
}
use scufris.Base.Text.{◌⋅◌}
use scufris.Base.Files.{
  Node, absent, irregular, unreadable, file, Fault, before_rename, after_rename, nowhere,
}
use scufris.Base.Result.{Result, ok, err, ◌>>=◌}
use scufris.Control.Text.{is_identifier, is_submission_text}
use scufris.Companion.{Pending, Event, discard_failed}

abbrev pub max_pending_bytes : ℕ
max_pending_bytes = 64 * 1024

abbrev pub record_version : ℕ
record_version = 1

pub data PendingError : Type 0 where
  corrupt unbounded : PendingError
  io : String → String → PendingError

pub record Record : Type 0 where
  pub version : ℕ
  pub id : String
  pub text : String
  pub discarded : Bool

-- `serde_json`, as this file uses it.
pub record RecordJson : Type 0 where
  pub to_vec : Record → Option (List ℕ)
  pub from_slice : List ℕ → Option Record

module _ (json : RecordJson) (reason : String) where
  abbrev Loaded : Type 0
  Loaded = Result PendingError (Option Pending)

  -- What `load` makes of a record that was decoded.
  accept : Option Record → Loaded
  unfolding is_identifier is_submission_text
  accept none = err corrupt
  accept (some r) =
      if not (r.version == record_version) || not (is_identifier r.id)
      then err corrupt
      else if r.discarded
      then ok none
      else if not (is_submission_text r.text)
      then err corrupt
      else ok (some (record { id = r.id; text = r.text }))

  unfoldable pub load : Node → Loaded
  unfolding accept
  load absent = ok none
  load unreadable = err (io "read" reason)
  load irregular = err corrupt
  load (file encoded) =
      if ltb max_pending_bytes (length encoded)
      then err corrupt
      else accept (json.from_slice encoded)

  abbrev pub Written : Type 0
  Written = Result PendingError (Unit {0}) × Node

  replace : Fault → List ℕ → Node → Written
  replace before_rename encoded node = (err (io "written" reason), node)
  replace after_rename encoded node = (err (io "written" reason), file encoded)
  replace nowhere encoded node = (ok tt, file encoded)

  write_encoded : Fault → Option (List ℕ) → Node → Written
  unfolding replace
  write_encoded fault none node = (err (io "encoded" reason), node)
  write_encoded fault (some encoded) node = replace fault encoded node

  unfoldable pub write : Fault → Record → Node → Written
  unfolding write_encoded
  write fault r node = write_encoded fault (json.to_vec r) node

  abbrev pub kept : Pending → Record
  kept p = record { version = record_version; id = p.id; text = p.text; discarded = false }

  unfoldable pub save : Fault → Pending → Node → Written
  unfolding is_identifier is_submission_text write
  save fault p node =
      if not (is_identifier p.id) || not (is_submission_text p.text)
      then (err unbounded, node)
      else write fault (kept p) node

  -- `removes` is whether the file system lets `remove_file` through: the file is gone then, or
  -- there was none, which is success too.
  unfoldable pub clear : Bool → Node → Written
  clear true node = (ok tt, absent)
  clear false node = (err (io "removed" reason), node)

  abbrev pub marker : String → Record
  marker id = record { version = record_version; id = id; text = ""; discarded = true }

  unfoldable pub tombstone : Fault → String → Node → Written
  unfolding write
  tombstone fault id node = write fault (marker id) node

  second_attempt : Bool → Written → Node
  unfolding clear
  second_attempt removes (ok u, node) = node
  second_attempt removes (err e, node) = (clear removes node).1

  -- `clear_pending` of the application, with what each of its two attempts meets.
  unfoldable pub clear_pending : Bool → Bool → Node → Node
  unfolding second_attempt
  clear_pending first second node = second_attempt second (clear first node)

  abbrev operation : PendingError → String
  operation corrupt = "the saved transcript is unreadable"
  operation unbounded = "the transcript is too long to keep"
  operation (io attempted why) = "the saved transcript could not be " ⋅ attempted ⋅ ": " ⋅ why

  abbrev Discarded : Type 0
  Discarded = Result Event (Unit {0}) × Node

  marked : Written → Discarded
  marked (ok u, node) = (ok tt, node)
  marked (err e, node) =
      (err (discard_failed ("The discarded transcript is still on disk: " ⋅ operation e)), node)

  mark_refused : Fault → String → Written → Discarded
  unfolding tombstone marked
  mark_refused fault id (ok u, node) = (ok tt, node)
  mark_refused fault id (err e, node) = marked (tombstone fault id node)

  -- `discard_pending` of the application: the marker is written where the removal was refused.
  unfoldable pub discard_pending : Bool → Fault → String → Node → Discarded
  unfolding clear mark_refused
  discard_pending removes fault id node = mark_refused fault id (clear removes node)
