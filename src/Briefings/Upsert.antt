-- ===== src/Briefings/Upsert.antt =====
-- host/service/src/briefings.rs: merging a generation's update, the bound on the rows, and the
-- dismissal of one from presentation.
use text.Mathlib.Text.{◌==◌ as ◌=ˢ◌}
use scufris.Base.{
  ℕ, zero, suc, String, Bool, true, false, not, ◌&&◌, ◌||◌, Option, none, some, List, [], ◌∷◌, ◌++◌,
  length, ltb, ◌==◌, if◌then◌else◌, ◌≡◌,
}
use scufris.Base.Files.{Node, Fault}
use scufris.Base.Result.{ok, err}
use scufris.Control.Briefing.{
  BriefingCollectionState, pending, delivered, BriefingRow, BriefingWake, is_collecting,
  is_collected, is_collection_failed, is_delivered, is_stopped, active, requires_attention,
  max_briefing_rows,
}
use scufris.Briefings.{Queued, BriefingStore, retain, contains, find_row, delivered_row, any_row}
use scufris.Briefings.Store.{Stored, StoreError, Written, Outcome, persist, sort_by, string_below}

pub data UpsertOutcome : Type 0 where
  inserted updated deduplicated already_delivered : UpsertOutcome

abbrev pub max : ℕ → ℕ → ℕ
max a b = if ltb a b then b else a

abbrev pub min : ℕ → ℕ → ℕ
min a b = if ltb b a then b else a

abbrev pub same_collection : BriefingCollectionState → BriefingCollectionState → Bool
same_collection a b =
    (is_collecting a && is_collecting b)
    || (is_collected a && is_collected b)
    || (is_collection_failed a && is_collection_failed b)

-- The update of the counts and labels, where the collection goes forward.
unfoldable pub forwarded : BriefingRow → BriefingRow → BriefingRow
forwarded current incoming =
    let completed =
      min (max current.completed incoming.completed) (max current.total incoming.total) in
    record current {
      collection = incoming.collection;
      completed = completed;
      total = max current.total incoming.total;
      failed = min (max current.failed incoming.failed) completed;
      summary =
          if not (is_stopped current.delivery) || is_delivered incoming.delivery
          then incoming.summary
          else current.summary;
    }

unfoldable pub merged : BriefingRow → BriefingRow → BriefingRow
unfolding forwarded
merged current incoming =
    let row =
      if is_collecting current.collection || same_collection current.collection incoming.collection
      then forwarded current incoming
      else current in
    if not (is_delivered row.delivery) && is_delivered incoming.delivery
    then record row { delivery = delivered }
    else row

unfoldable pub merge_row : BriefingRow → List BriefingRow → List BriefingRow
unfolding merged
merge_row incoming [] = incoming ∷ []
merge_row incoming (row ∷ rest) =
    if row.id =ˢ incoming.id then merged row incoming ∷ rest else row ∷ merge_row incoming rest

-- The order of `sort_by_key(|row| (row.since, row.id.clone()))`.
abbrev pub row_below : BriefingRow → BriefingRow → Bool
row_below a b = ltb a.since b.since || (a.since == b.since && string_below a.id b.id)

-- A row that yields its slot in a full store.
unfoldable pub yields : List String → BriefingRow → Bool
unfolding active requires_attention contains
yields dismissed row =
    is_stopped row.delivery
    || (is_delivered row.delivery
        && not (active row)
        && (not (requires_attention row) || contains row.id dismissed))

-- `rows.remove(rows.iter().position(..)?)`, and the identity of what was removed.
unfoldable pub remove_first :
    (BriefingRow → Bool) → List BriefingRow → Option (String × List BriefingRow)
remove_first test [] = none
remove_first test (row ∷ rest) = elim (test row) [
  | true ↦ some (row.id, rest)
  | false ↦ elim (remove_first test rest) [
    | none ↦ none
    | some found ↦ some (found.0, row ∷ found.1)
  ]
]

module _ {Value : Type 0} where
  abbrev pub without : BriefingStore Value → String × List BriefingRow → BriefingStore Value
  without s (id, rows) = record {
    rows = rows;
    pending = retain (λ q. not (q.run_id =ˢ id)) s.pending;
    dismissed = retain (λ d. not (d =ˢ id)) s.dismissed;
  }

  -- The loop that makes room, on as many rounds as there are rows; it fails where no row yields.
  unfoldable pub make_room : ℕ → BriefingStore Value → Option (BriefingStore Value)
  unfolding retain remove_first yields
  make_room zero s = some s
  make_room (suc rounds) s = elim (ltb max_briefing_rows (length s.rows)) [
    | false ↦ some s
    | true ↦ elim (remove_first (yields s.dismissed) s.rows) [
      | none ↦ none
      | some found ↦ make_room rounds (without s found)
    ]
  ]

  abbrev pub has_run : String → List (Queued Value) → Bool
  has_run run_id [] = false
  has_run run_id (q ∷ qs) = q.run_id =ˢ run_id || has_run run_id qs

  -- Whether the event of a wake is queued for another run.
  abbrev pub is_foreign : String → BriefingWake Value → List (Queued Value) → Bool
  is_foreign run_id wake [] = false
  is_foreign run_id wake (q ∷ qs) =
      (q.wake.event_id =ˢ wake.event_id && not (q.run_id =ˢ run_id)) || is_foreign run_id wake qs

  -- The queue with the wake of an update, or none where its event belongs to another run.
  unfoldable pub enqueue :
      String
      → Option (BriefingWake Value)
      → List BriefingRow
      → List (Queued Value)
      → Option (List (Queued Value))
  unfolding find_row
  enqueue run_id none rows queue = some queue
  enqueue run_id (some wake) rows queue =
      if is_foreign run_id wake queue
      then none
      else if not (delivered_row (find_row run_id rows)) && not (has_run run_id queue)
      then some (queue ++ record { run_id = run_id; wake = wake } ∷ [])
      else some queue

  -- The rows and wakes before room is made: those of a delivered row are dropped.
  unfoldable pub settled :
      List String → List BriefingRow → List (Queued Value) → BriefingStore Value
  unfolding retain any_row sort_by string_below
  settled dismissed rows queue = record {
    rows = sort_by row_below rows;
    pending = retain (λ q. not (any_row is_delivered q.run_id rows)) queue;
    dismissed = dismissed;
  }

abbrev pub given : Bool → BriefingRow → BriefingRow
given already row = record row { delivery = if already then delivered else pending }

abbrev is_there : Option BriefingRow → Bool
is_there none = false
is_there (some row) = true

module _ {Value : Type 0} (to_vec : Stored Value → Option (List ℕ))
    (same : Discrete (BriefingStore Value)) where
  unfoldable pub stored_as :
      UpsertOutcome
      → BriefingStore Value
      → BriefingStore Value
      → Written to_vec
      → Outcome to_vec UpsertOutcome
  stored_as outcome old new (ok u, node) = (ok outcome, new, node)
  stored_as outcome old new (err e, node) = (err e, old, node)

  abbrev unchanged : BriefingRow → BriefingStore Value → UpsertOutcome
  unchanged incoming s =
      if delivered_row (find_row incoming.id s.rows) then already_delivered else deduplicated

  abbrev changed : BriefingRow → BriefingStore Value → UpsertOutcome
  changed incoming s = if is_there (find_row incoming.id s.rows) then updated else inserted

  -- What is written unless it is what was there.
  unfoldable pub store_unless :
      Fault
      → BriefingRow
      → (s s' : BriefingStore Value) → Node
      → Dec (s' ≡ s)
      → Outcome to_vec UpsertOutcome
  unfolding persist stored_as find_row
  store_unless fault incoming s s' node (yes p) = (ok (unchanged incoming s), s, node)
  store_unless fault incoming s s' node (no p) =
      stored_as (changed incoming s) s s' (persist to_vec fault s' node)

  unfoldable pub keep_room :
      Fault
      → BriefingRow
      → BriefingStore Value
      → Option (BriefingStore Value)
      → Node
      → Outcome to_vec UpsertOutcome
  unfolding store_unless
  keep_room fault incoming s none node = (err StoreError.full, s, node)
  keep_room fault incoming s (some s') node = store_unless fault incoming s s' node (same s' s)

  unfoldable pub keep_queue :
      Fault
      → BriefingRow
      → BriefingStore Value
      → List BriefingRow
      → Option (List (Queued Value))
      → Node
      → Outcome to_vec UpsertOutcome
  unfolding settled make_room keep_room
  keep_queue fault incoming s rows none node =
      (err (StoreError.malformed "briefing wake event belongs to another run"), s, node)
  keep_queue fault incoming s rows (some queue) node =
      keep_room fault incoming s (make_room (length rows) (settled s.dismissed rows queue)) node

  unfoldable pub upsert :
      Fault
      → BriefingRow
      → Option (BriefingWake Value)
      → Bool
      → BriefingStore Value
      → Node
      → Outcome to_vec UpsertOutcome
  unfolding merge_row enqueue keep_queue
  upsert fault row wake already s node =
      let incoming = given already row in
      let rows = merge_row incoming s.rows in
      keep_queue fault incoming s rows (enqueue incoming.id wake rows s.pending) node
