-- ===== src/Briefings/Load.antt =====
-- host/service/src/briefings.rs: reading the snapshot back, and the start of the store. What
-- `serde_json` decodes, says of a value and reports is a parameter, and so is the text that a
-- `MessageError` is shown as.
use scufris.Base.{
  ℕ, zero, suc, String, Bool, true, false, not, ◌&&◌, ◌||◌, Option, none, some, List, [], ◌∷◌,
  length, ltb, ◌==◌, if◌then◌else◌,
}
use scufris.Base.Files.{Node, absent, irregular, unreadable, file, Fault}
use scufris.Base.Result.{Result, ok, err, ◌>>=◌, ◌>>◌}
use scufris.Control.Message.{MessageError, Checked}
use scufris.Control.Briefing.{
  pending, BriefingRow, is_in_progress, is_stopped, is_delivered, requires_attention, dismissible,
  validate_briefing_row, validate_briefing_wake, max_briefing_rows,
}
use scufris.Briefings.{Queued, BriefingStore, contains, find_row, set_deliveries}
use scufris.Briefings.Store.{
  Stored, StoreError, format_version, max_file_bytes, persist, sort_by, has_event,
}
use scufris.Briefings.Upsert.{row_below, remove_first, without, has_run}

abbrev pub legacy_format_version : ℕ
legacy_format_version = 1

abbrev pub legacy_max_briefing_rows : ℕ
legacy_max_briefing_rows = 128

abbrev pub Fits : Type 0
Fits = Result StoreError (Unit {0})

abbrev require : Bool → String → Fits
require true reason = ok tt
require false reason = err (StoreError.malformed reason)

-- The row that yields in a store of the older bound.
unfoldable pub yields_first : List String → BriefingRow → Bool
unfolding contains requires_attention
yields_first dismissed row =
    is_stopped row.delivery
    || (is_delivered row.delivery && (not (requires_attention row) || contains row.id dismissed))

-- The row at `position(..).unwrap_or(0)` is removed.
abbrev pub or_first :
    Option (String × List BriefingRow) → List BriefingRow → String × List BriefingRow
or_first (some found) rows = found
or_first none [] = ("", [])
or_first none (row ∷ rest) = (row.id, rest)

module _ {Value : Type 0} where
  -- The loop that fits a store of the older bound to the newer one, on as many rounds as there are
  -- rows.
  unfoldable pub compact : ℕ → BriefingStore Value → BriefingStore Value
  unfolding remove_first yields_first
  compact zero s = s
  compact (suc rounds) s = elim (ltb max_briefing_rows (length s.rows)) [
    | false ↦ s
    | true ↦
        compact rounds
          (without s (or_first (remove_first (yields_first s.dismissed) s.rows) s.rows))
  ]

  abbrev pub empty_store : BriefingStore Value
  empty_store = record { rows = []; pending = []; dismissed = [] }

  -- A service crash can leave a dispatched item in progress: it is pending again.
  unfoldable pub repended : BriefingStore Value → BriefingStore Value × Bool
  unfolding set_deliveries
  repended s =
      let (rows, changed) =
        set_deliveries (λ row. is_in_progress row.delivery || is_stopped row.delivery) pending
          s.rows in
      (record s { rows = rows }, not (changed == 0))

module _ {Value : Type 0} (is_object : Value → Bool) (encoded_size : Value → ℕ)
    (from_slice : List ℕ → Option (Stored Value)) (reason : String)
    (shown : MessageError → String) where
  abbrev as_malformed : Checked → Fits
  as_malformed (ok u) = ok tt
  as_malformed (err e) = err (StoreError.malformed (shown e))

  pub check_rows : List String → List BriefingRow → Fits
  unfolding validate_briefing_row contains
  check_rows seen [] = ok tt
  check_rows seen (row ∷ rest) = do
    as_malformed (validate_briefing_row row)
    require (not (contains row.id seen)) "duplicate briefing row"
    check_rows (row.id ∷ seen) rest

  abbrev undelivered : Option BriefingRow → Result StoreError Bool
  undelivered none = err (StoreError.malformed "briefing wake has no row")
  undelivered (some row) = ok (not (is_delivered row.delivery))

  pub check_queue : List BriefingRow → List (Queued Value) → List (Queued Value) → Fits
  unfolding validate_briefing_wake find_row
  check_queue rows seen [] = ok tt
  check_queue rows seen (queued ∷ rest) = do
    as_malformed (validate_briefing_wake is_object encoded_size queued.wake)
    waits ← undelivered (find_row queued.run_id rows)
    require (waits && not (has_run queued.run_id seen) && not (has_event queued.wake.event_id seen))
        "duplicate or delivered briefing wake"
    check_queue rows (queued ∷ seen) rest

  abbrev may_be_dismissed : Option BriefingRow → Result StoreError Bool
  may_be_dismissed none = err (StoreError.malformed "dismissed briefing has no row")
  may_be_dismissed (some row) = ok (dismissible row)

  pub check_dismissed : List BriefingRow → List String → List String → Fits
  unfolding find_row dismissible contains
  check_dismissed rows seen [] = ok tt
  check_dismissed rows seen (run_id ∷ rest) = do
    may ← may_be_dismissed (find_row run_id rows)
    require (may && not (contains run_id seen)) "duplicate or nonterminal briefing dismissal"
    check_dismissed rows (run_id ∷ seen) rest

  abbrev pub Loaded : Type 0
  Loaded = Result StoreError (BriefingStore Value × Bool)

  -- Every check of `load` on a state that was decoded, in order.
  unfoldable pub check_stored : Stored Value → Fits
  unfolding check_rows check_queue check_dismissed
  check_stored stored = do
    require
        ((stored.version == legacy_format_version || stored.version == format_version)
          && not (ltb legacy_max_briefing_rows (length stored.rows))
          && not (ltb legacy_max_briefing_rows (length stored.pending))
          && not (ltb legacy_max_briefing_rows (length stored.dismissed)))
        "unsupported briefing state"
    check_rows [] stored.rows
    check_queue stored.rows [] stored.pending
    check_dismissed stored.rows [] stored.dismissed

  abbrev pub sorted : Stored Value → BriefingStore Value
  sorted stored = record {
    rows = sort_by row_below stored.rows;
    pending = stored.pending;
    dismissed = stored.dismissed;
  }

  unfoldable pub taken_in : Stored Value → Fits → Loaded
  unfolding compact sort_by
  taken_in stored (err e) = err e
  taken_in stored (ok u) =
      ok (compact (length stored.rows) (sorted stored), ltb max_briefing_rows (length stored.rows))

  unfoldable pub accept : Option (Stored Value) → Loaded
  unfolding check_stored taken_in
  accept none = err (StoreError.malformed reason)
  accept (some stored) = taken_in stored (check_stored stored)

  unfoldable pub load : Node → Loaded
  unfolding accept
  load absent = ok (empty_store, false)
  load unreadable = err StoreError.io
  load irregular = err (StoreError.malformed "state is not a regular file")
  load (file bytes) =
      if ltb max_file_bytes (length bytes)
      then err StoreError.too_large
      else accept (from_slice bytes)

  -- `reject` moves the snapshot away, if the file system lets it.
  abbrev reject : Bool → Node → Node
  reject true node = absent
  reject false node = node

  unfoldable pub opened :
      (Stored Value → Option (List ℕ)) → Fault → Bool → Loaded → Node → BriefingStore Value × Node
  unfolding repended persist
  opened to_vec fault moves (err e) node = (empty_store, reject moves node)
  opened to_vec fault moves (ok (s, compacted)) node =
      let (s', changed) = repended s in
      (s', if compacted || changed then (persist to_vec fault s' node).1 else node)

  -- `BriefingStore::open`. `fault` is what a write of the recovered state meets, and `moves` whether
  -- a rejected snapshot can be renamed; the file that it is renamed to is not modelled.
  unfoldable pub open_store :
      (Stored Value → Option (List ℕ)) → Fault → Bool → Node → BriefingStore Value × Node
  unfolding load opened
  open_store to_vec fault moves node = opened to_vec fault moves (load node) node
