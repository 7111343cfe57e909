-- ===== src/Briefings/Store.antt =====
-- host/service/src/briefings.rs: the snapshot, and the operations on rows that are there. Each
-- operation that could not be stored puts back what it changed.
use text.Mathlib.Text.{◌==◌ as ◌=ˢ◌}
use scufris.Base.{
  ℕ, ◌*◌, String, Bool, true, false, not, ◌&&◌, ◌||◌, Option, none, some, List, [], ◌∷◌, ◌++◌,
  length, ltb, ◌==◌, if◌then◌else◌,
}
use scufris.Base.Files.{Node, file, Fault, before_rename, after_rename, nowhere}
use scufris.Base.Result.{Result, ok, err}
use scufris.Control.Text.{bytes}
use scufris.Control.Briefing.{
  BriefingDeliveryState, pending, in_progress, failed, delivered, BriefingRow, is_pending,
  is_in_progress, is_stopped,
}
use scufris.Briefings.{
  Queued, BriefingStore, retain, contains, set_delivery, set_deliveries, run_of,
}

abbrev pub format_version : ℕ
format_version = 2

abbrev pub max_file_bytes : ℕ
max_file_bytes = 8 * 1024 * 1024

pub data StoreError : Type 0 where
  io json too_large full : StoreError
  malformed : String → StoreError

pub record Stored (Value : Type 0) : Type 0 where
  pub version : ℕ
  pub rows : List BriefingRow
  pub pending : List (Queued Value)
  pub dismissed : List String

-- The order of strings, by their bytes.
bytes_below : List ℕ → List ℕ → Bool
bytes_below [] bs = true
bytes_below (a ∷ as') [] = false
bytes_below (a ∷ as') (b ∷ bs) = ltb a b || (a == b && bytes_below as' bs)

unfoldable pub string_below : String → String → Bool
unfolding bytes_below bytes
string_below s t = bytes_below (bytes s) (bytes t)

-- The library's stable sort, by an order that answers "not after".
unfoldable pub sorted_insert {ℓ} : {A : Type ℓ} → (A → A → Bool) → A → List A → List A
sorted_insert below x [] = x ∷ []
sorted_insert below x (y ∷ ys) = if below x y then x ∷ y ∷ ys else y ∷ sorted_insert below x ys

unfoldable pub sort_by {ℓ} : {A : Type ℓ} → (A → A → Bool) → List A → List A
unfolding sorted_insert
sort_by below [] = []
sort_by below (x ∷ xs) = sorted_insert below x (sort_by below xs)

module _ {Value : Type 0} where
  -- The queued wakes whose answer is in the replay already.
  unfoldable pub answered : (String → Bool) → List (Queued Value) → List (Queued Value)
  unfolding retain
  answered known queue = retain (λ q. known q.wake.event_id) queue

  unfoldable pub deliver_all : List (Queued Value) → List BriefingRow → List BriefingRow
  unfolding set_delivery
  deliver_all [] rows = rows
  deliver_all (q ∷ qs) rows = deliver_all qs (set_delivery delivered q.run_id rows)

  abbrev pub has_event : String → List (Queued Value) → Bool
  has_event event_id [] = false
  has_event event_id (q ∷ qs) = q.wake.event_id =ˢ event_id || has_event event_id qs

  abbrev pub run_ids : List (Queued Value) → List String
  run_ids [] = []
  run_ids (q ∷ qs) = q.run_id ∷ run_ids qs

  -- `pending.remove(index)` at the first wake of that event.
  unfoldable pub remove_event : String → List (Queued Value) → List (Queued Value)
  remove_event event_id [] = []
  remove_event event_id (q ∷ qs) =
      if q.wake.event_id =ˢ event_id then qs else q ∷ remove_event event_id qs

module _ {Value : Type 0} (to_vec : Stored Value → Option (List ℕ)) where
  abbrev pub Written : Type 0
  Written = Result StoreError (Unit {0}) × Node

  rename_over : Fault → List ℕ → Node → Written
  rename_over before_rename encoded node = (err StoreError.io, node)
  rename_over after_rename encoded node = (err StoreError.io, file encoded)
  rename_over nowhere encoded node = (ok tt, file encoded)

  write_bounded : Fault → Option (List ℕ) → Node → Written
  unfolding rename_over
  write_bounded fault none node = (err StoreError.json, node)
  write_bounded fault (some encoded) node =
      if ltb max_file_bytes (length (encoded ++ b'\n' ∷ []))
      then (err StoreError.too_large, node)
      else rename_over fault (encoded ++ b'\n' ∷ []) node

  unfoldable pub persist : Fault → BriefingStore Value → Node → Written
  unfolding write_bounded sort_by string_below
  persist fault s node =
      write_bounded fault
        (to_vec (record {
          version = format_version;
          rows = s.rows;
          pending = s.pending;
          dismissed = sort_by string_below s.dismissed;
        }))
        node

  abbrev pub Outcome : Type 0 → Type 0
  Outcome A = Result StoreError A × BriefingStore Value × Node

  abbrev pub keep_if_stored :
      {A : Type 0} → A → BriefingStore Value → BriefingStore Value → Written → Outcome A
  keep_if_stored a old new (ok u, node) = (ok a, new, node)
  keep_if_stored a old new (err e, node) = (err e, old, node)

  unfoldable pub recover_delivered :
      Fault → (String → Bool) → BriefingStore Value → Node → Outcome ℕ
  unfolding answered deliver_all retain persist
  recover_delivered fault known s node =
      let found = answered known s.pending in
      let s' : BriefingStore Value = record s {
        rows = deliver_all found s.rows;
        pending = retain (λ q. not (has_event q.wake.event_id found)) s.pending;
      } in
      if length found == 0
      then (ok 0, s, node)
      else keep_if_stored (length found) s s' (persist fault s' node)

  unfoldable pub set_run :
      Fault
      → BriefingDeliveryState
      → BriefingStore Value
      → Option String
      → Node
      → Outcome (Unit {0})
  unfolding set_delivery persist
  set_run fault state s none node = (ok tt, s, node)
  set_run fault state s (some run_id) node =
      let s' : BriefingStore Value = record s { rows = set_delivery state run_id s.rows } in
      keep_if_stored tt s s' (persist fault s' node)

  -- `in_progress`.
  unfoldable pub start : Fault → String → BriefingStore Value → Node → Outcome (Unit {0})
  unfolding run_of set_run
  start fault event_id s node = set_run fault in_progress s (run_of event_id s.pending) node

  unfoldable pub retry : Fault → String → BriefingStore Value → Node → Outcome (Unit {0})
  unfolding run_of set_run
  retry fault event_id s node = set_run fault pending s (run_of event_id s.pending) node

  -- What `fail_runs` and `resume_stopped` do once the rows are changed.
  unfoldable pub keep_changed :
      Fault → BriefingStore Value → List BriefingRow × ℕ → Node → Outcome ℕ
  unfolding persist
  keep_changed fault s (rows, changed) node =
      let s' : BriefingStore Value = record s { rows = rows } in
      if changed == 0 then (ok 0, s, node) else keep_if_stored changed s s' (persist fault s' node)

  unfoldable pub fail_runs : Fault → List String → BriefingStore Value → Node → Outcome ℕ
  unfolding set_deliveries contains keep_changed
  fail_runs fault run_ids s node =
      keep_changed fault s
        (set_deliveries
          (λ row.
            contains row.id run_ids && (is_pending row.delivery || is_in_progress row.delivery))
          failed s.rows)
        node

  unfoldable pub queued_delivery_failed : Fault → BriefingStore Value → Node → Outcome ℕ
  unfolding fail_runs
  queued_delivery_failed fault s node = fail_runs fault (run_ids s.pending) s node

  unfoldable pub resume_stopped : Fault → BriefingStore Value → Node → Outcome ℕ
  unfolding set_deliveries keep_changed
  resume_stopped fault s node =
      keep_changed fault s
        (set_deliveries (λ row. is_stopped row.delivery || is_in_progress row.delivery) pending
          s.rows)
        node

  unfoldable pub acknowledge_run :
      Fault → String → BriefingStore Value → Option String → Node → Outcome Bool
  unfolding set_delivery remove_event persist
  acknowledge_run fault event_id s none node = (ok false, s, node)
  acknowledge_run fault event_id s (some run_id) node =
      let s' : BriefingStore Value = record s {
        rows = set_delivery delivered run_id s.rows;
        pending = remove_event event_id s.pending;
      } in
      keep_if_stored true s s' (persist fault s' node)

  unfoldable pub acknowledge : Fault → String → BriefingStore Value → Node → Outcome Bool
  unfolding run_of acknowledge_run
  acknowledge fault event_id s node =
      acknowledge_run fault event_id s (run_of event_id s.pending) node
