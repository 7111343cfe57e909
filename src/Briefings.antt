-- ===== src/Briefings.antt =====
-- host/service/src/briefings.rs: the store of briefing rows and of the wakes that wait for a turn.
-- The set of dismissed generations is a list without repetitions. A JSON value inside a wake, and
-- whether two of them are equal, are parameters.
pub mod Store
pub mod Upsert
pub mod Changes
pub mod Merge
pub mod Room
pub mod Protect
pub mod Lives
pub mod Turns
pub mod Load
pub mod Opened
mod Tests
use text.Mathlib.Text.{◌==◌ as ◌=ˢ◌}
use scufris.Base.{
  ℕ, ◌+◌, ◌*◌, String, Bool, true, false, not, ◌&&◌, ◌||◌, Option, none, some, List, [], ◌∷◌, ltb,
  leb, ◌==◌, if◌then◌else◌,
}
use scufris.Control.Text.{bytes}
use scufris.Control.Briefing.{
  BriefingDeliveryState, in_progress, delivered, BriefingRow, BriefingWake, active,
  requires_attention, is_delivered, is_pending, is_in_progress, is_stopped,
}

-- `Vec::retain`, and the `filter` of an iterator.
unfoldable pub retain {ℓ} : {A : Type ℓ} → (A → Bool) → List A → List A
retain keep [] = []
retain keep (x ∷ xs) = if keep x then x ∷ retain keep xs else retain keep xs

unfoldable pub contains : String → List String → Bool
contains s [] = false
contains s (t ∷ ts) = t =ˢ s || contains s ts

pub record Queued (Value : Type 0) : Type 0 where
  pub run_id : String
  pub wake : BriefingWake Value

pub record BriefingStore (Value : Type 0) : Type 0 where
  pub rows : List BriefingRow
  pub pending : List (Queued Value)
  pub dismissed : List String

-- `rows.iter().find(|row| row.id == id)`.
unfoldable pub find_row : String → List BriefingRow → Option BriefingRow
find_row id [] = none
find_row id (row ∷ rest) = if row.id =ˢ id then some row else find_row id rest

abbrev pub delivered_row : Option BriefingRow → Bool
delivered_row none = false
delivered_row (some row) = is_delivered row.delivery

-- `rows.iter().any(|row| row.id == id && row.delivery == ..)`.
unfoldable pub any_row : (BriefingDeliveryState → Bool) → String → List BriefingRow → Bool
any_row test id [] = false
any_row test id (row ∷ rest) = (row.id =ˢ id && test row.delivery) || any_row test id rest

-- The first row of that identity is given a delivery state.
unfoldable pub set_delivery : BriefingDeliveryState → String → List BriefingRow → List BriefingRow
set_delivery state id [] = []
set_delivery state id (row ∷ rest) =
    if row.id =ˢ id
    then record row { delivery = state } ∷ rest
    else row ∷ set_delivery state id rest

-- The rows whose delivery a test picks are given a delivery state, and how many they are.
unfoldable pub set_deliveries :
    (BriefingRow → Bool) → BriefingDeliveryState → List BriefingRow → List BriefingRow × ℕ
set_deliveries test state [] = ([], 0)
set_deliveries test state (row ∷ rest) =
    let (rest', changed) = set_deliveries test state rest in
    if test row
    then (record row { delivery = state } ∷ rest', changed + 1)
    else (row ∷ rest', changed)

abbrev logical : Option BriefingRow → Option (String × String)
logical none = none
logical (some row) = some (row.date, row.profile)

module _ {Value : Type 0} where
  -- `BriefingStore::rows`.
  unfoldable pub shown_rows : BriefingStore Value → List BriefingRow
  unfolding retain contains active requires_attention
  shown_rows s =
      retain (λ row. active row || (requires_attention row && not (contains row.id s.dismissed)))
        s.rows

  abbrev pub is_waiting : List BriefingRow → Queued Value → Bool
  is_waiting rows queued = any_row is_pending queued.run_id rows

  first_waiting : List BriefingRow → List (Queued Value) → Option (Queued Value)
  unfolding any_row
  first_waiting rows [] = none
  first_waiting rows (queued ∷ rest) =
      if is_waiting rows queued then some queued else first_waiting rows rest

  unfoldable pub next : BriefingStore Value → Option (Queued Value)
  unfolding first_waiting
  next s = first_waiting s.rows s.pending

  count_waiting : List BriefingRow → List (Queued Value) → ℕ
  unfolding any_row
  count_waiting rows [] = 0
  count_waiting rows (queued ∷ rest) =
      if is_waiting rows queued then count_waiting rows rest + 1 else count_waiting rows rest

  unfoldable pub pending_len : BriefingStore Value → ℕ
  unfolding count_waiting
  pending_len s = count_waiting s.rows s.pending

  unfoldable pub run_of : String → List (Queued Value) → Option String
  run_of event_id [] = none
  run_of event_id (queued ∷ rest) =
      if queued.wake.event_id =ˢ event_id then some queued.run_id else run_of event_id rest

  unfoldable pub run_for_event : BriefingStore Value → String → Option String
  unfolding run_of
  run_for_event s event_id = run_of event_id s.pending

  abbrev logical_of : BriefingStore Value → Option String → Option (String × String)
  logical_of s none = none
  logical_of s (some run_id) = logical (find_row run_id s.rows)

  unfoldable pub logical_run_for_event : BriefingStore Value → String → Option (String × String)
  unfolding run_for_event find_row
  logical_run_for_event s event_id = logical_of s (run_for_event s event_id)
