-- ===== src/Briefings/Changes.antt =====
-- host/service/src/briefings.rs: the dismissal of a generation, and every operation of the store as
-- one change, with what its write meets.
use scufris.Base.{
  ℕ, String, Bool, true, false, not, Option, none, some, List, [], ◌∷◌, if◌then◌else◌,
}
use scufris.Base.Files.{Node, Fault}
use scufris.Base.Result.{Result, ok, err}
use scufris.Control.Briefing.{BriefingRow, BriefingWake, dismissible}
use scufris.Briefings.{BriefingStore, contains, find_row}
use scufris.Briefings.Store.{
  Stored, StoreError, Written, persist, recover_delivered, start, retry, queued_delivery_failed,
  resume_stopped, acknowledge,
}
use scufris.Briefings.Upsert.{upsert}

pub data DismissError : Type 0 where
  unavailable not_dismissible : DismissError
  store : StoreError → DismissError

module _ {Value : Type 0} (to_vec : Stored Value → Option (List ℕ)) where
  abbrev pub Dismissal : Type 0
  Dismissal = Result DismissError Bool × BriefingStore Value × Node

  unfoldable pub dismissed_if_stored :
      BriefingStore Value → BriefingStore Value → Written to_vec → Dismissal
  dismissed_if_stored old new (ok u, node) = (ok true, new, node)
  dismissed_if_stored old new (err e, node) = (err (store e), old, node)

  unfoldable pub dismiss_found :
      Fault → String → BriefingStore Value → Option BriefingRow → Node → Dismissal
  unfolding dismissible contains persist dismissed_if_stored
  dismiss_found fault run_id s none node = (err unavailable, s, node)
  dismiss_found fault run_id s (some row) node =
      let s' : BriefingStore Value = record s { dismissed = run_id ∷ s.dismissed } in
      if not (dismissible row)
      then (err not_dismissible, s, node)
      else if contains run_id s.dismissed
      then (ok false, s, node)
      else dismissed_if_stored s s' (persist to_vec fault s' node)

  unfoldable pub dismiss : Fault → String → BriefingStore Value → Node → Dismissal
  unfolding find_row dismiss_found
  dismiss fault run_id s node = dismiss_found fault run_id s (find_row run_id s.rows) node

-- One operation of the store.
pub data Change (Value : Type 0) : Type 0 where
  upserts : Fault → BriefingRow → Option (BriefingWake Value) → Bool → Change Value
  recovers : Fault → (String → Bool) → Change Value
  starts retries acknowledges dismisses : Fault → String → Change Value
  stops resumes : Fault → Change Value

-- What an operation reports: whether it could be carried out.
abbrev pub accepted {ℓ κ} : {E : Type ℓ} {A : Type κ} → Result E A → Bool
accepted (ok a) = true
accepted (err e) = false

module _ {Value : Type 0} (to_vec : Stored Value → Option (List ℕ))
    (same : Discrete (BriefingStore Value)) where
  abbrev pub After : Type 0
  After = Bool × BriefingStore Value × Node

  abbrev pub report {ℓ κ} :
      {E : Type ℓ} {A : Type κ} → Result E A × BriefingStore Value × Node → After
  report (r, s, node) = (accepted r, s, node)

  unfoldable pub change : BriefingStore Value → Node → Change Value → After
  change s node (upserts fault row wake already) =
      report (upsert to_vec same fault row wake already s node)
  change s node (recovers fault known) = report (recover_delivered to_vec fault known s node)
  change s node (starts fault event_id) = report (start to_vec fault event_id s node)
  change s node (retries fault event_id) = report (retry to_vec fault event_id s node)
  change s node (acknowledges fault event_id) = report (acknowledge to_vec fault event_id s node)
  change s node (dismisses fault run_id) = report (dismiss to_vec fault run_id s node)
  change s node (stops fault) = report (queued_delivery_failed to_vec fault s node)
  change s node (resumes fault) = report (resume_stopped to_vec fault s node)

  unfoldable pub run : BriefingStore Value → Node → List (Change Value) → BriefingStore Value
  unfolding change
  run s node [] = s
  run s node (c ∷ cs) = let (r, s', node') = change s node c in run s' node' cs
