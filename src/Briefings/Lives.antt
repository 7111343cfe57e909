-- ===== src/Briefings/Lives.antt =====
-- Whole lives of the store of host/service/src/briefings.rs: any operations, whatever the file
-- system does to each write.
use scufris.Base.{
  ℕ, ◌≤◌, String, Bool, true, false, not, Option, none, some, List, [], ◌∷◌, length, ◌≡◌, refl, ◌∙◌,
  arith, ◌==◌, if◌then◌else◌,
}
use scufris.Base.Files.{Node, Fault}
use scufris.Base.Result.{Result, ok, err}
use scufris.Control.Briefing.{
  BriefingDeliveryState, delivered, failed, pending, in_progress, BriefingRow, dismissible,
  max_briefing_rows,
}
use scufris.Briefings.{
  Queued, BriefingStore, set_delivery, set_deliveries, run_of, find_row, contains, retain,
}
use scufris.Briefings.Store.{
  Stored, Written, Outcome, persist, keep_if_stored, recover_delivered, answered, has_event,
  remove_event, deliver_all, set_run, start, retry, keep_changed, fail_runs, queued_delivery_failed,
  resume_stopped, acknowledge_run, acknowledge,
}
use scufris.Briefings.Upsert.{UpsertOutcome}
use scufris.Briefings.Protect.{Bounded, upsert-Bounded}
use scufris.Briefings.Changes.{
  Change, upserts, recovers, starts, retries, acknowledges, dismisses, stops, resumes, change, run,
  report, After, dismiss, dismiss_found, dismissed_if_stored, not_dismissible,
}

length-set_delivery :
    (state : BriefingDeliveryState) (id : String) (rows : List BriefingRow)
    → length (set_delivery state id rows) ≡ length rows
unfolding set_delivery
length-set_delivery state id [] = refl
length-set_delivery state id (row ∷ rest) = ground (arith, length-set_delivery state id rest)

pub length-set_deliveries :
    (test : BriefingRow → Bool) (state : BriefingDeliveryState) (rows : List BriefingRow)
    → length (set_deliveries test state rows).0 ≡ length rows
unfolding set_deliveries
length-set_deliveries test state [] = refl
length-set_deliveries test state (row ∷ rest) =
    ground (arith, length-set_deliveries test state rest)

length-deliver_all :
    {Value : Type 0} (qs : List (Queued Value)) (rows : List BriefingRow)
    → length (deliver_all qs rows) ≡ length rows
unfolding deliver_all
length-deliver_all [] rows = refl
length-deliver_all (q ∷ qs) rows =
    length-deliver_all qs (set_delivery _ q.run_id rows) ∙ length-set_delivery _ q.run_id rows

module _ {Value : Type 0} where
  abbrev pub IsBounded : BriefingStore Value → Type 0
  IsBounded s = length s.rows ≤ max_briefing_rows

  -- An operation that reports an error changes nothing, and one that does not keeps the bound.
  abbrev pub Safe {ℓ κ} :
      {E : Type ℓ} {A : Type κ}
      → BriefingStore Value
      → Result E A × BriefingStore Value × Node
      → Type 0
  Safe s (ok a, s', node) = IsBounded s'
  Safe s (err e, s', node) = s' ≡ s

module _ {Value : Type 0} (to_vec : Stored Value → Option (List ℕ)) where
  Safe-if :
      {E A : Type 0} (b : Bool) (s : BriefingStore Value)
      (x y : Result E A × BriefingStore Value × Node)
      → (b ≡ true → Safe s x)
      → (b ≡ false → Safe s y)
      → Safe s (if b then x else y)
  Safe-if true s x y v w = v refl
  Safe-if false s x y v w = w refl

  keep_if_stored-Safe :
      {A : Type 0} (a : A) (s s' : BriefingStore Value) (w : Written to_vec)
      → IsBounded s'
      → Safe s (keep_if_stored to_vec a s s' w)
  keep_if_stored-Safe a s s' (ok u, node) v = v
  keep_if_stored-Safe a s s' (err e, node) v = refl

  recover_delivered-Safe :
      (fault : Fault) (known : String → Bool) (s : BriefingStore Value) (node : Node)
      → IsBounded s
      → Safe s (recover_delivered to_vec fault known s node)
  unfolding recover_delivered
  recover_delivered-Safe fault known s node v =
      let found = answered known s.pending in
      let s' : BriefingStore Value = record s {
        rows = deliver_all found s.rows;
        pending = retain (λ q. not (has_event q.wake.event_id found)) s.pending;
      } in
      let few : IsBounded s' = omega (arith, length-deliver_all found s.rows, v) in
      Safe-if (length found == 0) s (ok 0, s, node)
        (keep_if_stored to_vec (length found) s s' (persist to_vec fault s' node)) (λ _. v)
        (λ _. keep_if_stored-Safe (length found) s s' (persist to_vec fault s' node) few)

  set_run-Safe :
      (fault : Fault) (state : BriefingDeliveryState) (s : BriefingStore Value) (o : Option String)
      (node : Node)
      → IsBounded s
      → Safe s (set_run to_vec fault state s o node)
  unfolding set_run
  set_run-Safe fault state s none node v = v
  set_run-Safe fault state s (some run_id) node v =
      let s' : BriefingStore Value = record s { rows = set_delivery state run_id s.rows } in
      let few : IsBounded s' = omega (arith, length-set_delivery state run_id s.rows, v) in
      keep_if_stored-Safe tt s s' (persist to_vec fault s' node) few

  acknowledge_run-Safe :
      (fault : Fault) (event_id : String) (s : BriefingStore Value) (o : Option String)
      (node : Node)
      → IsBounded s
      → Safe s (acknowledge_run to_vec fault event_id s o node)
  unfolding acknowledge_run
  acknowledge_run-Safe fault event_id s none node v = v
  acknowledge_run-Safe fault event_id s (some run_id) node v =
      let s' : BriefingStore Value = record s {
        rows = set_delivery delivered run_id s.rows;
        pending = remove_event event_id s.pending;
      } in
      let few : IsBounded s' = omega (arith, length-set_delivery delivered run_id s.rows, v) in
      keep_if_stored-Safe true s s' (persist to_vec fault s' node) few

  keep_changed-Safe :
      (fault : Fault) (s : BriefingStore Value) (next : List BriefingRow × ℕ) (node : Node)
      → IsBounded s
      → length next.0 ≡ length s.rows
      → Safe s (keep_changed to_vec fault s next node)
  unfolding keep_changed
  keep_changed-Safe fault s (rows, changed) node v e =
      let s' : BriefingStore Value = record s { rows = rows } in
      let few : IsBounded s' = omega (arith, e, v) in
      Safe-if (changed == 0) s (ok 0, s, node)
        (keep_if_stored to_vec changed s s' (persist to_vec fault s' node)) (λ _. v)
        (λ _. keep_if_stored-Safe changed s s' (persist to_vec fault s' node) few)

  dismissed_if_stored-Safe :
      (s s' : BriefingStore Value) (w : Written to_vec)
      → IsBounded s'
      → Safe s (dismissed_if_stored to_vec s s' w)
  unfolding dismissed_if_stored
  dismissed_if_stored-Safe s s' (ok u, node) v = v
  dismissed_if_stored-Safe s s' (err e, node) v = refl

  dismiss_found-Safe :
      (fault : Fault) (run_id : String) (s : BriefingStore Value) (o : Option BriefingRow)
      (node : Node)
      → IsBounded s
      → Safe s (dismiss_found to_vec fault run_id s o node)
  unfolding dismiss_found
  dismiss_found-Safe fault run_id s none node v = refl
  dismiss_found-Safe fault run_id s (some row) node v =
      let s' : BriefingStore Value = record s { dismissed = run_id ∷ s.dismissed } in
      let stored = dismissed_if_stored to_vec s s' (persist to_vec fault s' node) in
      Safe-if (not (dismissible row)) s (err not_dismissible, s, node)
        (if contains run_id s.dismissed then (ok false, s, node) else stored) (λ _. refl)
        (λ _.
          Safe-if (contains run_id s.dismissed) s (ok false, s, node) stored (λ _. v)
            (λ _. dismissed_if_stored-Safe s s' (persist to_vec fault s' node) v))

  module _ (same : Discrete (BriefingStore Value)) where
    Bounded-Safe :
        (id : String) (s : BriefingStore Value) (o : Outcome to_vec UpsertOutcome)
        → Bounded to_vec same id s o
        → Safe s o
    Bounded-Safe id s (ok a, s', node) v = v.0
    Bounded-Safe id s (err e, s', node) v = v

    -- What a change leaves: what was there where it was refused, and a store within its bound.
    abbrev pub Leaves : BriefingStore Value → After to_vec same → Type 0
    Leaves s (r, s', node) = (r ≡ false → s' ≡ s) × IsBounded s'

    Safe-Leaves :
        {E A : Type 0} (s : BriefingStore Value) (o : Result E A × BriefingStore Value × Node)
        → IsBounded s
        → Safe s o
        → Leaves s (report to_vec same o)
    Safe-Leaves s (ok a, s', node) v few = ((λ e. cc), few)
    Safe-Leaves s (err e, s', node) v h = ((λ _. h), rw h v)

    -- Every operation keeps the store within its 64 rows; and one that reports an error, its write
    -- having failed or the operation having been refused, leaves the store as it was.
    pub change-Leaves :
        (s : BriefingStore Value) (node : Node) (c : Change Value)
        → IsBounded s
        → Leaves s (change to_vec same s node c)
    unfolding change start retry acknowledge fail_runs queued_delivery_failed resume_stopped dismiss
    change-Leaves s node (upserts fault row wake already) v =
        Safe-Leaves s _ v
          (Bounded-Safe row.id s _ (upsert-Bounded to_vec same fault row wake already s node v))
    change-Leaves s node (recovers fault known) v =
        Safe-Leaves s _ v (recover_delivered-Safe fault known s node v)
    change-Leaves s node (starts fault event_id) v =
        Safe-Leaves s _ v (set_run-Safe fault in_progress s (run_of event_id s.pending) node v)
    change-Leaves s node (retries fault event_id) v =
        Safe-Leaves s _ v (set_run-Safe fault pending s (run_of event_id s.pending) node v)
    change-Leaves s node (acknowledges fault event_id) v =
        Safe-Leaves s _ v (acknowledge_run-Safe fault event_id s (run_of event_id s.pending) node v)
    change-Leaves s node (dismisses fault run_id) v =
        Safe-Leaves s _ v (dismiss_found-Safe fault run_id s (find_row run_id s.rows) node v)
    change-Leaves s node (stops fault) v =
        Safe-Leaves s _ v
          (keep_changed-Safe fault s _ node v (length-set_deliveries _ failed s.rows))
    change-Leaves s node (resumes fault) v =
        Safe-Leaves s _ v
          (keep_changed-Safe fault s _ node v (length-set_deliveries _ pending s.rows))

    -- Through any operations, whatever the file system does to each write, a store within its 64
    -- rows stays within them.
    pub run-IsBounded :
        (s : BriefingStore Value) (node : Node) (cs : List (Change Value))
        → IsBounded s
        → IsBounded (run to_vec same s node cs)
    unfolding run
    run-IsBounded s node [] v = v
    run-IsBounded s node (c ∷ cs) v =
        let (r, s', node') = change to_vec same s node c in
        run-IsBounded s' node' cs ((change-Leaves s node c v).1)
