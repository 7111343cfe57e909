-- ===== src/Briefings/Turns.antt =====
-- What host/service/src/briefings.rs never does twice: an answered turn, and a dismissal.
use mathlib.Core.List.{Memᴰ}
use scufris.Base.{
  ℕ, String, Bool, true, false, not, Option, none, some, List, [], ◌∷◌, All, length, ◌≡◌, inl, inr,
  refl, sym, ap, ◌∙◌, arith, Bool-cases, ◌==◌, if◌then◌else◌, eq_refl,
}
use scufris.Base.Files.{Node, Fault}
use scufris.Base.Result.{ok, err}
use scufris.Control.Briefing.{BriefingRow, dismissible}
use scufris.Briefings.{Queued, BriefingStore, retain, contains, find_row}
use scufris.Briefings.Store.{
  Stored, Written, Outcome, persist, keep_if_stored, recover_delivered, answered, has_event,
  deliver_all,
}
use scufris.Briefings.Changes.{
  Dismissal, dismiss, dismiss_found, dismissed_if_stored, not_dismissible,
}

retain-All {ℓ κ} :
    {A : Type ℓ} (keep : A → Bool) (P : A → Type κ) (xs : List A)
    → ((x : A) → Memᴰ x xs → keep x ≡ true → P x)
    → All P (retain keep xs)
unfolding retain
retain-All keep P [] h = tt
retain-All keep P (x ∷ xs) h = elim (Bool-cases (keep x)) [
  | inl kept ↦
      rw kept (h x (Memᴰ.head refl) kept, retain-All keep P xs (λ y m k. h y (Memᴰ.tail m) k))
  | inr dropped ↦ rw dropped (retain-All keep P xs (λ y m k. h y (Memᴰ.tail m) k))
]

All-Mem {ℓ κ} : {A : Type ℓ} (P : A → Type κ) (xs : List A) → ((x : A) → Memᴰ x xs → P x) → All P xs
All-Mem P [] h = tt
All-Mem P (x ∷ xs) h = (h x (Memᴰ.head refl), All-Mem P xs (λ y m. h y (Memᴰ.tail m)))

module _ {Value : Type 0} (known : String → Bool) where
  has_event-answered :
      (q : Queued Value) (qs : List (Queued Value))
      → Memᴰ q qs
      → known q.wake.event_id ≡ true
      → has_event q.wake.event_id (answered known qs) ≡ true
  unfolding answered retain
  has_event-answered q [] m k = elim m [ ]
  has_event-answered q (x ∷ xs) (Memᴰ.head e) k =
      let there : known x.wake.event_id ≡ true = ap (λ y. known y.wake.event_id) (sym e) ∙ k in
      rw (there, e, eq_refl) refl
  has_event-answered q (x ∷ xs) (Memᴰ.tail m) k = ground (arith, has_event-answered q xs m k)

  -- No queued wake has its answer in the replay.
  abbrev pub IsFresh : BriefingStore Value → Type 0
  IsFresh s = All (λ q. known q.wake.event_id ≡ false) s.pending

module _ {Value : Type 0} (to_vec : Stored Value → Option (List ℕ)) (known : String → Bool) where
  abbrev pub Recovered : BriefingStore Value → Outcome to_vec ℕ → Type 0
  Recovered s (ok n, s', node) = IsFresh known s'
  Recovered s (err e, s', node) = s' ≡ s

  keep_if_stored-Recovered :
      (n : ℕ) (s s' : BriefingStore Value) (w : Written to_vec)
      → IsFresh known s'
      → Recovered s (keep_if_stored to_vec n s s' w)
  keep_if_stored-Recovered n s s' (ok u, node) v = v
  keep_if_stored-Recovered n s s' (err e, node) v = refl

  Recovered-if :
      (b : Bool) (s : BriefingStore Value) (x y : Outcome to_vec ℕ)
      → (b ≡ true → Recovered s x)
      → (b ≡ false → Recovered s y)
      → Recovered s (if b then x else y)
  Recovered-if true s x y v w = v refl
  Recovered-if false s x y v w = w refl

  nothing_answered :
      (q : Queued Value) (found : List (Queued Value))
      → (length found == 0) ≡ true
      → has_event q.wake.event_id found ≡ false
  nothing_answered q [] e = refl
  nothing_answered q (x ∷ xs) e = absurd (ground arith)

  fresh_if :
      (q : Queued Value) (qs : List (Queued Value))
      → Memᴰ q qs
      → has_event q.wake.event_id (answered known qs) ≡ false
      → known q.wake.event_id ≡ false
  fresh_if q qs m h = elim (Bool-cases (known q.wake.event_id)) [
    | inr fresh ↦ fresh
    | inl old ↦ absurd (cc (has_event-answered known q qs m old, h))
  ]

  -- After the recovery at a start, no queued wake has its answer in the replay, so that none of
  -- them starts a second turn; and a recovery that could not be stored changes nothing.
  pub recover_delivered-Recovered :
      (fault : Fault) (s : BriefingStore Value) (node : Node)
      → Recovered s (recover_delivered to_vec fault known s node)
  unfolding recover_delivered
  recover_delivered-Recovered fault s node =
      let found = answered known s.pending in
      let s' : BriefingStore Value = record s {
        rows = deliver_all found s.rows;
        pending = retain (λ q. not (has_event q.wake.event_id found)) s.pending;
      } in
      let fresh : IsFresh known s' =
        retain-All (λ q. not (has_event q.wake.event_id found)) (λ q. known q.wake.event_id ≡ false)
          s.pending (λ q m k. fresh_if q s.pending m (ground arith)) in
      Recovered-if (length found == 0) s (ok 0, s, node)
        (keep_if_stored to_vec (length found) s s' (persist to_vec fault s' node))
        (λ e.
          All-Mem (λ q. known q.wake.event_id ≡ false) s.pending
            (λ q m. fresh_if q s.pending m (nothing_answered q found e)))
        (λ _. keep_if_stored-Recovered (length found) s s' (persist to_vec fault s' node) fresh)

module _ {Value : Type 0} (to_vec : Stored Value → Option (List ℕ)) where
  abbrev pub OnceDismissed : String → BriefingStore Value → Dismissal to_vec → Type 0
  OnceDismissed id s (ok fresh, s', node) =
      (s'.rows ≡ s.rows)
      × (s'.pending ≡ s.pending)
      × ((fault : Fault) (later : Node) → dismiss to_vec fault id s' later ≡ (ok false, s', later))
  OnceDismissed id s (err e, s', node) = s' ≡ s

  dismiss_again :
      (fault : Fault) (id : String) (s : BriefingStore Value) (row : BriefingRow) (node : Node)
      → find_row id s.rows ≡ some row
      → dismissible row ≡ true
      → contains id s.dismissed ≡ true
      → dismiss to_vec fault id s node ≡ (ok false, s, node)
  unfolding dismiss dismiss_found
  dismiss_again fault id s row node e d c = rw (e, d, c) refl

  dismissed_if_stored-once :
      (id : String) (s : BriefingStore Value) (row : BriefingRow) (w : Written to_vec)
      → find_row id s.rows ≡ some row
      → dismissible row ≡ true
      → OnceDismissed id s
          (dismissed_if_stored to_vec s (record s { dismissed = id ∷ s.dismissed }) w)
  unfolding dismissed_if_stored contains
  dismissed_if_stored-once id s row (ok u, node) e d =
      (refl, refl, λ fault later. dismiss_again fault id _ row later e d (rw eq_refl refl))
  dismissed_if_stored-once id s row (err x, node) e d = refl

  OnceDismissed-if :
      (b : Bool) (id : String) (s : BriefingStore Value) (x y : Dismissal to_vec)
      → (b ≡ true → OnceDismissed id s x)
      → (b ≡ false → OnceDismissed id s y)
      → OnceDismissed id s (if b then x else y)
  OnceDismissed-if true id s x y v w = v refl
  OnceDismissed-if false id s x y v w = w refl

  dismiss_found-once :
      (fault : Fault) (id : String) (s : BriefingStore Value) (o : Option BriefingRow) (node : Node)
      → find_row id s.rows ≡ o
      → OnceDismissed id s (dismiss_found to_vec fault id s o node)
  unfolding dismiss_found
  dismiss_found-once fault id s none node e = refl
  dismiss_found-once fault id s (some row) node e =
      let s' : BriefingStore Value = record s { dismissed = id ∷ s.dismissed } in
      let stored = dismissed_if_stored to_vec s s' (persist to_vec fault s' node) in
      OnceDismissed-if (not (dismissible row)) id s (err not_dismissible, s, node)
        (if contains id s.dismissed then (ok false, s, node) else stored) (λ _. refl)
        (λ d.
          OnceDismissed-if (contains id s.dismissed) id s (ok false, s, node) stored
            (λ c.
              (refl, refl, λ fault' later. dismiss_again fault' id s row later e (ground arith) c))
            (λ _.
              dismissed_if_stored-once id s row (persist to_vec fault s' node) e (ground arith)))

  -- A dismissal changes neither the rows nor the queue; a repeated one succeeds and changes
  -- nothing; and one that is refused or could not be stored leaves the store as it was.
  pub dismiss_once :
      (fault : Fault) (id : String) (s : BriefingStore Value) (node : Node)
      → OnceDismissed id s (dismiss to_vec fault id s node)
  unfolding dismiss
  dismiss_once fault id s node = dismiss_found-once fault id s (find_row id s.rows) node refl
