-- ===== src/PendingStore/Runs.antt =====
-- Whole lives of the file of surfaces/desktop/src/pending.rs: any saves, removals and discards,
-- whatever the file system does to each.
use mathlib.Core.List.{Memᴰ}
use scufris.Base.{
  String, Bool, true, Option, none, some, List, [], ◌∷◌, All, ◌≡◌, inl, inr, refl, ◌∙◌,
}
use scufris.Base.Files.{Node, absent, Fault}
use scufris.Base.Result.{ok, err}
use scufris.Control.Text.{is_identifier}
use scufris.Companion.{Pending}
use scufris.PendingStore.{
  RecordJson, Written, Discarded, load, save, clear_pending, discard_pending,
}
use scufris.PendingStore.Load.{
  ReadsBack, EscapesBounded, Saved, save-Saved, Gone, discard_pending-Gone, load-clear_pending,
}

-- One call of the application, with what it meets.
pub data Call : Type 0 where
  saves : Fault → Pending → Call
  clears : Bool → Bool → Call
  discards : Bool → Fault → String → Call

-- Every identifier is one that the companion gives.
abbrev pub HasIdentifier : Call → Type 0
HasIdentifier (discards removes fault id) = is_identifier id ≡ true
HasIdentifier _ = Unit

module _ (json : RecordJson) (reason : String) where
  unfoldable pub step : Node → Call → Node
  step node (saves fault p) = (save json reason fault p node).1
  step node (clears first second) = clear_pending json reason first second node
  step node (discards removes fault id) = (discard_pending json reason removes fault id node).1

  unfoldable pub run : Node → List Call → Node
  unfolding step
  run node [] = node
  run node (c ∷ cs) = run (step node c) cs

  abbrev saved : Pending → Written json reason → List (Option Pending) → List (Option Pending)
  saved p (ok u, node) possible = some p ∷ []
  saved p (err e, node) possible = some p ∷ possible

  abbrev discarded : Discarded json reason → List (Option Pending) → List (Option Pending)
  discarded (ok u, node) possible = none ∷ []
  discarded (err e, node) possible = none ∷ possible

  -- What may be in the store, from what the calls reported: the newest transcript whose save
  -- reported success or nothing, and those whose save failed since; nothing but nothing after a
  -- removal or a discard that reported success.
  unfoldable pub expected : List (Option Pending) → Node → Call → List (Option Pending)
  expected possible node (saves fault p) = saved p (save json reason fault p node) possible
  expected possible node (clears first second) = none ∷ possible
  expected possible node (discards removes fault id) =
      discarded (discard_pending json reason removes fault id node) possible

  unfoldable pub expected_after : List (Option Pending) → Node → List Call → List (Option Pending)
  unfolding expected step
  expected_after possible node [] = possible
  expected_after possible node (c ∷ cs) = expected_after (expected possible node c) (step node c) cs

  abbrev pub Holds : List (Option Pending) → Node → Type 0
  Holds possible node =
      (found : Option Pending) × Memᴰ found possible × (load json reason node ≡ ok found)

  Saved-Holds :
      (possible : List (Option Pending)) (node : Node) (p : Pending) (w : Written json reason)
      → Holds possible node
      → Saved json reason node p w
      → Holds (saved p w possible) w.1
  Saved-Holds possible node p (ok u, node') v h = (some p, Memᴰ.head refl, h)
  Saved-Holds possible node p (err e, node') (found, m, l) (inl h) = (found, Memᴰ.tail m, h ∙ l)
  Saved-Holds possible node p (err e, node') v (inr h) = (some p, Memᴰ.head refl, h)

  Gone-Holds :
      (possible : List (Option Pending)) (node : Node) (w : Discarded json reason)
      → Holds possible node
      → Gone json reason node w
      → Holds (discarded w possible) w.1
  Gone-Holds possible node (ok u, node') v h = (none, Memᴰ.head refl, h)
  Gone-Holds possible node (err e, node') (found, m, l) (inl h) = (found, Memᴰ.tail m, h ∙ l)
  Gone-Holds possible node (err e, node') v (inr h) = (none, Memᴰ.head refl, h)

  module _ (back : ReadsBack json) (small : EscapesBounded json) where
    step-Holds :
        (possible : List (Option Pending)) (node : Node) (c : Call)
        → HasIdentifier c
        → Holds possible node
        → Holds (expected possible node c) (step node c)
    unfolding expected step
    step-Holds possible node (saves fault p) i v =
        Saved-Holds possible node p (save json reason fault p node) v
          (save-Saved json reason fault p node back small)
    step-Holds possible node (clears first second) i (found, m, l) =
        elim (load-clear_pending json reason first second node) [
          | inl same ↦ (found, Memᴰ.tail m, same ∙ l)
          | inr gone ↦ (none, Memᴰ.head refl, gone)
        ]
    step-Holds possible node (discards removes fault id) i v =
        Gone-Holds possible node (discard_pending json reason removes fault id node) v
          (discard_pending-Gone json reason removes fault id node back small i)

    run-keeps :
        (possible : List (Option Pending)) (node : Node) (cs : List Call)
        → All HasIdentifier cs
        → Holds possible node
        → Holds (expected_after possible node cs) (run node cs)
    unfolding run expected_after
    run-keeps possible node [] i v = v
    run-keeps possible node (c ∷ cs) (ic, i) v =
        run-keeps (expected possible node c) (step node c) cs i (step-Holds possible node c ic v)

  -- Through any saves, removals and discards from an empty store, whatever the file system does to
  -- each, a start reads the store without an error and finds what the calls reported: the last
  -- transcript whose save reported success, or one whose save failed later, or nothing where a
  -- removal or a discard was tried later; and only nothing after a discard that reported success.
  -- The JSON library reads back what it wrote and takes six bytes at most for one, and each discard
  -- names an identifier.
  pub run-Holds :
      (cs : List Call)
      → ReadsBack json
      → EscapesBounded json
      → All HasIdentifier cs
      → Holds (expected_after (none ∷ []) absent cs) (run absent cs)
  run-Holds cs back small i =
      run-keeps back small (none ∷ []) absent cs i (none, Memᴰ.head refl, (unfold load in refl))
