-- ===== src/Widgets/Tests.antt =====
-- Runs of the turn and of the pool of surfaces/desktop/src/widgets, and their theorems at concrete
-- inputs.
use scufris.Base.{ℕ, ◌+◌, ◌≤◌, true, false, some, List, [], ◌∷◌, length, ◌≡◌, refl}
use scufris.Base.Text.{decimal}
use scufris.Widgets.Turn
use scufris.Widgets.Turn.{Turn}
use scufris.Widgets.Order.{free-run, panic-run}
use scufris.Widgets.Pool.{
  warm_shells, new, warm, mint, mint_one, patient, ready, take, pop, find_label, remove_label,
  insert_label,
}
use scufris.Widgets.Labels.{occurs, labels}
use scufris.Widgets.Handed.{Step, warms, readies, takes, run_steps, step, run_steps-Once}

-- A decision is handed over before there is a thread, and one more while the first is made.
abbrev two_handed : List (Turn.Step ℕ)
two_handed =
    Turn.announces
    ∷ Turn.sends 1
    ∷ Turn.staffs
    ∷ Turn.takes
    ∷ Turn.announces
    ∷ Turn.sends 2
    ∷ Turn.finishes
    ∷ Turn.takes
    ∷ Turn.finishes
    ∷ []

two_made : (Turn.free (Turn.run Turn.new two_handed)).0 ≡ true
unfolding Turn.free Turn.run Turn.step Turn.new Turn.staff Turn.announce Turn.send Turn.take
    Turn.finish
two_made = refl

free-run_example :
    ((Turn.run Turn.new two_handed).sent ≡ (Turn.run Turn.new two_handed).made)
    × ((Turn.run Turn.new two_handed).announced ≡ 0)
    × ((Turn.run Turn.new two_handed).held ≡ false)
free-run_example = free-run two_handed two_made

abbrev one_taken : List (Turn.Step ℕ)
one_taken = Turn.staffs ∷ Turn.announces ∷ Turn.sends 1 ∷ Turn.takes ∷ []

one_making : (Turn.run Turn.new one_taken).making ≡ some 1
unfolding Turn.run Turn.step Turn.new Turn.staff Turn.announce Turn.send Turn.take
one_making = refl

abbrev wedged : Turn ℕ
wedged = Turn.run (Turn.step (Turn.run Turn.new one_taken) Turn.panics) (Turn.frees ∷ [])

panic-run_example : ((Turn.free wedged).0 ≡ false) × ((Turn.send 2 wedged wedged.worker).0 ≡ false)
panic-run_example = panic-run one_taken (Turn.frees ∷ []) 1 2 one_making

abbrev first_open : List (Step ℕ)
first_open = warms 0 ∷ readies "widget-a-2" 7 ∷ takes ∷ warms 1 ∷ []

-- The shell that loaded is handed out, and its replacement is started.
first_shell : (run_steps "a" first_open (new, [])).1 ≡ "widget-a-2" ∷ []
unfolding run_steps step new warm mint mint_one patient ready take pop find_label remove_label
    insert_label decimal
first_shell = refl

run_steps-Once_example :
    let (s, handed) = run_steps "a" first_open (new, []) in
    (occurs "widget-a-2" handed ≤ 1)
    × (occurs "widget-a-2" handed ≡ 1
        → (occurs "widget-a-2" s.idle ≡ 0) × (occurs "widget-a-2" (labels s.loading) ≡ 0))
    × (length s.idle + length s.loading ≤ warm_shells)
run_steps-Once_example = run_steps-Once "a" first_open "widget-a-2"
