-- ===== src/Companion/Privacy.antt =====
-- The microphone and the screen, over every history of the companion in
-- surfaces/desktop/src/state.rs.
use scufris.Base.{String, Bool, true, false, Option, none, List, [], ◌∷◌, ◌≡◌, arith}
use scufris.Companion.{Phase, listening, transcribing, Pending}
use scufris.Companion.View.{watched, posture, presentation}
use scufris.Companion.World.{Op, World, world_step, run, started}

abbrev pub is_listening : Phase → Bool
is_listening listening = true
is_listening _ = false

abbrev pub is_capturing : Phase → Bool
is_capturing listening = true
is_capturing transcribing = true
is_capturing _ = false

pub record Inv (w : World) : Type 0 where
  pub mic : w.host.mic ≡ is_listening w.companion.phase
  pub seen : is_capturing w.companion.phase ≡ true → w.companion.blind ≡ none
  pub up : is_capturing w.companion.phase ≡ true → w.companion.dismissed ≡ false

world_step-Inv : (w : World) (op : Op) → Inv w → Inv (world_step w op)
unfolding world_step
world_step-Inv w op v = ground arith

run-Inv : (w : World) (ops : List Op) → Inv w → Inv (run w ops)
unfolding run
run-Inv w [] v = v
run-Inv w (op ∷ ops) v = run-Inv (world_step w op) ops (world_step-Inv w op v)

started-Inv : (prefix : String) (saved : Option Pending) → Inv (started prefix saved)
unfolding started
started-Inv prefix saved = ground arith

Inv-shown :
    (w : World)
    → Inv w
    → ((presentation w.companion).recording ≡ w.host.mic)
      × (w.host.mic ≡ true → posture w.companion ≡ watched)
unfolding presentation posture
Inv-shown w v = ground arith

-- In every history from a fresh start, if the host carries out each action, the recording
-- indicator is shown exactly while the microphone is open, and while it is open the pill is on
-- screen in the `watched` posture, neither dismissed nor without its window.
pub mic-shown :
    (prefix : String) (saved : Option Pending) (ops : List Op)
    → let w = run (started prefix saved) ops in
      ((presentation w.companion).recording ≡ w.host.mic)
      × (w.host.mic ≡ true → posture w.companion ≡ watched)
mic-shown prefix saved ops = Inv-shown _ (run-Inv _ ops (started-Inv prefix saved))
