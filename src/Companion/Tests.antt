-- ===== src/Companion/Tests.antt =====
-- Runs of the companion of surfaces/desktop/src/state.rs, and its theorems at concrete inputs.
use scufris.Base.{true, none, some, List, [], ◌∷◌, ◌≡◌, ◌⊎◌, refl}
use scufris.Base.Text.{trim, decimal}
use scufris.Companion.{
  activate, escape, cancel, stop, enter, transcribed, acknowledged, submission_uncertain, resting,
  Pending, working,
}
use scufris.Companion.Machine.{apply, command_id}
use scufris.Companion.View.{watched, posture, presentation}
use scufris.Companion.World.{Op, World, happens, hears, world_step, run, started}
use scufris.Control.State.{AgentHolder}
use scufris.Companion.Privacy.{mic-shown}
use scufris.Companion.Words.{held, Retires, held-saved, saved_retired}
use scufris.Companion.Sends.{Submits, frozen, warned_words, apply-Submits, apply-frozen}
use scufris.Companion.Ids.{minted_in}

-- Two presses and a transcription: the words are in the textbox.
abbrev drafting : List Op
drafting = happens activate ∷ happens activate ∷ happens (transcribed " milk ") ∷ []

-- Sent, and then never answered.
abbrev uncertain_send : List Op
uncertain_send =
    happens activate
    ∷ happens activate
    ∷ happens (transcribed " milk ")
    ∷ happens (enter none)
    ∷ happens (submission_uncertain "pill-1" "No answer.")
    ∷ []

abbrev milk : Pending
milk = record { id = "pill-1"; text = "milk" }

abbrev after : List Op → World
after ops = run (started "pill" none) ops

drafted_words : held (after drafting).companion.phase ≡ some milk
unfolding run started apply trim decimal command_id
drafted_words = refl

uncertain_words : frozen (after uncertain_send).companion.phase ≡ some milk
unfolding run started apply trim decimal command_id
uncertain_words = refl

mic-shown_example :
    let w = after (happens activate ∷ []) in
    ((presentation w.companion).recording ≡ w.host.mic)
    × (w.host.mic ≡ true → posture w.companion ≡ watched)
mic-shown_example = mic-shown "pill" none (happens activate ∷ [])

held-saved_example :
    let w = after drafting in
    (held w.companion.phase ≡ none) ⊎ (held w.companion.phase ≡ w.host.saved)
held-saved_example = held-saved "pill" none drafting

saved_retired_example :
    (held (after drafting).companion.phase ≡ some milk) × Retires milk (happens escape)
unfolding run started apply trim decimal command_id
saved_retired_example =
    saved_retired (after drafting) (happens escape) milk (held-saved "pill" none drafting) refl refl

apply-Submits_example :
    Submits (after drafting).companion (enter none) (apply (after drafting).companion (enter none))
apply-Submits_example = apply-Submits (after drafting).companion (enter none)

apply-frozen_example :
    let c = (after uncertain_send).companion in
    (frozen (apply c (enter none)).0.phase ≡ some milk)
    ⊎ (((apply c (enter none)).0.phase ≡ resting)
        × ((enter none ≡ escape) ⊎ ((enter none ≡ cancel) ⊎ (enter none ≡ acknowledged "pill-1"))))
apply-frozen_example =
    apply-frozen (after uncertain_send).companion (enter none) milk uncertain_words

warned_now : warned_words (apply (after uncertain_send).companion (enter none)).0.phase ≡ some milk
unfolding run started apply trim decimal command_id
warned_now = refl

-- A draft, and then two stops of a working agent: three identifiers.
abbrev asking : List Op
asking =
    happens activate
    ∷ happens activate
    ∷ happens (transcribed "milk")
    ∷ hears working "" AgentHolder.managed
    ∷ happens stop
    ∷ happens stop
    ∷ []

three_ids : minted_in (started "pill" none) asking ≡ "pill-1" ∷ "pill-2" ∷ "pill-3" ∷ []
unfolding run started apply trim decimal command_id world_step
three_ids = refl
