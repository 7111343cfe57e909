-- ===== src/Companion/World.antt =====
-- surfaces/desktop/src/state.rs: every entry into the companion as one step, and the effect that
-- each `Action` is documented to have on the microphone, the transcriber and the durable store,
-- when the host carries it out.
use scufris.Base.{String, Bool, true, false, Option, none, some, List, [], ◌∷◌}
use scufris.Control.State.{AgentHolder}
use scufris.Companion.{
  Assistant, Event, Action, start_recording, stop_recording, discard_recording,
  cancel_transcription, clear_pending, persist_pending, submit, discard_pending, abort,
  copy_transcript, Pending, Companion, new,
}
use scufris.Companion.Machine.{
  Outcome, apply, abandon, report_trouble, restore, set_connected, set_connection_failure,
  set_assistant, set_speaking,
}

pub record Host : Type 0 where
  pub mic : Bool
  pub transcriber : Bool
  pub saved : Option Pending

unfoldable pub perform : Host → Action → Host
perform h start_recording = record h { mic = true }
perform h stop_recording = record h { mic = false; transcriber = true }
perform h discard_recording = record h { mic = false }
perform h cancel_transcription = record h { transcriber = false }
perform h (persist_pending id text) = record h { saved = some (record { id = id; text = text }) }
perform h clear_pending = record h { saved = none }
perform h (discard_pending id) = record h { saved = none }
perform h (submit id text) = h
perform h (abort id) = h
perform h (copy_transcript text) = h

unfoldable pub perform_all : Host → List Action → Host
unfolding perform
perform_all h [] = h
perform_all h (a ∷ as') = perform_all (perform h a) as'

-- One entry into the companion. `reopens` is the start of the process, which restores what is
-- saved; `happens` is an event.
pub data Op : Type 0 where
  happens : Event → Op
  abandons reports disconnects : String → Op
  reopens : Op
  connects speaks : Bool → Op
  hears : Assistant → String → AgentHolder → Op

abbrev reopened : Companion → Option Pending → Companion
reopened c none = c
reopened c (some p) = restore c p

unfoldable pub step : Companion → Option Pending → Op → Outcome
unfolding apply abandon report_trouble restore set_connected set_connection_failure set_assistant
    set_speaking
step c saved (happens e) = apply c e
step c saved (abandons reason) = abandon c reason
step c saved (reports reason) = (report_trouble c reason, [])
step c saved (disconnects detail) = (set_connection_failure c detail, [])
step c saved reopens = (reopened c saved, [])
step c saved (connects b) = (set_connected c b, [])
step c saved (speaks b) = (set_speaking c b, [])
step c saved (hears a detail holder) = (set_assistant c a detail holder, [])

pub record World : Type 0 where
  pub companion : Companion
  pub host : Host

unfoldable pub world_step : World → Op → World
unfolding step perform_all
world_step w op =
    let (c, actions) = step w.companion w.host.saved op in
    record { companion = c; host = perform_all w.host actions }

unfoldable pub run : World → List Op → World
unfolding world_step
run w [] = w
run w (op ∷ ops) = run (world_step w op) ops

-- A companion that has just started, over what an earlier process saved.
unfoldable pub started : String → Option Pending → World
unfolding new
started prefix saved = record {
  companion = new prefix;
  host = record { mic = false; transcriber = false; saved = saved };
}
