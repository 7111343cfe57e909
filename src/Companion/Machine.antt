-- ===== src/Companion/Machine.antt =====
-- surfaces/desktop/src/state.rs: the operations of `Companion`. A method on `&mut self` returns
-- the new companion, beside the actions that the host must run.
use scufris.Base.{
  ℕ, ◌+◌, String, Bool, true, false, Option, none, some, List, [], ◌∷◌, if◌then◌else◌,
}
use scufris.Base.Text.{◌⋅◌, decimal, trim, is_empty}
use scufris.Control.State.{AgentHolder}
use text.Mathlib.Text.{◌==◌}
use scufris.Companion.{
  Assistant, idle, working, Delivery, refused, uncertain, Phase, resting, listening, transcribing,
  editing, sent, retained, failed, Event, activate, escape, cancel, reveal, dismiss, stop, copy,
  enter, transcribed, transcription_failed, recording_failed, persist_failed, discard_failed,
  copy_failed, acknowledged, submission_failed, submission_uncertain, Action, start_recording,
  stop_recording, discard_recording, cancel_transcription, clear_pending, persist_pending, submit,
  discard_pending, abort, copy_transcript, Pending, Companion, restored_reason, force_warning,
  uncertain_choices, service_unavailable, u64,
}

abbrev pub Outcome : Type 0
Outcome = Companion × List Action

-- What `abandon` stops on the way out of each phase.
abandoned : Phase → List Action
abandoned listening = discard_recording ∷ []
abandoned transcribing = cancel_transcription ∷ []
abandoned _ = []

unfoldable pub abandon : Companion → String → Outcome
unfolding abandoned
abandon c reason = (record c { phase = resting; blind = some reason }, abandoned c.phase)

abbrev pub is_resting : Phase → Bool
is_resting resting = true
is_resting _ = false

unfoldable pub report_failure : Companion → String → Outcome
report_failure c reason = (record c { phase = failed reason }, [])

unfoldable pub report_trouble : Companion → String → Companion
report_trouble c reason = if is_resting c.phase then record c { phase = failed reason } else c

unfoldable pub restore : Companion → Pending → Companion
restore c p =
    if is_resting c.phase
    then record c {
      phase = retained p.text p.id (restored_reason ⋅ " " ⋅ uncertain_choices) uncertain false;
    }
    else c

unfoldable pub set_connected : Companion → Bool → Companion
set_connected c true = record c { connected = true; connection_detail = "" }
set_connected c false = record c {
  connected = false;
  assistant = idle;
  assistant_detail = "";
  connection_detail =
      if is_empty c.connection_detail then service_unavailable else c.connection_detail;
}

unfoldable pub set_connection_failure : Companion → String → Companion
set_connection_failure c detail = record c { connected = false; connection_detail = detail }

unfoldable pub set_assistant : Companion → Assistant → String → AgentHolder → Companion
set_assistant c state detail holder = record c {
  assistant = state;
  assistant_detail = detail;
  holder = holder;
}

unfoldable pub set_speaking : Companion → Bool → Companion
set_speaking c speaking = record c { speaking = speaking }

-- `format!("{}-{}", self.prefix, self.commands)`.
unfoldable pub command_id : String → ℕ → String
command_id prefix n = prefix ⋅ "-" ⋅ decimal n

unfoldable pub next_id : Companion → Companion × String
next_id c =
    let commands = u64 (c.commands + 1) in
    (record c { commands = commands }, command_id c.prefix commands)

-- `submit`: `forced` sets what a refusal of this send falls back to.
unfoldable pub send : Companion → String → String → Bool → Outcome
send c transcript id forced = (
  record c { phase = sent transcript id (if forced then uncertain else refused) },
  submit id transcript ∷ [],
)

unfoldable pub close : Companion → Bool → List Action → Outcome
close c true actions = (record c { phase = resting }, actions)
close c false actions = (record c { phase = resting; dismissed = true }, actions)

unfoldable pub settle : Companion → List Action → Outcome
settle c actions = (record c { phase = resting }, actions)

-- Escape in a phase that holds nothing the person could cancel.
put_away : Companion → Bool → Outcome
put_away c keep = (if keep then c else record c { dismissed = true }, [])

-- The arm for a transcription that came back.
drafted : Companion → String → Outcome
drafted c words =
    let transcript = trim words in
    let (c', id) = next_id c in
    if is_empty transcript
    then (record c { phase = failed "Nothing was transcribed." }, [])
    else (record c' { phase = editing transcript id "" }, persist_pending id transcript ∷ [])

abbrev pub or_else : Option String → String → String
or_else none s = s
or_else (some t) s = t

-- What a send does after the words were put on disk: `actions.extend(self.submit(..))`.
persist_and_send : Companion → String → String → Bool → Outcome
persist_and_send c accepted id forced =
    let (c', actions) = send c accepted id forced in (c', persist_pending id accepted ∷ actions)

-- The arm for Enter over words that may be edited.
entered : Companion → String → String → Option String → Outcome
entered c transcript id text =
    let accepted = trim (or_else text transcript) in
    if is_empty accepted then (c, []) else persist_and_send c accepted id false

-- The arm for Enter over words whose fate is unknown.
forced : Companion → String → String → Bool → Outcome
forced c transcript id false =
    (record c { phase = retained transcript id force_warning uncertain true }, [])
forced c transcript id true = persist_and_send c transcript id true

abbrev fallback_reason : Delivery → String → String
fallback_reason refused reason = reason
fallback_reason uncertain reason = reason ⋅ " " ⋅ uncertain_choices

abbrev pub is_working : Assistant → Bool
is_working working = true
is_working _ = false

-- The arm for the stop key.
stopped : Companion → Outcome
stopped c =
    let (c', id) = next_id c in if is_working c.assistant then (c', abort id ∷ []) else (c, [])

-- The `match (&self.phase, event)` of `transition`, its arms in the order of the source; an
-- `Event::Cancel` has become `escape` with `keep` set.
dispatch : Bool → Companion → Phase → Event → Outcome
unfolding report_failure next_id send close settle put_away drafted persist_and_send entered forced
    stopped
dispatch keep c resting activate = (record c { phase = listening }, start_recording ∷ [])
dispatch keep c (failed r) activate = (record c { phase = listening }, start_recording ∷ [])
dispatch keep c listening activate = (record c { phase = transcribing }, stop_recording ∷ [])
dispatch keep c listening escape = close c keep (discard_recording ∷ [])
dispatch keep c transcribing escape = close c keep (cancel_transcription ∷ [])
dispatch keep c listening (recording_failed reason) =
    (record c { phase = failed reason }, discard_recording ∷ [])
dispatch keep c transcribing (recording_failed reason) =
    (record c { phase = failed reason }, cancel_transcription ∷ [])
dispatch keep c transcribing (transcribed words) = drafted c words
dispatch keep c transcribing (transcription_failed reason) =
    (record c { phase = failed reason }, [])
dispatch keep c (editing t id n) (enter text) = entered c t id text
dispatch keep c (retained t id r refused w) (enter text) = entered c t id text
dispatch keep c (retained t id r uncertain w) (enter text) = forced c t id w
dispatch keep c (editing t id n) copy = (c, copy_transcript t ∷ [])
dispatch keep c (retained t id r d w) copy = (c, copy_transcript t ∷ [])
dispatch keep c (editing t id n) escape = close c keep (discard_pending id ∷ [])
dispatch keep c (retained t id r d w) escape = close c keep (discard_pending id ∷ [])
dispatch keep c (failed r) escape = close c keep []
dispatch keep c resting escape = put_away c keep
dispatch keep c (sent t id p) escape = put_away c keep
dispatch keep c _ reveal = (c, [])
dispatch keep c resting dismiss = (record c { dismissed = true }, [])
dispatch keep c (sent t id p) dismiss = (record c { dismissed = true }, [])
dispatch keep c resting (discard_failed reason) = report_failure c reason
dispatch keep c (sent t id p) (acknowledged answered) =
    if id == answered then settle c (clear_pending ∷ []) else (c, [])
dispatch keep c (retained t id r d w) (acknowledged answered) =
    if id == answered then settle c (clear_pending ∷ []) else (c, [])
dispatch keep c (sent t id prior) (persist_failed reason) =
    (record c { phase = retained t id reason prior false }, [])
dispatch keep c (editing t id n) (persist_failed notice) =
    (record c { phase = editing t id notice }, [])
dispatch keep c (editing t id n) (copy_failed notice) =
    (record c { phase = editing t id notice }, [])
dispatch keep c (retained t id r d w) (persist_failed reason) =
    (record c { phase = retained t id reason d w }, [])
dispatch keep c (retained t id r d w) (copy_failed reason) =
    (record c { phase = retained t id reason d w }, [])
dispatch keep c (sent t id prior) (submission_failed answered reason) =
    if id == answered
    then (record c { phase = retained t id (fallback_reason prior reason) prior false }, [])
    else (c, [])
dispatch keep c (sent t id prior) (submission_uncertain answered reason) =
    if id == answered
    then (record c { phase = retained t id (reason ⋅ " " ⋅ uncertain_choices) uncertain false }, [])
    else (c, [])
dispatch keep c _ stop = stopped c
dispatch keep c _ _ = (c, [])

abbrev pub is_cancel : Event → Bool
is_cancel cancel = true
is_cancel _ = false

abbrev as_escape : Event → Event
as_escape cancel = escape
as_escape e = e

unfoldable pub transition : Companion → Event → Outcome
unfolding dispatch
transition c e = dispatch (is_cancel e) c c.phase (as_escape e)

-- Both gestures that ask for the pill bring a dismissed or unusable one home.
abbrev pub asks_for_pill : Event → Bool
asks_for_pill activate = true
asks_for_pill reveal = true
asks_for_pill _ = false

abbrev pub brought_home : Companion → Event → Companion
brought_home c e = if asks_for_pill e then record c { blind = none; dismissed = false } else c

unfoldable pub apply : Companion → Event → Outcome
unfolding transition
apply c e = transition (brought_home c e) e
