-- ===== src/Companion.antt =====
-- surfaces/desktop/src/state.rs: the data of the pill's state machine.
-- A Rust `&'static str` or `String` is a `String`; the command counter is a `u64`.
pub mod Machine
pub mod View
pub mod World
pub mod Privacy
pub mod Words
pub mod Sends
pub mod Answers
pub mod Screen
pub mod Ids
mod Tests
use scufris.Base.{ℕ, ◌+◌, ◌%◌, ◌^◌, String, Bool, true, false, Option, none}
use scufris.Control.State.{ScufrisState, AgentHolder}

pub data Assistant : Type 0 where
  starting idle working speaking blocked error : Assistant

pub from_service : ScufrisState → Assistant
from_service ScufrisState.starting = starting
from_service ScufrisState.idle = idle
from_service ScufrisState.working = working
from_service ScufrisState.blocked = blocked
from_service ScufrisState.failed = error

-- How much is known about a retained transcript's fate.
pub data Delivery : Type 0 where
  refused uncertain : Delivery

pub data Phase : Type 0 where
  resting listening transcribing : Phase
  -- transcript, id, notice
  editing : String → String → String → Phase
  -- transcript, id, prior
  sent : String → String → Delivery → Phase
  -- transcript, id, reason, delivery, warned
  retained : String → String → String → Delivery → Bool → Phase
  failed : String → Phase

pub data Event : Type 0 where
  activate escape cancel reveal dismiss stop copy : Event
  enter : Option String → Event
  transcribed transcription_failed recording_failed : String → Event
  persist_failed discard_failed copy_failed acknowledged : String → Event
  -- id, reason
  submission_failed submission_uncertain : String → String → Event

pub data Action : Type 0 where
  start_recording stop_recording discard_recording : Action
  cancel_transcription clear_pending : Action
  -- id, text
  persist_pending submit : String → String → Action
  discard_pending abort : String → Action
  copy_transcript : String → Action

-- pending.rs: the durable record of an accepted transcript.
pub record Pending : Type 0 where
  pub id : String
  pub text : String

pub record Companion : Type 0 where
  pub phase : Phase
  pub assistant : Assistant
  pub assistant_detail : String
  pub speaking : Bool
  pub connected : Bool
  pub connection_detail : String
  pub prefix : String
  pub commands : ℕ
  pub dismissed : Bool
  pub holder : AgentHolder
  pub blind : Option String

abbrev pub restored_reason : String
restored_reason = "Recovered after a restart. Whether it was sent is unknown."

abbrev pub force_warning : String
force_warning =
    "This may already be in the conversation. Sending it again could repeat what it did. Press Enter again to send anyway, Ctrl+C to copy, Escape to discard."

abbrev pub uncertain_choices : String
uncertain_choices = "Ctrl+C to copy, Escape to discard, Enter to send anyway."

abbrev pub service_unavailable : String
service_unavailable = "The Scufris service is unavailable."

-- `Companion::new`.
unfoldable pub new : String → Companion
new prefix = record {
  phase = resting;
  assistant = idle;
  assistant_detail = "";
  speaking = false;
  connected = false;
  connection_detail = service_unavailable;
  prefix = prefix;
  commands = 0;
  dismissed = true;
  holder = AgentHolder.managed;
  blind = none;
}

-- Arithmetic on a `u64` counter in a release build.
abbrev pub u64 : ℕ → ℕ
u64 n = n % 2 ^ 64
