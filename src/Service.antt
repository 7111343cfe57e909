-- ===== src/Service.antt =====
-- host/service/src/service.rs: what the service keeps under its lock, and what it takes from around
-- it. A socket, a process and a clock are outside: what each of them answers to a call is in
-- `World`, in the order of the calls, and `sent` is what went out, the newest first.
pub mod Schema
pub mod Outbox
pub mod Folded
pub mod Proactive
pub mod Turns
pub mod Answers
pub mod Surfaces
pub mod Agents
pub mod Leases
pub mod Ingress
pub mod Process
pub mod Machine
pub mod Kept
pub mod KeptAnswers
pub mod KeptSurfaces
pub mod KeptCalls
pub mod Fence
pub mod Word
pub mod Panics
pub mod Watch
pub mod Backoff
pub mod Depth
pub mod Recorded
pub mod Submitted
pub mod Stdout
pub mod Heard
pub mod Waiting
pub mod Granted
pub mod Together
mod Tests
use text.Mathlib.Text.{◌==◌ as ◌=ˢ◌}
use scufris.Base.{
  ℕ, zero, suc, ◌+◌, ◌-◌, ◌*◌, ◌^◌, String, Bool, true, false, not, ◌&&◌, ◌||◌, Option, none, some,
  List, [], ◌∷◌, ltb, leb, ◌==◌, if◌then◌else◌,
}
use scufris.Base.Files.{Node, Fault, nowhere}
use scufris.Control.State.{AgentHolder, managed, terminal}
use scufris.Control.Message.{AttachmentDescriptor, WidgetCall}
use scufris.Control.Surface.{WidgetDefinition, SurfaceRegistration, SurfaceResponseBody, JobRow}
use scufris.Control.Agent.{AgentResponseBody}
use scufris.Control.Local.{LeaseHolder}
use scufris.Conversation.{ConversationHistory}
use scufris.Conversation.Store.{Json, Disk}
use scufris.Service.Schema.{Tree}
use scufris.Briefings.{BriefingStore}
use scufris.Briefings.Store.{Stored, StoreError}

pub record SurfaceSender : Type 0 where
  pub connection : ℕ
  pub generation : ℕ

pub record RegisteredSurface (Value : Type 0) : Type 0 where
  pub registration : SurfaceRegistration Value
  pub sender : SurfaceSender

pub record AgentConnection : Type 0 where
  pub connection : ℕ
  pub lease : Option ℕ

pub record Lease : Type 0 where
  pub connection : ℕ
  pub generation : ℕ
  pub holder : LeaseHolder
  pub last_ping : ℕ

pub data Lifecycle : Type 0 where
  starting working idle failed : Lifecycle

-- `cancels` is the answer to a dialog, to the process of a generation.
pub data Sent (Value : Type 0) : Type 0 where
  to_surface : ℕ → SurfaceResponseBody Value → Sent Value
  to_agent : ℕ → AgentResponseBody Value → Sent Value
  cancels : ℕ → String → Sent Value

-- `now` is the clock in milliseconds, `writes` what each write to disk meets, and `takes` whether
-- each outbox has room for the next message offered to it.
pub record World (Value : Type 0) : Type 0 where
  pub now : ℕ
  pub writes : List Fault
  pub takes : List Bool
  pub sent : List (Sent Value)
  pub conversation_disk : Disk
  pub briefing_disk : Node

-- A process is the generation that it was started in. The maps are association lists, and so is
-- the set of logical runs.
pub record Inner (Value : Type 0) : Type 0 where
  pub process : Option ℕ
  pub process_generation : ℕ
  pub started : ℕ
  pub agent_joined : Bool
  pub failures : ℕ
  pub lifecycle : Lifecycle
  pub lifecycle_detail : String
  pub jobs : List JobRow
  pub briefings : BriefingStore Value
  pub active_proactive : Option String
  pub active_proactive_started : Bool
  pub consecutive_proactive : ℕ
  pub proactive_runs : List (String × String)
  pub proactive_not_before : Option ℕ
  pub proactive_timer_pending : Bool
  pub proactive_circuit_open : Bool
  pub surfaces : List (String × RegisteredSurface Value)
  pub surface_by_connection : List (ℕ × (String × ℕ))
  pub next_surface_generation : ℕ
  pub agent : Option AgentConnection
  pub conversation : ConversationHistory Value
  pub associated_surface : Option String
  pub associated_turn : Option String
  pub lineage_file : Option String
  pub lineage_holder : AgentHolder
  pub stopping : Bool
  pub lease : Option Lease
  pub lease_generation : ℕ
  pub world : World Value

-- `same_path` compares two paths by their components; `nesting` is how deep a value is
-- nested.
-- What the service is made with: its configuration, the JSON library of its two stores, and the
-- attachment store of host/service/src/attachment.rs, which resolves identifiers for a message.
-- `store_error` is what an error of the briefing store prints as, and `start` the error, if any,
-- that a process meets which is started from a session file at a time.
pub record Env (Value : Type 0) : Type 1 where
  pub terminal_lease : Bool
  pub session_dir : String
  pub conversation_json : Json Value
  pub briefing_to_vec : Stored Value → Option (List ℕ)
  pub same_briefings : Discrete (BriefingStore Value)
  pub resolve : List String → Option (List AttachmentDescriptor)
  pub tree : Tree Value
  pub nesting : Value → ℕ
  pub same_path : String → String → Bool
  pub store_error : StoreError → String
  pub start : Option String → ℕ → Option String

-- What a thread does once it has let go of the lock, or that it panicked. After `reconciles` it takes
-- the lock again for `proactive_settled`.
pub data Next : Type 0 where
  done dispatches starts panics : Next
  reconciles : String → Next

abbrev pub recovery : String
recovery = " Restart it from the tray, or with `systemctl --user restart scufris-service`."

abbrev pub proactive_recovery : String
proactive_recovery =
    " Send a message to retry stopped briefings, restart it from the tray, or use `systemctl --user restart scufris-service`."

abbrev pub healthy : ℕ
healthy = 10 * 1000

abbrev pub max_failures : ℕ
max_failures = 3

abbrev pub lease_ping_interval : ℕ
lease_ping_interval = 5 * 1000

abbrev pub lease_deadline : ℕ
lease_deadline = 3 * 5 * 1000

abbrev pub max_consecutive_proactive_turns : ℕ
max_consecutive_proactive_turns = 3

abbrev pub proactive_backoff_min : ℕ
proactive_backoff_min = 2 * 1000

abbrev pub proactive_backoff_max : ℕ
proactive_backoff_max = 30 * 1000

abbrev pub lower : ℕ → ℕ → ℕ
lower a b = if ltb b a then b else a

unfoldable pub proactive_backoff : ℕ → ℕ
proactive_backoff completed =
    lower (proactive_backoff_min * 2 ^ lower (completed - 1) 4) proactive_backoff_max

abbrev pub is_idle : Lifecycle → Bool
is_idle idle = true
is_idle _ = false

abbrev pub is_working : Lifecycle → Bool
is_working working = true
is_working _ = false

abbrev pub is_failed : Lifecycle → Bool
is_failed failed = true
is_failed _ = false

abbrev pub is_there {ℓ} : {A : Type ℓ} → Option A → Bool
is_there none = false
is_there (some a) = true

abbrev pub names : Option String → String → Bool
names none s = false
names (some t) s = t =ˢ s

unfoldable pub agent_holds_lease_with : Option AgentConnection → Option Lease → ℕ → Bool
agent_holds_lease_with (some agent) (some lease) connection =
    agent.connection == connection
    && elim agent.lease [ none ↦ false | some named ↦ named == lease.generation ]
agent_holds_lease_with _ _ connection = false

module _ {Value : Type 0} where
  unfoldable pub holder : Inner Value → AgentHolder
  holder s = if is_there s.lease then terminal else managed

  unfoldable pub agent_holds_lease : Inner Value → ℕ → Bool
  unfolding agent_holds_lease_with
  agent_holds_lease s connection = agent_holds_lease_with s.agent s.lease connection

  unfoldable pub close_turn : Inner Value → Inner Value
  close_turn s = record s { associated_surface = none; associated_turn = none }
