-- ===== src/Service/Process.antt =====
-- host/service/src/service.rs: the process that the service manages: its start, its events, its end
-- and the shutdown; and of host/service/src/rpc.rs the events that are acted on.
use text.Mathlib.Text.{◌==◌ as ◌=ˢ◌}
use scufris.Base.{
  ℕ, ◌+◌, ◌-◌, String, Bool, true, false, not, ◌&&◌, ◌||◌, Option, none, some, ◌∷◌, leb, ◌==◌,
  if◌then◌else◌,
}
use scufris.Base.Text.{◌⋅◌, decimal}
use scufris.Control.State.{managed, terminal}
use scufris.Service.{
  Lifecycle, cancels, Inner, Env, Next, done, dispatches, starts, recovery, healthy, max_failures,
  is_there,
}
use scufris.Service.Schema.{View, boolean, Tree, as_str, get_in, and_then}
use scufris.Service.Folded.{publish_state}
use scufris.Service.Turns.{starts_with}

-- What the process reports, by the type of its line.
pub data Event (Value : Type 0) : Type 0 where
  response : Option String → Bool → Option String → Value → Event Value
  agent_start agent_settled other : Event Value
  message_end : Value → Event Value
  extension_ui_request : String → String → Option String → Event Value
  extension_error : Option String → Event Value

pub record SessionState : Type 0 where
  pub file : Option String
  pub streaming : Bool

abbrev pub boot : String
boot = "boot"

unfoldable pub is_dialog : String → Bool
is_dialog method =
    method =ˢ "select" || method =ˢ "confirm" || method =ˢ "input" || method =ˢ "editor"

unfoldable pub absolute : Option String → Option String
unfolding starts_with
absolute none = none
absolute (some file) = if starts_with file "/" then some file else none

abbrev pub as_bool : {Value : Type 0} → View Value → Option Bool
as_bool (boolean b) = some b
as_bool _ = none

abbrev or_false : Option Bool → Bool
or_false none = false
or_false (some b) = b

unfoldable pub from_data : {Value : Type 0} → Tree Value → Value → SessionState
unfolding absolute and_then
from_data tree data_value = record {
  file = absolute (and_then tree as_str (get_in "sessionFile" (tree.view data_value)));
  streaming = or_false (and_then tree as_bool (get_in "isStreaming" (tree.view data_value)));
}

abbrev or_default : Option String → String → String
or_default none text = text
or_default (some detail) text = detail

abbrev names_boot : Option String → Bool
names_boot none = false
names_boot (some id) = id =ˢ boot

module _ {Value : Type 0} where
  unfoldable pub fork_from : Inner Value → Option String
  fork_from s = elim s.lineage_holder [ terminal ↦ s.lineage_file | managed ↦ none ]

  unfoldable pub started_or_failed : Inner Value → Option String → Inner Value
  unfolding publish_state
  started_or_failed s none = publish_state (record s {
    process = some s.process_generation;
    lifecycle = Lifecycle.starting;
    lifecycle_detail = "";
  })
  started_or_failed s (some error) = publish_state (record s {
    failures = s.failures + 1;
    lifecycle = Lifecycle.failed;
    lifecycle_detail = "The agent would not start: " ⋅ (error ⋅ ("." ⋅ recovery));
  })

  abbrev pub must_not_start : Inner Value → Bool
  must_not_start s = s.stopping || is_there s.process || is_there s.lease

  unfoldable pub agent_is_silent : Inner Value → ℕ → Bool
  agent_is_silent s generation =
      not s.stopping
      && s.process_generation == generation
      && is_there s.process
      && not s.agent_joined

  abbrev pub adopt_file : Inner Value → Option String → Option String → Inner Value
  adopt_file s (some file) none = record s { lineage_file = some file; lineage_holder = managed }
  adopt_file s _ _ = s

  unfoldable pub booted : Inner Value → Bool → Option String → SessionState → Inner Value
  unfolding publish_state
  booted s true error session = publish_state (record (adopt_file s session.file s.lineage_file) {
    failures = 0;
    lifecycle = if session.streaming then Lifecycle.working else Lifecycle.idle;
    lifecycle_detail = "";
  })
  booted s false error session = publish_state (record s {
    lifecycle = Lifecycle.failed;
    lifecycle_detail = or_default error "The agent did not report its state.";
  })

  abbrev pub cancel : Inner Value → Option ℕ → String → Inner Value
  cancel s none id = s
  cancel s (some process) id = record s {
    world = record s.world { sent = cancels process id ∷ s.world.sent };
  }

  unfoldable pub answer_dialog : Inner Value → String → String → Inner Value
  unfolding is_dialog
  answer_dialog s id method = if is_dialog method then cancel s s.process id else s

  unfoldable pub apply : Tree Value → Inner Value → Event Value → Inner Value × Next
  unfolding booted from_data publish_state answer_dialog
  apply tree s (response id success error data_value) =
      if names_boot id
      then (booted s success error (from_data tree data_value), dispatches)
      else (s, done)
  apply tree s agent_start =
      (publish_state (record s { lifecycle = Lifecycle.working; lifecycle_detail = "" }), done)
  apply tree s agent_settled =
      (publish_state (record s { lifecycle = Lifecycle.idle; lifecycle_detail = "" }), dispatches)
  apply tree s (extension_ui_request id method text) = (answer_dialog s id method, done)
  apply tree s (extension_error error) = (s, done)
  apply tree s (message_end text) = (s, done)
  apply tree s other = (s, done)

  -- The first lock of `agent_ended`: how long the process ran, where it has to be counted.
  unfoldable pub agent_ended : Inner Value → ℕ → Inner Value × Option ℕ
  agent_ended s generation =
      if s.process_generation == generation
      then (
        record s { process = none },
        if s.stopping then none else some (s.world.now - s.started),
      )
      else (s, none)

  unfoldable pub restart_or_fail : Inner Value → Inner Value × Next
  unfolding publish_state decimal
  restart_or_fail s =
      if leb max_failures s.failures
      then (
        publish_state (record s {
          lifecycle = Lifecycle.failed;
          lifecycle_detail =
              "The agent stopped " ⋅ (decimal s.failures ⋅ (" times in a row." ⋅ recovery));
        }),
        done,
      )
      else (
        publish_state (record s {
          lifecycle = Lifecycle.starting;
          lifecycle_detail = "The agent is restarting.";
        }),
        starts,
      )

  -- The second lock of it. What follows is a start, after a delay.
  unfoldable pub count_failure : Inner Value → ℕ → Inner Value × Next
  unfolding restart_or_fail
  count_failure s ran =
      restart_or_fail (record s { failures = (if leb healthy ran then 0 else s.failures) + 1 })

  unfoldable pub shutdown : Inner Value → Inner Value
  shutdown s = record s { stopping = true; lease = none; process = none }

  -- The next generation of the process, before it runs.
  abbrev pub next_process : Inner Value → Inner Value
  next_process s = record s {
    process_generation = s.process_generation + 1;
    started = s.world.now;
    agent_joined = false;
  }

module _ {Value : Type 0} (env : Env Value) where
  unfoldable pub start_agent : Inner Value → Inner Value
  unfolding started_or_failed fork_from
  start_agent s =
      if must_not_start s
      then s
      else started_or_failed (next_process s) (env.start (fork_from s) s.world.now)
