-- ===== src/Service/Folded.antt =====
-- host/service/src/service.rs: the one word of the tray, folded from the jobs, the circuit and the
-- lifecycle, and what is published of the state.
use scufris.Base.Text.{◌⋅◌}
use scufris.Base.{String, Bool, true, false, Option, none, some, List, [], ◌∷◌, if◌then◌else◌}
use scufris.Control.State.{ScufrisState, starting, idle, working, blocked, failed, AgentHolder}
use scufris.Control.Surface.{JobRowState, JobRow, SurfaceResponseBody, state, briefings}
use scufris.Briefings.{shown_rows}
use scufris.Service.{Lifecycle, Inner, proactive_recovery, is_failed, holder}
use scufris.Service.Outbox.{broadcast, broadcast_some}

abbrev pub row_failed : JobRowState → Bool
row_failed JobRowState.failed = true
row_failed _ = false

abbrev pub row_blocked : JobRowState → Bool
row_blocked JobRowState.blocked = true
row_blocked _ = false

-- The summary of the first row in the wanted state.
unfoldable pub worst : (JobRowState → Bool) → List JobRow → Option String
worst wanted [] = none
worst wanted (row ∷ rest) = if wanted row.state then some row.summary else worst wanted rest

abbrev pub Word : Type 0
Word = ScufrisState × String

abbrev pub if_blocked : Option String → Option Word
if_blocked none = none
if_blocked (some summary) = some (blocked, summary)

abbrev pub attention_of : Option String → Option String → Option Word
attention_of (some summary) blocked_row = some (failed, summary)
attention_of none blocked_row = if_blocked blocked_row

abbrev pub failed_word : Option Word → Option Word
failed_word (some (failed, detail)) = some (failed, detail)
failed_word _ = none

-- `none` is the arm that the source says is not reached.
abbrev pub lifecycle_word : Lifecycle → String → Option Word
lifecycle_word Lifecycle.working detail = some (working, detail)
lifecycle_word Lifecycle.starting detail = some (starting, detail)
lifecycle_word Lifecycle.idle detail = some (idle, detail)
lifecycle_word Lifecycle.failed detail = none

abbrev pub or_else {ℓ} : {A : Type ℓ} → Option A → Option A → Option A
or_else (some a) later = some a
or_else none later = later

module _ {Value : Type 0} where
  unfoldable pub attention : Inner Value → Option Word
  unfolding worst
  attention s = attention_of (worst row_failed s.jobs) (worst row_blocked s.jobs)

  unfoldable pub state_word : Inner Value → Option Word
  unfolding attention
  state_word s = or_else (failed_word (attention s)) (
      if s.proactive_circuit_open
      then some (failed, "Briefing delivery stopped for safety." ⋅ proactive_recovery)
      else if is_failed s.lifecycle
      then some (failed, s.lifecycle_detail)
      else or_else (attention s) (lifecycle_word s.lifecycle s.lifecycle_detail))

  abbrev pub state_body : Option Word → AgentHolder → Option (SurfaceResponseBody Value)
  state_body none who = none
  state_body (some (word, detail)) who = some (state word detail who)

  unfoldable pub publish_state : Inner Value → Inner Value
  unfolding state_word broadcast_some holder
  publish_state s = broadcast_some s (state_body (state_word s) (holder s))

  unfoldable pub publish_briefings : Inner Value → Inner Value
  unfolding broadcast shown_rows
  publish_briefings s = broadcast s (briefings (shown_rows s.briefings))
