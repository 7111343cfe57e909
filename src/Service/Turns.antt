-- ===== src/Service/Turns.antt =====
-- host/service/src/service.rs: the turn of an owner, and what the agent reports: its session, a
-- terminal turn, its activity, a proactive turn, the jobs, and an answer.
use scufris.Base.{
  ℕ, zero, suc, ◌+◌, String, Bool, true, false, not, ◌&&◌, Option, none, some, List, [], ◌∷◌, ◌==◌,
  if◌then◌else◌,
}
use scufris.Base.Text.{◌⋅◌, decimal}
use scufris.Base.Result.{Result, ok, err}
use scufris.Control.State.{AgentHolder}
use scufris.Control.Text.{bytes}
use scufris.Control.Message.{AttachmentDescriptor, ConversationMessage, user}
use scufris.Control.Surface.{JobRow, jobs, terminal_surface}
use scufris.Control.Agent.{AgentSession, AgentResponseBody, turn_ack, rejected}
use scufris.Briefings.{logical_run_for_event}
use scufris.Briefings.Store.{StoreError, resume_stopped}
use scufris.Service.{
  Lifecycle, Inner, AgentConnection, Env, Next, done, dispatches, is_failed, is_there, names,
  agent_holds_lease,
}
use scufris.Service.Outbox.{on_briefings, broadcast, send_agent, record_message}
use scufris.Service.Folded.{publish_state, publish_briefings}
use scufris.Service.Proactive.{end_sequence, insert_run}

begins_with : List ℕ → List ℕ → Bool
begins_with [] text = true
begins_with (b ∷ bs) [] = false
begins_with (b ∷ bs) (c ∷ cs) = b == c && begins_with bs cs

unfoldable pub starts_with : String → String → Bool
unfolding begins_with bytes
starts_with text start = begins_with (bytes start) (bytes text)

unfoldable pub with_images : String → ℕ → String
unfolding decimal
with_images text zero = text
with_images text (suc zero) = text ⋅ "\n\n[1 image]"
with_images text (suc (suc more)) = text ⋅ ("\n\n[" ⋅ (decimal (suc (suc more)) ⋅ " images]"))

abbrev of_connection : ℕ → Option AgentConnection → Bool
of_connection connection none = false
of_connection connection (some agent) = agent.connection == connection

abbrev pub owner_words :
    {Value : Type 0} → String → String → List AttachmentDescriptor → ConversationMessage Value
owner_words surface text attachments = record {
  role = user;
  surface = surface;
  text = text;
  details = none;
  widgets = none;
  attachments = attachments;
  receipts = [];
}

abbrev or_empty : Option (List AttachmentDescriptor) → List AttachmentDescriptor
or_empty none = []
or_empty (some descriptors) = descriptors

module _ {Value : Type 0} where
  unfoldable pub reset_failed : Inner Value → Inner Value
  unfolding starts_with
  reset_failed s =
      if is_failed s.lifecycle && starts_with s.lifecycle_detail "Briefing delivery stopped"
      then record s { lifecycle = Lifecycle.idle; lifecycle_detail = "" }
      else s

  abbrev pub restart_sequence : Inner Value → Inner Value
  restart_sequence s = if s.proactive_circuit_open then s else end_sequence s

  unfoldable pub adopt_session : Inner Value → AgentSession → AgentHolder → Inner Value
  adopt_session s session who = record s { lineage_file = some session.file; lineage_holder = who }

  unfoldable pub activity : Inner Value → Bool → Inner Value × Next
  unfolding publish_state
  activity s working = if is_failed s.lifecycle then (s, done) else (
    publish_state (record s {
      lifecycle = if working then Lifecycle.working else Lifecycle.idle;
      lifecycle_detail = "";
    }),
    if working then done else dispatches,
  )

  -- A proactive turn starts: it is counted, and its logical run is remembered.
  unfoldable pub count_start : Inner Value → String → Inner Value
  unfolding logical_run_for_event
  count_start s event_id = record s {
    active_proactive_started = true;
    consecutive_proactive = s.consecutive_proactive + 1;
    proactive_runs = insert_run (logical_run_for_event s.briefings event_id) s.proactive_runs;
  }

  unfoldable pub proactive_started : Inner Value → String → Inner Value
  unfolding count_start
  proactive_started s event_id =
      if not (names s.active_proactive event_id)
      then s
      else if s.active_proactive_started
      then s
      else count_start s event_id

  unfoldable pub jobs_reported : Inner Value → List JobRow → Inner Value
  unfolding broadcast publish_state
  jobs_reported s rows = publish_state (broadcast (record s { jobs = rows }) (jobs rows))

  -- The attachments of an answer, and the agent is told when they cannot be had.
  unfoldable pub tell_unless : Bool → Inner Value → AgentResponseBody Value → Inner Value
  unfolding send_agent
  tell_unless true s body = s
  tell_unless false s body = (send_agent s body).1

  unfoldable pub acknowledge_turn : String → ℕ × Inner Value → Inner Value
  unfolding send_agent
  acknowledge_turn id (sequence, s) = (send_agent s (turn_ack id sequence)).1

module _ {Value : Type 0} (env : Env Value) where
  unfoldable pub reset_circuit : Result StoreError ℕ × Inner Value → Inner Value
  unfolding reset_failed publish_briefings
  reset_circuit (err e, s) = s
  reset_circuit (ok resumed, s) =
      publish_briefings (reset_failed (record s { proactive_circuit_open = false }))

  unfoldable pub resume : Inner Value → Result StoreError ℕ × Inner Value
  unfolding resume_stopped
  resume s = on_briefings (λ fault b node. resume_stopped env.briefing_to_vec fault b node) s

  unfoldable pub recover_circuit : Inner Value → Inner Value
  unfolding resume reset_circuit
  recover_circuit s = if s.proactive_circuit_open then reset_circuit (resume s) else s

  unfoldable pub owner_turn :
      Inner Value → String → String → String → List AttachmentDescriptor → ℕ × Inner Value
  unfolding recover_circuit record_message
  owner_turn s surface turn text attachments =
      let s' = restart_sequence (recover_circuit s) in
      record_message env
        (record s' { associated_surface = some surface; associated_turn = some turn })
        (owner_words surface text attachments)

  unfoldable pub terminal_turn : Inner Value → ℕ → String → String → ℕ → Inner Value
  unfolding agent_holds_lease with_images owner_turn acknowledge_turn send_agent
  terminal_turn s connection id text images =
      if agent_holds_lease s connection
      then acknowledge_turn id (owner_turn s terminal_surface id (with_images text images) [])
      else (send_agent s (
          rejected (some id) "not_lease_holder"
            "Only the terminal holding the lease records turns.")).1

  unfoldable pub resolve_for :
      Inner Value → Option String → List String → List AttachmentDescriptor × Inner Value
  unfolding tell_unless
  resolve_for s turn_id attachments =
      let found = env.resolve attachments in
      (
        or_empty found,
        tell_unless (is_there found) s
            (rejected turn_id "attachments_unavailable" "One or more attachments are unavailable."),
      )
