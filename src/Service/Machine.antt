-- ===== src/Service/Machine.antt =====
-- host/service/src/service.rs: `Service::new`, and every section of code that runs under the lock as
-- one step, in whatever order the threads take the lock.
use scufris.Base.{ℕ, String, Bool, false, Option, none, List, [], ◌∷◌}
use scufris.Control.State.{managed}
use scufris.Control.Briefing.{BriefingRow, BriefingWake}
use scufris.Control.Surface.{SurfaceRegistration, JobAction}
use scufris.Control.Agent.{AgentSession, AgentRequestBody}
use scufris.Control.Local.{LeaseHolder}
use scufris.Conversation.{ConversationHistory, contains_delivery}
use scufris.Briefings.{BriefingStore}
use scufris.Briefings.Store.{recover_delivered}
use scufris.Service.{Lifecycle, World, Inner, Env}
use scufris.Service.Outbox.{on_briefings}
use scufris.Service.Proactive.{dispatch_briefing, timer_fires, proactive_settled}
use scufris.Service.Answers.{agent_request}
use scufris.Service.Surfaces.{
  register_surface, unregister_surface, surface_message, surface_abort, surface_job_command,
  surface_briefing_dismiss, surface_offer_take,
}
use scufris.Service.Agents.{admit_agent, unregister_agent}
use scufris.Service.Leases.{
  control_lease_acquire, lease_settled, control_lease_release, control_disconnected, sweep_lease,
  control_lease_ping,
}
use scufris.Service.Ingress.{control_briefing, control_wake}
use scufris.Service.Process.{Event, apply, agent_ended, count_failure, start_agent, shutdown}

-- A section that a thread runs under the lock, with what it was called with.
pub data Section (Value : Type 0) : Type 0 where
  registers : ℕ → SurfaceRegistration Value → Section Value
  unregisters : ℕ → ℕ → Section Value
  submits : ℕ → String → String → List String → Section Value
  aborts dismisses takes_offer : ℕ → String → Section Value
  commands_job : ℕ → String → JobAction → Section Value
  admits : ℕ → Option ℕ → Option AgentSession → Section Value
  leaves : ℕ → Section Value
  reports : ℕ → AgentRequestBody Value → Section Value
  acquires : ℕ → String → LeaseHolder → Bool → Section Value
  settles : ℕ → String → LeaseHolder → Section Value
  pings releases : ℕ → String → Section Value
  disconnects sweeps : ℕ → Section Value
  imports : String → BriefingRow → Option (BriefingWake Value) → Section Value
  wakes : String → String → String → Option Value → Section Value
  dispatch timer start stop : Section Value
  settles_proactive : String → Section Value
  process_says : Event Value → Section Value
  process_ends process_failed : ℕ → Section Value
  -- What comes from around the service: time, room in the outboxes, and what the disk does.
  passes : World Value → Section Value

module _ {Value : Type 0} where
  -- The state that `Service::new` sets up, with the two stores as they were opened.
  unfoldable pub created :
      World Value → ConversationHistory Value → BriefingStore Value → Inner Value
  created world conversation briefings = record {
    process = none;
    process_generation = 0;
    started = world.now;
    agent_joined = false;
    failures = 0;
    lifecycle = Lifecycle.starting;
    lifecycle_detail = "";
    jobs = [];
    briefings = briefings;
    active_proactive = none;
    active_proactive_started = false;
    consecutive_proactive = 0;
    proactive_runs = [];
    proactive_not_before = none;
    proactive_timer_pending = false;
    proactive_circuit_open = false;
    surfaces = [];
    surface_by_connection = [];
    next_surface_generation = 0;
    agent = none;
    conversation = conversation;
    associated_surface = none;
    associated_turn = none;
    lineage_file = none;
    lineage_holder = managed;
    stopping = false;
    lease = none;
    lease_generation = 0;
    world = world;
  }

module _ {Value : Type 0} (env : Env Value) where
  unfoldable pub step : Inner Value → Section Value → Inner Value
  unfolding register_surface unregister_surface surface_message surface_abort surface_job_command
      surface_briefing_dismiss surface_offer_take admit_agent unregister_agent agent_request
      control_lease_acquire lease_settled control_lease_release control_disconnected sweep_lease
      control_briefing control_lease_ping control_wake dispatch_briefing timer_fires apply
      agent_ended count_failure start_agent shutdown proactive_settled
  step s (registers connection registration) = register_surface s connection registration
  step s (unregisters connection generation) = unregister_surface s connection generation
  step s (submits connection id text attachments) =
      surface_message env s connection id text attachments
  step s (aborts connection id) = surface_abort s connection id
  step s (dismisses connection id) = surface_briefing_dismiss env s connection id
  step s (takes_offer connection id) = surface_offer_take env s connection id
  step s (commands_job connection id action) = surface_job_command s connection id action
  step s (admits connection lease session) = (admit_agent env s connection lease session).0
  step s (leaves connection) = unregister_agent env s connection
  step s (reports connection body) = (agent_request env s connection body).0
  step s (acquires connection id who abort_working) =
      (control_lease_acquire env s connection id who abort_working).1.0
  step s (settles connection id who) = (lease_settled env s connection id who).1.0
  step s (pings connection id) = (control_lease_ping s connection id).1
  step s (releases connection id) = (control_lease_release env s connection id).1.0
  step s (disconnects connection) = (control_disconnected env s connection).0
  step s (sweeps generation) = (sweep_lease env s generation).1.0
  step s (imports id row w) = (control_briefing env s id row w).1.0
  step s (wakes id custom_type text details) = (control_wake s id custom_type text details).1
  step s (settles_proactive event_id) = (proactive_settled env s event_id).0
  step s dispatch = dispatch_briefing env s
  step s timer = (timer_fires env s).0
  step s start = start_agent env s
  step s stop = shutdown s
  step s (process_says event) = (apply env.tree s event).0
  step s (process_ends generation) = (agent_ended s generation).0
  step s (process_failed ran) = (count_failure s ran).0
  step s (passes world) = record s { world = world }

  unfoldable pub run : Inner Value → List (Section Value) → Inner Value
  unfolding step
  run s [] = s
  run s (section ∷ rest) = run (step s section) rest

  unfoldable pub new : World Value → ConversationHistory Value → BriefingStore Value → Inner Value
  unfolding created recover_delivered contains_delivery
  new world conversation briefings =
      (on_briefings
        (λ fault b node.
          recover_delivered env.briefing_to_vec fault (contains_delivery conversation) b node)
        (created world conversation briefings)).1
