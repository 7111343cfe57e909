-- ===== src/Service/Leases.antt =====
-- host/service/src/service.rs: the terminal lease, and the other verbs of the control socket.
use scufris.Base.{
  ℕ, ◌+◌, ◌-◌, String, Bool, true, false, not, ◌&&◌, ◌||◌, Option, none, some, ltb, ◌==◌,
  if◌then◌else◌,
}
use scufris.Base.Text.{◌⋅◌, decimal}
use scufris.Control.State.{AgentHolder, managed, terminal}
use scufris.Control.Agent.{abort, handoff}
use scufris.Control.Local.{
  LeaseHolder, ControlResponseBody, lease_released, lease, lease_pong, rejected,
}
use scufris.Conversation.{latest_sequence}
use scufris.Service.{
  AgentConnection, Lease, Lifecycle, Inner, Env, Next, done, starts, lease_deadline, is_working,
  is_failed, is_there, close_turn,
}
use scufris.Service.Outbox.{send_agent}
use scufris.Service.Folded.{publish_state}
use scufris.Service.Proactive.{agent_left}

abbrev pub foreground_owner : String
foreground_owner = "foreground"

unfoldable pub generation_of : Option Lease → Option ℕ
generation_of none = none
generation_of (some held) = some held.generation

unfoldable pub held_by : ℕ → Option Lease → Bool
held_by connection none = false
held_by connection (some held) = held.connection == connection

unfoldable pub has_lease : ℕ → Option AgentConnection → Bool
has_lease generation none = false
has_lease generation (some agent) = elim agent.lease [
  | none ↦ false
  | some named ↦ named == generation
]

abbrev pub with_lease : {Value : Type 0} → Inner Value → ℕ → LeaseHolder → Inner Value
with_lease s connection who = record s {
  lease_generation = s.lease_generation + 1;
  lease = some (record {
    connection = connection;
    generation = s.lease_generation + 1;
    holder = who;
    last_ping = s.world.now;
  });
  process_generation = s.process_generation + 1;
  process = none;
}

-- What the first lock of a request ends in: an answer, or a wait for the open turn.
pub data Asked : Type 0 where
  answered : ControlResponseBody → Asked
  settles : Asked

-- A verb's answer, the state after it, and what its thread does next.
abbrev pub Verb : Type 0 → Type 0
Verb Value = ControlResponseBody × (Inner Value × Next)

module _ {Value : Type 0} (env : Env Value) where
  unfoldable pub lease_reply : Inner Value → String → ℕ → ControlResponseBody
  unfolding latest_sequence
  lease_reply s id generation = lease (record {
    id = id;
    generation = generation;
    session_dir = env.session_dir;
    lineage_file = s.lineage_file;
    sequence = latest_sequence s.conversation;
    owner = foreground_owner;
  })

  -- An agent that is there is told, and has left.
  unfoldable pub hand_off : Bool → Inner Value → ℕ → AgentHolder → Inner Value
  unfolding send_agent agent_left
  hand_off true s generation next = agent_left env (send_agent s (handoff generation next)).1
  hand_off false s generation next = s

  unfoldable pub grant : Inner Value → ℕ → LeaseHolder → Inner Value
  unfolding hand_off publish_state
  grant s connection who =
      publish_state
        (record (hand_off (is_there s.agent) (with_lease s connection who) (s.lease_generation + 1)
          terminal) {
            lifecycle = Lifecycle.starting;
            lifecycle_detail = "A terminal holds the agent.";
          })

  unfoldable pub granted_verb : Inner Value → ℕ → String → Asked × (Inner Value × Next)
  unfolding lease_reply
  granted_verb s generation id = (answered (lease_reply s id generation), (s, done))

  unfoldable pub ask_idle :
      Inner Value → ℕ → String → LeaseHolder → Bool → Asked × (Inner Value × Next)
  unfolding grant lease_reply send_agent close_turn
  ask_idle s connection id who abort_working =
      if is_failed s.lifecycle
      then (answered (rejected id "agent_busy" s.lifecycle_detail), (s, done))
      else if is_working s.lifecycle && not abort_working
      then (
        answered (
            rejected id "agent_busy"
              "The agent is answering. Ask again with abort_working to stop it."),
        (s, done),
      )
      else if is_working s.lifecycle
      then (settles, (close_turn (send_agent s (abort id)).1, done))
      else granted_verb (grant s connection who) (s.lease_generation + 1) id

  unfoldable pub ask_held :
      Inner Value → ℕ → String → LeaseHolder → Bool → Option Lease → Asked × (Inner Value × Next)
  unfolding lease_reply decimal ask_idle
  ask_held s connection id who abort_working none = ask_idle s connection id who abort_working
  ask_held s connection id who abort_working (some held) =
      if held.connection == connection
      then (answered (lease_reply s id held.generation), (s, done))
      else (
        answered (
            rejected id "lease_held"
              ("Another connection holds lease " ⋅ (decimal held.generation ⋅ "."))),
        (s, done),
      )

  -- The first lock. After `settles` the thread waits without the lock, and then comes
  -- `lease_settled`.
  unfoldable pub control_lease_acquire :
      Inner Value → ℕ → String → LeaseHolder → Bool → Asked × (Inner Value × Next)
  unfolding ask_held
  control_lease_acquire s connection id who abort_working =
      if not env.terminal_lease
      then (
        answered
            (rejected id "lease_disabled" "The terminal lease is not enabled on this service."),
        (s, done),
      )
      else if s.stopping
      then (answered (rejected id "lease_disabled" "The service is stopping."), (s, done))
      else ask_held s connection id who abort_working s.lease

  unfoldable pub lease_settled : Inner Value → ℕ → String → LeaseHolder → Verb Value
  unfolding grant lease_reply
  lease_settled s connection id who =
      if s.stopping || is_there s.lease
      then (rejected id "lease_held" "The agent was taken while this request waited.", (s, done))
      else (let s' = grant s connection who in
          (lease_reply s' id (s.lease_generation + 1), (s', done)))

  unfoldable pub restart_unless_stopping : Inner Value → Inner Value × Next
  unfolding publish_state
  restart_unless_stopping s = if s.stopping then (s, done) else (
    publish_state (record s {
      lifecycle = Lifecycle.starting;
      lifecycle_detail = "The agent is restarting.";
    }),
    starts,
  )

  unfoldable pub end_held : Inner Value → Option Lease → Inner Value × Next
  unfolding hand_off has_lease restart_unless_stopping
  end_held s none = (s, done)
  end_held s (some held) = restart_unless_stopping (
      hand_off (has_lease held.generation s.agent) (record s { lease = none }) held.generation
        managed)

  unfoldable pub end_lease : Inner Value → Inner Value × Next
  unfolding end_held
  end_lease s = end_held s s.lease

  unfoldable pub control_lease_release : Inner Value → ℕ → String → Verb Value
  unfolding held_by end_lease
  control_lease_release s connection id =
      if held_by connection s.lease
      then (lease_released id, end_lease s)
      else (rejected id "not_lease_holder" "This connection does not hold the lease.", (s, done))

  unfoldable pub control_disconnected : Inner Value → ℕ → Inner Value × Next
  unfolding held_by end_lease
  control_disconnected s connection = if held_by connection s.lease then end_lease s else (s, done)

  unfoldable pub sweep_held : Inner Value → ℕ → Option Lease → Bool × (Inner Value × Next)
  unfolding end_lease
  sweep_held s generation none = (true, (s, done))
  sweep_held s generation (some held) =
      if not (held.generation == generation)
      then (true, (s, done))
      else if ltb (s.world.now - held.last_ping) lease_deadline
      then (false, (s, done))
      else (true, end_lease s)

  -- One check of the heartbeat: whether there is nothing left to watch, and what it did.
  unfoldable pub sweep_lease : Inner Value → ℕ → Bool × (Inner Value × Next)
  unfolding sweep_held
  sweep_lease s generation = sweep_held s generation s.lease

module _ {Value : Type 0} where
  abbrev pub ping_held : Inner Value → ℕ → String → Option Lease → ControlResponseBody × Inner Value
  ping_held s connection id none =
      (rejected id "lease_ping_stale" "This connection does not hold the lease.", s)
  ping_held s connection id (some held) =
      if held.connection == connection
      then (
        lease_pong id held.generation,
        record s { lease = some (record held { last_ping = s.world.now }) },
      )
      else (rejected id "lease_ping_stale" "This connection does not hold the lease.", s)

  unfoldable pub control_lease_ping : Inner Value → ℕ → String → ControlResponseBody × Inner Value
  control_lease_ping s connection id = ping_held s connection id s.lease
