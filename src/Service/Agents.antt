-- ===== src/Service/Agents.antt =====
-- host/service/src/service.rs: the admission of an agent, and its departure.
use scufris.Base.{
  ℕ, ◌-◌, String, Bool, true, false, not, ◌||◌, Option, none, some, List, [], ◌∷◌, ◌==◌,
  if◌then◌else◌,
}
use scufris.Base.Text.{◌⋅◌, decimal}
use scufris.Control.Message.{ConversationEntry, max_conversation_page}
use scufris.Control.Agent.{AgentSession, AgentResponseBody, ready, rejected, catch_up}
use scufris.Conversation.{latest_sequence, entries_since}
use scufris.Service.{
  AgentConnection, Lease, Lifecycle, to_agent, Inner, Env, Next, done, dispatches, is_there, holder,
}
use scufris.Service.Outbox.{try_send, send_agent}
use scufris.Service.Folded.{publish_state}
use scufris.Service.Proactive.{agent_left}
use scufris.Service.Turns.{adopt_session}
use scufris.Service.Answers.{of_connection}

unfoldable pub held_by_other : ℕ → Option (String × String)
unfolding decimal
held_by_other generation = some (
  "lease_required",
  "A terminal holds lease " ⋅ (decimal generation ⋅ ". Say hello with its generation."),
)

-- Why a hello that names this lease is refused, by the lease that is held.
unfoldable pub refused_by_lease : Option Lease → Option ℕ → Option (String × String)
unfolding held_by_other
refused_by_lease none none = none
refused_by_lease none (some named) = some ("not_lease_holder", "No terminal lease is held.")
refused_by_lease (some held) none = held_by_other held.generation
refused_by_lease (some held) (some named) =
    if held.generation == named then none else held_by_other held.generation

abbrev pub refused_by_agent : Option AgentConnection → Option (String × String)
refused_by_agent none = none
refused_by_agent (some agent) = some ("agent_exists", "One agent is already connected.")

abbrev pub or_else {ℓ} : {A : Type ℓ} → Option A → Option A → Option A
or_else none later = later
or_else (some a) later = some a

abbrev is_file : (String → String → Bool) → String → Option String → Bool
is_file same_path lineage none = false
is_file same_path lineage (some file) = same_path file lineage

-- The session is the lineage file, or a fork of it; where none is recorded there is no chain.
unfoldable pub continues : (String → String → Bool) → Option String → AgentSession → Bool
continues same_path none session = true
continues same_path (some lineage) session =
    same_path session.file lineage || is_file same_path lineage session.parent

abbrev entries_body :
    {Value : Type 0} → ℕ → List ConversationEntry → Option (AgentResponseBody Value)
entries_body since [] = none
entries_body since (entry ∷ rest) = some (catch_up since (entry ∷ rest))

module _ {Value : Type 0} where
  unfoldable pub offer_new : Inner Value → ℕ → AgentResponseBody Value → Inner Value
  unfolding try_send
  offer_new s connection body = record s {
    world = (try_send s.world s.world.takes (to_agent connection body)).1;
  }

  unfoldable pub connect : Inner Value → ℕ → Option ℕ → Inner Value
  unfolding offer_new
  connect s connection lease = record (offer_new s connection ready) {
    agent = some (record { connection = connection; lease = lease });
    agent_joined = true;
  }

  unfoldable pub send_some : Inner Value → Option (AgentResponseBody Value) → Inner Value
  unfolding send_agent
  send_some s none = s
  send_some s (some body) = (send_agent s body).1

  unfoldable pub send_catch_up : Inner Value → Inner Value
  unfolding latest_sequence entries_since send_some
  send_catch_up s =
      let since = latest_sequence s.conversation - max_conversation_page in
      send_some s (entries_body since (entries_since s.conversation since).0)

  unfoldable pub adopt_some : Inner Value → Option AgentSession → Inner Value
  unfolding adopt_session holder
  adopt_some s none = s
  adopt_some s (some session) = adopt_session s session (holder s)

  unfoldable pub settle_terminal : Inner Value → Option ℕ → Inner Value
  unfolding publish_state
  settle_terminal s none = s
  settle_terminal s (some generation) =
      publish_state (record s { lifecycle = Lifecycle.idle; lifecycle_detail = "" })

module _ {Value : Type 0} (env : Env Value) where
  unfoldable pub continues_lineage : Inner Value → AgentSession → Bool
  unfolding continues
  continues_lineage s session = continues env.same_path s.lineage_file session

  unfoldable pub missed : Inner Value → Option AgentSession → Bool
  unfolding continues_lineage
  missed s none = is_there s.lineage_file
  missed s (some session) = not (continues_lineage s session)

  unfoldable pub join : Inner Value → ℕ → Option ℕ → Option AgentSession → Inner Value
  unfolding connect missed adopt_some settle_terminal send_catch_up
  join s connection lease session =
      let s' = settle_terminal (adopt_some (connect s connection lease) session) lease in
      if missed s session then send_catch_up s' else s'

  unfoldable pub answer_hello :
      Inner Value
      → ℕ
      → Option ℕ
      → Option AgentSession
      → Option (String × String)
      → Inner Value × Next
  unfolding offer_new join
  answer_hello s connection lease session (some (code, detail)) =
      (offer_new s connection (rejected none code detail), done)
  answer_hello s connection lease session none = (join s connection lease session, dispatches)

  -- The answer `true` of the source is `dispatches`.
  unfoldable pub admit_agent : Inner Value → ℕ → Option ℕ → Option AgentSession → Inner Value × Next
  unfolding refused_by_lease answer_hello
  admit_agent s connection lease session =
      answer_hello s connection lease session
        (or_else (refused_by_lease s.lease lease) (refused_by_agent s.agent))

  unfoldable pub unregister_agent : Inner Value → ℕ → Inner Value
  unfolding agent_left
  unregister_agent s connection = if of_connection connection s.agent then agent_left env s else s
