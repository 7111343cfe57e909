-- ===== src/Service/Answers.antt =====
-- host/service/src/service.rs: the answer of the agent, to a proactive event or to a turn, and
-- `agent_request` over everything that the agent reports.
use text.Mathlib.Text.{◌==◌ as ◌=ˢ◌}
use scufris.Base.{
  ℕ, String, Bool, true, false, not, ◌&&◌, ◌||◌, Option, none, some, List, ◌==◌, if◌then◌else◌,
}
use scufris.Base.Result.{Result, ok, err}
use scufris.Control.Message.{AttachmentDescriptor, ConversationMessage, assistant, WidgetCall}
use scufris.Control.Surface.{message, terminal_surface, unprompted_surface}
use scufris.Control.Agent.{
  Answer, AgentRequestBody, hello, session, turn, activity, proactive_started, proactive_settled,
  response, jobs, AgentResponseBody, rejected,
}
use scufris.Conversation.{delivery_message}
use scufris.Conversation.Store.{PersistError, record_delivery}
use scufris.Briefings.Store.{StoreError, acknowledge}
use scufris.Service.{
  Inner, RegisteredSurface, AgentConnection, Env, Next, done, dispatches, panics, reconciles,
  is_there, names, holder, close_turn,
}
use scufris.Service.Schema.{Outcome, validate_calls}
use scufris.Service.Outbox.{
  Surfaces, find_surface, on_briefings, on_conversation, broadcast, send_agent, record_message,
}
use scufris.Service.Folded.{publish_state, publish_briefings}
use scufris.Service.Proactive.{open_circuit, free_slot, back_off, mark_failed}
use scufris.Service.Turns as Turns
use scufris.Service.Turns.{adopt_session, terminal_turn, count_start, jobs_reported, resolve_for}

abbrev pub of_connection : ℕ → Option AgentConnection → Bool
of_connection connection none = false
of_connection connection (some agent) = agent.connection == connection

abbrev is_terminal : Option String → Bool
is_terminal none = false
is_terminal (some surface) = surface =ˢ terminal_surface

abbrev pub with_widgets {ℓ} : {A : Type ℓ} → Bool → Option A → Option A
with_widgets true widgets = widgets
with_widgets false widgets = none

abbrev pub surface_of : Bool → Option String → String
surface_of known none = unprompted_surface
surface_of known (some surface) =
    if known || surface =ˢ terminal_surface then surface else unprompted_surface

abbrev error_of : Outcome → Option String
error_of (ok _) = none
error_of (err detail) = some detail

module _ {Value : Type 0} where
  abbrev pub answer_message :
      Answer Value
      → String
      → Option (List (WidgetCall Value))
      → List AttachmentDescriptor
      → ConversationMessage Value
  answer_message a surface widgets attachments = record {
    role = assistant;
    surface = surface;
    text = a.text;
    details = a.details;
    widgets = widgets;
    attachments = attachments;
    receipts = a.receipts;
  }

  -- The message of a proactive answer.
  unfoldable pub proactive_message :
      Answer Value → List AttachmentDescriptor → ConversationMessage Value
  proactive_message a attachments = record {
    role = assistant;
    surface = unprompted_surface;
    text = a.text;
    details = a.details;
    widgets = none;
    attachments = attachments;
    receipts = a.receipts;
  }

  -- The surface that the answer belongs to, and the turn that it closes.
  unfoldable pub destination : Inner Value → Option String → Option String × Inner Value
  unfolding close_turn
  destination s (some named) =
      if names s.associated_turn named
      then (s.associated_surface, close_turn s)
      else (some terminal_surface, s)
  destination s none =
      if is_there s.active_proactive then (none, s) else (s.associated_surface, close_turn s)

  unfoldable pub owner_of : Option String → Surfaces Value → Option (RegisteredSurface Value)
  unfolding find_surface
  owner_of none surfaces = none
  owner_of (some surface) surfaces = find_surface surface surfaces

  unfoldable pub tell_if : Bool → Inner Value → AgentResponseBody Value → Inner Value
  unfolding send_agent
  tell_if true s body = (send_agent s body).1
  tell_if false s body = s

  -- The refusal of widget calls that do not fit their registry.
  unfoldable pub tell_invalid : Option String → Option String → Inner Value → Inner Value
  unfolding send_agent
  tell_invalid turn_id none s = s
  tell_invalid turn_id (some detail) s =
      (send_agent s (rejected turn_id "invalid_widgets" detail)).1

module _ {Value : Type 0} (env : Env Value) where
  unfoldable pub acknowledged :
      ConversationMessage Value → Result StoreError Bool × Inner Value → Inner Value × Next
  unfolding back_off broadcast mark_failed publish_state publish_briefings
  acknowledged m (err e, s) = (s, done)
  acknowledged m (ok true, s) =
      (publish_briefings (back_off (broadcast (free_slot s) (message m))), dispatches)
  acknowledged m (ok false, s) =
      (publish_briefings (publish_state (mark_failed env (open_circuit (free_slot s)))), dispatches)

  unfoldable pub acknowledge_item : Inner Value → String → Result StoreError Bool × Inner Value
  unfolding acknowledge
  acknowledge_item s event_id =
      on_briefings (λ fault b node. acknowledge env.briefing_to_vec fault event_id b node) s

  unfoldable pub acknowledge_with :
      Inner Value → String → Option (ConversationMessage Value) → Inner Value × Next
  unfolding acknowledge_item acknowledged
  acknowledge_with s event_id none = (s, panics)
  acknowledge_with s event_id (some m) = acknowledged m (acknowledge_item s event_id)

  unfoldable pub delivered :
      String
      → ConversationMessage Value
      → Result PersistError Bool × Inner Value
      → Inner Value × Next
  unfolding acknowledge_with delivery_message
  delivered event_id m (err e, s) = (s, done)
  delivered event_id m (ok true, s) = acknowledge_with s event_id (some m)
  delivered event_id m (ok false, s) =
      acknowledge_with s event_id (delivery_message s.conversation event_id)

  unfoldable pub record_item :
      Inner Value → String → ConversationMessage Value → Result PersistError Bool × Inner Value
  unfolding record_delivery
  record_item s event_id m =
      on_conversation env
        (λ fault h disk. record_delivery env.conversation_json fault h event_id m disk) s

  unfoldable pub deliver :
      String → Answer Value → List AttachmentDescriptor × Inner Value → Inner Value × Next
  unfolding proactive_message delivered record_item
  deliver event_id a (attachments, s) =
      let m = proactive_message a attachments in delivered event_id m (record_item s event_id m)

  unfoldable pub proactive_answer : Inner Value → String → Answer Value → Inner Value × Next
  unfolding count_start resolve_for deliver
  proactive_answer s event_id a =
      if names s.active_proactive event_id
      then deliver event_id a (
          resolve_for env (if s.active_proactive_started then s else count_start s event_id) none
            a.attachments)
      else (s, done)

  unfoldable pub invalid_calls :
      Option (RegisteredSurface Value) → Option (List (WidgetCall Value)) → Option String
  unfolding validate_calls
  invalid_calls (some held) (some calls) =
      error_of (validate_calls env.tree env.nesting calls held.registration.widgets)
  invalid_calls _ _ = none

  unfoldable pub record_answer :
      Answer Value
      → String
      → Option (List (WidgetCall Value))
      → List AttachmentDescriptor × Inner Value
      → Inner Value
  unfolding record_message
  record_answer a surface widgets (attachments, s) =
      (record_message env s (answer_message a surface widgets attachments)).1

  -- The calls that are kept, where their surface is there.
  unfoldable pub owned_calls :
      Answer Value → Option String → Inner Value → Option (List (WidgetCall Value))
  unfolding owner_of
  owned_calls a place s = with_widgets (is_there (owner_of place s.surfaces)) a.widgets

  unfoldable pub invalid_in : Answer Value → Option String → Inner Value → Option String
  unfolding owned_calls invalid_calls
  invalid_in a place s = invalid_calls (owner_of place s.surfaces) (owned_calls a place s)

  unfoldable pub tell_terminal : Answer Value → Option String → Inner Value → Inner Value
  unfolding tell_if owner_of
  tell_terminal a place s =
      tell_if
        (not (is_there (owner_of place s.surfaces)) && is_terminal place && is_there a.widgets) s
        (rejected a.turn_id "invalid_widgets"
          "A terminal answer has no surface to draw widgets on.")

  -- What the agent is told of its widget calls.
  unfoldable pub tell_widgets : Answer Value → Option String → Inner Value → Inner Value
  unfolding tell_terminal tell_invalid invalid_in
  tell_widgets a place s = tell_invalid a.turn_id (invalid_in a place s) (tell_terminal a place s)

  unfoldable pub answer_to : Answer Value → Option String × Inner Value → Inner Value
  unfolding owned_calls invalid_in tell_widgets record_answer resolve_for
  answer_to a (place, s) =
      record_answer a (surface_of (is_there (owner_of place s.surfaces)) place)
        (with_widgets (not (is_there (invalid_in a place s))) (owned_calls a place s))
        (resolve_for env (tell_widgets a place s) a.turn_id a.attachments)

  unfoldable pub answer : Inner Value → Answer Value → Option String → Inner Value × Next
  unfolding proactive_answer destination answer_to
  answer s a (some event_id) = proactive_answer s event_id a
  answer s a none = (answer_to a (destination s a.turn_id), done)

  unfoldable pub agent_message : Inner Value → ℕ → AgentRequestBody Value → Inner Value × Next
  unfolding adopt_session terminal_turn Turns.activity Turns.proactive_started jobs_reported answer
      holder
  agent_message s connection (hello lease one) = (s, done)
  agent_message s connection (session one) = (adopt_session s one (holder s), done)
  agent_message s connection (turn id text images) =
      (terminal_turn env s connection id text images, done)
  agent_message s connection (activity working) = Turns.activity s working
  agent_message s connection (proactive_started event_id) =
      (Turns.proactive_started s event_id, done)
  agent_message s connection (proactive_settled event_id) = (s, reconciles event_id)
  agent_message s connection (jobs rows) = (jobs_reported s rows, done)
  agent_message s connection (response a) = answer s a a.proactive_id

  unfoldable pub agent_request : Inner Value → ℕ → AgentRequestBody Value → Inner Value × Next
  unfolding agent_message
  agent_request s connection body =
      if of_connection connection s.agent then agent_message s connection body else (s, done)
