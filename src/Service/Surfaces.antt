-- ===== src/Service/Surfaces.antt =====
-- host/service/src/service.rs: the surfaces: a registration, its end, and what a surface asks for.
use scufris.Base.{
  ℕ, ◌+◌, String, Bool, true, false, ◌&&◌, Option, none, some, List, [], ◌∷◌, ◌==◌, if◌then◌else◌,
}
use scufris.Base.Result.{Result, ok, err}
use scufris.Control.Message.{AttachmentDescriptor, ConversationMessage}
use scufris.Control.Surface.{
  SurfaceRegistration, JobAction, SurfaceResponseBody, message, message_ack, aborted, offer_taken,
  ready, jobs, briefings, rejected,
}
use scufris.Control.Agent.{AgentResponseBody, abort, offer_take, job_command}
use scufris.Conversation.{messages}
use scufris.Conversation.Store.{PersistError, take_offer}
use scufris.Briefings.{shown_rows}
use scufris.Briefings.Changes.{DismissError, unavailable, not_dismissible, store, dismiss}
use scufris.Service.{RegisteredSurface, to_surface, World, Inner, Env, is_there, holder, close_turn}
use scufris.Service.Outbox.{
  find_surface, remove_surface, find_connection, remove_connection, Surfaces, drop_from, try_send,
  send_surface, broadcast, send_agent, on_briefings, on_conversation,
}
use scufris.Service.Folded.{state_word, state_body, publish_briefings}
use scufris.Service.Turns.{owner_turn}

abbrev add_some {ℓ} : {A : Type ℓ} → Option A → List A → List A
add_some none xs = xs
add_some (some x) xs = x ∷ xs

module _ {Value : Type 0} where
  -- The messages that a joining surface is offered, whether or not it has room for them.
  unfoldable pub offer_each : World Value → ℕ → List (SurfaceResponseBody Value) → World Value
  unfolding try_send
  offer_each world connection [] = world
  offer_each world connection (body ∷ rest) =
      offer_each (try_send world world.takes (to_surface connection body)).1 connection rest

  unfoldable pub replay : List (ConversationMessage Value) → List (SurfaceResponseBody Value)
  replay [] = []
  replay (m ∷ rest) = message m ∷ replay rest

  unfoldable pub joining :
      Inner Value → SurfaceRegistration Value → List (SurfaceResponseBody Value)
  unfolding state_word shown_rows holder
  joining s registration =
      add_some (state_body (state_word s) (holder s))
        (jobs s.jobs ∷ briefings (shown_rows s.briefings) ∷ ready registration.id ∷ [])

  -- The generation of a registration is the count of them.
  unfoldable pub register_surface : Inner Value → ℕ → SurfaceRegistration Value → Inner Value
  unfolding drop_from offer_each replay messages joining remove_connection
  register_surface s connection registration =
      let generation = s.next_surface_generation + 1 in
      let (surfaces, connections) =
        drop_from registration.id (s.surfaces, s.surface_by_connection) in
      record s {
        next_surface_generation = generation;
        surfaces =
            (
              registration.id,
              record {
                registration = registration;
                sender = record { connection = connection; generation = generation };
              },
            )
            ∷ surfaces;
        surface_by_connection =
            (connection, (registration.id, generation)) ∷ remove_connection connection connections;
        world =
            offer_each (offer_each s.world connection (replay (messages s.conversation.entries)))
              connection (joining s registration);
      }

  abbrev holds_sender : ℕ → ℕ → Option (RegisteredSurface Value) → Bool
  holds_sender connection generation none = false
  holds_sender connection generation (some held) =
      held.sender.connection == connection && held.sender.generation == generation

  unfoldable pub unregister_found : Inner Value → ℕ → ℕ → Option (String × ℕ) → Inner Value
  unfolding find_surface remove_surface remove_connection
  unregister_found s connection generation none = s
  unregister_found s connection generation (some (id, current)) =
      if current == generation
      then record s {
        surfaces =
            if holds_sender connection generation (find_surface id s.surfaces)
            then remove_surface id s.surfaces
            else s.surfaces;
        surface_by_connection = remove_connection connection s.surface_by_connection;
      }
      else s

  unfoldable pub unregister_surface : Inner Value → ℕ → ℕ → Inner Value
  unfolding unregister_found find_connection
  unregister_surface s connection generation =
      unregister_found s connection generation (find_connection connection s.surface_by_connection)

  abbrev held_at :
      String → ℕ → Option (RegisteredSurface Value) → Option (String × RegisteredSurface Value)
  held_at surface generation none = none
  held_at surface generation (some held) =
      if held.sender.generation == generation then some (surface, held) else none

  unfoldable pub speaks :
      Surfaces Value → Option (String × ℕ) → Option (String × RegisteredSurface Value)
  unfolding find_surface
  speaks surfaces none = none
  speaks surfaces (some (surface, generation)) =
      held_at surface generation (find_surface surface surfaces)

  -- The surface that a connection speaks for, if it still holds the name.
  unfoldable pub speaking_surface : Inner Value → ℕ → Option (String × RegisteredSurface Value)
  unfolding speaks find_connection
  speaking_surface s connection =
      speaks s.surfaces (find_connection connection s.surface_by_connection)

  unfoldable pub refuse : Inner Value → String → String → String → String → String → Inner Value
  unfolding send_surface
  refuse s surface id operation code detail =
      send_surface s surface (rejected (some id) operation code detail)

  unfoldable pub unless_sent :
      String → String → String → Bool × Inner Value → (Inner Value → Inner Value) → Inner Value
  unfolding refuse
  unless_sent surface id operation (true, s) later = later s
  unless_sent surface id operation (false, s) later =
      refuse s surface id operation "agent_unavailable" "The Scufris agent is unavailable."

  unfoldable pub abort_for :
      Inner Value → String → Option (String × RegisteredSurface Value) → Inner Value
  unfolding send_agent unless_sent send_surface close_turn
  abort_for s id none = s
  abort_for s id (some (surface, held)) =
      unless_sent surface id "abort" (send_agent s (abort id))
        (λ s'. send_surface (close_turn s') surface (aborted id))

  unfoldable pub surface_abort : Inner Value → ℕ → String → Inner Value
  unfolding speaking_surface abort_for
  surface_abort s connection id = abort_for s id (speaking_surface s connection)

  unfoldable pub job_command_for :
      Inner Value → String → JobAction → Option (String × RegisteredSurface Value) → Inner Value
  unfolding send_agent unless_sent
  job_command_for s id action none = s
  job_command_for s id action (some (surface, held)) =
      unless_sent surface id "job" (send_agent s (job_command id action)) (λ s'. s')

  unfoldable pub surface_job_command : Inner Value → ℕ → String → JobAction → Inner Value
  unfolding speaking_surface job_command_for
  surface_job_command s connection id action =
      job_command_for s id action (speaking_surface s connection)

module _ {Value : Type 0} (env : Env Value) where
  unfoldable pub acknowledge_message :
      String → String → String → List AttachmentDescriptor → Inner Value → Inner Value
  unfolding owner_turn send_surface
  acknowledge_message surface id text attachments s =
      send_surface (owner_turn env s surface id text attachments).1 surface (message_ack id)

  unfoldable pub submit :
      Inner Value
      → String
      → RegisteredSurface Value
      → String
      → String
      → Option (List AttachmentDescriptor)
      → Inner Value
  unfolding refuse send_agent unless_sent acknowledge_message
  submit s surface held id text none =
      refuse s surface id "message" "attachments_unavailable"
        "One or more attachments are unavailable."
  submit s surface held id text (some attachments) =
      unless_sent surface id "message"
        (send_agent s (AgentResponseBody.message id text held.registration.widgets attachments))
        (acknowledge_message surface id text attachments)

  unfoldable pub message_from :
      Inner Value
      → String
      → String
      → List String
      → Option (String × RegisteredSurface Value)
      → Inner Value
  unfolding refuse submit
  message_from s id text attachments none = s
  message_from s id text attachments (some (surface, held)) =
      if is_there s.active_proactive
      then refuse s surface id "message" "no_free_slot"
          "A briefing is finishing. Send this again when it is done."
      else submit s surface held id text (env.resolve attachments)

  unfoldable pub surface_message : Inner Value → ℕ → String → String → List String → Inner Value
  unfolding speaking_surface message_from
  surface_message s connection id text attachments =
      message_from s id text attachments (speaking_surface s connection)

  unfoldable pub dismissed : String → String → Result DismissError Bool × Inner Value → Inner Value
  unfolding refuse publish_briefings
  dismissed surface id (ok fresh, s) = publish_briefings s
  dismissed surface id (err unavailable, s) =
      refuse s surface id "briefing" "briefing_unavailable"
        "That briefing generation is not retained."
  dismissed surface id (err not_dismissible, s) =
      refuse s surface id "briefing" "briefing_not_dismissible"
        "A briefing can be dismissed only after its terminal response is delivered."
  dismissed surface id (err (store e), s) =
      refuse s surface id "briefing" "briefing_dismissal_failed"
        "The briefing dismissal could not be stored."

  unfoldable pub dismiss_item : Inner Value → String → Result DismissError Bool × Inner Value
  unfolding dismiss
  dismiss_item s id = on_briefings (λ fault b node. dismiss env.briefing_to_vec fault id b node) s

  unfoldable pub dismiss_for :
      Inner Value → String → Option (String × RegisteredSurface Value) → Inner Value
  unfolding dismissed dismiss_item
  dismiss_for s id none = s
  dismiss_for s id (some (surface, held)) = dismissed surface id (dismiss_item s id)

  unfoldable pub surface_briefing_dismiss : Inner Value → ℕ → String → Inner Value
  unfolding speaking_surface dismiss_for
  surface_briefing_dismiss s connection id = dismiss_for s id (speaking_surface s connection)

  unfoldable pub spend : String → String → Inner Value → Inner Value
  unfolding send_agent unless_sent broadcast
  spend surface id s =
      unless_sent surface id "offer" (send_agent (broadcast s (offer_taken id)) (offer_take id))
        (λ s'. s')

  unfoldable pub taken : String → String → Result PersistError Bool × Inner Value → Inner Value
  unfolding refuse spend
  taken surface id (ok true, s) = spend surface id s
  taken surface id (ok false, s) =
      refuse s surface id "offer" "offer_unavailable" "That offer is no longer open."
  taken surface id (err e, s) = spend surface id s

  unfoldable pub take_item : Inner Value → String → Result PersistError Bool × Inner Value
  unfolding take_offer
  take_item s id =
      on_conversation env (λ fault h disk. take_offer env.conversation_json fault h id disk) s

  unfoldable pub take_offer_for :
      Inner Value → String → Option (String × RegisteredSurface Value) → Inner Value
  unfolding taken take_item
  take_offer_for s id none = s
  take_offer_for s id (some (surface, held)) = taken surface id (take_item s id)

  unfoldable pub surface_offer_take : Inner Value → ℕ → String → Inner Value
  unfolding speaking_surface take_offer_for
  surface_offer_take s connection id = take_offer_for s id (speaking_surface s connection)
