-- ===== src/Service/KeptSurfaces.antt =====
-- host/service/src/service.rs: what a surface asks for leaves the lease alone and takes in no agent.
use scufris.Base.{ℕ, String, Bool, true, false, Option, none, some, List}
use scufris.Base.Result.{Result, ok, err}
use scufris.Control.Message.{AttachmentDescriptor}
use scufris.Control.Surface.{JobAction}
use scufris.Control.Agent.{AgentResponseBody, abort, offer_take, job_command}
use scufris.Conversation.Store.{PersistError}
use scufris.Briefings.Changes.{DismissError, unavailable, not_dismissible, store}
use scufris.Service.{RegisteredSurface, Inner, Env, is_there, close_turn}
use scufris.Service.Outbox.{send_surface, send_agent}
use scufris.Service.Surfaces.{
  unregister_found, unregister_surface, refuse, unless_sent, abort_for, surface_abort,
  job_command_for, surface_job_command, acknowledge_message, submit, message_from, surface_message,
  speaking_surface, dismissed, dismiss_item, dismiss_for, surface_briefing_dismiss, spend, taken,
  take_item, take_offer_for, surface_offer_take,
}
use scufris.Service.Kept.{Keeps, kept, kept-then, kept-if, send_agent-kept}
use scufris.Service.KeptAnswers.{owner_turn-kept}

module _ {Value : Type 0} where
  unregister_found-kept :
      (s : Inner Value) (connection generation : ℕ) (o : Option (String × ℕ))
      → Keeps s (unregister_found s connection generation o)
  unfolding unregister_found
  unregister_found-kept s connection generation none = kept s
  unregister_found-kept s connection generation (some (id, current)) =
      kept-if _ s _ _ (kept s) (kept s)

  pub unregister_surface-kept :
      (s : Inner Value) (connection generation : ℕ)
      → Keeps s (unregister_surface s connection generation)
  unfolding unregister_surface
  unregister_surface-kept s connection generation = unregister_found-kept s connection generation _

  unless_sent-kept :
      (surface id operation : String) (x : Bool × Inner Value) (later : Inner Value → Inner Value)
      → ((s : Inner Value) → Keeps s (later s))
      → Keeps x.1 (unless_sent surface id operation x later)
  unfolding unless_sent refuse send_surface
  unless_sent-kept surface id operation (true, s) later h = h s
  unless_sent-kept surface id operation (false, s) later h = kept s

  -- A message to the agent, and what the answer to the surface depends on.
  sent-kept :
      (s : Inner Value) (surface id operation : String) (body : AgentResponseBody Value)
      (later : Inner Value → Inner Value)
      → ((s' : Inner Value) → Keeps s' (later s'))
      → Keeps s (unless_sent surface id operation (send_agent s body) later)
  sent-kept s surface id operation body later h =
      let sent = send_agent s body in
      kept-then s sent.1 (unless_sent surface id operation sent later) (send_agent-kept s body)
        (unless_sent-kept surface id operation sent later h)

  abort_for-kept :
      (s : Inner Value) (id : String) (o : Option (String × RegisteredSurface Value))
      → Keeps s (abort_for s id o)
  unfolding abort_for send_surface close_turn
  abort_for-kept s id none = kept s
  abort_for-kept s id (some (surface, held)) =
      sent-kept s surface id "abort" (abort id) _ (λ s'. kept s')

  pub surface_abort-kept :
      (s : Inner Value) (connection : ℕ) (id : String) → Keeps s (surface_abort s connection id)
  unfolding surface_abort
  surface_abort-kept s connection id = abort_for-kept s id (speaking_surface s connection)

  job_command_for-kept :
      (s : Inner Value) (id : String) (action : JobAction)
      (o : Option (String × RegisteredSurface Value))
      → Keeps s (job_command_for s id action o)
  unfolding job_command_for
  job_command_for-kept s id action none = kept s
  job_command_for-kept s id action (some (surface, held)) =
      sent-kept s surface id "job" (job_command id action) _ (λ s'. kept s')

  pub surface_job_command-kept :
      (s : Inner Value) (connection : ℕ) (id : String) (action : JobAction)
      → Keeps s (surface_job_command s connection id action)
  unfolding surface_job_command
  surface_job_command-kept s connection id action =
      job_command_for-kept s id action (speaking_surface s connection)

module _ {Value : Type 0} (env : Env Value) where
  acknowledge_message-kept :
      (surface id text : String) (attachments : List AttachmentDescriptor) (s : Inner Value)
      → Keeps s (acknowledge_message env surface id text attachments s)
  unfolding acknowledge_message send_surface
  acknowledge_message-kept surface id text attachments s =
      owner_turn-kept env s surface id text attachments

  submit-kept :
      (s : Inner Value) (surface : String) (held : RegisteredSurface Value) (id text : String)
      (o : Option (List AttachmentDescriptor))
      → Keeps s (submit env s surface held id text o)
  unfolding submit refuse send_surface
  submit-kept s surface held id text none = kept s
  submit-kept s surface held id text (some attachments) =
      sent-kept s surface id "message" _ _ (acknowledge_message-kept surface id text attachments)

  message_from-kept :
      (s : Inner Value) (id text : String) (attachments : List String)
      (o : Option (String × RegisteredSurface Value))
      → Keeps s (message_from env s id text attachments o)
  unfolding message_from refuse send_surface
  message_from-kept s id text attachments none = kept s
  message_from-kept s id text attachments (some (surface, held)) =
      kept-if (is_there s.active_proactive) s _ _ (kept s)
        (submit-kept s surface held id text (env.resolve attachments))

  pub surface_message-kept :
      (s : Inner Value) (connection : ℕ) (id text : String) (attachments : List String)
      → Keeps s (surface_message env s connection id text attachments)
  unfolding surface_message
  surface_message-kept s connection id text attachments =
      message_from-kept s id text attachments (speaking_surface s connection)

  dismissed-kept :
      (surface id : String) (x : Result DismissError Bool × Inner Value)
      → Keeps x.1 (dismissed env surface id x)
  unfolding dismissed refuse send_surface
  dismissed-kept surface id (ok fresh, s) = kept s
  dismissed-kept surface id (err unavailable, s) = kept s
  dismissed-kept surface id (err not_dismissible, s) = kept s
  dismissed-kept surface id (err (store e), s) = kept s

  dismiss_for-kept :
      (s : Inner Value) (id : String) (o : Option (String × RegisteredSurface Value))
      → Keeps s (dismiss_for env s id o)
  unfolding dismiss_for dismiss_item
  dismiss_for-kept s id none = kept s
  dismiss_for-kept s id (some (surface, held)) = dismissed-kept surface id (dismiss_item env s id)

  pub surface_briefing_dismiss-kept :
      (s : Inner Value) (connection : ℕ) (id : String)
      → Keeps s (surface_briefing_dismiss env s connection id)
  unfolding surface_briefing_dismiss
  surface_briefing_dismiss-kept s connection id =
      dismiss_for-kept s id (speaking_surface s connection)

  spend-kept : (surface id : String) (s : Inner Value) → Keeps s (spend env surface id s)
  unfolding spend
  spend-kept surface id s = sent-kept _ surface id "offer" (offer_take id) _ (λ s'. kept s')

  taken-kept :
      (surface id : String) (x : Result PersistError Bool × Inner Value)
      → Keeps x.1 (taken env surface id x)
  unfolding taken refuse send_surface
  taken-kept surface id (ok true, s) = spend-kept surface id s
  taken-kept surface id (ok false, s) = kept s
  taken-kept surface id (err e, s) = spend-kept surface id s

  take_offer_for-kept :
      (s : Inner Value) (id : String) (o : Option (String × RegisteredSurface Value))
      → Keeps s (take_offer_for env s id o)
  unfolding take_offer_for take_item
  take_offer_for-kept s id none = kept s
  take_offer_for-kept s id (some (surface, held)) = taken-kept surface id (take_item env s id)

  pub surface_offer_take-kept :
      (s : Inner Value) (connection : ℕ) (id : String)
      → Keeps s (surface_offer_take env s connection id)
  unfolding surface_offer_take
  surface_offer_take-kept s connection id = take_offer_for-kept s id (speaking_surface s connection)
