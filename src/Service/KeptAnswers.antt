-- ===== src/Service/KeptAnswers.antt =====
-- host/service/src/service.rs: what the agent reports leaves the lease alone and takes in no agent.
use scufris.Base.{ℕ, String, Bool, true, false, Option, none, some, List, [], if◌then◌else◌}
use scufris.Base.Result.{Result, ok, err}
use scufris.Control.Message.{AttachmentDescriptor, ConversationMessage}
use scufris.Control.Agent.{
  Answer, AgentRequestBody, hello, session, turn, activity, proactive_started, proactive_settled,
  response, jobs, AgentResponseBody, turn_ack,
}
use scufris.Conversation.{delivery_message}
use scufris.Conversation.Store.{PersistError}
use scufris.Briefings.Store.{StoreError}
use scufris.Service.{Inner, Env, is_failed, names, agent_holds_lease}
use scufris.Service.Proactive.{mark_failed}
use scufris.Service.Turns as Turns
use scufris.Service.Turns.{
  starts_with, reset_failed, reset_circuit, resume, recover_circuit, restart_sequence, owner_turn,
  terminal_turn, with_images, acknowledge_turn, tell_unless, resolve_for, count_start,
  jobs_reported, adopt_session,
}
use scufris.Service.Answers.{
  acknowledged, acknowledge_with, acknowledge_item, delivered, record_item, deliver,
  proactive_answer, proactive_message, destination, tell_if, tell_invalid, tell_widgets,
  tell_terminal, invalid_in, answer_to, record_answer, answer, agent_message, agent_request,
}
use scufris.Service.Kept.{Keeps, kept, kept-then, kept-if, fst-kept, snd-kept, send_agent-kept}

module _ {Value : Type 0} (env : Env Value) where
  reset_circuit-kept : (x : Result StoreError ℕ × Inner Value) → Keeps x.1 (reset_circuit env x)
  unfolding reset_circuit reset_failed
  reset_circuit-kept (err e, s) = kept s
  reset_circuit-kept (ok n, s) = kept-if _ s _ _ (kept s) (kept s)

  recover_circuit-kept : (s : Inner Value) → Keeps s (recover_circuit env s)
  unfolding recover_circuit resume
  recover_circuit-kept s =
      kept-if s.proactive_circuit_open s _ _ (reset_circuit-kept (resume env s)) (kept s)

  restart_sequence-kept : (s : Inner Value) → Keeps s (restart_sequence s)
  restart_sequence-kept s = kept-if s.proactive_circuit_open s _ _ (kept s) (kept s)

  pub owner_turn-kept :
      (s : Inner Value) (surface turn_id text : String) (attachments : List AttachmentDescriptor)
      → Keeps s (owner_turn env s surface turn_id text attachments).1
  unfolding owner_turn
  owner_turn-kept s surface turn_id text attachments =
      let s' = recover_circuit env s in
      kept-then s s' (restart_sequence s') (recover_circuit-kept s) (restart_sequence-kept s')

  terminal_turn-kept :
      (s : Inner Value) (connection : ℕ) (id text : String) (images : ℕ)
      → Keeps s (terminal_turn env s connection id text images)
  unfolding terminal_turn acknowledge_turn
  terminal_turn-kept s connection id text images =
      let turned = owner_turn env s "terminal" id (with_images text images) [] in
      kept-if (agent_holds_lease s connection) s _ _
        (kept-then s turned.1 (acknowledge_turn id turned)
          (owner_turn-kept s "terminal" id (with_images text images) [])
          (send_agent-kept turned.1 (turn_ack id turned.0)))
        (send_agent-kept s _)

  activity-kept : (s : Inner Value) (working : Bool) → Keeps s (Turns.activity s working).0
  unfolding Turns.activity
  activity-kept s working = fst-kept (is_failed s.lifecycle) s _ _ (kept s) (kept s)

  proactive_started-kept :
      (s : Inner Value) (event_id : String) → Keeps s (Turns.proactive_started s event_id)
  unfolding Turns.proactive_started count_start
  proactive_started-kept s event_id =
      kept-if _ s _ _ (kept s) (kept-if s.active_proactive_started s _ _ (kept s) (kept s))

  tell_unless-kept :
      (b : Bool) (s : Inner Value) (body : AgentResponseBody Value) → Keeps s (tell_unless b s body)
  unfolding tell_unless
  tell_unless-kept true s body = kept s
  tell_unless-kept false s body = send_agent-kept s body

  resolve_for-kept :
      (s : Inner Value) (turn_id : Option String) (attachments : List String)
      → Keeps s (resolve_for env s turn_id attachments).1
  unfolding resolve_for
  resolve_for-kept s turn_id attachments = tell_unless-kept _ s _

  acknowledged-kept :
      (m : ConversationMessage Value) (x : Result StoreError Bool × Inner Value)
      → Keeps x.1 (acknowledged env m x).0
  unfolding acknowledged mark_failed
  acknowledged-kept m (err e, s) = kept s
  acknowledged-kept m (ok true, s) = kept s
  acknowledged-kept m (ok false, s) = kept s

  acknowledge_with-kept :
      (s : Inner Value) (event_id : String) (o : Option (ConversationMessage Value))
      → Keeps s (acknowledge_with env s event_id o).0
  unfolding acknowledge_with acknowledge_item
  acknowledge_with-kept s event_id none = kept s
  acknowledge_with-kept s event_id (some m) = acknowledged-kept m (acknowledge_item env s event_id)

  delivered-kept :
      (event_id : String) (m : ConversationMessage Value)
      (x : Result PersistError Bool × Inner Value)
      → Keeps x.1 (delivered env event_id m x).0
  unfolding delivered
  delivered-kept event_id m (err e, s) = kept s
  delivered-kept event_id m (ok true, s) = acknowledge_with-kept s event_id (some m)
  delivered-kept event_id m (ok false, s) =
      acknowledge_with-kept s event_id (delivery_message s.conversation event_id)

  deliver-kept :
      (event_id : String) (a : Answer Value) (x : List AttachmentDescriptor × Inner Value)
      → Keeps x.1 (deliver env event_id a x).0
  unfolding deliver record_item
  deliver-kept event_id a (attachments, s) =
      delivered-kept event_id (proactive_message a attachments)
        (record_item env s event_id (proactive_message a attachments))

  proactive_answer-kept :
      (s : Inner Value) (event_id : String) (a : Answer Value)
      → Keeps s (proactive_answer env s event_id a).0
  unfolding proactive_answer count_start
  proactive_answer-kept s event_id a =
      let s' : Inner Value = if s.active_proactive_started then s else count_start s event_id in
      let resolved = resolve_for env s' none a.attachments in
      fst-kept (names s.active_proactive event_id) s _ _
        (kept-then s resolved.1 (deliver env event_id a resolved).0
          (kept-then s s' resolved.1 (kept-if s.active_proactive_started s _ _ (kept s) (kept s))
            (resolve_for-kept s' none a.attachments))
          (deliver-kept event_id a resolved))
        (kept s)

  tell_if-kept :
      (b : Bool) (s : Inner Value) (body : AgentResponseBody Value) → Keeps s (tell_if b s body)
  unfolding tell_if
  tell_if-kept true s body = send_agent-kept s body
  tell_if-kept false s body = kept s

  tell_invalid-kept :
      (turn_id o : Option String) (s : Inner Value) → Keeps s (tell_invalid turn_id o s)
  unfolding tell_invalid
  tell_invalid-kept turn_id none s = kept s
  tell_invalid-kept turn_id (some detail) s = send_agent-kept s _

  tell_widgets-kept :
      (a : Answer Value) (place : Option String) (s : Inner Value)
      → Keeps s (tell_widgets env a place s)
  unfolding tell_widgets tell_terminal
  tell_widgets-kept a place s =
      let s1 = tell_terminal env a place s in
      let invalid = invalid_in env a place s in
      kept-then s s1 (tell_invalid a.turn_id invalid s1) (tell_if-kept _ s _)
        (tell_invalid-kept a.turn_id invalid s1)

  answer_to-kept :
      (a : Answer Value) (x : Option String × Inner Value) → Keeps x.1 (answer_to env a x)
  unfolding answer_to record_answer
  answer_to-kept a (place, s) =
      let s1 = tell_widgets env a place s in
      kept-then s s1 (resolve_for env s1 a.turn_id a.attachments).1 (tell_widgets-kept a place s)
        (resolve_for-kept s1 a.turn_id a.attachments)

  destination-kept : (s : Inner Value) (turn_id : Option String) → Keeps s (destination s turn_id).1
  unfolding destination
  destination-kept s none = snd-kept _ s _ _ (kept s) (kept s)
  destination-kept s (some named) = snd-kept _ s _ _ (kept s) (kept s)

  answer-kept :
      (s : Inner Value) (a : Answer Value) (o : Option String) → Keeps s (answer env s a o).0
  unfolding answer
  answer-kept s a (some event_id) = proactive_answer-kept s event_id a
  answer-kept s a none =
      let placed = destination s a.turn_id in
      kept-then s placed.1 (answer_to env a placed) (destination-kept s a.turn_id)
        (answer_to-kept a placed)

  agent_message-kept :
      (s : Inner Value) (connection : ℕ) (body : AgentRequestBody Value)
      → Keeps s (agent_message env s connection body).0
  unfolding agent_message adopt_session jobs_reported
  agent_message-kept s connection (hello lease one) = kept s
  agent_message-kept s connection (session one) = kept s
  agent_message-kept s connection (turn id text images) =
      terminal_turn-kept s connection id text images
  agent_message-kept s connection (activity working) = activity-kept s working
  agent_message-kept s connection (proactive_started event_id) = proactive_started-kept s event_id
  agent_message-kept s connection (proactive_settled event_id) = kept s
  agent_message-kept s connection (jobs rows) = kept s
  agent_message-kept s connection (response a) = answer-kept s a a.proactive_id

  pub agent_request-kept :
      (s : Inner Value) (connection : ℕ) (body : AgentRequestBody Value)
      → Keeps s (agent_request env s connection body).0
  unfolding agent_request
  agent_request-kept s connection body =
      fst-kept _ s _ _ (agent_message-kept s connection body) (kept s)
