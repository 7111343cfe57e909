-- ===== src/Service/Panics.antt =====
-- host/service/src/service.rs: the `expect` of a proactive answer, which is in the replay already.
use scufris.Base.{
  ℕ, String, Bool, true, false, Option, none, some, List, ◌≡◌, refl, arith, if◌then◌else◌,
}
use scufris.Base.Files.{Fault}
use scufris.Base.Result.{Result, ok, err}
use scufris.Control.Message.{AttachmentDescriptor, ConversationMessage}
use scufris.Control.Agent.{
  Answer, AgentRequestBody, hello, session, turn, activity, proactive_started, proactive_settled,
  response, jobs,
}
use scufris.Conversation.{ConversationHistory, is_some, delivery_message, contains_delivery, push}
use scufris.Conversation.Store.{
  Json, Disk, PersistError, Stored, Written, keep_if_stored, record_delivery,
}
use scufris.Briefings.Store.{StoreError}
use scufris.Service.{Inner, Env, Next, panics, names, is_failed}
use scufris.Service.Turns as Turns
use scufris.Service.Turns.{count_start, resolve_for}
use scufris.Service.Answers.{
  of_connection, acknowledged, acknowledge_item, acknowledge_with, proactive_message, record_item,
  delivered, deliver, proactive_answer, answer, agent_message, agent_request,
}

abbrev pub panicked : Next → Bool
panicked panics = true
panicked _ = false

calm-if :
    {A : Type 0} (b : Bool) (x y : A × Next)
    → panicked x.1 ≡ false
    → panicked y.1 ≡ false
    → panicked (if b then x else y).1 ≡ false
calm-if true x y cx cy = cx
calm-if false x y cx cy = cy

module _ {Value : Type 0} (json : Json Value) where
  abbrev Known : String → Stored json Bool → Type 0
  Known id (ok false, h, disk) = is_some (delivery_message h id) ≡ true
  Known id (ok true, h, disk) = Unit
  Known id (err e, h, disk) = Unit

  keep_if_stored-Known :
      (id : String) (old new : ConversationHistory Value) (w : Written json)
      → Known id (keep_if_stored json old new w)
  keep_if_stored-Known id old new (ok u, disk) = tt
  keep_if_stored-Known id old new (err e, disk) = tt

  Known-if :
      (b : Bool) (id : String) (x y : Stored json Bool)
      → (b ≡ true → Known id x)
      → Known id y
      → Known id (if b then x else y)
  Known-if true id x y kx ky = kx refl
  Known-if false id x y kx ky = ky

  -- A delivery is only a duplicate when the replay has its message.
  record_delivery-Known :
      (fault : Fault) (h : ConversationHistory Value) (id : String) (m : ConversationMessage Value)
      (disk : Disk)
      → Known id (record_delivery json fault h id m disk)
  unfolding record_delivery contains_delivery
  record_delivery-Known fault h id m disk =
      Known-if (contains_delivery h id) id _ _ (λ e. e)
        (keep_if_stored-Known id h (push h m (some id)).0 _)

module _ {Value : Type 0} (env : Env Value) where
  acknowledged-calm :
      (m : ConversationMessage Value) (x : Result StoreError Bool × Inner Value)
      → panicked (acknowledged env m x).1 ≡ false
  unfolding acknowledged
  acknowledged-calm m (err e, s) = refl
  acknowledged-calm m (ok true, s) = refl
  acknowledged-calm m (ok false, s) = refl

  acknowledge_with-calm :
      (s : Inner Value) (event_id : String) (o : Option (ConversationMessage Value))
      → is_some o ≡ true
      → panicked (acknowledge_with env s event_id o).1 ≡ false
  unfolding acknowledge_with
  acknowledge_with-calm s event_id none e = ground arith
  acknowledge_with-calm s event_id (some m) e =
      acknowledged-calm m (acknowledge_item env s event_id)

  delivered-calm :
      (event_id : String) (m : ConversationMessage Value) (r : Result PersistError Bool)
      (s : Inner Value)
      → Known env.conversation_json event_id (r, s.conversation, s.world.conversation_disk)
      → panicked (delivered env event_id m (r, s)).1 ≡ false
  unfolding delivered
  delivered-calm event_id m (err e) s k = refl
  delivered-calm event_id m (ok true) s k = acknowledge_with-calm s event_id (some m) refl
  delivered-calm event_id m (ok false) s k =
      acknowledge_with-calm s event_id (delivery_message s.conversation event_id) k

  deliver-calm :
      (event_id : String) (a : Answer Value) (x : List AttachmentDescriptor × Inner Value)
      → panicked (deliver env event_id a x).1 ≡ false
  unfolding deliver record_item
  deliver-calm event_id a (attachments, s) =
      let m = proactive_message a attachments in
      let item = record_item env s event_id m in
      delivered-calm event_id m item.0 item.1 (
        record_delivery-Known env.conversation_json _ s.conversation event_id m
          s.world.conversation_disk)

  answer-calm :
      (s : Inner Value) (a : Answer Value) (o : Option String)
      → panicked (answer env s a o).1 ≡ false
  unfolding answer proactive_answer
  answer-calm s a none = refl
  answer-calm s a (some event_id) =
      calm-if (names s.active_proactive event_id) _ _
        (deliver-calm event_id a (
          resolve_for env (if s.active_proactive_started then s else count_start s event_id) none
            a.attachments))
        refl

  activity-calm : (s : Inner Value) (working : Bool) → panicked (Turns.activity s working).1 ≡ false
  unfolding Turns.activity
  activity-calm s true = calm-if (is_failed s.lifecycle) _ _ refl refl
  activity-calm s false = calm-if (is_failed s.lifecycle) _ _ refl refl

  agent_message-calm :
      (s : Inner Value) (connection : ℕ) (body : AgentRequestBody Value)
      → panicked (agent_message env s connection body).1 ≡ false
  unfolding agent_message
  agent_message-calm s connection (hello lease one) = refl
  agent_message-calm s connection (session one) = refl
  agent_message-calm s connection (turn id text images) = refl
  agent_message-calm s connection (activity working) = activity-calm s working
  agent_message-calm s connection (proactive_started event_id) = refl
  agent_message-calm s connection (proactive_settled event_id) = refl
  agent_message-calm s connection (jobs rows) = refl
  agent_message-calm s connection (response a) = answer-calm s a a.proactive_id

  -- Nothing that an agent can report makes the handler panic: an answer that the replay calls a
  -- duplicate has its message there, whatever the state was and whatever the writes meet.
  pub agent_request-never_panics :
      (s : Inner Value) (connection : ℕ) (body : AgentRequestBody Value)
      → panicked (agent_request env s connection body).1 ≡ false
  unfolding agent_request
  agent_request-never_panics s connection body =
      calm-if (of_connection connection s.agent) _ _ (agent_message-calm s connection body) refl
