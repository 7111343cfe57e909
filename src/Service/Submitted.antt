-- ===== src/Service/Submitted.antt =====
-- host/service/src/service.rs: which submissions of a surface are recorded, and what they leave.
use scufris.Base.{
  ℕ, String, Bool, true, false, Option, none, some, List, ◌≡◌, refl, ap, ◌∙◌, if◌then◌else◌,
}
use scufris.Base.Result.{Result, ok, err}
use scufris.Control.Message.{AttachmentDescriptor, ConversationMessage, user}
use scufris.Control.Agent.{AgentResponseBody}
use scufris.Conversation.{push}
use scufris.Conversation.Store.{record_message}
use scufris.Briefings.Store.{StoreError}
use scufris.Service.{RegisteredSurface, Inner, Env, is_there}
use scufris.Service.Outbox as Outbox
use scufris.Service.Outbox.{find_surface, offer_agent, send_agent, send_surface}
use scufris.Service.Turns.{
  reset_failed, reset_circuit, resume, recover_circuit, restart_sequence, owner_turn, owner_words,
}
use scufris.Service.Surfaces.{
  refuse, unless_sent, acknowledge_message, submit, message_from, surface_message, speaking_surface,
}
use scufris.Service.Recorded.{Same, same, same-then, same-if}

abbrev pub IsTaken :
    {Value : Type 0}
    → Env Value
    → Inner Value
    → String
    → String
    → List String
    → Inner Value
    → Type 0
IsTaken env s id text attachments s' =
    (m : ConversationMessage _) × (s'.conversation ≡ (push s.conversation m none).0)
    × (m.role ≡ user)
    × (m.text ≡ text)
    × (env.resolve attachments ≡ some m.attachments)
    × (s'.associated_turn ≡ some id)

-- A submission that is accepted is recorded, and one that is not leaves everything as it was.
abbrev pub IsSubmitted :
    {Value : Type 0}
    → Env Value
    → Bool
    → Inner Value
    → String
    → String
    → List String
    → Inner Value
    → Type 0
IsSubmitted env true s id text attachments s' = IsTaken env s id text attachments s'
IsSubmitted env false s id text attachments s' = Same s s'

unfoldable pub reaches :
    {Value : Type 0}
    → Inner Value
    → String
    → String
    → RegisteredSurface Value
    → Option (List AttachmentDescriptor)
    → Bool
unfolding offer_agent
reaches s id text held none = false
reaches s id text held (some attachments) =
    (offer_agent s.world s.agent
      (AgentResponseBody.message id text held.registration.widgets attachments)).0

-- A submission is accepted when its connection speaks for a surface, no proactive turn is owed its
-- answer, its attachments are there, and the agent has room for it.
unfoldable pub accepted :
    {Value : Type 0}
    → Env Value
    → Inner Value
    → String
    → String
    → List String
    → Option (String × RegisteredSurface Value)
    → Bool
unfolding reaches
accepted env s id text attachments none = false
accepted env s id text attachments (some (surface, held)) =
    if is_there s.active_proactive then false else reaches s id text held (env.resolve attachments)

module _ {Value : Type 0} (env : Env Value) where
  IsSubmitted-if :
      (owed accepts : Bool) (s : Inner Value) (id text : String) (ids : List String)
      (x y : Inner Value)
      → Same s x
      → IsSubmitted env accepts s id text ids y
      → IsSubmitted env (if owed then false else accepts) s id text ids (if owed then x else y)
  IsSubmitted-if true accepts s id text ids x y kx ky = kx
  IsSubmitted-if false accepts s id text ids x y kx ky = ky

  reset_circuit-Same : (x : Result StoreError ℕ × Inner Value) → Same x.1 (reset_circuit env x)
  unfolding reset_circuit reset_failed
  reset_circuit-Same (err e, s) = same s
  reset_circuit-Same (ok n, s) = same-if _ s _ _ (same s) (same s)

  recovered-Same : (s : Inner Value) → Same s (restart_sequence (recover_circuit env s))
  unfolding recover_circuit resume
  recovered-Same s =
      let s' = recover_circuit env s in
      same-then s s' (restart_sequence s')
        (same-if s.proactive_circuit_open s _ _ (reset_circuit-Same (resume env s)) (same s))
        (same-if s'.proactive_circuit_open s' _ _ (same s') (same s'))

  owner_turn-IsTaken :
      (s : Inner Value) (surface id text : String) (ids : List String)
      (attachments : List AttachmentDescriptor)
      → env.resolve ids ≡ some attachments
      → IsTaken env s id text ids (owner_turn env s surface id text attachments).1
  unfolding owner_turn Outbox.record_message record_message
  owner_turn-IsTaken s surface id text ids attachments e =
      let (c, t, f) = recovered-Same s in
      let m = owner_words surface text attachments in
      (m, ap (λ h. (push h m none).0) c, refl, refl, e, refl)

  IsSubmitted-sent :
      (s s0 : Inner Value) (surface id text : String) (ids : List String)
      (attachments : List AttachmentDescriptor) (took : Bool)
      → env.resolve ids ≡ some attachments
      → Same s s0
      → IsSubmitted env took s id text ids (
          unless_sent surface id "message"
            (took, s0)
            (acknowledge_message env surface id text attachments))
  unfolding unless_sent refuse send_surface acknowledge_message
  IsSubmitted-sent s s0 surface id text ids attachments false e k = k
  IsSubmitted-sent s s0 surface id text ids attachments true e (c, t, f) =
      let (m, c', r, w, found, o) = owner_turn-IsTaken s0 surface id text ids attachments e in
      (m, c' ∙ ap (λ h. (push h m none).0) c, r, w, found, o)

  submit-IsSubmitted :
      (s : Inner Value) (surface : String) (held : RegisteredSurface Value) (id text : String)
      (ids : List String) (o : Option (List AttachmentDescriptor))
      → env.resolve ids ≡ o
      → IsSubmitted env
          (reaches s id text held o)
          s
          id
          text
          ids
          (submit env s surface held id text o)
  unfolding submit send_agent refuse send_surface reaches
  submit-IsSubmitted s surface held id text ids none e = same s
  submit-IsSubmitted s surface held id text ids (some attachments) e =
      let sent =
        send_agent s (AgentResponseBody.message id text held.registration.widgets attachments) in
      IsSubmitted-sent s sent.1 surface id text ids attachments sent.0 e (same s)

  message_from-IsSubmitted :
      (s : Inner Value) (id text : String) (attachments : List String)
      (o : Option (String × RegisteredSurface Value))
      → IsSubmitted env
          (accepted env s id text attachments o)
          s
          id
          text
          attachments
          (message_from env s id text attachments o)
  unfolding message_from refuse send_surface accepted
  message_from-IsSubmitted s id text attachments none = same s
  message_from-IsSubmitted s id text attachments (some (surface, held)) =
      let found = env.resolve attachments in
      IsSubmitted-if (is_there s.active_proactive) (reaches s id text held found) s id text
        attachments _ _ (same s) (submit-IsSubmitted s surface held id text attachments found refl)

  -- A submission is recorded as the words of the owner, with the attachments that its identifiers
  -- resolve to, and opens its turn, when its connection speaks for a surface, no proactive turn is
  -- owed its answer, its attachments are there, and the agent has room for it; in every other case it
  -- leaves the replay and the open turn as they were.
  pub surface_message-IsSubmitted :
      (s : Inner Value) (connection : ℕ) (id text : String) (attachments : List String)
      → IsSubmitted env
          (accepted env s id text attachments (speaking_surface s connection))
          s
          id
          text
          attachments
          (surface_message env s connection id text attachments)
  unfolding surface_message
  surface_message-IsSubmitted s connection id text attachments =
      message_from-IsSubmitted s id text attachments (speaking_surface s connection)
