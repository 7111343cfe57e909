-- ===== src/Service/Recorded.antt =====
-- host/service/src/service.rs: what an answer and a submission leave in the replay, and which turn is
-- open after them.
use text.Mathlib.Text.{◌==◌ as ◌=ˢ◌}
use scufris.Base.{
  String, Bool, true, false, not, Option, none, some, List, ◌≡◌, ◌⊎◌, inl, inr, refl, sym, ap, ◌∙◌,
  Bool-cases, eq_iff, if◌then◌else◌,
}
use scufris.Control.Message.{ConversationMessage, assistant}
use scufris.Control.Surface.{terminal_surface, unprompted_surface}
use scufris.Control.Agent.{Answer, AgentResponseBody}
use scufris.Conversation.{push}
use scufris.Conversation.Store.{record_message}
use scufris.Service.{Inner, Env, is_there, names, close_turn}
use scufris.Service.Outbox as Outbox
use scufris.Service.Outbox.{find_surface, offer_agent, send_agent, send_surface}
use scufris.Service.Turns.{tell_unless, resolve_for}
use scufris.Service.Answers.{
  destination, owner_of, surface_of, tell_if, tell_invalid, tell_terminal, tell_widgets, invalid_in,
  record_answer, answer_to, answer, answer_message, owned_calls, with_widgets,
}

-- The replay and the open turn are as they were.
abbrev pub Same : {Value : Type 0} → Inner Value → Inner Value → Type 0
Same s s' =
    (s'.conversation ≡ s.conversation)
    × (s'.associated_turn ≡ s.associated_turn)
    × (s'.associated_surface ≡ s.associated_surface)

-- A surface that an answer is shown as: nobody's, the terminal's, or one that is registered.
abbrev pub IsShown : {Value : Type 0} → Inner Value → String → Type 0
IsShown s surface =
    (surface ≡ unprompted_surface)
    ⊎ ((surface ≡ terminal_surface) ⊎ (is_there (find_surface surface s.surfaces) ≡ true))

-- The turn that an answer closes: the one it names, or the open one where it names none and no
-- proactive turn is owed its answer.
abbrev pub closes : {Value : Type 0} → Inner Value → Option String → Bool
closes s (some named) = names s.associated_turn named
closes s none = not (is_there s.active_proactive)

abbrev pub IsAnswered : {Value : Type 0} → Inner Value → Answer Value → Inner Value → Type 0
IsAnswered s a s' =
    ((m : ConversationMessage _) × (s'.conversation ≡ (push s.conversation m none).0)
      × (m.role ≡ assistant)
      × (m.text ≡ a.text)
      × (m.details ≡ a.details)
      × (m.receipts ≡ a.receipts)
      × IsShown s m.surface)
    × (s'.associated_turn ≡ (if closes s a.turn_id then none else s.associated_turn))

module _ {Value : Type 0} where
  pub same : (s : Inner Value) → Same s s
  same s = (refl, refl, refl)

  pub same-then : (s s' s'' : Inner Value) → Same s s' → Same s' s'' → Same s s''
  same-then s s' s'' (c, t, f) (c', t', f') = (c' ∙ c, t' ∙ t, f' ∙ f)

  pub same-if : (b : Bool) (s x y : Inner Value) → Same s x → Same s y → Same s (if b then x else y)
  same-if true s x y kx ky = kx
  same-if false s x y kx ky = ky

  IsShown-before :
      (s s' : Inner Value) (surface : String)
      → s'.surfaces ≡ s.surfaces
      → IsShown s' surface
      → IsShown s surface
  IsShown-before s s' surface e (inl u) = inl u
  IsShown-before s s' surface e (inr (inl t)) = inr (inl t)
  IsShown-before s s' surface e (inr (inr h)) =
      inr (inr (ap (λ table. is_there (find_surface surface table)) (sym e) ∙ h))

  tell_if-Same :
      (b : Bool) (s : Inner Value) (body : AgentResponseBody Value) → Same s (tell_if b s body)
  unfolding tell_if send_agent
  tell_if-Same true s body = same s
  tell_if-Same false s body = same s

  tell_unless-Same :
      (b : Bool) (s : Inner Value) (body : AgentResponseBody Value) → Same s (tell_unless b s body)
  unfolding tell_unless send_agent
  tell_unless-Same true s body = same s
  tell_unless-Same false s body = same s

  tell_invalid-Same :
      (turn_id o : Option String) (s : Inner Value) → Same s (tell_invalid turn_id o s)
  unfolding tell_invalid send_agent
  tell_invalid-Same turn_id none s = same s
  tell_invalid-Same turn_id (some detail) s = same s

  IsShown-if :
      (s : Inner Value) (surface : String) (known : Bool)
      → is_there (find_surface surface s.surfaces) ≡ known
      → IsShown s (surface_of known (some surface))
  IsShown-if s surface true e = inr (inr e)
  IsShown-if s surface false e = elim (Bool-cases (surface =ˢ terminal_surface)) [
    | inl is ↦ rw is (inr (inl ((eq_iff surface terminal_surface).0 is)))
    | inr not_it ↦ rw not_it (inl refl)
  ]

  surface_of-IsShown :
      (s : Inner Value) (place : Option String)
      → IsShown s (surface_of (is_there (owner_of place s.surfaces)) place)
  unfolding owner_of
  surface_of-IsShown s none = inl refl
  surface_of-IsShown s (some surface) =
      IsShown-if s surface (is_there (find_surface surface s.surfaces)) refl

  abbrev Placed : Inner Value → Option String → Inner Value → Type 0
  Placed s turn_id s' =
      (s'.conversation ≡ s.conversation)
      × (s'.surfaces ≡ s.surfaces)
      × (s'.associated_turn ≡ (if closes s turn_id then none else s.associated_turn))

  destination-Placed :
      (s : Inner Value) (turn_id : Option String) → Placed s turn_id (destination s turn_id).1
  unfolding destination close_turn
  destination-Placed s (some named) = elim (Bool-cases (names s.associated_turn named)) [
    | inl e ↦ rw e (refl, refl, refl)
    | inr e ↦ rw e (refl, refl, refl)
  ]
  destination-Placed s none = elim (Bool-cases (is_there s.active_proactive)) [
    | inl e ↦ rw e (refl, refl, refl)
    | inr e ↦ rw e (refl, refl, refl)
  ]

module _ {Value : Type 0} (env : Env Value) where
  told-Same :
      (a : Answer Value) (place : Option String) (s : Inner Value)
      → Same s (tell_widgets env a place s)
  unfolding tell_widgets tell_terminal
  told-Same a place s =
      let s1 = tell_terminal env a place s in
      let invalid = invalid_in env a place s in
      same-then s s1 (tell_invalid a.turn_id invalid s1) (tell_if-Same _ s _)
        (tell_invalid-Same a.turn_id invalid s1)

  resolved-Same :
      (s : Inner Value) (turn_id : Option String) (attachments : List String)
      → Same s (resolve_for env s turn_id attachments).1
  unfolding resolve_for
  resolved-Same s turn_id attachments = tell_unless-Same _ s _

  answer_to-IsAnswered :
      (s : Inner Value) (a : Answer Value) (x : Option String × Inner Value)
      → Placed s a.turn_id x.1
      → IsAnswered s a (answer_to env a x)
  unfolding answer_to record_answer owned_calls Outbox.record_message record_message
  answer_to-IsAnswered s a (place, s') (c, f, t) =
      let s1 = tell_widgets env a place s' in
      let (c', t', u') =
        same-then s' s1 (resolve_for env s1 a.turn_id a.attachments).1 (told-Same a place s')
          (resolved-Same s1 a.turn_id a.attachments) in
      let surface = surface_of (is_there (owner_of place s'.surfaces)) place in
      let m =
        answer_message a surface
          (with_widgets (not (is_there (invalid_in env a place s'))) (owned_calls env a place s'))
          (resolve_for env s1 a.turn_id a.attachments).0 in
      (
        (
          m,
          ap (λ h. (push h m none).0) (c' ∙ c),
          refl,
          refl,
          refl,
          refl,
          IsShown-before s s' surface f (surface_of-IsShown s' place),
        ),
        t' ∙ t,
      )

  -- An answer that is not to a proactive event is recorded, with its words, details and receipts,
  -- whatever its widget calls and attachments are; it is shown as the terminal's, a registered
  -- surface's or nobody's; and it closes the turn it names, or the open one where it names none and
  -- no proactive turn is owed its answer, and no other turn.
  pub answer-IsAnswered :
      (s : Inner Value) (a : Answer Value) → IsAnswered s a (answer env s a none).0
  unfolding answer
  answer-IsAnswered s a =
      answer_to-IsAnswered s a (destination s a.turn_id) (destination-Placed s a.turn_id)
