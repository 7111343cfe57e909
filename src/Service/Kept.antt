-- ===== src/Service/Kept.antt =====
-- host/service/src/service.rs: the sections that leave the lease alone and take in no agent.
use scufris.Base.{
  ℕ, String, Bool, true, false, Option, none, some, ◌≡◌, ◌⊎◌, inl, inr, refl, ◌∙◌, ltb,
  if◌then◌else◌,
}
use scufris.Base.Result.{Result, ok, err}
use scufris.Control.Message.{ConversationMessage}
use scufris.Control.Agent.{AgentResponseBody, wake}
use scufris.Control.Briefing.{BriefingWake}
use scufris.Briefings.{Queued}
use scufris.Briefings.Store.{StoreError}
use scufris.Service.{AgentConnection, Inner, Env}
use scufris.Service.Outbox.{offer_agent, send_agent}
use scufris.Service.Proactive.{
  agent_left, return_item, return_to_inbox, retried, cannot_dispatch, dispatch_item,
  dispatch_briefing_now, dispatch_briefing, reserve_then_send, stop_runaway, is_later,
  mark_unstored, unsent, reserved, unreserved, timer_fires, settle_by_retry, settle_recovered,
  settle, proactive_settled, mark_queued, reserve, recover_item, open_circuit, free_slot,
}

-- The lease and what it counts are as they were, and the agent is, or has left.
abbrev pub Keeps : {Value : Type 0} → Inner Value → Inner Value → Type 0
Keeps s s' =
    (s'.lease ≡ s.lease)
    × (s'.stopping ≡ s.stopping)
    × (s'.lease_generation ≡ s.lease_generation)
    × ((s'.agent ≡ s.agent) ⊎ (s'.agent ≡ none))

same_or_none :
    (b : Bool) (a : Option AgentConnection)
    → let a' = if b then a else none in (a' ≡ a) ⊎ (a' ≡ none)
same_or_none true a = inl refl
same_or_none false a = inr refl

module _ {Value : Type 0} where
  pub kept : (s : Inner Value) → Keeps s s
  kept s = (refl, refl, refl, inl refl)

  pub kept-then : (s s' s'' : Inner Value) → Keeps s s' → Keeps s' s'' → Keeps s s''
  kept-then s s' s'' (l, t, g, a) (l', t', g', inr gone) = (l' ∙ l, t' ∙ t, g' ∙ g, inr gone)
  kept-then s s' s'' (l, t, g, inl a) (l', t', g', inl a') = (l' ∙ l, t' ∙ t, g' ∙ g, inl (a' ∙ a))
  kept-then s s' s'' (l, t, g, inr a) (l', t', g', inl a') = (l' ∙ l, t' ∙ t, g' ∙ g, inr (a' ∙ a))

  pub kept-if :
      (b : Bool) (s x y : Inner Value) → Keeps s x → Keeps s y → Keeps s (if b then x else y)
  kept-if true s x y kx ky = kx
  kept-if false s x y kx ky = ky

  pub send_agent-kept :
      (s : Inner Value) (body : AgentResponseBody Value) → Keeps s (send_agent s body).1
  unfolding send_agent
  send_agent-kept s body =
      (refl, refl, refl, same_or_none (offer_agent s.world s.agent body).0 s.agent)

  pub snd-kept :
      {A : Type 0} (b : Bool) (s : Inner Value) (x y : A × Inner Value)
      → Keeps s x.1
      → Keeps s y.1
      → Keeps s (if b then x else y).1
  snd-kept true s x y kx ky = kx
  snd-kept false s x y kx ky = ky

  pub verb-kept :
      {A B : Type 0} (b : Bool) (s : Inner Value) (x y : A × (Inner Value × B))
      → Keeps s x.1.0
      → Keeps s y.1.0
      → Keeps s (if b then x else y).1.0
  verb-kept true s x y kx ky = kx
  verb-kept false s x y kx ky = ky

  pub fst-kept :
      {A : Type 0} (b : Bool) (s : Inner Value) (x y : Inner Value × A)
      → Keeps s x.0
      → Keeps s y.0
      → Keeps s (if b then x else y).0
  fst-kept true s x y kx ky = kx
  fst-kept false s x y kx ky = ky

module _ {Value : Type 0} (env : Env Value) where
  retried-kept : (x : Result StoreError (Unit {0}) × Inner Value) → Keeps x.1 (retried env x)
  unfolding retried
  retried-kept (ok u, s) = kept s
  retried-kept (err e, s) = kept s

  return_item-kept : (s : Inner Value) (item : Option String) → Keeps s (return_item env s item)
  unfolding return_item return_to_inbox
  return_item-kept s none = kept s
  return_item-kept s (some event_id) = retried-kept (return_to_inbox env s event_id)

  pub agent_left-kept : (s : Inner Value) → Keeps s (agent_left env s)
  unfolding agent_left
  agent_left-kept s =
      let gone : Inner Value = record s {
        agent = none;
        active_proactive_started = false;
        active_proactive = none;
      } in
      kept-then s gone (return_item env gone s.active_proactive) (refl, refl, refl, inr refl)
        (return_item-kept gone s.active_proactive)

  -- After it no agent is connected.
  pub agent_left-none : (s : Inner Value) → (agent_left env s).agent ≡ none
  unfolding agent_left
  agent_left-none s =
      let gone : Inner Value = record s {
        agent = none;
        active_proactive_started = false;
        active_proactive = none;
      } in
      let (l, t, g, a) = return_item-kept gone s.active_proactive in
      elim a [ inl e ↦ e | inr e ↦ e ]

  mark_unstored-kept : (x : Result StoreError ℕ × Inner Value) → Keeps x.1 (mark_unstored env x)
  unfolding mark_unstored
  mark_unstored-kept (ok marked, s) = kept s
  mark_unstored-kept (err e, s) = kept s

  stop_runaway-kept : (s : Inner Value) → Keeps s (stop_runaway env s)
  unfolding stop_runaway mark_queued
  stop_runaway-kept s = mark_unstored-kept (mark_queued env (open_circuit s))

  unsent-kept : (x : Result StoreError (Unit {0}) × Inner Value) → Keeps x.1 (unsent env x)
  unfolding unsent
  unsent-kept (ok u, s) = kept s
  unsent-kept (err e, s) = kept s

  reserved-kept :
      (event_id : String) (took : Bool) (s : Inner Value)
      → Keeps s (reserved env event_id (took, s))
  unfolding reserved return_to_inbox
  reserved-kept event_id true s = kept s
  reserved-kept event_id false s = unsent-kept (return_to_inbox env s event_id)

  reserve_then_send-kept :
      (w : BriefingWake Value) (x : Result StoreError (Unit {0}) × Inner Value)
      → Keeps x.1 (reserve_then_send env w x)
  unfolding reserve_then_send unreserved
  reserve_then_send-kept w (err e, s) = kept s
  reserve_then_send-kept w (ok u, s) =
      let body = wake (some w.event_id) w.custom_type w.text w.details in
      let sent = send_agent s body in
      kept-then s sent.1 (reserved env w.event_id sent) (send_agent-kept s body)
        (reserved-kept w.event_id sent.0 sent.1)

  dispatch_item-kept :
      (s : Inner Value) (item : Option (Queued Value)) → Keeps s (dispatch_item env s item)
  unfolding dispatch_item reserve
  dispatch_item-kept s none = kept s
  dispatch_item-kept s (some queued) =
      kept-if _ s _ _ (stop_runaway-kept s)
        (reserve_then_send-kept queued.wake (reserve env s queued.wake.event_id))

  dispatch_now-kept : (s : Inner Value) → Keeps s (dispatch_briefing_now env s)
  unfolding dispatch_briefing_now
  dispatch_now-kept s = kept-if (cannot_dispatch s) s _ _ (kept s) (dispatch_item-kept s _)

  pub dispatch_briefing-kept : (s : Inner Value) → Keeps s (dispatch_briefing env s)
  unfolding dispatch_briefing
  dispatch_briefing-kept s =
      kept-if (cannot_dispatch s) s _ _ (kept s)
        (kept-if (is_later s.world.now s.proactive_not_before) s _ _ (kept s) (dispatch_now-kept s))

  pub timer_fires-kept : (s : Inner Value) → Keeps s (timer_fires env s).0
  unfolding timer_fires
  timer_fires-kept s = fst-kept _ s _ _ (kept s) (dispatch_now-kept _)

  settle_by_retry-kept :
      (s : Inner Value) (event_id : String) → Keeps s (settle_by_retry env s event_id).0
  unfolding settle_by_retry return_to_inbox
  settle_by_retry-kept s event_id = retried-kept (return_to_inbox env (free_slot s) event_id)

  settle_recovered-kept :
      (event_id : String) (m : ConversationMessage Value) (x : Result StoreError ℕ × Inner Value)
      → Keeps x.1 (settle_recovered env event_id m x).0
  unfolding settle_recovered
  settle_recovered-kept event_id m (err e, s) = settle_by_retry-kept s event_id
  settle_recovered-kept event_id m (ok n, s) =
      fst-kept (ltb 0 n) s _ _ (kept s) (settle_by_retry-kept s event_id)

  settle-kept :
      (s : Inner Value) (event_id : String) (o : Option (ConversationMessage Value))
      → Keeps s (settle env s event_id o).0
  unfolding settle recover_item
  settle-kept s event_id none = settle_by_retry-kept s event_id
  settle-kept s event_id (some m) = settle_recovered-kept event_id m (recover_item env s event_id)

  pub proactive_settled-kept :
      (s : Inner Value) (event_id : String) → Keeps s (proactive_settled env s event_id).0
  unfolding proactive_settled
  proactive_settled-kept s event_id = fst-kept _ s _ _ (settle-kept s event_id _) (kept s)
