-- ===== src/Service/Proactive.antt =====
-- host/service/src/service.rs: the one slot of a proactive turn: its reservation, its return to the
-- inbox, its settlement, and the circuit that stops a repeated run.
use text.Mathlib.Text.{◌==◌ as ◌=ˢ◌}
use scufris.Base.Text.{◌⋅◌}
use scufris.Base.{
  ℕ, ◌+◌, String, Bool, true, false, not, ◌&&◌, ◌||◌, Option, none, some, List, [], ◌∷◌, ltb, leb,
  if◌then◌else◌,
}
use scufris.Base.Result.{Result, ok, err}
use scufris.Control.Message.{ConversationMessage}
use scufris.Control.Briefing.{BriefingWake}
use scufris.Control.Surface.{message}
use scufris.Control.Agent.{wake}
use scufris.Conversation.{delivery_message}
use scufris.Briefings.{Queued, next, logical_run_for_event}
use scufris.Briefings.Store.{StoreError, retry, start, queued_delivery_failed, recover_delivered}
use scufris.Service.{
  Lifecycle, Inner, Env, Next, done, dispatches, proactive_backoff, recovery,
  max_consecutive_proactive_turns, is_idle, is_there, names,
}
use scufris.Service.Outbox.{on_briefings, broadcast, send_agent}
use scufris.Service.Folded.{publish_state, publish_briefings}

unfoldable pub runs_again : Option (String × String) → List (String × String) → Bool
runs_again none runs = false
runs_again (some run) [] = false
runs_again (some run) (other ∷ runs) =
    (other.0 =ˢ run.0 && other.1 =ˢ run.1) || runs_again (some run) runs

abbrev pub insert_run : Option (String × String) → List (String × String) → List (String × String)
insert_run none runs = runs
insert_run (some run) runs = run ∷ runs

abbrev pub is_later : ℕ → Option ℕ → Bool
is_later now none = false
is_later now (some deadline) = ltb now deadline

module _ {Value : Type 0} where
  unfoldable pub fail_lifecycle : Inner Value → String → Inner Value
  fail_lifecycle s detail = record s { lifecycle = Lifecycle.failed; lifecycle_detail = detail }

  abbrev pub open_circuit : Inner Value → Inner Value
  open_circuit s = record s { proactive_circuit_open = true }

  -- The wait between two proactive turns starts now.
  unfoldable pub back_off : Inner Value → Inner Value
  unfolding proactive_backoff
  back_off s = record s {
    proactive_not_before = some (s.world.now + proactive_backoff s.consecutive_proactive);
  }

  abbrev pub end_sequence : Inner Value → Inner Value
  end_sequence s = record s {
    consecutive_proactive = 0;
    proactive_runs = [];
    proactive_not_before = none;
  }

  abbrev pub free_slot : Inner Value → Inner Value
  free_slot s = record s { active_proactive = none; active_proactive_started = false }

  -- The conditions under which no item is given the slot.
  unfoldable pub cannot_dispatch : Inner Value → Bool
  cannot_dispatch s =
      not (is_idle s.lifecycle)
      || is_there s.associated_surface
      || is_there s.active_proactive
      || not (is_there s.agent)
      || s.proactive_circuit_open

module _ {Value : Type 0} (env : Env Value) where
  unfoldable pub mark_queued : Inner Value → Result StoreError ℕ × Inner Value
  unfolding queued_delivery_failed
  mark_queued s =
      on_briefings (λ fault b node. queued_delivery_failed env.briefing_to_vec fault b node) s

  -- The same, where its error is only logged.
  unfoldable pub mark_failed : Inner Value → Inner Value
  unfolding mark_queued
  mark_failed s = (mark_queued s).1

  unfoldable pub reserve : Inner Value → String → Result StoreError (Unit {0}) × Inner Value
  unfolding start
  reserve s event_id =
      on_briefings (λ fault b node. start env.briefing_to_vec fault event_id b node) s

  unfoldable pub recover_item : Inner Value → String → Result StoreError ℕ × Inner Value
  unfolding recover_delivered
  recover_item s event_id =
      on_briefings
        (λ fault b node.
          recover_delivered env.briefing_to_vec fault (λ candidate. candidate =ˢ event_id) b node)
        s

  unfoldable pub return_to_inbox : Inner Value → String → Result StoreError (Unit {0}) × Inner Value
  unfolding retry
  return_to_inbox s event_id =
      on_briefings (λ fault b node. retry env.briefing_to_vec fault event_id b node) s

  unfoldable pub retry_lost : Inner Value → Inner Value
  unfolding fail_lifecycle
  retry_lost s =
      fail_lifecycle (open_circuit s)
        ("Briefing delivery stopped because its retry could not be stored." ⋅ recovery)

  -- What `retry` is followed by when a turn did not come to its end.
  unfoldable pub retried : Result StoreError (Unit {0}) × Inner Value → Inner Value
  unfolding back_off retry_lost mark_failed publish_state
  retried (ok _, s) = back_off s
  retried (err e, s) = publish_state (mark_failed (retry_lost s))

  unfoldable pub return_item : Inner Value → Option String → Inner Value
  unfolding return_to_inbox retried
  return_item s none = s
  return_item s (some event_id) = retried (return_to_inbox s event_id)

  unfoldable pub agent_left : Inner Value → Inner Value
  unfolding return_item publish_briefings
  agent_left s = publish_briefings (
      return_item
        (record s { agent = none; active_proactive_started = false; active_proactive = none })
        s.active_proactive)

  unfoldable pub mark_unstored : Result StoreError ℕ × Inner Value → Inner Value
  unfolding fail_lifecycle
  mark_unstored (ok marked, s) = s
  mark_unstored (err e, s) =
      fail_lifecycle s
        ("Briefing delivery stopped, but its safety state could not be stored." ⋅ recovery)

  unfoldable pub stop_runaway : Inner Value → Inner Value
  unfolding mark_queued mark_unstored publish_state publish_briefings
  stop_runaway s = publish_briefings (publish_state (mark_unstored (mark_queued (open_circuit s))))

  unfoldable pub unreserved : Inner Value → Inner Value
  unfolding fail_lifecycle mark_failed publish_state publish_briefings
  unreserved s = publish_briefings (
      publish_state (
        mark_failed (
          fail_lifecycle (open_circuit s)
            ("Briefing delivery stopped because its reservation could not be stored." ⋅ recovery))))

  unfoldable pub unsent : Result StoreError (Unit {0}) × Inner Value → Inner Value
  unfolding retry_lost publish_state
  unsent (ok _, s) = s
  unsent (err e, s) = publish_state (retry_lost s)

  unfoldable pub reserved : String → Bool × Inner Value → Inner Value
  unfolding return_to_inbox unsent
  reserved event_id (true, s) = record s {
    proactive_not_before = none;
    active_proactive = some event_id;
    active_proactive_started = false;
  }
  reserved event_id (false, s) = unsent (return_to_inbox s event_id)

  unfoldable pub reserve_then_send :
      BriefingWake Value → Result StoreError (Unit {0}) × Inner Value → Inner Value
  unfolding unreserved reserved send_agent publish_briefings
  reserve_then_send w (err e, s) = unreserved s
  reserve_then_send w (ok _, s) =
      publish_briefings
        (reserved w.event_id (send_agent s (wake (some w.event_id) w.custom_type w.text w.details)))

  unfoldable pub dispatch_item : Inner Value → Option (Queued Value) → Inner Value
  unfolding runs_again logical_run_for_event stop_runaway reserve reserve_then_send
  dispatch_item s none = end_sequence s
  dispatch_item s (some queued) =
      let run = logical_run_for_event s.briefings queued.wake.event_id in
      if leb max_consecutive_proactive_turns s.consecutive_proactive
        && runs_again run s.proactive_runs
      then stop_runaway s
      else reserve_then_send queued.wake (reserve s queued.wake.event_id)

  unfoldable pub dispatch_briefing_now : Inner Value → Inner Value
  unfolding cannot_dispatch next dispatch_item
  dispatch_briefing_now s = if cannot_dispatch s then s else dispatch_item s (next s.briefings)

  -- An armed timer is `proactive_timer_pending`; it fires as `timer_fires`.
  unfoldable pub dispatch_briefing : Inner Value → Inner Value
  unfolding cannot_dispatch dispatch_briefing_now
  dispatch_briefing s =
      if cannot_dispatch s
      then s
      else if is_later s.world.now s.proactive_not_before
      then record s { proactive_timer_pending = true }
      else dispatch_briefing_now s

  -- The timer's thread, after its sleep.
  unfoldable pub timer_fires : Inner Value → Inner Value × Next
  unfolding dispatch_briefing_now
  timer_fires s =
      let s' = record s { proactive_timer_pending = false } in
      if is_later s.world.now s.proactive_not_before
      then (s', dispatches)
      else (dispatch_briefing_now s', done)

  unfoldable pub settle_by_retry : Inner Value → String → Inner Value × Next
  unfolding return_to_inbox retried publish_briefings
  settle_by_retry s event_id =
      (publish_briefings (retried (return_to_inbox (free_slot s) event_id)), dispatches)

  unfoldable pub settle_recovered :
      String → ConversationMessage Value → Result StoreError ℕ × Inner Value → Inner Value × Next
  unfolding settle_by_retry back_off broadcast publish_briefings
  settle_recovered event_id m (err e, s) = settle_by_retry s event_id
  settle_recovered event_id m (ok recovered, s) =
      if ltb 0 recovered
      then (publish_briefings (back_off (broadcast (free_slot s) (message m))), dispatches)
      else settle_by_retry s event_id

  unfoldable pub settle :
      Inner Value → String → Option (ConversationMessage Value) → Inner Value × Next
  unfolding settle_by_retry settle_recovered recover_item
  settle s event_id none = settle_by_retry s event_id
  settle s event_id (some m) = settle_recovered event_id m (recover_item s event_id)

  unfoldable pub proactive_settled : Inner Value → String → Inner Value × Next
  unfolding settle delivery_message
  proactive_settled s event_id =
      if names s.active_proactive event_id
      then settle s event_id (delivery_message s.conversation event_id)
      else (s, done)
