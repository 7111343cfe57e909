-- ===== src/Service/Ingress.antt =====
-- host/service/src/service.rs: the verbs of the control socket besides the lease: the state, a page
-- of the conversation, a briefing update and a wake.
use scufris.Base.{ℕ, String, Bool, true, false, Option, none, some, if◌then◌else◌}
use scufris.Base.Text.{◌⋅◌}
use scufris.Base.Result.{Result, ok, err}
use scufris.Control.Briefing.{BriefingRow, BriefingWake, is_delivered}
use scufris.Control.Agent.{wake}
use scufris.Control.Local.{
  ControlResponseBody, state, wake_ack, briefing_ack, conversation_page, rejected,
}
use scufris.Conversation.{contains_delivery, entries_since}
use scufris.Briefings.Store.{StoreError}
use scufris.Briefings.Upsert.{UpsertOutcome, upsert}
use scufris.Service.{Inner, Env, done, dispatches, is_there, holder}
use scufris.Service.Outbox.{on_briefings, send_agent}
use scufris.Service.Folded.{state_word, publish_briefings}
use scufris.Service.Proactive.{mark_queued}
use scufris.Service.Leases.{Verb, generation_of}

module _ {Value : Type 0} (env : Env Value) where
  unfoldable pub control_state_full : Inner Value → String → Option ControlResponseBody
  unfolding state_word generation_of holder
  control_state_full s id = elim (state_word s) [
    | none ↦ none
    | some word ↦ some (
        state (record {
          id = id;
          state = word.0;
          detail = word.1;
          holder = holder s;
          generation = generation_of s.lease;
          session_dir = env.session_dir;
          lineage_file = s.lineage_file;
        }))
  ]

  unfoldable pub already_delivered : Inner Value → BriefingRow → Option (BriefingWake Value) → Bool
  unfolding contains_delivery
  already_delivered s row none = is_delivered row.delivery
  already_delivered s row (some w) = contains_delivery s.conversation w.event_id

  unfoldable pub marked : String → Result StoreError ℕ × Inner Value → Verb Value
  unfolding publish_briefings
  marked id (ok failed, s) = (briefing_ack id, (publish_briefings s, dispatches))
  marked id (err e, s) = (
    rejected id "no_free_slot" (
        "Briefing delivery is stopped, but its safety state could not be stored: "
        ⋅ env.store_error e),
    (s, done),
  )

  unfoldable pub upserted : String → Result StoreError UpsertOutcome × Inner Value → Verb Value
  unfolding mark_queued marked
  upserted id (err e, s) = (rejected id "no_free_slot" (env.store_error e), (s, done))
  upserted id (ok outcome, s) =
      if s.proactive_circuit_open then marked id (mark_queued env s) else marked id (ok 0, s)

  unfoldable pub upsert_item :
      Inner Value
      → BriefingRow
      → Option (BriefingWake Value)
      → Result StoreError UpsertOutcome × Inner Value
  unfolding upsert already_delivered
  upsert_item s row w =
      let already = already_delivered s row w in
      on_briefings
        (λ fault b node. upsert env.briefing_to_vec env.same_briefings fault row w already b node) s

  unfoldable pub control_briefing :
      Inner Value → String → BriefingRow → Option (BriefingWake Value) → Verb Value
  unfolding upsert_item upserted
  control_briefing s id row w = upserted id (upsert_item s row w)

module _ {Value : Type 0} where
  unfoldable pub control_conversation : Inner Value → String → ℕ → ControlResponseBody
  unfolding entries_since
  control_conversation s id since =
      let (entries, more) = entries_since s.conversation since in conversation_page id entries more

  abbrev pub woken : String → Bool × Inner Value → ControlResponseBody × Inner Value
  woken id (true, s) = (wake_ack id, s)
  woken id (false, s) = (rejected id "agent_unavailable" "The Scufris agent is unavailable.", s)

  unfoldable pub control_wake :
      Inner Value → String → String → String → Option Value → ControlResponseBody × Inner Value
  unfolding send_agent
  control_wake s id custom_type text details =
      if is_there s.active_proactive
      then (rejected id "no_free_slot" "A durable proactive response is already in progress.", s)
      else woken id (send_agent s (wake none custom_type text details))
