-- ===== src/Service/Fence/Run.antt =====
-- host/service/src/service.rs: the fence through every order in which the threads take the lock.
use scufris.Base.{List, [], ◌∷◌}
use scufris.Conversation.{ConversationHistory}
use scufris.Briefings.{BriefingStore}
use scufris.Service.{World, Inner, Env}
use scufris.Service.Machine.{
  Section, registers, unregisters, submits, aborts, dismisses, takes_offer, commands_job, admits,
  leaves, reports, acquires, settles, pings, releases, disconnects, sweeps, imports, wakes,
  dispatch, timer, start, stop, settles_proactive, process_says, process_ends, process_failed,
  passes, step, run, created, new,
}
use scufris.Service.Surfaces.{register_surface}
use scufris.Service.Process.{shutdown}
use scufris.Service.Leases.{control_lease_ping}
use scufris.Service.Kept.{Keeps, dispatch_briefing-kept, timer_fires-kept, proactive_settled-kept}
use scufris.Service.KeptAnswers.{agent_request-kept}
use scufris.Service.KeptSurfaces.{
  unregister_surface-kept, surface_abort-kept, surface_job_command-kept, surface_message-kept,
  surface_briefing_dismiss-kept, surface_offer_take-kept,
}
use scufris.Service.KeptCalls.{
  control_wake-kept, apply-kept, agent_ended-kept, count_failure-kept, control_briefing-kept,
  start_agent-kept,
}
use scufris.Service.Fence.{IsFenced, kept-IsFenced, ping_held-IsFenced}
use scufris.Service.Fence.Admitted.{admit_agent-IsFenced, unregister_agent-kept}
use scufris.Service.Fence.Released.{
  release-IsFenced, disconnect-IsFenced, sweep_lease-IsFenced, settled-IsFenced, acquire-IsFenced,
}

module _ {Value : Type 0} (env : Env Value) where
  by_kept :
      (s : Inner Value) (section : Section Value)
      → IsFenced s
      → Keeps s (step env s section)
      → IsFenced (step env s section)
  by_kept s section f k = kept-IsFenced s (step env s section) k f

  step-IsFenced :
      (s : Inner Value) (section : Section Value) → IsFenced s → IsFenced (step env s section)
  unfolding step register_surface shutdown control_lease_ping
  step-IsFenced s (registers connection registration) f = f
  step-IsFenced s (unregisters connection generation) f =
      by_kept s (unregisters connection generation) f
        (unregister_surface-kept s connection generation)
  step-IsFenced s (submits connection id text attachments) f =
      by_kept s (submits connection id text attachments) f
        (surface_message-kept env s connection id text attachments)
  step-IsFenced s (aborts connection id) f =
      by_kept s (aborts connection id) f (surface_abort-kept s connection id)
  step-IsFenced s (dismisses connection id) f =
      by_kept s (dismisses connection id) f (surface_briefing_dismiss-kept env s connection id)
  step-IsFenced s (takes_offer connection id) f =
      by_kept s (takes_offer connection id) f (surface_offer_take-kept env s connection id)
  step-IsFenced s (commands_job connection id action) f =
      by_kept s (commands_job connection id action) f
        (surface_job_command-kept s connection id action)
  step-IsFenced s (admits connection lease session) f =
      admit_agent-IsFenced env s connection lease session f
  step-IsFenced s (leaves connection) f =
      by_kept s (leaves connection) f (unregister_agent-kept env s connection)
  step-IsFenced s (reports connection body) f =
      by_kept s (reports connection body) f (agent_request-kept env s connection body)
  step-IsFenced s (acquires connection id who abort_working) f =
      acquire-IsFenced env s connection id who abort_working f
  step-IsFenced s (settles connection id who) f = settled-IsFenced env s connection id who f
  step-IsFenced s (pings connection id) f = ping_held-IsFenced s connection id s.lease f f
  step-IsFenced s (releases connection id) f = release-IsFenced env s connection id f
  step-IsFenced s (disconnects connection) f = disconnect-IsFenced env s connection f
  step-IsFenced s (sweeps generation) f = sweep_lease-IsFenced env s generation f
  step-IsFenced s (imports id row w) f =
      by_kept s (imports id row w) f (control_briefing-kept env s id row w)
  step-IsFenced s (wakes id custom_type text details) f =
      by_kept s (wakes id custom_type text details) f
        (control_wake-kept s id custom_type text details)
  step-IsFenced s dispatch f = by_kept s dispatch f (dispatch_briefing-kept env s)
  step-IsFenced s timer f = by_kept s timer f (timer_fires-kept env s)
  step-IsFenced s start f = by_kept s start f (start_agent-kept env s)
  step-IsFenced s stop f = (tt, tt)
  step-IsFenced s (settles_proactive event_id) f =
      by_kept s (settles_proactive event_id) f (proactive_settled-kept env s event_id)
  step-IsFenced s (process_says event) f =
      by_kept s (process_says event) f (apply-kept env.tree s event)
  step-IsFenced s (process_ends generation) f =
      by_kept s (process_ends generation) f (agent_ended-kept s generation)
  step-IsFenced s (process_failed ran) f =
      by_kept s (process_failed ran) f (count_failure-kept s ran)
  step-IsFenced s (passes world) f = f

  runs-IsFenced :
      (s : Inner Value) (sections : List (Section Value))
      → IsFenced s
      → IsFenced (run env s sections)
  unfolding run
  runs-IsFenced s [] f = f
  runs-IsFenced s (section ∷ rest) f =
      runs-IsFenced (step env s section) rest (step-IsFenced s section f)

  -- From a start of the service on, in whatever order the threads take the lock: unless the service
  -- is stopping, the agent that is connected named the lease that is held, and none where none is
  -- held; and the lease that is held has a generation that has been given out.
  pub run-IsFenced :
      (world : World Value) (conversation : ConversationHistory Value)
      (briefings : BriefingStore Value) (sections : List (Section Value))
      → IsFenced (run env (new env world conversation briefings) sections)
  unfolding new created
  run-IsFenced world conversation briefings sections =
      runs-IsFenced (new env world conversation briefings) sections (tt, tt)
