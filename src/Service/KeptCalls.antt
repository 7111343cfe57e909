-- ===== src/Service/KeptCalls.antt =====
-- host/service/src/service.rs: what a surface, the process and the control socket ask for leaves the
-- lease alone and takes in no agent, but for the verbs of the lease and a shutdown.
use scufris.Base.{ℕ, String, Bool, true, false, Option, none, some}
use scufris.Base.Result.{Result, ok, err}
use scufris.Control.Briefing.{BriefingRow, BriefingWake}
use scufris.Control.Agent.{wake}
use scufris.Briefings.Store.{StoreError}
use scufris.Briefings.Upsert.{UpsertOutcome}
use scufris.Service.{Inner, Env, is_there}
use scufris.Service.Schema.{Tree}
use scufris.Service.Outbox.{send_agent}
use scufris.Service.Proactive.{mark_queued}
use scufris.Service.Ingress.{marked, upserted, upsert_item, control_briefing, woken, control_wake}
use scufris.Service.Process.{
  Event, response, agent_start, agent_settled, other, message_end, extension_ui_request,
  extension_error, SessionState, next_process, fork_from, adopt_file, cancel, started_or_failed,
  booted, from_data, is_dialog, answer_dialog, apply, agent_ended, restart_or_fail, count_failure,
  start_agent,
}
use scufris.Service.Kept.{
  Keeps, kept, kept-then, kept-if, fst-kept, snd-kept, verb-kept, send_agent-kept,
}

module _ {Value : Type 0} where
  woken-kept : (id : String) (x : Bool × Inner Value) → Keeps x.1 (woken id x).1
  woken-kept id (true, s) = kept s
  woken-kept id (false, s) = kept s

  pub control_wake-kept :
      (s : Inner Value) (id custom_type text : String) (details : Option Value)
      → Keeps s (control_wake s id custom_type text details).1
  unfolding control_wake
  control_wake-kept s id custom_type text details =
      let sent = send_agent s (wake none custom_type text details) in
      snd-kept (is_there s.active_proactive) s _ _ (kept s)
        (kept-then s sent.1 (woken id sent).1 (send_agent-kept s _) (woken-kept id sent))

  adopt_file-kept :
      (s : Inner Value) (file known : Option String) → Keeps s (adopt_file s file known)
  adopt_file-kept s none known = kept s
  adopt_file-kept s (some file) none = kept s
  adopt_file-kept s (some file) (some known) = kept s

  booted-kept :
      (s : Inner Value) (success : Bool) (error : Option String) (found : SessionState)
      → Keeps s (booted s success error found)
  unfolding booted
  booted-kept s false error found = kept s
  booted-kept s true error found = adopt_file-kept s found.file s.lineage_file

  cancel-kept : (s : Inner Value) (process : Option ℕ) (id : String) → Keeps s (cancel s process id)
  cancel-kept s none id = kept s
  cancel-kept s (some process) id = kept s

  answer_dialog-kept : (s : Inner Value) (id method : String) → Keeps s (answer_dialog s id method)
  unfolding answer_dialog
  answer_dialog-kept s id method =
      kept-if (is_dialog method) s _ _ (cancel-kept s s.process id) (kept s)

  pub apply-kept :
      (tree : Tree Value) (s : Inner Value) (event : Event Value) → Keeps s (apply tree s event).0
  unfolding apply
  apply-kept tree s (response id success error value) =
      fst-kept _ s _ _ (booted-kept s success error (from_data tree value)) (kept s)
  apply-kept tree s agent_start = kept s
  apply-kept tree s agent_settled = kept s
  apply-kept tree s other = kept s
  apply-kept tree s (message_end text) = kept s
  apply-kept tree s (extension_ui_request id method text) = answer_dialog-kept s id method
  apply-kept tree s (extension_error error) = kept s

  pub agent_ended-kept : (s : Inner Value) (generation : ℕ) → Keeps s (agent_ended s generation).0
  unfolding agent_ended
  agent_ended-kept s generation = fst-kept _ s _ _ (kept s) (kept s)

  pub count_failure-kept : (s : Inner Value) (ran : ℕ) → Keeps s (count_failure s ran).0
  unfolding count_failure restart_or_fail
  count_failure-kept s ran = fst-kept _ s _ _ (kept s) (kept s)

module _ {Value : Type 0} (env : Env Value) where
  marked-kept :
      (id : String) (x : Result StoreError ℕ × Inner Value) → Keeps x.1 (marked env id x).1.0
  unfolding marked
  marked-kept id (ok n, s) = kept s
  marked-kept id (err e, s) = kept s

  upserted-kept :
      (id : String) (x : Result StoreError UpsertOutcome × Inner Value)
      → Keeps x.1 (upserted env id x).1.0
  unfolding upserted mark_queued
  upserted-kept id (err e, s) = kept s
  upserted-kept id (ok outcome, s) =
      verb-kept s.proactive_circuit_open s _ _ (marked-kept id (mark_queued env s))
        (marked-kept id (ok 0, s))

  pub control_briefing-kept :
      (s : Inner Value) (id : String) (row : BriefingRow) (w : Option (BriefingWake Value))
      → Keeps s (control_briefing env s id row w).1.0
  unfolding control_briefing upsert_item
  control_briefing-kept s id row w = upserted-kept id (upsert_item env s row w)

  started-kept : (s : Inner Value) (o : Option String) → Keeps s (started_or_failed s o)
  unfolding started_or_failed
  started-kept s none = kept s
  started-kept s (some error) = kept s

  pub start_agent-kept : (s : Inner Value) → Keeps s (start_agent env s)
  unfolding start_agent
  start_agent-kept s =
      kept-if _ s _ _ (kept s) (started-kept (next_process s) (env.start (fork_from s) s.world.now))
