-- ===== src/Service/Tests.antt =====
-- The theorems on host/service/src/service.rs at concrete states.
mod Calls
use native.Mathlib.Decide.{ℕ_discrete}
use text.Mathlib.Text.{◌==◌ as ◌=ˢ◌}
use scufris.Base.{
  ℕ, zero, suc, true, false, Option, none, some, List, [], ◌∷◌, ◌≡◌, refl, arith, ◌==◌,
}
use scufris.Base.Text.{String-discrete}
use scufris.Base.Files.{absent}
use scufris.Control.State.{ScufrisState}
use scufris.Control.Surface.{SurfaceRegistration, JobRowState}
use scufris.Control.Agent.{Answer, response}
use scufris.Control.Local.{LeaseHolder}
use scufris.Conversation.{StoredEntry}
use scufris.Conversation.Store.{Json, StoredConversation}
use scufris.Briefings.{BriefingStore}
use scufris.Service.{Lease, World, Inner, Env}
use scufris.Service.Schema.{View, null, object, Tree, validate_schema}
use scufris.Service.Folded.{state_word}
use scufris.Service.Surfaces.{surface_message, speaking_surface, register_surface}
use scufris.Service.Agents.{admit_agent}
use scufris.Service.Answers.{answer, agent_request}
use scufris.Service.Process.{agent_settled, apply}
use scufris.Service.Leases.{control_lease_acquire, granted_verb}
use scufris.Service.Machine.{
  step, Section, registers, admits, acquires, process_says, created, new, run,
}
use scufris.Service.Fence.{IsFenced}
use scufris.Service.Fence.Run.{run-IsFenced}
use scufris.Service.Word.{Folds, state_word-Folds}
use scufris.Service.Panics.{panicked, agent_request-never_panics}
use scufris.Service.Watch.{Ended, watch_lease, watch_lease-ends}
use scufris.Service.Depth.{IsDeeper, validate_schema-ends}
use scufris.Service.Recorded.{IsAnswered, answer-IsAnswered}
use scufris.Service.Submitted.{IsSubmitted, accepted, surface_message-IsSubmitted}

Entry-discrete : Discrete (StoredEntry ℕ)
Entry-discrete = hlevel (String-discrete, ℕ_discrete)

Store-discrete : Discrete (BriefingStore ℕ)
Store-discrete = hlevel (String-discrete, ℕ_discrete)

abbrev one_byte : StoredConversation ℕ → Option (List ℕ)
one_byte s = some (7 ∷ [])

abbrev json : Json ℕ
json = record {
  Tree = ℕ;
  to_vec = one_byte;
  from_slice = λ bytes. none;
  version_of = λ tree. none;
  from_value = λ tree. none;
  encoded_size = λ value. 1;
  value_eq = Entry-discrete;
}

-- A JSON value as its depth: an object with a smaller one under two names, or null.
abbrev shown_as : ℕ → View ℕ
shown_as zero = null
shown_as (suc n) = object (("properties", n) ∷ ("a", n) ∷ [])

abbrev depths : Tree ℕ
depths = record { view = shown_as; same = λ a b. a == b }

abbrev env : Env ℕ
env = record {
  terminal_lease = true;
  session_dir = "/sessions";
  conversation_json = json;
  briefing_to_vec = λ s. some (7 ∷ []);
  same_briefings = Store-discrete;
  resolve = λ ids. some [];
  tree = depths;
  nesting = λ n. n;
  same_path = λ a b. a =ˢ b;
  store_error = λ e. "error";
  start = λ file now. none;
}

abbrev around : World ℕ
around = record {
  now = 60000;
  writes = [];
  takes = [];
  sent = [];
  conversation_disk = record { snapshot = absent; incompatible = absent; corrupt = absent };
  briefing_disk = absent;
}

abbrev fresh : Inner ℕ
unfolding created
fresh =
    created around (record { entries = []; next_sequence = 1 })
      (record { rows = []; pending = []; dismissed = [] })

abbrev terminal_holder : LeaseHolder
terminal_holder = record { pid = 7; session_file = none; cwd = "/home" }

abbrev desk : SurfaceRegistration ℕ
desk = record { id = "desk"; name = "Desk"; widgets = [] }

-- A desk and the managed agent, then a terminal that takes the agent over.
abbrev handover : List (Section ℕ)
handover =
    registers 1 desk
    ∷ admits 2 none none
    ∷ process_says agent_settled
    ∷ acquires 3 "lease-1" terminal_holder false
    ∷ admits 4 (some 1) none
    ∷ []

run-IsFenced_example : IsFenced (
    run env
      (new env around
        (record { entries = []; next_sequence = 1 })
        (record { rows = []; pending = []; dismissed = [] }))
      handover)
run-IsFenced_example =
    run-IsFenced env around (record { entries = []; next_sequence = 1 })
      (record { rows = []; pending = []; dismissed = [] }) handover

-- The terminal of that hand-over is the agent in the end.
handed_over : (run env fresh handover).agent ≡ some (record { connection = 4; lease = some 1 })
unfolding run step fresh register_surface admit_agent apply control_lease_acquire granted_verb
handed_over = refl

abbrev silent : Lease
silent = record { connection = 3; generation = 1; holder = terminal_holder; last_ping = 59000 }

abbrev held_state : Inner ℕ
unfolding fresh
held_state = record fresh { lease = some silent; lease_generation = 1 }

watch_lease-ends_example : Ended (watch_lease env 3 held_state 1)
unfolding held_state
watch_lease-ends_example = watch_lease-ends env held_state silent refl (omega arith)

-- A job that waits for a person, and a later one that has failed.
abbrev with_jobs : Inner ℕ
unfolding fresh
with_jobs = record fresh {
  jobs =
      record {
        id = "job-1";
        project = none;
        state = JobRowState.blocked;
        since = 1;
        summary = "Which branch?";
      }
      ∷ record {
        id = "job-2";
        project = none;
        state = JobRowState.failed;
        since = 2;
        summary = "The tests fail.";
      }
      ∷ [];
}

with_jobs-failed : state_word with_jobs ≡ some (ScufrisState.failed, "The tests fail.")
unfolding with_jobs state_word
with_jobs-failed = refl

state_word-Folds_example : Folds with_jobs (state_word with_jobs)
state_word-Folds_example = state_word-Folds with_jobs

abbrev reply : Answer ℕ
reply = record {
  text = "done";
  proactive_id = none;
  turn_id = some "turn-1";
  details = none;
  widgets = none;
  attachments = [];
  receipts = [];
}

abbrev asked : Inner ℕ
asked =
    run env fresh
      (registers 1 desk ∷ admits 2 none none ∷ Section.submits 1 "turn-1" "hello" [] ∷ [])

answer-IsAnswered_example : IsAnswered asked reply (answer env asked reply none).0
answer-IsAnswered_example = answer-IsAnswered env asked reply

abbrev joined : Inner ℕ
joined = run env fresh (registers 1 desk ∷ admits 2 none none ∷ [])

-- The desk's submission is one that is accepted.
joined-accepted : accepted env joined "turn-1" "hello" [] (speaking_surface joined 1) ≡ true
unfolding run step speaking_surface accepted register_surface admit_agent fresh
joined-accepted = refl

surface_message-IsSubmitted_example :
    IsSubmitted env
      (accepted env joined "turn-1" "hello" [] (speaking_surface joined 1))
      joined
      "turn-1"
      "hello"
      []
      (surface_message env joined 1 "turn-1" "hello" [])
surface_message-IsSubmitted_example = surface_message-IsSubmitted env joined 1 "turn-1" "hello" []

agent_request-never_panics_example :
    panicked (agent_request env joined 2 (response reply)).1 ≡ false
agent_request-never_panics_example = agent_request-never_panics env joined 2 (response reply)
