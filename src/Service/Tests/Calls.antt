-- ===== src/Service/Tests/Calls.antt =====
-- The calls of host/service/src/service.rs that wait or read, at concrete states and streams.
use scufris.Base.{
  ℕ, ◌≡◌, refl, arith, true, false, Option, none, some, List, [], ◌∷◌, ◌==◌, if◌then◌else◌,
}
use scufris.Control.Local.{ControlResponseBody, lease}
use scufris.Base.Files.{file}
use scufris.Control.Message.{AttachmentDescriptor}
use scufris.Attachments.{Store, Host}
use scufris.Attachments.Reads.{resolve}
use scufris.Service.{Inner}
use scufris.Service.Surfaces.{register_surface, speaking_surface}
use scufris.Service.Submitted.{accepted}
use scufris.Service.Together.{over, submission, IsKept, submission-IsKept}
use scufris.Service.Agents.{admit_agent}
use scufris.Service.Process.{agent_start, agent_settled, apply}
use scufris.Service.Machine.{Section, registers, admits, process_says, step, run}
use scufris.Service.Stdout.{read_events}
use scufris.Control.Lines.{split_lf}
use scufris.Service.Heard.{heard, read_events-heard}
use scufris.Service.Waiting.{wait_for_settle, acquire_lease}
use scufris.Service.Granted.{
  IsWaited, IsAcquired, wait_for_settle-IsWaited, acquire_lease-IsAcquired,
}
use scufris.Service.Tests.{env, fresh, desk, terminal_holder}

-- A line is decoded as its first byte.
abbrev first_byte : List ℕ → Option ℕ
first_byte [] = none
first_byte (b ∷ line) = some b

abbrev output : List ℕ
output = b'a' ∷ b'\r' ∷ b'\n' ∷ b'\n' ∷ b'b' ∷ b'c' ∷ b'\n' ∷ b'd' ∷ []

-- An empty line is skipped, and what follows the last line feed is read as a line.
output_read :
    heard first_byte false (split_lf output).0 (split_lf output).1 ≡ b'a' ∷ b'b' ∷ b'd' ∷ []
unfolding heard split_lf
output_read = refl

output_failed : heard first_byte true (split_lf output).0 (split_lf output).1 ≡ b'a' ∷ b'b' ∷ []
unfolding heard split_lf
output_failed = refl

read_events-heard_example : read_events first_byte false output ≡ some (b'a' ∷ b'b' ∷ b'd' ∷ [])
unfolding heard split_lf
read_events-heard_example = read_events-heard first_byte false output

-- A turn that is open, and ends while a request for the lease waits for the third time.
abbrev busy : Inner ℕ
busy = run env fresh (registers 1 desk ∷ admits 2 none none ∷ process_says agent_start ∷ [])

abbrev settling : ℕ → List (Section ℕ)
settling waited = if waited == 100 then process_says agent_settled ∷ [] else []

wait_for_settle-IsWaited_example :
    IsWaited env settling 200 0 busy (wait_for_settle env settling 201 0 busy)
wait_for_settle-IsWaited_example = wait_for_settle-IsWaited env settling 201 busy (omega arith)

acquire_lease-IsAcquired_example :
    IsAcquired env 3 (acquire_lease env settling [] 201 busy 3 "lease-1" terminal_holder true)
acquire_lease-IsAcquired_example =
    acquire_lease-IsAcquired env settling [] 201 busy 3 "lease-1" terminal_holder true (omega arith)

abbrev generation_in : Option (ControlResponseBody × Inner ℕ) → Option ℕ
generation_in (some (lease r, s)) = some r.generation
generation_in _ = none

-- The request is granted the first lease.
busy_granted :
    generation_in (acquire_lease env settling [] 201 busy 3 "lease-1" terminal_holder true) ≡ some 1
unfolding acquire_lease run step fresh register_surface admit_agent apply
busy_granted = refl

-- A store that has one attachment, whose record nothing has referred to yet.
abbrev shot : AttachmentDescriptor
shot = record { id = "att_a"; name = "shot.png"; media_type = "image/png"; size = 1 }

abbrev shots : Store
shots = record {
  index = record {
    records = record { descriptor = shot; created_at = 50; referenced = false } ∷ [];
    bytes = 1;
  };
  objects = ("att_a", file (1 ∷ [])) ∷ [];
  metadata = ("att_a.json", file (7 ∷ [])) ∷ [];
}

abbrev writable : Host
writable = record {
  to_vec = λ r. some (7 ∷ []);
  from_slice = λ encoded. none;
  writes = λ id. true;
  keeps_object = λ id. false;
  keeps_record = λ name. false;
  io_reason = "denied";
  json_reason = "unreadable";
}

abbrev connected : Inner ℕ
connected = run env fresh (registers 1 desk ∷ admits 2 none none ∷ [])

-- The submission is one that is accepted.
shot-accepted :
    accepted
      (over writable env shots)
      connected
      "turn-1"
      "look"
      ("att_a" ∷ [])
      (speaking_surface connected 1)
    ≡ true
unfolding run step accepted speaking_surface register_surface admit_agent fresh resolve
shot-accepted = refl

submission-IsKept_example :
    IsKept writable true connected shots "look"
      ("att_a" ∷ [])
      (submission writable env shots connected 1 "turn-1" "look" ("att_a" ∷ []))
unfolding run step accepted speaking_surface register_surface admit_agent fresh resolve
submission-IsKept_example =
    submission-IsKept writable env shots connected 1 "turn-1" "look" ("att_a" ∷ [])
