-- ===== src/Briefings/Tests.antt =====
-- Runs of the briefing store of host/service/src/briefings.rs, and its theorems at concrete inputs.
use native.Mathlib.Decide.{ℕ_discrete}
use text.Mathlib.Text.{◌==◌ as ◌=ˢ◌}
use scufris.Base.{true, ℕ, String, Bool, false, Option, none, some, List, [], ◌∷◌, ◌≡◌, refl, arith}
use scufris.Base.Text.{String-discrete}
use scufris.Base.Files.{file, absent, before_rename, after_rename, nowhere}
use scufris.Control.Briefing.{
  in_progress, collecting, collected, pending, delivered, BriefingRow, BriefingWake,
}
use scufris.Briefings.{BriefingStore}
use scufris.Briefings.Store.{Stored, recover_delivered}
use scufris.Briefings.Upsert.{upsert, merged}
use scufris.Briefings.Protect.{Bounded, upsert-Bounded}
use scufris.Briefings.Changes.{
  Change, upserts, acknowledges, starts, dismisses, stops, resumes, change,
}
use scufris.Briefings.Lives.{Leaves, change-Leaves}
use scufris.Briefings.Load.{open_store}
use scufris.Briefings.Opened.{IsReady, open_store-IsReady}
use scufris.Briefings.Turns.{Recovered, recover_delivered-Recovered}

abbrev morning : BriefingRow
morning = record {
  id = "gen-1";
  date = "2026-01-02";
  profile = "morning";
  collection = collecting;
  delivery = pending;
  since = 10;
  completed = 1;
  total = 4;
  failed = 1;
  summary = "";
}

abbrev finished : BriefingRow
finished = record morning { collection = collected; completed = 4; failed = 0 }

abbrev wake : BriefingWake ℕ
wake = record { event_id = "event-1"; custom_type = "briefing"; text = "ready"; details = none }

abbrev one_row : BriefingStore ℕ
one_row = record { rows = morning ∷ []; pending = []; dismissed = [] }

abbrev waiting : BriefingStore ℕ
waiting = record {
  rows = finished ∷ [];
  pending = record { run_id = "gen-1"; wake = wake } ∷ [];
  dismissed = [];
}

abbrev told : BriefingStore ℕ
told = record {
  rows = record finished { delivery = delivered; failed = 1 } ∷ [];
  pending = [];
  dismissed = [];
}

-- A JSON library that encodes every state as one byte.
abbrev one_byte : Stored ℕ → Option (List ℕ)
one_byte s = some (7 ∷ [])

Store-discrete : Discrete (BriefingStore ℕ)
Store-discrete = hlevel (String-discrete, ℕ_discrete)

-- A failed source that an earlier update reported stays counted.
still_failed : (merged morning finished).failed ≡ 1
unfolding merged
still_failed = refl

upsert-Bounded_example :
    Bounded one_byte Store-discrete "gen-1" one_row
      (upsert one_byte Store-discrete nowhere finished (some wake) false one_row absent)
upsert-Bounded_example =
    upsert-Bounded one_byte Store-discrete nowhere finished (some wake) false one_row absent
      (omega arith)

change-Leaves_example :
    Leaves one_byte Store-discrete waiting
      (change one_byte Store-discrete waiting absent (acknowledges before_rename "event-1"))
change-Leaves_example =
    change-Leaves one_byte Store-discrete waiting absent (acknowledges before_rename "event-1")
      (omega arith)

abbrev day : List (Change ℕ)
day =
    upserts nowhere finished (some wake) false
    ∷ starts nowhere "event-1"
    ∷ stops before_rename
    ∷ resumes nowhere
    ∷ acknowledges nowhere "event-1"
    ∷ dismisses after_rename "gen-1"
    ∷ []

abbrev knows : String → Bool
knows event_id = event_id =ˢ "event-1"

recover_delivered-Recovered_example :
    Recovered one_byte knows waiting (recover_delivered one_byte nowhere knows waiting absent)
recover_delivered-Recovered_example =
    recover_delivered-Recovered one_byte knows nowhere waiting absent

-- A state that an earlier process left in the middle of a turn.
abbrev left_behind : List ℕ → Option (Stored ℕ)
left_behind encoded = some (record {
  version = 2;
  rows = record finished { delivery = in_progress } ∷ [];
  pending = record { run_id = "gen-1"; wake = wake } ∷ [];
  dismissed = [];
})

open_store-IsReady_example :
    IsReady
      (open_store
        (λ v. true)
        (λ v. v)
        left_behind
        "not JSON"
        (λ e. "refused")
        one_byte
        after_rename
        true
        (file (7 ∷ []))).0
open_store-IsReady_example =
    open_store-IsReady (λ v. true) (λ v. v) left_behind "not JSON" (λ e. "refused") one_byte
      after_rename true (file (7 ∷ []))
