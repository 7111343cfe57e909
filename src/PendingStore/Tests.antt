-- ===== src/PendingStore/Tests.antt =====
-- Runs of the file of surfaces/desktop/src/pending.rs, and its theorems at concrete inputs.
use mathlib.Core.Logic.{ite, if_pos, if_neg}
use native.Mathlib.Decide.{ℕ_discrete}
use scufris.Base.{ℕ, true, false, Option, none, some, List, [], ◌∷◌, ◌≡◌, refl, arith}
use scufris.Base.Text.{trim, String-discrete}
use scufris.Base.Files.{absent, file, before_rename, after_rename, nowhere}
use scufris.Base.Result.{ok}
use scufris.Control.Text.{bytes, is_identifier, is_submission_text, all, any}
use scufris.Companion.{Pending}
use scufris.PendingStore.{Record, RecordJson, load, save}
use scufris.PendingStore.Load.{ReadsBack, EscapesBounded, Saved, save-Saved}
use scufris.PendingStore.Runs.{Call, saves, clears, discards, run, expected_after, Holds, run-Holds}

Record-discrete : Discrete Record
Record-discrete = hlevel (String-discrete, ℕ_discrete)

abbrev milk : Pending
milk = record { id = "pill-1"; text = "milk" }

abbrev milk_record : Record
milk_record = record { version = 1; id = "pill-1"; text = "milk"; discarded = false }

-- A JSON library that writes and reads back one record, as the byte 7.
abbrev milk_json : RecordJson
milk_json = record {
  to_vec = λ r. ite (Record-discrete r milk_record) (some (7 ∷ [])) none;
  from_slice = λ encoded. some milk_record;
}

written-milk_json :
    (r : Record) (encoded : List ℕ)
    → milk_json.to_vec r ≡ some encoded
    → (r ≡ milk_record) × (encoded ≡ 7 ∷ [])
written-milk_json r encoded e = elim (Record-discrete r milk_record) [
  | yes same ↦ (
    same,
    cc (e, if_pos {C = Option (List ℕ)} (Record-discrete r milk_record) same (some (7 ∷ [])) none),
  )
  | no other ↦ absurd (
      cc (
        e,
        if_neg {C = Option (List ℕ)} (Record-discrete r milk_record) other (some (7 ∷ [])) none,
      ))
]

milk_json-ReadsBack : ReadsBack milk_json
milk_json-ReadsBack r encoded e = rw ((written-milk_json r encoded e).0) refl

milk_json-EscapesBounded : EscapesBounded milk_json
milk_json-EscapesBounded r encoded e = rw ((written-milk_json r encoded e).1) (omega arith)

milk_stored : load milk_json "denied" (file (7 ∷ [])) ≡ ok (some milk)
unfolding load is_identifier is_submission_text trim all any bytes
milk_stored = refl

save-Saved_example :
    Saved milk_json "denied" absent milk (save milk_json "denied" after_rename milk absent)
save-Saved_example =
    save-Saved milk_json "denied" after_rename milk absent milk_json-ReadsBack
      milk_json-EscapesBounded

milk_id : is_identifier "pill-1" ≡ true
unfolding is_identifier all bytes
milk_id = refl

abbrev kept_and_lost : List Call
kept_and_lost =
    saves nowhere milk
    ∷ clears false false
    ∷ saves before_rename milk
    ∷ discards true nowhere "pill-1"
    ∷ []

run-Holds_example :
    Holds milk_json "denied"
      (expected_after milk_json "denied" (none ∷ []) absent kept_and_lost)
      (run milk_json "denied" absent kept_and_lost)
run-Holds_example =
    run-Holds milk_json "denied" kept_and_lost milk_json-ReadsBack milk_json-EscapesBounded
      (tt, (tt, (tt, (milk_id, tt))))
