-- ===== src/Service/Word.antt =====
-- host/service/src/service.rs: what the one word of the tray stands for.
use scufris.Base.{
  String, Bool, true, false, ◌||◌, Option, none, some, List, [], ◌∷◌, Bool-cases, inl, inr, ◌≡◌,
  refl, if◌then◌else◌,
}
use scufris.Control.State.{ScufrisState, blocked, failed}
use scufris.Control.Surface.{JobRowState, JobRow}
use scufris.Service.{Lifecycle, Inner, is_there, is_failed}
use scufris.Service.Folded.{
  Word, worst, row_failed, row_blocked, attention_of, failed_word, lifecycle_word, or_else,
  attention, state_word,
}

abbrev pub is_word : (ScufrisState → Bool) → Option Word → Bool
is_word test none = false
is_word test (some (word, detail)) = test word

abbrev pub says_failed : ScufrisState → Bool
says_failed failed = true
says_failed _ = false

abbrev pub says_blocked : ScufrisState → Bool
says_blocked blocked = true
says_blocked _ = false

abbrev needs : Option String → Bool → Lifecycle → Bool
needs failures circuit life = is_there failures || circuit || is_failed life

abbrev FoldsOf : Option String → Option String → Bool → Lifecycle → Option Word → Type 0
FoldsOf failures blocks circuit life word =
    (is_there word ≡ true)
    × (is_word says_failed word ≡ needs failures circuit life)
    × (is_word says_blocked word ≡ (if needs failures circuit life then false else is_there blocks))

folds-life :
    (blocks : Option String) (life : Lifecycle) (detail : String)
    → FoldsOf none blocks false life (
        if is_failed life
        then some (failed, detail)
        else or_else (attention_of none blocks) (lifecycle_word life detail))
folds-life none Lifecycle.starting detail = (refl, refl, refl)
folds-life none Lifecycle.working detail = (refl, refl, refl)
folds-life none Lifecycle.idle detail = (refl, refl, refl)
folds-life none Lifecycle.failed detail = (refl, refl, refl)
folds-life (some b) Lifecycle.starting detail = (refl, refl, refl)
folds-life (some b) Lifecycle.working detail = (refl, refl, refl)
folds-life (some b) Lifecycle.idle detail = (refl, refl, refl)
folds-life (some b) Lifecycle.failed detail = (refl, refl, refl)

folds-words :
    (failures blocks : Option String) (circuit : Bool) (life : Lifecycle) (detail stopped : String)
    → FoldsOf failures blocks circuit life (
        or_else (failed_word (attention_of failures blocks)) (
          if circuit
          then some (failed, stopped)
          else if is_failed life
          then some (failed, detail)
          else or_else (attention_of failures blocks) (lifecycle_word life detail)))
folds-words (some f) blocks circuit life detail stopped = (refl, refl, refl)
folds-words none none true life detail stopped = (refl, refl, refl)
folds-words none (some b) true life detail stopped = (refl, refl, refl)
folds-words none none false life detail stopped = folds-life none life detail
folds-words none (some b) false life detail stopped = folds-life (some b) life detail

-- Some row is in a state that is asked for.
abbrev pub any_row : (JobRowState → Bool) → List JobRow → Bool
any_row wanted [] = false
any_row wanted (row ∷ rest) = wanted row.state || any_row wanted rest

worst-any_row :
    (wanted : JobRowState → Bool) (rows : List JobRow)
    → is_there (worst wanted rows) ≡ any_row wanted rows
unfolding worst
worst-any_row wanted [] = refl
worst-any_row wanted (row ∷ rest) = elim (Bool-cases (wanted row.state)) [
  | inl here ↦ rw here refl
  | inr there ↦ rw there (worst-any_row wanted rest)
]

module _ {Value : Type 0} where
  -- What needs a person before anything else is shown.
  abbrev pub needs_repair : Inner Value → Bool
  needs_repair s = any_row row_failed s.jobs || s.proactive_circuit_open || is_failed s.lifecycle

  abbrev pub Folds : Inner Value → Option Word → Type 0
  Folds s word =
      (is_there word ≡ true)
      × (is_word says_failed word ≡ needs_repair s)
      × (is_word says_blocked word ≡ (if needs_repair s then false else any_row row_blocked s.jobs))

  -- The fold always has a word, so that the arm of the source that is not reached is not; the word is
  -- failed when some job has failed, the circuit is open or the lifecycle failed, and in no other
  -- case; and it is blocked when none of these holds and some job is blocked, and in no other case.
  pub state_word-Folds : (s : Inner Value) → Folds s (state_word s)
  unfolding state_word attention
  state_word-Folds s =
      rw (← worst-any_row row_failed s.jobs, ← worst-any_row row_blocked s.jobs)
        (folds-words (worst row_failed s.jobs) (worst row_blocked s.jobs) s.proactive_circuit_open
          s.lifecycle s.lifecycle_detail _)
