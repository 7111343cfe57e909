-- ===== src/Companion/Answers.antt =====
-- Answers of the service, and the events that must not touch the words, in
-- surfaces/desktop/src/state.rs.
use scufris.Base.{String, Option, none, some, [], ◌≡◌, ◌≢◌, ◌⊎◌, arith, eq_iff}
use scufris.Companion.{
  Event, acknowledged, submission_failed, submission_uncertain, reveal, dismiss, stop, copy,
  Companion, Phase, editing, sent, retained,
}
use scufris.Companion.Machine.{apply}

-- The identifier that an answer of the service names.
abbrev pub answered : Event → Option String
answered (acknowledged id) = some id
answered (submission_failed id reason) = some id
answered (submission_uncertain id reason) = some id
answered _ = none

-- The identifier of the transcript that a phase holds.
abbrev pub held_id : Phase → Option String
held_id (editing t id n) = some id
held_id (sent t id p) = some id
held_id (retained t id r d w) = some id
held_id _ = none

-- An answer that names no transcript the phase holds changes nothing and asks for nothing.
pub apply_stray :
    (c : Companion) (e : Event) (id : String)
    → answered e ≡ some id
    → held_id c.phase ≢ some id
    → apply c e ≡ (c, [])
unfolding apply
apply_stray c e id a h = grind (arith, eq_iff)

-- Reveal, dismiss, the stop key and copy leave the phase, and so the words in it, alone.
pub apply_keeps_phase :
    (c : Companion) (e : Event)
    → (e ≡ reveal) ⊎ ((e ≡ dismiss) ⊎ ((e ≡ stop) ⊎ (e ≡ copy)))
    → (apply c e).0.phase ≡ c.phase
unfolding apply
apply_keeps_phase c e h = ground arith
