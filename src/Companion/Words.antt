-- ===== src/Companion/Words.antt =====
-- The words a person accepted, in the phase and in the durable store, over every history of the
-- companion in surfaces/desktop/src/state.rs.
use scufris.Base.{String, Option, none, some, List, [], ◌∷◌, ◌≡◌, refl, ◌⊎◌, inl, arith, eq_iff}
use scufris.Companion.{escape, cancel, acknowledged, Phase, editing, sent, retained, Pending}
use scufris.Companion.World.{Op, World, happens, world_step, run, started}

-- The transcript that a phase holds, under its identifier.
abbrev pub held : Phase → Option Pending
held (editing t id n) = some (record { id = id; text = t })
held (sent t id p) = some (record { id = id; text = t })
held (retained t id r d w) = some (record { id = id; text = t })
held _ = none

abbrev pub IsSaved : World → Type 0
IsSaved w = (held w.companion.phase ≡ none) ⊎ (held w.companion.phase ≡ w.host.saved)

world_step-IsSaved : (w : World) (op : Op) → IsSaved w → IsSaved (world_step w op)
unfolding world_step
world_step-IsSaved w op v = ground arith

run-IsSaved : (w : World) (ops : List Op) → IsSaved w → IsSaved (run w ops)
unfolding run
run-IsSaved w [] v = v
run-IsSaved w (op ∷ ops) v = run-IsSaved (world_step w op) ops (world_step-IsSaved w op v)

-- In every history from a fresh start, if the host carries out each action, the words that the
-- phase holds are the words in the durable store, under the same identifier.
pub held-saved :
    (prefix : String) (saved : Option Pending) (ops : List Op)
    → let w = run (started prefix saved) ops in
      (held w.companion.phase ≡ none) ⊎ (held w.companion.phase ≡ w.host.saved)
unfolding started
held-saved prefix saved ops = run-IsSaved _ ops (inl refl)

abbrev pub Retires : Pending → Op → Type 0
Retires p op = (op ≡ happens escape) ⊎ ((op ≡ happens cancel) ⊎ (op ≡ happens (acknowledged p.id)))

-- Where the words that the phase holds are the saved ones, a saved transcript leaves the store only
-- while the phase holds it, and then only by the person's Escape or cancel or by the acknowledgment
-- of the identifier it was saved under.
pub saved_retired :
    (w : World) (op : Op) (p : Pending)
    → IsSaved w
    → w.host.saved ≡ some p
    → (world_step w op).host.saved ≡ none
    → (held w.companion.phase ≡ some p) × Retires p op
unfolding world_step
saved_retired w op p v s gone = (ground arith, grind (arith, eq_iff))
