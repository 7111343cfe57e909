-- ===== src/Companion/Ids.antt =====
-- The identifiers that the companion of surfaces/desktop/src/state.rs gives its commands.
use text.Mathlib.TextLemmas.{append_cancel_left}
use scufris.Base.{
  ℕ, ◌+◌, ◌<◌, ◌≤◌, ◌^◌, String, List, [], ◌∷◌, ◌++◌, ◌≡◌, ◌≢◌, ap, ◌∙◌, ◌⊎◌, inl, inr, arith,
  length, All,
}
use scufris.Base.Text.{decimal, decimal-injective}
use scufris.Companion.{transcribed, stop, Action, persist_pending, abort}
use scufris.Companion.Machine.{command_id}
use scufris.Companion.World.{Op, World, happens, step, world_step}

-- Different numbers make different identifiers.
command_id-injective :
    (prefix : String) (m n : ℕ) → command_id prefix m ≡ command_id prefix n → m ≡ n
unfolding command_id
command_id-injective prefix m n e =
    decimal-injective m n
      (append_cancel_left "-" (decimal m) (decimal n) (append_cancel_left prefix _ _ e))

-- The identifiers that an output asks something of the service or the disk under, and that are
-- new there: of a stop, and of a transcript that has just been transcribed.
abbrev pub minted : Op → List Action → List String
minted (happens stop) (abort id ∷ rest) = id ∷ []
minted (happens (transcribed words)) (persist_pending id text ∷ rest) = id ∷ []
minted op actions = []

abbrev pub minted_in : World → List Op → List String
minted_in w [] = []
minted_in w (op ∷ ops) =
    minted op (step w.companion w.host.saved op).1 ++ minted_in (world_step w op) ops

abbrev pub Distinct {ℓ} : {A : Type ℓ} → List A → Type ℓ
Distinct [] = Unit
Distinct (x ∷ xs) = All (λ y. x ≢ y) xs × Distinct xs

-- What one step does to the counter.
step-minted :
    (w : World) (op : Op)
    → w.companion.commands + 1 < 2 ^ 64
    → let c = w.companion in
      let c' = (world_step w op).companion in
      (c'.prefix ≡ c.prefix)
      × (((minted op (step c w.host.saved op).1 ≡ []) × (c'.commands ≡ c.commands))
          ⊎ ((minted op (step c w.host.saved op).1 ≡ command_id c.prefix (c.commands + 1) ∷ [])
              × (c'.commands ≡ c.commands + 1)))
unfolding world_step
step-minted w op h = (ground arith, ground arith)

-- What was minted before a history is not minted in it.
minted_in_fresh :
    (prefix : String) (k : ℕ) (w : World) (ops : List Op)
    → w.companion.prefix ≡ prefix
    → k ≤ w.companion.commands
    → w.companion.commands + length ops < 2 ^ 64
    → All (λ y. command_id prefix k ≢ y) (minted_in w ops)
minted_in_fresh prefix k w [] e le h = tt
minted_in_fresh prefix k w (op ∷ ops) e le h =
    let (kept, moved) = step-minted w op (omega arith) in
    elim moved [
      | inl (nothing, same) ↦
          rw nothing
            (minted_in_fresh prefix k (world_step w op) ops (kept ∙ e) (omega arith) (omega arith))
      | inr (one, up) ↦ rw one (
        other,
        minted_in_fresh prefix k (world_step w op) ops (kept ∙ e) (omega arith) (omega arith),
      )
    ]
  where
    other : command_id prefix k ≢ command_id w.companion.prefix (w.companion.commands + 1)
    other q = absurd (
        omega (
          arith,
          command_id-injective prefix k (w.companion.commands + 1)
              (q ∙ ap (λ p. command_id p (w.companion.commands + 1)) e),
        ))

-- No two commands of one history are given under one identifier, while the counter does not wrap.
pub minted_in-Distinct :
    (w : World) (ops : List Op)
    → w.companion.commands + length ops < 2 ^ 64
    → Distinct (minted_in w ops)
minted_in-Distinct w [] h = tt
minted_in-Distinct w (op ∷ ops) h =
    let (kept, moved) = step-minted w op (omega arith) in
    elim moved [
      | inl (nothing, same) ↦ rw nothing (minted_in-Distinct (world_step w op) ops (omega arith))
      | inr (one, up) ↦ rw one (
        minted_in_fresh _ (w.companion.commands + 1) (world_step w op) ops kept (omega arith)
            (omega arith),
        minted_in-Distinct (world_step w op) ops (omega arith),
      )
    ]
