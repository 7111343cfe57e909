-- ===== src/Companion/Sends.antt =====
-- What reaches the service, and when: the submissions of surfaces/desktop/src/state.rs.
use scufris.Base.{
  String, Bool, true, false, Option, none, some, List, [], ◌∷◌, ◌≡◌, refl, ◌⊎◌, inl, inr, arith,
  eq_iff, Bool-cases,
}
use scufris.Base.Text.{trim, is_empty}
use scufris.Companion.{
  Event, enter, escape, cancel, acknowledged, Phase, editing, sent, retained, resting, refused,
  uncertain, Action, persist_pending, submit, Pending, Companion,
}
use scufris.Companion.Words.{held}
use scufris.Companion.Machine.{Outcome, apply, or_else}

-- The submissions among the actions.
abbrev pub submissions : List Action → List Pending
submissions [] = []
submissions (submit id t ∷ as') = record { id = id; text = t } ∷ submissions as'
submissions (_ ∷ as') = submissions as'

-- That Enter over this phase, with this text in the field, may send these words.
abbrev pub MaySend : Phase → Option String → Pending → Type 0
MaySend (editing t id n) text p = (p.id ≡ id) × (p.text ≡ trim (or_else text t))
MaySend (retained t id r refused w) text p = (p.id ≡ id) × (p.text ≡ trim (or_else text t))
MaySend (retained t id r uncertain w) text p = (w ≡ true) × (p.id ≡ id) × (p.text ≡ t)
MaySend _ text p = ⊥

abbrev pub IsSend : Companion → Event → Pending → Outcome → Type 0
IsSend c e p (c', actions) =
    (actions ≡ persist_pending p.id p.text ∷ submit p.id p.text ∷ [])
    × (held c'.phase ≡ some p)
    × ((text : Option String) × (e ≡ enter text) × MaySend c.phase text p)

abbrev pub Submits : Companion → Event → Outcome → Type 0
Submits c e out = (submissions out.1 ≡ []) ⊎ ((p : Pending) × IsSend c e p out)

-- The words that Enter over a phase would send.
abbrev to_send : Phase → Option String → Pending
to_send (editing t id n) text = record { id = id; text = trim (or_else text t) }
to_send (retained t id r refused w) text = record { id = id; text = trim (or_else text t) }
to_send (retained t id r uncertain w) text = record { id = id; text = t }
to_send _ text = record { id = ""; text = "" }

enter-Submits :
    (c : Companion) (text : Option String) (p : Phase)
    → c.phase ≡ p
    → Submits c (enter text) (apply c (enter text))
unfolding apply
enter-Submits c text resting h = inl (ground arith)
enter-Submits c text (editing t id n) h = elim (Bool-cases (is_empty (trim (or_else text t)))) [
  | inl e ↦ inl (ground arith)
  | inr e ↦
      inr (to_send (editing t id n) text, (ground arith, ground arith, (text, refl, ground arith)))
]
enter-Submits c text (retained t id r refused w) h =
    elim (Bool-cases (is_empty (trim (or_else text t)))) [
      | inl e ↦ inl (ground arith)
      | inr e ↦ inr (
        to_send (retained t id r refused w) text,
        (ground arith, ground arith, (text, refl, ground arith)),
      )
    ]
enter-Submits c text (retained t id r uncertain false) h = inl (ground arith)
enter-Submits c text (retained t id r uncertain true) h = inr (
  to_send (retained t id r uncertain true) text,
  (ground arith, ground arith, (text, refl, ground arith)),
)
enter-Submits c text _ h = inl (ground arith)

-- An event either submits nothing or is one Enter, over words that it may send, and then it puts
-- exactly those words on disk first, and the phase that it leads to holds them. Words of unknown
-- fate are sent as they stand, and only after the warning.
pub apply-Submits : (c : Companion) (e : Event) → Submits c e (apply c e)
unfolding apply
apply-Submits c (enter text) = enter-Submits c text c.phase refl
apply-Submits c e = inl (ground arith)

-- The words of a transcript that may already be in the conversation.
abbrev pub frozen : Phase → Option Pending
frozen (sent t id uncertain) = some (record { id = id; text = t })
frozen (retained t id r uncertain w) = some (record { id = id; text = t })
frozen _ = none

-- Words that may already be in the conversation stay as they are, under their identifier and
-- still uncertain, through every event but three: the person's Escape and cancel, and the
-- acknowledgment of that identifier, which leave no transcript behind.
pub apply-frozen :
    (c : Companion) (e : Event) (p : Pending)
    → frozen c.phase ≡ some p
    → (frozen (apply c e).0.phase ≡ some p)
      ⊎ (((apply c e).0.phase ≡ resting)
          × ((e ≡ escape) ⊎ ((e ≡ cancel) ⊎ (e ≡ acknowledged p.id))))
unfolding apply
apply-frozen c e p h = grind (arith, eq_iff)

abbrev pub is_enter : Event → Bool
is_enter (enter text) = true
is_enter _ = false

abbrev pub warned_words : Phase → Option Pending
warned_words (retained t id r uncertain true) = some (record { id = id; text = t })
warned_words _ = none

-- A transcript of unknown fate becomes one that Enter sends only by an Enter over that transcript,
-- which submits nothing.
pub apply-warns :
    (c : Companion) (e : Event) (p : Pending)
    → warned_words (apply c e).0.phase ≡ some p
    → (warned_words c.phase ≡ some p)
      ⊎ ((frozen c.phase ≡ some p) × (is_enter e ≡ true) × ((apply c e).1 ≡ []))
unfolding apply
apply-warns c e p h = ground arith
