-- ===== src/Companion/Screen.antt =====
-- Who puts the pill on the screen and who takes it away, in surfaces/desktop/src/state.rs.
use scufris.Base.{Bool, true, false, none, ◌≡◌, ◌≢◌, arith}
use scufris.Companion.{Event, escape, dismiss, Phase, resting, sent, Companion}
use scufris.Companion.Machine.{apply, asks_for_pill}
use scufris.Companion.View.{off, on_screen, textbox, posture, presentation}
use scufris.Companion.Words.{held}

-- One Escape takes the pill off the screen, from every state.
pub posture-escape : (c : Companion) → posture (apply c escape).0 ≡ off
unfolding apply posture
posture-escape c = ground arith

-- An event that asks for the pill puts it on the screen, from every state.
pub asked-on_screen :
    (c : Companion) (e : Event) → asks_for_pill e ≡ true → on_screen (posture (apply c e).0) ≡ true
unfolding apply posture on_screen
asked-on_screen c e h = ground arith

-- The phases in which a dismissal is heard.
abbrev pub is_passive : Phase → Bool
is_passive resting = true
is_passive (sent t id p) = true
is_passive _ = false

-- Whether the person has the pill closed is decided by the person: asking for the pill opens it,
-- Escape closes it, a dismissal closes it where the phase holds nothing to answer, and no other
-- event changes it.
pub apply-dismissed :
    (c : Companion) (e : Event)
    → (asks_for_pill e ≡ true → (apply c e).0.dismissed ≡ false)
      × (e ≡ escape → (apply c e).0.dismissed ≡ true)
      × (e ≡ dismiss → is_passive c.phase ≡ true → (apply c e).0.dismissed ≡ true)
      × (e ≡ dismiss → is_passive c.phase ≡ false → (apply c e).0.dismissed ≡ c.dismissed)
      × (asks_for_pill e ≡ false → e ≢ escape → e ≢ dismiss → (apply c e).0.dismissed ≡ c.dismissed)
unfolding apply
apply-dismissed c e = (ground arith, ground arith, ground arith, ground arith, ground arith)

-- A field that may be edited is one the textbox shows with the keyboard, and it holds a
-- transcript.
pub editable-textbox :
    (c : Companion)
    → (presentation c).editable ≡ true
    → (textbox (posture c) ≡ true) × (held c.phase ≢ none)
unfolding presentation posture textbox
editable-textbox c h = ground arith
