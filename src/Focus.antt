-- ===== src/Focus.antt =====
-- surfaces/desktop/src/focus.rs: which window had the keyboard before the companion took it, and the
-- way back to it. What the X server answers is a parameter, `Display`; a reply that fails is `none`.
mod Tests
pub mod Elsewhere
use scufris.Base.{
  ℕ, zero, suc, String, Bool, true, false, not, ◌&&◌, ◌||◌, Option, none, some, List, [], ◌∷◌, ◌==◌,
  if◌then◌else◌,
}
use scufris.Base.Text.{◌⋅◌}
use scufris.Base.Result.{Result, ok, err}

abbrev pub depth : ℕ
depth = 32

-- The value of `_NET_ACTIVE_WINDOW`, the window that the server says has the keyboard, the root, and
-- the parent and the root of a window in the tree. Whether it takes a client message, a change of
-- the focus, and the flush, and what it says where it does not.
pub record Display : Type 0 where
  pub active_value : Option ℕ
  pub input_focus : Option ℕ
  pub root : ℕ
  pub query_tree : ℕ → Option (ℕ × ℕ)
  pub takes_message : Bool
  pub takes_focus : Bool
  pub flushes : Bool
  pub reason : String

-- `FocusTracker`, without the session: whether there is one, and the window to go back to.
pub record FocusTracker : Type 0 where
  pub connected : Bool
  pub previous : Option ℕ

unfoldable pub new : Bool → FocusTracker
new connected = record { connected = connected; previous = none }

-- `slice::contains`.
unfoldable pub is_mine : ℕ → List ℕ → Bool
is_mine window [] = false
is_mine window (own ∷ rest) = own == window || is_mine window rest

unfoldable pub nonzero : Option ℕ → Option ℕ
nonzero none = none
nonzero (some window) = if window == 0 then none else some window

-- `Session::active_window`.
unfoldable pub active_window : Display → Option ℕ
unfolding nonzero
active_window d = nonzero d.active_value

unfoldable pub next_up : ℕ → Option (ℕ × ℕ) → (ℕ → Option ℕ) → Option ℕ
next_up window none climb = none
next_up window (some (parent, root)) climb =
    if parent == 0 || parent == root then some window else climb parent

-- The loop of `Session::keyboard_window`: up the tree to the top level.
unfoldable pub top_level : ℕ → Display → ℕ → Option ℕ
unfolding next_up
top_level zero d window = none
top_level (suc rounds) d window = next_up window (d.query_tree window) (top_level rounds d)

unfoldable pub from_focus : Display → Option ℕ → Option ℕ
unfolding top_level
from_focus d none = none
from_focus d (some window) =
    if window == 0 || window == 1 || window == d.root then none else top_level depth d window

-- `Session::keyboard_window`.
unfoldable pub keyboard_window : Display → Option ℕ
unfolding from_focus
keyboard_window d = from_focus d d.input_focus

unfoldable pub worth_returning_to : Option ℕ → List ℕ → Option ℕ
unfolding is_mine
worth_returning_to none mine = none
worth_returning_to (some window) mine = if is_mine window mine then none else some window

abbrev pub or_else : Option ℕ → Option ℕ → Option ℕ
or_else none other = other
or_else (some window) other = some window

-- The keyboard is asked only where the active window is not one to go back to.
unfoldable pub somewhere_to_return : Option ℕ → Option ℕ → List ℕ → Option ℕ
unfolding worth_returning_to
somewhere_to_return active keyboard mine =
    or_else (worth_returning_to active mine) (worth_returning_to keyboard mine)

unfoldable pub record_window : FocusTracker → Option ℕ → FocusTracker
record_window t none = t
record_window t (some window) = record t { previous = some window }

-- `FocusTracker::capture`.
unfoldable pub capture : Display → List ℕ → FocusTracker → FocusTracker
unfolding record_window somewhere_to_return active_window keyboard_window
capture d mine t =
    if t.connected
    then record_window t (somewhere_to_return (active_window d) (keyboard_window d) mine)
    else t

-- `Session::activate`, with the window that the server was asked to activate.
unfoldable pub activate : Display → ℕ → Result String (Unit {0})
activate d window =
    if not d.takes_message && not d.takes_focus
    then err ("the previous window would not take focus: " ⋅ d.reason)
    else if d.flushes
    then ok tt
    else err ("the display did not accept the focus change: " ⋅ d.reason)

unfoldable pub activated : Display → Option ℕ → Result String (Unit {0})
unfolding activate
activated d none = ok tt
activated d (some window) = activate d window

-- `FocusTracker::restore`: what it answers, the window that is activated, and the tracker, which has
-- nothing to go back to after it.
unfoldable pub restore : Display → FocusTracker → Result String (Unit {0}) × Option ℕ × FocusTracker
unfolding activated
restore d t =
    if t.connected
    then (activated d t.previous, t.previous, record t { previous = none })
    else (ok tt, none, t)
