-- ===== src/Focus/Tests.antt =====
-- A run of surfaces/desktop/src/focus.rs, and its theorem at a concrete input.
use scufris.Base.{true, ◌==◌, if◌then◌else◌, some, none, List, [], ◌∷◌, ◌≡◌, refl}
use scufris.Focus.{
  Display, new, capture, restore, somewhere_to_return, worth_returning_to, is_mine, active_window,
  keyboard_window, from_focus, top_level, next_up, nonzero, record_window,
}
use scufris.Focus.Elsewhere.{Call, captures, IsReturn, run, run-IsReturn}

-- The window manager names the companion's panel 7, while the keyboard is inside window 4.
abbrev panel_clicked : Display
panel_clicked = record {
  active_value = some 7;
  input_focus = some 41;
  root = 2;
  query_tree = λ window. if window == 41 then some (4, 2) else some (2, 2);
  takes_message = true;
  takes_focus = true;
  flushes = true;
  reason = "";
}

back_to_editor : (restore panel_clicked (capture panel_clicked (7 ∷ 8 ∷ []) (new true))).1 ≡ some 4
unfolding restore capture new somewhere_to_return worth_returning_to is_mine active_window
    keyboard_window from_focus top_level next_up nonzero record_window
back_to_editor = refl

-- The panel captures, and then a form, which has the list of the windows as they are by then.
abbrev two_captures : List Call
two_captures = captures (7 ∷ []) panel_clicked ∷ captures (7 ∷ 8 ∷ []) panel_clicked ∷ []

editor_again : (restore panel_clicked (run two_captures (new true))).1 ≡ some 4
unfolding run restore capture new somewhere_to_return worth_returning_to is_mine active_window
    keyboard_window from_focus top_level next_up nonzero record_window
editor_again = refl

run-IsReturn_example :
    IsReturn two_captures (restore panel_clicked (run two_captures (new true))).1
    × ((restore panel_clicked (restore panel_clicked (run two_captures (new true))).2).1 ≡ none)
run-IsReturn_example = run-IsReturn true two_captures panel_clicked panel_clicked
