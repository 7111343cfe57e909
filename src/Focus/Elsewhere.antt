-- ===== src/Focus/Elsewhere.antt =====
-- The windows that surfaces/desktop/src/focus.rs goes back to, through any captures and restorations.
use scufris.Base.{
  ℕ, zero, suc, String, Bool, true, false, ◌||◌, Option, none, some, List, [], ◌∷◌, ◌==◌, All, ◌≡◌,
  ◌≢◌, inl, inr, refl, sym, ap, ◌∙◌, arith, Bool-cases, ◌⊎◌, if◌then◌else◌,
}
use scufris.Base.Result.{Result, ok}
use scufris.Focus.{
  Display, FocusTracker, new, is_mine, nonzero, active_window, top_level, keyboard_window,
  worth_returning_to, or_else, somewhere_to_return, record_window, capture, restore, depth, next_up,
  from_focus, activated,
}

-- A window that is none of the companion's, and is one.
abbrev pub Elsewhere : List ℕ → ℕ → Type 0
Elsewhere mine window = All (λ own. own ≢ window) mine × (window ≢ 0)

abbrev pub Away : List ℕ → Option ℕ → Type 0
Away mine none = Unit
Away mine (some window) = Elsewhere mine window

is_mine-All :
    (window : ℕ) (mine : List ℕ) → is_mine window mine ≡ false → All (λ own. own ≢ window) mine
unfolding is_mine
is_mine-All window [] h = tt
is_mine-All window (own ∷ rest) h = ((λ e. ground arith), is_mine-All window rest (ground arith))

next_up-ne-zero :
    (window w : ℕ) (o : Option (ℕ × ℕ)) (climb : ℕ → Option ℕ)
    → window ≢ 0
    → ((parent : ℕ) → parent ≢ 0 → climb parent ≡ some w → w ≢ 0)
    → next_up window o climb ≡ some w
    → w ≢ 0
unfolding next_up
next_up-ne-zero window w none climb h up e = cc
next_up-ne-zero window w (some (parent, root)) climb h up e =
    elim (Bool-cases (parent == 0 || parent == root)) [
      | inl top ↦ let same : window ≡ w = ground arith in rw (← same) h
      | inr inner ↦ up parent (ground arith) (ground arith)
    ]

top_level-ne-zero :
    (rounds : ℕ) (d : Display) (window w : ℕ)
    → window ≢ 0
    → top_level rounds d window ≡ some w
    → w ≢ 0
unfolding top_level
top_level-ne-zero zero d window w h e = cc
top_level-ne-zero (suc rounds) d window w h e =
    next_up-ne-zero window w (d.query_tree window) (top_level rounds d) h
      (λ parent k f. top_level-ne-zero rounds d parent w k f) e

keyboard_window-ne-zero : (d : Display) (o : Option ℕ) (w : ℕ) → from_focus d o ≡ some w → w ≢ 0
unfolding from_focus
keyboard_window-ne-zero d none w e = cc
keyboard_window-ne-zero d (some window) w e =
    elim (Bool-cases (window == 0 || window == 1 || window == d.root)) [
      | inl nobody ↦ absurd (ground arith)
      | inr held ↦ top_level-ne-zero depth d window w (ground arith) (ground arith)
    ]

active_window-ne-zero : (o : Option ℕ) (w : ℕ) → nonzero o ≡ some w → w ≢ 0
unfolding nonzero
active_window-ne-zero none w e = cc
active_window-ne-zero (some window) w e = ground arith

worth-Away :
    (o : Option ℕ) (mine : List ℕ)
    → ((w : ℕ) → o ≡ some w → w ≢ 0)
    → Away mine (worth_returning_to o mine)
unfolding worth_returning_to
worth-Away none mine h = tt
worth-Away (some window) mine h = elim (Bool-cases (is_mine window mine)) [
  | inl own ↦ rw own tt
  | inr other ↦ rw other (is_mine-All window mine other, h window refl)
]

or_else-Away :
    (mine : List ℕ) (o other : Option ℕ)
    → Away mine o
    → Away mine other
    → Away mine (or_else o other)
or_else-Away mine none other h k = k
or_else-Away mine (some window) other h k = h

somewhere-Away :
    (d : Display) (mine : List ℕ)
    → Away mine (somewhere_to_return (active_window d) (keyboard_window d) mine)
unfolding somewhere_to_return active_window keyboard_window
somewhere-Away d mine =
    or_else-Away mine (worth_returning_to (nonzero d.active_value) mine)
      (worth_returning_to (from_focus d d.input_focus) mine)
      (worth-Away (nonzero d.active_value) mine (active_window-ne-zero d.active_value))
      (worth-Away (from_focus d d.input_focus) mine (keyboard_window-ne-zero d d.input_focus))

-- The companion captures before it takes the keyboard, with the list of its own windows as they
-- are then, and gives it back.
pub data Call : Type 0 where
  captures : List ℕ → Display → Call
  restores : Display → Call

unfoldable pub step : Call → FocusTracker → FocusTracker
step (captures mine d) t = capture d mine t
step (restores d) t = (restore d t).2

unfoldable pub run : List Call → FocusTracker → FocusTracker
unfolding step
run [] t = t
run (c ∷ cs) t = run cs (step c t)

-- No restoration is among the calls.
abbrev pub only_captures : List Call → Bool
only_captures [] = true
only_captures (captures mine d ∷ cs) = only_captures cs
only_captures (restores d ∷ cs) = false

-- A capture with no restoration after it took the window, as one that was then elsewhere.
abbrev pub Captured : List Call → ℕ → Type 0
Captured [] window = ⊥
Captured (captures mine d ∷ cs) window =
    ((somewhere_to_return (active_window d) (keyboard_window d) mine ≡ some window)
      × Elsewhere mine window
      × (only_captures cs ≡ true))
    ⊎ Captured cs window
Captured (restores d ∷ cs) window = Captured cs window

-- What a restoration activates, if anything, was taken so.
abbrev pub IsReturn : List Call → Option ℕ → Type 0
IsReturn cs none = Unit
IsReturn cs (some window) = Captured cs window

record_window-cases :
    (t : FocusTracker) (o : Option ℕ) (window : ℕ)
    → (record_window t o).previous ≡ some window
    → (o ≡ some window) ⊎ (t.previous ≡ some window)
unfolding record_window
record_window-cases t none window e = inr e
record_window-cases t (some found) window e = inl e

record_window-connected :
    (t : FocusTracker) (o : Option ℕ) → (record_window t o).connected ≡ t.connected
unfolding record_window
record_window-connected t none = refl
record_window-connected t (some found) = refl

capture_connected :
    (d : Display) (mine : List ℕ) (t : FocusTracker)
    → t.connected ≡ true
    → capture d mine t
      ≡ record_window t (somewhere_to_return (active_window d) (keyboard_window d) mine)
unfolding capture
capture_connected d mine t e = rw e refl

restore_connected :
    (d : Display) (t : FocusTracker)
    → t.connected ≡ true
    → ((restore d t).1 ≡ t.previous) × ((restore d t).2 ≡ record t { previous = none })
unfolding restore
restore_connected d t e = rw e (refl, refl)

run-Captured :
    (cs : List Call) (t : FocusTracker) (window : ℕ)
    → t.connected ≡ true
    → (run cs t).previous ≡ some window
    → Captured cs window ⊎ ((t.previous ≡ some window) × (only_captures cs ≡ true))
unfolding run step
run-Captured [] t window there e = inr (e, refl)
run-Captured (captures mine d ∷ cs) t window there e =
    let o = somewhere_to_return (active_window d) (keyboard_window d) mine in
    let t' = record_window t o in
    let there' : t'.connected ≡ true = record_window-connected t o ∙ there in
    let after = ap (λ u. (run cs u).previous) (sym (capture_connected d mine t there)) ∙ e in
    elim (run-Captured cs t' window there' after) [
      | inl later ↦ inl (inr later)
      | inr (now, all) ↦ elim (record_window-cases t o window now) [
        | inl found ↦ inl (inl (found, rw found at (somewhere-Away d mine), all))
        | inr before ↦ inr (before, all)
      ]
    ]
run-Captured (restores d ∷ cs) t window there e =
    let after = ap (λ u. (run cs u).previous) (sym ((restore_connected d t there).1)) ∙ e in
    elim (run-Captured cs (record t { previous = none }) window there after) [
      | inl later ↦ inl later
      | inr (now, all) ↦ absurd (cc)
    ]

capture_alone :
    (d : Display) (mine : List ℕ) (t : FocusTracker) → t.connected ≡ false → capture d mine t ≡ t
unfolding capture
capture_alone d mine t e =
    let o = somewhere_to_return (active_window d) (keyboard_window d) mine in
    ap (λ b. if b then record_window t o else t) e

restore_alone :
    (d : Display) (t : FocusTracker)
    → t.connected ≡ false
    → ((restore d t).1 ≡ none) × ((restore d t).2 ≡ t)
unfolding restore
restore_alone d t e =
    let answer : Bool → Result String (Unit {0}) × Option ℕ × FocusTracker = λ b.
      if b
      then (activated d t.previous, t.previous, record t { previous = none })
      else (ok tt, none, t) in
    (ap (λ b. (answer b).1) e, ap (λ b. (answer b).2) e)

run_alone : (cs : List Call) (t : FocusTracker) → t.connected ≡ false → run cs t ≡ t
unfolding run step
run_alone [] t e = refl
run_alone (captures mine d ∷ cs) t e = ap (run cs) (capture_alone d mine t e) ∙ run_alone cs t e
run_alone (restores d ∷ cs) t e = ap (run cs) ((restore_alone d t e).1) ∙ run_alone cs t e

restore_twice : (d e : Display) (t : FocusTracker) → (restore e (restore d t).2).1 ≡ none
unfolding restore
restore_twice d e t = elim (Bool-cases t.connected) [
  | inl there ↦ rw there refl
  | inr alone ↦ rw alone refl
]

kept-IsReturn :
    (cs : List Call) (t : FocusTracker) (o : Option ℕ)
    → t.connected ≡ true
    → t.previous ≡ none
    → (run cs t).previous ≡ o
    → IsReturn cs o
kept-IsReturn cs t none there fresh e = tt
kept-IsReturn cs t (some window) there fresh e = elim (run-Captured cs t window there e) [
  | inl taken ↦ taken
  | inr (now, all) ↦ absurd (cc)
]

run-connected :
    (cs : List Call) (t : FocusTracker) → t.connected ≡ true → (run cs t).connected ≡ true
unfolding run step
run-connected [] t e = e
run-connected (captures mine d ∷ cs) t e =
    let o = somewhere_to_return (active_window d) (keyboard_window d) mine in
    let kept = ap (λ u. u.connected) (capture_connected d mine t e) ∙ record_window-connected t o in
    run-connected cs (capture d mine t) (kept ∙ e)
run-connected (restores d ∷ cs) t e =
    run-connected cs (restore d t).2 (ap (λ u. u.connected) ((restore_connected d t e).1) ∙ e)

restored-IsReturn :
    (connected : Bool) (cs : List Call) (d : Display)
    → IsReturn cs (restore d (run cs (new connected))).1
unfolding new
restored-IsReturn true cs d =
    let last = run cs (new true) in
    let there = run-connected cs (new true) refl in
    kept-IsReturn cs (new true) (restore d last).1 refl refl
      (sym ((restore_connected d last there).0))
restored-IsReturn false cs d =
    let nothing = ap (λ t. (restore d t).1) (run_alone cs (new false) refl) in
    rw (nothing, (restore_alone d (new false) refl).0) tt

-- Through any captures and restorations, whatever the display answers to each and whichever windows
-- the companion has then, the window that a restoration activates was taken by a capture after which
-- no restoration came, and it was then none of the companion's windows and not the window 0; and a
-- restoration that follows it at once activates nothing.
pub run-IsReturn :
    (connected : Bool) (cs : List Call) (d e : Display)
    → IsReturn cs (restore d (run cs (new connected))).1
      × ((restore e (restore d (run cs (new connected))).2).1 ≡ none)
run-IsReturn connected cs d e =
    (restored-IsReturn connected cs d, restore_twice d e (run cs (new connected)))
