-- ===== src/Briefings/Room.antt =====
-- How host/service/src/briefings.rs makes room for its rows.
use mathlib.Core.List.{Memᴰ}
use text.Mathlib.Text.{◌==◌ as ◌=ˢ◌}
use scufris.Base.{
  ℕ, zero, suc, ◌+◌, ◌≤◌, String, Bool, true, false, not, Option, none, some, List, [], ◌∷◌, length,
  ◌≡◌, inl, inr, refl, ap, arith, Bool-cases, ltb,
}
use scufris.Control.Briefing.{BriefingRow, max_briefing_rows}
use scufris.Briefings.{BriefingStore, retain, contains}
use scufris.Briefings.Upsert.{make_room, yields, remove_first, without}

contains-retain :
    (s t : String) (ds : List String)
    → contains s (retain (λ d. not (d =ˢ t)) ds) ≡ true
    → contains s ds ≡ true
unfolding contains retain
contains-retain s t [] h = h
contains-retain s t (d ∷ ds) h = ground (arith, contains-retain s t ds)

-- A row that does not yield does not when fewer are dismissed.
yields-retain :
    (t : String) (ds : List String) (row : BriefingRow)
    → yields ds row ≡ false
    → yields (retain (λ d. not (d =ˢ t)) ds) row ≡ false
unfolding yields
yields-retain t ds row h = ground (arith, contains-retain row.id t ds)

pub Mem-cons_map :
    {xs ys : List BriefingRow} (row x : BriefingRow)
    → (Memᴰ row xs → Memᴰ row ys)
    → Memᴰ row (x ∷ xs)
    → Memᴰ row (x ∷ ys)
Mem-cons_map row x f (Memᴰ.head e) = Memᴰ.head e
Mem-cons_map row x f (Memᴰ.tail m) = Memᴰ.tail (f m)

module _ (test : BriefingRow → Bool) where
  -- One row is removed, and it is one that the test picks.
  abbrev pub Picks : List BriefingRow → Option (String × List BriefingRow) → Type 0
  Picks rows none = Unit
  Picks rows (some (id, rest)) =
      (length rows ≡ suc (length rest))
      × ((row : BriefingRow) → test row ≡ false → Memᴰ row rows → Memᴰ row rest)

  Mem-unpicked :
      (row x : BriefingRow) (xs : List BriefingRow)
      → test row ≡ false
      → test x ≡ true
      → Memᴰ row (x ∷ xs)
      → Memᴰ row xs
  Mem-unpicked row x xs t y (Memᴰ.head e) = absurd (cc (t, y, ap test e))
  Mem-unpicked row x xs t y (Memᴰ.tail m) = m

  Picks-cons :
      (x : BriefingRow) (xs : List BriefingRow) (o : Option (String × List BriefingRow))
      → Picks xs o
      → Picks (x ∷ xs) (elim o [ none ↦ none | some found ↦ some (found.0, x ∷ found.1) ])
  Picks-cons x xs none v = tt
  Picks-cons x xs (some (id, rest)) (len, v) =
      (ap suc len, λ row t m. Mem-cons_map row x (v row t) m)

  Picks-step :
      (b : Bool) (x : BriefingRow) (xs : List BriefingRow) (o : Option (String × List BriefingRow))
      → test x ≡ b
      → Picks xs o
      → Picks (x ∷ xs) (elim b [
        | false ↦ elim o [ none ↦ none | some found ↦ some (found.0, x ∷ found.1) ]
        | true ↦ some (x.id, xs)
      ])
  Picks-step true x xs o y v = (refl, λ row t m. Mem-unpicked row x xs t y m)
  Picks-step false x xs o n v = Picks-cons x xs o v

  pub remove_first-Picks : (rows : List BriefingRow) → Picks rows (remove_first test rows)
  unfolding remove_first
  remove_first-Picks [] = tt
  remove_first-Picks (x ∷ xs) =
      Picks-step (test x) x xs (remove_first test xs) refl (remove_first-Picks xs)

module _ {Value : Type 0} where
  -- What making room does: at most 64 rows are left, among them every row that does not yield.
  abbrev pub MadeRoom : BriefingStore Value → Option (BriefingStore Value) → Type 0
  MadeRoom s none = Unit
  MadeRoom s (some s') =
      (length s'.rows ≤ max_briefing_rows)
      × ((row : BriefingRow) → yields s.dismissed row ≡ false → Memᴰ row s.rows → Memᴰ row s'.rows)

  MadeRoom-without :
      (s : BriefingStore Value) (found : String × List BriefingRow)
      (o : Option (BriefingStore Value))
      → Picks (yields s.dismissed) s.rows (some found)
      → MadeRoom (without s found) o
      → MadeRoom s o
  MadeRoom-without s (id, rest) none v w = tt
  MadeRoom-without s (id, rest) (some s') (len, v) (few, keeps) =
      (few, λ row t m. keeps row (yields-retain id s.dismissed row t) (v row t m))

  MadeRoom-step :
      (s : BriefingStore Value) (rounds : ℕ) (o : Option (String × List BriefingRow))
      → ((s' : BriefingStore Value)
          → length s'.rows ≤ rounds + max_briefing_rows
          → MadeRoom s' (make_room rounds s'))
      → length s.rows ≤ suc rounds + max_briefing_rows
      → Picks (yields s.dismissed) s.rows o
      → MadeRoom s (elim o [ none ↦ none | some found ↦ make_room rounds (without s found) ])
  MadeRoom-step s rounds none more h v = tt
  MadeRoom-step s rounds (some found) more h v =
      MadeRoom-without s found (make_room rounds (without s found)) v
        (more (without s found) (omega (arith, v.0, h)))

  pub make_room-MadeRoom :
      (rounds : ℕ) (s : BriefingStore Value)
      → length s.rows ≤ rounds + max_briefing_rows
      → MadeRoom s (make_room rounds s)
  unfolding make_room
  make_room-MadeRoom zero s h = (omega arith, λ row t m. m)
  make_room-MadeRoom (suc rounds) s h = elim (Bool-cases (ltb max_briefing_rows (length s.rows))) [
    | inr fits ↦ rw (fits, MadeRoom) (ground arith, λ row t m. m)
    | inl full ↦
        rw (full, MadeRoom)
          (MadeRoom-step s rounds (remove_first (yields s.dismissed) s.rows)
            (λ s' h'. make_room-MadeRoom rounds s' h') h
            (remove_first-Picks (yields s.dismissed) s.rows))
  ]
