-- ===== src/Briefings/Opened.antt =====
-- What a start of the store of host/service/src/briefings.rs leaves, whatever stands on disk.
use scufris.Base.{
  ℕ, zero, suc, ◌+◌, ◌≤◌, String, Bool, true, false, ◌||◌, Option, none, some, List, [], ◌∷◌,
  length, All, ◌≡◌, inl, inr, refl, arith, Bool-cases, ltb, if◌then◌else◌,
}
use scufris.Base.Files.{Node, absent, irregular, unreadable, file, Fault}
use scufris.Base.Result.{Result, ok, err}
use scufris.Control.Message.{MessageError}
use scufris.Control.Briefing.{pending, BriefingRow, is_in_progress, is_stopped, max_briefing_rows}
use scufris.Briefings.{BriefingStore, set_deliveries}
use scufris.Briefings.Store.{Stored, StoreError, max_file_bytes}
use scufris.Briefings.Protect.{length-sort_by}
use scufris.Briefings.Upsert.{row_below, without, remove_first}
use scufris.Briefings.Room.{Picks, remove_first-Picks}
use scufris.Briefings.Lives.{IsBounded, length-set_deliveries}
use scufris.Briefings.Load.{
  compact, or_first, yields_first, repended, check_stored, taken_in, sorted, accept, load, opened,
  open_store,
}

length-or_first :
    (test : BriefingRow → Bool) (rows : List BriefingRow) (o : Option (String × List BriefingRow))
    (n : ℕ)
    → Picks test rows o
    → length rows ≤ suc n
    → length (or_first o rows).1 ≤ n
length-or_first test rows (some (id, rest)) n (len, v) h = omega (arith, len, h)
length-or_first test [] none n v h = omega arith
length-or_first test (x ∷ xs) none n v h = omega (arith, h)

compact-IsBounded :
    {Value : Type 0} (rounds : ℕ) (s : BriefingStore Value)
    → length s.rows ≤ rounds + max_briefing_rows
    → IsBounded (compact rounds s)
unfolding compact
compact-IsBounded zero s h = omega (arith, h)
compact-IsBounded (suc rounds) s h = elim (Bool-cases (ltb max_briefing_rows (length s.rows))) [
  | inr fits ↦ rw (fits, compact) (ground arith)
  | inl full ↦
      rw (full, compact)
        (compact-IsBounded rounds
          (without s (or_first (remove_first (yields_first s.dismissed) s.rows) s.rows))
          (length-or_first (yields_first s.dismissed) s.rows
            (remove_first (yields_first s.dismissed) s.rows) (rounds + max_briefing_rows)
            (remove_first-Picks (yields_first s.dismissed) s.rows) (omega (arith, h))))
]

-- No row waits on a turn that an earlier process began, or is stopped.
abbrev pub IsResumed : BriefingRow → Type 0
IsResumed row = (is_in_progress row.delivery ≡ false) × (is_stopped row.delivery ≡ false)

set_deliveries-IsResumed :
    (rows : List BriefingRow)
    → All IsResumed
        (set_deliveries
          (λ row. is_in_progress row.delivery || is_stopped row.delivery)
          pending
          rows).0
unfolding set_deliveries
set_deliveries-IsResumed [] = tt
set_deliveries-IsResumed (row ∷ rest) =
    elim (Bool-cases (is_in_progress row.delivery || is_stopped row.delivery)) [
      | inl held ↦ rw held ((refl, refl), set_deliveries-IsResumed rest)
      | inr free ↦ rw free ((ground arith, ground arith), set_deliveries-IsResumed rest)
    ]

module _ {Value : Type 0} where
  abbrev LoadedBounded : Result StoreError (BriefingStore Value × Bool) → Type 0
  LoadedBounded (err e) = Unit
  LoadedBounded (ok (s, changed)) = IsBounded s

  LoadedBounded-if :
      (b : Bool) (x y : Result StoreError (BriefingStore Value × Bool))
      → LoadedBounded x
      → LoadedBounded y
      → LoadedBounded (if b then x else y)
  LoadedBounded-if true x y h k = h
  LoadedBounded-if false x y h k = k

  -- A store that a start may hand out: within its 64 rows, none of them in progress or stopped.
  abbrev pub IsReady : BriefingStore Value → Type 0
  IsReady s = IsBounded s × All IsResumed s.rows

module _ {Value : Type 0} (is_object : Value → Bool) (encoded_size : Value → ℕ)
    (from_slice : List ℕ → Option (Stored Value)) (reason : String)
    (shown : MessageError → String) where
  taken_in-LoadedBounded :
      (stored : Stored Value) (checks : Result StoreError (Unit {0}))
      → LoadedBounded (taken_in is_object encoded_size from_slice reason shown stored checks)
  unfolding taken_in
  taken_in-LoadedBounded stored (err e) = tt
  taken_in-LoadedBounded stored (ok u) =
      compact-IsBounded (length stored.rows)
        (sorted is_object encoded_size from_slice reason shown stored)
        (omega (arith, length-sort_by row_below stored.rows))

  accept-LoadedBounded :
      (o : Option (Stored Value))
      → LoadedBounded (accept is_object encoded_size from_slice reason shown o)
  unfolding accept
  accept-LoadedBounded none = tt
  accept-LoadedBounded (some stored) =
      taken_in-LoadedBounded stored
        (check_stored is_object encoded_size from_slice reason shown stored)

  load-LoadedBounded :
      (node : Node) → LoadedBounded (load is_object encoded_size from_slice reason shown node)
  unfolding load
  load-LoadedBounded absent = omega arith
  load-LoadedBounded unreadable = tt
  load-LoadedBounded irregular = tt
  load-LoadedBounded (file bytes) =
      LoadedBounded-if (ltb max_file_bytes (length bytes)) (err StoreError.too_large)
        (accept is_object encoded_size from_slice reason shown (from_slice bytes)) tt
        (accept-LoadedBounded (from_slice bytes))

  opened-IsReady :
      (to_vec : Stored Value → Option (List ℕ)) (fault : Fault) (moves : Bool)
      (r : Result StoreError (BriefingStore Value × Bool)) (node : Node)
      → LoadedBounded r
      → IsReady (opened is_object encoded_size from_slice reason shown to_vec fault moves r node).0
  unfolding opened repended
  opened-IsReady to_vec fault moves (err e) node h = (omega arith, tt)
  opened-IsReady to_vec fault moves (ok (s, compacted)) node h =
      (omega (arith, h, length-set_deliveries _ pending s.rows), set_deliveries-IsResumed s.rows)

  -- Whatever stands on disk, and whatever the file system does, a start hands out a store within
  -- its 64 rows, also from a snapshot of the older bound, and none of its rows is in progress or
  -- stopped.
  pub open_store-IsReady :
      (to_vec : Stored Value → Option (List ℕ)) (fault : Fault) (moves : Bool) (node : Node)
      → IsReady
          (open_store is_object encoded_size from_slice reason shown to_vec fault moves node).0
  unfolding open_store
  open_store-IsReady to_vec fault moves node =
      opened-IsReady to_vec fault moves (load is_object encoded_size from_slice reason shown node)
        node (load-LoadedBounded node)
