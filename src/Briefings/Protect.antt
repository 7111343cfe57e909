-- ===== src/Briefings/Protect.antt =====
-- Which rows an update of host/service/src/briefings.rs keeps.
use mathlib.Core.List.{Memᴰ}
use text.Mathlib.Text.{◌==◌ as ◌=ˢ◌}
use scufris.Base.{
  ◌⊎◌, ℕ, suc, ◌≤◌, String, Bool, true, false, Option, none, some, List, [], ◌∷◌, length, ◌≡◌, ◌≢◌,
  inl, inr, refl, ap, ◌∙◌, arith, Bool-cases, eq_iff,
}
use scufris.Base.Files.{Node, Fault}
use scufris.Base.Result.{ok, err}
use scufris.Briefings.Room.{MadeRoom, make_room-MadeRoom, Mem-cons_map}
use scufris.Control.Briefing.{
  active, requires_attention, is_stopped, BriefingRow, BriefingWake, max_briefing_rows,
}
use scufris.Briefings.{Queued, BriefingStore, contains}
use scufris.Briefings.Store.{Stored, Written, Outcome, persist, sort_by, sorted_insert}
use scufris.Briefings.Upsert.{
  merge_row, merged, make_room, yields, settled, upsert, UpsertOutcome, row_below, enqueue,
  keep_queue, keep_room, store_unless, stored_as, given,
}

Mem-swap :
    (row x y : BriefingRow) (ys zs : List BriefingRow)
    → (Memᴰ row (x ∷ ys) → Memᴰ row zs)
    → Memᴰ row (x ∷ y ∷ ys)
    → Memᴰ row (y ∷ zs)
Mem-swap row x y ys zs f (Memᴰ.head e) = Memᴰ.tail (f (Memᴰ.head e))
Mem-swap row x y ys zs f (Memᴰ.tail (Memᴰ.head e)) = Memᴰ.head e
Mem-swap row x y ys zs f (Memᴰ.tail (Memᴰ.tail m)) = Memᴰ.tail (f (Memᴰ.tail m))

sorted_insert-Mem :
    (below : BriefingRow → BriefingRow → Bool) (row x : BriefingRow) (xs : List BriefingRow)
    → Memᴰ row (x ∷ xs)
    → Memᴰ row (sorted_insert below x xs)
unfolding sorted_insert
sorted_insert-Mem below row x [] m = m
sorted_insert-Mem below row x (y ∷ ys) m = elim (Bool-cases (below x y)) [
  | inl before ↦ rw before m
  | inr later ↦
      rw later (
        Mem-swap row x y ys (sorted_insert below x ys) (λ m'. sorted_insert-Mem below row x ys m')
          m)
]

length-sorted_insert :
    (below : BriefingRow → BriefingRow → Bool) (x : BriefingRow) (xs : List BriefingRow)
    → length (sorted_insert below x xs) ≡ suc (length xs)
unfolding sorted_insert
length-sorted_insert below x [] = refl
length-sorted_insert below x (y ∷ ys) = ground (arith, length-sorted_insert below x ys)

sort_by-Mem :
    (below : BriefingRow → BriefingRow → Bool) (row : BriefingRow) (xs : List BriefingRow)
    → Memᴰ row xs
    → Memᴰ row (sort_by below xs)
unfolding sort_by
sort_by-Mem below row [] m = elim m [ ]
sort_by-Mem below row (x ∷ xs) (Memᴰ.head e) =
    sorted_insert-Mem below row x (sort_by below xs) (Memᴰ.head e)
sort_by-Mem below row (x ∷ xs) (Memᴰ.tail m) =
    sorted_insert-Mem below row x (sort_by below xs) (Memᴰ.tail (sort_by-Mem below row xs m))

pub length-sort_by :
    (below : BriefingRow → BriefingRow → Bool) (xs : List BriefingRow)
    → length (sort_by below xs) ≡ length xs
unfolding sort_by
length-sort_by below [] = refl
length-sort_by below (x ∷ xs) =
    length-sorted_insert below x (sort_by below xs) ∙ ap suc (length-sort_by below xs)

Mem-other :
    (row x y : BriefingRow) (xs : List BriefingRow)
    → row ≢ x
    → Memᴰ row (x ∷ xs)
    → Memᴰ row (y ∷ xs)
Mem-other row x y xs h (Memᴰ.head e) = absurd (h e)
Mem-other row x y xs h (Memᴰ.tail m) = Memᴰ.tail m

merge_row-Mem :
    (incoming row : BriefingRow) (xs : List BriefingRow)
    → row.id ≢ incoming.id
    → Memᴰ row xs
    → Memᴰ row (merge_row incoming xs)
unfolding merge_row
merge_row-Mem incoming row [] h m = elim m [ ]
merge_row-Mem incoming row (x ∷ xs) h m = elim (Bool-cases (x.id =ˢ incoming.id)) [
  | inl same ↦ rw same (
      Mem-other row x (merged x incoming) xs
        (λ e. h (ap (λ r. r.id) e ∙ (eq_iff x.id incoming.id).0 same)) m)
  | inr other ↦ rw other (Mem-cons_map row x (merge_row-Mem incoming row xs h) m)
]

-- Work that can still make progress, and attention that nobody dismissed.
abbrev pub Needed : List String → BriefingRow → Type 0
Needed dismissed row =
    (is_stopped row.delivery ≡ false)
    × ((active row ≡ true)
        ⊎ ((requires_attention row ≡ true) × (contains row.id dismissed ≡ false)))

yields-Needed :
    (dismissed : List String) (row : BriefingRow)
    → Needed dismissed row
    → yields dismissed row ≡ false
unfolding yields
yields-Needed dismissed row (h, k) = ground arith

module _ {Value : Type 0} (to_vec : Stored Value → Option (List ℕ))
    (same : Discrete (BriefingStore Value)) where
  abbrev Protects : String → BriefingStore Value → BriefingStore Value → Type 0
  Protects id s s' =
      (length s'.rows ≤ max_briefing_rows)
      × ((row : BriefingRow)
          → row.id ≢ id
          → Needed s.dismissed row
          → Memᴰ row s.rows
          → Memᴰ row s'.rows)

  -- What an update for one generation does to the rows: at most 64 are left, among them every row
  -- of another generation that is needed; and a refused update changes nothing.
  abbrev pub Bounded : String → BriefingStore Value → Outcome to_vec UpsertOutcome → Type 0
  Bounded id s (ok o, s', node) = Protects id s s'
  Bounded id s (err e, s', node) = s' ≡ s

  stored_as-Bounded :
      (id : String) (o : UpsertOutcome) (s s' : BriefingStore Value) (w : Written to_vec)
      → Protects id s s'
      → Bounded id s (stored_as to_vec same o s s' w)
  unfolding stored_as
  stored_as-Bounded id o s s' (ok u, node) v = v
  stored_as-Bounded id o s s' (err e, node) v = refl

  abbrev MayProtect : String → BriefingStore Value → Option (BriefingStore Value) → Type 0
  MayProtect id s none = Unit
  MayProtect id s (some s') = Protects id s s'

  store_unless-Bounded :
      (id : String) (fault : Fault) (incoming : BriefingRow) (s s' : BriefingStore Value)
      (node : Node) (d : Dec (s' ≡ s))
      → length s.rows ≤ max_briefing_rows
      → Protects id s s'
      → Bounded id s (store_unless to_vec same fault incoming s s' node d)
  unfolding store_unless
  store_unless-Bounded id fault incoming s s' node (yes p) few v = (few, λ row n y m. m)
  store_unless-Bounded id fault incoming s s' node (no p) few v =
      stored_as-Bounded id _ s s' (persist to_vec fault s' node) v

  keep_room-Bounded :
      (id : String) (fault : Fault) (incoming : BriefingRow) (s : BriefingStore Value)
      (o : Option (BriefingStore Value)) (node : Node)
      → length s.rows ≤ max_briefing_rows
      → MayProtect id s o
      → Bounded id s (keep_room to_vec same fault incoming s o node)
  unfolding keep_room
  keep_room-Bounded id fault incoming s none node few v = refl
  keep_room-Bounded id fault incoming s (some s') node few v =
      store_unless-Bounded id fault incoming s s' node (same s' s) few v

  MadeRoom-MayProtect :
      (incoming : BriefingRow) (s : BriefingStore Value) (queue : List (Queued Value))
      (o : Option (BriefingStore Value))
      → MadeRoom (settled s.dismissed (merge_row incoming s.rows) queue) o
      → MayProtect incoming.id s o
  unfolding settled
  MadeRoom-MayProtect incoming s queue none v = tt
  MadeRoom-MayProtect incoming s queue (some s') (few, keeps) = (
    few,
    λ row n y m. keeps row (yields-Needed s.dismissed row y) (
        sort_by-Mem row_below row (merge_row incoming s.rows)
          (merge_row-Mem incoming row s.rows n m)),
  )

  keep_queue-Bounded :
      (fault : Fault) (incoming : BriefingRow) (s : BriefingStore Value)
      (o : Option (List (Queued Value))) (node : Node)
      → length s.rows ≤ max_briefing_rows
      → Bounded incoming.id s
          (keep_queue to_vec same fault incoming s (merge_row incoming s.rows) o node)
  unfolding keep_queue
  keep_queue-Bounded fault incoming s none node few = refl
  keep_queue-Bounded fault incoming s (some queue) node few =
      let rows = merge_row incoming s.rows in
      let s' = settled s.dismissed rows queue in
      keep_room-Bounded incoming.id fault incoming s (make_room (length rows) s') node few (
        MadeRoom-MayProtect incoming s queue (make_room (length rows) s') (
          make_room-MadeRoom (length rows) s'
            (unfold settled in omega (arith, length-sort_by row_below rows))))

  -- An update of a store within its 64 rows leaves it within them. It never drops a row of another
  -- generation that the circuit did not stop and that is active, or that asks for attention and was
  -- not dismissed; and where it reports an error it changes nothing.
  pub upsert-Bounded :
      (fault : Fault) (row : BriefingRow) (wake : Option (BriefingWake Value)) (already : Bool)
      (s : BriefingStore Value) (node : Node)
      → length s.rows ≤ max_briefing_rows
      → Bounded row.id s (upsert to_vec same fault row wake already s node)
  unfolding upsert
  upsert-Bounded fault row wake already s node few =
      let incoming = given already row in
      keep_queue-Bounded fault incoming s
        (enqueue row.id wake (merge_row incoming s.rows) s.pending) node few
