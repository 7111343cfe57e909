-- ===== src/Service/Stdout.antt =====
-- host/service/src/service.rs: `read_events`, the thread that reads the lines of the managed process.
-- The pipe is the bytes that are still to come, and whether a failed read or the end follows them.
use scufris.Base.{
  ℕ, zero, suc, ◌+◌, ◌*◌, Bool, true, false, not, ◌&&◌, ◌||◌, Option, none, some, List, [], ◌∷◌,
  ◌++◌, length, ltb, ◌==◌, if◌then◌else◌,
}
use scufris.Control.Wire.{read_until_lf, pop}

abbrev pub max_event_bytes : ℕ
max_event_bytes = 4 * 1024 * 1024

-- `Vec::is_empty`.
abbrev pub is_nil {ℓ} : {A : Type ℓ} → List A → Bool
is_nil [] = true
is_nil (x ∷ xs) = false

-- The loop that pops the line feeds and carriage returns off the end of a line.
unfoldable pub strip_end : List ℕ → List ℕ
strip_end [] = []
strip_end (b ∷ bs) =
    let rest = strip_end bs in if is_nil rest && (b == b'\n' || b == b'\r') then [] else b ∷ rest

abbrev pub ends_in_lf : Option (ℕ × List ℕ) → Bool
ends_in_lf none = false
ends_in_lf (some (last, front)) = last == b'\n'

-- A read that comes to the failure has neither a line feed at its end nor all the room filled.
unfoldable pub meets_error : Bool → List ℕ → Bool
unfolding pop
meets_error fails line =
    fails && not (ends_in_lf (pop line)) && ltb (length line) (max_event_bytes + 1)

-- The three returns of a round.
unfoldable pub ends : Bool → List ℕ → Bool
unfolding meets_error
ends fails line = is_nil line || meets_error fails line || ltb max_event_bytes (length line)

module _ {Event : Type 0} (from_slice : List ℕ → Option Event) where
  abbrev pub once : Option Event → List Event
  once none = []
  once (some event) = event ∷ []

  -- What one line that was read passes on to `apply`, if anything.
  unfoldable pub event_of : List ℕ → List Event
  unfolding strip_end
  event_of line = if is_nil (strip_end line) then [] else once (from_slice (strip_end line))

  abbrev pub add_all : List Event → Option (List Event) → Option (List Event)
  add_all events none = none
  add_all events (some later) = some (events ++ later)

  -- The loop on fuel: the events that it passes on to `apply`, in order.
  unfoldable pub reading : ℕ → Bool → List ℕ → Option (List Event)
  unfolding read_until_lf event_of ends
  reading zero fails stream = none
  reading (suc fuel) fails stream =
      let (line, rest) = read_until_lf (max_event_bytes + 1) stream in
      let later = reading fuel fails rest in
      if ends fails line then some [] else add_all (event_of line) later

  unfoldable pub read_events : Bool → List ℕ → Option (List Event)
  unfolding reading
  read_events fails stream = reading (length stream + 1) fails stream
