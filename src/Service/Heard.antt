-- ===== src/Service/Heard.antt =====
-- host/service/src/service.rs: what the events of the managed process are, of the lines that it wrote.
use scufris.Base.{
  ℕ, zero, suc, ◌+◌, ◌≤◌, Bool, true, false, ◌||◌, Option, some, List, [], ◌∷◌, ◌++◌, length, ltb,
  leb, Option-cases, if◌then◌else◌, ◌≡◌, refl, sym, ap, ◌∙◌, arith, All, Bool-cases, inl, inr,
  length-append, append-nil,
}
use scufris.Control.Wire.{read_until_lf, pop}
use scufris.Control.Framing.{NoLf, read_until_lf-line, pop-snoc}
use scufris.Control.Lines.{
  split_lf, framed, split_lf-IsSplit, read_until_lf-tail, read_until_lf-long,
}
use scufris.Service.Stdout.{
  max_event_bytes, add_all, strip_end, event_of, ends, ends_in_lf, meets_error, reading,
  read_events,
}

strip_end-lf : (line : List ℕ) → strip_end (line ++ b'\n' ∷ []) ≡ strip_end line
unfolding strip_end
strip_end-lf [] = refl
strip_end-lf (b ∷ line) = rw (strip_end-lf line) refl

no-lf-last : (line : List ℕ) → NoLf line → ends_in_lf (pop line) ≡ false
unfolding pop
no-lf-last [] n = refl
no-lf-last (b ∷ line) (nb, n) =
    let later = no-lf-last line n in
    elim (Option-cases (pop line)) [
      | inl e ↦ rw e nb
      | inr (p, e) ↦ rw e (rw (← ap ends_in_lf e) later)
    ]

ends-long :
    (fails : Bool) (line : List ℕ)
    → ltb max_event_bytes (length line) ≡ true
    → ends fails line ≡ true
unfolding ends
ends-long fails line h = ground (arith, h)

ends-tail :
    (fails : Bool) (b : ℕ) (line : List ℕ)
    → NoLf (b ∷ line)
    → ltb max_event_bytes (length (b ∷ line)) ≡ false
    → ends fails (b ∷ line) ≡ fails
unfolding ends meets_error
ends-tail fails b line n h = ground (arith, no-lf-last (b ∷ line) n, h)

-- A line with its line feed.
ends-line :
    (fails : Bool) (line : List ℕ)
    → ends fails (line ++ b'\n' ∷ []) ≡ ltb max_event_bytes (length line + 1)
unfolding ends meets_error
ends-line fails [] = ground arith
ends-line fails (b ∷ line) =
    rw (pop-snoc (b ∷ line) b'\n') (ground (arith, length-append line (b'\n' ∷ [])))

module _ {Event : Type 0} (from_slice : List ℕ → Option Event) (fails : Bool) where
  -- Line by line, until one is too long; what follows the last line feed is a line where the read
  -- did not fail after it.
  unfoldable pub heard : List (List ℕ) → List ℕ → List Event
  unfolding event_of
  heard [] tail =
      if fails || ltb max_event_bytes (length tail) then [] else event_of from_slice tail
  heard (line ∷ lines) tail =
      if ltb max_event_bytes (length line + 1)
      then []
      else event_of from_slice line ++ heard lines tail

  -- One round, by what its read left in the line and on the pipe.
  reading-round :
      (fuel : ℕ) (stream line rest : List ℕ)
      → read_until_lf (max_event_bytes + 1) stream ≡ (line, rest)
      → reading from_slice (suc fuel) fails stream ≡ (
          if ends fails line
          then some []
          else add_all from_slice (event_of from_slice line) (reading from_slice fuel fails rest))
  unfolding reading
  reading-round fuel stream line rest e = rw e refl

  reading-long :
      (fuel : ℕ) (stream : List ℕ)
      → length (read_until_lf (max_event_bytes + 1) stream).0 ≡ max_event_bytes + 1
      → reading from_slice (suc fuel) fails stream ≡ some []
  reading-long fuel stream full =
      let read = read_until_lf (max_event_bytes + 1) stream in
      rw
        (
          reading-round fuel stream read.0 read.1 refl,
          ends-long fails read.0 (ground (arith, full)),
        )
        refl

  event_of-line :
      (line : List ℕ) → event_of from_slice (line ++ b'\n' ∷ []) ≡ event_of from_slice line
  unfolding event_of
  event_of-line line = rw (strip_end-lf line) refl

  reading-end : (fuel : ℕ) → reading from_slice (suc fuel) fails [] ≡ some []
  unfolding reading
  reading-end fuel = refl

  -- The round that reads what follows the last line feed.
  last_round :
      (fuel : ℕ) (tail : List ℕ)
      → NoLf tail
      → length tail + 1 ≤ suc fuel
      → ltb max_event_bytes (length tail) ≡ false
      → (if ends fails tail
          then some []
          else add_all from_slice (event_of from_slice tail) (reading from_slice fuel fails []))
        ≡ some (heard [] tail)
  unfolding heard ends
  last_round fuel [] n h short = elim (Bool-cases fails) [ inl e ↦ rw e refl | inr e ↦ rw e refl ]
  last_round zero (b ∷ tail) n h short = absurd (omega arith)
  last_round (suc fuel) (b ∷ tail) n h short =
      rw
        (
          ends-tail fails b tail n short,
          reading-end fuel,
          short,
          append-nil (event_of from_slice (b ∷ tail)),
        )
        (ground arith)

  reading-tail :
      (fuel : ℕ) (tail : List ℕ)
      → NoLf tail
      → length tail + 1 ≤ suc fuel
      → reading from_slice (suc fuel) fails tail ≡ some (heard [] tail)
  unfolding heard
  reading-tail fuel tail n h = elim (Bool-cases (ltb max_event_bytes (length tail))) [
    | inl long ↦
        let whole =
          ap (λ s. length (read_until_lf (max_event_bytes + 1) s).0) (sym (append-nil tail)) in
        let full = whole ∙ read_until_lf-long (max_event_bytes + 1) tail [] n (ground arith) in
        rw (reading-long fuel tail full) (ground arith)
    | inr short ↦
        rw
          (reading-round fuel tail tail []
            (read_until_lf-tail (max_event_bytes + 1) tail n (ground arith)))
          (last_round fuel tail n h short)
  ]

  reading-framed :
      (fuel : ℕ) (lines : List (List ℕ)) (tail : List ℕ)
      → All NoLf lines
      → NoLf tail
      → length (framed lines tail) + 1 ≤ fuel
      → reading from_slice fuel fails (framed lines tail) ≡ some (heard lines tail)
  unfolding framed heard
  reading-framed zero lines tail ns n h = absurd (omega arith)
  reading-framed (suc fuel) [] tail ns n h = reading-tail fuel tail n h
  reading-framed (suc fuel) (line ∷ lines) tail (nl, ns) n h =
      let later = framed lines tail in
      let next =
        reading-framed fuel lines tail ns n
          (ground (arith, h, length-append line (b'\n' ∷ later))) in
      elim (Bool-cases (leb (length line) max_event_bytes)) [
        | inl fits ↦
            let read = read_until_lf-line (max_event_bytes + 1) line later nl (ground arith) in
            rw
              (
                reading-round fuel (line ++ b'\n' ∷ later) (line ++ b'\n' ∷ []) later read,
                ends-line fails line,
                event_of-line line,
                next,
              )
              (ground arith)
        | inr long ↦
            let full =
              read_until_lf-long (max_event_bytes + 1) line (b'\n' ∷ later) nl (ground arith) in
            rw (reading-long fuel (line ++ b'\n' ∷ later) full) (ground arith)
      ]

  -- Every stream is read to its end or to the line that stops it, and the events passed on are those
  -- of its lines in order, where each is stripped and decoded, until a line with its line feed is
  -- over the bound; what follows the last line feed is one more line, unless the read fails after
  -- it.
  pub read_events-heard :
      (stream : List ℕ)
      → read_events from_slice fails stream ≡ some (heard (split_lf stream).0 (split_lf stream).1)
  unfolding read_events
  read_events-heard stream =
      let (whole, ns, n) = split_lf-IsSplit stream in
      let read =
        reading-framed (length stream + 1) (split_lf stream).0 (split_lf stream).1 ns n
          (ground (arith, whole)) in
      ap (λ s. reading from_slice (length stream + 1) fails s) (sym whole) ∙ read
