-- ===== src/Control/Lines.antt =====
-- The lines of a stream, as host/service/src/service.rs and shared/control/src/lib.rs read them up to
-- a line feed.
use scufris.Base.{
  ℕ, zero, suc, ◌≤◌, false, List, [], ◌∷◌, ◌++◌, length, ◌==◌, if◌then◌else◌, ◌≡◌, refl, ap, arith,
  All, Bool-cases, inl, inr,
}
use scufris.Control.Wire.{read_until_lf}
use scufris.Control.Framing.{NoLf}

abbrev grown : ℕ → List (List ℕ) → List ℕ → List (List ℕ) × List ℕ
grown b [] tail = ([], b ∷ tail)
grown b (line ∷ lines) tail = ((b ∷ line) ∷ lines, tail)

-- The lines without their line feeds, and what follows the last line feed.
unfoldable pub split_lf : List ℕ → List (List ℕ) × List ℕ
split_lf [] = ([], [])
split_lf (b ∷ stream) =
    let (lines, tail) = split_lf stream in
    if b == b'\n' then ([] ∷ lines, tail) else grown b lines tail

unfoldable pub framed : List (List ℕ) → List ℕ → List ℕ
framed [] tail = tail
framed (line ∷ lines) tail = line ++ b'\n' ∷ framed lines tail

abbrev pub IsSplit : List ℕ → List (List ℕ) × List ℕ → Type 0
IsSplit stream (lines, tail) = (framed lines tail ≡ stream) × All NoLf lines × NoLf tail

grown-IsSplit :
    (b : ℕ) (stream : List ℕ) (lines : List (List ℕ)) (tail : List ℕ)
    → (b == b'\n') ≡ false
    → IsSplit stream (lines, tail)
    → IsSplit (b ∷ stream) (grown b lines tail)
unfolding framed
grown-IsSplit b stream [] tail other (e, ns, n) = (ap (λ s. b ∷ s) e, tt, (other, n))
grown-IsSplit b stream (line ∷ lines) tail other (e, (nl, ns), n) =
    (ap (λ s. b ∷ s) e, ((other, nl), ns), n)

pub split_lf-IsSplit : (stream : List ℕ) → IsSplit stream (split_lf stream)
unfolding framed split_lf
split_lf-IsSplit [] = (refl, tt, tt)
split_lf-IsSplit (b ∷ stream) =
    let (e, ns, n) = split_lf-IsSplit stream in
    elim (Bool-cases (b == b'\n')) [
      | inl lf ↦
          let same : b ≡ b'\n' = ground (arith, lf) in
          (rw (lf) (ground (arith, e, same)), rw lf (tt, ns), rw lf n)
      | inr other ↦ rw other (grown-IsSplit b stream _ _ other (e, ns, n))
    ]

pub read_until_lf-tail :
    (room : ℕ) (tail : List ℕ)
    → NoLf tail
    → length tail ≤ room
    → read_until_lf room tail ≡ (tail, [])
unfolding read_until_lf
read_until_lf-tail zero [] n h = refl
read_until_lf-tail zero (b ∷ tail) n h = absurd (omega arith)
read_until_lf-tail (suc room) [] n h = refl
read_until_lf-tail (suc room) (b ∷ tail) (nb, n) h =
    rw (nb, read_until_lf-tail room tail n (omega arith)) refl

-- A line that is longer than the room fills it.
pub read_until_lf-long :
    (room : ℕ) (line rest : List ℕ)
    → NoLf line
    → room ≤ length line
    → length (read_until_lf room (line ++ rest)).0 ≡ room
unfolding read_until_lf
read_until_lf-long zero line rest n h = refl
read_until_lf-long (suc room) [] rest n h = absurd (omega arith)
read_until_lf-long (suc room) (b ∷ line) rest (nb, n) h =
    rw (nb) (ap suc (read_until_lf-long room line rest n (omega arith)))
