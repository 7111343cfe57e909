-- ===== src/Control/Framing.antt =====
-- What a reader of shared/control/src/service.rs gets of what a writer of shared/control/src/lib.rs
-- put on the transport.
use scufris.Base.{
  ℕ, zero, suc, ◌+◌, ◌≤◌, String, false, Option, none, some, List, [], ◌∷◌, ◌++◌, length, All, ltb,
  ◌==◌, ◌≡◌, refl, arith, Bool-cases, inl, inr, ap, ◌∙◌, length-append, append_assoc,
}
use scufris.Base.Result.{Result, ok, ◌>>=◌, ◌>>◌}
use scufris.Control.Text.{max_message_bytes}
use scufris.Control.Message.{MessageError, Checked}
use scufris.Control.Wire.{
  read_until_lf, pop, without_lf, checked_line, ends_in_cr, read_line, Codec, decode, read_exact,
  write_bounded, write_message, service_version,
}

abbrev pub NoLf : List ℕ → Type 0
NoLf bytes = All (λ b. (b == b'\n') ≡ false) bytes

pub read_until_lf-line :
    (room : ℕ) (line rest : List ℕ)
    → NoLf line
    → length line + 1 ≤ room
    → read_until_lf room (line ++ b'\n' ∷ rest) ≡ (line ++ b'\n' ∷ [], rest)
unfolding read_until_lf
read_until_lf-line zero line rest n h = absurd (omega arith)
read_until_lf-line (suc room) [] rest n h = refl
read_until_lf-line (suc room) (b ∷ line) rest (nb, n) h =
    rw (nb, read_until_lf-line room line rest n (omega arith)) refl

pub pop-snoc : (line : List ℕ) (b : ℕ) → pop (line ++ b ∷ []) ≡ some (b, line)
unfolding pop
pop-snoc [] b = refl
pop-snoc (a ∷ line) b = rw (pop-snoc line b) refl

checked_line-snoc :
    (line : List ℕ)
    → length line + 1 ≤ max_message_bytes
    → ends_in_cr (pop line) ≡ false
    → checked_line (line ++ b'\n' ∷ []) ≡ ok line
unfolding checked_line without_lf
checked_line-snoc [] h c = refl
checked_line-snoc (a ∷ line) h c =
    let small : ltb max_message_bytes (suc (length (line ++ b'\n' ∷ []))) ≡ false =
      ground (arith, length-append line (b'\n' ∷ [])) in
    rw (small, pop-snoc line b'\n', c) refl

-- Documented behaviour of `serde_json`: a message that was encoded reads back as itself, with its
-- version as a numeric field; and an encoding has no line feed in it and ends in no carriage
-- return.
abbrev pub RoundTrips : {Message : Type 0} → Codec Message → Type 0
RoundTrips {Message} codec =
    (m : Message) (encoded : List ℕ)
    → codec.to_vec m ≡ some encoded
    → (tree : codec.Tree) × (codec.from_slice encoded ≡ some tree)
      × (codec.version tree ≡ some service_version)
      × (codec.from_value tree ≡ some m)
      × NoLf encoded
      × (ends_in_cr (pop encoded) ≡ false)

module _ {Message : Type 0} (codec : Codec Message) (reason : String) where
  read_line-line :
      (line rest : List ℕ)
      → NoLf line
      → length line + 1 ≤ max_message_bytes
      → ends_in_cr (pop line) ≡ false
      → read_line (line ++ b'\n' ∷ rest) ≡ (ok line, rest)
  unfolding read_line
  read_line-line line rest n h c =
      rw
        (
          read_until_lf-line (max_message_bytes + 1) line rest n (omega (arith, h)),
          checked_line-snoc line h c,
        )
        refl

  write_bounded-line :
      (o : Option (List ℕ)) (sent : List ℕ)
      → write_bounded codec reason o ≡ ok sent
      → (encoded : List ℕ) × (o ≡ some encoded)
        × (length encoded + 1 ≤ max_message_bytes)
        × (sent ≡ encoded ++ b'\n' ∷ [])
  unfolding write_bounded
  write_bounded-line none sent e = absurd (cc)
  write_bounded-line (some encoded) sent e = (encoded, refl, ground arith, ground arith)

  -- What one end wrote, the other end reads as that message, checked by the reader's own
  -- validator, and it leaves exactly what comes after it on the transport; if the JSON library
  -- reads back what it wrote and writes no line feed and no carriage return at the end.
  pub read_exact-write_message :
      (validate : Message → Checked) (m : Message) (sent rest : List ℕ)
      → RoundTrips codec
      → write_message codec reason m ≡ ok sent
      → read_exact codec reason validate (sent ++ rest) ≡ (validate m >> ok m, rest)
  unfolding read_exact write_message decode
  read_exact-write_message validate m sent rest trips written =
      let (encoded, e, small, whole) = write_bounded-line (codec.to_vec m) sent written in
      let (tree, parsed, version, value, lines, cr) = trips m encoded e in
      let read : read_line (sent ++ rest) ≡ (ok encoded, rest) =
        rw (whole, append_assoc encoded (b'\n' ∷ []) rest)
          (read_line-line encoded rest lines small cr) in
      let decoded : decode codec reason validate encoded ≡ (validate m >> ok m) =
        rw (parsed, version, value) refl in
      ap (λ p. (p.0 >>= decode codec reason validate, p.1)) read ∙ ap (λ r. (r, rest)) decoded

pub length-read_until_lf :
    (room : ℕ) (stream : List ℕ) → length (read_until_lf room stream).0 ≤ room
unfolding read_until_lf
length-read_until_lf zero stream = omega arith
length-read_until_lf (suc room) [] = omega arith
length-read_until_lf (suc room) (b ∷ stream) = ground (arith, length-read_until_lf room stream)

read_until_lf-append :
    (room : ℕ) (stream : List ℕ)
    → (read_until_lf room stream).0 ++ (read_until_lf room stream).1 ≡ stream
unfolding read_until_lf
read_until_lf-append zero stream = refl
read_until_lf-append (suc room) [] = refl
read_until_lf-append (suc room) (b ∷ stream) = elim (Bool-cases (b == b'\n')) [
  | inl lf ↦ rw lf refl
  | inr other ↦ rw (other, read_until_lf-append room stream) refl
]

-- A reader takes no more than one message and its line feed off the transport, and loses none of
-- what it leaves.
abbrev pub TakesOne : List ℕ → Result MessageError (List ℕ) × List ℕ → Type 0
TakesOne stream (r, rest) =
    (taken : List ℕ) × (length taken ≤ max_message_bytes + 1) × (taken ++ rest ≡ stream)

read_line-TakesOne : (stream : List ℕ) → TakesOne stream (read_line stream)
unfolding read_line
read_line-TakesOne stream = (
  (read_until_lf (max_message_bytes + 1) stream).0,
  length-read_until_lf (max_message_bytes + 1) stream,
  read_until_lf-append (max_message_bytes + 1) stream,
)
