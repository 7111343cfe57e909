-- ===== src/Control/Tests.antt =====
-- The framing of shared/control/src/service.rs at a concrete message, and the cut of a text.
use scufris.Base.{ℕ, zero, suc, Option, none, some, List, [], ◌∷◌, ◌++◌, ◌≡◌, refl, arith}
use scufris.Base.Result.{ok}
use scufris.Control.Text.{bytes, truncate}
use scufris.Control.Cut.{IsCut, truncate-IsCut}
use scufris.Control.Wire.{Codec, pop, read_exact, write_message}
use scufris.Control.Framing.{RoundTrips, read_exact-write_message}

-- A JSON library that writes its one message as one byte.
abbrev encoded_letter : ℕ → Option (List ℕ)
encoded_letter zero = some (65 ∷ [])
encoded_letter (suc n) = none

abbrev letter : Codec ℕ
letter = record {
  Tree = ℕ;
  to_vec = encoded_letter;
  from_slice = λ encoded. some 0;
  version = λ tree. some 11;
  from_value = λ tree. some zero;
}

letter-RoundTrips : RoundTrips letter
unfolding pop
letter-RoundTrips zero encoded e =
    let whole : encoded ≡ 65 ∷ [] = ground arith in
    (0, refl, refl, refl, rw whole (ground arith), rw whole refl)
letter-RoundTrips (suc n) encoded e = absurd (cc)

letter-written : write_message letter "bad" 0 ≡ ok (65 ∷ b'\n' ∷ [])
unfolding write_message
letter-written = refl

read_exact-write_message_example :
    read_exact letter "bad" (λ m. ok tt) ((65 ∷ b'\n' ∷ []) ++ (66 ∷ [])) ≡ (ok 0, 66 ∷ [])
read_exact-write_message_example =
    read_exact-write_message letter "bad" (λ m. ok tt) 0 (65 ∷ b'\n' ∷ []) (66 ∷ [])
      letter-RoundTrips letter-written

-- The three bytes of the first character and one more.
abbrev first_bytes : List ℕ
first_bytes = 230 ∷ 151 ∷ 165 ∷ []

truncate-japanese : truncate "日本語" 4 ≡ first_bytes
unfolding truncate bytes
truncate-japanese = refl

truncate-IsCut_example : IsCut "日本語" 4 (truncate "日本語" 4)
truncate-IsCut_example = truncate-IsCut "日本語" 4
