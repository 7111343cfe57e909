-- ===== src/Attachments/Ranges.antt =====
-- host/service/src/attachment.rs: the byte range a request asks for, `requested_range`, with
-- `str::parse::<u64>` of Rust's standard library.
use scufris.Base.{
  ℕ, ◌+◌, ◌-◌, ◌*◌, ◌^◌, ◌&&◌, String, Option, none, some, List, [], ◌∷◌, ltb, leb, ◌==◌,
  if◌then◌else◌,
}
use scufris.Base.Result.{Result, ok, err}
use scufris.Control.Text.{codes, any}
use scufris.Control.Message.{split_once}

-- The value of decimal digits after `acc`, and none where one is no digit or 64 bits are too few.
unfoldable pub parse_digits : ℕ → List ℕ → Option ℕ
parse_digits acc [] = some acc
parse_digits acc (c ∷ cs) =
    let next = acc * 10 + (c - b'0') in
    if leb b'0' c && leb c b'9' && ltb next (2 ^ 64) then parse_digits next cs else none

-- `str::parse::<u64>`: a plus sign may stand before the digits.
unfoldable pub parse_u64 : List ℕ → Option ℕ
unfolding parse_digits
parse_u64 [] = none
parse_u64 (c ∷ []) = parse_digits 0 (c ∷ [])
parse_u64 (c ∷ d ∷ ds) = if c == b'+' then parse_digits 0 (d ∷ ds) else parse_digits 0 (c ∷ d ∷ ds)

-- `str::strip_prefix`.
unfoldable pub strip_prefix : List ℕ → List ℕ → Option (List ℕ)
strip_prefix [] cs = some cs
strip_prefix (p ∷ ps) [] = none
strip_prefix (p ∷ ps) (c ∷ cs) = if c == p then strip_prefix ps cs else none

-- `Ok(None)` is the whole content, `Err(())` a range that the content does not have.
abbrev pub Ranged : Type 0
Ranged = Result (Unit {0}) (Option (ℕ × ℕ))

-- `bytes=-n`, the last `n` bytes.
unfoldable pub suffix_range : ℕ → Option ℕ → Ranged
suffix_range size none = err tt
suffix_range size (some suffix) =
    if suffix == 0 then err tt else ok (some (size - suffix, size - 1))

abbrev min : ℕ → ℕ → ℕ
min a b = if leb a b then a else b

-- Where the range ends, the last byte included.
unfoldable pub last_of : ℕ → List ℕ → Option ℕ
unfolding parse_u64
last_of size [] = some (size - 1)
last_of size (c ∷ cs) = elim (parse_u64 (c ∷ cs)) [
  | none ↦ none
  | some end ↦ some (min end (size - 1))
]

unfoldable pub ending_at : ℕ → Option ℕ → Ranged
ending_at start none = err tt
ending_at start (some end) = if ltb end start then err tt else ok (some (start, end))

unfoldable pub from_range : ℕ → List ℕ → Option ℕ → Ranged
unfolding last_of ending_at
from_range size end none = err tt
from_range size end (some start) =
    if leb size start then err tt else ending_at start (last_of size end)

unfoldable pub split_range : ℕ → Option (List ℕ × List ℕ) → Ranged
unfolding suffix_range from_range parse_u64
split_range size none = err tt
split_range size (some ([], end)) = suffix_range size (parse_u64 end)
split_range size (some (c ∷ cs, end)) = from_range size end (parse_u64 (c ∷ cs))

-- What follows `bytes=`.
unfoldable pub range_of : ℕ → Option (List ℕ) → Ranged
unfolding split_range split_once any
range_of size none = err tt
range_of size (some []) = err tt
range_of size (some (c ∷ cs)) =
    if any (λ b. b == b',') (c ∷ cs) then err tt else split_range size (split_once b'-' (c ∷ cs))

-- The values of the header in a request, each of them text or not.
unfoldable pub requested_range : List (Option String) → ℕ → Ranged
unfolding range_of strip_prefix codes
requested_range [] size = ok none
requested_range (none ∷ []) size = err tt
requested_range (some value ∷ []) size = range_of size (strip_prefix (codes "bytes=") (codes value))
requested_range (value ∷ other ∷ more) size = err tt
