-- ===== src/Control/Wire.antt =====
-- shared/control/src/lib.rs and the readers of shared/control/src/service.rs: one bounded message to
-- a line. A transport is the bytes that are still to come; what `serde_json` decodes is a parameter.
use scufris.Base.{
  ℕ, zero, suc, ◌+◌, ◌%◌, ◌^◌, String, Bool, false, not, ◌||◌, Option, none, some, List, [], ◌∷◌,
  ◌++◌, length, ltb, ◌==◌, if◌then◌else◌,
}
use scufris.Base.Result.{Result, ok, err, ◌>>=◌, ◌>>◌}
use scufris.Control.Text.{max_message_bytes}
use scufris.Control.Message.{
  MessageError, empty, too_large, missing_terminator, invalid_json, unsupported_version, Checked,
}

abbrev pub service_version : ℕ
service_version = 11

-- `read_until(b'\n', ..)` over a reader that hands out at most `room` bytes: what it read, and what
-- is left on the transport.
unfoldable pub read_until_lf : ℕ → List ℕ → List ℕ × List ℕ
read_until_lf zero stream = ([], stream)
read_until_lf (suc room) [] = ([], [])
read_until_lf (suc room) (b ∷ stream) =
    let (line, rest) = read_until_lf room stream in
    if b == b'\n' then (b ∷ [], stream) else (b ∷ line, rest)

-- `bytes.pop()`, and what stays.
unfoldable pub pop : List ℕ → Option (ℕ × List ℕ)
pop [] = none
pop (b ∷ bs) = elim (pop bs) [ none ↦ some (b, []) | some (last, front) ↦ some (last, b ∷ front) ]

abbrev pub ends_in_cr : Option (ℕ × List ℕ) → Bool
ends_in_cr none = false
ends_in_cr (some (last, front)) = last == b'\r'

unfoldable pub without_lf : Option (ℕ × List ℕ) → Result MessageError (List ℕ)
unfolding pop
without_lf none = err missing_terminator
without_lf (some (last, front)) =
    if not (last == b'\n') || ends_in_cr (pop front) then err missing_terminator else ok front

-- What `read_line` makes of the bytes that it read.
unfoldable pub checked_line : List ℕ → Result MessageError (List ℕ)
unfolding without_lf pop
checked_line [] = err empty
checked_line (b ∷ bs) =
    if ltb max_message_bytes (length (b ∷ bs)) then err too_large else without_lf (pop (b ∷ bs))

unfoldable pub read_line : List ℕ → Result MessageError (List ℕ) × List ℕ
unfolding read_until_lf checked_line
read_line stream =
    let (line, rest) = read_until_lf (max_message_bytes + 1) stream in (checked_line line, rest)

-- `serde_json`, as one channel uses it: a JSON value, its field `v` as a `u64`, and a message.
pub record Codec (Message : Type 0) : Type 1 where
  pub Tree : Type 0
  pub to_vec : Message → Option (List ℕ)
  pub from_slice : List ℕ → Option Tree
  pub version : Tree → Option ℕ
  pub from_value : Tree → Option Message

module _ {Message : Type 0} (codec : Codec Message) (reason : String) where
  open codec use {Tree, to_vec, from_slice, version, from_value}

  abbrev or_invalid {ℓ} : {A : Type ℓ} → Option A → Result MessageError A
  or_invalid none = err (invalid_json reason)
  or_invalid (some a) = ok a

  abbrev pub version_or_zero : Option ℕ → ℕ
  version_or_zero none = 0
  version_or_zero (some v) = v % 2 ^ 32

  unfoldable pub decode : (Message → Checked) → List ℕ → Result MessageError Message
  decode validate line = do
    value ← or_invalid (from_slice line)
    if not (version_or_zero (version value) == service_version)
        then err (unsupported_version (version_or_zero (version value)))
        else (do message ← or_invalid (from_value value); validate message; ok message)

  unfoldable pub read_exact : (Message → Checked) → List ℕ → Result MessageError Message × List ℕ
  unfolding read_line decode
  read_exact validate stream =
      let (line, rest) = read_line stream in (line >>= decode validate, rest)

  unfoldable pub write_bounded : Option (List ℕ) → Result MessageError (List ℕ)
  write_bounded none = err (invalid_json reason)
  write_bounded (some bytes) =
      if ltb max_message_bytes (length bytes + 1) then err too_large else ok (bytes ++ b'\n' ∷ [])

  -- The bytes that `write_message` puts on the transport.
  unfoldable pub write_message : Message → Result MessageError (List ℕ)
  unfolding write_bounded
  write_message message = write_bounded (to_vec message)
