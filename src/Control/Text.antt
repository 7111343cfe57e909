-- ===== src/Control/Text.antt =====
-- shared/control/src/lib.rs: the bounds on identifiers and text, over the UTF-8 bytes of a string.
use Prim.Native.Char.{code}
use scufris.Base.{
  ℕ, zero, suc, ◌+◌, ◌*◌, ◌/◌, ◌%◌, take, drop, String, Bool, true, false, not, ◌&&◌, ◌||◌, List,
  [], ◌∷◌, ◌++◌, length, ltb, leb, ◌==◌, if◌then◌else◌,
}
use scufris.Base.Text.{trim, is_empty}

-- The UTF-8 encoding of one code point.
abbrev pub utf8 : ℕ → List ℕ
utf8 c =
    if ltb c 128
    then c ∷ []
    else if ltb c 2048
    then (192 + c / 64) ∷ (128 + c % 64) ∷ []
    else if ltb c 65536
    then (224 + c / 4096) ∷ (128 + c / 64 % 64) ∷ (128 + c % 64) ∷ []
    else (240 + c / 262144) ∷ (128 + c / 4096 % 64) ∷ (128 + c / 64 % 64) ∷ (128 + c % 64) ∷ []

-- `str::bytes`; `str::len` is its length.
unfoldable pub bytes : String → List ℕ
bytes String.[] = []
bytes (String.◌∷◌ c s) = utf8 (code c) ++ bytes s

-- The code points of a string, `str::chars`.
unfoldable pub codes : String → List ℕ
codes String.[] = []
codes (String.◌∷◌ c s) = code c ∷ codes s

unfoldable pub all : (ℕ → Bool) → List ℕ → Bool
all p [] = true
all p (b ∷ bs) = p b && all p bs

unfoldable pub any : (ℕ → Bool) → List ℕ → Bool
any p [] = false
any p (b ∷ bs) = p b || any p bs

-- `u8::is_ascii_alphanumeric`.
abbrev pub is_ascii_alphanumeric : ℕ → Bool
is_ascii_alphanumeric b =
    (leb b'0' b && leb b b'9') || (leb b'A' b && leb b b'Z') || (leb b'a' b && leb b b'z')

abbrev pub max_message_bytes : ℕ
max_message_bytes = 64 * 1024

abbrev pub max_identifier_length : ℕ
max_identifier_length = 64

abbrev pub max_submission_text_bytes : ℕ
max_submission_text_bytes = 8 * 1024

abbrev is_identifier_byte : ℕ → Bool
is_identifier_byte b = is_ascii_alphanumeric b || b == b'-' || b == b'_' || b == b'.'

unfoldable pub is_identifier : String → Bool
unfolding bytes all
is_identifier value =
    not (is_empty value)
    && leb (length (bytes value)) max_identifier_length
    && all is_identifier_byte (bytes value)

abbrev pub is_refused_control : ℕ → Bool
is_refused_control b = b == 0 || b == 13

unfoldable pub is_submission_text : String → Bool
unfolding bytes any trim
is_submission_text value =
    not (is_empty (trim value))
    && leb (length (bytes value)) max_submission_text_bytes
    && not (any is_refused_control (bytes value))

-- A byte of a character that is not its first one.
abbrev pub is_continuation : ℕ → Bool
is_continuation b = leb 128 b && ltb b 192

-- `str::is_char_boundary`, over the bytes of the text.
unfoldable pub is_char_boundary : List ℕ → ℕ → Bool
is_char_boundary bs zero = true
is_char_boundary bs (suc i) = elim (drop (suc i) bs) [
  | [] ↦ suc i == length bs
  | b ∷ rest ↦ not (is_continuation b)
]

-- The loop of `truncate`: the last boundary up to an end.
unfoldable pub step_back : List ℕ → ℕ → ℕ
unfolding is_char_boundary
step_back bs zero = zero
step_back bs (suc end) =
    let back = step_back bs end in if is_char_boundary bs (suc end) then suc end else back

-- The bytes of what `truncate` answers.
unfoldable pub truncate : String → ℕ → List ℕ
unfolding bytes step_back
truncate text bound =
    if leb (length (bytes text)) bound
    then bytes text
    else take (step_back (bytes text) bound) (bytes text)
