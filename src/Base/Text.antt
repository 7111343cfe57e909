-- ===== src/Base/Text.antt =====
-- Text as the sources use it: a Rust `String` is a native `String`, a list of characters.
-- What is modelled here is of Rust's standard library: `str::trim` and the decimal `Display` of
-- an unsigned integer.
use Prim.Native.Nat.{ℕ, zero, suc, ◌+◌, ◌-◌, ◌*◌, ◌/◌, ◌%◌, ◌<◌}
use Prim.Native.Char.{Char, code}
use Prim.Native.String.{String}
use mathlib.Core.Path.{◌≡◌, refl, sym, ap, ◌∙◌}
use mathlib.Core.Logic.{inl, inr}
use mathlib.Core.Bool.{Bool, true, false, ◌&&◌, ◌||◌}
use native.Mathlib.Omega.{arith}
use scufris.Base.Tests.{ltb, leb, ◌==◌, if◌then◌else◌, Bool-cases}
pub use Prim.Native.String.{◌++◌ as ◌⋅◌}
use text.Mathlib.TextLemmas.{nil-append, cons-append}
use text.Mathlib.Text.{◌==◌ as ◌=ˢ◌}
use text.Mathlib.TextEquality.{eq_iff}

-- `char::is_whitespace`, the Unicode property White_Space.
abbrev pub is_whitespace : ℕ → Bool
is_whitespace c =
    (leb 9 c && leb c 13)
    || c == 32
    || c == 133
    || c == 160
    || c == 5760
    || (leb 8192 c && leb c 8202)
    || c == 8232
    || c == 8233
    || c == 8239
    || c == 8287
    || c == 12288

abbrev pub is_empty : String → Bool
is_empty String.[] = true
is_empty (String.◌∷◌ c s) = false

pub trim_start : String → String
trim_start String.[] = String.[]
trim_start (String.◌∷◌ c s) =
    let rest = trim_start s in if is_whitespace (code c) then rest else String.◌∷◌ c s

pub trim_end : String → String
trim_end String.[] = String.[]
trim_end (String.◌∷◌ c s) =
    let rest = trim_end s in
    if is_empty rest && is_whitespace (code c) then String.[] else String.◌∷◌ c rest

-- `str::trim`.
unfoldable pub trim : String → String
unfolding trim_start trim_end
trim s = trim_end (trim_start s)

digit : ℕ → Char
digit zero = "0"
digit (suc zero) = "1"
digit (suc (suc zero)) = "2"
digit (suc (suc (suc zero))) = "3"
digit (suc (suc (suc (suc zero)))) = "4"
digit (suc (suc (suc (suc (suc zero))))) = "5"
digit (suc (suc (suc (suc (suc (suc zero)))))) = "6"
digit (suc (suc (suc (suc (suc (suc (suc zero))))))) = "7"
digit (suc (suc (suc (suc (suc (suc (suc (suc zero)))))))) = "8"
digit _ = "9"

code-digit : (d : ℕ) → d < 10 → code (digit d) ≡ 48 + d
unfolding digit
code-digit zero h = refl
code-digit (suc zero) h = refl
code-digit (suc (suc zero)) h = refl
code-digit (suc (suc (suc zero))) h = refl
code-digit (suc (suc (suc (suc zero)))) h = refl
code-digit (suc (suc (suc (suc (suc zero))))) h = refl
code-digit (suc (suc (suc (suc (suc (suc zero)))))) h = refl
code-digit (suc (suc (suc (suc (suc (suc (suc zero))))))) h = refl
code-digit (suc (suc (suc (suc (suc (suc (suc (suc zero)))))))) h = refl
code-digit (suc (suc (suc (suc (suc (suc (suc (suc (suc zero))))))))) h = refl
code-digit (suc (suc (suc (suc (suc (suc (suc (suc (suc (suc n)))))))))) h = absurd (omega arith)

-- The digits of `n`, for which a fuel above `n` is enough.
digits : ℕ → ℕ → String
digits zero n = String.[]
digits (suc f) n =
    let front = digits f (n / 10) in
    if ltb n 10
    then String.◌∷◌ (digit n) String.[]
    else front ⋅ String.◌∷◌ (digit (n % 10)) String.[]

-- `format!("{n}")` of an unsigned integer.
unfoldable pub decimal : ℕ → String
unfolding digits digit
decimal n = digits (suc n) n

read : ℕ → String → ℕ
read acc String.[] = acc
read acc (String.◌∷◌ c s) = read (acc * 10 + (code c - 48)) s

read-append : (acc : ℕ) (s t : String) → read acc (s ⋅ t) ≡ read (read acc s) t
unfolding read
read-append acc String.[] t = rw nil-append
read-append acc (String.◌∷◌ c s) t = rw cons-append (read-append (acc * 10 + (code c - 48)) s t)

read-digits : (f n : ℕ) → n < f → read 0 (digits f n) ≡ n
unfolding digits read
read-digits zero n h = absurd (omega arith)
read-digits (suc f) n h = elim (Bool-cases (ltb n 10)) [
  | inl small ↦ rw small (ground (arith, code-digit n))
  | inr big ↦
      rw (big, read-append 0 (digits f (n / 10)) (String.◌∷◌ (digit (n % 10)) String.[]))
        (ground (arith, read-digits f (n / 10), code-digit (n % 10)))
]

-- Different numbers are printed differently.
pub decimal-injective : (m n : ℕ) → decimal m ≡ decimal n → m ≡ n
unfolding decimal
decimal-injective m n e =
    sym (read-digits (suc m) m (omega arith)) ∙ ap (read 0) e ∙ read-digits (suc n) n (omega arith)

pub String-discrete : Discrete String
String-discrete s t = elim (Bool-cases (s =ˢ t)) [
  | inl same ↦ yes ((eq_iff s t).0 same)
  | inr other ↦ no (λ p. cc ((eq_iff s t).1 p))
]
