-- ===== src/Control/Cut.antt =====
-- What `truncate` of shared/control/src/lib.rs keeps of a text.
use Prim.Native.Char.{code}
use scufris.Base.{
  ℕ, zero, suc, ◌+◌, ◌-◌, ◌≤◌, String, Bool, true, false, not, List, [], ◌∷◌, ◌++◌, length, take,
  drop, All, ltb, leb, ◌==◌, if◌then◌else◌, ◌≡◌, refl, ap, ◌∙◌, arith, Bool-cases, inl, inr,
  length-append,
}
use scufris.Control.Text.{utf8, bytes, is_continuation, is_char_boundary, step_back, truncate}

-- The longest run of whole characters from the front that fits in so many bytes.
unfoldable pub fitting : ℕ → String → String
fitting bound String.[] = String.[]
fitting bound (String.◌∷◌ c s) =
    let rest = fitting (bound - length (utf8 (code c))) s in
    if leb (length (utf8 (code c))) bound then String.◌∷◌ c rest else String.[]

abbrev Starts : List ℕ → Type 0
Starts [] = Unit
Starts (b ∷ bs) = is_continuation b ≡ false

-- The bytes of one character.
abbrev IsUnit : List ℕ → Type 0
IsUnit [] = ⊥
IsUnit (b ∷ cs) = (is_continuation b ≡ false) × All (λ c. is_continuation c ≡ true) cs

utf8-IsUnit : (c : ℕ) → IsUnit (utf8 c)
utf8-IsUnit c = elim (Bool-cases (ltb c 128)) [
  | inl one ↦ rw one (ground arith, tt)
  | inr more ↦ elim (Bool-cases (ltb c 2048)) [
    | inl two ↦ rw (more, two) (ground arith, (ground arith, tt))
    | inr more' ↦ elim (Bool-cases (ltb c 65536)) [
      | inl three ↦ rw (more, more', three) (ground arith, (ground arith, (ground arith, tt)))
      | inr four ↦
          rw (more, more', four) (ground arith, (ground arith, (ground arith, (ground arith, tt))))
    ]
  ]
]

bytes-Starts : (text : String) → Starts (bytes text)
unfolding bytes
bytes-Starts String.[] = tt
bytes-Starts (String.◌∷◌ c s) = first (utf8 (code c)) (utf8-IsUnit (code c))
  where
    first : (u : List ℕ) → IsUnit u → Starts (u ++ bytes s)
    first [] h = absurd h
    first (b ∷ cs) (h, _) = h

-- A byte in front moves every boundary but the first by one.
is_char_boundary-cons :
    (b : ℕ) (bs : List ℕ) (i : ℕ)
    → is_char_boundary (b ∷ bs) (suc (suc i)) ≡ is_char_boundary bs (suc i)
unfolding is_char_boundary
is_char_boundary-cons b bs i = same (drop (suc i) bs)
  where
    same :
        (rest : List ℕ)
        → elim rest as (λ x. Bool) [
          | [] ↦ suc (suc i) == suc (length bs)
          | c ∷ cs ↦ not (is_continuation c)
        ]
          ≡ elim rest as (λ x. Bool) [ [] ↦ suc i == length bs | c ∷ cs ↦ not (is_continuation c) ]
    same [] = ground arith
    same (c ∷ cs) = refl

is_char_boundary-append :
    (cs bs : List ℕ) (i n : ℕ)
    → n ≡ length cs + suc i
    → is_char_boundary (cs ++ bs) n ≡ is_char_boundary bs (suc i)
is_char_boundary-append [] bs i n e =
    let same : n ≡ suc i = omega (arith, e) in ap (is_char_boundary bs) same
is_char_boundary-append (c ∷ cs) bs i zero e = absurd (omega (arith, e))
is_char_boundary-append (c ∷ cs) bs i (suc zero) e = absurd (omega (arith, e))
is_char_boundary-append (c ∷ cs) bs i (suc (suc n)) e =
    is_char_boundary-cons c (cs ++ bs) n
    ∙ is_char_boundary-append cs bs i (suc n) (omega (arith, e))

-- There is no boundary inside a character, and one after it.
inside :
    (b : ℕ) (cs bs : List ℕ) (i : ℕ)
    → All (λ c. is_continuation c ≡ true) cs
    → suc i ≤ length cs
    → is_char_boundary (b ∷ cs ++ bs) (suc i) ≡ false
unfolding is_char_boundary
inside b [] bs i h k = absurd (omega arith)
inside b (c ∷ cs) bs zero (h, hs) k = rw h refl
inside b (c ∷ cs) bs (suc i) (h, hs) k =
    is_char_boundary-cons b (c ∷ cs ++ bs) i ∙ inside c cs bs i hs (omega (arith, k))

behind :
    (b : ℕ) (cs bs : List ℕ) → Starts bs → is_char_boundary (b ∷ cs ++ bs) (suc (length cs)) ≡ true
unfolding is_char_boundary
behind b [] [] h = refl
behind b [] (c ∷ bs) h = rw h refl
behind b (c ∷ cs) bs h = is_char_boundary-cons b (c ∷ cs ++ bs) (length cs) ∙ behind c cs bs h

step_back-round :
    (bs : List ℕ) (end : ℕ) (boundary : Bool)
    → is_char_boundary bs (suc end) ≡ boundary
    → step_back bs (suc end) ≡ (if boundary then suc end else step_back bs end)
unfolding step_back
step_back-round bs end boundary e = ap (λ b. if b then suc end else step_back bs end) e

step_back-zero : (bs : List ℕ) → step_back bs 0 ≡ 0
unfolding step_back
step_back-zero bs = refl

step_back-inside :
    (b : ℕ) (cs bs : List ℕ) (n : ℕ)
    → All (λ c. is_continuation c ≡ true) cs
    → n ≤ length cs
    → step_back (b ∷ cs ++ bs) n ≡ 0
unfolding step_back
step_back-inside b cs bs zero h k = refl
step_back-inside b cs bs (suc i) h k =
    step_back-round (b ∷ cs ++ bs) i false (inside b cs bs i h k)
    ∙ step_back-inside b cs bs i h (omega (arith, k))

step_back-behind :
    (b : ℕ) (cs bs : List ℕ) (k : ℕ)
    → Starts bs
    → step_back (b ∷ cs ++ bs) (suc (length cs + k)) ≡ suc (length cs) + step_back bs k
step_back-behind b cs bs zero s =
    let same : length cs + 0 ≡ length cs = omega arith in
    rw (same) (
      step_back-round (b ∷ cs ++ bs) (length cs) true (behind b cs bs s)
      ∙ omega (arith, step_back-zero bs))
step_back-behind b cs bs (suc k) s =
    let boundary =
      is_char_boundary-append (b ∷ cs) bs k (suc (suc (length cs + k))) (omega arith) in
    let shift =
      step_back-round (b ∷ cs ++ bs) (suc (length cs + k)) (is_char_boundary bs (suc k)) boundary in
    let own = step_back-round bs k (is_char_boundary bs (suc k)) refl in
    ground (arith, shift, own, step_back-behind b cs bs k s)

-- The loop over a text that begins with the character `u`.
step_back-unit :
    (u bs : List ℕ) (n : ℕ)
    → IsUnit u
    → Starts bs
    → step_back (u ++ bs) n
      ≡ (if leb (length u) n then length u + step_back bs (n - length u) else 0)
step_back-unit [] bs n h s = absurd h
step_back-unit (b ∷ cs) bs n (_, hs) s = elim (Bool-cases (leb (length (b ∷ cs)) n)) [
  | inl fits ↦
      let whole : n ≡ suc (length cs + (n - length (b ∷ cs))) = ground arith in
      let rest = n - length (b ∷ cs) in
      rw fits (ap (step_back (b ∷ cs ++ bs)) whole ∙ step_back-behind b cs bs rest s)
  | inr over ↦ rw over (step_back-inside b cs bs n hs (ground arith))
]

take-append : (u bs : List ℕ) (k n : ℕ) → n ≡ length u + k → take n (u ++ bs) ≡ u ++ take k bs
take-append [] bs k n e = let same : n ≡ k = omega (arith, e) in ap (λ n. take n bs) same
take-append (b ∷ cs) bs k zero e = absurd (omega (arith, e))
take-append (b ∷ cs) bs k (suc n) e = ap (◌∷◌ b) (take-append cs bs k n (omega (arith, e)))

take-unit :
    (u bs : List ℕ) (n : ℕ)
    → IsUnit u
    → Starts bs
    → take (step_back (u ++ bs) n) (u ++ bs)
      ≡ (if leb (length u) n then u ++ take (step_back bs (n - length u)) bs else [])
take-unit u bs n h s = elim (Bool-cases (leb (length u) n)) [
  | inl fits ↦
      let rest = step_back bs (n - length u) in
      rw (step_back-unit u bs n h s, fits) (take-append u bs rest (length u + rest) refl)
  | inr over ↦ rw (step_back-unit u bs n h s, over) refl
]

-- What the loop keeps is what fits.
take-fitting :
    (text : String) (bound : ℕ)
    → bound ≤ length (bytes text)
    → take (step_back (bytes text) bound) (bytes text) ≡ bytes (fitting bound text)
unfolding fitting bytes step_back
take-fitting String.[] zero h = refl
take-fitting String.[] (suc n) h = absurd (omega (arith, h))
take-fitting (String.◌∷◌ c s) bound h =
    let u = utf8 (code c) in
    take-unit u (bytes s) bound (utf8-IsUnit (code c)) (bytes-Starts s)
    ∙ elim (Bool-cases (leb (length u) bound)) [
      | inl fits ↦
          let small : bound - length u ≤ length (bytes s) =
            ground (arith, h, length-append u (bytes s)) in
          rw fits (ap (λ bs. u ++ bs) (take-fitting s (bound - length u) small))
      | inr over ↦ rw over refl
    ]

fitting-whole :
    (text : String) (bound : ℕ) → length (bytes text) ≤ bound → fitting bound text ≡ text
unfolding fitting bytes
fitting-whole String.[] bound h = refl
fitting-whole (String.◌∷◌ c s) bound h =
    let u = utf8 (code c) in
    let sum = length-append u (bytes s) in
    let fits : leb (length u) bound ≡ true = ground (arith, h, sum) in
    let rest : length (bytes s) ≤ bound - length u = ground (arith, h, sum) in
    rw fits (ap (String.◌∷◌ c) (fitting-whole s (bound - length u) rest))

length-fitting : (text : String) (bound : ℕ) → length (bytes (fitting bound text)) ≤ bound
unfolding fitting bytes
length-fitting String.[] bound = omega arith
length-fitting (String.◌∷◌ c s) bound =
    let u = utf8 (code c) in
    let rest = fitting (bound - length u) s in
    elim (Bool-cases (leb (length u) bound)) [
      | inl fits ↦
          rw fits
            (ground (arith, length-append u (bytes rest), length-fitting s (bound - length u)))
      | inr over ↦ rw over (omega arith)
    ]

abbrev pub IsCut : String → ℕ → List ℕ → Type 0
IsCut text bound cut = (cut ≡ bytes (fitting bound text)) × (length cut ≤ bound)

-- A text is shortened to the run of whole characters from its front that the bound has room for,
-- which is the whole text where that fits, and never to more bytes than the bound.
pub truncate-IsCut : (text : String) (bound : ℕ) → IsCut text bound (truncate text bound)
unfolding truncate
truncate-IsCut text bound = elim (Bool-cases (leb (length (bytes text)) bound)) [
  | inl fits ↦ rw (fits, fitting-whole text bound (ground arith)) (refl, ground arith)
  | inr over ↦ rw (over, take-fitting text bound (ground arith)) (refl, length-fitting text bound)
]
