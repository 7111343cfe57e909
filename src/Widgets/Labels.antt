-- ===== src/Widgets/Labels.antt =====
-- The labels of the shells of surfaces/desktop/src/widgets/pool.rs, and how often each of them stands
-- in the pool.
use text.Mathlib.Text.{◌==◌ as ◌=ˢ◌}
use text.Mathlib.TextLemmas.{append_cancel_left}
use scufris.Base.{
  ℕ, zero, suc, ◌+◌, ◌-◌, ◌≤◌, ◌<◌, String, true, Option, none, some, List, [], ◌∷◌, ◌++◌, length,
  ◌≡◌, inl, inr, refl, arith, eq_iff, if◌then◌else◌, Bool-cases,
}
use scufris.Base.Text.{◌⋅◌, decimal, decimal-injective}
use scufris.Widgets.Pool.{
  PoolState, warm_shells, find_label, remove_label, insert_label, is_some, without, patient,
  label_of, mint_one, mint, warm, unbuilt, ready, pop, discard,
}

-- How often a label stands in a list.
unfoldable pub occurs : String → List String → ℕ
occurs label [] = 0
occurs label (other ∷ rest) = let n = occurs label rest in if other =ˢ label then n + 1 else n

occurs-append : (b : String) (xs ys : List String) → occurs b (xs ++ ys) ≡ occurs b xs + occurs b ys
unfolding occurs
occurs-append b [] ys = omega arith
occurs-append b (x ∷ xs) ys = ground (arith, occurs-append b xs ys)

unfoldable pub labels {ℓ} : {V : Type ℓ} → List (String × V) → List String
labels [] = []
labels ((label, v) ∷ rest) = label ∷ labels rest

module _ {V : Type 0} where
  occurs-remove_label :
      (a b : String) (m : List (String × V))
      → occurs b (labels (remove_label a m)) ≡ (if a =ˢ b then 0 else occurs b (labels m))
  unfolding occurs labels remove_label
  occurs-remove_label a b [] = ground arith
  occurs-remove_label a b ((other, v) ∷ rest) =
      ground (arith, eq_iff a b, eq_iff other a, eq_iff other b, occurs-remove_label a b rest)

  found-occurs :
      (b : String) (m : List (String × V))
      → is_some (find_label b m) ≡ true
      → 0 < occurs b (labels m)
  unfolding occurs labels find_label
  found-occurs b [] h = cc
  found-occurs b ((other, v) ∷ rest) h = ground (arith, found-occurs b rest)

occurs-patient :
    (b : String) (now : ℕ) (m : List (String × ℕ))
    → occurs b (labels (patient now m)) ≤ occurs b (labels m)
unfolding occurs labels patient
occurs-patient b now [] = omega arith
occurs-patient b now ((label, built) ∷ rest) = ground (arith, occurs-patient b now rest)

occurs-without : (a b : String) (xs : List String) → occurs b (without a xs) ≤ occurs b xs
unfolding occurs without
occurs-without a b [] = omega arith
occurs-without a b (x ∷ xs) = ground (arith, occurs-without a b xs)

label_of-injective : (run : String) (m n : ℕ) → label_of run m ≡ label_of run n → m ≡ n
label_of-injective run m n e =
    let after_prefix =
      append_cancel_left "widget-" (run ⋅ "-" ⋅ decimal m) (run ⋅ "-" ⋅ decimal n) e in
    let after_run = append_cancel_left run ("-" ⋅ decimal m) ("-" ⋅ decimal n) after_prefix in
    decimal-injective m n (append_cancel_left "-" (decimal m) (decimal n) after_run)

module _ {Channel : Type 0} where
  module _ (run : String) where
    -- Of the labels that are loading, idle and were handed out, none stands twice, and none is one
    -- that is to be minted later.
    pub record IsPool (s : PoolState Channel) (handed : List String) : Type 0 where
      pub once : (b : String) → occurs b (labels s.loading) + occurs b s.idle + occurs b handed ≤ 1
      pub later :
          (k : ℕ)
          → s.minted < k
          → occurs (label_of run k) (labels s.loading)
              + occurs (label_of run k) s.idle
              + occurs (label_of run k) handed
            ≡ 0

    mint_one-IsPool :
        (now : ℕ) (s : PoolState Channel) (handed : List String)
        → IsPool s handed
        → IsPool (mint_one run now s) handed
    unfolding mint_one insert_label occurs labels
    mint_one-IsPool now s handed v =
        let new_label = label_of run (s.minted + 1) in
        record {
          once = λ b. ground (
            arith,
            occurs-remove_label new_label b s.loading,
            v.once b,
            eq_iff new_label b,
            v.later (s.minted + 1),
          );
          later = λ k h. ground (
            arith,
            occurs-remove_label new_label (label_of run k) s.loading,
            v.later k,
            eq_iff new_label (label_of run k),
            label_of-injective run (s.minted + 1) k,
          );
        }

    mint-IsPool :
        (short now : ℕ) (s : PoolState Channel) (handed : List String)
        → IsPool s handed
        → IsPool (mint short run now s) handed
    unfolding mint
    mint-IsPool zero now s handed v = v
    mint-IsPool (suc short) now s handed v =
        mint-IsPool short now (mint_one run now s) handed (mint_one-IsPool now s handed v)

    -- Labels that stand in fewer places, while no more are minted.
    fewer-IsPool :
        (s t : PoolState Channel) (handed : List String)
        → t.minted ≡ s.minted
        → ((b : String)
            → occurs b (labels t.loading) + occurs b t.idle
              ≤ occurs b (labels s.loading) + occurs b s.idle)
        → IsPool s handed
        → IsPool t handed
    fewer-IsPool s t handed same fewer v = record {
      once = λ b. omega (arith, fewer b, v.once b);
      later = λ k h.
          let quiet = v.later k (omega (arith, h, same)) in
          omega (arith, fewer (label_of run k), quiet);
    }

    pub warm-IsPool :
        (now : ℕ) (s : PoolState Channel) (handed : List String)
        → IsPool s handed
        → IsPool (warm run now s) handed
    unfolding warm
    warm-IsPool now s handed v =
        let waited = record s { loading = patient now s.loading } in
        mint-IsPool (warm_shells - (length waited.idle + length waited.loading)) now waited handed
          (fewer-IsPool s waited handed refl (λ b. omega (arith, occurs-patient b now s.loading)) v)

    pub unbuilt-IsPool :
        (label : String) (s : PoolState Channel) (handed : List String)
        → IsPool s handed
        → IsPool (unbuilt label s) handed
    unfolding unbuilt
    unbuilt-IsPool label s handed v =
        fewer-IsPool s (unbuilt label s) handed refl
          (λ b. ground (arith, occurs-remove_label label b s.loading)) v

    pub ready-IsPool :
        (label : String) (channel : Channel) (s : PoolState Channel) (handed : List String)
        → IsPool s handed
        → IsPool (ready label channel s) handed
    unfolding ready occurs
    ready-IsPool label channel s handed v =
        fewer-IsPool s (ready label channel s) handed refl
          (λ b. ground (
            arith,
            occurs-remove_label label b s.loading,
            occurs-append b s.idle (label ∷ []),
            found-occurs label s.loading,
            eq_iff label b,
          ))
          v

    pub discard-IsPool :
        (label : String) (s : PoolState Channel) (handed : List String)
        → IsPool s handed
        → IsPool (discard label s) handed
    unfolding discard
    discard-IsPool label s handed v =
        fewer-IsPool s (discard label s) handed refl
          (λ b. omega (arith, occurs-without label b s.idle)) v

-- What a take leaves of the idle shells, with the one that it hands out.
abbrev pub handed_over : Option String → List String → List String
handed_over none handed = handed
handed_over (some label) handed = label ∷ handed

pub pop-occurs :
    {Channel : Type 0} (channels : List (String × Channel)) (b : String) (idle handed : List String)
    → occurs b (pop channels idle).1 + occurs b (handed_over (pop channels idle).0 handed)
      ≤ occurs b idle + occurs b handed
unfolding pop occurs
pop-occurs channels b [] handed = omega arith
pop-occurs channels b (label ∷ rest) handed =
    elim (Bool-cases (is_some (find_label label channels))) [
      | inl speaks ↦ rw speaks (ground arith)
      | inr mute ↦ rw mute (ground (arith, pop-occurs channels b rest handed))
    ]
