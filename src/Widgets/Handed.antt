-- ===== src/Widgets/Handed.antt =====
-- Whole runs of the pool of surfaces/desktop/src/widgets/pool.rs, with the labels it hands out.
use scufris.Base.{
  ℕ, zero, suc, ◌+◌, ◌-◌, ◌≤◌, String, true, Option, List, [], ◌∷◌, length, ◌≡◌, refl, arith,
  length-append,
}
use scufris.Widgets.Pool.{
  PoolState, warm_shells, find_label, remove_label, insert_label, is_some, without, patient,
  label_of, new, mint_one, mint, warm, unbuilt, ready, pop, take, show, discard,
}
use scufris.Widgets.Labels.{
  occurs, labels, IsPool, handed_over, pop-occurs, warm-IsPool, unbuilt-IsPool, ready-IsPool,
  discard-IsPool,
}

-- What the threads do next: the parts of the operations that are under the lock.
pub data Step (Channel : Type 0) : Type 0 where
  warms : ℕ → Step Channel
  fails discards : String → Step Channel
  readies : String → Channel → Step Channel
  takes : Step Channel
  shows : String → ℕ → Step Channel

-- The pool, with the labels that were handed out.
abbrev pub Pooled : Type 0 → Type 0
Pooled Channel = PoolState Channel × List String

abbrev handing :
    {Channel : Type 0} → Option String × PoolState Channel → List String → Pooled Channel
handing (o, s) handed = (s, handed_over o handed)

length-remove_label :
    {V : Type 0} (a : String) (m : List (String × V)) → length (remove_label a m) ≤ length m
unfolding remove_label
length-remove_label a [] = omega arith
length-remove_label a ((other, v) ∷ rest) = ground (arith, length-remove_label a rest)

length-remove_label_of_found :
    {V : Type 0} (a : String) (m : List (String × V))
    → is_some (find_label a m) ≡ true
    → length (remove_label a m) + 1 ≤ length m
unfolding remove_label find_label
length-remove_label_of_found a [] h = cc
length-remove_label_of_found a ((other, v) ∷ rest) h =
    ground (arith, length-remove_label a rest, length-remove_label_of_found a rest)

length-patient : (now : ℕ) (m : List (String × ℕ)) → length (patient now m) ≤ length m
unfolding patient
length-patient now [] = omega arith
length-patient now ((label, built) ∷ rest) = ground (arith, length-patient now rest)

length-without : (a : String) (xs : List String) → length (without a xs) ≤ length xs
unfolding without
length-without a [] = omega arith
length-without a (x ∷ xs) = ground (arith, length-without a xs)

length-pop :
    {Channel : Type 0} (channels : List (String × Channel)) (idle : List String)
    → length (pop channels idle).1 ≤ length idle
unfolding pop
length-pop channels [] = omega arith
length-pop channels (label ∷ rest) = ground (arith, length-pop channels rest)

module _ {Channel : Type 0} where
  module _ (run : String) where
    unfoldable pub step : Step Channel → Pooled Channel → Pooled Channel
    step (warms now) (s, handed) = (warm run now s, handed)
    step (fails label) (s, handed) = (unbuilt label s, handed)
    step (discards label) (s, handed) = (discard label s, handed)
    step (readies label channel) (s, handed) = (ready label channel s, handed)
    step takes (s, handed) = handing (take s) handed
    step (shows label window) (s, handed) = (show label window s, handed)

    unfoldable pub run_steps : List (Step Channel) → Pooled Channel → Pooled Channel
    unfolding step
    run_steps [] x = x
    run_steps (c ∷ cs) x = run_steps cs (step c x)

    take-IsPool :
        (s : PoolState Channel) (handed : List String)
        → IsPool run s handed
        → IsPool run (take s).1 (handed_over (take s).0 handed)
    unfolding take
    take-IsPool s handed v = record {
      once = λ b. omega (arith, pop-occurs s.channels b s.idle handed, v.once b);
      later =
          λ k h. omega (arith, pop-occurs s.channels (label_of run k) s.idle handed, v.later k h);
    }

    step-IsPool :
        (c : Step Channel) (x : Pooled Channel)
        → IsPool run x.0 x.1
        → IsPool run (step c x).0 (step c x).1
    unfolding step show
    step-IsPool (warms now) (s, handed) v = warm-IsPool run now s handed v
    step-IsPool (fails label) (s, handed) v = unbuilt-IsPool run label s handed v
    step-IsPool (discards label) (s, handed) v = discard-IsPool run label s handed v
    step-IsPool (readies label channel) (s, handed) v = ready-IsPool run label channel s handed v
    step-IsPool takes (s, handed) v = take-IsPool s handed v
    step-IsPool (shows label window) (s, handed) v = record { once = v.once; later = v.later }

    run_steps-IsPool :
        (cs : List (Step Channel)) (x : Pooled Channel)
        → IsPool run x.0 x.1
        → IsPool run (run_steps cs x).0 (run_steps cs x).1
    unfolding run_steps
    run_steps-IsPool [] x v = v
    run_steps-IsPool (c ∷ cs) x v = run_steps-IsPool cs (step c x) (step-IsPool c x v)

    new-IsPool : IsPool run (new {Channel = Channel}) []
    unfolding new occurs labels
    new-IsPool = record { once = λ b. omega arith; later = λ k h. omega arith }

    -- Shells that are idle and those that the pool waits for are no more than are wanted.
    abbrev IsFew : PoolState Channel → Type 0
    IsFew s = length s.idle + length s.loading ≤ warm_shells

    mint-few :
        (short now : ℕ) (s : PoolState Channel)
        → (length (mint short run now s).idle ≡ length s.idle)
          × (length (mint short run now s).loading ≤ length s.loading + short)
    unfolding mint mint_one insert_label
    mint-few zero now s = (refl, omega arith)
    mint-few (suc short) now s =
        let t = mint_one run now s in
        let (i, l) = mint-few short now t in
        let label = label_of run (s.minted + 1) in
        (i, omega (arith, l, length-remove_label label s.loading))

    warm-IsFew : (now : ℕ) (s : PoolState Channel) → IsFew s → IsFew (warm run now s)
    unfolding warm
    warm-IsFew now s v =
        let waited = record s { loading = patient now s.loading } in
        let (i, l) =
          mint-few (warm_shells - (length waited.idle + length waited.loading)) now waited in
        omega (arith, i, l, length-patient now s.loading)

    ready-IsFew :
        (label : String) (channel : Channel) (s : PoolState Channel)
        → IsFew s
        → IsFew (ready label channel s)
    unfolding ready
    ready-IsFew label channel s v = ground (
      arith,
      length-append s.idle (label ∷ []),
      length-remove_label label s.loading,
      length-remove_label_of_found label s.loading,
    )

    step-IsFew : (c : Step Channel) (x : Pooled Channel) → IsFew x.0 → IsFew (step c x).0
    unfolding step show unbuilt discard take
    step-IsFew (warms now) (s, handed) v = warm-IsFew now s v
    step-IsFew (fails label) (s, handed) v = omega (arith, length-remove_label label s.loading)
    step-IsFew (discards label) (s, handed) v = omega (arith, length-without label s.idle)
    step-IsFew (readies label channel) (s, handed) v = ready-IsFew label channel s v
    step-IsFew takes (s, handed) v = omega (arith, length-pop s.channels s.idle)
    step-IsFew (shows label window) (s, handed) v = v

    run_steps-IsFew :
        (cs : List (Step Channel)) (x : Pooled Channel) → IsFew x.0 → IsFew (run_steps cs x).0
    unfolding run_steps
    run_steps-IsFew [] x v = v
    run_steps-IsFew (c ∷ cs) x v = run_steps-IsFew cs (step c x) (step-IsFew c x v)

    -- In whatever order the threads take the lock of the pool, and whichever windows fail to load,
    -- the count of labels not wrapping: no label is handed out twice, a label that was handed out is
    -- neither idle nor loading again, and the shells that are idle and those that the pool still waits
    -- for are no more than two together.
    pub run_steps-Once :
        (cs : List (Step Channel)) (label : String)
        → let (s, handed) = run_steps cs (new, []) in
          (occurs label handed ≤ 1)
          × (occurs label handed ≡ 1
              → (occurs label s.idle ≡ 0) × (occurs label (labels s.loading) ≡ 0))
          × (length s.idle + length s.loading ≤ warm_shells)
    unfolding new
    run_steps-Once cs label =
        let v = run_steps-IsPool cs (new, []) new-IsPool in
        (
          omega (arith, v.once label),
          (λ h. omega (arith, v.once label, h)),
          run_steps-IsFew cs (new, []) (omega arith),
        )
