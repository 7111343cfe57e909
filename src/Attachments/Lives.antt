-- ===== src/Attachments/Lives.antt =====
-- Whole lives of the store of host/service/src/attachment.rs: any puts, imports and resolutions, in
-- the order in which they take its lock, whatever each of them meets.
use scufris.Base.{ℕ, String, Bool, Option, List, [], ◌∷◌}
use scufris.Attachments.{Record, Store, Host}
use scufris.Attachments.Puts.{Putting, Source, put, import_path}
use scufris.Attachments.Reads.{resolve}
use scufris.Attachments.Backed.{IsWhole}
use scufris.Attachments.Outcomes.{ReadsBack, Fresh}
use scufris.Attachments.Stored.{put-IsWhole, import_path-IsWhole}
use scufris.Attachments.Referred.{resolve-IsWhole}

-- One call, with what it meets.
pub data Call : Type 0 where
  puts : Putting → String → String → List ℕ → Call
  imports : Putting → Source → String → Call
  resolves : List String → Bool → Call

unfoldable pub step : Host → Call → Store → Store
step host (puts m name media_type bytes) s = (put host m name media_type bytes s).1
step host (imports m source media_type) s = (import_path host m source media_type s).1
step host (resolves ids referenced) s = (resolve host ids referenced s).1

unfoldable pub run : List (Host × Call) → Store → Store
unfolding step
run [] s = s
run ((host, c) ∷ cs) s = run cs (step host c s)

-- The identifier that a call draws is not in use.
abbrev pub Draws : Call → Store → Type 0
Draws (puts m name media_type bytes) s = Fresh m.new_id s
Draws (imports m source media_type) s = Fresh m.new_id s
Draws (resolves ids referenced) s = Unit

-- Throughout a run no identifier is drawn twice, and the JSON library reads back what it wrote.
abbrev pub Documented : (List ℕ → Option Record) → List (Host × Call) → Store → Type 0
Documented from_slice [] s = Unit
Documented from_slice ((host, c) ∷ cs) s =
    ReadsBack from_slice host × Draws c s × Documented from_slice cs (step host c s)

module _ (from_slice : List ℕ → Option Record) where
  step-IsWhole :
      (host : Host) (c : Call) (s : Store)
      → ReadsBack from_slice host
      → Draws c s
      → IsWhole from_slice s
      → IsWhole from_slice (step host c s)
  unfolding step
  step-IsWhole host (puts m name media_type bytes) s back fresh v =
      put-IsWhole from_slice host m name media_type bytes s back fresh v
  step-IsWhole host (imports m source media_type) s back fresh v =
      import_path-IsWhole from_slice host m source media_type s back fresh v
  step-IsWhole host (resolves ids referenced) s back fresh v =
      resolve-IsWhole from_slice host ids referenced s back v

  pub run-IsWhole :
      (cs : List (Host × Call)) (s : Store)
      → Documented from_slice cs s
      → IsWhole from_slice s
      → IsWhole from_slice (run cs s)
  unfolding run
  run-IsWhole [] s g v = v
  run-IsWhole ((host, c) ∷ cs) s (back, fresh, g) v =
      run-IsWhole cs (step host c s) g (step-IsWhole host c s back fresh v)
