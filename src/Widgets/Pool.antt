-- ===== src/Widgets/Pool.antt =====
-- surfaces/desktop/src/widgets/pool.rs: the warm shell windows. What happens under the pool's lock is
-- one function, and building or closing a window happens outside it. A hash map is a list that holds
-- a label once. Which webview a channel speaks to, and a JSON value, are parameters.
use text.Mathlib.Text.{◌==◌ as ◌=ˢ◌}
use scufris.Base.{
  ℕ, zero, suc, ◌+◌, ◌-◌, String, Bool, true, false, not, ◌&&◌, Option, none, some, List, [], ◌∷◌,
  ◌++◌, length, ltb, ◌==◌, if◌then◌else◌,
}
use scufris.Base.Text.{◌⋅◌, decimal}

abbrev pub warm_shells : ℕ
warm_shells = 2

-- In seconds.
abbrev pub load_patience : ℕ
load_patience = 10

-- What the chrome says of a surface, and of the backend behind it.
pub data Life : Type 0 where
  live dim pinned : Life

pub data Health : Type 0 where
  fresh stale dead : Health

pub data ShellMsg (Value : Type 0) : Type 0 where
  become : (surface widget name : String) (payload : Value) → ShellMsg Value
  update : (payload : Value) → ShellMsg Value
  life : Life → ShellMsg Value
  health : Health → ShellMsg Value
  refused : String → ShellMsg Value
  retire : ShellMsg Value

-- A map under labels.
unfoldable pub find_label {ℓ} : {V : Type ℓ} → String → List (String × V) → Option V
find_label label [] = none
find_label label ((other, v) ∷ rest) = if other =ˢ label then some v else find_label label rest

unfoldable pub remove_label {ℓ} : {V : Type ℓ} → String → List (String × V) → List (String × V)
remove_label label [] = []
remove_label label ((other, v) ∷ rest) =
    if other =ˢ label then remove_label label rest else (other, v) ∷ remove_label label rest

unfoldable pub insert_label {ℓ} : {V : Type ℓ} → String → V → List (String × V) → List (String × V)
unfolding remove_label
insert_label label v m = (label, v) ∷ remove_label label m

abbrev pub is_some {ℓ} : {V : Type ℓ} → Option V → Bool
is_some none = false
is_some (some v) = true

-- `PoolState`. A window that has no name on the display yet is named 0.
pub record PoolState (Channel : Type 0) : Type 0 where
  pub idle : List String
  pub channels : List (String × Channel)
  pub loading : List (String × ℕ)
  pub minted : ℕ
  pub named : List (String × ℕ)

-- `idle.retain(|idle| idle != label)`.
unfoldable pub without : String → List String → List String
without label [] = []
without label (other ∷ rest) =
    if other =ˢ label then without label rest else other ∷ without label rest

-- The shells that are still waited for: a page that takes too long loses its place.
unfoldable pub patient : ℕ → List (String × ℕ) → List (String × ℕ)
patient now [] = []
patient now ((label, built) ∷ rest) =
    if ltb (now - built) load_patience then (label, built) ∷ patient now rest else patient now rest

-- `format!("{}{}-{}", LABEL_PREFIX, run, minted)`.
abbrev pub label_of : String → ℕ → String
label_of run minted = "widget-" ⋅ run ⋅ "-" ⋅ decimal minted

shown_ids : List (String × ℕ) → List ℕ
shown_ids [] = []
shown_ids ((label, window) ∷ rest) = if window == 0 then shown_ids rest else window ∷ shown_ids rest

module _ {Channel : Type 0} where
  -- `PoolState::default`.
  unfoldable pub new : PoolState Channel
  new = record { idle = []; channels = []; loading = []; minted = 0; named = [] }

  -- One label more, which a page is to load under.
  unfoldable pub mint_one : String → ℕ → PoolState Channel → PoolState Channel
  unfolding insert_label
  mint_one run now s = record s {
    minted = s.minted + 1;
    loading = insert_label (label_of run (s.minted + 1)) now s.loading;
  }

  unfoldable pub mint : ℕ → String → ℕ → PoolState Channel → PoolState Channel
  mint zero run now s = s
  mint (suc short) run now s = mint short run now (mint_one run now s)

  -- The part of `Pool::warm` under the lock. The windows are built after it.
  unfoldable pub warm : String → ℕ → PoolState Channel → PoolState Channel
  unfolding patient mint
  warm run now s =
      let waited = record s { loading = patient now s.loading } in
      mint (warm_shells - (length waited.idle + length waited.loading)) run now waited

  -- A window that `Pool::warm` could not build.
  unfoldable pub unbuilt : String → PoolState Channel → PoolState Channel
  unfolding remove_label
  unbuilt label s = record s { loading = remove_label label s.loading }

  -- `Pool::ready`.
  unfoldable pub ready : String → Channel → PoolState Channel → PoolState Channel
  unfolding find_label remove_label insert_label
  ready label channel s =
      let first =
        is_some (find_label label s.loading) && not (is_some (find_label label s.channels)) in
      record s {
        loading = remove_label label s.loading;
        channels = insert_label label channel s.channels;
        idle = if first then s.idle ++ label ∷ [] else s.idle;
      }

  -- One hold of the lock in `Pool::take`: shells with no channel are dropped.
  unfoldable pub pop : List (String × Channel) → List String → Option String × List String
  unfolding find_label
  pop channels [] = (none, [])
  pop channels (label ∷ rest) =
      if is_some (find_label label channels) then (some label, rest) else pop channels rest

  unfoldable pub take : PoolState Channel → Option String × PoolState Channel
  unfolding pop
  take s = let (taken, idle) = pop s.channels s.idle in (taken, record s { idle = idle })

  -- `Pool::named`, and the name that showing a window stores there.
  unfoldable pub show : String → ℕ → PoolState Channel → PoolState Channel
  unfolding insert_label
  show label window s = record s { named = insert_label label window s.named }

  -- `Pool::shown`.
  unfoldable pub shown : PoolState Channel → List ℕ
  unfolding shown_ids
  shown s = shown_ids s.named

  hears : {Value : Type 0} → Option Channel → ShellMsg Value → Option (Channel × ShellMsg Value)
  hears none message = none
  hears (some channel) message = some (channel, message)

  -- `Pool::send`: what is sent, and to which channel.
  unfoldable pub send :
      {Value : Type 0}
      → String
      → ShellMsg Value
      → PoolState Channel
      → Option (Channel × ShellMsg Value)
  unfolding find_label hears
  send label message s = hears (find_label label s.channels) message

  -- The part of `Pool::discard` under the lock.
  unfoldable pub discard : String → PoolState Channel → PoolState Channel
  unfolding remove_label without
  discard label s = record s {
    channels = remove_label label s.channels;
    named = remove_label label s.named;
    idle = without label s.idle;
  }
