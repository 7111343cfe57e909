-- ===== src/Widgets/Turn.antt =====
-- surfaces/desktop/src/widgets/turn.rs: the lock under which widget decisions are made, and the
-- queue of the thread that waits for it in place of the event loop. Each step here is one atomic
-- operation of one thread, so that a list of steps is one order in which the threads may run.
use scufris.Base.{
  ℕ, ◌+◌, ◌-◌, Bool, true, false, ◌&&◌, Option, none, some, List, [], ◌∷◌, ◌++◌, ltb, if◌then◌else◌,
}

-- The receiver is still with `Turn`, or with the thread that works the queue, or was dropped.
pub data Staff : Type 0 where
  unstaffed working gone : Staff

-- `Turn`, with what its threads are in the middle of: the decisions that are counted and not yet
-- sent, and the one that is taken out of the queue and being made. `sent` and `made` record, in
-- order, what went into the queue and what was made out of it.
pub record Turn (T : Type 0) : Type 0 where
  pub held : Bool
  pub waiting : ℕ
  pub announced : ℕ
  pub queue : List T
  pub making : Option T
  pub worker : Staff
  pub sent : List T
  pub made : List T

module _ {T : Type 0} where
  -- `Turn::new`.
  unfoldable pub new : Turn T
  new = record {
    held = false;
    waiting = 0;
    announced = 0;
    queue = [];
    making = none;
    worker = unstaffed;
    sent = [];
    made = [];
  }

  -- `Turn::staff`: said once, a second time is ignored.
  unfoldable pub staff : Turn T → Staff → Turn T
  staff t unstaffed = record t { worker = working }
  staff t _ = t

  -- `Turn::free`: whether the event loop is given the turn.
  unfoldable pub free : Turn T → Bool × Turn T
  free t =
      if ltb 0 t.waiting
      then (false, t)
      else if t.held
      then (false, t)
      else (true, record t { held = true })

  -- `Turn::wait`, where the turn is free; a thread that finds it held has not taken this step yet.
  unfoldable pub wait : Turn T → Turn T
  wait t = record t { held = true }

  -- The guard is dropped. A panic under it leaves a turn that is taken like any other.
  unfoldable pub release : Turn T → Turn T
  release t = record t { held = false }

  -- The first half of `Turn::later`: the decision is counted.
  unfoldable pub announce : Turn T → Turn T
  announce t = record t { waiting = t.waiting + 1; announced = t.announced + 1 }

  queued : T → Turn T → Turn T
  queued one t = record t {
    announced = t.announced - 1;
    queue = t.queue ++ one ∷ [];
    sent = t.sent ++ one ∷ [];
  }

  -- The second half: it is sent, or counted back where nothing will take it.
  unfoldable pub send : T → Turn T → Staff → Bool × Turn T
  unfolding queued
  send one t gone = (false, record t { waiting = t.waiting - 1; announced = t.announced - 1 })
  send one t _ = (true, queued one t)

  -- One turn of the loop of the queue's thread: it takes the front.
  unfoldable pub take : Turn T → List T → Turn T
  take t [] = t
  take t (one ∷ rest) = record t { queue = rest; making = some one }

  -- The decision is made, and only then no longer counted.
  unfoldable pub finish : Turn T → Option T → Turn T
  finish t none = t
  finish t (some one) = record t {
    making = none;
    made = t.made ++ one ∷ [];
    waiting = t.waiting - 1;
  }

  -- Making it panics: the thread ends, and the receiver with what is in the queue goes with it.
  unfoldable pub panic : Turn T → Option T → Turn T
  panic t none = t
  panic t (some one) = record t { making = none; queue = []; worker = gone }

-- What a thread does next. The queue's thread takes a decision only between two others.
pub data Step (T : Type 0) : Type 0 where
  staffs frees waits releases announces takes finishes panics : Step T
  sends : T → Step T

abbrev pub is_working : Staff → Bool
is_working working = true
is_working _ = false

abbrev pub is_idle {ℓ} : {T : Type ℓ} → Option T → Bool
is_idle none = true
is_idle (some one) = false

module _ {T : Type 0} where
  unfoldable pub step : Turn T → Step T → Turn T
  unfolding new staff free wait release announce send take finish panic
  step t staffs = staff t t.worker
  step t frees = (free t).1
  step t waits = if t.held then t else wait t
  step t releases = release t
  step t announces = announce t
  step t (sends one) = if ltb 0 t.announced then (send one t t.worker).1 else t
  step t takes = if is_working t.worker && is_idle t.making then take t t.queue else t
  step t finishes = finish t t.making
  step t panics = panic t t.making

  unfoldable pub run : Turn T → List (Step T) → Turn T
  unfolding step
  run t [] = t
  run t (s ∷ ss) = run (step t s) ss
