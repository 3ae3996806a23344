-- ===== src/Live/Worker.antt =====
-- The life of the worker thread of crates/nookdb-core/src/live.rs: the wait of `worker_loop` on the
-- condition variable, `wake_worker`, and the drop of the engine, which joins the thread. A step is one
-- access to what the threads share; the mutex of `wake` is held where the worker tests it.
pub mod Joins
use nookdb.Prelude.{Bool, true, false, not, ◌≡◌, ◌||◌, ◌&&◌}

-- Where the worker is: before the lock of a round, under the lock before a test and before the wait,
-- in the wait, woken from it, past the wait, at the work of a round, and at its end.
pub data At : Type 0 where
  unlocked testing about_to_wait waiting notified past_wait working returned : At

-- How far the drop of the engine is: not begun, after the store of `shutdown`, after the write of
-- `wake`, and after the notification, where it joins the worker.
pub data Dropping : Type 0 where
  not_yet stored wake_set joining : Dropping

pub record Threads : Type 0 where
  pub at : At
  pub wake : Bool
  pub shutdown : Bool
  pub dropping : Dropping

abbrev pub initial : Threads
initial = record { at = At.unlocked; wake = false; shutdown = false; dropping = Dropping.not_yet }

-- The worker holds the mutex of `wake`.
abbrev pub holds_lock : At → Bool
holds_lock At.testing = true
holds_lock At.about_to_wait = true
holds_lock _ = false

-- `notify_one`
abbrev pub notify_one : At → At
notify_one At.waiting = At.notified
notify_one At.unlocked = At.unlocked
notify_one At.testing = At.testing
notify_one At.about_to_wait = At.about_to_wait
notify_one At.notified = At.notified
notify_one At.past_wait = At.past_wait
notify_one At.working = At.working
notify_one At.returned = At.returned

-- The steps of the worker.
pub data WorkerStep (s : Threads) : Threads → Type 0 where
  lock : s.at ≡ At.unlocked → WorkerStep s (record s { at = At.testing })
  relock : s.at ≡ At.notified → WorkerStep s (record s { at = At.testing })
  -- `!*woke && !shutdown`
  test_waits :
      s.at ≡ At.testing
      → (not s.wake && not s.shutdown) ≡ true
      → WorkerStep s (record s { at = At.about_to_wait })
  -- the test fails, and `*woke = false`
  test_leaves :
      s.at ≡ At.testing
      → (not s.wake && not s.shutdown) ≡ false
      → WorkerStep s (record s { at = At.past_wait; wake = false })
  wait : s.at ≡ At.about_to_wait → WorkerStep s (record s { at = At.waiting })
  -- `if shutdown.load() { return }`
  returns : s.at ≡ At.past_wait → s.shutdown ≡ true → WorkerStep s (record s { at = At.returned })
  begins : s.at ≡ At.past_wait → s.shutdown ≡ false → WorkerStep s (record s { at = At.working })
  ends : s.at ≡ At.working → WorkerStep s (record s { at = At.unlocked })

-- The steps of the other threads, and a wait that ends for no reason.
pub data ThreadStep (s : Threads) : Threads → Type 0 where
  works : {t : Threads} → WorkerStep s t → ThreadStep s t
  wakes_up : s.at ≡ At.waiting → ThreadStep s (record s { at = At.notified })
  -- `wake_worker` of a commit
  commit_sets : holds_lock s.at ≡ false → ThreadStep s (record s { wake = true })
  commit_notifies : ThreadStep s (record s { at = notify_one s.at })
  -- the drop of the engine
  drop_stores :
      s.dropping ≡ Dropping.not_yet
      → ThreadStep s (record s { shutdown = true; dropping = Dropping.stored })
  drop_sets :
      s.dropping ≡ Dropping.stored
      → holds_lock s.at ≡ false
      → ThreadStep s (record s { wake = true; dropping = Dropping.wake_set })
  drop_notifies :
      s.dropping ≡ Dropping.wake_set
      → ThreadStep s (record s { at = notify_one s.at; dropping = Dropping.joining })

pub data Reachable : Threads → Type 0 where
  start : Reachable initial
  later : {s t : Threads} → Reachable s → ThreadStep s t → Reachable t
