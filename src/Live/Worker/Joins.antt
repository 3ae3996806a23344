-- ===== src/Live/Worker/Joins.antt =====
-- That the drop of the live engine in crates/nookdb-core/src/live.rs does not wait forever.
use nookdb.Prelude.{ℕ, ◌<◌, ◌≤◌, ◌∙◌, Bool, true, false, not, ◌≡◌, ◌&&◌, refl, ◌⊎◌, inl, inr, arith}
use nookdb.Live.Worker.{At, Dropping, Threads, WorkerStep, ThreadStep, Reachable, notify_one}

abbrev before_wait : At → Bool
before_wait At.about_to_wait = true
before_wait _ = false

abbrev blocked : At → Bool
blocked At.waiting = true
blocked _ = false

-- What holds at each point of the drop: the flag is set; the worker does not go to the wait any more;
-- it is not in the wait.
abbrev is_safe : Dropping → Bool → At → Bool
is_safe Dropping.not_yet shutdown at = true
is_safe Dropping.stored shutdown at = shutdown
is_safe Dropping.wake_set shutdown at = shutdown && not (before_wait at)
is_safe Dropping.joining shutdown at = shutdown && (not (before_wait at) && not (blocked at))

abbrev IsSafe : Threads → Type 0
IsSafe s = is_safe s.dropping s.shutdown s.at ≡ true

WorkerStep-IsSafe : {s t : Threads} → WorkerStep s t → IsSafe s → IsSafe t
WorkerStep-IsSafe {s} (WorkerStep.lock e) h = ground (arith, e)
WorkerStep-IsSafe {s} (WorkerStep.relock e) h = ground (arith, e)
WorkerStep-IsSafe {s} (WorkerStep.test_waits e b) h = ground (arith, e, b)
WorkerStep-IsSafe {s} (WorkerStep.test_leaves e b) h = ground (arith, e)
WorkerStep-IsSafe {s} (WorkerStep.wait e) h = ground (arith, e)
WorkerStep-IsSafe {s} (WorkerStep.returns e b) h = ground (arith, e)
WorkerStep-IsSafe {s} (WorkerStep.begins e b) h = ground (arith, e)
WorkerStep-IsSafe {s} (WorkerStep.ends e) h = ground (arith, e)

ThreadStep-IsSafe : {s t : Threads} → ThreadStep s t → IsSafe s → IsSafe t
ThreadStep-IsSafe {s} (ThreadStep.works w) h = WorkerStep-IsSafe w h
ThreadStep-IsSafe {s} (ThreadStep.wakes_up e) h = ground (arith, e)
ThreadStep-IsSafe {s} (ThreadStep.commit_sets f) h = h
ThreadStep-IsSafe {s} ThreadStep.commit_notifies h = ground arith
ThreadStep-IsSafe {s} (ThreadStep.drop_stores e) h = ground (arith, e)
ThreadStep-IsSafe {s} (ThreadStep.drop_sets e f) h = ground (arith, e, f)
ThreadStep-IsSafe {s} (ThreadStep.drop_notifies e) h = ground (arith, e)

Reachable-IsSafe : {s : Threads} → Reachable s → IsSafe s
Reachable-IsSafe Reachable.start = refl
Reachable-IsSafe (Reachable.later r w) = ThreadStep-IsSafe w (Reachable-IsSafe r)

-- How many steps the worker takes at most when the flag is set and it does not wait.
abbrev pub steps_left : At → ℕ
steps_left At.returned = 0
steps_left At.past_wait = 1
steps_left At.testing = 2
steps_left At.unlocked = 3
steps_left At.notified = 3
steps_left At.working = 4
steps_left At.about_to_wait = 5
steps_left At.waiting = 4

-- The worker can go on until it returns; each of its steps brings it nearer, and no step of another
-- thread takes it back, or the drop out of its join.
pub record IsEnding (s : Threads) : Type 0 where
  pub goes_on : (s.at ≡ At.returned) ⊎ ((t : Threads) × WorkerStep s t)
  pub nearer : (t : Threads) → WorkerStep s t → steps_left t.at < steps_left s.at
  pub within : steps_left s.at ≤ 4
  pub never_back :
      (t : Threads)
      → ThreadStep s t
      → (t.dropping ≡ Dropping.joining) × (steps_left t.at ≤ steps_left s.at)

goes_on_of :
    (s : Threads)
    → s.dropping ≡ Dropping.joining
    → IsSafe s
    → (at : At) → s.at ≡ at
    → (at ≡ At.returned) ⊎ ((t : Threads) × WorkerStep s t)
goes_on_of s d h At.returned e = inl refl
goes_on_of s d h At.unlocked e = inr (_, WorkerStep.lock e)
goes_on_of s d h At.notified e = inr (_, WorkerStep.relock e)
goes_on_of s d h At.testing e = inr (_, WorkerStep.test_leaves e (ground (arith, d, h)))
goes_on_of s d h At.past_wait e = inr (_, WorkerStep.returns e (ground (arith, d, h)))
goes_on_of s d h At.working e = inr (_, WorkerStep.ends e)
goes_on_of s d h At.about_to_wait e = absurd (ground (arith, d, e, h))
goes_on_of s d h At.waiting e = absurd (ground (arith, d, e, h))

nearer_of :
    {s t : Threads}
    → s.dropping ≡ Dropping.joining
    → IsSafe s
    → WorkerStep s t
    → steps_left t.at < steps_left s.at
nearer_of {s} d h (WorkerStep.lock e) = rw e (omega arith)
nearer_of {s} d h (WorkerStep.relock e) = rw e (omega arith)
nearer_of {s} d h (WorkerStep.test_waits e b) = absurd (ground (arith, d, b, h))
nearer_of {s} d h (WorkerStep.test_leaves e b) = rw e (omega arith)
nearer_of {s} d h (WorkerStep.wait e) = absurd (ground (arith, d, e, h))
nearer_of {s} d h (WorkerStep.returns e b) = rw e (omega arith)
nearer_of {s} d h (WorkerStep.begins e b) = absurd (ground (arith, d, b, h))
nearer_of {s} d h (WorkerStep.ends e) = rw e (omega arith)

within_of :
    (s : Threads)
    → s.dropping ≡ Dropping.joining
    → IsSafe s
    → (at : At) → s.at ≡ at
    → steps_left at ≤ 4
within_of s d h At.returned e = omega arith
within_of s d h At.unlocked e = omega arith
within_of s d h At.notified e = omega arith
within_of s d h At.testing e = omega arith
within_of s d h At.past_wait e = omega arith
within_of s d h At.working e = omega arith
within_of s d h At.waiting e = omega arith
within_of s d h At.about_to_wait e = absurd (ground (arith, d, e, h))

notify_one-le : (at : At) → steps_left (notify_one at) ≤ steps_left at
notify_one-le At.returned = omega arith
notify_one-le At.unlocked = omega arith
notify_one-le At.notified = omega arith
notify_one-le At.testing = omega arith
notify_one-le At.past_wait = omega arith
notify_one-le At.working = omega arith
notify_one-le At.waiting = omega arith
notify_one-le At.about_to_wait = omega arith

stays_joining : {s t : Threads} → WorkerStep s t → t.dropping ≡ s.dropping
stays_joining (WorkerStep.lock e) = refl
stays_joining (WorkerStep.relock e) = refl
stays_joining (WorkerStep.test_waits e b) = refl
stays_joining (WorkerStep.test_leaves e b) = refl
stays_joining (WorkerStep.wait e) = refl
stays_joining (WorkerStep.returns e b) = refl
stays_joining (WorkerStep.begins e b) = refl
stays_joining (WorkerStep.ends e) = refl

never_back_of :
    {s t : Threads}
    → s.dropping ≡ Dropping.joining
    → IsSafe s
    → ThreadStep s t
    → (t.dropping ≡ Dropping.joining) × (steps_left t.at ≤ steps_left s.at)
never_back_of d h (ThreadStep.works w) = (stays_joining w ∙ d, omega (arith, nearer_of d h w))
never_back_of {s} d h (ThreadStep.wakes_up e) = absurd (ground (arith, d, e, h))
never_back_of d h (ThreadStep.commit_sets f) = (d, omega arith)
never_back_of {s} d h ThreadStep.commit_notifies = (d, notify_one-le s.at)
never_back_of {s} d h (ThreadStep.drop_stores e) = absurd (ground (arith, d, e))
never_back_of {s} d h (ThreadStep.drop_sets e f) = absurd (ground (arith, d, e))
never_back_of {s} d h (ThreadStep.drop_notifies e) = absurd (ground (arith, d, e))

-- In every reachable state in which the drop of the engine joins the worker, however the accesses of
-- the threads have interleaved: the worker has returned or has a next step, each of its steps lowers
-- a count of at most four, and no step of another thread raises the count or ends the join otherwise;
-- so the worker is not lost in its wait, and returns after at most four of its own steps.
pub Reachable-IsEnding : {s : Threads} → Reachable s → s.dropping ≡ Dropping.joining → IsEnding s
Reachable-IsEnding {s} r d = record {
  goes_on = goes_on_of s d (Reachable-IsSafe r) s.at refl;
  nearer = λ t w. nearer_of d (Reachable-IsSafe r) w;
  within = within_of s d (Reachable-IsSafe r) s.at refl;
  never_back = λ t w. never_back_of d (Reachable-IsSafe r) w;
}
