-- ===== src/Examples/Lives.antt =====
-- Witnesses: live queries.
use nookdb.Live.Worker.{At, Dropping, Threads, WorkerStep, ThreadStep, Reachable, initial}
use nookdb.Live.Worker.Joins.{IsEnding, Reachable-IsEnding}
use nookdb.Prelude.{◌≡◌, ◌&&◌, not, refl, ℕ, Bool, true, false, [], ◌∷◌}
use nookdb.Bytes.{bytes}
use nookdb.Database.{Database}
use nookdb.Examples.{note_db, notes_ir}
use nookdb.Json.{null}
use nookdb.Live.{LiveSub, LiveShared, Reach, Step, started, on_commit, register}
use nookdb.Live.Progress.{CanSettle, Reach-settles}
use nookdb.Live.Wakeups.{any_dirty, is_coming, Reach-is_coming}
use nookdb.Notify.{CommitEvent, ChangeOp}
use nookdb.Query.{default}
use nookdb.Redb.Memory.{Table}
use nookdb.Schema.Ir.{SchemaIr}

abbrev event : CommitEvent
event = record {
  changes = record { collection = bytes "notes"; op = ChangeOp.insert; doc_id = bytes "a" } ∷ [];
}

abbrev watch_notes : LiveSub ℕ
watch_notes = record {
  id = 0;
  collection = bytes "notes";
  filter_doc = null;
  options = default;
  sink = 5;
  dirty = false;
}

abbrev schema : SchemaIr ℕ
schema = record { collections = (bytes "notes", notes_ir) ∷ [] }

-- a subscription and then a commit that touches it
abbrev marked : LiveShared ℕ
marked = on_commit event (register (bytes "notes") null default 5 started)

marked-Reach : Reach marked
marked-Reach =
    Reach.later (Reach.later Reach.start (Step.subscribe (bytes "notes") null default 5))
      (Step.commit event)

Reach-is_coming_example : (any_dirty marked.subs && not (is_coming marked)) ≡ false
Reach-is_coming_example = Reach-is_coming marked-Reach

abbrev open_sinks : ℕ → Bool
open_sinks id = false

abbrev registered : ℕ → Bool
registered id = true

abbrev seen : ℕ → Database Table
seen id = note_db

Reach-settles_example : CanSettle marked
Reach-settles_example = Reach-settles marked-Reach

-- The worker goes to its wait, and then the engine is dropped.
waiting-Reachable : Reachable (record initial { at = At.waiting })
waiting-Reachable =
    Reachable.later
      (Reachable.later (Reachable.later Reachable.start (ThreadStep.works (WorkerStep.lock refl)))
        (ThreadStep.works (WorkerStep.test_waits refl refl)))
      (ThreadStep.works (WorkerStep.wait refl))

abbrev dropped : Threads
dropped = record { at = At.notified; wake = true; shutdown = true; dropping = Dropping.joining }

dropped-Reachable : Reachable dropped
dropped-Reachable =
    Reachable.later
      (Reachable.later (Reachable.later waiting-Reachable (ThreadStep.drop_stores refl))
        (ThreadStep.drop_sets refl refl))
      (ThreadStep.drop_notifies refl)

Reachable-IsEnding_example : IsEnding dropped
Reachable-IsEnding_example = Reachable-IsEnding dropped-Reachable refl
