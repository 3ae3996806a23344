-- ===== src/Live/Rounds.antt =====
-- About the work and the emissions of a round in crates/nookdb-core/src/live.rs.
use nookdb.Prelude.{ℕ, Bool, not, ◌&&◌, ◌||◌}
use nookdb.Database.{Database}
use nookdb.Json.{External}
use nookdb.Live.{LiveSub, is_touched}
use nookdb.Notify.{CommitEvent}
use nookdb.Redb.{Redb}
use nookdb.Schema.Ir.{SchemaIr}

module _ {N F T : Type 0} (x : External N F) (r : Redb T) (schema : SchemaIr F) (closed : ℕ → Bool)
    (there : ℕ → Bool) (seen : ℕ → Database T) where
  -- The subscriptions that hear of a commit: touched by it or dirty before, with an open sink, and
  -- still there.
  abbrev pub hears : CommitEvent → LiveSub N → Bool
  hears ev s = (is_touched ev s || s.dirty) && (not (closed s.id) && there s.id)
