-- ===== src/Binding/Lives.antt =====
-- `live`, `live_cancel` and `close` of crates/nookdb-napi/src/database.rs.
pub mod Closed
pub mod Detached
use nookdb.Prelude.{ℕ, ◌+◌, ◌%◌, ◌^◌, Bool, Option, none, some, List, [], ◌∷◌}
use nookdb.Bytes.{Bytes}
use nookdb.Database.{Database}
use nookdb.Error.{Result, ok, err, ◌>>=◌}
use nookdb.Json.{Value, External}
use nookdb.Live
use nookdb.Live.{LiveShared, Envelope, recompute_envelope}
use nookdb.Notify.{Notifier, ObserverHandle, drop_handle}
use nookdb.Query.{QueryOptions}
use nookdb.Query.Parse.{parse}
use nookdb.Redb.{Redb}
use nookdb.Schema.Ir.{SchemaIr}
use nookdb.Binding.{
  LiveEngine, Settled, resolved, Registry, find_entry, insert_entry, remove_entry, DbHandle,
  JsDatabase, Call,
}
use nookdb.Binding.Calls.{gated, parse_filter}
use nookdb.Binding.Handles.{get_live_engine, get_db_and_schema}

-- `live-<n>` is the number.
pub record LiveRegistration (N : Type 0) : Type 0 where
  pub subscription_id : ℕ
  pub initial : Envelope N

abbrev pub live_of : {F : Type 0} → Option (DbHandle F) → Option (LiveEngine F)
live_of none = none
live_of (some h) = h.live

-- `engine.cancel(sub)`, if the object still has its engine
abbrev pub cancel_if : {N F : Type 0} → Option (LiveEngine F) → ℕ → LiveShared N → LiveShared N
cancel_if none sub l = l
cancel_if (some e) sub l = Live.cancel sub l

module _ {N F T : Type 0} where
  unfoldable pub live_registry_insert : ℕ → ℕ → ℕ → JsDatabase N F T → JsDatabase N F T
  live_registry_insert id sub sink s = record s {
    live_subs = insert_entry id (sub, sink) s.live_subs;
  }

  unfoldable pub live_registry_remove : ℕ → JsDatabase N F T → Option (ℕ × ℕ) × JsDatabase N F T
  live_registry_remove id s =
      (find_entry id s.live_subs, record s { live_subs = remove_entry id s.live_subs })

  -- `sink.mark_closed()`
  abbrev pub mark_closed : ℕ → JsDatabase N F T → JsDatabase N F T
  mark_closed sink s = record s { closed_sinks = sink ∷ s.closed_sinks }

  abbrev pub detach : Option (ℕ × ℕ) → JsDatabase N F T → JsDatabase N F T
  detach none s = s
  detach (some (sub, sink)) s = record s {
    closed_sinks = sink ∷ s.closed_sinks;
    engine = cancel_if (live_of s.inner) sub s.engine;
  }

  unfoldable pub live_cancel : ℕ → Call N F T (Unit {0})
  unfolding live_registry_remove
  live_cancel subscription_id s =
      let (found, s') = live_registry_remove subscription_id s in (resolved tt, detach found s')

  -- the loop of `close` over the drained registry
  unfoldable pub detach_all : Registry (ℕ × ℕ) → JsDatabase N F T → JsDatabase N F T
  detach_all [] s = s
  detach_all (e ∷ subs) s =
      detach_all subs
        (record s { closed_sinks = e.1.1 ∷ s.closed_sinks; engine = Live.cancel e.1.0 s.engine })

  -- the drop of the handle: with an engine, the subscriptions are detached before it, and the engine's
  -- drop takes its observer back
  abbrev pub release : Option (LiveEngine F) → JsDatabase N F T → JsDatabase N F T
  release none s = record s { live_subs = [] }
  release (some e) s =
      let s' = detach_all s.live_subs (record s { live_subs = [] }) in
      record s' { core = record s'.core { notifier = drop_handle s'.core.notifier e.observer } }

  unfoldable pub close : Call N F T (Unit {0})
  unfolding detach_all
  close s = (resolved tt, record (release (live_of s.inner) s) { inner = none })

  module _ (x : External N F) (r : Redb T) (from_str : Bytes → Option QueryOptions) where
    -- what a registration starts from
    abbrev pub live_args :
        Bytes → Option Bytes → JsDatabase N F T → Result (SchemaIr F × Value N × QueryOptions)
    live_args filter_json options_json s = do
      engine ← get_live_engine s
      filter ← parse_filter x filter_json
      opts ← parse from_str options_json
      ok (engine.schema, filter, opts)

    -- `engine.register(…)` with its first snapshot, and the entry of the registry. The new sink
    -- has the number of the subscription.
    unfoldable pub live : Bytes → Bytes → Option Bytes → Call N F T (LiveRegistration N)
    unfolding live_registry_insert
    live collection filter_json options_json = gated (live_args filter_json options_json) λ a s. (
      resolved (record {
        subscription_id = s.live_id;
        initial = recompute_envelope x r s.core a.0 collection a.1 a.2;
      }),
      live_registry_insert s.live_id s.engine.next_id s.live_id (record s {
        engine = Live.register collection a.1 a.2 s.live_id s.engine;
        live_id = (s.live_id + 1) % 2 ^ 64;
      }),
    )
