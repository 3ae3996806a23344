-- ===== src/Binding/Handles.antt =====
-- `open`, `open_with_schema` and the getters of the handle of crates/nookdb-napi/src/database.rs.
use nookdb.Prelude.{Option, none, some, List, []}
use nookdb.Bytes.{Bytes, bytes}
use nookdb.Database.{Database, add_observer}
use nookdb.Database.Opened.{Disk, open_at}
use nookdb.Error.{◌>>=◌, ◌>>◌}
use nookdb.Error.{Result, ok, is_closed, bad_schema, no_schema, no_schema_live, ok_or}
use nookdb.Live
use nookdb.Live.{LiveShared}
use nookdb.Schema.Compile.{compile}
use nookdb.Schema.Ir.{SchemaIr, RawCollection}
use nookdb.Binding.{
  LiveEngine, settled_map, Settled, resolved, rejected, database_closed, of_result, DbHandle,
  JsDatabase,
}

module _ {N F T : Type 0} where
  abbrev pub fresh_object : Database T → DbHandle F → JsDatabase N F T
  fresh_object db h = record {
    core = db;
    engine = Live.started;
    closed_sinks = [];
    inner = some h;
    live_subs = [];
    tx_states = [];
    next_tx_id = 1;
    live_id = 0;
  }

  abbrev pub bare : Database T → JsDatabase N F T
  bare db = fresh_object db (record { schema = none; live = none })

  -- `LiveEngine::new` registers the engine as an observer.
  abbrev pub bound : Database T × SchemaIr F → JsDatabase N F T
  bound (db, schema) =
      let (db', handle) = add_observer db 0 in
      fresh_object db' (record {
        schema = some schema;
        live = some (record { schema = schema; observer = handle });
      })

  -- The two `map_err`s after `spawn_blocking`, and the object.
  abbrev pub settle_open :
      {A : Type 0} → (A → JsDatabase N F T) → Result A → Settled (JsDatabase N F T)
  settle_open object r = settled_map object (of_result r)

  module _ {D : Type 0} (disk : Disk D T) where
    unfoldable pub open_bare : D → Bytes → Settled (JsDatabase N F T) × D
    open_bare d path = let (db, d') = open_at disk d path in (settle_open bare db, d')

    unfoldable pub open_with_schema :
        D
        → Bytes
        → (Bytes → Option (List (Bytes × RawCollection F)))
        → Bytes
        → Settled (JsDatabase N F T) × D
    open_with_schema d path decode schema_descriptor =
        let (opened, d') = open_at disk d path in
        (
          settle_open bound
              (do db ← opened; schema ← compile decode schema_descriptor; ok (db, schema)),
          d',
        )

  -- A getter of the handle, and what is done with what it got.
  unfoldable pub get_db : JsDatabase N F T → Result (Database T)
  get_db s = do ok_or s.inner is_closed; ok s.core

  unfoldable pub get_db_and_optional_schema :
      JsDatabase N F T → Settled (Database T × Option (SchemaIr F))
  get_db_and_optional_schema s = elim s.inner [
    | some h ↦ resolved (s.core, h.schema)
    | none ↦ rejected (record { slug = bytes "closed"; body = database_closed })
  ]

  unfoldable pub get_db_and_schema : JsDatabase N F T → Result (Database T × SchemaIr F)
  get_db_and_schema s = do
    handle ← ok_or s.inner is_closed
    schema ← ok_or handle.schema (bad_schema no_schema)
    ok (s.core, schema)

  unfoldable pub get_live_engine : JsDatabase N F T → Result (LiveEngine F)
  get_live_engine s = do
    handle ← ok_or s.inner is_closed
    ok_or handle.live (bad_schema no_schema_live)
