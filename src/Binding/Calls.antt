-- ===== src/Binding/Calls.antt =====
-- The operations of crates/nookdb-napi/src/database.rs that are over when they return: on bytes, on
-- documents and on the migration ledger.
pub mod Names
pub mod Named
use nookdb.Prelude.{ℕ, ◌-◌, ◌^◌, min, Bool, true, false, Option, none, some, List, [], ◌∷◌, is_some}
use nookdb.Bytes.{Bytes}
use nookdb.Collection
use nookdb.Collection.Reads.{find_with, find_one_with, count_with}
use nookdb.Collection.Writes
use nookdb.Database.{Database, Outcome, read, write}
use nookdb.Error.{
  Result, ok, err, NookError, ok_or, corrupted, unserializable, bad_schema, bad_document_json,
  bad_filter_json, ◌>>=◌, ◌>>◌,
}
use nookdb.Json.{Value, External}
use nookdb.Live.{LiveShared}
use nookdb.Migrate
use nookdb.Migrate.{LedgerJson, MigrationStatus}
use nookdb.Query.{QueryOptions}
use nookdb.Query.Parse.{parse}
use nookdb.Redb.{Redb}
use nookdb.Rows.{Row}
use nookdb.Schema.Ir.{SchemaIr}
use nookdb.Storage.Read
use nookdb.Storage.Tx.{Tx}
use nookdb.Storage.Write
use nookdb.Binding.{
  Settled, rejected, of_result, settled_map, map_nook_error, JsDatabase, Call, engine_observer,
}
use nookdb.Binding.Handles.{get_db, get_db_and_schema}

-- `u32::try_from(n).unwrap_or(u32::MAX)`
unfoldable pub clamp_count : ℕ → ℕ
clamp_count n = min n (2 ^ 32 - 1)

-- `serde_json::from_str` is the reader that takes the bytes of the text, and `to_string` the writer.
module _ {N F : Type 0} (x : External N F) where
  unfoldable pub parse_document : Bytes → Result (Value N)
  parse_document doc_json = ok_or (x.from_slice doc_json) (bad_schema bad_document_json)

  unfoldable pub parse_filter : Bytes → Result (Value N)
  parse_filter filter_json = ok_or (x.from_slice filter_json) (bad_schema bad_filter_json)

  unfoldable pub value_to_json : Value N → Result Bytes
  value_to_json v = ok_or (x.to_vec v) (corrupted unserializable)

  unfoldable pub docs_to_json : List (Value N) → Result (List Bytes)
  unfolding value_to_json
  docs_to_json [] = ok []
  docs_to_json (v ∷ docs) = do s ← value_to_json v; rest ← docs_to_json docs; ok (s ∷ rest)

  -- `doc.map(value_to_json).transpose()`
  unfoldable pub doc_to_json : Option (Value N) → Result (Option Bytes)
  unfolding value_to_json
  doc_to_json none = ok none
  doc_to_json (some v) = do s ← value_to_json v; ok (some s)

module _ {N F T : Type 0} where
  -- the database and the engine as a write leaves them
  abbrev pub stored :
      {A : Type 0}
      → JsDatabase N F T
      → Result A × Database T × LiveShared N
      → Settled A × JsDatabase N F T
  stored s out = (of_result out.0, record s { core = out.1; engine = out.2 })

  -- the `?` of a getter, and the call on what it got
  unfoldable pub gated :
      {D A : Type 0} → (JsDatabase N F T → Result D) → (D → Call N F T A) → Call N F T A
  gated getter f s = elim (getter s) [ ok d ↦ f d s | err e ↦ (rejected (map_nook_error e), s) ]

  -- a call that only reads
  abbrev pub only_read :
      {D A : Type 0} → (JsDatabase N F T → Result D) → (D → Result A) → Call N F T A
  only_read getter f = gated getter λ d s. (of_result (f d), s)

  module _ (r : Redb T) where
    unfoldable pub put : Bytes → Bytes → Bytes → Call N F T (Unit {0})
    put collection key value =
        gated get_db
          λ db s. stored s (write r engine_observer db s.engine (Write.put r collection key value))

    unfoldable pub get : Bytes → Bytes → Call N F T (Option Bytes)
    get collection key = only_read get_db λ db. read r db λ tx. Read.get r tx collection key

    unfoldable pub delete : Bytes → Bytes → Call N F T Bool
    delete collection key =
        gated get_db
          λ db s. stored s (write r engine_observer db s.engine (Write.delete r collection key))

    unfoldable pub list_collection : Bytes → Call N F T (List Row)
    list_collection collection =
        only_read get_db λ db. read r db λ tx. Read.list_collection r tx collection

    module _ (j : LedgerJson) where
      unfoldable pub migrate_status : Call N F T MigrationStatus
      migrate_status = only_read get_db λ db. do
        status ← Migrate.status j r db
        ok (record status { applied_count = clamp_count status.applied_count })

      unfoldable pub migrate_run : List ℕ → Call N F T (Unit {0})
      migrate_run versions =
          gated get_db λ db s. stored s (Migrate.run j r engine_observer db s.engine versions)

      unfoldable pub migrate_list_applied : Call N F T (List ℕ)
      migrate_list_applied = only_read get_db λ db. Migrate.list_applied j r db

    module _ (x : External N F) where
      -- what a write on documents starts from
      abbrev pub typed :
          Bytes
          → Result (Value N)
          → JsDatabase N F T
          → Result (Database T × Collection.Collection F × Value N)
      typed collection parsed s = do
        h ← get_db_and_schema s
        v ← parsed
        c ← Collection.new h.1 collection
        ok (h.0, c, v)

      unfoldable pub insert : Bytes → Bytes → Call N F T (Unit {0})
      insert collection doc_json =
          gated (typed collection (parse_document x doc_json))
            λ p s. stored s (Collection.Writes.insert x r p.1 engine_observer p.0 s.engine p.2)

      abbrev pub clamped : Settled ℕ × JsDatabase N F T → Settled ℕ × JsDatabase N F T
      clamped out = (settled_map clamp_count out.0, out.1)

      unfoldable pub delete_many : Bytes → Bytes → Call N F T ℕ
      delete_many collection filter_json s = clamped (
          gated (typed collection (parse_filter x filter_json))
            (λ p s. stored s (Collection.Writes.delete x r p.1 engine_observer p.0 s.engine p.2)) s)

      module _ (from_str : Bytes → Option QueryOptions) where
        unfoldable pub find : Bytes → Bytes → Option Bytes → Call N F T (List Bytes)
        find collection filter_json options_json = only_read get_db_and_schema λ h. do
          filter ← parse_filter x filter_json
          opts ← parse from_str options_json
          c ← Collection.new h.1 collection
          docs ← find_with x r c h.0 filter opts
          docs_to_json x docs

        unfoldable pub find_one : Bytes → Bytes → Option Bytes → Call N F T (Option Bytes)
        find_one collection filter_json options_json = only_read get_db_and_schema λ h. do
          filter ← parse_filter x filter_json
          opts ← parse from_str options_json
          c ← Collection.new h.1 collection
          doc ← find_one_with x r c h.0 filter opts
          doc_to_json x doc

        unfoldable pub count : Bytes → Bytes → Option Bytes → Call N F T ℕ
        count collection filter_json options_json = only_read get_db_and_schema λ h. do
          filter ← parse_filter x filter_json
          opts ← parse from_str options_json
          c ← Collection.new h.1 collection
          n ← count_with x r c h.0 filter opts
          ok (clamp_count n)
