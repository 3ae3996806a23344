-- ===== src/Binding/Transactions.antt =====
-- The buffered write transactions of crates/nookdb-napi/src/database.rs.
pub mod Commit
pub mod Buffer
use nookdb.Prelude.{ℕ, ◌+◌, ◌%◌, ◌^◌, Bool, Option, none, some, List, [], ◌∷◌, ◌++◌}
use nookdb.Bytes.{Bytes, bytes}
use nookdb.Collection
use nookdb.Collection.Writes.{insert_in_tx, delete_in_tx}
use nookdb.Database.{Database, write}
use nookdb.Error.{NookErrorKind, NookError, Result, ok, err, as_str}
use nookdb.Json.{Value, External}
use nookdb.Query.{QueryOptions}
use nookdb.Redb.{Redb}
use nookdb.Schema.Ir.{SchemaIr}
use nookdb.Storage.Tx.{Tx, ◌>>=◌, ◌>>◌, pure, lift}
use nookdb.Binding.{
  Settled, resolved, rejected, NapiError, Body, unknown_tx_handle, unknown_tx_handle_hint,
  of_result, map_nook_error, find_entry, insert_entry, remove_entry, update_entry, PendingOp,
  WriteTxState, JsDatabase, Call, engine_observer,
}
use nookdb.Binding.Handles.{get_db_and_schema}
use nookdb.Binding.Calls
use nookdb.Binding.Calls.{gated, stored, parse_document, parse_filter}

-- `[transaction] unknown tx handle`
abbrev pub unknown : Body → NapiError
unknown b = record { slug = bytes "transaction"; body = b }

-- `state.ops.push(…)`
abbrev pub push_op : {F : Type 0} → PendingOp → WriteTxState F → WriteTxState F
push_op op state = record state { ops = state.ops ++ op ∷ [] }

module _ {N F T : Type 0} where
  -- `fetch_add` wraps at 64 bits.
  unfoldable pub begin_write_txn : Call N F T ℕ
  begin_write_txn = gated get_db_and_schema λ h s. (
    resolved s.next_tx_id,
    record s {
      tx_states = insert_entry s.next_tx_id (record { schema = h.1; ops = [] }) s.tx_states;
      next_tx_id = (s.next_tx_id + 1) % 2 ^ 64;
    },
  )

  -- the lookup of a handle, with the call where it is there
  unfoldable pub known : {A : Type 0} → ℕ → Body → (WriteTxState F → Call N F T A) → Call N F T A
  known tx_handle b f s = elim (find_entry tx_handle s.tx_states) [
    | none ↦ (rejected (unknown b), s)
    | some state ↦ f state s
  ]

  abbrev pub push : {A : Type 0} → ℕ → PendingOp → A → WriteTxState F → Call N F T A
  push tx_handle op a state s =
      (resolved a, record s { tx_states = update_entry tx_handle (push_op op) s.tx_states })

  unfoldable pub tx_insert : ℕ → Bytes → Bytes → Call N F T (Unit {0})
  tx_insert tx_handle collection doc_json =
      known tx_handle unknown_tx_handle_hint
        (push tx_handle (PendingOp.insert collection doc_json) tt)

  unfoldable pub tx_delete_many : ℕ → Bytes → Bytes → Call N F T ℕ
  tx_delete_many tx_handle collection filter_json =
      known tx_handle unknown_tx_handle
        (push tx_handle (PendingOp.delete_many collection filter_json) 0)

  -- `remove(&tx_handle)` of the registry
  abbrev pub forget : ℕ → JsDatabase N F T → JsDatabase N F T
  forget tx_handle s = record s { tx_states = remove_entry tx_handle s.tx_states }

  unfoldable pub rollback_write_txn : ℕ → Call N F T (Unit {0})
  rollback_write_txn tx_handle =
      known tx_handle unknown_tx_handle λ state s. (resolved tt, forget tx_handle s)

  module _ (x : External N F) (r : Redb T) where
    -- one op of the replay
    unfoldable pub replay_op : Database T → SchemaIr F → PendingOp → Tx T (Unit {0})
    replay_op db schema (PendingOp.insert collection doc_json) = do
      doc ← lift (parse_document x doc_json)
      c ← lift (Collection.new schema collection)
      insert_in_tx x r c doc
    replay_op db schema (PendingOp.delete_many collection filter_json) = do
      filter ← lift (parse_filter x filter_json)
      c ← lift (Collection.new schema collection)
      delete_in_tx x r c db filter >>= λ n. pure tt

    unfoldable pub replay : Database T → SchemaIr F → List PendingOp → Tx T (Unit {0})
    unfolding replay_op
    replay db schema [] = pure tt
    replay db schema (op ∷ ops) = do replay_op db schema op; replay db schema ops

    unfoldable pub commit_write_txn : ℕ → Call N F T (Unit {0})
    commit_write_txn tx_handle = known tx_handle unknown_tx_handle_hint λ state s.
        stored (forget tx_handle s)
          (write r engine_observer s.core s.engine (replay s.core state.schema state.ops))

    -- The reads of a transaction check its handle, and see what is committed.
    module _ (from_str : Bytes → Option QueryOptions) where
      unfoldable pub tx_find : ℕ → Bytes → Bytes → Option Bytes → Call N F T (List Bytes)
      tx_find tx_handle collection filter_json options_json =
          known tx_handle unknown_tx_handle_hint
            λ state. Calls.find r x from_str collection filter_json options_json

      unfoldable pub tx_find_one : ℕ → Bytes → Bytes → Option Bytes → Call N F T (Option Bytes)
      tx_find_one tx_handle collection filter_json options_json =
          known tx_handle unknown_tx_handle_hint
            λ state. Calls.find_one r x from_str collection filter_json options_json

      unfoldable pub tx_count : ℕ → Bytes → Bytes → Option Bytes → Call N F T ℕ
      tx_count tx_handle collection filter_json options_json =
          known tx_handle unknown_tx_handle_hint
            λ state. Calls.count r x from_str collection filter_json options_json
