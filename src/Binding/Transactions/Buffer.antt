-- ===== src/Binding/Transactions/Buffer.antt =====
-- About the buffer of a write transaction of crates/nookdb-napi/src/database.rs.
use nookdb.Prelude.{
  inl, inr, ◌+◌, ◌%◌, ◌^◌, ℕ, ◌≡◌, ◌∙◌, refl, ap, Option, some, List, [], ◌∷◌, ◌++◌, append_assoc,
  append-nil, arith,
}
use nookdb.Bytes.{Bytes}
use nookdb.Database.{Database, write}
use nookdb.Error.{Result-cases, Result, ok}
use nookdb.Json.{External}
use nookdb.Query.{QueryOptions}
use nookdb.Redb.{Redb}
use nookdb.Schema.Ir.{SchemaIr}
use nookdb.Binding.{
  update_entry, insert_entry, resolved, of_result, find_entry, JsDatabase, PendingOp, WriteTxState,
  engine_observer,
}
use nookdb.Binding.Calls
use nookdb.Binding.Entries.{find-insert, find-update}
use nookdb.Binding.Handles.{get_db_and_schema}
use nookdb.Binding.Calls.{gated}
use nookdb.Binding.Transactions.{
  known, push_op, begin_write_txn, tx_insert, tx_delete_many, tx_find, replay, commit_write_txn,
}
use nookdb.Binding.Transactions.Commit.{commit_known}

module _ {N F T : Type 0} where
  -- The call that buffers an op, and the calls for a list of ops.
  abbrev pub send : ℕ → PendingOp → JsDatabase N F T → JsDatabase N F T
  send h (PendingOp.insert c d) s = (tx_insert h c d s).1
  send h (PendingOp.delete_many c d) s = (tx_delete_many h c d s).1

  abbrev pub send_all : ℕ → List PendingOp → JsDatabase N F T → JsDatabase N F T
  send_all h [] s = s
  send_all h (op ∷ ops) s = send_all h ops (send h op s)

  -- `s` is `base` with a transaction `h` that has buffered `ops`.
  record Holds (base : JsDatabase N F T) (h : ℕ) (schema : SchemaIr F) (ops : List PendingOp)
      (s : JsDatabase N F T) : Type 0 where
    found : find_entry h s.tx_states ≡ some (record { schema = schema; ops = ops })
    same_core : s.core ≡ base.core
    same_engine : s.engine ≡ base.engine
    same_inner : s.inner ≡ base.inner

  sent :
      (base : JsDatabase N F T) (h : ℕ) (schema : SchemaIr F) (ops : List PendingOp)
      (op : PendingOp) (s : JsDatabase N F T)
      → Holds base h schema ops s
      → Holds base h schema
          (ops ++ op ∷ [])
          (record s { tx_states = update_entry h (push_op op) s.tx_states })
  sent base h schema ops op s k = record {
    found = find-update h (push_op op) (record { schema = schema; ops = ops }) s.tx_states k.found;
    same_core = k.same_core;
    same_engine = k.same_engine;
    same_inner = k.same_inner;
  }

  send_lem :
      (h : ℕ) (op : PendingOp) (state : WriteTxState F) (s : JsDatabase N F T)
      → find_entry h s.tx_states ≡ some state
      → send h op s ≡ record s { tx_states = update_entry h (push_op op) s.tx_states }
  unfolding tx_insert tx_delete_many known
  send_lem h (PendingOp.insert c d) state s e = ground (arith, e)
  send_lem h (PendingOp.delete_many c d) state s e = ground (arith, e)

  send-Holds :
      (base : JsDatabase N F T) (h : ℕ) (schema : SchemaIr F) (ops : List PendingOp)
      (op : PendingOp) (s : JsDatabase N F T)
      → Holds base h schema ops s
      → Holds base h schema (ops ++ op ∷ []) (send h op s)
  send-Holds base h schema ops op s k =
      rw (send_lem h op (record { schema = schema; ops = ops }) s k.found)
        (sent base h schema ops op s k)

  send_all-Holds :
      (base : JsDatabase N F T) (h : ℕ) (schema : SchemaIr F) (ops more : List PendingOp)
      (s : JsDatabase N F T)
      → Holds base h schema ops s
      → Holds base h schema (ops ++ more) (send_all h more s)
  send_all-Holds base h schema ops [] s k = rw (append-nil ops) k
  send_all-Holds base h schema ops (op ∷ more) s k = rw (append_assoc ops (op ∷ []) more) at (
      send_all-Holds base h schema (ops ++ op ∷ []) more (send h op s)
        (send-Holds base h schema ops op s k))

  begin_lem :
      (s : JsDatabase N F T) (db : Database T) (schema : SchemaIr F)
      → get_db_and_schema s ≡ ok (db, schema)
      → begin_write_txn s ≡ (
        resolved s.next_tx_id,
        record s {
          tx_states = insert_entry s.next_tx_id (record { schema = schema; ops = [] }) s.tx_states;
          next_tx_id = (s.next_tx_id + 1) % 2 ^ 64;
        },
      )
  unfolding begin_write_txn gated
  begin_lem s db schema e = ground (arith, e)

  begin-Holds :
      (s : JsDatabase N F T) (db : Database T) (schema : SchemaIr F)
      → get_db_and_schema s ≡ ok (db, schema)
      → Holds s s.next_tx_id schema [] (begin_write_txn s).1
  begin-Holds s db schema e = rw (begin_lem s db schema e) (record {
    found = find-insert s.next_tx_id (record { schema = schema; ops = [] }) s.tx_states;
    same_core = refl;
    same_engine = refl;
    same_inner = refl;
  })

  same_gate :
      (s t : JsDatabase N F T)
      → t.core ≡ s.core
      → t.inner ≡ s.inner
      → get_db_and_schema t ≡ get_db_and_schema s
  unfolding get_db_and_schema
  same_gate s t e i = rw (e, i) refl

  only_read-same :
      {D A : Type 0} (getter : JsDatabase N F T → Result D) (f : D → Result A)
      (s t : JsDatabase N F T)
      → getter t ≡ getter s
      → (Calls.only_read getter f t).0 ≡ (Calls.only_read getter f s).0
  unfolding gated
  only_read-same getter f s t e = elim (Result-cases (getter s)) [
    | inl (d, k) ↦ ground (arith, e, k)
    | inr (y, k) ↦ ground (arith, e, k)
  ]

  module _ (x : External N F) (r : Redb T) where
    held_commit :
        (base : JsDatabase N F T) (h : ℕ) (schema : SchemaIr F) (ops : List PendingOp)
        (t : JsDatabase N F T)
        → Holds base h schema ops t
        → (let out =
              write r engine_observer base.core base.engine (replay x r base.core schema ops) in
            ((commit_write_txn x r h t).0 ≡ of_result out.0)
            × ((commit_write_txn x r h t).1.core ≡ out.1)
            × ((commit_write_txn x r h t).1.engine ≡ out.2))
    held_commit base h schema ops t k =
        rw
          (
            commit_known x r h t (record { schema = schema; ops = ops }) k.found,
            k.same_core,
            k.same_engine,
          )
          (refl, refl, refl)

    -- A transaction on an object with a schema does what one write does: the handle that `begin`
    -- gives takes any list of inserts and deletions, and its commit has the result, the database
    -- and the marked live queries of a single write that runs these ops in their order.
    pub commit-begin :
        (s : JsDatabase N F T) (db : Database T) (schema : SchemaIr F) (ops : List PendingOp)
        → get_db_and_schema s ≡ ok (db, schema)
        → (let h = s.next_tx_id in
            let t = send_all h ops (begin_write_txn s).1 in
            let out = write r engine_observer s.core s.engine (replay x r s.core schema ops) in
            ((begin_write_txn s).0 ≡ resolved h)
            × ((commit_write_txn x r h t).0 ≡ of_result out.0)
            × ((commit_write_txn x r h t).1.core ≡ out.1)
            × ((commit_write_txn x r h t).1.engine ≡ out.2))
    commit-begin s db schema ops e =
        let done = held_commit s s.next_tx_id schema ops _ (
          send_all-Holds s s.next_tx_id schema [] ops (begin_write_txn s).1
            (begin-Holds s db schema e)) in
        (ap (λ p. p.0) (begin_lem s db schema e), done.0, done.1, done.2)

    module _ (from_str : Bytes → Option QueryOptions) (c f : Bytes) (o : Option Bytes) where
      tx_find_known :
          (h : ℕ) (t : JsDatabase N F T) (state : WriteTxState F)
          → find_entry h t.tx_states ≡ some state
          → tx_find x r from_str h c f o t ≡ Calls.find r x from_str c f o t
      unfolding tx_find known
      tx_find_known h t state e = ground (arith, e)

      find-same :
          (s t : JsDatabase N F T)
          → get_db_and_schema t ≡ get_db_and_schema s
          → (Calls.find r x from_str c f o t).0 ≡ (Calls.find r x from_str c f o s).0
      unfolding Calls.find
      find-same s t e = only_read-same get_db_and_schema _ s t e

      -- Before its commit a transaction shows nothing of its ops: a `txFind` on its handle answers
      -- what a `find` answered before the transaction began, and neither the core database nor a
      -- live query has changed.
      pub tx_find-find :
          (s : JsDatabase N F T) (db : Database T) (schema : SchemaIr F) (ops : List PendingOp)
          → get_db_and_schema s ≡ ok (db, schema)
          → (let h = s.next_tx_id in
              let t = send_all h ops (begin_write_txn s).1 in
              ((tx_find x r from_str h c f o t).0 ≡ (Calls.find r x from_str c f o s).0)
              × (t.core ≡ s.core)
              × (t.engine ≡ s.engine))
      tx_find-find s db schema ops e =
          let k =
            send_all-Holds s s.next_tx_id schema [] ops (begin_write_txn s).1
              (begin-Holds s db schema e) in
          let t = send_all s.next_tx_id ops (begin_write_txn s).1 in
          (
            ap (λ p. p.0)
                  (tx_find_known s.next_tx_id t (record { schema = schema; ops = ops }) k.found)
                ∙ find-same s t (same_gate s t k.same_core k.same_inner),
            k.same_core,
            k.same_engine,
          )
