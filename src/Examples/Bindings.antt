-- ===== src/Examples/Bindings.antt =====
-- Witnesses: the object that JavaScript holds.
use nookdb.Prelude.{◌≢◌, ℕ, ◌≡◌, refl, true, All, Option, none, some, List, [], ◌∷◌, arith}
use nookdb.Bytes.{Bytes, bytes}
use nookdb.Bytes.Utf8.{is_utf8}
use nookdb.Database.{Database, write, add_observer}
use nookdb.Database.Atomic.{view}
use nookdb.Error.{ok, err, bad_schema, unknown_collection}
use nookdb.Examples.{plain, note_db, notes_ir, notes-IsName}
use nookdb.Examples.Backups.{sum}
use nookdb.Examples.Checks.{one_place}
use nookdb.Examples.Files.{disk, digest}
use nookdb.Examples.Ledger.{plain_json}
use nookdb.Live.{Envelope}
use nookdb.Notify
use nookdb.Notify.Delivery.{member}
use nookdb.Query.{QueryOptions}
use nookdb.Redb.Memory.{Table, memory, memory-IsLawful}
use nookdb.Schema.Ir.{SchemaIr}
use nookdb.Storage.Pure.{table_rows}
use nookdb.Binding.{
  JsDatabase, PendingOp, LiveEngine, resolved, rejected, map_nook_error, of_result, find_entry,
  insert_entry, engine_observer,
}
use nookdb.Binding.Calls
use nookdb.Binding.Calls.Names.{list_collection_names, names_onto}
use nookdb.Binding.Calls.Named.{has_row, list_collection_names-member}
use nookdb.Binding.Handles.{bound, get_db_and_schema}
use nookdb.Binding.Lives.{live, live_cancel, close, live_of}
use nookdb.Binding.Lives.Closed.{IsShut, close-IsShut}
use nookdb.Binding.Lives.Detached.{IsSilent, subs_with, close-IsSilent, live_cancel-IsSilent}
use nookdb.Binding.Sinks.{received, transported}
use nookdb.Binding.Steps.{Reach, Step, reach-fresh}
use nookdb.Binding.Transactions.{
  begin_write_txn, commit_write_txn, rollback_write_txn, replay, tx_find,
}
use nookdb.Binding.Transactions.Buffer.{send_all, commit-begin, tx_find-find}
use nookdb.Binding.Transactions.Commit.{Refuses, commit-Refuses, commit-rollback}

abbrev schema : SchemaIr ℕ
schema = record { collections = (bytes "notes", notes_ir) ∷ [] }

abbrev core : Database Table
core = record note_db { notifier = Notify.new }

abbrev object : JsDatabase ℕ ℕ Table
object = bound (core, schema)

abbrev no_options : Bytes → Option QueryOptions
no_options s = none

abbrev ops : List PendingOp
ops = PendingOp.insert (bytes "notes") (bytes "b") ∷ []

abbrev bad_ops : List PendingOp
bad_ops = PendingOp.insert (bytes "x") [] ∷ []

object-schema : get_db_and_schema object ≡ ok (object.core, schema)
unfolding get_db_and_schema
object-schema = refl

commit-begin_example :
    (let t = send_all 1 ops (begin_write_txn object).1 in
      let out =
        write memory engine_observer object.core object.engine
          (replay plain memory object.core schema ops) in
      ((begin_write_txn object).0 ≡ resolved 1)
      × ((commit_write_txn plain memory 1 t).0 ≡ of_result out.0)
      × ((commit_write_txn plain memory 1 t).1.core ≡ out.1)
      × ((commit_write_txn plain memory 1 t).1.engine ≡ out.2))
commit-begin_example = commit-begin plain memory object object.core schema ops object-schema

tx_find-find_example :
    (let t = send_all 1 ops (begin_write_txn object).1 in
      ((tx_find plain memory no_options 1 (bytes "notes") (bytes "a") none t).0
        ≡ (Calls.find memory plain no_options (bytes "notes") (bytes "a") none object).0)
      × (t.core ≡ object.core)
      × (t.engine ≡ object.engine))
tx_find-find_example =
    tx_find-find plain memory no_options (bytes "notes") (bytes "a") none object object.core schema
      ops object-schema

commit-Refuses_example :
    Refuses plain memory no_options 1 (commit_write_txn plain memory 1 (begin_write_txn object).1).1
    × Refuses plain memory no_options 1 (rollback_write_txn 1 (begin_write_txn object).1).1
commit-Refuses_example = commit-Refuses plain memory no_options 1 (begin_write_txn object).1

-- its op is on a collection that is not there
abbrev bad_object : JsDatabase ℕ ℕ Table
bad_object = send_all 1 bad_ops (begin_write_txn object).1

bad_commit :
    (commit_write_txn plain memory 1 bad_object).0
    ≡ rejected (map_nook_error (bad_schema (unknown_collection (bytes "x"))))
unfolding commit_write_txn nookdb.Binding.Transactions.known find_entry
    nookdb.Binding.Transactions.tx_insert begin_write_txn Calls.gated get_db_and_schema
    nookdb.Binding.insert_entry nookdb.Binding.update_entry write nookdb.Storage.Write.new
    add_observer replay Calls.parse_document nookdb.Collection.new nookdb.Schema.Ir.collection
    nookdb.Bytes.beq map_nook_error nookdb.Error.kind nookdb.Error.as_str
bad_commit = refl

commit-rollback_example :
    ((commit_write_txn plain memory 1 bad_object).1.core ≡ bad_object.core)
    × ((commit_write_txn plain memory 1 bad_object).1.engine ≡ bad_object.engine)
commit-rollback_example =
    commit-rollback plain memory 1 bad_object
      (map_nook_error (bad_schema (unknown_collection (bytes "x")))) bad_commit

abbrev begun : JsDatabase ℕ ℕ Table
begun = (begin_write_txn object).1

begun-Reach : Reach plain memory plain_json no_options disk sum digest one_place 1 begun
begun-Reach = Reach.later (Reach.opened_with_schema core schema) Step.begins

reach-fresh_example : find_entry begun.next_tx_id begun.tx_states ≡ none
reach-fresh_example =
    reach-fresh plain memory plain_json no_options disk sum digest one_place 1 begun begun-Reach
      (omega arith)

abbrev living : JsDatabase ℕ ℕ Table
living = (live plain memory no_options (bytes "notes") (bytes "a") none object).1

close-IsShut_example :
    IsShut plain memory plain_json no_options (close living).1 × ((close living).1.live_subs ≡ [])
close-IsShut_example = close-IsShut plain memory plain_json no_options living

abbrev engine : LiveEngine ℕ
engine = record { schema = schema; observer = (add_observer core 0).1 }

living-engine : live_of living.inner ≡ some engine
unfolding live Calls.gated nookdb.Binding.Handles.get_live_engine Calls.parse_filter
    nookdb.Query.Parse.parse
living-engine = refl

close-IsSilent_example : All (λ entry. IsSilent entry.1 (close living).1) living.live_subs
close-IsSilent_example = close-IsSilent living engine living-engine

living-entry : find_entry 0 living.live_subs ≡ some (0, 0)
unfolding live Calls.gated nookdb.Binding.Handles.get_live_engine Calls.parse_filter
    nookdb.Query.Parse.parse find_entry insert_entry
living-entry = refl

live_cancel-IsSilent_example :
    IsSilent (0, 0) (live_cancel 0 living).1
    × ((other : ℕ)
        → other ≢ 0
        → subs_with other (live_cancel 0 living).1.engine ≡ subs_with other living.engine)
    × ((other : ℕ)
        → other ≢ 0
        → (es : List (ℕ × Envelope ℕ))
        → received other (transported (live_cancel 0 living).1.closed_sinks es)
          ≡ received other (transported living.closed_sinks es))
live_cancel-IsSilent_example = live_cancel-IsSilent living engine 0 0 0 living-engine living-entry

notes_utf8 : is_utf8 (bytes "notes") ≡ true
unfolding nookdb.Bytes.Utf8.utf8_from
notes_utf8 = refl

list_collection_names-member_example :
    (let names = names_onto [] (table_rows memory memory-IsLawful object.core.store.entries) in
      ((list_collection_names memory object).0 ≡ resolved names)
      × (member (bytes "notes") names
          ≡ has_row (view memory memory-IsLawful object.core (bytes "notes"))))
list_collection_names-member_example =
    list_collection_names-member memory memory-IsLawful object (bytes "notes") refl notes-IsName
      notes_utf8
