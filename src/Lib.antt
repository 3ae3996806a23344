-- ===== src/Lib.antt =====
-- The core of NookDB (crates/nookdb-core), an embedded document database over the table engine redb,
-- and its object for JavaScript (crates/nookdb-napi).
--
-- Parts and files. Paths are below crates/nookdb-core/src, but for the last part.
--   * error.rs: Error (kinds, errors, `Result`).
--   * codec/mod.rs: Codec (the composite keys `collection 0 key`), Codec/Keys.
--   * storage.rs: Storage/Tx (the two transaction handles), Storage/Read and Storage/Write (their
--     operations), Storage/Pure (what each does over a lawful engine), Storage/Within (reads of
--     what the same transaction wrote).
--   * database.rs: Database (`read`, `write`, `add_observer`), Database/Atomic,
--     Database/Bytewise, Database/Opened (`open`, over the disk).
--   * notify.rs: Notify (the registry of observers), Notify/Delivery.
--   * schema/ir.rs: Schema/Ir (the types), Schema/Compile (`SchemaIr::compile`), Schema/WellFormed,
--     Schema/Hash (`schema_hash`), Schema/Hash/Code, Schema/Hash/Injective.
--   * schema/validate.rs: Schema/Validate, Schema/Meaning (what the fields mean), Schema/Accepted.
--   * codec/doc.rs: Doc (`encode_document`, `decode_document`), Doc/RoundTrip.
--   * index/engine.rs: Index (index keys and equality lookup), Index/Exact, Index/Lookup,
--     Index/Distinct.
--   * query.rs: Query (sort, offset and limit), Query/Parse (`QueryOptions::parse`), Query/Page,
--     Query/Sorts (what is relied on of the standard sort), Query/Order.
--   * collection.rs: Collection, Collection/Filter (`matches`), Collection/Reads, Collection/Writes,
--     and what is proved of them in Collection/Counting, Matched, Rejects and Inserted. ByScan,
--     Indexed and Planned are about the three ways to find candidates; Indexed says what the index must
--     hold, and Kept, Consistent, Removed and Deleted that `insert` and `delete` keep it so; Unique
--     is about the unique indexes, Isolated about the other collections, History about any history
--     of calls, and Overwritten about an insert under an id that is taken.
--   * migrate.rs: Migrate (the runner over the version ledger), Migrate/Merged, Migrate/Runs.
--   * live.rs: Live (subscriptions, the critical sections as a step relation, a round of the worker),
--     Live/Wakeups, Live/Progress, Live/Rounds, and Live/Worker (the worker's wait and its shutdown)
--     with Live/Worker/Joins.
--   * license_verify.rs: License (`verify`), License/Accepted.
--   * backup.rs: Backup (the wrapped writer and reader), Backup/Words (big-endian words),
--     Backup/Format (header, entries, sentinel and footer), Backup/Copy (`write_backup` and
--     `read_backup`). Backup/Format/Reads and Backup/Format/Writes have the rules for a reader and a
--     writer of a known piece of the stream; Backup/Copy/Stream and Received are about whole streams,
--     RoundTrip and Refused about the two operations. Backup/Files has `backup_to_path` and
--     `restore_from_path` over a `FileSystem`, with Kept and Atomic about them.
--   * crates/nookdb-napi/src/database.rs, error.rs and live.rs: Binding (the state of the object, its
--     registries and errors), Binding/Handles (`open`, `open_with_schema` and the getters),
--     Binding/Calls (the calls on bytes, documents and the ledger), Binding/Calls/Names
--     (`list_collection_names`), Binding/Transactions (begin, buffered ops, commit, rollback, and reads
--     in between), Binding/Lives (`live`, `live_cancel`, `close`), Binding/Sinks (`TsfnSink`), Binding/Backups (`backup`,
--     `restore`, with the structs of backup.rs of that crate), Binding/Steps (the object as a state
--     machine of its calls that change it; `backup` changes the disk only).
-- Prelude, Bytes and Rows are shared: tests and lists over the native numbers, byte strings with
-- their order, and sorted rows, the abstract content of a table. Examples holds the witnesses.
--
-- How the parts interact. A collection operation validates and encodes a document, and hands one
-- closure to `Database::write`; the closure works on a write transaction through Storage and Index,
-- and the transaction records the changes that `write` dispatches after the commit. A read opens the
-- committed tables. In the model a write transaction is a record of its two tables and its changes; a
-- closure is a function from it to a result with the next transaction, and stops at the first error.
-- `Database.write` threads the database and a world that the observers may change.
--
-- Code that is not in the repository is a parameter. `Redb` is the engine, each call of which may
-- fail; `IsLawful` is the documented behaviour of its tables while no fault occurs, and Redb/Memory
-- satisfies it. A failed commit leaves the tables of before, and so does a dropped or aborted
-- transaction. `External` is what is used of serde_json, `f64` and regex. The decoding of a schema
-- descriptor is an argument of `compile`. Observers are a parameter of `write`.
--
-- Bytes and numbers. A string is its UTF-8 bytes; the length of a text in validation is its number of
-- scalar values, clamped to 32 bits. The id counter of the notifier wraps at 64 bits. Positions and
-- counts of documents are natural numbers. A JSON object is the list of its members in key order, and
-- a BTreeMap the list of its entries. `sort_by` of the standard library is a parameter, of which
-- `IsSort` says what it documents; Examples/Sorting has a sort that does it. A message is a constructor of `Msg` with the values that it prints. All recursion is
-- structural, on the list or the document that the loop of the code walks, but for the loop of a
-- restore over the entries of its stream: it runs on one more round than the stream has bytes, which is
-- enough, because each round takes at least a length.
--
-- The JSON of the migration ledger is a parameter of Migrate. In a round of the live worker, what the
-- round learns about an item (is its sink closed, is it still registered, which committed state does
-- its read see) is a parameter by the item's id.
--
-- A backup stream is written to a parameter, `sink`, and read from bytes with a `fault`, which is what
-- a read past the last byte meets. `crc32fast` and SHA-256 are functions of the bytes that were
-- hashed, and the clock is an argument. The disk is a parameter, `FileSystem` for a
-- backup and `Disk` for the file of a database. The crates
-- behind a license token are a parameter, `Crypto`. A panic of `expect` is an outcome of its own. In the
-- wait of the live worker a step is one access to what the threads share. In the binding, a call is one step,
-- a `HashMap` is the list of its entries, and the text `live-<n>` is its number; the world of the
-- database is the shared state of the live engine, its one observer. Handles of transactions are words
-- of 64 bits.
--
-- Not modelled: a panic of `sort_by` on documents that its comparison does not order, panics inside a
-- closure of `write`
-- and inside a recomputation, the `debug_assert!`s of the index engine and of the backup frames, threads
-- outside live.rs (each operation is one step), what a failed `backup_to_path` leaves in its temporary
-- file, poisoned mutexes, failed joins in the binding but for a panic of `backup` or `restore`, the
-- test binary crash_worker, and the TypeScript packages.
pub mod Prelude
pub mod Bytes
pub mod Error
pub mod Codec
pub mod Rows
pub mod Redb
pub mod Notify
pub mod Storage
pub mod Database
pub mod Json
pub mod Schema
pub mod Doc
pub mod Index
pub mod Query
pub mod Collection
pub mod Migrate
pub mod Live
pub mod Backup
pub mod Binding
pub mod License
pub mod Examples
