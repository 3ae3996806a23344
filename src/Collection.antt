-- ===== src/Collection.antt =====
-- crates/nookdb-core/src/collection.rs: typed operations over validation, codec, index and storage.
pub mod Filter
pub mod Reads
pub mod Writes
pub mod Counting
pub mod Rejects
pub mod Inserted
pub mod Matched
pub mod ByScan
pub mod Indexed
pub mod Planned
pub mod Kept
pub mod Consistent
pub mod Removed
pub mod Deleted
pub mod Unique
pub mod Isolated
pub mod History
pub mod Overwritten
use nookdb.Bytes.{Bytes}
use nookdb.Doc.{ValueCodec, identity_codec}
use nookdb.Error.{Result, ok, bad_schema, unknown_collection, ok_or, ◌>>=◌}
use nookdb.Schema.Ir.{CollectionIr, SchemaIr, collection}

-- The handle without the database, which the operations take as an argument.
pub record Collection (F : Type 0) : Type 0 where
  pub ir : CollectionIr F
  pub name : Bytes
  pub codec : ValueCodec

unfoldable pub new : {F : Type 0} → SchemaIr F → Bytes → Result (Collection F)
new schema name = do
  ir ← ok_or (collection schema name) (bad_schema (unknown_collection name))
  ok (record { ir = ir; name = name; codec = identity_codec })
