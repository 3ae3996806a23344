-- ===== src/Schema/Hash.antt =====
-- `SchemaIr::schema_hash` of crates/nookdb-core/src/schema/ir.rs: the bytes that are fed to the hasher.
-- SHA-256 and `f64::to_le_bytes` are parameters. Each feeder puts its bytes before the `rest` that is
-- fed after it.
pub mod Code
pub mod Injective
use nookdb.Prelude.{
  ℕ, zero, suc, ◌/◌, ◌%◌, Bool, true, false, Option, none, some, List, [], ◌∷◌, ◌++◌, length,
}
use nookdb.Bytes.{Bytes}
use nookdb.Schema.Ir.{FieldType, FieldIr, IndexIr, CollectionIr, SchemaIr}

-- `to_le_bytes` of a word of `k` bytes
unfoldable pub le_bytes : ℕ → ℕ → Bytes → Bytes
le_bytes zero n rest = rest
le_bytes (suc k) n rest = n % 256 ∷ le_bytes k (n / 256) rest

unfoldable pub feed : Bytes → Bytes → Bytes
feed bytes rest = le_bytes 8 (length bytes) (bytes ++ rest)

-- `u8::from(b)`
unfoldable pub feed_bool : Bool → Bytes → Bytes
feed_bool true rest = 1 ∷ rest
feed_bool false rest = 0 ∷ rest

unfoldable pub feed_field_type : FieldType → Bytes → Bytes
feed_field_type FieldType.id rest = 0x01 ∷ rest
feed_field_type FieldType.string rest = 0x02 ∷ rest
feed_field_type FieldType.number rest = 0x03 ∷ rest
feed_field_type FieldType.bool rest = 0x04 ∷ rest
feed_field_type FieldType.date rest = 0x05 ∷ rest
feed_field_type FieldType.enum rest = 0x06 ∷ rest
feed_field_type (FieldType.array inner) rest = 0x10 ∷ feed_field_type inner rest

-- the marker of `is_some`, and what is there
unfoldable pub feed_option : {A : Type 0} → (A → Bytes → Bytes) → Option A → Bytes → Bytes
feed_option f none rest = 0 ∷ rest
feed_option f (some a) rest = 1 ∷ f a rest

-- a loop, and a loop after the number of its rounds
unfoldable pub feed_all : {A : Type 0} → (A → Bytes → Bytes) → List A → Bytes → Bytes
feed_all f [] rest = rest
feed_all f (a ∷ l) rest = f a (feed_all f l rest)

unfoldable pub feed_counted : {A : Type 0} → (A → Bytes → Bytes) → List A → Bytes → Bytes
unfolding feed_all
feed_counted f l rest = le_bytes 8 (length l) (feed_all f l rest)

unfoldable pub feed_index : IndexIr → Bytes → Bytes
feed_index i rest = feed i.field (feed_bool i.unique rest)

module _ {F : Type 0} (f64_bytes : F → Bytes) where
  abbrev pub feed_f64 : F → Bytes → Bytes
  feed_f64 m rest = f64_bytes m ++ rest

  -- a round of the loop over the fields
  unfoldable pub feed_field : FieldIr F → Bytes → Bytes
  feed_field f rest = feed f.name (
      feed_field_type f.ty (
        feed_bool f.optional (
          feed_bool f.nullable (
            feed_bool f.int (
              feed_bool f.email (
                feed_option feed_f64 f.min (
                  feed_option feed_f64 f.max
                    (feed_option feed f.regex (feed_counted feed f.variants rest)))))))))

  -- a round of the loop over the collections
  unfoldable pub feed_collection : Bytes × CollectionIr F → Bytes → Bytes
  unfolding feed_field feed_index
  feed_collection (cn, c) rest =
      feed cn (
        feed c.id_field (feed_counted feed_field c.fields (feed_counted feed_index c.indexes rest)))

  unfoldable pub feed_schema : SchemaIr F → Bytes
  unfolding feed_collection
  feed_schema s = feed_all feed_collection s.collections []

  unfoldable pub schema_hash : (Bytes → Bytes) → SchemaIr F → Bytes
  unfolding feed_schema
  schema_hash sha256 s = sha256 (feed_schema s)
