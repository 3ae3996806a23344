-- ===== src/Collection/Writes.antt =====
-- The write operations of crates/nookdb-core/src/collection.rs: `insert` and `delete`, alone and in a
-- transaction of the caller.
use nookdb.Prelude.{ℕ, false, Option, none, some, List, [], ◌∷◌, length, if◌then◌else◌}
use nookdb.Bytes.{Bytes}
use nookdb.Bytes
use nookdb.Collection.{Collection}
use nookdb.Collection.Filter.{doc_id}
use nookdb.Collection.Reads.{find}
use nookdb.Database.{Database, Outcome, write}
use nookdb.Doc.{encode_document}
use nookdb.Error
use nookdb.Error.{Result, ok, err, conflicting, invalid_argument, nul_id, duplicate, refuse_if}
use nookdb.Index.{put_index_entry, delete_index_entry, index_value_exists_writing}
use nookdb.Json.{Value, null, External, get}
use nookdb.Notify.{Observers}
use nookdb.Redb.{Redb}
use nookdb.Schema.Ir.{IndexIr}
use nookdb.Schema.Validate.{validate_document}
use nookdb.Storage.Tx.{Tx, ◌>>=◌, ◌>>◌, pure, lift}
use nookdb.Storage.Write

-- `doc.get(&idx.field).cloned().unwrap_or(Value::Null)`
abbrev pub value_or_null : {N : Type 0} → Option (Value N) → Value N
value_or_null none = null
value_or_null (some v) = v

abbrev pub indexed : {N : Type 0} → Value N → IndexIr → Value N
indexed doc idx = value_or_null (get doc idx.field)

module _ {N F T : Type 0} (x : External N F) (r : Redb T) (c : Collection F) where
  -- the loop over the indexes of one victim
  unfoldable pub delete_entries : Value N → Bytes → List IndexIr → Tx T (Unit {0})
  delete_entries d id [] = pure tt
  delete_entries d id (idx ∷ idxs) = do
    delete_index_entry x r c.name idx.field (indexed d idx) id
    delete_entries d id idxs

  unfoldable pub delete_victims_in_tx : List (Value N) → Tx T (Unit {0})
  unfolding delete_entries
  delete_victims_in_tx [] = pure tt
  delete_victims_in_tx (d ∷ victims) = do
    id ← lift (doc_id c.ir d)
    delete_entries d id c.ir.indexes
    existed ← Write.delete r c.name id
    delete_victims_in_tx victims

  -- `if victims.is_empty() { return Ok(0) }`, and the write of what was found
  unfoldable pub delete_resolved : List (Value N) → Tx T ℕ
  unfolding delete_victims_in_tx
  delete_resolved [] = pure 0
  delete_resolved (d ∷ ds) = do delete_victims_in_tx (d ∷ ds); pure (length (d ∷ ds))

  unfoldable pub delete_in_tx : Database T → Value N → Tx T ℕ
  unfolding delete_resolved
  delete_in_tx db filter_doc = do victims ← lift (find x r c db filter_doc); delete_resolved victims

  -- the loop of the unique pre-check
  unfoldable pub check_unique : Value N → List IndexIr → Tx T (Unit {0})
  check_unique doc [] = pure tt
  check_unique doc (idx ∷ idxs) = do
    exists ←
        (if idx.unique
          then index_value_exists_writing x r c.name idx.field (indexed doc idx)
          else pure false)
    lift (refuse_if exists (conflicting (duplicate c.name idx.field)))
    check_unique doc idxs

  -- the loop of the index maintenance
  unfoldable pub put_entries : Value N → Bytes → List IndexIr → Tx T (Unit {0})
  put_entries doc id [] = pure tt
  put_entries doc id (idx ∷ idxs) = do
    put_index_entry x r c.name idx.field (indexed doc idx) id
    put_entries doc id idxs

  unfoldable pub insert_validated_in_tx : Value N → Bytes → Bytes → Tx T (Unit {0})
  unfolding check_unique put_entries
  insert_validated_in_tx doc id stored = do
    check_unique doc c.ir.indexes
    Write.put r c.name id stored
    put_entries doc id c.ir.indexes

  -- what `insert` and `insert_in_tx` do before they write: the id and the stored bytes
  unfoldable pub prepare : Value N → Result (Bytes × Bytes)
  prepare doc = Error.◌>>◌ (validate_document x c.ir doc) (
      Error.◌>>=◌ (doc_id c.ir doc) λ id.
        Error.◌>>◌ (refuse_if (Bytes.contains id 0) (invalid_argument (nul_id c.ir.id_field)))
          (Error.◌>>=◌ (encode_document x doc c.codec) λ stored. ok (id, stored)))

  unfoldable pub insert_in_tx : Value N → Tx T (Unit {0})
  unfolding prepare insert_validated_in_tx
  insert_in_tx doc = do p ← lift (prepare doc); insert_validated_in_tx doc p.0 p.1

  module _ {W : Type 0} (obs : Observers W) where
    unfoldable pub insert_prepared :
        Database T → W → Value N → Result (Bytes × Bytes) → Outcome r obs (Unit {0})
    unfolding insert_validated_in_tx
    insert_prepared db w doc (ok (id, stored)) =
        write r obs db w (insert_validated_in_tx doc id stored)
    insert_prepared db w doc (err e) = (err e, db, w)

    unfoldable pub insert : Database T → W → Value N → Outcome r obs (Unit {0})
    unfolding insert_prepared prepare
    insert db w doc = insert_prepared db w doc (prepare doc)

    -- the count of victims in place of the unit of the write
    abbrev pub counted : ℕ → Outcome r obs (Unit {0}) → Outcome r obs ℕ
    counted n out = (Error.◌>>◌ out.0 (ok n), out.1, out.2)

    unfoldable pub delete_found : Database T → W → Result (List (Value N)) → Outcome r obs ℕ
    unfolding delete_victims_in_tx
    delete_found db w (err e) = (err e, db, w)
    delete_found db w (ok []) = (ok 0, db, w)
    delete_found db w (ok (d ∷ ds)) =
        counted (length (d ∷ ds)) (write r obs db w (delete_victims_in_tx (d ∷ ds)))

    unfoldable pub delete : Database T → W → Value N → Outcome r obs ℕ
    unfolding delete_found
    delete db w filter_doc = delete_found db w (find x r c db filter_doc)
