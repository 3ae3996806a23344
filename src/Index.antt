-- ===== src/Index.antt =====
-- crates/nookdb-core/src/index/engine.rs: index keys, their maintenance, and equality lookup.
pub mod Exact
pub mod Distinct
pub mod Lookup
use nookdb.Prelude.{Bool, true, false, not, Option, none, some, List, [], ◌∷◌, ◌++◌, if◌then◌else◌}
use nookdb.Bytes.{Bytes, Byte, bytes}
use nookdb.Error.{Result, ok, err}
use nookdb.Error
use nookdb.Json.{Value, null, bool, number, string, array, object, External}
use nookdb.Redb.{Redb}
use nookdb.Storage.Read
use nookdb.Storage.Write
use nookdb.Storage.Tx.{ReadTx, WriteTx, Tx, ◌>>=◌, pure}

abbrev pub sep : Byte
sep = 0

unfoldable pub key : Bytes → Bytes → Bytes → Bytes → Bytes
key collection field enc_val doc_id =
    collection ++ (sep ∷ (field ++ (sep ∷ (enc_val ++ sep ∷ doc_id))))

-- The bounds: the prefix with its final separator, and with the byte after it.
unfoldable pub prefix : Bytes → Bytes → Bytes → Bytes × Bytes
prefix collection field enc_val = (
  collection ++ (sep ∷ (field ++ (sep ∷ (enc_val ++ sep ∷ [])))),
  collection ++ (sep ∷ (field ++ (sep ∷ (enc_val ++ 1 ∷ [])))),
)

abbrev pub is_nonempty : {A : Type 0} → List A → Bool
is_nonempty [] = false
is_nonempty (a ∷ as') = true

module _ {N F : Type 0} (x : External N F) where
  unfoldable pub encode_index_value : Value N → Bytes
  encode_index_value (string s) = s
  encode_index_value (bool b) = (if b then 1 else 0) ∷ []
  encode_index_value (number n) = x.number_text n
  encode_index_value null = 0 ∷ bytes "null"
  encode_index_value (array vs) = x.value_text (array vs)
  encode_index_value (object ms) = x.value_text (object ms)

  module _ {T : Type 0} (r : Redb T) (collection field : Bytes) (value : Value N) where
    unfoldable pub put_index_entry : Bytes → Tx T (Unit {0})
    unfolding key encode_index_value
    put_index_entry doc_id =
        Write.index_put r (key collection field (encode_index_value value) doc_id) doc_id

    unfoldable pub delete_index_entry : Bytes → Tx T (Unit {0})
    unfolding key encode_index_value
    delete_index_entry doc_id =
        Write.index_delete r (key collection field (encode_index_value value) doc_id)

    unfoldable pub lookup_eq : ReadTx T → Result (List Bytes)
    unfolding prefix encode_index_value
    lookup_eq tx =
        let (lo, hi) = prefix collection field (encode_index_value value) in
        Read.index_range_values r tx lo hi

    unfoldable pub index_value_exists : ReadTx T → Result Bool
    unfolding lookup_eq
    index_value_exists tx = Error.◌>>=◌ (lookup_eq tx) λ ids. ok (is_nonempty ids)

    unfoldable pub index_value_exists_writing : Tx T Bool
    unfolding prefix encode_index_value
    index_value_exists_writing =
        let (lo, hi) = prefix collection field (encode_index_value value) in
        Write.index_range_values r lo hi >>= λ ids. pure (is_nonempty ids)
