-- ===== src/Codec.antt =====
-- crates/nookdb-core/src/codec/mod.rs: composite keys of the storage layer.
pub mod Keys
use nookdb.Prelude.{
  ◌+◌, ◌==◌, not, ltb, if◌then◌else◌, Option, none, some, [], ◌∷◌, ◌++◌, drop, take, length,
}
use nookdb.Bytes.{beq, Bytes, Byte, contains}
use nookdb.Error.{Result, ok, err, invalid_argument, collection_empty, collection_nul, ◌>>◌}

abbrev pub separator : Byte
separator = 0

validate_collection : Bytes → Result (Unit {0})
validate_collection [] = err (invalid_argument collection_empty)
validate_collection (b ∷ name) =
    if contains (b ∷ name) separator
    then err (invalid_argument (collection_nul (b ∷ name)))
    else ok tt

unfoldable pub encode_key : Bytes → Bytes → Result Bytes
unfolding validate_collection
encode_key collection user_key = do
  validate_collection collection
  ok (collection ++ separator ∷ user_key)

unfoldable pub collection_prefix_lower : Bytes → Result Bytes
unfolding encode_key
collection_prefix_lower collection = encode_key collection []

unfoldable pub collection_prefix_upper : Bytes → Result Bytes
unfolding validate_collection
collection_prefix_upper collection = do validate_collection collection; ok (collection ++ 1 ∷ [])

-- `strip_collection_prefix`: the three tests in their order
unfoldable pub strip_collection_prefix : Bytes → Bytes → Option Bytes
strip_collection_prefix composite collection =
    let prefix_len = length collection + 1 in
    if ltb (length composite) prefix_len
    then none
    else if not (beq (take (length collection) composite) collection)
    then none
    else elim (drop (length collection) composite) [
      | [] ↦ none
      | b ∷ rest ↦ if b == separator then some rest else none
    ]
