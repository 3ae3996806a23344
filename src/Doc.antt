-- ===== src/Doc.antt =====
-- crates/nookdb-core/src/codec/doc.rs: documents as stored bytes, through the `ValueCodec` seam.
pub mod RoundTrip
use nookdb.Prelude.{Option, none, some}
use nookdb.Bytes.{Bytes}
use nookdb.Error.{
  Result, ok, err, bad_schema, corrupted, unserializable, corrupt_json, ok_or, ◌>>=◌,
}
use nookdb.Json.{Value, External}

-- The trait `ValueCodec`: an implementation is a value.
pub record ValueCodec : Type 0 where
  pub encode : Bytes → Bytes
  pub decode : Bytes → Result Bytes

abbrev pub identity_codec : ValueCodec
identity_codec = record { encode = λ value. value; decode = λ stored. ok stored }

module _ {N F : Type 0} (x : External N F) where
  unfoldable pub encode_document : Value N → ValueCodec → Result Bytes
  encode_document doc codec = do
    json ← ok_or (x.to_vec doc) (bad_schema unserializable)
    ok (codec.encode json)

  unfoldable pub decode_document : Bytes → ValueCodec → Result (Value N)
  decode_document stored codec = do
    json ← codec.decode stored
    ok_or (x.from_slice json) (corrupted corrupt_json)
