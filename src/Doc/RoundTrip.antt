-- ===== src/Doc/RoundTrip.antt =====
-- About encoding and then decoding a document, crates/nookdb-core/src/codec/doc.rs.
use nookdb.Prelude.{◌≡◌, some}
use nookdb.Bytes.{Bytes}
use nookdb.Doc.{ValueCodec, encode_document, decode_document}
use nookdb.Error.{ok, ◌>>=◌}
use nookdb.Json.{Value, External}

module _ {N F : Type 0} (x : External N F) where
  -- If the codec decodes what it encodes, and the JSON reader reads back the text that the writer
  -- wrote for this document, then encoding and decoding give the document back.
  pub decode-encode_document :
      (codec : ValueCodec) (doc : Value N) (text : Bytes)
      → x.to_vec doc ≡ some text
      → x.from_slice text ≡ some doc
      → codec.decode (codec.encode text) ≡ ok text
      → (do stored ← encode_document x doc codec; decode_document x stored codec) ≡ ok doc
  unfolding encode_document decode_document
  decode-encode_document codec doc text h g k = rw (h, k, g)
