-- ===== src/Examples/Checks.antt =====
-- Witnesses: the bytes of a schema, and a license token.
use nookdb.Prelude.{ℕ, ◌≡◌, ◌↔◌, refl, some, [], ◌∷◌, arith}
use nookdb.Bytes.{Bytes, bytes, beq}
use nookdb.Examples.{notes_ir, id_field}
use nookdb.License.{Crypto, LicenseClaims, verify, valid}
use nookdb.License.Accepted.{IsAccepted, verify_iff}
use nookdb.Schema.Ir.{SchemaIr}
use nookdb.Schema.Hash.Code.{uncons}
use nookdb.Schema.Hash.Injective.{IsEncoding, SmallCollection, SmallField, feed_schema-injective}

abbrev pub schema : SchemaIr ℕ
schema = record { collections = (bytes "notes", notes_ir) ∷ [] }

-- A number in one place of eight.
abbrev pub one_place : ℕ → Bytes
one_place n = n ∷ 0 ∷ 0 ∷ 0 ∷ 0 ∷ 0 ∷ 0 ∷ 0 ∷ []

abbrev pub one_place-IsEncoding : IsEncoding one_place
one_place-IsEncoding = record { eight = λ m. refl; same_bits = λ m n e. (uncons m n _ _ e).0 }

id_field-SmallField : SmallField id_field
id_field-SmallField = record {
  name_counts = omega arith;
  regex_counts = tt;
  variants_count = (omega arith, tt);
}

pub notes-SmallCollection : SmallCollection (bytes "notes", notes_ir)
notes-SmallCollection = record {
  name_counts = omega arith;
  id_counts = omega arith;
  fields_count = (omega arith, (id_field-SmallField, tt));
  indexes_count = (omega arith, (omega arith, tt));
}

feed_schema-injective_example : schema ≡ schema
feed_schema-injective_example =
    feed_schema-injective one_place one_place-IsEncoding schema schema (notes-SmallCollection, tt)
      (notes-SmallCollection, tt) refl

abbrev claims_of : Bytes → LicenseClaims
claims_of b = record { sub = b; tier = []; iat = 0; exp = 9 }

-- Signatures are the key itself, and texts are their own encoding.
abbrev plain_crypto : Crypto Bytes
plain_crypto = record {
  decode_signature = λ s. some s;
  decode_vec = λ s. some s;
  key_from_bytes = λ k. some k;
  verify_strict = λ k m s. beq k s;
  claims_from_slice = λ b. some (claims_of b);
}

verify_iff_example :
    verify plain_crypto (bytes "a.k") (bytes "k") 7 ≡ valid (claims_of (bytes "a"))
    ↔ IsAccepted plain_crypto (bytes "a.k") (bytes "k") 7 (claims_of (bytes "a"))
verify_iff_example = verify_iff plain_crypto (bytes "a.k") (bytes "k") 7 (claims_of (bytes "a"))
