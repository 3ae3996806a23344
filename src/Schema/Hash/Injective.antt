-- ===== src/Schema/Hash/Injective.antt =====
-- About the bytes that `schema_hash` of crates/nookdb-core/src/schema/ir.rs feeds to its hasher.
use nookdb.Prelude.{
  sym, ap₂, ◌≢◌, ◌≡◌, refl, ap, Option, none, some, List, [], ◌∷◌, length, All, arith,
}
use nookdb.Bytes.{Bytes}
use nookdb.Schema.Ir.{FieldIr, IndexIr, CollectionIr, SchemaIr}
use nookdb.Schema.Hash.{
  feed, feed_all, feed_f64, feed_index, feed_field, feed_collection, feed_schema, le_bytes,
}
use nookdb.Schema.Hash.Code.{
  Code, Any, Counts, SmallOption, SmallList, feed-Code, feed_bool-Code, feed_field_type-Code,
  feed_option-Code, feed_counted-Code, append_split,
}

abbrev SmallIndex : IndexIr → Type 0
SmallIndex i = Counts i.field

feed_index-Code : Code feed_index SmallIndex
unfolding feed_index
feed_index-Code = record {
  code = λ a b r s h g e.
      let p = feed-Code.code a.field b.field _ _ h g e in
      let q = feed_bool-Code.code a.unique b.unique r s tt tt p.1 in
      (λ i. record { field = p.0 i; unique = q.0 i }, q.1);
}

-- `f64::to_le_bytes`: eight bytes that determine the bits of the number.
pub record IsEncoding {F : Type 0} (f64_bytes : F → Bytes) : Type 0 where
  pub eight : (m : F) → length (f64_bytes m) ≡ 8
  pub same_bits : (m n : F) → f64_bytes m ≡ f64_bytes n → m ≡ n

-- The texts and lists of a schema have fewer than 2^64 bytes or items.
pub record SmallField {F : Type 0} (f : FieldIr F) : Type 0 where
  pub name_counts : Counts f.name
  pub regex_counts : SmallOption Counts f.regex
  pub variants_count : SmallList Counts f.variants

pub record SmallCollection {F : Type 0} (e : Bytes × CollectionIr F) : Type 0 where
  pub name_counts : Counts e.0
  pub id_counts : Counts e.1.id_field
  pub fields_count : SmallList (λ f. SmallField f) e.1.fields
  pub indexes_count : SmallList SmallIndex e.1.indexes

module _ {F : Type 0} (f64_bytes : F → Bytes) (law : IsEncoding f64_bytes) where
  feed_f64-Code : Code (feed_f64 f64_bytes) Any
  feed_f64-Code = record {
    code = λ a b r s h g e.
        let p =
          append_split (f64_bytes a) (f64_bytes b) r s (omega (arith, law.eight a, law.eight b))
            e in
        (law.same_bits a b p.0, p.1);
  }

  bound-Any : (o : Option F) → SmallOption Any o
  bound-Any none = tt
  bound-Any (some m) = tt

  not_nothing : (c : Bytes × CollectionIr F) (r : Bytes) → feed_collection f64_bytes c r ≢ []
  unfolding feed_collection feed le_bytes
  not_nothing c r e = absurd (omega (arith, ap length e))

  feed_field_code :
      (f g : FieldIr F) (r s : Bytes)
      → SmallField f
      → SmallField g
      → feed_field f64_bytes f r ≡ feed_field f64_bytes g s
      → (f ≡ g) × (r ≡ s)
  unfolding feed_field
  feed_field_code f g r s h k e =
      let name = feed-Code.code f.name g.name _ _ h.name_counts k.name_counts e in
      let ty = feed_field_type-Code.code f.ty g.ty _ _ tt tt name.1 in
      let optional = feed_bool-Code.code f.optional g.optional _ _ tt tt ty.1 in
      let nullable = feed_bool-Code.code f.nullable g.nullable _ _ tt tt optional.1 in
      let int = feed_bool-Code.code f.int g.int _ _ tt tt nullable.1 in
      let email = feed_bool-Code.code f.email g.email _ _ tt tt int.1 in
      let bound = feed_option-Code (feed_f64 f64_bytes) Any feed_f64-Code in
      let min = bound.code f.min g.min _ _ (bound-Any f.min) (bound-Any g.min) email.1 in
      let max = bound.code f.max g.max _ _ (bound-Any f.max) (bound-Any g.max) min.1 in
      let regex =
        (feed_option-Code feed Counts feed-Code).code f.regex g.regex _ _ h.regex_counts
          k.regex_counts max.1 in
      let variants =
        (feed_counted-Code feed Counts feed-Code).code f.variants g.variants r s h.variants_count
          k.variants_count regex.1 in
      (
        λ i. record {
          name = name.0 i;
          ty = ty.0 i;
          optional = optional.0 i;
          nullable = nullable.0 i;
          min = min.0 i;
          max = max.0 i;
          int = int.0 i;
          email = email.0 i;
          regex = regex.0 i;
          variants = variants.0 i;
        },
        variants.1,
      )

  feed_field-Code : Code (feed_field f64_bytes) (λ f. SmallField f)
  feed_field-Code = record { code = feed_field_code }

  feed_collection_code :
      (c d : Bytes × CollectionIr F) (r s : Bytes)
      → SmallCollection c
      → SmallCollection d
      → feed_collection f64_bytes c r ≡ feed_collection f64_bytes d s
      → (c ≡ d) × (r ≡ s)
  unfolding feed_collection
  feed_collection_code c d r s h k e =
      let name = feed-Code.code c.0 d.0 _ _ h.name_counts k.name_counts e in
      let id = feed-Code.code c.1.id_field d.1.id_field _ _ h.id_counts k.id_counts name.1 in
      let fields =
        (feed_counted-Code (feed_field f64_bytes) (λ f. SmallField f) feed_field-Code).code
          c.1.fields d.1.fields _ _ h.fields_count k.fields_count id.1 in
      let indexes =
        (feed_counted-Code feed_index SmallIndex feed_index-Code).code c.1.indexes d.1.indexes r s
          h.indexes_count k.indexes_count fields.1 in
      (
        λ i. (name.0 i, record { id_field = id.0 i; fields = fields.0 i; indexes = indexes.0 i }),
        indexes.1,
      )

  -- A collection puts at least a byte, so a list of collections needs no count.
  feed_collections_code :
      (a b : List (Bytes × CollectionIr F))
      → All (λ c. SmallCollection c) a
      → All (λ c. SmallCollection c) b
      → feed_all (feed_collection f64_bytes) a [] ≡ feed_all (feed_collection f64_bytes) b []
      → a ≡ b
  unfolding feed_all
  feed_collections_code [] [] h k e = refl
  feed_collections_code [] (d ∷ b) h k e = absurd (not_nothing d _ (sym e))
  feed_collections_code (c ∷ a) [] h k e = absurd (not_nothing c _ e)
  feed_collections_code (c ∷ a) (d ∷ b) h k e =
      let p = feed_collection_code c d _ _ h.0 k.0 e in
      ap₂ (λ x l. x ∷ l) p.0 (feed_collections_code a b h.1 k.1 p.1)

  -- Schemas whose texts and lists fit 64-bit lengths feed the hasher the same bytes only if they
  -- are the same schema, given that `to_le_bytes` determines a number.
  pub feed_schema-injective :
      (s t : SchemaIr F)
      → All (λ c. SmallCollection c) s.collections
      → All (λ c. SmallCollection c) t.collections
      → feed_schema f64_bytes s ≡ feed_schema f64_bytes t
      → s ≡ t
  unfolding feed_schema
  feed_schema-injective s t h k e =
      let p = feed_collections_code s.collections t.collections h k e in
      λ i. record { collections = p i }
