-- ===== src/Schema/Compile.antt =====
-- `SchemaIr::compile` of crates/nookdb-core/src/schema/ir.rs. The decoding of the descriptor's JSON
-- text is external: `decode` is the derived `Deserialize` of `BTreeMap<String, RawCollection>`.
use nookdb.Prelude.{Option, List, [], ◌∷◌, find, any, ◌&&◌, ◌||◌, if◌then◌else◌}
use nookdb.Bytes.{Bytes, bytes, beq}
use nookdb.Error.{
  Result, ok, err, bad_schema, ok_or, refuse_if, bad_descriptor, reserved_name, missing_items,
  id_item, unknown_type, missing_id_field, index_unknown, index_optional, index_array, ◌>>=◌, ◌>>◌,
}
use nookdb.Schema.Ir.{
  FieldType, FieldIr, IndexIr, CollectionIr, SchemaIr, RawField, raw_field, RawItems, no_items,
  items, RawIndex, RawCollection, is_id, is_array,
}

-- the arms of `match raw.ty.as_str()` but for "array"
abbrev pub scalar_type : Bytes → Bytes → Result FieldType
scalar_type cname ty =
    if beq ty (bytes "id")
    then ok FieldType.id
    else if beq ty (bytes "string")
    then ok FieldType.string
    else if beq ty (bytes "number")
    then ok FieldType.number
    else if beq ty (bytes "boolean")
    then ok FieldType.bool
    else if beq ty (bytes "enum")
    then ok FieldType.enum
    else if beq ty (bytes "date")
    then ok FieldType.date
    else err (bad_schema (unknown_type ty cname))

module _ {F : Type 0} where
  abbrev pub type_of : RawField F → Bytes
  type_of (raw_field name ty o n mn mx i e r vs it) = ty

  unfoldable mutual
    pub parse_field_type_recursive : Bytes → RawField F → Result FieldType
    parse_field_type_recursive cname (raw_field name ty o n mn mx i e r vs it) =
        let inner = parse_items cname name it in
        if beq ty (bytes "array") then inner else scalar_type cname ty

    -- the arm for "array"
    pub parse_items : Bytes → Bytes → RawItems F → Result FieldType
    parse_items cname name no_items = err (bad_schema (missing_items name cname))
    parse_items cname name (items raw) =
        let inner = parse_field_type_recursive cname raw in
        if beq (type_of raw) (bytes "id")
        then err (bad_schema (id_item name cname))
        else (do ty ← inner; ok (FieldType.array ty))

  abbrev pub field_ir : FieldType → RawField F → FieldIr F
  field_ir ty' (raw_field name ty o n mn mx i e r vs it) = record {
    name = name;
    ty = ty';
    optional = o;
    nullable = n;
    min = mn;
    max = mx;
    int = i;
    email = e;
    regex = r;
    variants = vs;
  }

  unfoldable pub compile_fields : Bytes → List (RawField F) → Result (List (FieldIr F))
  compile_fields cname [] = ok []
  compile_fields cname (raw ∷ raws) = do
    ty ← parse_field_type_recursive cname raw
    fields ← compile_fields cname raws
    ok (field_ir ty raw ∷ fields)

  unfoldable pub validate_id_field : Bytes → Bytes → List (FieldIr F) → Result (Unit {0})
  validate_id_field cname id_field fields =
      if any (λ f. beq f.name id_field && is_id f.ty) fields
      then ok tt
      else err (bad_schema (missing_id_field cname id_field))

  -- the body of the loop over the indexes
  unfoldable pub compile_index : Bytes → RawIndex → List (FieldIr F) → Result IndexIr
  compile_index cname idx fields = do
    fld ←
        ok_or (find (λ f. beq f.name idx.field) fields) (bad_schema (index_unknown idx.field cname))
    refuse_if (fld.optional || fld.nullable) (bad_schema (index_optional idx.field))
    refuse_if (is_array fld.ty) (bad_schema (index_array idx.field cname))
    ok (record { field = idx.field; unique = idx.unique })

  unfoldable pub compile_indexes : Bytes → List RawIndex → List (FieldIr F) → Result (List IndexIr)
  unfolding compile_index
  compile_indexes cname [] fields = ok []
  compile_indexes cname (idx ∷ idxs) fields = do
    index ← compile_index cname idx fields
    indexes ← compile_indexes cname idxs fields
    ok (index ∷ indexes)

  -- the body of the loop over the collections
  unfoldable pub compile_collection : Bytes → RawCollection F → Result (CollectionIr F)
  unfolding compile_fields validate_id_field compile_indexes
  compile_collection cname rc = do
    refuse_if (beq cname (bytes "_meta")) (bad_schema reserved_name)
    fields ← compile_fields cname rc.fields
    validate_id_field cname rc.id_field fields
    indexes ← compile_indexes cname rc.indexes fields
    ok (record { id_field = rc.id_field; fields = fields; indexes = indexes })

  -- The raw map is walked in key order, so each insertion is at the end of the compiled map.
  unfoldable pub compile_all :
      List (Bytes × RawCollection F) → Result (List (Bytes × CollectionIr F))
  unfolding compile_collection
  compile_all [] = ok []
  compile_all ((cname, rc) ∷ raw) = do
    c ← compile_collection cname rc
    cs ← compile_all raw
    ok ((cname, c) ∷ cs)

  unfoldable pub compile :
      (Bytes → Option (List (Bytes × RawCollection F))) → Bytes → Result (SchemaIr F)
  unfolding compile_all
  compile decode descriptor_json = do
    raw ← ok_or (decode descriptor_json) (bad_schema bad_descriptor)
    collections ← compile_all raw
    ok (record { collections = collections })
