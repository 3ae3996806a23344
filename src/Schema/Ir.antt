-- ===== src/Schema/Ir.antt =====
-- The types of crates/nookdb-core/src/schema/ir.rs: the compiled schema and the raw descriptor.
-- `F` stands for `f64`.
use nookdb.Prelude.{Bool, true, false, Option, none, some, List, [], ◌∷◌, find, if◌then◌else◌}
use nookdb.Bytes.{Bytes, beq}

pub data FieldType : Type 0 where
  id string number bool enum date : FieldType
  array : FieldType → FieldType

pub record FieldIr (F : Type 0) : Type 0 where
  pub name : Bytes
  pub ty : FieldType
  pub optional : Bool
  pub nullable : Bool
  pub min : Option F
  pub max : Option F
  pub int : Bool
  pub email : Bool
  pub regex : Option Bytes
  pub variants : List Bytes

pub record IndexIr : Type 0 where
  pub field : Bytes
  pub unique : Bool

pub record CollectionIr (F : Type 0) : Type 0 where
  pub id_field : Bytes
  pub fields : List (FieldIr F)
  pub indexes : List IndexIr

-- `BTreeMap<String, CollectionIr>`, in key order
pub record SchemaIr (F : Type 0) : Type 0 where
  pub collections : List (Bytes × CollectionIr F)

-- `RawField`: the JSON object of a field; `items` is another one, for arrays.
mutual
  pub data RawField (F : Type 0) : Type 0 where
    raw_field :
        (name ty : Bytes)
        → (optional nullable : Bool) → (min max : Option F) → (int email : Bool)
        → (regex : Option Bytes) → (variants : List Bytes) → RawItems F
        → RawField F

  pub data RawItems (F : Type 0) : Type 0 where
    no_items : RawItems F
    items : RawField F → RawItems F

pub record RawIndex : Type 0 where
  pub field : Bytes
  pub unique : Bool

pub record RawCollection (F : Type 0) : Type 0 where
  pub id_field : Bytes
  pub fields : List (RawField F)
  pub indexes : List RawIndex

module _ {F : Type 0} where
  -- `CollectionIr::field`
  unfoldable pub field : CollectionIr F → Bytes → Option (FieldIr F)
  field c name = find (λ f. beq f.name name) c.fields

  unfoldable pub lookup_collection : Bytes → List (Bytes × CollectionIr F) → Option (CollectionIr F)
  lookup_collection name [] = none
  lookup_collection name ((n, c) ∷ cs) = if beq n name then some c else lookup_collection name cs

  -- `SchemaIr::collection`
  unfoldable pub collection : SchemaIr F → Bytes → Option (CollectionIr F)
  unfolding lookup_collection
  collection s name = lookup_collection name s.collections

-- `ty == FieldType::Id`
abbrev pub is_id : FieldType → Bool
is_id FieldType.id = true
is_id _ = false

-- `matches!(ty, FieldType::Array(_))`
abbrev pub is_array : FieldType → Bool
is_array (FieldType.array t) = true
is_array _ = false
