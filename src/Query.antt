-- ===== src/Query.antt =====
-- crates/nookdb-core/src/query.rs: `sort`, `limit` and `offset`. The `sort_by` of the standard library is
-- a parameter.
pub mod Sorts
pub mod Page
pub mod Order
pub mod Parse
use Prim.Native.Nat.{Ordering}
use nookdb.Prelude.{
  ℤ, ℕ, min, Bool, true, false, not, ◌&&◌, Option, none, some, List, [], ◌∷◌, length, take, drop,
  compare, if◌then◌else◌, cmp_int,
}
use nookdb.Bytes.{Bytes, cmp}
use nookdb.Error.{
  Result, ok, err, bad_schema, sort_unknown, sort_array, ok_or, refuse_if, ◌>>=◌, ◌>>◌,
}
use nookdb.Json.{Value, null, bool, number, string, array, object, External, get, as_str}
use nookdb.Schema.Ir.{FieldType, is_array}

pub data SortDir : Type 0 where
  asc desc : SortDir

pub record QueryOptions : Type 0 where
  pub sort : List (Bytes × SortDir)
  pub limit : Option ℕ
  pub offset : ℕ

-- `QueryOptions::default()`
abbrev pub default : QueryOptions
default = record { sort = []; limit = none; offset = 0 }

unfoldable pub has_sort : QueryOptions → Bool
has_sort o = elim o.sort [ [] ↦ false | _ ↦ true ]

unfoldable pub validate_sort_fields :
    List (Bytes × SortDir) → (Bytes → Option FieldType) → Result (Unit {0})
validate_sort_fields [] field_ty = ok tt
validate_sort_fields ((field, dir) ∷ sort) field_ty = do
  ty ← ok_or (field_ty field) (bad_schema (sort_unknown field))
  refuse_if (is_array ty) (bad_schema (sort_array field))
  validate_sort_fields sort field_ty

module _ {N : Type 0} where
  unfoldable pub is_absent : Option (Value N) → Bool
  is_absent none = true
  is_absent (some null) = true
  is_absent (some (bool b)) = false
  is_absent (some (number n)) = false
  is_absent (some (string s)) = false
  is_absent (some (array vs)) = false
  is_absent (some (object ms)) = false

  unfoldable pub type_rank : Value N → ℕ
  type_rank (bool b) = 0
  type_rank (number n) = 1
  type_rank (string s) = 2
  type_rank null = 3
  type_rank (array vs) = 3
  type_rank (object ms) = 3

-- `bool::cmp`
abbrev pub cmp_bool : Bool → Bool → Ordering
cmp_bool false false = Ordering.eq
cmp_bool false true = Ordering.lt
cmp_bool true false = Ordering.gt
cmp_bool true true = Ordering.eq

-- `Option<&str>::cmp`: `None` comes first
abbrev pub cmp_option : Option Bytes → Option Bytes → Ordering
cmp_option none none = Ordering.eq
cmp_option none (some b) = Ordering.lt
cmp_option (some a) none = Ordering.gt
cmp_option (some a) (some b) = cmp a b

-- `v.and_then(Value::as_str)`
abbrev pub opt_str : {N : Type 0} → Option (Value N) → Option Bytes
opt_str none = none
opt_str (some v) = as_str v

-- `Ordering::reverse`
abbrev pub flip_order : Ordering → Ordering
flip_order Ordering.lt = Ordering.gt
flip_order Ordering.eq = Ordering.eq
flip_order Ordering.gt = Ordering.lt

abbrev pub is_desc : SortDir → Bool
is_desc asc = false
is_desc desc = true

-- the second stage: both fit `u64`
abbrev pub cmp_unsigned : Option ℕ → Option ℕ → Ordering → Ordering
cmp_unsigned (some a) (some b) rest = compare a b
cmp_unsigned none b rest = rest
cmp_unsigned (some a) none rest = rest

-- the first stage: both fit `i64`
abbrev pub cmp_signed : Option ℤ → Option ℤ → Ordering → Ordering
cmp_signed (some i) (some j) rest = cmp_int i j
cmp_signed none j rest = rest
cmp_signed (some i) none rest = rest

module _ {N F : Type 0} (x : External N F) where
  -- the third stage of `cmp_numbers`: through `f64`
  abbrev pub cmp_floats : Option F → Option F → Ordering
  cmp_floats (some a) (some b) = elim (x.partial_cmp a b) [ some o ↦ o | none ↦ Ordering.eq ]
  cmp_floats none b = Ordering.eq
  cmp_floats (some a) none = Ordering.eq

  unfoldable pub cmp_numbers : N → N → Ordering
  cmp_numbers a b =
      cmp_signed (x.as_i64 a) (x.as_i64 b) (
        cmp_unsigned (x.as_u64 a) (x.as_u64 b) (cmp_floats (x.number_as_f64 a) (x.number_as_f64 b)))

  -- two present values
  unfoldable pub cmp_present : Value N → Value N → Ordering
  unfolding cmp_numbers type_rank
  cmp_present (number a) (number b) = cmp_numbers a b
  cmp_present (string a) (string b) = cmp a b
  cmp_present (bool a) (bool b) = cmp_bool a b
  cmp_present a b = compare (type_rank a) (type_rank b)

  unfoldable pub cmp_values : Option (Value N) → Option (Value N) → Ordering
  unfolding cmp_present is_absent
  cmp_values none none = Ordering.eq
  cmp_values none (some b) = if is_absent (some b) then Ordering.eq else Ordering.gt
  cmp_values (some a) none = if is_absent (some a) then Ordering.eq else Ordering.lt
  cmp_values (some a) (some b) =
      if is_absent (some a)
      then (if is_absent (some b) then Ordering.eq else Ordering.gt)
      else if is_absent (some b)
      then Ordering.lt
      else cmp_present a b

  -- one round of the loop over the sort keys
  unfoldable pub cmp_key : Bytes → SortDir → Value N → Value N → Ordering
  unfolding cmp_values
  cmp_key field dir a b =
      let av = get a field in
      let bv = get b field in
      let ord = cmp_values av bv in
      if is_desc dir && (not (is_absent av) && not (is_absent bv)) then flip_order ord else ord

  -- the closure of `sort_by`: the first key that decides, and then the id
  unfoldable pub cmp_docs : List (Bytes × SortDir) → Bytes → Value N → Value N → Ordering
  unfolding cmp_key
  cmp_docs [] id_field a b = cmp_option (opt_str (get a id_field)) (opt_str (get b id_field))
  cmp_docs ((field, dir) ∷ sort) id_field a b =
      let rest = cmp_docs sort id_field a b in
      elim (cmp_key field dir a b) [
        | Ordering.eq ↦ rest
        | Ordering.lt ↦ Ordering.lt
        | Ordering.gt ↦ Ordering.gt
      ]

-- `split_off(offset.min(len))`, then `truncate(limit)`
unfoldable pub page : {A : Type 0} → QueryOptions → List A → List A
page o docs =
    let out = drop (min o.offset (length docs)) docs in
    elim o.limit [ none ↦ out | some limit ↦ take limit out ]

module _ {N F : Type 0} (x : External N F) where
  unfoldable pub ordered : QueryOptions → Bytes → List (Value N) → List (Value N)
  unfolding has_sort
  ordered o id_field docs = if has_sort o then x.sort_by (cmp_docs x o.sort id_field) docs else docs

  unfoldable pub apply :
      QueryOptions → List (Value N) → Bytes → (Bytes → Option FieldType) → Result (List (Value N))
  unfolding ordered page
  apply o docs id_field field_ty = do
    validate_sort_fields o.sort field_ty
    ok (page o (ordered o id_field docs))
