-- ===== src/Schema/Validate.antt =====
-- crates/nookdb-core/src/schema/validate.rs: validation of a document against its collection.
use nookdb.Prelude.{
  ℕ, suc, ◌-◌, ◌^◌, min, Bool, true, false, not, ◌&&◌, ◌||◌, Option, none, some, List, [], ◌∷◌, any,
}
use nookdb.Bytes.{Bytes, beq, char_count}
use nookdb.Bytes
use nookdb.Error.{
  Result, ok, bad_schema, ok_or, refuse_if, Place, at_field, at_item, not_an_object, unknown_field,
  missing_field, not_nullable, wrong_type, out_of_range, not_email, bad_pattern, no_match,
  not_integer, not_variant, ◌>>=◌, ◌>>◌,
}
use nookdb.Json.{
  Value, Values, Members, null, bool, string, empty, item, end, member, External, as_str, as_array,
  as_object, as_f64, get_member,
}
use nookdb.Schema.Ir.{FieldType, FieldIr, CollectionIr, field}

-- `is_some_and`
abbrev pub is_some_and : {A : Type 0} → Option A → (A → Bool) → Bool
is_some_and none p = false
is_some_and (some a) p = p a

abbrev pub is_boolean : {N : Type 0} → Value N → Bool
is_boolean (bool b) = true
is_boolean _ = false

abbrev pub is_string : {N : Type 0} → Value N → Bool
is_string (string s) = true
is_string _ = false

module _ {N F : Type 0} (x : External N F) where
  abbrev pub outside : FieldIr F → F → Bool
  outside f n = is_some_and f.min (λ m. x.flt n m) || is_some_and f.max (λ m. x.flt m n)

  -- the length in scalar values, clamped to `u32`, as `f64`
  abbrev pub len_f64 : Bytes → F
  len_f64 s = x.from_u32 (min (char_count s) (2 ^ 32 - 1))

  -- `if let Some(re_src) = &f.regex { … }`
  abbrev pub check_regex : Place → Option Bytes → Bytes → Result (Unit {0})
  check_regex path none s = ok tt
  check_regex path (some re_src) s = do
    re ← ok_or (x.regex re_src) (bad_schema (bad_pattern path))
    refuse_if (not (re s)) (bad_schema (no_match path))

  unfoldable pub check_text : FieldIr F → Bytes → Place → Result (Unit {0})
  check_text f s path = do
    refuse_if (outside f (len_f64 s)) (bad_schema (out_of_range path))
    refuse_if (f.email && not (Bytes.contains s b'@')) (bad_schema (not_email path))
    check_regex path f.regex s

  unfoldable pub check_number : FieldIr F → F → Place → Result (Unit {0})
  check_number f n path = do
    refuse_if (f.int && not (x.is_integral n)) (bad_schema (not_integer path))
    refuse_if (outside f n) (bad_schema (out_of_range path))

  -- the loop over the items of an array, each with the check for the item type
  unfoldable pub check_items :
      (Value N → Place → Result (Unit {0})) → Values N → Place → ℕ → Result (Unit {0})
  check_items check empty path i = ok tt
  check_items check (item v vs) path i = do
    check v (at_item path i)
    check_items check vs path (suc i)

  abbrev pub string_or : Value N → Place → Result Bytes
  string_or v path = ok_or (as_str v) (bad_schema (wrong_type path))

  unfoldable pub check_value : FieldType → FieldIr F → Value N → Place → Result (Unit {0})
  unfolding check_text check_number check_items
  check_value FieldType.id f v path = do s ← string_or v path; check_text f s path
  check_value FieldType.string f v path = do s ← string_or v path; check_text f s path
  check_value FieldType.number f v path = do
    n ← ok_or (as_f64 x v) (bad_schema (wrong_type path))
    check_number f n path
  check_value FieldType.bool f v path =
      refuse_if (not (is_boolean v)) (bad_schema (wrong_type path))
  check_value FieldType.enum f v path = do
    s ← string_or v path
    refuse_if (not (any (λ variant. beq variant s) f.variants)) (bad_schema (not_variant path))
  check_value FieldType.date f v path = refuse_if (not (is_string v)) (bad_schema (wrong_type path))
  check_value (FieldType.array item_ty) f v path = do
    arr ← ok_or (as_array v) (bad_schema (wrong_type path))
    check_items (λ w p. check_value item_ty f w p) arr path 0

  unfoldable pub check_field : FieldIr F → Value N → Result (Unit {0})
  unfolding check_value
  check_field f v = check_value f.ty f v (at_field f.name)

  -- the first loop: every key names a field
  unfoldable pub check_keys : CollectionIr F → Members N → Result (Unit {0})
  check_keys c end = ok tt
  check_keys c (member key v ms) = do
    ok_or (field c key) (bad_schema (unknown_field key))
    check_keys c ms

  -- the arms of `match obj.get(&f.name)`
  unfoldable pub check_member : FieldIr F → Option (Value N) → Result (Unit {0})
  unfolding check_field
  check_member f none = refuse_if (not f.optional) (bad_schema (missing_field f.name))
  check_member f (some null) = refuse_if (not f.nullable) (bad_schema (not_nullable f.name))
  check_member f (some v) = check_field f v

  -- the second loop: every field is met
  unfoldable pub check_fields : List (FieldIr F) → Members N → Result (Unit {0})
  unfolding check_member
  check_fields [] obj = ok tt
  check_fields (f ∷ fs) obj = do check_member f (get_member f.name obj); check_fields fs obj

  unfoldable pub validate_document : CollectionIr F → Value N → Result (Unit {0})
  unfolding check_keys check_fields
  validate_document c doc = do
    obj ← ok_or (as_object doc) (bad_schema not_an_object)
    check_keys c obj
    check_fields c.fields obj
