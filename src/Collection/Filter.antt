-- ===== src/Collection/Filter.antt =====
-- `Collection::{doc_id, matches, cmp}` of crates/nookdb-core/src/collection.rs.
use nookdb.Prelude.{
  Bool, true, false, not, ◌||◌, Option, none, some, [], ◌∷◌, is_some, if◌then◌else◌, ◌==◌,
}
use nookdb.Bytes.{Bytes, bytes, beq}
use nookdb.Error.{Result, bad_schema, no_id, ok_or}
use nookdb.Json.{
  Value, null, bool, number, string, array, object, External, get, as_bool, as_f64, all_members,
  any_key, option_eq, contains,
}
use nookdb.Query.{opt_str}
use nookdb.Schema.Ir.{CollectionIr}

-- `k.starts_with('$')`
abbrev pub is_operator : Bytes → Bool
is_operator [] = false
is_operator (b ∷ k) = b == b'$'

abbrev pub same_bool : Bool → Bool → Bool
same_bool true b = b
same_bool false b = not b

-- `unwrap_or(true)`
abbrev pub or_true : Option Bool → Bool
or_true none = true
or_true (some b) = b

module _ {N F : Type 0} where
  unfoldable pub doc_id : CollectionIr F → Value N → Result Bytes
  doc_id ir doc = ok_or (opt_str (get doc ir.id_field)) (bad_schema (no_id ir.id_field))

module _ {N F : Type 0} (x : External N F) where
  abbrev pub cmp_f64 : Bytes → F → F → Bool
  cmp_f64 op a b =
      if beq op (bytes "$gt")
      then x.flt b a
      else if beq op (bytes "$gte")
      then x.fle b a
      else if beq op (bytes "$lt")
      then x.flt a b
      else x.fle a b

  abbrev pub cmp_some : Bytes → Option F → Option F → Bool
  cmp_some op (some a) (some b) = cmp_f64 op a b
  cmp_some op none b = false
  cmp_some op (some a) none = false

  abbrev pub opt_f64 : Option (Value N) → Option F
  opt_f64 none = none
  opt_f64 (some v) = as_f64 x v

  unfoldable pub cmp : Option (Value N) → Bytes → Value N → Bool
  cmp actual op want = cmp_some op (opt_f64 actual) (as_f64 x want)

  -- `$in` and `$nin` over the wanted array
  abbrev pub in_array : Value N → Option (Value N) → Bool
  in_array (array a) (some v) = contains x a v
  in_array (array a) none = false
  in_array _ actual = false

  abbrev pub not_in_array : Value N → Option (Value N) → Bool
  not_in_array (array a) (some v) = not (contains x a v)
  not_in_array (array a) none = true
  not_in_array _ actual = false

  -- the arms of `match op.as_str()`
  unfoldable pub op_holds : Option (Value N) → Bytes → Value N → Bool
  unfolding cmp
  op_holds actual op want =
      if beq op (bytes "$ne")
      then not (option_eq x actual (some want))
      else if beq op (bytes "$exists")
      then same_bool (or_true (as_bool want)) (is_some actual)
      else if beq op (bytes "$in")
      then in_array want actual
      else if beq op (bytes "$nin")
      then not_in_array want actual
      else if beq op (bytes "$gt")
          || (beq op (bytes "$gte") || (beq op (bytes "$lt") || beq op (bytes "$lte")))
      then cmp actual op want
      else false

  -- the arms of `match cond`
  unfoldable pub cond_holds : Option (Value N) → Value N → Bool
  unfolding op_holds
  cond_holds actual (object ops) =
      if any_key is_operator ops
      then all_members (λ op want. op_holds actual op want) ops
      else option_eq x actual (some (object ops))
  cond_holds actual null = option_eq x actual (some null)
  cond_holds actual (bool b) = option_eq x actual (some (bool b))
  cond_holds actual (number n) = option_eq x actual (some (number n))
  cond_holds actual (string s) = option_eq x actual (some (string s))
  cond_holds actual (array vs) = option_eq x actual (some (array vs))

  unfoldable pub matches : Value N → Value N → Bool
  unfolding cond_holds
  matches doc (object fobj) = all_members (λ field cond. cond_holds (get doc field) cond) fobj
  matches doc null = true
  matches doc (bool b) = true
  matches doc (number n) = true
  matches doc (string s) = true
  matches doc (array vs) = true
