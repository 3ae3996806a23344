-- ===== src/Json.antt =====
-- JSON documents: the `serde_json::Value` that the code matches on, with its accessors, and the
-- external code that works on numbers, JSON text and patterns, as a parameter. `N` stands for
-- `serde_json::Number` and `F` for `f64`. An object is the list of its members in key order.
use Prim.Native.Nat.{Ordering}
use nookdb.Prelude.{List, ℕ, ℤ, Bool, true, false, Option, none, some, if◌then◌else◌}
use nookdb.Bytes.{Bytes, beq}

mutual
  pub data Value (N : Type 0) : Type 0 where
    null : Value N
    bool : Bool → Value N
    number : N → Value N
    string : Bytes → Value N
    array : Values N → Value N
    object : Members N → Value N

  pub data Values (N : Type 0) : Type 0 where
    empty : Values N
    item : Value N → Values N → Values N

  pub data Members (N : Type 0) : Type 0 where
    end : Members N
    member : Bytes → Value N → Members N → Members N

-- What the code uses of `serde_json`, `f64`, `regex` and the sort of the standard library.
pub record External (N F : Type 0) : Type 0 where
  -- `==` of numbers, exact integer views, the `f64` view, and the decimal text
  pub number_eq : N → N → Bool
  pub as_i64 : N → Option ℤ
  pub as_u64 : N → Option ℕ
  pub number_as_f64 : N → Option F
  pub number_text : N → Bytes
  -- `<`, `<=` and `partial_cmp` of `f64`, `fract() == 0.0`, and `f64::from(u32)`
  pub flt : F → F → Bool
  pub fle : F → F → Bool
  pub partial_cmp : F → F → Option Ordering
  pub is_integral : F → Bool
  pub from_u32 : ℕ → F
  -- `to_vec`, `from_slice` and `to_string`
  pub to_vec : Value N → Option Bytes
  pub from_slice : Bytes → Option (Value N)
  pub value_text : Value N → Bytes
  -- `Regex::new`, with `is_match` of the compiled pattern
  pub regex : Bytes → Option (Bytes → Bool)
  -- `slice::sort_by`
  pub sort_by : (Value N → Value N → Ordering) → List (Value N) → List (Value N)

module _ {N : Type 0} where
  unfoldable pub get_member : Bytes → Members N → Option (Value N)
  get_member k end = none
  get_member k (member j v ms) = if beq j k then some v else get_member k ms

  -- `v.get(key)`
  unfoldable pub get : Value N → Bytes → Option (Value N)
  unfolding get_member
  get (object ms) k = get_member k ms
  get null k = none
  get (bool b) k = none
  get (number n) k = none
  get (string s) k = none
  get (array vs) k = none

  abbrev pub as_str : Value N → Option Bytes
  as_str (string s) = some s
  as_str _ = none

  abbrev pub as_bool : Value N → Option Bool
  as_bool (bool b) = some b
  as_bool _ = none

  abbrev pub as_array : Value N → Option (Values N)
  as_array (array vs) = some vs
  as_array _ = none

  abbrev pub as_object : Value N → Option (Members N)
  as_object (object ms) = some ms
  as_object _ = none

  abbrev pub is_object : Value N → Bool
  is_object (object ms) = true
  is_object _ = false

  -- `iter().all(…)` and `keys().any(…)` of an object, `any` of an array
  unfoldable pub all_members : (Bytes → Value N → Bool) → Members N → Bool
  all_members p end = true
  all_members p (member k v ms) = if p k v then all_members p ms else false

  unfoldable pub any_key : (Bytes → Bool) → Members N → Bool
  any_key p end = false
  any_key p (member k v ms) = if p k then true else any_key p ms

  unfoldable pub any_item : (Value N → Bool) → Values N → Bool
  any_item p empty = false
  any_item p (item v vs) = if p v then true else any_item p vs

module _ {N F : Type 0} (x : External N F) where
  -- `v.as_f64()`
  abbrev pub as_f64 : Value N → Option F
  as_f64 (number n) = x.number_as_f64 n
  as_f64 _ = none

  -- The derived `==` of values.
  unfoldable mutual
    pub value_eq : Value N → Value N → Bool
    value_eq null null = true
    value_eq (bool true) (bool b) = b
    value_eq (bool false) (bool b) = if b then false else true
    value_eq (number n) (number m) = x.number_eq n m
    value_eq (string s) (string t) = beq s t
    value_eq (array vs) (array ws) = values_eq vs ws
    value_eq (object ms) (object ns) = members_eq ms ns
    value_eq _ _ = false

    pub values_eq : Values N → Values N → Bool
    values_eq empty empty = true
    values_eq (item v vs) (item w ws) = if value_eq v w then values_eq vs ws else false
    values_eq _ _ = false

    pub members_eq : Members N → Members N → Bool
    members_eq end end = true
    members_eq (member k v ms) (member j w ns) =
        if beq k j then (if value_eq v w then members_eq ms ns else false) else false
    members_eq _ _ = false

  -- `==` of `Option<&Value>`
  abbrev pub option_eq : Option (Value N) → Option (Value N) → Bool
  option_eq none none = true
  option_eq (some v) (some w) = value_eq v w
  option_eq _ _ = false

  -- `a.contains(v)`
  abbrev pub contains : Values N → Value N → Bool
  contains vs v = any_item (λ w. value_eq w v) vs
