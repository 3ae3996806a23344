-- ===== src/Schema/Meaning.antt =====
-- What the fields of a schema mean, apart from the checks of crates/nookdb-core/src/schema/validate.rs,
-- and that the checks accept exactly that.
use nookdb.Prelude.{
  ℕ, suc, ◌≡◌, refl, Bool, true, false, not, ◌&&◌, ◌||◌, Option, none, some, any, arith,
  Option-cases, inl, inr,
}
use nookdb.Bytes.{Bytes, beq, char_count}
use nookdb.Bytes
use nookdb.Error.{Result, ok, err, Place, at_item}
use nookdb.Json.{
  Value, Values, null, bool, number, string, array, object, empty, item, External, as_f64,
}
use nookdb.Schema.Ir.{FieldType, FieldIr}
use nookdb.Schema.Validate.{
  check_text, check_number, check_items, check_value, check_field, check_member, check_regex,
  len_f64, outside,
}

abbrev pub accepted : Result (Unit {0}) → Bool
accepted (ok t) = true
accepted (err e) = false

pub accepted_ok : (r : Result (Unit {0})) → accepted r ≡ true → r ≡ ok tt
accepted_ok (ok t) h = refl
accepted_ok (err e) h = absurd (ground (arith, h))

module _ {N F : Type 0} (x : External N F) where
  -- No bound is missed.
  abbrev pub above : Option F → F → Bool
  above none n = true
  above (some low) n = not (x.flt n low)

  abbrev pub below : Option F → F → Bool
  below none n = true
  below (some high) n = not (x.flt high n)

  -- The pattern, if there is one, is valid and matches.
  abbrev pub matched : Option (Bytes → Bool) → Bytes → Bool
  matched none s = false
  matched (some p) s = p s

  abbrev pub like : Option Bytes → Bytes → Bool
  like none s = true
  like (some source) s = matched (x.regex source) s

  -- A text: its number of scalar values is within the bounds, it has an `@` if it is an email, and it
  -- is like the pattern.
  abbrev pub text_fits : FieldIr F → Bytes → Bool
  text_fits f s =
      above f.min (len_f64 x s)
      && below f.max (len_f64 x s)
      && (not f.email || Bytes.contains s b'@')
      && like f.regex s

  abbrev pub number_fits : FieldIr F → F → Bool
  number_fits f n = (not f.int || x.is_integral n) && above f.min n && below f.max n

  abbrev pub all_items : (Value N → Bool) → Values N → Bool
  all_items p empty = true
  all_items p (item v vs) = p v && all_items p vs

  abbrev pub number_view : FieldIr F → Option F → Bool
  number_view f none = false
  number_view f (some n) = number_fits f n

  -- A value of a type.
  unfoldable pub fits : FieldType → FieldIr F → Value N → Bool
  fits FieldType.id f (string s) = text_fits f s
  fits FieldType.string f (string s) = text_fits f s
  fits FieldType.number f v = number_view f (as_f64 x v)
  fits FieldType.bool f (bool b) = true
  fits FieldType.enum f (string s) = any (λ variant. beq variant s) f.variants
  fits FieldType.date f (string s) = true
  fits (FieldType.array t) f (array vs) = all_items (λ v. fits t f v) vs
  fits _ f _ = false

  -- What a document may hold under the name of a field: nothing if it is optional, `null` if it is
  -- nullable, and else a value of its type.
  unfoldable pub meets : FieldIr F → Option (Value N) → Bool
  unfolding fits
  meets f none = f.optional
  meets f (some null) = f.nullable
  meets f (some v) = fits f.ty f v

  outside_lem : (f : FieldIr F) (n : F) → outside x f n ≡ not (above f.min n && below f.max n)
  outside_lem f n = elim (Option-cases f.min) [
    | inl p ↦ elim (Option-cases f.max) [
      | inl q ↦ rw (p, q) refl
      | inr (b, q) ↦ rw (p, q) (ground arith)
    ]
    | inr (a, p) ↦ elim (Option-cases f.max) [
      | inl q ↦ rw (p, q) (ground arith)
      | inr (b, q) ↦ rw (p, q) (ground arith)
    ]
  ]

  regex_lem : (p : Place) (o : Option Bytes) (s : Bytes) → accepted (check_regex x p o s) ≡ like o s
  regex_lem p none s = refl
  regex_lem p (some source) s = elim (Option-cases (x.regex source)) [
    | inl e ↦ rw e refl
    | inr (re, e) ↦ rw e (ground arith)
  ]

  text_lem : (f : FieldIr F) (s : Bytes) (p : Place) → accepted (check_text x f s p) ≡ text_fits f s
  unfolding check_text
  text_lem f s p = ground (arith, outside_lem f (len_f64 x s), regex_lem p f.regex s)

  number_lem :
      (f : FieldIr F) (n : F) (p : Place) → accepted (check_number x f n p) ≡ number_fits f n
  unfolding check_number
  number_lem f n p = ground (arith, outside_lem f n)

  items_lem :
      (check : Value N → Place → Result (Unit {0})) (test : Value N → Bool)
      → ((v : Value N) (p : Place) → accepted (check v p) ≡ test v)
      → (vs : Values N) (p : Place) (i : ℕ)
      → accepted (check_items x check vs p i) ≡ all_items test vs
  unfolding check_items
  items_lem check test h empty p i = refl
  items_lem check test h (item v vs) p i =
      ground (arith, h v (at_item p i), items_lem check test h vs p (suc i))

  value_lem :
      (t : FieldType) (f : FieldIr F) (v : Value N) (p : Place)
      → accepted (check_value x t f v p) ≡ fits t f v
  unfolding check_value fits
  value_lem FieldType.id f null p = refl
  value_lem FieldType.id f (bool b) p = refl
  value_lem FieldType.id f (number n) p = refl
  value_lem FieldType.id f (string s) p = text_lem f s p
  value_lem FieldType.id f (array vs) p = refl
  value_lem FieldType.id f (object ms) p = refl
  value_lem FieldType.string f null p = refl
  value_lem FieldType.string f (bool b) p = refl
  value_lem FieldType.string f (number n) p = refl
  value_lem FieldType.string f (string s) p = text_lem f s p
  value_lem FieldType.string f (array vs) p = refl
  value_lem FieldType.string f (object ms) p = refl
  value_lem FieldType.bool f null p = refl
  value_lem FieldType.bool f (bool b) p = refl
  value_lem FieldType.bool f (number n) p = refl
  value_lem FieldType.bool f (string s) p = refl
  value_lem FieldType.bool f (array vs) p = refl
  value_lem FieldType.bool f (object ms) p = refl
  value_lem FieldType.enum f null p = refl
  value_lem FieldType.enum f (bool b) p = refl
  value_lem FieldType.enum f (number n) p = refl
  value_lem FieldType.enum f (string s) p = ground arith
  value_lem FieldType.enum f (array vs) p = refl
  value_lem FieldType.enum f (object ms) p = refl
  value_lem FieldType.date f null p = refl
  value_lem FieldType.date f (bool b) p = refl
  value_lem FieldType.date f (number n) p = refl
  value_lem FieldType.date f (string s) p = refl
  value_lem FieldType.date f (array vs) p = refl
  value_lem FieldType.date f (object ms) p = refl
  value_lem FieldType.number f v p = elim (Option-cases (as_f64 x v)) [
    | inl e ↦ rw e refl
    | inr (n, e) ↦ rw e (number_lem f n p)
  ]
  value_lem (FieldType.array t) f null p = refl
  value_lem (FieldType.array t) f (bool b) p = refl
  value_lem (FieldType.array t) f (number n) p = refl
  value_lem (FieldType.array t) f (string s) p = refl
  value_lem (FieldType.array t) f (array vs) p =
      items_lem (λ w q. check_value x t f w q) (λ w. fits t f w) (λ w q. value_lem t f w q) vs p 0
  value_lem (FieldType.array t) f (object ms) p = refl

  -- The checks on what a document holds under the name of a field accept exactly what the field means.
  pub member_lem :
      (f : FieldIr F) (o : Option (Value N)) → accepted (check_member x f o) ≡ meets f o
  unfolding check_member check_field meets
  member_lem f none = ground arith
  member_lem f (some null) = ground arith
  member_lem f (some (bool b)) = value_lem f.ty f (bool b) _
  member_lem f (some (number n)) = value_lem f.ty f (number n) _
  member_lem f (some (string s)) = value_lem f.ty f (string s) _
  member_lem f (some (array vs)) = value_lem f.ty f (array vs) _
  member_lem f (some (object ms)) = value_lem f.ty f (object ms) _
