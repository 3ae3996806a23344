-- ===== src/Schema/Accepted.antt =====
-- About the documents that crates/nookdb-core/src/schema/validate.rs accepts.
use mathlib.Core.Logic.{◌↔◌}
use nookdb.Prelude.{
  Option-cases, Bool-cases, ◌≡◌, ◌∙◌, sym, ap, Bool, true, false, ◌&&◌, Option, none, some, List,
  [], ◌∷◌, arith, find, All, inl, inr, is_some, subst,
}
use nookdb.Bytes.{beq, beq_iff}
use nookdb.Error.{ok, Result-cases}
use nookdb.Json.{
  Value, Members, null, bool, number, string, array, end, member, object, External, get_member, get,
}
use nookdb.Schema.Ir.{FieldIr, IndexIr, CollectionIr, field}
use nookdb.Schema.Validate.{validate_document, check_keys, check_fields, check_member}
use nookdb.Schema.Meaning.{meets, member_lem, accepted, accepted_ok}
use nookdb.Schema.WellFormed.{IsIndexable}

-- Every key of an object names a declared field.
abbrev pub keys_declared : {N F : Type 0} → CollectionIr F → Members N → Bool
keys_declared c end = true
keys_declared c (member key v ms) = is_some (field c key) && keys_declared c ms

abbrev pub is_null : {N : Type 0} → Value N → Bool
is_null null = true
is_null _ = false

module _ {N F : Type 0} (x : External N F) where
  -- The keys of an object are declared, and it holds under the name of each declared field what the
  -- field means.
  abbrev pub Conforms : CollectionIr F → Members N → Type 0
  Conforms c obj =
      (keys_declared c obj ≡ true) × All (λ f. meets x f (get_member f.name obj) ≡ true) c.fields

  means :
      (obj : Members N) (fs : List (FieldIr F))
      → All (λ f. check_member x f (get_member f.name obj) ≡ ok tt) fs
      → All (λ f. meets x f (get_member f.name obj) ≡ true) fs
  means obj [] h = tt
  means obj (f ∷ fs) h =
      (sym (member_lem x f (get_member f.name obj)) ∙ ap accepted h.0, means obj fs h.1)

  meant :
      (obj : Members N) (fs : List (FieldIr F))
      → All (λ f. meets x f (get_member f.name obj) ≡ true) fs
      → All (λ f. check_member x f (get_member f.name obj) ≡ ok tt) fs
  meant obj [] h = tt
  meant obj (f ∷ fs) h =
      (accepted_ok _ (member_lem x f (get_member f.name obj) ∙ h.0), meant obj fs h.1)

  keys_done :
      (c : CollectionIr F) (obj : Members N)
      → check_keys x c obj ≡ ok tt
      → keys_declared c obj ≡ true
  unfolding check_keys
  keys_done c end h = ground arith
  keys_done c (member key v ms) h = elim (Option-cases (field c key)) [
    | inl p ↦ absurd (ground arith)
    | inr (f, p) ↦ let rest = keys_done c ms (ground arith) in ground arith
  ]

  keys_back :
      (c : CollectionIr F) (obj : Members N)
      → keys_declared c obj ≡ true
      → check_keys x c obj ≡ ok tt
  unfolding check_keys
  keys_back c end h = ground arith
  keys_back c (member key v ms) h = elim (Option-cases (field c key)) [
    | inl p ↦ absurd (ground arith)
    | inr (f, p) ↦ let rest = keys_back c ms (ground arith) in ground arith
  ]

  fields_done :
      (fs : List (FieldIr F)) (obj : Members N)
      → check_fields x fs obj ≡ ok tt
      → All (λ f. check_member x f (get_member f.name obj) ≡ ok tt) fs
  unfolding check_fields
  fields_done [] obj h = tt
  fields_done (f ∷ fs) obj h = elim (Result-cases (check_member x f (get_member f.name obj))) [
    | inr (e, q) ↦ absurd (ground arith)
    | inl (u, q) ↦ (q, fields_done fs obj (ground arith))
  ]

  fields_back :
      (fs : List (FieldIr F)) (obj : Members N)
      → All (λ f. check_member x f (get_member f.name obj) ≡ ok tt) fs
      → check_fields x fs obj ≡ ok tt
  unfolding check_fields
  fields_back [] obj h = ground arith
  fields_back (f ∷ fs) obj h = rw (h.0, fields_back fs obj h.1)

  -- An object is accepted exactly if each of its keys names a declared field, and for each declared
  -- field it holds nothing and the field is optional, or `null` and the field is nullable, or else a
  -- value of the field's type within its bounds, its variants and its pattern, and so for every item
  -- of an array.
  pub validate_document_iff :
      (c : CollectionIr F) (obj : Members N)
      → (validate_document x c (object obj) ≡ ok tt) ↔ Conforms c obj
  unfolding validate_document
  validate_document_iff c obj = (
    λ h. elim (Result-cases (check_keys x c obj)) [
      | inr (e, q) ↦ absurd (ground arith)
      | inl (u, q) ↦
          (keys_done c obj q, means obj c.fields (fields_done c.fields obj (ground arith)))
    ],
    λ h. rw (keys_back c obj h.0, fields_back c.fields obj (meant obj c.fields h.1)),
  )

  found_met :
      (p : FieldIr F → Bool) (fs : List (FieldIr F)) (obj : Members N) (f : FieldIr F)
      → All (λ e. check_member x e (get_member e.name obj) ≡ ok tt) fs
      → find p fs ≡ some f
      → (check_member x f (get_member f.name obj) ≡ ok tt) × (p f ≡ true)
  found_met p [] obj f h g = absurd (ground arith)
  found_met p (e ∷ fs) obj f h g = elim (Bool-cases (p e)) [
    | inl here ↦
        let same : e ≡ f = ground arith in
        subst (λ k. (check_member x k (get_member k.name obj) ≡ ok tt) × (p k ≡ true)) same
          (h.0, here)
    | inr there ↦ found_met p fs obj f h.1 (ground arith)
  ]

  met-present :
      (f : FieldIr F) (o : Option (Value N))
      → check_member x f o ≡ ok tt
      → f.optional ≡ false
      → f.nullable ≡ false
      → (v : Value N) × (o ≡ some v) × (is_null v ≡ false)
  unfolding check_member
  met-present f none h p q = absurd (ground arith)
  met-present f (some null) h p q = absurd (ground arith)
  met-present f (some (bool b)) h p q = (bool b, ground arith, ground arith)
  met-present f (some (number n)) h p q = (number n, ground arith, ground arith)
  met-present f (some (string s)) h p q = (string s, ground arith, ground arith)
  met-present f (some (array vs)) h p q = (array vs, ground arith, ground arith)
  met-present f (some (object ms)) h p q = (object ms, ground arith, ground arith)

  -- An object that validates has a value that is not null in the field of every index that the
  -- compiler accepts: one on a declared field that is required and not nullable.
  pub validate_document-indexed :
      (c : CollectionIr F) (obj : Members N) (idx : IndexIr)
      → validate_document x c (object obj) ≡ ok tt
      → IsIndexable c.fields idx
      → (v : Value N) × (get (object obj) idx.field ≡ some v) × (is_null v ≡ false)
  unfolding get
  validate_document-indexed c obj idx h (f, found, req, nn, scalar) =
      let met =
        found_met (λ g. beq g.name idx.field) c.fields obj f
          (meant obj c.fields ((validate_document_iff c obj).0 h).1) found in
      let name : f.name ≡ idx.field = (beq_iff f.name idx.field).0 met.1 in
      subst (λ k. (v : Value N) × (get_member k obj ≡ some v) × (is_null v ≡ false)) name
        (met-present f (get_member f.name obj) met.0 req nn)
