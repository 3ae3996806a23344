-- ===== src/Schema/WellFormed.antt =====
-- About the schemas that `compile` of crates/nookdb-core/src/schema/ir.rs accepts.
use mathlib.Core.Bool.{false≢true}
use mathlib.Core.Path.{subst₂}
use nookdb.Prelude.{
  Option-cases, subst, sym, ◌∙◌, Bool-cases, ◌≡◌, ◌≢◌, true, false, ◌&&◌, ◌||◌, Option, some, List,
  [], ◌∷◌, arith, find, any, All, inl, inr,
}
use nookdb.Bytes.{Bytes, bytes, beq, beq_iff}
use nookdb.Error.{ok, Result-cases}
use nookdb.Schema.Ir.{
  FieldIr, IndexIr, CollectionIr, SchemaIr, RawIndex, RawCollection, is_id, is_array, collection,
  lookup_collection,
}
use nookdb.Schema.Compile.{
  compile, compile_all, compile_collection, compile_fields, compile_index, compile_indexes,
  validate_id_field,
}

-- An index stands on a declared field that is required, not nullable and not an array.
abbrev pub IsIndexable : {F : Type 0} → List (FieldIr F) → IndexIr → Type 0
IsIndexable {F} fields idx =
    (f : FieldIr F) × (find (λ g. beq g.name idx.field) fields ≡ some f)
    × (f.optional ≡ false)
    × (f.nullable ≡ false)
    × (is_array f.ty ≡ false)

pub record IsWellFormed {F : Type 0} (name : Bytes) (c : CollectionIr F) : Type 0 where
  pub not_reserved : name ≢ bytes "_meta"
  pub has_id : any (λ f. beq f.name c.id_field && is_id f.ty) c.fields ≡ true
  pub indexable : All (IsIndexable c.fields) c.indexes

module _ {F : Type 0} where
  compile_index-IsIndexable :
      (cname : Bytes) (raw : RawIndex) (fields : List (FieldIr F)) (idx : IndexIr)
      → compile_index cname raw fields ≡ ok idx
      → IsIndexable fields idx
  unfolding compile_index
  compile_index-IsIndexable cname raw fields idx h =
      elim (Option-cases (find (λ g. beq g.name raw.field) fields)) [
        | inl missing ↦ absurd (ground arith)
        | inr (fld, found) ↦
            let e : raw.field ≡ idx.field = ground arith in
            let p : (fld.optional || fld.nullable) ≡ false = ground arith in
            (
              fld,
              subst (λ b. find (λ g. beq g.name b) fields ≡ some fld) e found,
              ground arith,
              ground arith,
              ground arith,
            )
      ]

  compile_indexes-All :
      (cname : Bytes) (raws : List RawIndex) (fields : List (FieldIr F)) (idxs : List IndexIr)
      → compile_indexes cname raws fields ≡ ok idxs
      → All (IsIndexable fields) idxs
  unfolding compile_indexes
  compile_indexes-All cname [] fields idxs h = ground arith
  compile_indexes-All cname (raw ∷ raws) fields idxs h =
      elim (Result-cases (compile_index cname raw fields)) [
        | inr (e, p) ↦ absurd (ground arith)
        | inl (idx, p) ↦ elim (Result-cases (compile_indexes cname raws fields)) [
          | inr (e, q) ↦ absurd (ground arith)
          | inl (rest, q) ↦
              let e : idx ∷ rest ≡ idxs = ground arith in
              subst (All (IsIndexable fields)) e (
                compile_index-IsIndexable cname raw fields idx p,
                compile_indexes-All cname raws fields rest q,
              )
        ]
      ]

  validate_id_field-any :
      (cname id_field : Bytes) (fields : List (FieldIr F)) (u : Unit {0})
      → validate_id_field cname id_field fields ≡ ok u
      → any (λ f. beq f.name id_field && is_id f.ty) fields ≡ true
  unfolding validate_id_field
  validate_id_field-any cname id_field fields u h = ground arith

  compile_collection-IsWellFormed :
      (cname : Bytes) (rc : RawCollection F) (c : CollectionIr F)
      → compile_collection cname rc ≡ ok c
      → IsWellFormed cname c
  unfolding compile_collection
  compile_collection-IsWellFormed cname rc c h =
      elim (Result-cases (compile_fields cname rc.fields)) [
        | inr (e, p) ↦ absurd (ground arith)
        | inl (fields, p) ↦ elim (Result-cases (compile_indexes cname rc.indexes fields)) [
          | inr (e, q) ↦ absurd (ground arith)
          | inl (idxs, q) ↦
              let e : ◌≡◌ {A = CollectionIr F}
                  (record { id_field = rc.id_field; fields = fields; indexes = idxs }) c =
                ground arith in
              let name : beq cname (bytes "_meta") ≡ false = ground arith in
              let v : validate_id_field cname rc.id_field fields ≡ ok tt = ground arith in
              subst (IsWellFormed cname) e (record {
                not_reserved = λ k. false≢true (sym name ∙ (beq_iff cname (bytes "_meta")).1 k);
                has_id = validate_id_field-any cname rc.id_field fields tt v;
                indexable = compile_indexes-All cname rc.indexes fields idxs q;
              })
        ]
      ]

  -- A collection that is found is the first one, under its name, or stands among the others.
  found_among :
      (n : Bytes) (d : CollectionIr F) (ds : List (Bytes × CollectionIr F)) (name : Bytes)
      (c : CollectionIr F)
      → lookup_collection name ((n, d) ∷ ds) ≡ some c
      → IsWellFormed n d
      → (lookup_collection name ds ≡ some c → IsWellFormed name c)
      → IsWellFormed name c
  unfolding lookup_collection
  found_among n d ds name c h here there = elim (Bool-cases (beq n name)) [
    | inl same ↦
        let e : d ≡ c = ground arith in subst₂ IsWellFormed ((beq_iff n name).0 same) e here
    | inr other ↦ there (ground arith)
  ]

  compile_all-IsWellFormed :
      (raw : List (Bytes × RawCollection F)) (cs : List (Bytes × CollectionIr F)) (name : Bytes)
      (c : CollectionIr F)
      → compile_all raw ≡ ok cs
      → lookup_collection name cs ≡ some c
      → IsWellFormed name c
  unfolding compile_all
  compile_all-IsWellFormed [] cs name c h g = absurd (unfold lookup_collection in ground arith)
  compile_all-IsWellFormed ((n, rc) ∷ raw) cs name c h g =
      elim (Result-cases (compile_collection n rc)) [
        | inr (e, p) ↦ absurd (ground arith)
        | inl (d, p) ↦ elim (Result-cases (compile_all raw)) [
          | inr (e, q) ↦ absurd (ground arith)
          | inl (ds, q) ↦
              let e : ◌≡◌ {A = List (Bytes × CollectionIr F)} cs ((n, d) ∷ ds) = ground arith in
              let k : lookup_collection name ((n, d) ∷ ds) ≡ some c =
                subst (λ l. lookup_collection name l ≡ some c) e g in
              found_among n d ds name c k (compile_collection-IsWellFormed n rc d p)
                (compile_all-IsWellFormed raw ds name c q)
        ]
      ]

  -- Every collection that a compiled schema has under a name has a declared id field of type id,
  -- indexes only on declared fields that are required, not nullable and not arrays, and a name
  -- that is not the reserved one.
  pub compile-IsWellFormed :
      (decode : Bytes → Option (List (Bytes × RawCollection F))) (text : Bytes) (s : SchemaIr F)
      (name : Bytes) (c : CollectionIr F)
      → compile decode text ≡ ok s
      → collection s name ≡ some c
      → IsWellFormed name c
  unfolding compile collection
  compile-IsWellFormed decode text s name c h g = elim (Option-cases (decode text)) [
    | inl p ↦ absurd (ground arith)
    | inr (raw, p) ↦ elim (Result-cases (compile_all raw)) [
      | inr (e, q) ↦ absurd (ground arith)
      | inl (cs, q) ↦
          let e : s.collections ≡ cs = ground arith in
          compile_all-IsWellFormed raw cs name c q
            (subst (λ l. lookup_collection name l ≡ some c) e g)
    ]
  ]
