-- ===== src/Collection/Consistent.antt =====
-- About `insert` of crates/nookdb-core/src/collection.rs: the index stays consistent, whatever comes
-- of the call.
use nookdb.Prelude.{
  ◌≡◌, ◌∙◌, refl, sym, ap, Bool-cases, false, Option, none, some, List, [], ◌∷◌, inl, inr, All,
  find, arith, Option-cases,
}
use nookdb.Bytes.{Bytes, contains, beq_refl}
use nookdb.Codec.Keys.{IsName}
use nookdb.Collection.{Collection}
use nookdb.Collection.Filter.{doc_id}
use nookdb.Collection.Indexed.{IsConsistent}
use nookdb.Collection.Inserted.{
  taken, with_entries, insert_validated_ok, insert_lem, insert-conflict,
}
use nookdb.Collection.Kept.{NulFree, with_rows, insert-kept}
use nookdb.Collection.Writes.{prepare, insert, insert_prepared, insert_validated_in_tx}
use nookdb.Database.{Database}
use nookdb.Database.Atomic.{view, fresh, rows-opened, write-commit}
use nookdb.Doc.{decode_document, encode_document}
use nookdb.Query.{opt_str}
use nookdb.Error.{ok, err, bad_schema, no_id, invalid_argument, nul_id, Result-cases}
use nookdb.Json.{Value, null, bool, number, array, object, External, get, string}
use nookdb.Notify.{Observers}
use nookdb.Redb.{Redb, IsLawful}
use nookdb.Rows.{lookup}
use nookdb.Schema.Ir.{IndexIr}
use nookdb.Schema.Validate.{validate_document}
use nookdb.Storage.Pure.{table_rows}

opt_str-some :
    {N : Type 0} (o : Option (Value N)) (k : Bytes) → opt_str o ≡ some k → o ≡ some (string k)
opt_str-some none k h = ground (arith, h)
opt_str-some (some null) k h = ground (arith, h)
opt_str-some (some (bool b)) k h = ground (arith, h)
opt_str-some (some (number n)) k h = ground (arith, h)
opt_str-some (some (string s)) k h = ground (arith, h)
opt_str-some (some (array vs)) k h = ground (arith, h)
opt_str-some (some (object ms)) k h = ground (arith, h)

module _ {N F T : Type 0} (x : External N F) (r : Redb T) (law : IsLawful r)
    (c : Collection F) where
  open law use {rows}

  -- The collection is consistent in the committed state.
  abbrev pub Consistent : Database T → Type 0
  Consistent db = IsConsistent x c (table_rows r law db.store.index) (view r law db c.name)

  -- What a prepared document is.
  pub prepare-id :
      (doc : Value N) (id stored : Bytes)
      → prepare x r c doc ≡ ok (id, stored)
      → (get doc c.ir.id_field ≡ some (string id)) × (contains id 0 ≡ false)
  unfolding prepare doc_id
  prepare-id doc id stored h = elim (Result-cases (validate_document x c.ir doc)) [
    | inr (y, v) ↦ let g : err y ≡ ok (id, stored) = rw v at h in absurd (ground (arith, g))
    | inl (_, v) ↦ elim (Option-cases (opt_str (get doc c.ir.id_field))) [
      | inl o ↦
          let g : err (bad_schema (no_id c.ir.id_field)) ≡ ok (id, stored) = rw (v, o) at h in
          absurd (ground (arith, g))
      | inr (k, o) ↦ elim (Bool-cases (contains k 0)) [
        | inl z ↦
            let g : err (invalid_argument (nul_id c.ir.id_field)) ≡ ok (id, stored) =
              rw (v, o, z) at h in
            absurd (ground (arith, g))
        | inr z ↦ elim (Result-cases (encode_document x doc c.codec)) [
          | inr (y, q) ↦
              let g : err y ≡ ok (id, stored) = rw (v, o, z, q) at h in absurd (ground (arith, g))
          | inl (b, q) ↦
              let g : ok (k, b) ≡ ok (id, stored) = rw (v, o, z, q) at h in
              let same : k ≡ id = ground (arith, g) in
              (
                opt_str-some (get doc c.ir.id_field) id (o ∙ ap some same),
                ap (λ t. contains t 0) (sym same) ∙ z,
              )
        ]
      ]
    ]
  ]

  rows-with_entries :
      (doc : Value N) (id : Bytes) (idxs : List IndexIr) (t : T)
      → rows (with_entries x r law c doc id idxs t) ≡ with_rows x c doc id idxs (rows t)
  rows-with_entries doc id [] t = refl
  rows-with_entries doc id (idx ∷ idxs) t =
      rw (rows-with_entries doc id idxs, law.rows-inserted) refl

  module _ {W : Type 0} (obs : Observers W) (db : Database T) (w : W) where
    pub index-insert :
        (doc : Value N) (id stored : Bytes)
        → IsName c.name
        → prepare x r c doc ≡ ok (id, stored)
        → find (taken x r law c (table_rows r law db.store.index) doc) c.ir.indexes ≡ none
        → table_rows r law (insert x r c obs db w doc).1.store.index
          ≡ with_rows x c doc id c.ir.indexes (table_rows r law db.store.index)
    unfolding insert insert_prepared table_rows
    index-insert doc id stored n p h =
        let k : find (taken x r law c (rows (fresh r law db).index_table) doc) c.ir.indexes ≡ none =
          rw (rows-opened r law) h in
        rw
          (
            p,
            write-commit r law obs db w (insert_validated_in_tx x r c doc id stored) tt _
                (insert_validated_ok x r law c doc id stored (fresh r law db) n k),
          )
          (rows-with_entries doc id c.ir.indexes _ ∙ rw (rows-opened r law) refl)

    insert_made :
        (doc : Value N) (id stored : Bytes)
        → IsName c.name
        → All NulFree c.ir.indexes
        → Consistent db
        → prepare x r c doc ≡ ok (id, stored)
        → find (taken x r law c (table_rows r law db.store.index) doc) c.ir.indexes ≡ none
        → lookup id (view r law db c.name) ≡ none
        → decode_document x stored c.codec ≡ ok doc
        → Consistent (insert x r c obs db w doc).1
    insert_made doc id stored n hs con p h fresh back =
        let own = prepare-id doc id stored p in
        rw
          (
            index-insert doc id stored n p h,
            (insert_lem x r law c obs db w doc id stored c.name n n p h).1,
            beq_refl c.name,
          )
          (insert-kept x c doc id n.nul_free own.1 stored back (table_rows r law db.store.index)
            (view r law db c.name) hs con own.0 fresh)

    -- Over a lawful engine, for a collection and indexed fields with names without NUL: if the
    -- index is consistent with the documents, then it is so after an `insert`, whether this
    -- succeeds or fails, provided that no document has the id of the new one, and that its stored
    -- bytes decode to it.
    pub insert-IsConsistent :
        (doc : Value N)
        → IsName c.name
        → All NulFree c.ir.indexes
        → Consistent db
        → ((id stored : Bytes)
            → prepare x r c doc ≡ ok (id, stored)
            → (lookup id (view r law db c.name) ≡ none)
              × (decode_document x stored c.codec ≡ ok doc))
        → Consistent (insert x r c obs db w doc).1
    unfolding insert insert_prepared
    insert-IsConsistent doc n hs con new = elim (Result-cases (prepare x r c doc)) [
      | inr (y, p) ↦ rw p con
      | inl (pair, p) ↦
          elim (Option-cases
            (find (taken x r law c (table_rows r law db.store.index) doc) c.ir.indexes)) [
              | inl h ↦
                  let f = new pair.0 pair.1 p in insert_made doc pair.0 pair.1 n hs con p h f.0 f.1
              | inr (hit, h) ↦ rw (insert-conflict x r law c obs db w doc pair.0 pair.1 hit p h) con
            ]
    ]
