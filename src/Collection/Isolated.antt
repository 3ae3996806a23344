-- ===== src/Collection/Isolated.antt =====
-- That `insert` and `delete` of crates/nookdb-core/src/collection.rs keep the index of every other
-- collection consistent: all collections share one table of documents and one table of index entries.
use nookdb.Prelude.{◌≡◌, ◌≢◌, ◌∙◌, false, List, [], ◌∷◌, inl, inr, All, find, Option-cases}
use nookdb.Bytes.{Bytes, beq_distinct, contains}
use nookdb.Codec.Keys.{IsName}
use nookdb.Collection.{Collection}
use nookdb.Collection.Indexed.{IsConsistent, Agrees}
use nookdb.Collection.Consistent.{Consistent, index-insert}
use nookdb.Collection.Deleted.{delete-IsDeleted}
use nookdb.Collection.Inserted.{taken, insert_lem, insert-conflict}
use nookdb.Collection.Kept.{NulFree, IsForeign, other-IsForeign, lookup-with_foreign}
use nookdb.Collection.Planned.{HasTexts}
use nookdb.Collection.Writes.{prepare, insert, insert_prepared, delete}
use nookdb.Database.{Database}
use nookdb.Database.Atomic.{view}
use nookdb.Error.{Result-cases}
use nookdb.Json.{Value, External}
use nookdb.Notify.{Observers}
use nookdb.Redb.{Redb, IsLawful}
use nookdb.Rows.{Rows, lookup}
use nookdb.Schema.Ir.{IndexIr}
use nookdb.Storage.Pure.{table_rows}

module _ {N F : Type 0} (x : External N F) (e : Collection F) (named : contains e.name 0 ≡ false)
    (c : Bytes) (hc : contains c 0 ≡ false) (other : c ≢ e.name) (index index' rows : Rows)
    (same : (k : Bytes) → IsForeign c k → lookup k index' ≡ lookup k index) where
  foreign-all :
      (idxs : List IndexIr) → All (Agrees x e index rows) idxs → All (Agrees x e index' rows) idxs
  foreign-all [] h = tt
  foreign-all (idx ∷ idxs) h = (
    λ v j clean. same _ (other-IsForeign c e.name idx.field v j hc named other) ∙ h.0 v j clean,
    foreign-all idxs h.1,
  )

  -- A change of the entries of another collection only.
  foreign-IsConsistent : IsConsistent x e index rows → IsConsistent x e index' rows
  foreign-IsConsistent con = record {
    filed = con.filed;
    nul_free = con.nul_free;
    agrees = foreign-all e.ir.indexes con.agrees;
  }

module _ {N F T W : Type 0} (x : External N F) (r : Redb T) (law : IsLawful r) (obs : Observers W)
    (c e : Collection F) (name : IsName c.name) (name' : IsName e.name)
    (other : c.name ≢ e.name) where
  -- Over a lawful engine, an `insert` into one collection, whether it succeeds or fails, keeps the
  -- index of every collection with another name consistent.
  pub insert-elsewhere :
      (db : Database T) (w : W) (doc : Value N)
      → Consistent x r law e db
      → Consistent x r law e (insert x r c obs db w doc).1
  unfolding insert insert_prepared
  insert-elsewhere db w doc con = elim (Result-cases (prepare x r c doc)) [
    | inr (y, p) ↦ rw p con
    | inl (pair, p) ↦
        elim (Option-cases
          (find (taken x r law c (table_rows r law db.store.index) doc) c.ir.indexes)) [
            | inr (hit, h) ↦ rw (insert-conflict x r law c obs db w doc pair.0 pair.1 hit p h) con
            | inl h ↦
                rw
                  (
                    index-insert x r law c obs db w doc pair.0 pair.1 name p h,
                    (insert_lem x r law c obs db w doc pair.0 pair.1 e.name name name' p h).1,
                    beq_distinct c.name e.name other,
                  )
                  (foreign-IsConsistent x e name'.nul_free c.name name.nul_free other
                    (table_rows r law db.store.index) _ (view r law db e.name)
                    (λ k f.
                      lookup-with_foreign x c doc pair.0 k f c.ir.indexes
                        (table_rows r law db.store.index))
                    con)
          ]
  ]

  -- So does a `delete` from a collection that is consistent itself.
  pub delete-elsewhere :
      (db : Database T) (w : W) (q : Value N)
      → All NulFree c.ir.indexes
      → Consistent x r law c db
      → HasTexts x q
      → Consistent x r law e db
      → Consistent x r law e (delete x r c obs db w q).1
  delete-elsewhere db w q hs mine t con =
      let gone = delete-IsDeleted x r law c db name hs mine q obs w t in
      rw (gone.rows_left e.name name', beq_distinct c.name e.name other)
        (foreign-IsConsistent x e name'.nul_free c.name name.nul_free other
          (table_rows r law db.store.index) _ (view r law db e.name) gone.foreign con)
