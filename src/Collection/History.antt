-- ===== src/Collection/History.antt =====
-- The documents and the indexes after any history of `insert` and `delete` calls of
-- crates/nookdb-core/src/collection.rs on the collections of a schema.
use nookdb.Prelude.{◌≡◌, refl, subst, none, List, [], ◌∷◌, inl, inr, All, Bool-cases}
use nookdb.Bytes.{Bytes, beq, beq_sound, beq_apart}
use nookdb.Codec.Keys.{IsName}
use nookdb.Collection.{Collection}
use nookdb.Collection.Consistent.{Consistent, insert-IsConsistent}
use nookdb.Collection.Deleted.{delete-IsDeleted}
use nookdb.Collection.Indexed.{Agrees}
use nookdb.Collection.Isolated.{insert-elsewhere, delete-elsewhere}
use nookdb.Collection.Kept.{NulFree}
use nookdb.Collection.Planned.{HasTexts}
use nookdb.Collection.Writes.{prepare, insert, delete}
use nookdb.Database.{Database}
use nookdb.Database.Atomic.{view}
use nookdb.Doc.{decode_document}
use nookdb.Error.{ok}
use nookdb.Json.{Value, External}
use nookdb.Notify.{Observers, Notifier}
use nookdb.Redb.{Redb, IsLawful}
use nookdb.Rows.{lookup, user_rows}
use nookdb.Schema.Ir.{IndexIr}
use nookdb.Storage.Pure.{table_rows}

-- Collections with accepted names, one for a name, and with indexes on fields without NUL.
pub record IsSchema {F : Type 0} (ours : Collection F → Type 0) : Type 0 where
  pub names : (c : Collection F) → ours c → IsName c.name
  pub fields : (c : Collection F) → ours c → All NulFree c.ir.indexes
  pub one_for_name : (c e : Collection F) → ours c → ours e → c.name ≡ e.name → c ≡ e

module _ {N F T W : Type 0} (x : External N F) (r : Redb T) (law : IsLawful r) (obs : Observers W)
    (ours : Collection F → Type 0) where
  -- The documents that a history may insert: under a new id, if they are accepted at all, and with
  -- stored bytes that decode to them.
  abbrev pub IsNew : Database T → Collection F → Value N → Type 0
  IsNew db c doc =
      (id stored : Bytes)
      → prepare x r c doc ≡ ok (id, stored)
      → (lookup id (view r law db c.name) ≡ none) × (decode_document x stored c.codec ≡ ok doc)

  pub data History : Database T → Type 0 where
    start :
        (n : Notifier)
        → History (record { store = record { entries = none; index = none }; notifier = n })
    inserts :
        {db : Database T} (c : Collection F) (w : W) (doc : Value N)
        → History db
        → ours c
        → IsNew db c doc
        → History (insert x r c obs db w doc).1
    deletes :
        {db : Database T} (c : Collection F) (w : W) (q : Value N)
        → History db
        → ours c
        → HasTexts x q
        → History (delete x r c obs db w q).1

  nothing-Agrees : (c : Collection F) (idxs : List IndexIr) → All (Agrees x c [] []) idxs
  unfolding lookup
  nothing-Agrees c [] = tt
  nothing-Agrees c (idx ∷ idxs) = (λ e id h. refl, nothing-Agrees c idxs)

  nothing-Consistent :
      (c : Collection F) (n : Notifier)
      → Consistent x r law c
          (record { store = record { entries = none; index = none }; notifier = n })
  unfolding view table_rows user_rows
  nothing-Consistent c n = record {
    filed = tt;
    nul_free = tt;
    agrees = nothing-Agrees c c.ir.indexes;
  }

  module _ (schema : IsSchema ours) where
    open schema use {names, fields, one_for_name}

    -- Over a lawful engine, for collections with accepted names, one for a name, and with indexed
    -- fields without NUL: after every history of inserts and deletes from an empty database,
    -- whether the calls succeed or fail, the index of each collection has exactly the entries of
    -- its documents, each of which is stored under its id, provided that each insert that gets past
    -- its checks is of an id that is not stored and of a document to which its stored bytes decode,
    -- and that each filter of a delete has values with one index text.
    pub History-Consistent :
        {db : Database T} → History db → (e : Collection F) → ours e → Consistent x r law e db
    History-Consistent (History.start n) e o = nothing-Consistent e n
    History-Consistent (History.inserts {db} c w doc h oc new) e o =
        elim (Bool-cases (beq c.name e.name)) [
          | inl q ↦
              subst (λ d. Consistent x r law d (insert x r c obs db w doc).1)
                (one_for_name c e oc o (beq_sound c.name e.name q))
                (insert-IsConsistent x r law c obs db w doc (names c oc) (fields c oc)
                  (History-Consistent h c oc) new)
          | inr q ↦
              insert-elsewhere x r law obs c e (names c oc) (names e o) (beq_apart c.name e.name q)
                db w doc (History-Consistent h e o)
        ]
    History-Consistent (History.deletes {db} c w q h oc t) e o =
        elim (Bool-cases (beq c.name e.name)) [
          | inl b ↦
              subst (λ d. Consistent x r law d (delete x r c obs db w q).1)
                (one_for_name c e oc o (beq_sound c.name e.name b))
                (delete-IsDeleted x r law c db (names c oc) (fields c oc)
                  (History-Consistent h c oc) q obs w t).consistent
          | inr b ↦
              delete-elsewhere x r law obs c e (names c oc) (names e o) (beq_apart c.name e.name b)
                db w q (fields c oc) (History-Consistent h c oc) t (History-Consistent h e o)
        ]
