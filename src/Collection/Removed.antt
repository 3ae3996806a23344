-- ===== src/Collection/Removed.antt =====
-- About `delete` of crates/nookdb-core/src/collection.rs: which documents it removes, and that the
-- index stays consistent.
use nookdb.Prelude.{
  ◌≡◌, ◌∙◌, refl, sym, false, some, List, [], ◌∷◌, ◌++◌, All, map, arith, if◌then◌else◌,
  append_assoc, append-nil,
}
use nookdb.Bytes.{Bytes, beq, beq_refl, contains}
use nookdb.Codec.Keys.{IsName}
use nookdb.Collection.{Collection}
use nookdb.Collection.Filter.{doc_id}
use nookdb.Collection.Writes.{delete_victims_in_tx, delete_entries, indexed}
use nookdb.Collection.ByScan.{IsFiled}
use nookdb.Collection.Indexed.{IsConsistent, docs_of}
use nookdb.Collection.Kept.{IsForeign, lookup-without_foreign, NulFree, without_rows, remove-kept}
use nookdb.Error.{ok}
use nookdb.Index.{key, encode_index_value, delete_index_entry}
use nookdb.Json.{Value, External, get, string}
use nookdb.Notify.{ChangeOp, DocChange}
use nookdb.Redb.{Redb, IsLawful}
use nookdb.Rows.{Rows, lookup, remove, IsSorted, user_rows}
use nookdb.Rows.Users.{composite, user_rows-remove, user_rows-IsSorted}
use nookdb.Rows.Erased.{erased, found_past}
use nookdb.Schema.Ir.{IndexIr}
use nookdb.Storage.Pure.{delete_ok, index_delete_ok, change}
use nookdb.Storage.Tx.{WriteTx}

module _ {N F T : Type 0} (x : External N F) (r : Redb T) (law : IsLawful r)
    (c : Collection F) where
  open law use {rows, removed}

  abbrev without_entries : Value N → Bytes → List IndexIr → T → T
  without_entries doc id [] t = t
  without_entries doc id (idx ∷ idxs) t =
      without_entries doc id idxs
        (removed t (key c.name idx.field (encode_index_value x (indexed doc idx)) id))

  delete_entries_ok :
      (doc : Value N) (id : Bytes) (idxs : List IndexIr) (tx : WriteTx T)
      → delete_entries x r c doc id idxs tx
        ≡ ok (tt, record tx { index_table = without_entries doc id idxs tx.index_table })
  unfolding delete_entries delete_index_entry
  delete_entries_ok doc id [] tx = refl
  delete_entries_ok doc id (idx ∷ idxs) tx =
      let k = key c.name idx.field (encode_index_value x (indexed doc idx)) id in
      ground (
        arith,
        index_delete_ok r law k tx,
        delete_entries_ok doc id idxs (record tx { index_table = removed tx.index_table k }),
      )

  rows-without_entries :
      (doc : Value N) (id : Bytes) (idxs : List IndexIr) (t : T)
      → rows (without_entries doc id idxs t) ≡ without_rows x c doc id idxs (rows t)
  rows-without_entries doc id [] t = refl
  rows-without_entries doc id (idx ∷ idxs) t =
      rw (rows-without_entries doc id idxs, law.rows-removed) refl

  abbrev pub deletions : Rows → List DocChange
  deletions part = map (λ row. change c.name ChangeOp.delete row.0) part

  own_id :
      (d : Value N) (id : Bytes) → get d c.ir.id_field ≡ some (string id) → doc_id c.ir d ≡ ok id
  unfolding doc_id
  own_id d id h = rw h

  -- What the loop over the victims leaves.
  pub record Left (part : Rows) (tx : WriteTx T) : Type 0 where
    pub after : WriteTx T
    pub removed_ok : delete_victims_in_tx x r c (docs_of x c part) tx ≡ ok (tt, after)
    pub others :
        (d : Bytes)
        → IsName d
        → user_rows d (rows after.table) ≡ (
            if beq c.name d
            then erased part (user_rows d (rows tx.table))
            else user_rows d (rows tx.table))
    pub kept : IsConsistent x c (rows after.index_table) (user_rows c.name (rows after.table))
    pub foreign :
        (k : Bytes)
        → IsForeign c.name k
        → lookup k (rows after.index_table) ≡ lookup k (rows tx.index_table)
    pub told : after.touched ≡ tx.touched ++ deletions part

  module _ (name : IsName c.name) (hs : All NulFree c.ir.indexes) where
    -- The transaction after the loop has removed one victim.
    abbrev next : Value N → Bytes → WriteTx T → WriteTx T
    next d id tx = record {
      table = removed tx.table (composite c.name id);
      index_table = without_entries d id c.ir.indexes tx.index_table;
      touched = tx.touched ++ change c.name ChangeOp.delete id ∷ [];
    }

    rows_next :
        (d : Value N) (id : Bytes) (tx : WriteTx T) (other : Bytes)
        → IsName other
        → user_rows other (rows (next d id tx).table) ≡ (
            if beq c.name other
            then remove id (user_rows other (rows tx.table))
            else user_rows other (rows tx.table))
    rows_next d id tx other n =
        rw (law.rows-removed)
          (user_rows-remove other c.name id (rows tx.table) n name (law.rows-IsSorted tx.table))

    victim_ok :
        (d : Value N) (id stored : Bytes) (ds : List (Value N)) (tx : WriteTx T)
        → get d c.ir.id_field ≡ some (string id)
        → lookup id (user_rows c.name (rows tx.table)) ≡ some stored
        → delete_victims_in_tx x r c (d ∷ ds) tx ≡ delete_victims_in_tx x r c ds (next d id tx)
    unfolding delete_victims_in_tx
    victim_ok d id stored ds tx own there = ground (
      arith,
      own_id d id own,
      delete_entries_ok d id c.ir.indexes tx,
      delete_ok r law c.name id
          (record tx { index_table = without_entries d id c.ir.indexes tx.index_table }) name,
      there,
    )

    pub left :
        (part : Rows) (tx : WriteTx T)
        → IsSorted part
        → All (IsFiled x c) part
        → All (λ row. contains row.0 0 ≡ false) part
        → All (λ row. lookup row.0 (user_rows c.name (rows tx.table)) ≡ some row.1) part
        → IsConsistent x c (rows tx.index_table) (user_rows c.name (rows tx.table))
        → Left part tx
    unfolding delete_victims_in_tx
    left [] tx s f z h con = record {
      after = tx;
      removed_ok = refl;
      others = λ d n. ground arith;
      kept = con;
      foreign = λ k f. refl;
      told = sym (append-nil tx.touched);
    }
    left ((j, v) ∷ part) tx s f z h con =
        let d = f.0.doc in
        let mine : user_rows c.name (rows (next d j tx).table)
            ≡ remove j (user_rows c.name (rows tx.table)) =
          rows_next d j tx c.name name ∙ (rw (beq_refl c.name) refl) in
        let sorted = user_rows-IsSorted c.name (rows tx.table) (law.rows-IsSorted tx.table) in
        let still =
          remove-kept x c d j name.nul_free z.0 v f.0.decoded (rows tx.index_table)
            (user_rows c.name (rows tx.table)) hs con (law.rows-IsSorted tx.index_table) sorted
            h.0 in
        let rest =
          left part (next d j tx) s.1 f.1 z.1
            (rw mine (found_past j (user_rows c.name (rows tx.table)) part sorted s.0 h.1))
            (rw (rows-without_entries d j c.ir.indexes tx.index_table, mine) still) in
        record {
          after = rest.after;
          removed_ok =
              rw f.0.decoded
                (victim_ok d j v (docs_of x c part) tx f.0.filed h.0 ∙ rest.removed_ok);
          others = λ o n. rest.others o n ∙ (rw (rows_next d j tx o n) (ground arith));
          kept = rest.kept;
          foreign = λ k g.
              rest.foreign k g
              ∙ (rw (rows-without_entries d j c.ir.indexes tx.index_table) (
                  lookup-without_foreign x c d j k g c.ir.indexes (rows tx.index_table)
                    (law.rows-IsSorted tx.index_table)));
          told =
              rest.told
              ∙ append_assoc tx.touched (change c.name ChangeOp.delete j ∷ []) (deletions part);
        }
