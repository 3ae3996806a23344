-- ===== src/Storage/Within.antt =====
-- About reads in the write transaction of crates/nookdb-core/src/storage.rs that has written.
use nookdb.Prelude.{◌≡◌, false, some, [], ◌∷◌, ◌++◌, arith}
use nookdb.Bytes.{Bytes, beq_refl}
use nookdb.Codec.Keys.{IsName}
use nookdb.Error.{ok}
use nookdb.Redb.{Redb, IsLawful}
use nookdb.Notify.{ChangeOp}
use nookdb.Rows.{user_rows}
use nookdb.Rows.Laws.{lookup-insert}
use nookdb.Rows.Users.{composite, user_rows-insert}
use nookdb.Storage.Pure.{put_ok, write_get, change}
use nookdb.Storage.Tx.{WriteTx, ◌>>◌}
use nookdb.Storage.Write

module _ {T : Type 0} (r : Redb T) (law : IsLawful r) where
  open law use {rows, inserted, emptied}

  -- Over a lawful engine, for an accepted collection name: after a `put`, a `get` of the same
  -- transaction returns the value, and the transaction has recorded exactly this change.
  pub get-put :
      (c k v : Bytes) (tx : WriteTx T)
      → IsName c
      → (do Write.put r c k v; Write.get r c k) tx
        ≡ ok (
          some v,
          record tx {
            table = inserted tx.table (composite c k) v;
            touched = tx.touched ++ change c ChangeOp.insert k ∷ [];
          },
        )
  get-put c k v tx h =
      let after_put : WriteTx T = record tx {
        table = inserted tx.table (composite c k) v;
        touched = tx.touched ++ change c ChangeOp.insert k ∷ [];
      } in
      ground (
        arith,
        put_ok r law c k v tx h,
        write_get r law c k after_put h,
        law.rows-inserted tx.table (composite c k) v,
        user_rows-insert c c k v (rows tx.table) h h (law.rows-IsSorted tx.table),
        beq_refl c,
        lookup-insert k k v (user_rows c (rows tx.table)),
        beq_refl k,
      )

  -- Over a lawful engine: a transaction that has cleared its tables has no entry.
  pub has_any_entry-clear_entries :
      (tx : WriteTx T)
      → (do Write.clear_entries r; Write.has_any_entry r) tx
        ≡ ok (false, record tx { table = emptied tx.table; index_table = emptied tx.index_table })
  unfolding Write.clear_entries Write.has_any_entry
  has_any_entry-clear_entries tx = ground (
    arith,
    law.retain_ok tx.table,
    law.retain_ok tx.index_table,
    law.iter_ok (emptied tx.table),
    law.rows-emptied tx.table,
  )
